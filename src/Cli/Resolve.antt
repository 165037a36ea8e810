-- ===== src/Cli/Resolve.antt =====
-- Lemmas on `resolveFunction`: that it finds every function by its printed address.
use binary_atlas.Prelude.{
  ℕ, ◌^◌, ◌<◌, ◌≡◌, sym, ap, subst, true, inl, inr, some, List, [], ◌∷◌, ◌==◌, map, In, find_if,
  arith,
}
use binary_atlas.Prelude.Sets.{Above, Ascending}
use binary_atlas.Util.Strings.{format_hex}
use binary_atlas.Core.Error.{success}
use binary_atlas.Core.Image.{BinaryImage}
use binary_atlas.Disasm.Index.{DisassemblyResult}
use binary_atlas.Analysis.Function.{AnalysisOptions, ProgramAnalysis, RecoveredFunction}
use binary_atlas.Analysis.Recovery.Analyze.{analyze}
use binary_atlas.Analysis.Recovery.Analyze.Ordered.{analyze_ordered}
use binary_atlas.Cli.Address.Printed.{parse_address-format_hex}
use binary_atlas.Cli.Files.{resolve_function}

abbrev entries : List RecoveredFunction → List ℕ
entries fs = map (λ (f : RecoveredFunction). f.entry) fs

Above-In :
    (k : ℕ) (fs : List RecoveredFunction) (f : RecoveredFunction)
    → Above k (entries fs)
    → In f fs
    → k < f.entry
Above-In k [] f a m = absurd m
Above-In k (g ∷ fs) f a (inl same) = subst (λ (x : RecoveredFunction). k < x.entry) (sym same) a.0
Above-In k (g ∷ fs) f a (inr later) = Above-In k fs f a.1 later

find_if_entry :
    (fs : List RecoveredFunction) (f : RecoveredFunction)
    → Ascending (entries fs)
    → In f fs
    → find_if (λ g. g.entry == f.entry) fs ≡ some f
find_if_entry [] f a m = absurd m
find_if_entry (g ∷ fs) f a (inl same) =
    let test : (g.entry == f.entry) ≡ true =
      ground (arith, ap (λ (x : RecoveredFunction). x.entry) same) in
    rw test (ap some (sym same))
find_if_entry (g ∷ fs) f a (inr later) =
    let below = Above-In g.entry fs f a.0 later in
    ground (arith, below, find_if_entry fs f a.1 later)

-- `cfg --function` finds every function of an analysis by the address that is printed for its entry.
pub resolve_function-format_hex :
    (image : BinaryImage) (d : DisassemblyResult) (options : AnalysisOptions) (p : ProgramAnalysis)
    (f : RecoveredFunction)
    → analyze image d options ≡ some (success p)
    → In f p.functions
    → f.entry < 2 ^ 64
    → resolve_function p (format_hex f.entry) ≡ some f
unfolding resolve_function
resolve_function-format_hex image d options p f h m word =
    rw (resolve_function, parse_address-format_hex f.entry word)
      (find_if_entry p.functions f (analyze_ordered image d options p h) m)
