-- ===== src/Cli/DotFiles.antt =====
-- Lemmas on the DOT files of `analyze --full`: their names.
use binary_atlas.Prelude.{
  ℕ, ◌≡◌, refl, sym, ap, ◌∙◌, inl, inr, Option, none, some, List, [], ◌∷◌, ◌++◌, ◌==◌, map, drop,
  In, All, Distinct, In-map_inv, if◌then◌else◌, arith,
}
use binary_atlas.Prelude.Sets.{Above, Ascending}
use binary_atlas.Prelude.Text.{Text, lit}
use binary_atlas.Util.Strings.{format_hex}
use binary_atlas.Util.Strings.Hex.{PlainChar, parse_hex, parse_hex-format_hex, format_hex-PlainChar}
use binary_atlas.Core.Error.{success}
use binary_atlas.Core.Image.{BinaryImage}
use binary_atlas.Disasm.Index.{DisassemblyResult}
use binary_atlas.Analysis.Function.{AnalysisOptions, ProgramAnalysis, RecoveredFunction}
use binary_atlas.Analysis.Recovery.Analyze.{analyze}
use binary_atlas.Analysis.Recovery.Analyze.Ordered.{analyze_ordered}
use binary_atlas.Cli.Files.{sanitize_name, dot_file_name}

-- What stands behind the last underscore, and in front of the first dot.
after_underscore : Text → Option Text
after_underscore [] = none
after_underscore (c ∷ cs) = elim (after_underscore cs) [
  | some t ↦ some t
  | none ↦ if c == b'_' then some cs else none
]

before_dot : Text → Text
before_dot [] = []
before_dot (c ∷ cs) = let rest = before_dot cs in if c == b'.' then [] else c ∷ rest

plain-after_underscore :
    (t rest : Text)
    → All PlainChar t
    → after_underscore rest ≡ none
    → after_underscore (t ++ rest) ≡ none
unfolding after_underscore
plain-after_underscore [] rest h k = k
plain-after_underscore (c ∷ cs) rest h k =
    rw (plain-after_underscore cs rest h.1 k) (ground (arith, h.0.0))

after_underscore_lem :
    (front t : Text) → after_underscore t ≡ none → after_underscore (front ++ b'_' ∷ t) ≡ some t
unfolding after_underscore
after_underscore_lem [] t h = rw h refl
after_underscore_lem (c ∷ cs) t h = rw (after_underscore_lem cs t h) refl

before_dot_lem : (t rest : Text) → All PlainChar t → before_dot (t ++ b'.' ∷ rest) ≡ t
unfolding before_dot
before_dot_lem [] rest h = refl
before_dot_lem (c ∷ cs) rest h = rw h.0.1 (ap (◌∷◌ c) (before_dot_lem cs rest h.1))

-- The part of the name that says the entry.
dot_file_name-after :
    (f : RecoveredFunction)
    → after_underscore (dot_file_name f) ≡ some (drop 2 (format_hex f.entry) ++ lit ".dot")
unfolding dot_file_name after_underscore
dot_file_name-after f =
    after_underscore_lem (sanitize_name f.name) (drop 2 (format_hex f.entry) ++ lit ".dot") (
      plain-after_underscore (drop 2 (format_hex f.entry)) (lit ".dot")
        (format_hex-PlainChar f.entry) no_underscore)
  where
    no_underscore : after_underscore (lit ".dot") ≡ none
    no_underscore = refl

some_inj : {A : Type 0} {a b : A} → some a ≡ some b → a ≡ b
some_inj h = cc

-- Functions with different entries have different file names.
dot_file_name_injective :
    (f g : RecoveredFunction) → dot_file_name f ≡ dot_file_name g → f.entry ≡ g.entry
dot_file_name_injective f g h =
    let digits : drop 2 (format_hex f.entry) ++ lit ".dot"
        ≡ drop 2 (format_hex g.entry) ++ lit ".dot" =
      some_inj (sym (dot_file_name-after f) ∙ ap after_underscore h ∙ dot_file_name-after g) in
    let same : drop 2 (format_hex f.entry) ≡ drop 2 (format_hex g.entry) =
      sym (before_dot_lem (drop 2 (format_hex f.entry)) (lit "dot") (format_hex-PlainChar f.entry))
      ∙ ap before_dot digits
      ∙ before_dot_lem (drop 2 (format_hex g.entry)) (lit "dot") (format_hex-PlainChar g.entry) in
    sym (parse_hex-format_hex f.entry) ∙ ap parse_hex same ∙ parse_hex-format_hex g.entry

Above-not-In : (k : ℕ) (xs : List ℕ) → Above k xs → ¬ In k xs
Above-not-In k [] a m = m
Above-not-In k (x ∷ xs) a (inl e) = absurd (omega (arith, a.0, e))
Above-not-In k (x ∷ xs) a (inr m) = Above-not-In k xs a.1 m

In-entries :
    (f : RecoveredFunction) (fs : List RecoveredFunction)
    → In (dot_file_name f) (map dot_file_name fs)
    → In f.entry (map (λ (g : RecoveredFunction). g.entry) fs)
In-entries f [] m = m
In-entries f (g ∷ fs) (inl e) = inl (dot_file_name_injective f g e)
In-entries f (g ∷ fs) (inr m) = inr (In-entries f fs m)

names-Distinct :
    (fs : List RecoveredFunction)
    → Ascending (map (λ (g : RecoveredFunction). g.entry) fs)
    → Distinct (map dot_file_name fs)
names-Distinct [] a = tt
names-Distinct (f ∷ fs) a =
    (λ m. Above-not-In f.entry _ a.0 (In-entries f fs m), names-Distinct fs a.1)

call_graph_name : (fs : List RecoveredFunction) → ¬ In (lit "callgraph.dot") (map dot_file_name fs)
unfolding after_underscore
call_graph_name fs m =
    let (f, k, e) = In-map_inv dot_file_name (lit "callgraph.dot") fs m in
    let impossible : after_underscore (lit "callgraph.dot")
        ≡ some (drop 2 (format_hex f.entry) ++ lit ".dot") =
      ap after_underscore e ∙ dot_file_name-after f in
    cc impossible

-- The DOT files that `analyze --full` writes for an analysis, the call graph's and one for each function,
-- all have different names, whatever the functions are called: none overwrites another.
pub dot_files-Distinct :
    (image : BinaryImage) (d : DisassemblyResult) (options : AnalysisOptions) (p : ProgramAnalysis)
    → analyze image d options ≡ some (success p)
    → Distinct (lit "callgraph.dot" ∷ map dot_file_name p.functions)
dot_files-Distinct image d options p h =
    (call_graph_name p.functions, names-Distinct p.functions (analyze_ordered image d options p h))
