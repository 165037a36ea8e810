-- ===== src/Analysis/Recovery/Analyze/Ordered.antt =====
-- Lemmas on `ProgramAnalyzer::analyze`: the order of its functions.
use binary_atlas.Prelude.{
  ◌≡◌, refl, sym, ap, ◌∙◌, subst, inl, inr, Option, none, some, List, [], ◌∷◌, ◌++◌, is_empty, any,
  map, ◌>>=?◌, Bool-cases, Option-cases, In, In-append_iff, Distinct, Distinct-concat,
}
use binary_atlas.Prelude.Sets.{contains, map_find, Ascending}
use binary_atlas.Prelude.Sort.{
  sort_by, by_key, by_key-IsOrder, sort_by-Sorted, Distinct-map_sort, Sorted-Ascending,
}
use binary_atlas.Prelude.Text.{Text}
use binary_atlas.Core.Types.{Address}
use binary_atlas.Core.Error.{Result, success, failure}
use binary_atlas.Core.Image.{BinaryImage}
use binary_atlas.Disasm.Index.{DisassemblyResult}
use binary_atlas.Analysis.Function.{
  FunctionSeed, RecoveredFunction, ProgramAnalysis, AnalysisOptions,
}
use binary_atlas.Analysis.Recovery.Seeds.{
  SeedRecord, collect_seeds, seed_reason_map, function_symbol_names,
}
use binary_atlas.Analysis.Recovery.Seeds.Best.{collect_seeds_valid}
use binary_atlas.Analysis.Recovery.Function.{recover_function, assemble}
use binary_atlas.Analysis.Recovery.Analyze.{
  Claims, no_claims, leave_unused, hard_boundaries, claim, claim_seed, claim_seeds, summarize,
  analyze, with_metrics,
}

abbrev entries : List RecoveredFunction → List Address
entries fs = map (λ f. f.entry) fs

abbrev addresses : List SeedRecord → List Address
addresses rs = map (λ r. r.seed.address) rs

-- No entry twice, and none that is still to come.
abbrev Apart : List SeedRecord → List RecoveredFunction → Type 0
Apart rs fs = Distinct (entries fs) × ((a : Address) → In a (entries fs) → ¬ In a (addresses rs))

abbrev MaybeDistinct : Option Claims → Type 0
MaybeDistinct none = Unit
MaybeDistinct (some c) = Distinct (entries c.functions)

entries-append :
    (fs : List RecoveredFunction) (f : RecoveredFunction)
    → entries (fs ++ f ∷ []) ≡ entries fs ++ f.entry ∷ []
entries-append [] f = refl
entries-append (g ∷ fs) f = ap (λ xs. g.entry ∷ xs) (entries-append fs f)

Apart-append :
    (r : SeedRecord) (rs : List SeedRecord) (fs : List RecoveredFunction) (f : RecoveredFunction)
    → f.entry ≡ r.seed.address
    → ¬ In r.seed.address (addresses rs)
    → Apart (r ∷ rs) fs
    → Apart rs (fs ++ f ∷ [])
Apart-append r rs fs f at new h =
    subst (λ es. Distinct es × ((a : Address) → In a es → ¬ In a (addresses rs)))
      (sym (entries-append fs f))
      (
        Distinct-concat (entries fs) f.entry h.0 (λ m. h.1 f.entry m (inl at)),
        λ a m k. elim ((In-append_iff a (entries fs) (f.entry ∷ [])).0 m) [
          | inl old ↦ h.1 a old (inr k)
          | inr (inl e) ↦ new (subst (λ b. In b (addresses rs)) (e ∙ at) k)
          | inr (inr z) ↦ z
        ],
      )

Apart-rest :
    (r : SeedRecord) (rs : List SeedRecord) (fs : List RecoveredFunction)
    → Apart (r ∷ rs) fs
    → Apart rs fs
Apart-rest r rs fs h = (h.0, λ a m k. h.1 a m (inr k))

module _ (image : BinaryImage) (d : DisassemblyResult) (hard : List Address)
    (reasons : List (Address × List FunctionSeed)) (names : List (Address × Text)) where
  claim-Apart :
      (r : SeedRecord) (rs : List SeedRecord) (why : List FunctionSeed) (c : Claims)
      → ¬ In r.seed.address (addresses rs)
      → Apart (r ∷ rs) c.functions
      → Apart rs (claim r.seed (recover_function r.seed.address why image d hard names) c).functions
  unfolding claim recover_function assemble
  claim-Apart r rs why c new h =
      let s = recover_function r.seed.address why image d hard names in
      elim (Bool-cases (is_empty s.function.blocks)) [
        | inl e ↦ rw e (Apart-rest r rs c.functions h)
        | inr e ↦ elim (Bool-cases (any (λ a. contains a c.claimed) s.instructions)) [
          | inl u ↦ rw (e, u) (Apart-rest r rs c.functions h)
          | inr u ↦ rw (e, u) (Apart-append r rs c.functions s.function refl new h)
        ]
      ]

  claim_seeds-Distinct :
      (rs : List SeedRecord) (c : Claims)
      → Distinct (addresses rs)
      → Apart rs c.functions
      → MaybeDistinct (claim_seeds image d hard reasons names rs c)
  unfolding claim_seeds claim_seed
  claim_seeds-Distinct [] c d' h = h.0
  claim_seeds-Distinct (r ∷ rs) c d' h = elim (Bool-cases (contains r.seed.address c.claimed)) [
    | inl e ↦
        rw e (claim_seeds-Distinct rs (leave_unused r.seed c) d'.1 (Apart-rest r rs c.functions h))
    | inr e ↦ elim (Option-cases (map_find r.seed.address reasons)) [
      | inl n ↦ rw (e, n) tt
      | inr (why, s) ↦
          rw (e, s)
            (claim_seeds-Distinct rs
              (claim r.seed (recover_function r.seed.address why image d hard names) c) d'.1
              (claim-Apart r rs why c d'.0 h))
    ]
  ]

abbrev MaybeAscending : Option (Result ProgramAnalysis) → Type 0
MaybeAscending none = Unit
MaybeAscending (some (failure e)) = Unit
MaybeAscending (some (success p)) = Ascending (entries p.functions)

entries-with_metrics : (fs : List RecoveredFunction) → entries (map with_metrics fs) ≡ entries fs
entries-with_metrics [] = refl
entries-with_metrics (f ∷ fs) = ap (λ xs. f.entry ∷ xs) (entries-with_metrics fs)

summarize-Ascending :
    (image : BinaryImage) (c : Claims)
    → Distinct (entries c.functions)
    → Ascending (entries (summarize image c).functions)
unfolding summarize
summarize-Ascending image c h =
    let key = λ (f : RecoveredFunction). f.entry in
    let sorted = sort_by (by_key key) c.functions in
    subst Ascending (sym (entries-with_metrics sorted)) (
      Sorted-Ascending key sorted (sort_by-Sorted (by_key key) (by_key-IsOrder key) c.functions)
        (Distinct-map_sort key (by_key key) c.functions h))

analyze-Ascending :
    (image : BinaryImage) (d : DisassemblyResult) (options : AnalysisOptions)
    → MaybeAscending (analyze image d options)
unfolding analyze
analyze-Ascending image d options = elim (Bool-cases (is_empty d.instructions)) [
  | inl e ↦ rw e tt
  | inr e ↦
      let seeds = collect_seeds image d options.enable_prologue_heuristics in
      rw e (
        go _ (
          claim_seeds-Distinct image d (hard_boundaries seeds []) (seed_reason_map seeds [])
            (function_symbol_names image.symbols []) seeds no_claims
            (collect_seeds_valid image d options.enable_prologue_heuristics).0
            (tt, λ a m. absurd m)))
]
  where
    go :
        (q : Option Claims)
        → MaybeDistinct q
        → MaybeAscending (q >>=? λ c. some (success (summarize image c)))
    go none u = tt
    go (some c) u = summarize-Ascending image c u

-- Where `analyze` returns an analysis, the entries of its functions rise strictly: the functions
-- are in the order of their entries, and no entry has two functions.
pub analyze_ordered :
    (image : BinaryImage) (d : DisassemblyResult) (options : AnalysisOptions) (p : ProgramAnalysis)
    → analyze image d options ≡ some (success p)
    → Ascending (map (λ (f : RecoveredFunction). f.entry) p.functions)
analyze_ordered image d options p h = subst MaybeAscending h (analyze-Ascending image d options)
