-- ===== src/Analysis/Recovery/Analyze/Disjoint.antt =====
-- Lemmas on `ProgramAnalyzer::analyze`: the instructions that its functions claim.
use binary_atlas.Prelude.{
  ◌≡◌, sym, ap, ◌∙◌, subst, ◌⊎◌, inl, inr, ◌↔◌, false, Option, none, some, List, [], ◌∷◌, ◌++◌,
  is_empty, any, ◌>>=?◌, Bool-cases, Option-cases, In, In-append_iff, In-map_inv, arith,
}
use binary_atlas.Prelude.Sets.{contains, contains_iff, map_find}
use binary_atlas.Prelude.Sort.{sort_by, by_key, In-sort_by}
use binary_atlas.Prelude.Text.{Text}
use binary_atlas.Core.Types.{Address}
use binary_atlas.Core.Error.{Result, success, failure}
use binary_atlas.Core.Image.{BinaryImage}
use binary_atlas.Disasm.Index.{DisassemblyResult}
use binary_atlas.Analysis.Function.{
  FunctionSeed, function_addresses, RecoveredFunction, ProgramAnalysis, AnalysisOptions,
}
use binary_atlas.Analysis.Recovery.Seeds.{
  SeedRecord, collect_seeds, seed_reason_map, function_symbol_names,
}
use binary_atlas.Analysis.Recovery.Walk.Ends.{IsWalkable}
use binary_atlas.Analysis.Recovery.Function.{recover_function}
use binary_atlas.Analysis.Recovery.Analyze.{
  Claims, no_claims, insert_all, hard_boundaries, claim, claim_seed, claim_seeds, summarize,
  analyze, with_metrics,
}
use binary_atlas.Analysis.Recovery.Analyze.Addresses.{
  recover_function-instructions, In-insert_all, any-false,
}

-- The loop's invariant: what a function has is claimed, and by no other function.
record Owned (c : Claims) : Type 0 where
  covers :
      (f : RecoveredFunction) (a : Address)
      → In f c.functions
      → In a (function_addresses f)
      → In a c.claimed
  single :
      (f g : RecoveredFunction) (a : Address)
      → In f c.functions
      → In g c.functions
      → In a (function_addresses f)
      → In a (function_addresses g)
      → f ≡ g

none_claimed :
    (c : Claims) (f : RecoveredFunction)
    → Owned c
    → ((a : Address) → In a (function_addresses f) → contains a c.claimed ≡ false)
    → (claimed : List Address)
    → ((a : Address) → In a claimed ↔ (In a (function_addresses f) ⊎ In a c.claimed))
    → Owned (record c { claimed = claimed; functions = c.functions ++ f ∷ [] })
none_claimed c f o new claimed grows = record {
  covers = λ g a m k. elim ((In-append_iff g c.functions (f ∷ [])).0 m) [
    | inl old ↦ (grows a).1 (inr (o.covers g a old k))
    | inr (inl e) ↦
        (grows a).1 (inl (subst (λ (h : RecoveredFunction). In a (function_addresses h)) e k))
    | inr (inr z) ↦ absurd z
  ];
  single = λ g h a m n k l. elim ((In-append_iff g c.functions (f ∷ [])).0 m) [
    | inl old ↦ elim ((In-append_iff h c.functions (f ∷ [])).0 n) [
      | inl old' ↦ o.single g h a old old' k l
      | inr (inl e) ↦ absurd (
          clash a (o.covers g a old k)
            (subst (λ (x : RecoveredFunction). In a (function_addresses x)) e l))
      | inr (inr z) ↦ absurd z
    ]
    | inr (inl e) ↦ elim ((In-append_iff h c.functions (f ∷ [])).0 n) [
      | inl old' ↦ absurd (
          clash a (o.covers h a old' l)
            (subst (λ (x : RecoveredFunction). In a (function_addresses x)) e k))
      | inr (inl e') ↦ e ∙ sym e'
      | inr (inr z) ↦ absurd z
    ]
    | inr (inr z) ↦ absurd z
  ];
}
  where
    clash : (a : Address) → In a c.claimed → ¬ In a (function_addresses f)
    clash a m k = ground (arith, new a k, contains_iff a c.claimed)

module _ (image : BinaryImage) (d : DisassemblyResult) (v : IsWalkable d) (hard : List Address)
    (reasons : List (Address × List FunctionSeed)) (names : List (Address × Text)) where
  claim-Owned :
      (seed : FunctionSeed) (why : List FunctionSeed) (c : Claims)
      → Owned c
      → Owned (claim seed (recover_function seed.address why image d hard names) c)
  unfolding claim
  claim-Owned seed why c o =
      let r = recover_function seed.address why image d hard names in
      let same =
        λ (a : Address). recover_function-instructions seed.address why image d hard names a v in
      elim (Bool-cases (is_empty r.function.blocks)) [
        | inl e ↦ rw e (record { covers = o.covers; single = o.single })
        | inr e ↦ elim (Bool-cases (any (λ a. contains a c.claimed) r.instructions)) [
          | inl u ↦ rw (e, u) (record { covers = o.covers; single = o.single })
          | inr u ↦
              rw (e, u)
                (none_claimed c r.function o
                  (λ a m. any-false c.claimed a r.instructions u ((same a).0 m))
                  (insert_all r.instructions c.claimed)
                  (λ a. ground (arith, same a, In-insert_all a r.instructions c.claimed)))
        ]
      ]

  -- The invariant where the loop did not throw.
  abbrev MaybeOwned : Option Claims → Type 0
  MaybeOwned none = Unit
  MaybeOwned (some c) = Owned c

  claim_seed-Owned :
      (seed : FunctionSeed) (c : Claims)
      → Owned c
      → MaybeOwned (claim_seed image d hard reasons names seed c)
  unfolding claim_seed
  claim_seed-Owned seed c o = elim (Bool-cases (contains seed.address c.claimed)) [
    | inl e ↦ rw e (record { covers = o.covers; single = o.single })
    | inr e ↦ elim (Option-cases (map_find seed.address reasons)) [
      | inl n ↦ rw (e, n) tt
      | inr (why, s) ↦ rw (e, s) (claim-Owned seed why c o)
    ]
  ]

  MaybeOwned-bind :
      (q : Option Claims) (f : Claims → Option Claims)
      → MaybeOwned q
      → ((c : Claims) → Owned c → MaybeOwned (f c))
      → MaybeOwned (q >>=? f)
  MaybeOwned-bind none f u k = tt
  MaybeOwned-bind (some c) f u k = k c u

  claim_seeds-Owned :
      (rs : List SeedRecord) (c : Claims)
      → Owned c
      → MaybeOwned (claim_seeds image d hard reasons names rs c)
  unfolding claim_seeds
  claim_seeds-Owned [] c o = o
  claim_seeds-Owned (r ∷ rs) c o =
      MaybeOwned-bind (claim_seed image d hard reasons names r.seed c)
        (claim_seeds image d hard reasons names rs) (claim_seed-Owned r.seed c o)
        (claim_seeds-Owned rs)

no_claims-Owned : Owned no_claims
no_claims-Owned = record { covers = λ f a m. absurd m; single = λ f g a m. absurd m }

-- An address is in one of the functions at most.
abbrev Single : List RecoveredFunction → Type 0
Single fs =
    (f g : RecoveredFunction) (a : Address)
    → In f fs
    → In g fs
    → In a (function_addresses f)
    → In a (function_addresses g)
    → f ≡ g

summarize-Single :
    (image : BinaryImage) (c : Claims) → Owned c → Single (summarize image c).functions
unfolding summarize
summarize-Single image c o f g a m n k l =
    let less = by_key (λ (x : RecoveredFunction). x.entry) in
    let sorted = sort_by less c.functions in
    let (f0, m0, e) = In-map_inv with_metrics f sorted m in
    let (g0, n0, e') = In-map_inv with_metrics g sorted n in
    let same : f0 ≡ g0 =
      o.single f0 g0 a ((In-sort_by less f0 c.functions).0 m0)
        ((In-sort_by less g0 c.functions).0 n0)
        (subst (λ (x : RecoveredFunction). In a (function_addresses x)) e k)
        (subst (λ (x : RecoveredFunction). In a (function_addresses x)) e' l) in
    e ∙ ap with_metrics same ∙ sym e'

abbrev MaybeSingle : Option (Result ProgramAnalysis) → Type 0
MaybeSingle none = Unit
MaybeSingle (some (failure e)) = Unit
MaybeSingle (some (success p)) = Single p.functions

analyze-Single :
    (image : BinaryImage) (d : DisassemblyResult) (options : AnalysisOptions)
    → IsWalkable d
    → MaybeSingle (analyze image d options)
unfolding analyze
analyze-Single image d options v = elim (Bool-cases (is_empty d.instructions)) [
  | inl e ↦ rw e tt
  | inr e ↦
      let seeds = collect_seeds image d options.enable_prologue_heuristics in
      rw e (
        go _ (
          claim_seeds-Owned image d v (hard_boundaries seeds []) (seed_reason_map seeds [])
            (function_symbol_names image.symbols []) seeds no_claims no_claims-Owned))
]
  where
    go :
        (q : Option Claims)
        → MaybeOwned image d v [] [] [] q
        → MaybeSingle (q >>=? λ c. some (success (summarize image c)))
    go none u = tt
    go (some c) u = summarize-Single image c u

-- Where the instructions of the disassembly are not empty and `analyze` returns an analysis, two
-- different functions of it have no instruction address in common.
pub analyze_disjoint :
    (image : BinaryImage) (d : DisassemblyResult) (options : AnalysisOptions) (p : ProgramAnalysis)
    (f g : RecoveredFunction) (a : Address)
    → IsWalkable d
    → analyze image d options ≡ some (success p)
    → In f p.functions
    → In g p.functions
    → ¬ (f ≡ g)
    → In a (function_addresses f)
    → ¬ In a (function_addresses g)
analyze_disjoint image d options p f g a v h m n differ k l =
    differ (subst MaybeSingle h (analyze-Single image d options v) f g a m n k l)
