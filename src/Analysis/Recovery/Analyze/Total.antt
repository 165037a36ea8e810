-- ===== src/Analysis/Recovery/Analyze/Total.antt =====
-- Lemmas on `ProgramAnalyzer::analyze`: its exceptions and what becomes of the seeds.
use binary_atlas.Prelude.{
  ℕ, ◌+◌, ◌≡◌, refl, ap, ◌⊎◌, inl, inr, true, false, some, List, [], ◌∷◌, ◌++◌, is_empty, any, map,
  is_some, length, length-append, Bool-cases, Option-cases, All, arith, suc, value_or,
}
use binary_atlas.Prelude.Sets.{contains, map_find, map_put, map_find-put}
use binary_atlas.Prelude.Sort.{sort_by, by_key, length-sort_by}
use binary_atlas.Prelude.Text.{Text, lit}
use binary_atlas.Core.Types.{Address}
use binary_atlas.Core.Error.{analysis, success, failure}
use binary_atlas.Core.Image.{BinaryImage}
use binary_atlas.Disasm.Index.{DisassemblyResult}
use binary_atlas.Analysis.Function.{FunctionSeed, ProgramAnalysis, AnalysisOptions}
use binary_atlas.Analysis.Recovery.Seeds.{
  SeedRecord, collect_seeds, seed_reason_map, function_symbol_names,
}
use binary_atlas.Analysis.Recovery.Function.{RecoveredState, recover_function}
use binary_atlas.Analysis.Recovery.Analyze.{
  Claims, no_claims, leave_unused, hard_boundaries, claim, claim_seed, claim_seeds, summarize,
  analyze, with_metrics,
}

-- How many seeds the loop has put somewhere.
abbrev settled : Claims → ℕ
settled c = length c.functions + length c.unused

claim-settled :
    (seed : FunctionSeed) (r : RecoveredState) (c : Claims)
    → settled (claim seed r c) ≡ settled c + 1
unfolding claim
claim-settled seed r c = elim (Bool-cases (is_empty r.function.blocks)) [
  | inl e ↦ rw e (omega (arith, length-append c.unused (seed ∷ [])))
  | inr e ↦ elim (Bool-cases (any (λ a. contains a c.claimed) r.instructions)) [
    | inl o ↦ rw (e, o) (omega (arith, length-append c.unused (seed ∷ [])))
    | inr o ↦ rw (e, o) (omega (arith, length-append c.functions (r.function ∷ [])))
  ]
]

seed_reason_map-keeps :
    (a : Address) (rs : List SeedRecord) (m : List (Address × List FunctionSeed))
    → is_some (map_find a m) ≡ true
    → is_some (map_find a (seed_reason_map rs m)) ≡ true
unfolding seed_reason_map
seed_reason_map-keeps a [] m h = h
seed_reason_map-keeps a (r ∷ rs) m h =
    let reasons = value_or (map_find r.seed.address m) [] ++ r.seed ∷ [] in
    seed_reason_map-keeps a rs (map_put r.seed.address reasons m)
      (ground (arith, map_find-put a r.seed.address reasons m, h))

seed_reason_map-All :
    (rs : List SeedRecord) (m : List (Address × List FunctionSeed))
    → All (λ (r : SeedRecord). is_some (map_find r.seed.address (seed_reason_map rs m)) ≡ true) rs
unfolding seed_reason_map
seed_reason_map-All [] m = tt
seed_reason_map-All (r ∷ rs) m =
    let reasons = value_or (map_find r.seed.address m) [] ++ r.seed ∷ [] in
    (
      seed_reason_map-keeps r.seed.address rs (map_put r.seed.address reasons m)
          (ground (arith, map_find-put r.seed.address r.seed.address reasons m)),
      seed_reason_map-All rs (map_put r.seed.address reasons m),
    )

module _ (image : BinaryImage) (d : DisassemblyResult) (hard : List Address)
    (reasons : List (Address × List FunctionSeed)) (names : List (Address × Text)) where
  abbrev SeedSettled : FunctionSeed → Claims → Type 0
  SeedSettled seed c =
      (c' : Claims) × (claim_seed image d hard reasons names seed c ≡ some c')
      × (settled c' ≡ settled c + 1)

  claim_seed-settled :
      (seed : FunctionSeed) (c : Claims)
      → is_some (map_find seed.address reasons) ≡ true
      → SeedSettled seed c
  unfolding claim_seed
  claim_seed-settled seed c h = elim (Bool-cases (contains seed.address c.claimed)) [
    | inl e ↦ (leave_unused seed c, rw e refl, omega (arith, length-append c.unused (seed ∷ [])))
    | inr e ↦ elim (Option-cases (map_find seed.address reasons)) [
      | inl n ↦ absurd (ground (arith, n, h))
      | inr (why, s) ↦
          let recovered = recover_function seed.address why image d hard names in
          (claim seed recovered c, rw (e, s) refl, claim-settled seed recovered c)
    ]
  ]

  claim_seeds-settled :
      (rs : List SeedRecord) (c : Claims)
      → All (λ (r : SeedRecord). is_some (map_find r.seed.address reasons) ≡ true) rs
      → (c' : Claims) × (claim_seeds image d hard reasons names rs c ≡ some c')
        × (settled c' ≡ settled c + length rs)
  unfolding claim_seeds
  claim_seeds-settled [] c h = (c, refl, omega arith)
  claim_seeds-settled (r ∷ rs) c h =
      let (c1, e1, n1) = claim_seed-settled r.seed c h.0 in
      let (c2, e2, n2) = claim_seeds-settled rs c1 h.1 in (c2, rw e1 e2, omega (arith, n1, n2))

length-map : {A B : Type 0} (f : A → B) (xs : List A) → length (map f xs) ≡ length xs
length-map f [] = refl
length-map f (x ∷ xs) = ap suc (length-map f xs)

-- `analyze` returns: an error where the disassembly has no instructions, and else an analysis in
-- which the functions and the unused seeds are together as many as the seeds.
pub analyze_total :
    (image : BinaryImage) (d : DisassemblyResult) (options : AnalysisOptions)
    → ((is_empty d.instructions ≡ true)
        × (analyze image d options
            ≡ some (failure (analysis (lit "analysis requires disassembly input")))))
      ⊎ ((is_empty d.instructions ≡ false)
          × ((p : ProgramAnalysis) × (analyze image d options ≡ some (success p))
              × (length p.functions + length p.unused_seeds
                  ≡ length (collect_seeds image d options.enable_prologue_heuristics))))
unfolding analyze summarize
analyze_total image d options = elim (Bool-cases (is_empty d.instructions)) [
  | inl e ↦ inl (e, rw e refl)
  | inr e ↦
      let seeds = collect_seeds image d options.enable_prologue_heuristics in
      let (c, loop, n) =
        claim_seeds-settled image d (hard_boundaries seeds []) (seed_reason_map seeds [])
          (function_symbol_names image.symbols []) seeds no_claims (seed_reason_map-All seeds []) in
      inr (
        e,
        (
          summarize image c,
          rw (e, loop) refl,
          omega (
            arith,
            n,
            length-map with_metrics (sort_by (by_key (λ f. f.entry)) c.functions),
            length-sort_by (by_key (λ f. f.entry)) c.functions,
          ),
        ),
      )
]
