-- ===== src/Analysis/Recovery/Seeds/Valid.antt =====
-- Lemmas on `collectSeeds`: the seeds that it returns.
use binary_atlas.Prelude.{
  ℕ, ◌≡◌, refl, sym, subst, inl, inr, Bool, true, false, not, ◌||◌, List, [], ◌∷◌, is_some, is_none,
  ◌==◌, value_or, Bool-cases, Option-cases, All, All-append, arith,
}
use binary_atlas.Prelude.Sets.{Ascending, insert-Ascending, map_find, keys, keys-put, All-map_put}
use binary_atlas.Prelude.Text.{Text}
use binary_atlas.Core.Types.{Address, Symbol}
use binary_atlas.Core.Image.{BinaryImage, is_executable_address}
use binary_atlas.Disasm.Instruction.{Instruction}
use binary_atlas.Disasm.Index.{DisassemblyResult, find}
use binary_atlas.Analysis.Recovery.Seeds.{
  SeedRecord, SeedMap, add_seed, add_symbol_seeds, is_function_symbol, call_target, add_call_seeds,
  is_prologue, add_prologue_seeds, seeds_by_address,
}

module _ (image : BinaryImage) (d : DisassemblyResult) where
  -- The address can start a function.
  abbrev pub Startable : Address → Type 0
  Startable a = (is_executable_address image a ≡ true) × (is_some (find d a) ≡ true)

  abbrev pub Entry : Address × List SeedRecord → Type 0
  Entry e = Startable e.0 × All (λ (r : SeedRecord). r.seed.address ≡ e.0) e.1

  abbrev pub Seeded : SeedMap → Type 0
  Seeded m = All Entry m × Ascending (keys m)

  Entry-find :
      (a : Address) (m : SeedMap)
      → All Entry m
      → All (λ (r : SeedRecord). r.seed.address ≡ a) (value_or (map_find a m) [])
  Entry-find a [] h = tt
  Entry-find a ((k, rs) ∷ m) h = elim (Bool-cases (a == k)) [
    | inl e ↦
        let same : k ≡ a = ground arith in
        rw e (subst (λ b. All (λ (r : SeedRecord). r.seed.address ≡ b) rs) same h.0.1)
    | inr e ↦ rw e (Entry-find a m h.1)
  ]

  add_seed-Seeded :
      (a : Address) (source label : Text) (confidence priority : ℕ) (hard : Bool) (m : SeedMap)
      → Seeded m
      → Seeded (add_seed image d a source label confidence priority hard m)
  unfolding add_seed
  add_seed-Seeded a source label confidence priority hard m h =
      elim (Bool-cases (not (is_executable_address image a) || is_none (find d a))) [
        | inl e ↦ rw e h
        | inr e ↦
            let record_of = λ (r : SeedRecord). r.seed.address ≡ a in
            rw e (
              All-map_put Entry a _ m h.0 (
                (ground arith, ground arith),
                All-append record_of (value_or (map_find a m) []) _ (Entry-find a m h.0) (refl, tt),
              ),
              subst Ascending (sym (keys-put a _ m)) (insert-Ascending a (keys m) h.1),
            )
      ]

  add_symbol_seeds-Seeded :
      (ss : List Symbol) (m : SeedMap) → Seeded m → Seeded (add_symbol_seeds image d ss m)
  unfolding add_symbol_seeds
  add_symbol_seeds-Seeded [] m h = h
  add_symbol_seeds-Seeded (s ∷ ss) m h = elim (Bool-cases (is_function_symbol s)) [
    | inl e ↦ rw e (add_symbol_seeds-Seeded ss _ (add_seed-Seeded _ _ _ _ _ _ m h))
    | inr e ↦ rw e (add_symbol_seeds-Seeded ss m h)
  ]

  add_call_seeds-Seeded :
      (is : List Instruction) (m : SeedMap) → Seeded m → Seeded (add_call_seeds image d is m)
  unfolding add_call_seeds
  add_call_seeds-Seeded [] m h = h
  add_call_seeds-Seeded (i ∷ is) m h = elim (Option-cases (call_target image d i)) [
    | inl e ↦ rw e (add_call_seeds-Seeded is m h)
    | inr (t, e) ↦ rw e (add_call_seeds-Seeded is _ (add_seed-Seeded _ _ _ _ _ _ m h))
  ]

  add_prologue_seeds-Seeded :
      (is : List Instruction) (m : SeedMap) → Seeded m → Seeded (add_prologue_seeds image d is m)
  unfolding add_prologue_seeds
  add_prologue_seeds-Seeded [] m h = h
  add_prologue_seeds-Seeded (i ∷ is) m h = elim (Bool-cases (is_prologue image d i)) [
    | inl e ↦ rw e (add_prologue_seeds-Seeded is _ (add_seed-Seeded _ _ _ _ _ _ m h))
    | inr e ↦ rw e (add_prologue_seeds-Seeded is m h)
  ]

  initial-Seeded : Seeded []
  initial-Seeded = (tt, tt)

  called-Seeded : Seeded (seeds_by_address image d false)
  unfolding seeds_by_address
  called-Seeded = add_call_seeds-Seeded d.instructions _ (
      add_symbol_seeds-Seeded image.symbols _
        (add_seed-Seeded image.metadata.entry_point _ _ _ _ _ [] initial-Seeded))

  pub seeds_by_address-Seeded : (heuristics : Bool) → Seeded (seeds_by_address image d heuristics)
  unfolding seeds_by_address
  seeds_by_address-Seeded true = add_prologue_seeds-Seeded d.instructions _ called-Seeded
  seeds_by_address-Seeded false = called-Seeded
