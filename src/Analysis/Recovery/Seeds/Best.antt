-- ===== src/Analysis/Recovery/Seeds/Best.antt =====
-- Lemmas on `collectSeeds`: the choice among the seeds of one address.
use binary_atlas.Prelude.{
  ◌<◌, ◌≡◌, refl, sym, subst, inl, inr, Bool, true, Option, none, some, List, [], ◌∷◌, is_some, map,
  In, All, All-In, Distinct, arith,
}
use mathlib.Core.Option.{some-injective}
use binary_atlas.Prelude.Sets.{Above, keys}
use binary_atlas.Prelude.Sort.{sort_by, In-sort_by, Distinct-map_sort, All-sort_by}
use binary_atlas.Core.Types.{Address}
use binary_atlas.Core.Image.{BinaryImage, is_executable_address}
use binary_atlas.Disasm.Index.{DisassemblyResult, find}
use binary_atlas.Analysis.Recovery.Seeds.{
  SeedRecord, SeedMap, seeds_by_address, record_less, seed_less, front_record, keep_front,
  best_records, collect_seeds,
}
use binary_atlas.Analysis.Recovery.Seeds.Valid.{Startable, Entry, Seeded, seeds_by_address-Seeded}

module _ (image : BinaryImage) (d : DisassemblyResult) where
  -- The records that are left, one for each address.
  abbrev addresses : List SeedRecord → List Address
  addresses rs = map (λ r. r.seed.address) rs

  front_record-In : (rs : List SeedRecord) (r : SeedRecord) → front_record rs ≡ some r → In r rs
  front_record-In [] r h = absurd (ground arith)
  front_record-In (x ∷ rs) r h = inl (sym (some-injective x r h))

  front_at :
      (j : Address) (rs : List SeedRecord)
      → All (λ (r : SeedRecord). r.seed.address ≡ j) rs
      → (r : SeedRecord) → front_record (sort_by record_less rs) ≡ some r
      → r.seed.address ≡ j
  front_at j rs h r e =
      All-In (λ (x : SeedRecord). x.seed.address ≡ j) r rs h
        ((In-sort_by record_less r rs).0 (front_record-In (sort_by record_less rs) r e))

  abbrev Beyond : Address → SeedRecord → Type 0
  Beyond k r = Startable image d r.seed.address × (k < r.seed.address)

  keep_front-Beyond :
      (k j : Address) (o : Option SeedRecord) (rest : List SeedRecord)
      → ((r : SeedRecord) → o ≡ some r → r.seed.address ≡ j)
      → Startable image d j
      → k < j
      → All (Beyond k) rest
      → All (Beyond k) (keep_front o rest)
  keep_front-Beyond k j none rest at s l h = h
  keep_front-Beyond k j (some r) rest at s l h =
      ((subst (Startable image d) (sym (at r refl)) s, omega (arith, at r refl, l)), h)

  best_records-Above :
      (k : Address) (m : SeedMap)
      → All (Entry image d) m
      → Above k (keys m)
      → All
          (λ (r : SeedRecord). Startable image d r.seed.address × (k < r.seed.address))
          (best_records m)
  unfolding best_records
  best_records-Above k [] h a = tt
  best_records-Above k ((j, rs) ∷ m) h a =
      keep_front-Beyond k j (front_record (sort_by record_less rs)) (best_records m)
        (front_at j rs h.0.1) h.0.0 a.0 (best_records-Above k m h.1 a.1)

  -- The addresses rise.
  abbrev Rising : List SeedRecord → Type 0
  Rising [] = Unit
  Rising (r ∷ rs) = Startable image d r.seed.address × All (Beyond r.seed.address) rs × Rising rs

  keep_front-Rising :
      (j : Address) (o : Option SeedRecord) (rest : List SeedRecord)
      → ((r : SeedRecord) → o ≡ some r → r.seed.address ≡ j)
      → Startable image d j
      → All (Beyond j) rest
      → Rising rest
      → Rising (keep_front o rest)
  keep_front-Rising j none rest at s l h = h
  keep_front-Rising j (some r) rest at s l h = (
    subst (Startable image d) (sym (at r refl)) s,
    subst (λ k. All (Beyond k) rest) (sym (at r refl)) l,
    h,
  )

  best_records-Rising : (m : SeedMap) → Seeded image d m → Rising (best_records m)
  unfolding best_records
  best_records-Rising [] h = tt
  best_records-Rising ((j, rs) ∷ m) h =
      keep_front-Rising j (front_record (sort_by record_less rs)) (best_records m)
        (front_at j rs h.0.0.1) h.0.0.0 (best_records-Above j m h.0.1 h.1.0)
        (best_records-Rising m (h.0.1, h.1.1))

  Beyond-absent : (k : Address) (rs : List SeedRecord) → All (Beyond k) rs → ¬ In k (addresses rs)
  Beyond-absent k [] h m = m
  Beyond-absent k (r ∷ rs) h (inl e) = absurd (omega (arith, h.0.1, e))
  Beyond-absent k (r ∷ rs) h (inr m) = Beyond-absent k rs h.1 m

  Rising-Distinct :
      (rs : List SeedRecord)
      → Rising rs
      → Distinct (addresses rs) × All (λ (r : SeedRecord). Startable image d r.seed.address) rs
  Rising-Distinct [] h = (tt, tt)
  Rising-Distinct (r ∷ rs) h =
      let (d', s) = Rising-Distinct rs h.2 in ((Beyond-absent r.seed.address rs h.1, d'), (h.0, s))

  -- Each seed of `collectSeeds` is at an executable address that has an instruction, and no two
  -- seeds have the same address.
  pub collect_seeds_valid :
      (heuristics : Bool)
      → Distinct (map (λ (r : SeedRecord). r.seed.address) (collect_seeds image d heuristics))
        × All
            (λ (r : SeedRecord).
              (is_executable_address image r.seed.address ≡ true)
              × (is_some (find d r.seed.address) ≡ true))
            (collect_seeds image d heuristics)
  unfolding collect_seeds
  collect_seeds_valid heuristics =
      let best = best_records (seeds_by_address image d heuristics) in
      let (distinct, startable) =
        Rising-Distinct best (best_records-Rising _ (seeds_by_address-Seeded image d heuristics)) in
      (
        Distinct-map_sort (λ (r : SeedRecord). r.seed.address) seed_less best distinct,
        All-sort_by seed_less (λ (r : SeedRecord). Startable image d r.seed.address) best startable,
      )
