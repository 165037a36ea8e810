-- ===== src/Heuristics/Vtable/Runs.antt =====
-- Lemmas on the loops of `detectVtableRegions`: the runs of code pointers in one section.
use binary_atlas.Prelude.{
  ℕ, zero, suc, ◌+◌, ◌*◌, ◌≤◌, ◌<◌, ◌≡◌, refl, ap, subst, ◌∙◌, true, false, ◌⊎◌, inl, inr, List,
  ◌∷◌, leb, In, Bool-cases, arith, ◌-◌,
}
use binary_atlas.Core.Types.{Section}
use binary_atlas.Core.Image.{BinaryImage, is_executable_address}
use binary_atlas.Heuristics.Finding.{HeuristicFinding}
use binary_atlas.Heuristics.Vtable.{
  read_little_endian_pointer, vtable_finding, is_code_pointer, run_from, vtable_loop,
}

-- From the cursor on there are `run` pointers into code and no more.
pub record IsRun (image : BinaryImage) (s : Section) (available cursor run : ℕ) : Type 0 where
  pub fits : cursor + run * 8 ≤ available
  pub code : (i : ℕ) → i < run → is_code_pointer image s cursor i ≡ true
  pub ends : (available < cursor + (run + 1) * 8) ⊎ (is_code_pointer image s cursor run ≡ false)

module _ (image : BinaryImage) (s : Section) (available : ℕ) where
  abbrev Code : ℕ → ℕ → Type 0
  Code cursor i = is_code_pointer image s cursor i ≡ true

  -- A pointer is the same from a cursor that is further on.
  code-shift :
      (cursor a i : ℕ)
      → is_code_pointer image s (cursor + a * 8) i ≡ is_code_pointer image s cursor (a + i)
  code-shift cursor a i =
      ap (λ o. is_executable_address image (read_little_endian_pointer image.file_bytes o))
        (omega arith)

  longer_run :
      (cursor k : ℕ)
      → ((i : ℕ) → i < k → Code cursor i)
      → Code cursor k
      → (i : ℕ) → i < k + 1
      → Code cursor i
  longer_run cursor k before here i h = elim (Bool-cases (leb k i)) [
    | inl e ↦ let same : k ≡ i = ground arith in subst (Code cursor) same here
    | inr e ↦ before i (ground arith)
  ]

  run_from-IsRun :
      (fuel cursor k : ℕ)
      → cursor + k * 8 ≤ available
      → ((i : ℕ) → i < k → Code cursor i)
      → available ≤ cursor + (k + fuel) * 8 + 7
      → IsRun image s available cursor (run_from image s available fuel cursor k)
  unfolding run_from
  run_from-IsRun zero cursor k fits code enough = record {
    fits = fits;
    code = code;
    ends = inl (omega (arith, enough));
  }
  run_from-IsRun (suc fuel) cursor k fits code enough =
      elim (Bool-cases (leb (cursor + (k + 1) * 8) available)) [
        | inr out ↦ rw out (record { fits = fits; code = code; ends = inl (ground (arith, out)) })
        | inl inside ↦ elim (Bool-cases (is_code_pointer image s cursor k)) [
          | inr other ↦ rw (inside, other) (record { fits = fits; code = code; ends = inr other })
          | inl here ↦
              rw (inside, here)
                (run_from-IsRun fuel cursor (k + 1) (ground (arith, inside))
                  (longer_run cursor k code here) (omega (arith, enough)))
        ]
      ]

  abbrev run_at : ℕ → ℕ
  run_at cursor = run_from image s available available cursor 0

  run_at-IsRun :
      (cursor : ℕ) → cursor + 8 ≤ available → IsRun image s available cursor (run_at cursor)
  run_at-IsRun cursor fits =
      run_from-IsRun available cursor 0 (omega arith) (λ i h. absurd (omega arith)) (omega arith)

  -- A finding of the loop stands for a run.
  abbrev pub IsRegion : ℕ → HeuristicFinding → Type 0
  IsRegion cursor f =
      (c run k : ℕ) × (c ≡ cursor + k * 8)
      × (3 ≤ run)
      × IsRun image s available c run
      × (f ≡ vtable_finding s c run)

  IsRegion-further :
      (cursor a : ℕ) (f : HeuristicFinding) → IsRegion (cursor + a * 8) f → IsRegion cursor f
  IsRegion-further cursor a f (c, run, k, at, long, is_run, same) =
      (c, run, a + k, omega (arith, at), long, is_run, same)

  pub vtable_loop_sound :
      (fuel cursor : ℕ) (f : HeuristicFinding)
      → In f (vtable_loop image s available fuel cursor)
      → IsRegion cursor f
  unfolding vtable_loop
  vtable_loop_sound zero cursor f m = absurd m
  vtable_loop_sound (suc fuel) cursor f m = elim (Bool-cases (leb (cursor + 8) available)) [
    | inr out ↦ absurd (rw out at m)
    | inl inside ↦ elim (Bool-cases (leb 3 (run_at cursor))) [
      | inl long ↦ elim (rw (inside, long) at m) [
        | inl same ↦ (
          cursor,
          run_at cursor,
          0,
          omega arith,
          ground (arith, long),
          run_at-IsRun cursor (ground (arith, inside)),
          same,
        )
        | inr behind ↦
            IsRegion-further cursor (run_at cursor) f
              (vtable_loop_sound fuel (cursor + run_at cursor * 8) f behind)
      ]
      | inr short ↦
          IsRegion-further cursor 1 f
            (vtable_loop_sound fuel (cursor + 8) f (rw (inside, short) at m))
    ]
  ]

  -- Three pointers into code, one behind the other from the slot `k` on.
  abbrev pub Triple : ℕ → ℕ → Type 0
  Triple cursor k =
      (cursor + (k + 3) * 8 ≤ available) × Code cursor k × Code cursor (k + 1) × Code cursor (k + 2)

  -- A finding whose run covers the slot.
  abbrev pub Covered : ℕ → ℕ → List HeuristicFinding → Type 0
  Covered cursor k findings =
      (c run : ℕ) × (3 ≤ run)
      × IsRun image s available c run
      × In (vtable_finding s c run) findings
      × (c ≤ cursor + k * 8)
      × (cursor + k * 8 < c + run * 8)

  -- A run that begins before three such pointers does not end at one of them.
  run_covers : (cursor run : ℕ) → IsRun image s available cursor run → Triple cursor 0 → 3 ≤ run
  run_covers cursor zero r t = elim r.ends [
    | inl out ↦ absurd (omega (arith, t.0))
    | inr other ↦ absurd (cc (t.1, other))
  ]
  run_covers cursor (suc zero) r t = elim r.ends [
    | inl out ↦ absurd (omega (arith, t.0))
    | inr other ↦ absurd (cc (t.2, other))
  ]
  run_covers cursor (suc (suc zero)) r t = elim r.ends [
    | inl out ↦ absurd (omega (arith, t.0))
    | inr other ↦ absurd (cc (t.3, other))
  ]
  run_covers cursor (suc (suc (suc run))) r t = omega arith

  moved : (cursor a k l : ℕ) → k ≡ a + l → Triple cursor k → Triple (cursor + a * 8) l
  moved cursor a k l e (fits, x, y, z) = (
    omega (arith, fits, e),
    code-shift cursor a l ∙ subst (Code cursor) e x,
    code-shift cursor a (l + 1) ∙ subst (Code cursor) (omega (arith, e)) y,
    code-shift cursor a (l + 2) ∙ subst (Code cursor) (omega (arith, e)) z,
  )

  Covered-further :
      (cursor a k l : ℕ) (fs : List HeuristicFinding)
      → k ≡ a + l
      → Covered (cursor + a * 8) l fs
      → Covered cursor k fs
  Covered-further cursor a k l fs e (c, run, long, r, m, lo, hi) =
      (c, run, long, r, m, omega (arith, e, lo), omega (arith, e, hi))

  Covered-behind :
      (cursor k : ℕ) (f : HeuristicFinding) (fs : List HeuristicFinding)
      → Covered cursor k fs
      → Covered cursor k (f ∷ fs)
  Covered-behind cursor k f fs (c, run, long, r, m, lo, hi) = (c, run, long, r, inr m, lo, hi)

  -- Where the first slot is short, three pointers begin later.
  Triple-later :
      (cursor k : ℕ)
      → cursor + 8 ≤ available
      → leb 3 (run_at cursor) ≡ false
      → Triple cursor k
      → k ≡ 1 + (k - 1)
  Triple-later cursor zero inside short t =
      absurd
        (ground (arith, short, run_covers cursor (run_at cursor) (run_at-IsRun cursor inside) t))
  Triple-later cursor (suc k) inside short t = omega arith

  pub vtable_loop_complete :
      (fuel cursor k : ℕ)
      → available ≤ cursor + fuel * 8 + 7
      → Triple cursor k
      → Covered cursor k (vtable_loop image s available fuel cursor)
  unfolding vtable_loop
  vtable_loop_complete zero cursor k enough t = absurd (omega (arith, enough, t.0))
  vtable_loop_complete (suc fuel) cursor k enough t =
      let run = run_at cursor in
      let fits : cursor + 8 ≤ available = omega (arith, t.0) in
      let inside : leb (cursor + 8) available ≡ true = ground (arith, fits) in
      elim (Bool-cases (leb 3 run)) [
        | inr short ↦
            let later = Triple-later cursor k fits short t in
            rw (inside, short)
              (Covered-further cursor 1 k (k - 1) _ later (
                vtable_loop_complete fuel (cursor + 1 * 8) (k - 1) (omega (arith, enough))
                  (moved cursor 1 k (k - 1) later t)))
        | inl long ↦ elim (Bool-cases (leb run k)) [
          | inr within ↦
              rw (inside, long)
                (
                  cursor,
                  run,
                  ground (arith, long),
                  run_at-IsRun cursor fits,
                  inl refl,
                  omega arith,
                  ground (arith, within),
                )
          | inl beyond ↦
              let later : k ≡ run + (k - run) = ground (arith, beyond) in
              let far : 3 ≤ run = ground (arith, long) in
              rw (inside, long)
                (Covered-behind cursor k (vtable_finding s cursor run) _ (
                  Covered-further cursor run k (k - run) _ later (
                    vtable_loop_complete fuel (cursor + run * 8) (k - run)
                      (omega (arith, enough, far)) (moved cursor run k (k - run) later t))))
        ]
      ]
