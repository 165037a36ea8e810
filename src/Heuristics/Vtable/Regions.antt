-- ===== src/Heuristics/Vtable/Regions.antt =====
-- Lemmas on `detectVtableRegions`: the regions that it reports for an image.
use binary_atlas.Prelude.{
  ℕ, ◌*◌, ◌≤◌, ◌≡◌, refl, subst, true, false, inl, inr, List, [], ◌∷◌, In, Bool-cases,
  In-append_cases, In-append_left, In-append_right, arith,
}
use binary_atlas.Core.Types.{Section}
use binary_atlas.Core.Image.{BinaryImage}
use binary_atlas.Heuristics.Finding.{HeuristicFinding}
use binary_atlas.Heuristics.Vtable.{
  vtable_finding, available_bytes, is_skipped, section_regions, regions_of, detect_vtable_regions,
}
use binary_atlas.Heuristics.Vtable.Runs.{
  IsRun, Triple, Covered, vtable_loop_sound, vtable_loop_complete,
}

-- A run in a section of data, at a slot of eight bytes, and the finding for it.
abbrev pub FoundIn : BinaryImage → Section → HeuristicFinding → Type 0
FoundIn image s f =
    (s.executable ≡ false)
    × (s.alloc ≡ true)
    × ((k run : ℕ) × (3 ≤ run)
        × IsRun image s (available_bytes image s) (k * 8) run
        × (f ≡ vtable_finding s (k * 8) run))

section_regions_sound :
    (image : BinaryImage) (s : Section) (f : HeuristicFinding)
    → In f (section_regions image s)
    → FoundIn image s f
unfolding section_regions
section_regions_sound image s f m = elim (Bool-cases (is_skipped image s)) [
  | inl skipped ↦ absurd (rw skipped at m)
  | inr taken ↦
      let available = available_bytes image s in
      let (c, run, k, at, long, is_run, same) =
        vtable_loop_sound image s available available 0 f (rw taken at m) in
      let slot : c ≡ k * 8 = omega (arith, at) in
      (
        ground (arith, taken),
        ground (arith, taken),
        (
          k,
          run,
          long,
          subst (λ c. IsRun image s available c run) slot is_run,
          subst (λ c. f ≡ vtable_finding s c run) slot same,
        ),
      )
]

section_regions_complete :
    (image : BinaryImage) (s : Section) (k : ℕ)
    → s.executable ≡ false
    → s.alloc ≡ true
    → Triple image s (available_bytes image s) 0 k
    → Covered image s (available_bytes image s) 0 k (section_regions image s)
unfolding section_regions
section_regions_complete image s k plain loaded t =
    let taken : is_skipped image s ≡ false = ground (arith, plain, loaded, t.0) in
    rw taken (
      vtable_loop_complete image s (available_bytes image s) (available_bytes image s) 0 k
        (omega arith) t)

regions_of_sound :
    (image : BinaryImage) (ss : List Section) (f : HeuristicFinding)
    → In f (regions_of image ss)
    → (s : Section) × In s ss × FoundIn image s f
unfolding regions_of
regions_of_sound image [] f m = absurd m
regions_of_sound image (s ∷ ss) f m =
    elim (In-append_cases f (section_regions image s) (regions_of image ss) m) [
      | inl here ↦ (s, inl refl, section_regions_sound image s f here)
      | inr later ↦ let (u, k, h) = regions_of_sound image ss f later in (u, inr k, h)
    ]

regions_of_all :
    (image : BinaryImage) (ss : List Section) (s : Section) (f : HeuristicFinding)
    → In s ss
    → In f (section_regions image s)
    → In f (regions_of image ss)
unfolding regions_of
regions_of_all image [] s f m h = absurd m
regions_of_all image (u ∷ ss) s f (inl same) h =
    In-append_left f (section_regions image u) (regions_of image ss)
      (subst (λ x. In f (section_regions image x)) same h)
regions_of_all image (u ∷ ss) s f (inr m) h =
    In-append_right f (section_regions image u) (regions_of image ss)
      (regions_of_all image ss s f m h)

-- Each region that `detectVtableRegions` reports is a run of three or more pointers into code in a
-- loaded section of data: it begins at a multiple of eight bytes, lies in the section's part of
-- the file, and ends there or in front of a pointer that is none into code. Where three such pointers
-- stand one behind the other, from a multiple of eight on, the first is in a run that is reported.
pub detect_vtable_regions_lem :
    (image : BinaryImage)
    → ((f : HeuristicFinding)
        → In f (detect_vtable_regions image)
        → (s : Section) × In s image.sections × FoundIn image s f)
      × ((s : Section) (k : ℕ)
          → In s image.sections
          → s.executable ≡ false
          → s.alloc ≡ true
          → Triple image s (available_bytes image s) 0 k
          → Covered image s (available_bytes image s) 0 k (detect_vtable_regions image))
unfolding detect_vtable_regions
detect_vtable_regions_lem image = (
  regions_of_sound image image.sections,
  λ s k m plain loaded t.
      let (c, run, long, r, here, lo, hi) = section_regions_complete image s k plain loaded t in
      (
        c,
        run,
        long,
        r,
        regions_of_all image image.sections s (vtable_finding s c run) m here,
        lo,
        hi,
      ),
)
