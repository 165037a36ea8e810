-- ===== src/Format/Strings/Sound.antt =====
-- Lemmas on `extractStrings`: where its strings stand in the file.
use binary_atlas.Prelude.{
  ℕ, zero, suc, ◌+◌, ◌%◌, ◌^◌, ◌≤◌, ◌≡◌, refl, sym, ap, ◌∙◌, subst, inl, inr, true, not, ◌||◌, List,
  [], ◌∷◌, ◌++◌, if◌then◌else◌, ◌==◌, leb, drop, length, length-append, In, In-append_iff, All,
  Bool-cases, arith,
}
use mathlib.Core.List.{append_assoc}
use binary_atlas.Prelude.Sort.{by_key, In-sort_by}
use binary_atlas.Core.Types.{Section, ExtractedString}
use binary_atlas.Format.Strings.{
  is_text, take_text, found, scan, section_bytes, section_strings, collect_strings, extract_strings,
}
use binary_atlas.Format.Strings.Runs.{string_at, scan-bad, scan-good}

take_text-split :
    (bytes : List ℕ)
    → All (λ b. is_text b ≡ true) (take_text bytes)
      × (bytes ≡ take_text bytes ++ drop (length (take_text bytes)) bytes)
unfolding take_text
take_text-split [] = (tt, refl)
take_text-split (b ∷ bytes) = elim (Bool-cases (is_text b)) [
  | inr bad ↦ rw bad (tt, refl)
  | inl good ↦ let (h, e) = take_text-split bytes in rw good ((good, h), ap (◌∷◌ b) e)
]

-- The string is a run of at least four text bytes, at its place among the bytes.
abbrev Placed : Section → ℕ → List ℕ → ExtractedString → Type 0
Placed section cursor bytes x =
    (before after : List ℕ) × (bytes ≡ before ++ (x.value ++ after))
    × (x ≡ string_at section (cursor + length before) x.value)
    × All (λ b. is_text b ≡ true) x.value
    × (4 ≤ length x.value)

found-Placed :
    (section : Section) (cursor : ℕ) (value after : List ℕ) (x : ExtractedString)
    → All (λ b. is_text b ≡ true) value
    → In x (found section cursor value)
    → Placed section cursor (value ++ after) x
found-Placed section cursor value after x h m = elim (Bool-cases (leb 4 (length value))) [
  | inr short ↦
      absurd (subst (λ b. In x (if b then string_at section cursor value ∷ [] else [])) short m)
  | inl long ↦
      elim (subst (λ b. In x (if b then string_at section cursor value ∷ [] else [])) long m) [
        | inr z ↦ absurd z
        | inl e ↦
            subst (λ (y : ExtractedString). Placed section cursor (value ++ after) y) (sym e)
              ([], after, refl, ap (λ k. string_at section k value) (omega arith), h, ground arith)
      ]
]

shift-Placed :
    (section : Section) (cursor next : ℕ) (front bytes : List ℕ) (x : ExtractedString)
    → next ≡ cursor + length front
    → Placed section next bytes x
    → Placed section cursor (front ++ bytes) x
shift-Placed section cursor next front bytes x e (before, after, split, at, h, l) = (
  front ++ before,
  after,
  ap (λ xs. front ++ xs) split ∙ sym (append_assoc front before (x.value ++ after)),
  at ∙ ap (λ k. string_at section k x.value) (omega (arith, e, length-append front before)),
  h,
  l,
)

scan_sound :
    (section : Section) (fuel cursor : ℕ) (bytes : List ℕ) (x : ExtractedString)
    → In x (scan section fuel cursor bytes)
    → Placed section cursor bytes x
unfolding scan
scan_sound section zero cursor bytes x m = absurd m
scan_sound section (suc fuel) cursor [] x m = absurd m
scan_sound section (suc fuel) cursor (b ∷ bytes) x m = elim (Bool-cases (is_text b)) [
  | inr bad ↦ shift-Placed section cursor (cursor + 1) (b ∷ []) bytes x (omega arith) (
      scan_sound section fuel (cursor + 1) bytes x
        (subst (In x) (scan-bad section fuel cursor b bytes bad) m))
  | inl good ↦
      let value = take_text (b ∷ bytes) in
      let rest = drop (length value) (b ∷ bytes) in
      let (h, e) = take_text-split (b ∷ bytes) in
      subst (λ all. Placed section cursor all x) (sym e)
        (elim ((In-append_iff x (found section cursor value) _).0
          (subst (In x) (scan-good section fuel cursor b bytes value good refl) m)) [
            | inl k ↦ found-Placed section cursor value rest x h k
            | inr k ↦
                shift-Placed section cursor (cursor + length value) value rest x refl
                  (scan_sound section fuel (cursor + length value) rest x k)
          ])
]

In-collect_strings :
    (file_bytes : List ℕ) (sections : List Section) (x : ExtractedString)
    → In x (collect_strings file_bytes sections)
    → (s : Section) × In s sections × In x (section_strings file_bytes s)
unfolding collect_strings
In-collect_strings file_bytes [] x m = absurd m
In-collect_strings file_bytes (s ∷ ss) x m =
    elim ((In-append_iff x (section_strings file_bytes s) (collect_strings file_bytes ss)).0 m) [
      | inl k ↦ (s, inl refl, k)
      | inr k ↦ let (t, n, l) = In-collect_strings file_bytes ss x k in (t, inr n, l)
    ]

-- Each extracted string is a run of at least four text bytes that stands in the file's part of a
-- section that is loaded; it has the section's name and the address of its place there.
pub extract_strings_sound :
    (file_bytes : List ℕ) (sections : List Section) (x : ExtractedString)
    → In x (extract_strings file_bytes sections)
    → (s : Section) × In s sections
      × (s.alloc ≡ true)
      × ((before after : List ℕ) × (section_bytes file_bytes s ≡ before ++ (x.value ++ after))
          × (x.section_name ≡ s.name)
          × (x.address ≡ (s.range.start + length before) % 2 ^ 64)
          × All (λ b. is_text b ≡ true) x.value
          × (4 ≤ length x.value))
unfolding extract_strings section_strings
extract_strings_sound file_bytes sections x m =
    let (s, n, k) =
      In-collect_strings file_bytes sections x
        ((In-sort_by (by_key (λ y. y.address)) x (collect_strings file_bytes sections)).0 m) in
    elim (Bool-cases (not s.alloc || s.file_size == 0 || leb (length file_bytes) s.file_offset)) [
      | inl skip ↦ absurd (rw skip at k)
      | inr read ↦
          let (before, after, split, at, h, l) =
            scan_sound s (length (section_bytes file_bytes s)) 0 (section_bytes file_bytes s) x
              (rw read at k) in
          (
            s,
            n,
            ground (arith, read),
            (
              before,
              after,
              split,
              ap (λ (y : ExtractedString). y.section_name) at,
              ap (λ (y : ExtractedString). y.address) at
                  ∙ ap (λ i. (s.range.start + i) % 2 ^ 64) (omega arith),
              h,
              l,
            ),
          )
    ]
