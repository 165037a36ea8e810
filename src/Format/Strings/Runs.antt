-- ===== src/Format/Strings/Runs.antt =====
-- Lemmas on `extractStrings`: the runs of text bytes.
use binary_atlas.Prelude.{
  ℕ, zero, suc, ◌+◌, ◌-◌, ◌%◌, ◌^◌, ◌≤◌, ◌≡◌, refl, sym, ap, ◌∙◌, subst, inl, inr, true, false, not,
  ◌||◌, List, [], ◌∷◌, ◌++◌, ◌==◌, leb, drop, length, length-append, length-take, length-drop, min,
  In, In-append_iff, All, Bool-cases, arith,
}
use binary_atlas.Prelude.Sort.{by_key, In-sort_by}
use binary_atlas.Prelude.Text.{Text}
use binary_atlas.Core.Types.{Section, ExtractedString}
use binary_atlas.Format.Strings.{
  is_text, take_text, found, scan, section_bytes, section_strings, collect_strings, extract_strings,
}

-- The bytes are empty or end with one that is not text; they are empty or begin with such a byte.
abbrev pub EndsBefore : List ℕ → Type 0
EndsBefore [] = Unit
EndsBefore (b ∷ []) = is_text b ≡ false
EndsBefore (b ∷ c ∷ bytes) = EndsBefore (c ∷ bytes)

abbrev pub StopsAfter : List ℕ → Type 0
StopsAfter [] = Unit
StopsAfter (b ∷ bytes) = is_text b ≡ false

take_text-run :
    (run after : List ℕ)
    → All (λ b. is_text b ≡ true) run
    → StopsAfter after
    → take_text (run ++ after) ≡ run
unfolding take_text
take_text-run [] [] h s = refl
take_text-run [] (b ∷ after) h s = rw s refl
take_text-run (r ∷ run) after h s = rw (h.0) (ap (◌∷◌ r) (take_text-run run after h.1 s))

-- A run inside what comes before stays inside it.
record Inside (before rest : List ℕ) : Type 0 where
  same : take_text (before ++ rest) ≡ take_text before
  left :
      drop (length (take_text before)) (before ++ rest)
      ≡ drop (length (take_text before)) before ++ rest
  ends : EndsBefore (drop (length (take_text before)) before)
  short :
      length (take_text before) + length (drop (length (take_text before)) before) ≡ length before

take_text-bad : (b : ℕ) (bytes : List ℕ) → is_text b ≡ false → take_text (b ∷ bytes) ≡ []
unfolding take_text
take_text-bad b bytes e = rw e refl

take_text-good :
    (b : ℕ) (bytes : List ℕ) → is_text b ≡ true → take_text (b ∷ bytes) ≡ b ∷ take_text bytes
unfolding take_text
take_text-good b bytes e = rw e refl

take_text-Inside :
    (b : ℕ) (before rest : List ℕ) → EndsBefore (b ∷ before) → Inside (b ∷ before) rest
take_text-Inside b [] rest e = record {
  same = take_text-bad b rest e ∙ sym (take_text-bad b [] e);
  left = rw (take_text-bad b [] e) refl;
  ends = rw (take_text-bad b [] e) e;
  short = rw (take_text-bad b [] e) (omega arith);
}
take_text-Inside b (c ∷ before) rest e = elim (Bool-cases (is_text b)) [
  | inr bad ↦
      let none = take_text-bad b (c ∷ before) bad in
      record {
        same = take_text-bad b (c ∷ before ++ rest) bad ∙ sym none;
        left = rw none refl;
        ends = rw none e;
        short = rw none (omega arith);
      }
  | inl good ↦
      let h = take_text-Inside c before rest e in
      let one = take_text-good b (c ∷ before) good in
      record {
        same = take_text-good b (c ∷ before ++ rest) good ∙ ap (◌∷◌ b) h.same ∙ sym one;
        left = rw one h.left;
        ends = rw one h.ends;
        short = rw one (omega (arith, h.short));
      }
]

ends_rest : (b : ℕ) (before : List ℕ) → EndsBefore (b ∷ before) → EndsBefore before
ends_rest b [] e = tt
ends_rest b (c ∷ before) e = e

module _ (section : Section) where
  abbrev pub string_at : ℕ → Text → ExtractedString
  string_at start value = record {
    section_name = section.name;
    address = (section.range.start + start) % 2 ^ 64;
    value = value;
  }

  moved :
      (j k : ℕ) (run : Text) (xs : List ExtractedString)
      → j ≡ k
      → In (string_at j run) xs
      → In (string_at k run) xs
  moved j k run xs e m = subst (λ n. In (string_at n run) xs) e m

  pub scan-bad :
      (fuel cursor b : ℕ) (bytes : List ℕ)
      → is_text b ≡ false
      → scan section (suc fuel) cursor (b ∷ bytes) ≡ scan section fuel (cursor + 1) bytes
  unfolding scan
  scan-bad fuel cursor b bytes e = rw e refl

  pub scan-good :
      (fuel cursor b : ℕ) (bytes value : List ℕ)
      → is_text b ≡ true
      → take_text (b ∷ bytes) ≡ value
      → scan section (suc fuel) cursor (b ∷ bytes)
        ≡ found section cursor value
          ++ scan section fuel (cursor + length value) (drop (length value) (b ∷ bytes))
  unfolding scan
  scan-good fuel cursor b bytes value e v = rw (e, v) refl

  scan_complete :
      (fuel cursor : ℕ) (before run after : List ℕ)
      → length (before ++ (run ++ after)) ≤ fuel
      → EndsBefore before
      → All (λ b. is_text b ≡ true) run
      → 4 ≤ length run
      → StopsAfter after
      → In
          (string_at (cursor + length before) run)
          (scan section fuel cursor (before ++ (run ++ after)))
  scan_complete fuel cursor before [] after l e h four s = absurd (omega (arith, four))
  scan_complete zero cursor [] (r ∷ run) after l e h four s = absurd (omega (arith, l))
  scan_complete zero cursor (b ∷ before) (r ∷ run) after l e h four s = absurd (omega (arith, l))
  scan_complete (suc fuel) cursor [] (r ∷ run) after l e h four s =
      let enough : leb 4 (length (r ∷ run)) ≡ true = ground (arith, four) in
      let first : string_at (cursor + 0) (r ∷ run) ≡ string_at cursor (r ∷ run) =
        ap (λ k. string_at k (r ∷ run)) (omega arith) in
      rw
        (
          scan-good fuel cursor r (run ++ after) (r ∷ run) h.0 (take_text-run (r ∷ run) after h s),
          enough,
        )
        (inl first)
  scan_complete (suc fuel) cursor (b ∷ before) (r ∷ run) after l e h four s =
      elim (Bool-cases (is_text b)) [
        | inr bad ↦
            let rest : EndsBefore before = ends_rest b before e in
            let k =
              scan_complete fuel (cursor + 1) before (r ∷ run) after (omega (arith, l)) rest h four
                s in
            let place : cursor + 1 + length before ≡ cursor + length (b ∷ before) = omega arith in
            rw (scan-bad fuel cursor b (before ++ ((r ∷ run) ++ after)) bad)
              (moved _ _ (r ∷ run) _ place k)
        | inl good ↦
            let m = length (take_text (b ∷ before)) in
            let i = take_text-Inside b before ((r ∷ run) ++ after) e in
            let k =
              scan_complete fuel (cursor + m) (drop m (b ∷ before)) (r ∷ run) after
                (omega (
                  arith,
                  l,
                  i.short,
                  ap length (take_text-good b before good),
                  length-append (drop m (b ∷ before)) ((r ∷ run) ++ after),
                  length-append before ((r ∷ run) ++ after),
                ))
                i.ends h four s in
            let place : cursor + m + length (drop m (b ∷ before)) ≡ cursor + length (b ∷ before) =
              omega (arith, i.short) in
            rw
              (
                scan-good fuel cursor b (before ++ ((r ∷ run) ++ after)) (take_text (b ∷ before))
                    good i.same,
                i.left,
              )
              ((In-append_iff _ (found section cursor (take_text (b ∷ before))) _).1
                (inr (moved _ _ (r ∷ run) _ place k)))
      ]

length-section_bytes :
    (file_bytes : List ℕ) (s : Section)
    → length (section_bytes file_bytes s)
      ≡ min
          (min s.file_size (length file_bytes - s.file_offset))
          (length file_bytes - s.file_offset)
length-section_bytes file_bytes s =
    length-take (min s.file_size (length file_bytes - s.file_offset))
      (drop s.file_offset file_bytes)
    ∙ ap (min (min s.file_size (length file_bytes - s.file_offset)))
        (length-drop s.file_offset file_bytes)

In-collect_strings :
    (file_bytes : List ℕ) (sections : List Section) (s : Section) (e : ExtractedString)
    → In s sections
    → In e (section_strings file_bytes s)
    → In e (collect_strings file_bytes sections)
unfolding collect_strings
In-collect_strings file_bytes [] s e m k = absurd m
In-collect_strings file_bytes (x ∷ ss) s e (inl q) k =
    (In-append_iff e (section_strings file_bytes x) _).1
      (inl (subst (λ y. In e (section_strings file_bytes y)) q k))
In-collect_strings file_bytes (x ∷ ss) s e (inr m) k =
    (In-append_iff e (section_strings file_bytes x) _).1
      (inr (In-collect_strings file_bytes ss s e m k))

-- In a section that is loaded, a run of at least four text bytes that no text byte precedes or
-- follows is one of the extracted strings, with the section's name and the run's address.
pub extract_strings_complete :
    (file_bytes : List ℕ) (sections : List Section) (s : Section) (before run after : List ℕ)
    → In s sections
    → s.alloc ≡ true
    → section_bytes file_bytes s ≡ before ++ (run ++ after)
    → EndsBefore before
    → All (λ b. is_text b ≡ true) run
    → 4 ≤ length run
    → StopsAfter after
    → In
        (record {
          section_name = s.name;
          address = (s.range.start + length before) % 2 ^ 64;
          value = run;
        })
        (extract_strings file_bytes sections)
unfolding extract_strings section_strings
extract_strings_complete file_bytes sections s before run after m loaded split e h four stops =
    let size = length-section_bytes file_bytes s in
    let long : 4 ≤ length (section_bytes file_bytes s) =
      rw split
        (omega (arith, four, length-append before (run ++ after), length-append run after)) in
    let read : (not s.alloc || s.file_size == 0 || leb (length file_bytes) s.file_offset) ≡ false =
      ground (arith, loaded, long, size) in
    let k =
      scan_complete s (length (section_bytes file_bytes s)) 0 before run after
        (rw split (omega arith)) e h four stops in
    let place : 0 + length before ≡ length before = omega arith in
    let scanned : In (string_at s (length before) run)
        (scan s (length (section_bytes file_bytes s)) 0 (section_bytes file_bytes s)) =
      subst
        (λ bytes.
          In (string_at s (length before) run)
            (scan s (length (section_bytes file_bytes s)) 0 bytes))
        (sym split)
        (moved s (0 + length before) (length before) run
          (scan s (length (section_bytes file_bytes s)) 0 (before ++ (run ++ after))) place k) in
    let here : In (string_at s (length before) run) (section_strings file_bytes s) =
      rw read scanned in
    (In-sort_by (by_key (λ x. x.address)) _ (collect_strings file_bytes sections)).1
      (In-collect_strings file_bytes sections s _ m here)
