-- ===== src/Format/Ranges/Fits.antt =====
-- Lemmas on the loops over the section and the program headers: what is known of a parsed range.
use binary_atlas.Prelude.{
  ℕ, ◌+◌, ◌^◌, ◌<◌, ◌≤◌, ◌≡◌, refl, subst, not, ◌&&◌, false, ◌⊎◌, inl, inr, List, [], ◌∷◌, ◌++◌,
  ◌==◌, ltb, All, Bool-cases, arith, some, map,
}
use binary_atlas.Prelude.Text.{lit}
use binary_atlas.Util.Arithmetic.{checked_range_end, range_fits_within}
use binary_atlas.Util.Arithmetic.Exact.{checked_add_lem, range_fits_within_iff}
use binary_atlas.Core.Error.{
  success, parse, reject_if, or_fail, >>=-eq-success, or_fail-eq-success, reject_if-eq-success,
  success_inj,
}
use binary_atlas.Core.Types.{Section, Segment}
use binary_atlas.Format.ElfTypes.{Elf, Elf64Shdr, Elf64Phdr}
use binary_atlas.Format.Reads.{read_c_string}
use binary_atlas.Format.Ranges.{
  section_label, segment_label, parse_section, parse_sections, parse_segment, parse_segments,
}

-- Content at an offset lies in a file of `n` bytes.
abbrev Inside : ℕ → ℕ → ℕ → Type 0
Inside n offset size = (size ≡ 0) ⊎ (offset + size ≤ n)

-- A section of a file of `n` bytes: its addresses do not wrap, and its content is in the file, but for
-- a section that has none.
pub record SectionFits (e : Elf) (n : ℕ) (s : Section) : Type 0 where
  pub ends : s.range.start + s.file_size ≡ s.range.end
  pub word : s.range.end < 2 ^ 64
  pub inside : (s.type ≡ e.sht_nobits) ⊎ Inside n s.file_offset s.file_size

pub record SegmentFits (n : ℕ) (s : Segment) : Type 0 where
  pub ends : s.range.start + s.memory_size ≡ s.range.end
  pub word : s.range.end < 2 ^ 64
  pub inside : Inside n s.file_offset s.file_size

range_end :
    (start size end : ℕ)
    → size < 2 ^ 64
    → checked_range_end 64 start size ≡ some end
    → (start + size ≡ end) × (end < 2 ^ 64)
unfolding checked_range_end
range_end start size end word h = ground (arith, checked_add_lem 64 start size word)

content-Inside :
    (offset size n : ℕ)
    → size < 2 ^ 64
    → n < 2 ^ 64
    → (ltb 0 size && not (range_fits_within 64 offset size n)) ≡ false
    → Inside n offset size
content-Inside offset size n hs hn h = elim (Bool-cases (ltb 0 size)) [
  | inr e ↦ inl (ground arith)
  | inl e ↦ inr (ground (arith, range_fits_within_iff 64 offset size n hs hn))
]

module _ (e : Elf) (n : ℕ) (small : n < 2 ^ 64) where
  parse_section-SectionFits :
      (names : List ℕ) (index : ℕ) (h : Elf64Shdr) (s : Section)
      → h.sh_size < 2 ^ 64
      → parse_section e n names index h ≡ success s
      → SectionFits e n s × (s.type ≡ h.sh_type)
  unfolding parse_section
  parse_section-SectionFits names index h s word p =
      let label = section_label (read_c_string names h.sh_name) index in
      let (end, e1, p1) =
        >>=-eq-success
          (or_fail (checked_range_end 64 h.sh_addr h.sh_size)
            (parse (lit "section range overflows address space: " ++ label)))
          _ p in
      let (u, e2, p2) =
        >>=-eq-success
          (reject_if
            (not (h.sh_type == e.sht_nobits)
              && ltb 0 h.sh_size
              && not (range_fits_within 64 h.sh_offset h.sh_size n))
            (parse (lit "section extends beyond file contents: " ++ label)))
          _ p1 in
      let (ends, fits) = range_end h.sh_addr h.sh_size end word (or_fail-eq-success _ _ e1) in
      let ok = reject_if-eq-success _ _ e2 in
      subst (λ t. SectionFits e n t × (t.type ≡ h.sh_type)) (success_inj p2)
        (
          record {
            ends = ends;
            word = fits;
            inside = elim (Bool-cases (h.sh_type == e.sht_nobits)) [
              | inl same ↦ inl (ground arith)
              | inr other ↦
                  inr
                    (content-Inside h.sh_offset h.sh_size n word small (ground (arith, ok, other)))
            ];
          },
          refl,
        )

  pub parse_sections-SectionFits :
      (names : List ℕ) (index : ℕ) (hs : List Elf64Shdr) (sections : List Section)
      → All (λ h. h.sh_size < 2 ^ 64) hs
      → parse_sections e n names index hs ≡ success sections
      → All (SectionFits e n) sections × (map (λ s. s.type) sections ≡ map (λ h. h.sh_type) hs)
  unfolding parse_sections
  parse_sections-SectionFits names index [] sections words p =
      subst (λ ss. All (SectionFits e n) ss × (map (λ s. s.type) ss ≡ [])) (success_inj p)
        (tt, refl)
  parse_sections-SectionFits names index (h ∷ hs) sections words p =
      let (s, first, more) = >>=-eq-success (parse_section e n names index h) _ p in
      let (rest, others, last) = >>=-eq-success (parse_sections e n names (index + 1) hs) _ more in
      let one = parse_section-SectionFits names index h s words.0 first in
      let all = parse_sections-SectionFits names (index + 1) hs rest words.1 others in
      subst
        (λ ss.
          All (SectionFits e n) ss × (map (λ s. s.type) ss ≡ h.sh_type ∷ map (λ h. h.sh_type) hs))
        (success_inj last) ((one.0, all.0), cc (one.1, all.1))

  parse_segment-SegmentFits :
      (index : ℕ) (h : Elf64Phdr) (s : Segment)
      → h.p_memsz < 2 ^ 64
      → h.p_filesz < 2 ^ 64
      → parse_segment e n index h ≡ success s
      → SegmentFits n s
  unfolding parse_segment
  parse_segment-SegmentFits index h s mem file p =
      let (end, e1, p1) =
        >>=-eq-success
          (or_fail (checked_range_end 64 h.p_vaddr h.p_memsz)
            (parse (lit "segment range overflows address space: " ++ segment_label e index)))
          _ p in
      let (u, e2, p2) =
        >>=-eq-success
          (reject_if (ltb 0 h.p_filesz && not (range_fits_within 64 h.p_offset h.p_filesz n))
            (parse (lit "segment extends beyond file contents: " ++ segment_label e index)))
          _ p1 in
      let (ends, fits) = range_end h.p_vaddr h.p_memsz end mem (or_fail-eq-success _ _ e1) in
      subst (SegmentFits n) (success_inj p2) (record {
        ends = ends;
        word = fits;
        inside = content-Inside h.p_offset h.p_filesz n file small (reject_if-eq-success _ _ e2);
      })

  pub parse_segments-SegmentFits :
      (index : ℕ) (hs : List Elf64Phdr) (segments : List Segment)
      → All (λ h. (h.p_memsz < 2 ^ 64) × (h.p_filesz < 2 ^ 64)) hs
      → parse_segments e n index hs ≡ success segments
      → All (SegmentFits n) segments
  unfolding parse_segments
  parse_segments-SegmentFits index [] segments words p =
      subst (All (SegmentFits n)) (success_inj p) tt
  parse_segments-SegmentFits index (h ∷ hs) segments words p =
      let (s, first, more) = >>=-eq-success (parse_segment e n index h) _ p in
      let (rest, others, last) = >>=-eq-success (parse_segments e n (index + 1) hs) _ more in
      subst (All (SegmentFits n)) (success_inj last) (
        parse_segment-SegmentFits index h s words.0.0 words.0.1 first,
        parse_segments-SegmentFits (index + 1) hs rest words.1 others,
      )
