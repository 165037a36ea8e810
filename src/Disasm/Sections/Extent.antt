-- ===== src/Disasm/Sections/Extent.antt =====
-- Where the instructions of a disassembly come from.
use binary_atlas.Prelude.{
  value_or, ℕ, ◌+◌, ◌-◌, ◌^◌, ◌≤◌, ◌<◌, ◌≡◌, sym, ap, ◌∙◌, subst, true, false, Option, none, some,
  List, [], ◌∷◌, length, min, All, All-imp, All-append, All-both, All-In_self, In, arith,
}
use binary_atlas.Util.Arithmetic.Exact.{checked_add_lem, cast_size_t, cast_ptrdiff_t}
use binary_atlas.Util.ByteReader.{subspan}
use binary_atlas.Util.ByteReader.Bounds.{length-subspan}
use binary_atlas.Util.ByteReader.Spans.{subspan-subspan}
use binary_atlas.Core.Error.{success, ◌>>=◌, >>=-eq-success}
use binary_atlas.Core.Types.{Section}
use binary_atlas.Core.Image.{BinaryImage}
use binary_atlas.Disasm.Instruction.{Instruction, DisassemblyOptions}
use binary_atlas.Disasm.Index.{DisassemblyResult, empty_result, add_all}
use binary_atlas.Disasm.Index.Invariant.{
  IsIndexed, empty_result-IsIndexed, add_all-IsIndexed, instructions-add_all,
}
use binary_atlas.Disasm.Capstone.{Capstone, IsDecoder}
use binary_atlas.Disasm.Buffer.{disassemble_buffer}
use binary_atlas.Disasm.Buffer.Tiling.{disassemble_buffer_success, Tiles-IsCut, IsCut}
use binary_atlas.Disasm.Sections.{
  cut_slice, requested_start, requested_end, section_file_size, name_differs, section_slice,
  disassemble_section, disassemble_sections, check_requested, disassemble,
}

-- A slice within the file is always cut: the checks for host limits do not fail.
pub cut_slice_fits :
    (file_bytes : List ℕ) (file_offset start_offset n : ℕ)
    → file_offset + start_offset + n ≤ length file_bytes
    → length file_bytes < 2 ^ 63
    → cut_slice file_bytes file_offset start_offset n
      ≡ success (subspan (file_offset + start_offset) n file_bytes)
unfolding cut_slice
cut_slice_fits fb fo so n h l =
    let e : fo + so + n - (fo + so) ≡ n = omega arith in
    ground (
      arith,
      e,
      cast_size_t fo,
      checked_add_lem 64 fo so,
      checked_add_lem 64 (fo + so) n,
      cast_ptrdiff_t (fo + so),
      cast_ptrdiff_t (fo + so + n),
    )

-- The bytes that are decoded for a section.
record IsSlice (image : BinaryImage) (options : DisassemblyOptions) (s : Section) (bytes : List ℕ)
    : Type 0 where
  executable : s.executable ≡ true
  wanted : name_differs options.section_name s.name ≡ false
  within : requested_start options s + length bytes ≤ requested_end options s
  cut :
      bytes
      ≡ subspan
          (s.file_offset + (requested_start options s - s.range.start))
          (length bytes)
          image.file_bytes

section_slice-IsSlice :
    (image : BinaryImage) (options : DisassemblyOptions) (s : Section) (bytes : List ℕ)
    → length image.file_bytes < 2 ^ 63
    → section_slice image options s ≡ success (some bytes)
    → IsSlice image options s bytes
unfolding section_slice
section_slice-IsSlice image options s bytes l h =
    let start = requested_start options s in
    let offset = start - s.range.start in
    let n = min (requested_end options s - start) (section_file_size image s - offset) in
    ground (
      arith,
      cut_slice_fits image.file_bytes s.file_offset offset n,
      length-subspan (s.file_offset + offset) n image.file_bytes,
    )

-- The instruction was decoded in the section, within what the options ask for, from the bytes that
-- the file has for its address.
pub record IsPlaced (image : BinaryImage) (options : DisassemblyOptions) (s : Section)
    (x : Instruction) : Type 0 where
  pub executable : s.executable ≡ true
  pub named : x.section_name ≡ s.name
  pub wanted : name_differs options.section_name s.name ≡ false
  pub above : s.range.start ≤ x.address
  pub below : x.address + x.size ≤ s.range.end
  pub from : value_or options.start_address s.range.start ≤ x.address
  pub to : x.address + x.size ≤ value_or options.end_address s.range.end
  pub nonempty : 0 < x.size
  pub copied :
      x.bytes ≡ subspan (s.file_offset + (x.address - s.range.start)) x.size image.file_bytes

module _ (c : Capstone) (d : IsDecoder c) (image : BinaryImage) (options : DisassemblyOptions) where
  abbrev From : List Section → Instruction → Type 0
  From ss x = (s : Section) × In s ss × IsPlaced image options s x

  record Collected (ss : List Section) (r : DisassemblyResult) : Type 0 where
    indexed : IsIndexed r
    placed : All (From ss) r.instructions

  -- The bytes of an instruction are those of the file.
  from_file :
      (s : Section) (bytes : List ℕ) (x : Instruction)
      → IsSlice image options s bytes
      → IsCut (requested_start options s) bytes x
      → x.bytes ≡ subspan (s.file_offset + (x.address - s.range.start)) x.size image.file_bytes
  from_file s bytes x slice v =
      let start = requested_start options s in
      let place = s.file_offset + (start - s.range.start) in
      v.copied
      ∙ ap (subspan (x.address - start) x.size) slice.cut
      ∙ subspan-subspan (x.address - start) x.size place (length bytes) image.file_bytes
          (omega (arith, v.above, v.below))
      ∙ ap (λ o. subspan o x.size image.file_bytes) (omega (arith, v.above))

  module _ (ss : List Section) (small : length image.file_bytes < 2 ^ 63) where
    decoded-From :
        (s : Section) (bytes : List ℕ) (r : DisassemblyResult)
        → s.range.end < 2 ^ 64
        → In s ss
        → section_slice image options s ≡ success (some bytes)
        → disassemble_buffer c bytes (requested_start options s) s.name (some image) ≡ success r
        → All (From ss) r.instructions
    decoded-From s bytes r e m cut h =
        let slice = section_slice-IsSlice image options s bytes small cut in
        let (indexed, tiles, named) =
          disassemble_buffer_success c d s.name (some image) bytes (requested_start options s) r
            h in
        let start = requested_start options s in
        let cuts = Tiles-IsCut start r.instructions bytes tiles (omega (arith, slice.within)) in
        All-imp (λ (x : Instruction). (x.section_name ≡ s.name) × IsCut start bytes x) (From ss)
          r.instructions
          (λ x b. (
            s,
            m,
            record {
              executable = slice.executable;
              named = b.0;
              wanted = slice.wanted;
              above = omega (arith, b.1.above);
              below = omega (arith, b.1.below, slice.within);
              from = omega (arith, b.1.above);
              to = omega (arith, b.1.below, slice.within);
              nonempty = b.1.nonempty;
              copied = from_file s bytes x slice b.1;
            },
          ))
          (All-both _ _ r.instructions named cuts)

    disassemble_section-Collected :
        (s : Section) (result next : DisassemblyResult)
        → s.range.end < 2 ^ 64
        → In s ss
        → Collected ss result
        → disassemble_section c image options s result ≡ success next
        → Collected ss next
    unfolding disassemble_section
    disassemble_section-Collected s result next e m v h =
        let (slice, cut, rest) = >>=-eq-success (section_slice image options s) _ h in
        from_slice slice cut rest
      where
        from_slice :
            (slice : Option (List ℕ))
            → section_slice image options s ≡ success slice
            → elim slice [
              | none ↦ success result
              | some bytes ↦
                  disassemble_buffer c bytes (requested_start options s) s.name (some image)
                  >>= λ partial. success (add_all result partial.instructions)
            ]
              ≡ success next
            → Collected ss next
        from_slice none cut rest = let same : result ≡ next = cc in subst (Collected ss) same v
        from_slice (some bytes) cut rest =
            let (r, decoded, added) =
              >>=-eq-success
                (disassemble_buffer c bytes (requested_start options s) s.name (some image)) _
                rest in
            let same : add_all result r.instructions ≡ next = cc in
            subst (Collected ss) same (record {
              indexed = add_all-IsIndexed result r.instructions v.indexed;
              placed = subst (All (From ss)) (sym (instructions-add_all result r.instructions)) (
                  All-append (From ss) result.instructions r.instructions v.placed
                    (decoded-From s bytes r e m cut decoded));
            })

    disassemble_sections-Collected :
        (todo : List Section) (result next : DisassemblyResult)
        → All (λ s. (s.range.end < 2 ^ 64) × In s ss) todo
        → Collected ss result
        → disassemble_sections c image options todo result ≡ success next
        → Collected ss next
    unfolding disassemble_sections
    disassemble_sections-Collected [] result next h v e =
        let same : result ≡ next = cc in subst (Collected ss) same v
    disassemble_sections-Collected (s ∷ todo) result next h v e =
        let (mid, first, rest) =
          >>=-eq-success (disassemble_section c image options s result) _ e in
        disassemble_sections-Collected todo mid next h.1
          (disassemble_section-Collected s result mid h.0.0 h.0.1 v first) rest

  check_requested-same :
      (r next : DisassemblyResult) → check_requested c image options r ≡ success next → r ≡ next
  unfolding check_requested
  check_requested-same r next h = ground arith

  -- Where the file has fewer than 2^63 bytes and the sections end below 2^64, a successful disassembly
  -- is indexed, and each of its instructions was decoded in an executable section of the image
  -- (the one that was asked for, if one was), within the section's addresses and those of the
  -- options. It is not empty, and its bytes are those that the file has for its address.
  pub disassemble-IsPlaced :
      (r : DisassemblyResult)
      → length image.file_bytes < 2 ^ 63
      → All (λ s. s.range.end < 2 ^ 64) image.sections
      → disassemble c image options ≡ success r
      → IsIndexed r
        × All (λ x. (s : Section) × In s image.sections × IsPlaced image options s x) r.instructions
  unfolding disassemble
  disassemble-IsPlaced r small words h =
      let (mid, loop, check) =
        >>=-eq-success (disassemble_sections c image options image.sections empty_result) _ h in
      let v =
        disassemble_sections-Collected image.sections small image.sections empty_result mid
          (All-In_self (λ s. s.range.end < 2 ^ 64) image.sections words)
          (record { indexed = empty_result-IsIndexed; placed = tt }) loop in
      subst (λ (q : DisassemblyResult). IsIndexed q × All (From image.sections) q.instructions)
        (check_requested-same mid r check) (v.indexed, v.placed)
