-- ===== src/Disasm/Sections.antt =====
-- `Disassembler::disassemble`: the executable sections of an image, one after the other.
pub mod Extent
pub mod Errors
use binary_atlas.Prelude.{
  ℕ, ◌+◌, ◌-◌, Bool, true, false, not, ◌&&◌, ◌||◌, Option, none, some, List, [], ◌∷◌, ◌++◌, leb,
  ltb, ◌==◌, if◌then◌else◌, value_or, ◌>>=?◌, length, is_empty, min, max,
}
use binary_atlas.Prelude.Text.{Text, lit, str_eq}
use binary_atlas.Util.Arithmetic.{checked_add, cast_unsigned, size_t, ptrdiff_t}
use binary_atlas.Util.ByteReader.{subspan}
use binary_atlas.Core.Error.{
  Result, success, failure, disassembly, not_found_error, invalid_argument_error, ◌>>=◌,
}
use binary_atlas.Core.Types.{Address, Section}
use binary_atlas.Core.Image.{BinaryImage, find_section_by_name}
use binary_atlas.Disasm.Instruction.{DisassemblyOptions}
use binary_atlas.Disasm.Index.{DisassemblyResult, empty_result, add_all}
use binary_atlas.Disasm.Capstone.{Capstone}
use binary_atlas.Disasm.Buffer.{disassemble_buffer}

-- The bytes from `start_offset` on in the section's part of the file, as many as `length`.
unfoldable pub cut_slice : List ℕ → ℕ → ℕ → ℕ → Result (List ℕ)
cut_slice file_bytes file_offset start_offset n =
    let section_file_offset = cast_unsigned size_t file_offset in
    let slice_start = section_file_offset >>=? λ o. checked_add 64 o start_offset in
    let slice_end = slice_start >>=? λ s. checked_add 64 s n in
    elim slice_end [
      | none ↦ failure (disassembly (lit "executable section slice exceeds host size limits"))
      | some last ↦
          if ltb (length file_bytes) last
          then failure (disassembly (lit "executable section slice exceeds host size limits"))
          else elim (slice_start >>=? cast_unsigned ptrdiff_t) [
            | none ↦ failure (disassembly (lit "executable section slice exceeds host size limits"))
            | some begin_index ↦ elim (cast_unsigned ptrdiff_t last) [
              | none ↦
                  failure (disassembly (lit "executable section slice exceeds host size limits"))
              | some end_index ↦ success (subspan begin_index (end_index - begin_index) file_bytes)
            ]
          ]
    ]

-- The part of a section's address range that the options ask for.
abbrev pub requested_start : DisassemblyOptions → Section → Address
requested_start options s = max s.range.start (value_or options.start_address s.range.start)

abbrev pub requested_end : DisassemblyOptions → Section → Address
requested_end options s = min s.range.end (value_or options.end_address s.range.end)

-- What of the section is in the file.
abbrev pub section_file_size : BinaryImage → Section → ℕ
section_file_size image s = min s.file_size (length image.file_bytes - s.file_offset)

abbrev pub name_differs : Option Text → Text → Bool
name_differs none name = false
name_differs (some wanted) name = not (str_eq name wanted)

-- One round of the loop up to the call of the decoder: the bytes to decode, or `none` for a section
-- that is skipped.
unfoldable pub section_slice : BinaryImage → DisassemblyOptions → Section → Result (Option (List ℕ))
unfolding cut_slice
section_slice image options s =
    if not s.executable || s.file_size == 0
    then success none
    else if name_differs options.section_name s.name
    then success none
    else if ltb (length image.file_bytes) s.file_offset
    then failure (disassembly (lit "executable section extends beyond file contents"))
    else if leb (requested_end options s) (requested_start options s)
    then success none
    else if leb (section_file_size image s) (requested_start options s - s.range.start)
    then success none
    else cut_slice image.file_bytes s.file_offset (requested_start options s - s.range.start) (
        min (requested_end options s - requested_start options s)
          (section_file_size image s - (requested_start options s - s.range.start)))
      >>= λ bytes. success (some bytes)

module _ (c : Capstone) (image : BinaryImage) (options : DisassemblyOptions) where
  -- One round of the loop: what the result holds after it.
  unfoldable pub disassemble_section : Section → DisassemblyResult → Result DisassemblyResult
  unfolding section_slice disassemble_buffer
  disassemble_section s result = section_slice image options s >>= λ slice. elim slice [
    | none ↦ success result
    | some bytes ↦
        disassemble_buffer c bytes (requested_start options s) s.name (some image) >>= λ partial.
        success (add_all result partial.instructions)
  ]

  unfoldable pub disassemble_sections : List Section → DisassemblyResult → Result DisassemblyResult
  unfolding disassemble_section
  disassemble_sections [] result = success result
  disassemble_sections (s ∷ ss) result =
      disassemble_section s result >>= λ next. disassemble_sections ss next

  -- The checks behind the loop, where a section was asked for and nothing was decoded.
  unfoldable pub check_requested : DisassemblyResult → Result DisassemblyResult
  check_requested result = elim options.section_name [
    | none ↦ success result
    | some name ↦
        if is_empty result.instructions
        then elim (find_section_by_name image name) [
          | none ↦ failure (not_found_error (lit "section not found: " ++ name))
          | some s ↦
              if not s.executable
              then failure
                  (invalid_argument_error (lit "requested section is not executable: " ++ name))
              else success result
        ]
        else success result
  ]

  unfoldable pub disassemble : Result DisassemblyResult
  unfolding disassemble_sections check_requested
  disassemble = disassemble_sections image.sections empty_result >>= check_requested
