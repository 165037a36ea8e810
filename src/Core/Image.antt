-- ===== src/Core/Image.antt =====
-- include/binaryatlas/core/binary_image.hpp and src/core/binary_image.cpp.
pub mod Translation
pub mod Executable
use binary_atlas.Prelude.{
  ℕ, ◌+◌, ◌-◌, ◌≡◌, Bool, true, false, not, ◌&&◌, ◌||◌, Option, none, some, List, [], ◌∷◌, ◌++◌,
  map, leb, ltb, if◌then◌else◌, is_some, ◌>>=?◌, length, any, find_if,
}
use binary_atlas.Prelude.Text.{Text, str_eq}
use binary_atlas.Util.Arithmetic.{checked_add, cast_unsigned, size_t, ptrdiff_t, unsigned}
use binary_atlas.Util.ByteReader.{subspan}
use binary_atlas.Core.Types.{
  Address, AddressRange, BinaryMetadata, Section, Segment, Symbol, Relocation, ExtractedString,
  range_contains, range_size,
}

pub record BinaryImage : Type 0 where
  pub metadata : BinaryMetadata
  pub source_path : Text
  pub file_bytes : List ℕ
  pub sections : List Section
  pub segments : List Segment
  pub symbols : List Symbol
  pub relocations : List Relocation
  pub imports : List Text
  pub exports : List Text
  pub extracted_strings : List ExtractedString

unfoldable pub section_ranges : List Section → List AddressRange
section_ranges [] = []
section_ranges (s ∷ ss) =
    let rest = section_ranges ss in
    if s.executable && ltb 0 (range_size s.range) then s.range ∷ rest else rest

unfoldable pub executable_ranges : BinaryImage → List AddressRange
unfolding section_ranges
executable_ranges image = section_ranges image.sections

unfoldable pub is_executable_address : BinaryImage → Address → Bool
is_executable_address image address =
    any (λ s. s.executable && range_contains s.range address) image.sections

unfoldable pub find_section_by_name : BinaryImage → Text → Option Section
find_section_by_name image name = find_if (λ s. str_eq s.name name) image.sections

unfoldable pub find_section_containing : BinaryImage → Address → Option Section
find_section_containing image address = find_if (λ s. range_contains s.range address) image.sections

-- What address translation reads of a section or a segment.
pub record Extent : Type 0 where
  pub range : AddressRange
  pub file_offset : ℕ
  pub file_size : ℕ

abbrev pub section_extent : Section → Extent
section_extent s = record { range = s.range; file_offset = s.file_offset; file_size = s.file_size }

abbrev pub segment_extent : Segment → Extent
segment_extent s = record { range = s.range; file_offset = s.file_offset; file_size = s.file_size }

-- A loop of `vaToFileOffset`: `none` if it runs to its end, `some r` if it returns `r`. The loop over
-- the sections and the one over the segments are the same code.
unfoldable pub va_loop : Address → List Extent → Option (Option ℕ)
va_loop address [] = none
va_loop address (e ∷ es) =
    let rest = va_loop address es in
    if not (range_contains e.range address)
    then rest
    else if ltb (address - e.range.start) e.file_size
    then some (checked_add 64 e.file_offset (address - e.range.start) >>=? cast_unsigned size_t)
    else rest

-- The result of the second loop, where the first one has not returned.
abbrev pub or_else : Option (Option ℕ) → Option (Option ℕ) → Option ℕ
or_else (some r) second = r
or_else none (some r) = r
or_else none none = none

unfoldable pub va_to_file_offset : BinaryImage → Address → Option ℕ
unfolding va_loop
va_to_file_offset image address =
    or_else (va_loop address (map section_extent image.sections))
      (va_loop address (map segment_extent image.segments))

-- The test under which a loop of `fileOffsetToVa` skips an entry.
abbrev pub offset_outside : ℕ → Extent → Bool
offset_outside offset e = elim (checked_add 64 e.file_offset e.file_size) [
  | none ↦ true
  | some end ↦ ltb offset e.file_offset || leb end offset
]

unfoldable pub offset_loop : ℕ → List Extent → Option (Option ℕ)
offset_loop offset [] = none
offset_loop offset (e ∷ es) =
    let rest = offset_loop offset es in
    if offset_outside offset e
    then rest
    else some (checked_add 64 e.range.start (offset - e.file_offset))

unfoldable pub file_offset_to_va : BinaryImage → ℕ → Option Address
unfolding offset_loop
file_offset_to_va image offset = cast_unsigned (unsigned 64) offset >>=? λ offset_u64.
    or_else (offset_loop offset_u64 (map section_extent image.sections))
      (offset_loop offset_u64 (map segment_extent image.segments))

-- `{begin + first, begin + last}` at a translated offset, an empty vector on every failure.
unfoldable pub read_at : BinaryImage → ℕ → ℕ → List ℕ
read_at image file_offset size = elim (checked_add 64 file_offset size) [
  | none ↦ []
  | some end_offset ↦
      if ltb (length image.file_bytes) end_offset
      then []
      else elim (cast_unsigned ptrdiff_t file_offset) [
        | none ↦ []
        | some begin_index ↦ elim (cast_unsigned ptrdiff_t end_offset) [
          | none ↦ []
          | some end_index ↦ subspan begin_index (end_index - begin_index) image.file_bytes
        ]
      ]
]

unfoldable pub read_bytes : BinaryImage → Address → ℕ → List ℕ
unfolding va_to_file_offset read_at
read_bytes image address size = elim (va_to_file_offset image address) [
  | none ↦ []
  | some file_offset ↦ read_at image file_offset size
]
