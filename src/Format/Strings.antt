-- ===== src/Format/Strings.antt =====
-- src/format/elf_parser.cpp: `extractStrings`.
pub mod Runs
pub mod Sound
use binary_atlas.Prelude.{
  ℕ, zero, suc, ◌+◌, ◌-◌, ◌%◌, ◌^◌, Bool, true, false, not, ◌&&◌, ◌||◌, List, [], ◌∷◌, ◌++◌,
  if◌then◌else◌, ◌==◌, leb, drop, length, min,
}
use binary_atlas.Prelude.Sort.{sort_by, by_key}
use binary_atlas.Prelude.Text.{Text}
use binary_atlas.Util.ByteReader.{subspan}
use binary_atlas.Core.Types.{Section, ExtractedString}

-- `std::isprint` of the C locale is true of the bytes from the space to the tilde.
abbrev pub is_print : ℕ → Bool
is_print b = leb 32 b && leb b 126

abbrev pub is_likely_printable : ℕ → Bool
is_likely_printable b = b == 0 || is_print b || b == 9

-- The test of both inner loops: a byte that belongs to a string.
abbrev pub is_text : ℕ → Bool
is_text b = not (b == 0) && is_likely_printable b

-- The first inner loop: `value`, from the cursor on.
unfoldable pub take_text : List ℕ → Text
take_text [] = []
take_text (b ∷ bytes) = let rest = take_text bytes in if is_text b then b ∷ rest else []

-- `if (value.size() >= 4) …`; the address is a `uint64_t` sum.
abbrev pub found : Section → ℕ → Text → List ExtractedString
found section start value =
    if leb 4 (length value)
    then record {
      section_name = section.name;
      address = (section.range.start + start) % 2 ^ 64;
      value = value;
    }
      ∷ []
    else []

-- `while (cursor < size)`, on the bytes from the cursor on, whose number is fuel enough. The second
-- inner loop makes no round: it has the condition on which the first one has just ended.
unfoldable pub scan : Section → ℕ → ℕ → List ℕ → List ExtractedString
scan section zero cursor bytes = []
scan section (suc fuel) cursor [] = []
scan section (suc fuel) cursor (b ∷ bytes) =
    let value = take_text (b ∷ bytes) in
    let skipped = scan section fuel (cursor + 1) bytes in
    let behind = scan section fuel (cursor + length value) (drop (length value) (b ∷ bytes)) in
    if not (is_text b) then skipped else found section cursor value ++ behind

-- The bytes of the section that are in the file.
abbrev pub section_bytes : List ℕ → Section → List ℕ
section_bytes file_bytes section =
    subspan section.file_offset (min section.file_size (length file_bytes - section.file_offset))
      file_bytes

unfoldable pub section_strings : List ℕ → Section → List ExtractedString
unfolding scan
section_strings file_bytes section =
    if not section.alloc || section.file_size == 0 || leb (length file_bytes) section.file_offset
    then []
    else scan section (length (section_bytes file_bytes section)) 0
        (section_bytes file_bytes section)

unfoldable pub collect_strings : List ℕ → List Section → List ExtractedString
unfolding section_strings
collect_strings file_bytes [] = []
collect_strings file_bytes (s ∷ ss) = section_strings file_bytes s ++ collect_strings file_bytes ss

unfoldable pub extract_strings : List ℕ → List Section → List ExtractedString
unfolding collect_strings take_text sort_by by_key
extract_strings file_bytes sections =
    sort_by (by_key (λ s. s.address)) (collect_strings file_bytes sections)
