-- ===== src/Tests/Format.antt =====
-- Reads of a small file.
use binary_atlas.Prelude.{
  ℕ, ◌+◌, ◌*◌, ◌<◌, ◌≤◌, ◌≡◌, ◌≢◌, refl, ◌⊎◌, inl, ◌%◌, ◌^◌, true, false, In, All, List, [], ◌∷◌,
  ◌++◌, length, arith,
}
use binary_atlas.Prelude.Text.{lit}
use binary_atlas.Util.ByteReader.{ByteReader, Layout, le_value, subspan}
use binary_atlas.Core.Error.{parse_error, Error, success, failure, parse}
use binary_atlas.Core.Types.{Section, ExtractedString}
use binary_atlas.Format.Strings.{is_text, section_bytes, extract_strings}
use binary_atlas.Format.Strings.Runs.{extract_strings_complete}
use binary_atlas.Format.Strings.Sound.{extract_strings_sound}
use binary_atlas.Format.Reads.{read_bounded_span, read_table}
use binary_atlas.Format.Reads.Tables.{read_bounded_span_lem, table_at, read_table_lem}

abbrev file : ByteReader
file = record { bytes = 0 ∷ 1 ∷ 2 ∷ 3 ∷ 4 ∷ 5 ∷ [] }

abbrev half_word : Layout ℕ
half_word = record { size_of = 2; decode = le_value }

read_bounded_span_lem_example :
    ((2 + 3 ≤ length file.bytes)
      × (read_bounded_span file 2 3 (lit "table") ≡ success (subspan 2 3 file.bytes)))
    ⊎ ((length file.bytes < 2 + 3)
        × (read_bounded_span file 2 3 (lit "table")
            ≡ failure (parse (lit "table" ++ lit " extends beyond file contents"))))
read_bounded_span_lem_example =
    read_bounded_span_lem file 2 3 (lit "table") (omega arith) (omega arith)

read_table_lem_example :
    ((◌≡◌ {A = ℕ} 2 2)
      × ((◌≡◌ {A = ℕ} 2 0) ⊎ (1 + 2 * 2 ≤ length file.bytes))
      × (read_table half_word file 1 2 (lit "symbol") 2
          ≡ success (table_at half_word file.bytes 1 2)))
    ⊎ (((◌≢◌ {A = ℕ} 2 2) ⊎ ((0 < 2) × (length file.bytes < 1 + 2 * 2)))
        × ((e : Error) × (read_table half_word file 1 2 (lit "symbol") 2 ≡ failure e)
            × (e.code ≡ parse_error)))
read_table_lem_example =
    read_table_lem half_word file 1 2 (lit "symbol") 2 (omega arith) (omega arith) (omega arith)

table_at_runs : table_at half_word file.bytes 1 2 ≡ 513 ∷ 1027 ∷ []
table_at_runs = refl

abbrev text_file : List ℕ
text_file = 0 ∷ 0x64 ∷ 0x61 ∷ 0x74 ∷ 0x61 ∷ 0 ∷ 0x61 ∷ 1 ∷ []

abbrev rodata : Section
rodata = record {
  name = lit ".rodata";
  range = record { start = 0x3000; end = 0x3008 };
  file_offset = 0;
  file_size = 8;
  alignment = 1;
  flags = 2;
  type = 1;
  executable = false;
  writable = false;
  alloc = true;
}

abbrev data_string : ExtractedString
data_string = record { section_name = lit ".rodata"; address = 0x3001; value = lit "data" }

extract_strings_runs : extract_strings text_file (rodata ∷ []) ≡ data_string ∷ []
unfolding extract_strings
extract_strings_runs = refl

data_is_there : In data_string (extract_strings text_file (rodata ∷ []))
unfolding extract_strings
data_is_there = inl refl

extract_strings_sound_example :
    (s : Section) × In s (rodata ∷ [])
    × (s.alloc ≡ true)
    × ((before after : List ℕ) × (section_bytes text_file s
          ≡ before ++ (data_string.value ++ after))
        × (data_string.section_name ≡ s.name)
        × (data_string.address ≡ (s.range.start + length before) % 2 ^ 64)
        × All (λ b. is_text b ≡ true) data_string.value
        × (4 ≤ length data_string.value))
extract_strings_sound_example =
    extract_strings_sound text_file (rodata ∷ []) data_string data_is_there

extract_strings_complete_example :
    In
      (record {
        section_name = rodata.name;
        address = (rodata.range.start + 1) % 2 ^ 64;
        value = lit "data";
      })
      (extract_strings text_file (rodata ∷ []))
extract_strings_complete_example =
    extract_strings_complete text_file (rodata ∷ []) rodata (0 ∷ []) (lit "data")
      (0 ∷ 0x61 ∷ 1 ∷ []) (inl refl) refl refl refl (refl, (refl, (refl, (refl, tt)))) (omega arith)
      refl
