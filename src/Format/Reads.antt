-- ===== src/Format/Reads.antt =====
-- src/format/elf_parser.cpp: `readCString`, `readBoundedSpan`, `computeEntryCount` and `readTable`.
pub mod Tables
pub mod Decoded
pub mod Errors
use binary_atlas.Prelude.{
  ℕ, zero, suc, ◌+◌, ◌*◌, ◌/◌, ◌%◌, Bool, true, false, not, Option, none, some, List, [], ◌∷◌, ◌++◌,
  if◌then◌else◌, ◌==◌, ltb, leb, drop, length, ◌>>=?◌,
}
use binary_atlas.Prelude.Text.{Text, lit}
use binary_atlas.Util.Arithmetic.{
  checked_add, checked_multiply, cast_unsigned, range_fits_within, unsigned, size_t,
}
use binary_atlas.Util.ByteReader.{ByteReader, Layout, size, read_span, read_object}
use binary_atlas.Core.Error.{Result, success, parse, reject_if, or_fail, ◌>>◌, ◌>>=◌}

-- `std::equal` on the bytes of the prefix.
unfoldable pub has_prefix : List ℕ → List ℕ → Bool
has_prefix bytes [] = true
has_prefix [] (p ∷ ps) = false
has_prefix (b ∷ bytes) (p ∷ ps) = let rest = has_prefix bytes ps in if p == b then rest else false

-- The bytes in front of the first zero.
abbrev pub until_zero : List ℕ → Text
until_zero [] = []
until_zero (b ∷ bytes) = let rest = until_zero bytes in if b == 0 then [] else b ∷ rest

unfoldable pub read_c_string : List ℕ → ℕ → Text
read_c_string bytes offset =
    if leb (length bytes) offset then [] else until_zero (drop offset bytes)

unfoldable pub read_bounded_span : ByteReader → ℕ → ℕ → Text → Result (List ℕ)
unfolding cast_unsigned range_fits_within read_span size
read_bounded_span reader offset n label = do
  readable_bytes ←
      or_fail (cast_unsigned (unsigned 64) (size reader))
        (parse (lit "host size limit exceeded while parsing " ++ label))
  reject_if (not (range_fits_within 64 offset n readable_bytes))
      (parse (label ++ lit " extends beyond file contents"))
  safe_offset ←
      or_fail (cast_unsigned size_t offset) (parse (label ++ lit " exceeds host size limits"))
  safe_size ← or_fail (cast_unsigned size_t n) (parse (label ++ lit " exceeds host size limits"))
  or_fail (read_span reader safe_offset safe_size)
      (parse (label ++ lit " extends beyond file contents"))

unfoldable pub compute_entry_count : ℕ → ℕ → Text → Result ℕ
compute_entry_count byte_size entry_size label = if entry_size == 0 then success 0 else do
  reject_if (not (byte_size % entry_size == 0)) (parse (lit "malformed " ++ label ++ lit " size"))
  success (byte_size / entry_size)

module _ {T : Type 0} (layout : Layout T) (reader : ByteReader) (offset entry_size : ℕ)
    (label : Text) where
  -- A round of the loop, at `index`.
  unfoldable pub read_entry : ℕ → Result T
  unfolding checked_multiply checked_add cast_unsigned read_object
  read_entry index = do
    safe_offset ←
        or_fail
          (checked_multiply 64 entry_size index
            >>=? checked_add 64 offset
            >>=? cast_unsigned size_t)
          (parse (lit "overflow while parsing " ++ label))
    or_fail (read_object layout reader safe_offset)
        (parse (lit "truncated " ++ label ++ lit " table"))

  -- The loop from `index` on, for the number of entries that are left.
  unfoldable pub read_entries : ℕ → ℕ → Result (List T)
  unfolding read_entry
  read_entries index zero = success []
  read_entries index (suc left) = do
    entry ← read_entry index
    rest ← read_entries (index + 1) left
    success (entry ∷ rest)

  unfoldable pub read_table : ℕ → Result (List T)
  unfolding read_entries range_fits_within size
  read_table count = do
    reject_if (not (entry_size == layout.size_of))
        (parse (lit "unexpected " ++ label ++ lit " entry size"))
    if count == 0 then success [] else do
      total_bytes ←
          or_fail (checked_multiply 64 entry_size count)
            (parse (lit "overflow while parsing " ++ label))
      readable_bytes ←
          or_fail (cast_unsigned (unsigned 64) (size reader))
            (parse (lit "host size limit exceeded while parsing " ++ label))
      reject_if (not (range_fits_within 64 offset total_bytes readable_bytes))
          (parse (lit "truncated " ++ label ++ lit " table"))
      safe_count ←
          or_fail (cast_unsigned size_t count)
            (parse (label ++ lit " table exceeds host size limits"))
      read_entries 0 count
