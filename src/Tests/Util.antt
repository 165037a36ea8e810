-- ===== src/Tests/Util.antt =====
-- Checked arithmetic, bounded reads and text helpers at concrete inputs.
use binary_atlas.Prelude.{
  ◌++◌, length, All, ◌<◌, ℕ, ◌+◌, ◌^◌, ◌≤◌, ◌<◌, ◌≡◌, refl, ◌↔◌, true, false, none, some, List, [],
  ◌∷◌, arith,
}
use binary_atlas.Prelude.Int.{pos, negsuc}
use binary_atlas.Prelude.Text.{Text, lit}
use binary_atlas.Util.Arithmetic.{
  signed, unsigned, checked_add, checked_integral_cast, range_fits_within,
}
use binary_atlas.Util.Arithmetic.Exact.{
  checked_add_iff, checked_integral_cast_iff, range_fits_within_iff, InType,
}
use binary_atlas.Util.ByteReader.{ByteReader, read_span}
use binary_atlas.Util.Strings.{icontains, join, format_hex}
use binary_atlas.Util.Strings.Hex.{parse_hex, IsHexChar, format_hex_reads}

checked_add_iff_example :
    (checked_add 8 250 5 ≡ some 255) ↔ ((◌≡◌ {A = ℕ} 255 (250 + 5)) × (250 + 5 < 2 ^ 8))
checked_add_iff_example = checked_add_iff 8 250 5 255 (omega arith)

checked_add_overflows : checked_add 8 250 6 ≡ none
unfolding checked_add
checked_add_overflows = refl

checked_integral_cast_iff_example :
    (checked_integral_cast (unsigned 8) (signed 16) (negsuc 4) ≡ some (negsuc 4))
    ↔ ((negsuc 4 ≡ negsuc 4) × InType (unsigned 8) (negsuc 4))
checked_integral_cast_iff_example =
    checked_integral_cast_iff (unsigned 8) (signed 16) (negsuc 4) (negsuc 4) (omega arith)
      (omega arith)

cast_runs :
    (checked_integral_cast (signed 8) (unsigned 64) (pos 127) ≡ some (pos 127))
    × (checked_integral_cast (signed 8) (unsigned 64) (pos 128) ≡ none)
unfolding checked_integral_cast
cast_runs = (refl, refl)

range_fits_within_iff_example : (range_fits_within 64 10 7 16 ≡ true) ↔ (10 + 7 ≤ 16)
range_fits_within_iff_example = range_fits_within_iff 64 10 7 16 (omega arith) (omega arith)

abbrev five_bytes : ByteReader
five_bytes = record { bytes = 1 ∷ 2 ∷ 3 ∷ 4 ∷ 5 ∷ [] }

read_span_runs :
    (read_span five_bytes 2 3 ≡ some (3 ∷ 4 ∷ 5 ∷ [])) × (read_span five_bytes 3 3 ≡ none)
unfolding read_span
read_span_runs = (refl, refl)

format_hex_reads_example :
    (t : Text) × (format_hex 0x401000 ≡ lit "0x" ++ t)
    × (0 < length t)
    × All IsHexChar t
    × (parse_hex t ≡ 0x401000)
format_hex_reads_example = format_hex_reads 0x401000

format_hex_runs : (format_hex 0x40a0 ≡ lit "0x40a0") × (format_hex 0 ≡ lit "0x0")
unfolding format_hex
format_hex_runs = (refl, refl)

icontains_runs :
    (icontains (lit "vkSwapBuffers") (lit "SWAP") ≡ true)
    × (icontains (lit "main") (lit "SWAP") ≡ false)
unfolding icontains
icontains_runs = (refl, refl)

abbrev keywords : List Text
keywords = lit "unreal" ∷ lit "unity" ∷ []

join_runs : join (lit "a" ∷ lit "b" ∷ lit "c" ∷ []) (lit ", ") ≡ lit "a, b, c"
unfolding join
join_runs = refl
