-- ===== src/Util/Strings.antt =====
-- include/binaryatlas/util/string.hpp. `std::tolower` is that of the "C" locale.
pub mod Hex
pub mod Search
use binary_atlas.Prelude.{
  ℕ, zero, suc, ◌+◌, ◌/◌, ◌%◌, ◌<◌, ◌≤◌, ◌≡◌, Bool, true, false, ◌&&◌, ◌||◌, Option, none, some,
  List, [], ◌∷◌, ◌++◌, map, ltb, leb, ◌==◌, if◌then◌else◌, drop,
}
use binary_atlas.Prelude.Text.{Text, lit}

abbrev pub to_lower : ℕ → ℕ
to_lower c = if leb b'A' c && leb c b'Z' then c + 32 else c

unfoldable pub to_lower_copy : Text → Text
to_lower_copy value = map to_lower value

-- Whether a text begins with `needle`, and `haystack.find(needle) != npos`.
unfoldable pub starts_with : Text → Text → Bool
starts_with [] haystack = true
starts_with (c ∷ cs) [] = false
starts_with (c ∷ cs) (d ∷ ds) = c == d && starts_with cs ds

unfoldable pub find_text : Text → Text → Bool
unfolding starts_with
find_text needle [] = starts_with needle []
find_text needle (d ∷ ds) = starts_with needle (d ∷ ds) || find_text needle ds

unfoldable pub icontains : Text → Text → Bool
unfolding to_lower_copy find_text
icontains haystack needle = find_text (to_lower_copy needle) (to_lower_copy haystack)

unfoldable pub first_matching_keyword : Text → List Text → Option Text
unfolding icontains
first_matching_keyword value [] = none
first_matching_keyword value (keyword ∷ keywords) =
    if icontains value keyword then some keyword else first_matching_keyword value keywords

-- The loop of `join` from the entry `index` on, after what the stream holds.
unfoldable pub join_from : ℕ → List Text → Text → Text → Text
join_from index [] separator stream = stream
join_from index (item ∷ items) separator stream =
    join_from (index + 1) items separator
      ((if ltb 0 index then stream ++ separator else stream) ++ item)

unfoldable pub join : List Text → Text → Text
unfolding join_from
join items separator = join_from 0 items separator []

-- The digits of a number as a stream prints them. Each round divides by the base, so `n + 1` rounds
-- are enough.
unfoldable pub digits : ℕ → ℕ → ℕ → List ℕ → List ℕ
digits base zero n acc = acc
digits base (suc fuel) n acc =
    let rest = digits base fuel (n / base) ((n % base) ∷ acc) in
    if ltb n base then n ∷ acc else rest

abbrev pub digit_char : ℕ → ℕ
digit_char d = if ltb d 10 then d + b'0' else d + 87

-- `std::to_string`
unfoldable pub decimal : ℕ → Text
unfolding digits
decimal n = map digit_char (digits 10 (suc n) n [])

unfoldable pub hex : ℕ → Text
unfolding digits
hex n = map digit_char (digits 16 (suc n) n [])

unfoldable pub format_hex : ℕ → Text
unfolding hex
format_hex value = lit "0x" ++ hex value
