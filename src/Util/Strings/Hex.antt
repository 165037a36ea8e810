-- ===== src/Util/Strings/Hex.antt =====
-- Lemmas on the printed numbers of include/binaryatlas/util/string.hpp.
use native.Mathlib.Nat.{div-add-mod'}
use binary_atlas.Prelude.{
  ℕ, zero, suc, ◌+◌, ◌-◌, ◌*◌, ◌/◌, ◌%◌, ◌<◌, ◌≤◌, ◌≡◌, refl, sym, ap, ◌∙◌, inl, inr, List, [], ◌∷◌,
  map, ltb, ◌⊎◌, ◌++◌, length, ◌==◌, if◌then◌else◌, drop, Bool-cases, ltb-false, All, false, arith,
}
use binary_atlas.Prelude.Text.{Text, lit}
use binary_atlas.Util.Strings.{digits, digit_char, hex, format_hex}

-- The number that digits stand for, highest digit first, after the value so far.
abbrev pub number : ℕ → ℕ → List ℕ → ℕ
number base acc [] = acc
number base acc (d ∷ ds) = number base (acc * base + d) ds

div_lt : (n base fuel : ℕ) → 1 < base → base ≤ n → n < suc fuel → n / base < fuel
div_lt n base fuel hb le h = grind (arith, div-add-mod' n base)

pub number-digits :
    (base fuel n : ℕ) (acc : List ℕ)
    → 1 < base
    → n < fuel
    → number base 0 (digits base fuel n acc) ≡ number base n acc
unfolding digits
number-digits base zero n acc hb h = absurd (omega arith)
number-digits base (suc fuel) n acc hb h = elim (Bool-cases (ltb n base)) [
  | inl last ↦ rw last (ap (λ k. number base k acc) (omega arith))
  | inr more ↦ rw more (
      number-digits base fuel (n / base) ((n % base) ∷ acc) hb
        (div_lt n base fuel hb (ltb-false _ _ more) h)
      ∙ ap (λ k. number base k acc) (div-add-mod' n base))
]

pub All-digits :
    (base fuel n : ℕ) (acc : List ℕ)
    → 1 < base
    → All (λ d. d < base) acc
    → All (λ d. d < base) (digits base fuel n acc)
unfolding digits
All-digits base zero n acc hb h = h
All-digits base (suc fuel) n acc hb h =
    ground (arith, All-digits base fuel (n / base) ((n % base) ∷ acc) hb)

-- Reading a digit back.
abbrev pub char_digit : ℕ → ℕ
char_digit c = if ltb c 58 then c - b'0' else c - 87

char_digit-digit_char :
    (ds : List ℕ) → All (λ d. d < 16) ds → map char_digit (map digit_char ds) ≡ ds
char_digit-digit_char [] h = refl
char_digit-digit_char (d ∷ ds) h =
    let e : char_digit (digit_char d) ≡ d = ground arith in
    rw e (ap (◌∷◌ d) (char_digit-digit_char ds h.1))

abbrev pub parse_hex : Text → ℕ
parse_hex t = number 16 0 (map char_digit t)

pub parse_hex-format_hex : (v : ℕ) → parse_hex (drop 2 (format_hex v)) ≡ v
unfolding format_hex
parse_hex-format_hex v =
    ap (number 16 0)
      (char_digit-digit_char (digits 16 (suc v) v []) (All-digits 16 (suc v) v [] (omega arith) tt))
    ∙ number-digits 16 (suc v) v [] (omega arith) (omega arith)

-- `0` to `9` and `a` to `f`.
abbrev pub IsHexChar : ℕ → Type 0
IsHexChar c = ((b'0' ≤ c) × (c ≤ b'9')) ⊎ ((b'a' ≤ c) × (c ≤ b'f'))

digit_chars-IsHexChar : (ds : List ℕ) → All (λ d. d < 16) ds → All IsHexChar (map digit_char ds)
digit_chars-IsHexChar [] h = tt
digit_chars-IsHexChar (d ∷ ds) h =
    let low : d < 16 = h.0 in (ground (arith, low), digit_chars-IsHexChar ds h.1)

nonempty_digits : (fuel n x : ℕ) (acc : List ℕ) → 0 < length (digits 16 fuel n (x ∷ acc))
unfolding digits
nonempty_digits zero n x acc = omega arith
nonempty_digits (suc fuel) n x acc =
    ground (arith, nonempty_digits fuel (n / 16) (n % 16) (x ∷ acc))

some_digits : (v : ℕ) → 0 < length (digits 16 (suc v) v [])
unfolding digits
some_digits v = ground (arith, nonempty_digits v (v / 16) (v % 16) [])

some_chars : (ds : List ℕ) → 0 < length ds → 0 < length (map digit_char ds)
some_chars [] h = h
some_chars (d ∷ ds) h = omega arith

-- `formatHex` writes "0x" and then one or more of the digits `0` to `9` and `a` to `f`, which read
-- back as the value.
pub format_hex_reads :
    (v : ℕ)
    → (t : Text) × (format_hex v ≡ lit "0x" ++ t)
      × (0 < length t)
      × All IsHexChar t
      × (parse_hex t ≡ v)
unfolding format_hex hex
format_hex_reads v = (
  hex v,
  refl,
  some_chars (digits 16 (suc v) v []) (some_digits v),
  digit_chars-IsHexChar (digits 16 (suc v) v []) (All-digits 16 (suc v) v [] (omega arith) tt),
  parse_hex-format_hex v,
)

-- So two addresses are never printed alike.
pub format_hex_injective : (a b : ℕ) → format_hex a ≡ format_hex b → a ≡ b
format_hex_injective a b h =
    sym (parse_hex-format_hex a) ∙ ap (λ t. parse_hex (drop 2 t)) h ∙ parse_hex-format_hex b

-- A character that is a digit is neither an underscore nor a dot.
abbrev pub PlainChar : ℕ → Type 0
PlainChar c = ((c == b'_') ≡ false) × ((c == b'.') ≡ false)

digit_chars-PlainChar : (ds : List ℕ) → All (λ d. d < 16) ds → All PlainChar (map digit_char ds)
digit_chars-PlainChar [] h = tt
digit_chars-PlainChar (d ∷ ds) h =
    let low : d < 16 = h.0 in
    ((ground (arith, low), ground (arith, low)), digit_chars-PlainChar ds h.1)

pub format_hex-PlainChar : (v : ℕ) → All PlainChar (drop 2 (format_hex v))
unfolding format_hex
format_hex-PlainChar v =
    digit_chars-PlainChar (digits 16 (suc v) v []) (All-digits 16 (suc v) v [] (omega arith) tt)
