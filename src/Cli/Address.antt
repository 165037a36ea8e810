-- ===== src/Cli/Address.antt =====
-- src/cli/main.cpp: `parseAddress`, with the `std::stoull` that it calls, in the "C" locale.
pub mod Printed
use binary_atlas.Prelude.{
  ℕ, ◌+◌, ◌-◌, ◌*◌, ◌%◌, ◌^◌, Bool, ◌&&◌, ◌||◌, Option, none, some, [], ◌∷◌, ◌==◌, leb, ltb,
  is_some, is_empty, if◌then◌else◌, ◌>>=?◌,
}
use binary_atlas.Prelude.Text.{Text, lit}
use binary_atlas.Util.Strings.{starts_with}

-- The value of a digit of the base.
abbrev pub any_digit : ℕ → Option ℕ
any_digit c =
    if leb b'0' c && leb c b'9'
    then some (c - b'0')
    else if leb b'a' c && leb c b'z'
    then some (c - 87)
    else if leb b'A' c && leb c b'Z'
    then some (c - 55)
    else none

abbrev pub digit_value : ℕ → ℕ → Option ℕ
digit_value base c = any_digit c >>=? λ d. if ltb d base then some d else none

-- The digits at the front of a text, added to `acc`, and what is behind them.
unfoldable pub take_digits : ℕ → ℕ → Text → ℕ × Text
take_digits base acc [] = (acc, [])
take_digits base acc (c ∷ cs) = elim (digit_value base c) [
  | none ↦ (acc, c ∷ cs)
  | some d ↦ take_digits base (acc * base + d) cs
]

abbrev is_space : ℕ → Bool
is_space c = c == 32 || (leb 9 c && leb c 13)

unfoldable pub skip_spaces : Text → Text
skip_spaces [] = []
skip_spaces (c ∷ cs) = let rest = skip_spaces cs in if is_space c then rest else c ∷ cs

-- The text behind `0x`, in base 16 and where a digit follows.
abbrev pub skip_prefix : ℕ → Text → Text
skip_prefix base (zero_char ∷ x ∷ d ∷ rest) =
    if base == 16 && zero_char == b'0' && (x == b'x' || x == b'X') && is_some (digit_value 16 d)
    then d ∷ rest
    else zero_char ∷ x ∷ d ∷ rest
skip_prefix base t = t

-- A number without its sign: `none` where there is no digit or the value does not fit.
unfoldable pub unsigned_value : ℕ → Text → Option (ℕ × Text)
unfolding take_digits
unsigned_value base [] = none
unsigned_value base (c ∷ cs) =
    if is_some (digit_value base c)
    then (let (value, rest) = take_digits base 0 (c ∷ cs) in
        if ltb value (2 ^ 64) then some (value, rest) else none)
    else none

abbrev pub negated : ℕ × Text → ℕ × Text
negated (value, rest) = ((2 ^ 64 - value) % 2 ^ 64, rest)

abbrev pub signed_value : ℕ → Text → Option (ℕ × Text)
signed_value base [] = none
signed_value base (c ∷ cs) =
    if c == b'-'
    then (unsigned_value base (skip_prefix base cs) >>=? λ r. some (negated r))
    else if c == b'+'
    then unsigned_value base (skip_prefix base cs)
    else unsigned_value base (skip_prefix base (c ∷ cs))

-- `std::stoull`: the value and the text that is not consumed; `none` is an exception.
unfoldable pub stoull : ℕ → Text → Option (ℕ × Text)
unfolding skip_spaces unsigned_value
stoull base text = signed_value base (skip_spaces text)

unfoldable pub parse_address : Text → Option ℕ
unfolding starts_with stoull
parse_address text =
    let base = if starts_with (lit "0x") text || starts_with (lit "0X") text then 16 else 10 in
    stoull base text >>=? λ parsed. if is_empty parsed.1 then some parsed.0 else none
