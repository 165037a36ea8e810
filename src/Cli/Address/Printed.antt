-- ===== src/Cli/Address/Printed.antt =====
-- Lemmas on `parseAddress`: it reads the addresses that `formatHex` writes.
use binary_atlas.Prelude.{
  ℕ, zero, suc, ◌+◌, ◌*◌, ◌/◌, ◌%◌, ◌^◌, ◌<◌, ◌≡◌, refl, sym, ap, subst, ◌∙◌, inl, inr, true, some,
  List, [], ◌∷◌, map, ltb, is_some, All, Bool-cases, arith,
}
use binary_atlas.Prelude.Text.{Text}
use binary_atlas.Util.Strings.{digits, digit_char, hex, format_hex, starts_with}
use binary_atlas.Util.Strings.Hex.{number, number-digits, All-digits}
use binary_atlas.Cli.Address.{
  digit_value, take_digits, skip_spaces, unsigned_value, stoull, parse_address,
}

digit_value-digit_char : (d : ℕ) → d < 16 → digit_value 16 (digit_char d) ≡ some d
digit_value-digit_char d h = ground arith

take_digits_step :
    (c d acc : ℕ) (cs : Text)
    → digit_value 16 c ≡ some d
    → take_digits 16 acc (c ∷ cs) ≡ take_digits 16 (acc * 16 + d) cs
unfolding take_digits
take_digits_step c d acc cs h = rw (take_digits, h) refl

take_digits-digit_char :
    (ds : List ℕ) (acc : ℕ)
    → All (λ d. d < 16) ds
    → take_digits 16 acc (map digit_char ds) ≡ (number 16 acc ds, [])
unfolding take_digits
take_digits-digit_char [] acc h = refl
take_digits-digit_char (d ∷ ds) acc h =
    take_digits_step (digit_char d) d acc (map digit_char ds) (digit_value-digit_char d h.0)
    ∙ take_digits-digit_char ds (acc * 16 + d) h.1

-- There is a first digit.
longer_digits :
    (fuel n x : ℕ) (acc : List ℕ) → (d : ℕ) × (ds : List ℕ) × (digits 16 fuel n (x ∷ acc) ≡ d ∷ ds)
unfolding digits
longer_digits zero n x acc = (x, acc, refl)
longer_digits (suc fuel) n x acc = elim (Bool-cases (ltb n 16)) [
  | inl last ↦ rw last (n, x ∷ acc, refl)
  | inr more ↦ rw more (longer_digits fuel (n / 16) (n % 16) (x ∷ acc))
]

some_digits : (n : ℕ) → (d : ℕ) × (ds : List ℕ) × (digits 16 (suc n) n [] ≡ d ∷ ds)
unfolding digits
some_digits n = elim (Bool-cases (ltb n 16)) [
  | inl last ↦ rw last (n, [], refl)
  | inr more ↦ rw more (longer_digits n (n / 16) (n % 16) [])
]

-- A text of `0x` and digits, the value of which fits.
prefixed_lem :
    (c d v : ℕ) (cs : Text)
    → digit_value 16 c ≡ some d
    → take_digits 16 0 (c ∷ cs) ≡ (v, [])
    → ltb v (2 ^ 64) ≡ true
    → parse_address (b'0' ∷ b'x' ∷ c ∷ cs) ≡ some v
unfolding parse_address starts_with stoull skip_spaces unsigned_value
prefixed_lem c d v cs digit read fits = rw (ap is_some digit, ap is_some digit, read, fits) refl

-- `parseAddress` reads an address as `formatHex` writes it: what the program prints is accepted as an
-- argument, for every address of 64 bits.
pub parse_address-format_hex : (v : ℕ) → v < 2 ^ 64 → parse_address (format_hex v) ≡ some v
unfolding format_hex hex
parse_address-format_hex v fits =
    let (d, ds, e) = some_digits v in
    let small : All (λ d. d < 16) (d ∷ ds) =
      subst (All (λ d. d < 16)) e (All-digits 16 (suc v) v [] (omega arith) tt) in
    let value : number 16 0 (d ∷ ds) ≡ v =
      ap (number 16 0) (sym e) ∙ number-digits 16 (suc v) v [] (omega arith) (omega arith) in
    rw e (
      prefixed_lem (digit_char d) d v (map digit_char ds) (digit_value-digit_char d small.0)
        (take_digits-digit_char (d ∷ ds) 0 small ∙ ap (λ n. (n, [])) value) (ground (arith, fits)))
