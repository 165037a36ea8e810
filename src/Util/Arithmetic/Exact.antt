-- ===== src/Util/Arithmetic/Exact.antt =====
-- Lemmas on the checked operations of include/binaryatlas/util/arithmetic.hpp.
use native.Mathlib.Nat.{mod-eq_of_lt, pow-suc}
use binary_atlas.Prelude.{
  ℕ, zero, suc, ◌+◌, ◌-◌, ◌*◌, ◌/◌, ◌%◌, ◌^◌, ◌≤◌, ◌<◌, ◌≡◌, ◌≢◌, ◌↔◌, inl, inr, true, not, ◌&&◌,
  none, some, ltb→lt, ap, ltb, ◌==◌, if◌then◌else◌, Bool-cases, arith,
}
use binary_atlas.Prelude.Int.{ℤ, pos, negsuc, ◌≤ℤ◌, residue}
use binary_atlas.Util.Arithmetic.{
  checked_add, checked_multiply, IntType, signed, unsigned, size_t, ptrdiff_t, type_min, type_max,
  checked_integral_cast, static_cast, cast_unsigned, range_fits_within,
}

pow_pos : (w : ℕ) → 0 < 2 ^ w
pow_pos zero = omega arith
pow_pos (suc w) = omega (arith, pow-suc 2 w, pow_pos w)

pow_double : (w : ℕ) → 2 ^ suc w ≡ 2 ^ (suc w - 1) + 2 ^ (suc w - 1)
pow_double w = let e : suc w - 1 ≡ w = omega arith in rw e (omega (arith, pow-suc 2 w))

add_cases :
    (m a b : ℕ)
    → b < m
    → (if ltb (m - 1 - b) a then none else some ((a + b) % m))
      ≡ (if ltb (a + b) m then some (a + b) else none)
add_cases m a b hb = elim (Bool-cases (ltb (a + b) m)) [
  | inl fits ↦ let e : (a + b) % m ≡ a + b = mod-eq_of_lt (ltb→lt _ _ fits) in ground (arith, e)
  | inr wraps ↦ ground arith
]

mul_bound : (m a b : ℕ) → b ≢ 0 → 0 < m → (ltb ((m - 1) / b) a ≡ true) ↔ (m ≤ a * b)
mul_bound m a b hb hm = (λ h. grind arith, λ h. grind arith)

mul_cases :
    (m a b : ℕ)
    → 0 < m
    → (if not (b == 0) && ltb ((m - 1) / b) a then none else some ((a * b) % m))
      ≡ (if ltb (a * b) m then some (a * b) else none)
mul_cases m a zero hm =
    let e : (a * 0) % m ≡ a * 0 = mod-eq_of_lt (omega arith) in ground (arith, e)
mul_cases m a (suc b) hm = elim (Bool-cases (ltb (a * suc b) m)) [
  | inl fits ↦
      let e : (a * suc b) % m ≡ a * suc b = mod-eq_of_lt (ltb→lt _ _ fits) in
      ground (arith, e, mul_bound m a (suc b))
  | inr wraps ↦ ground (arith, mul_bound m a (suc b))
]

-- In `if` form: the sum, if it is representable.
pub checked_add_lem :
    (w a b : ℕ)
    → b < 2 ^ w
    → checked_add w a b ≡ (if ltb (a + b) (2 ^ w) then some (a + b) else none)
unfolding checked_add
checked_add_lem w a b hb = add_cases (2 ^ w) a b hb

-- For a second summand of `w` bits, `checkedAdd` returns the sum, exactly where it fits `w` bits.
pub checked_add_iff :
    (w a b r : ℕ) → b < 2 ^ w → (checked_add w a b ≡ some r) ↔ ((r ≡ a + b) × (a + b < 2 ^ w))
checked_add_iff w a b r hb = ground (arith, checked_add_lem w a b hb)

-- For a first factor of `w` bits, `checkedMultiply` returns the product where it fits `w` bits, and
-- nothing where it does not.
pub checked_multiply_lem :
    (w a b : ℕ)
    → a < 2 ^ w
    → checked_multiply w a b ≡ (if ltb (a * b) (2 ^ w) then some (a * b) else none)
unfolding checked_multiply
checked_multiply_lem w a b ha = mul_cases (2 ^ w) a b (omega arith)

-- For a size and a bound of `w` bits, `rangeFitsWithin` is true exactly where the range ends at the
-- bound or before it.
pub range_fits_within_iff :
    (w offset size bound : ℕ)
    → size < 2 ^ w
    → bound < 2 ^ w
    → (range_fits_within w offset size bound ≡ true) ↔ (offset + size ≤ bound)
unfolding range_fits_within
range_fits_within_iff w offset size bound hs hb = ground (arith, checked_add_lem w offset size hs)

abbrev pub InType : IntType → ℤ → Type 0
InType t v = (type_min t ≤ℤ v) × (v ≤ℤ type_max t)

pub cast_size_t : (n : ℕ) → n < 2 ^ 64 → cast_unsigned size_t n ≡ some n
unfolding cast_unsigned
cast_size_t n h = ground arith

pub cast_ptrdiff_t : (n : ℕ) → cast_unsigned ptrdiff_t n ≡ (if ltb n (2 ^ 63) then some n else none)
unfolding cast_unsigned
cast_ptrdiff_t n = ground arith

residue_signed :
    (m h : ℕ) (v : ℤ)
    → m ≡ h + h
    → negsuc (h - 1) ≤ℤ v
    → v ≤ℤ pos (h - 1)
    → 0 < h
    → (if ltb (residue v m) h then pos (residue v m) else negsuc (m - residue v m - 1)) ≡ v
residue_signed m h (pos n) e lo hi p =
    let q : n % m ≡ n = mod-eq_of_lt (omega arith) in ground (arith, q)
residue_signed m h (negsuc n) e lo hi p =
    let q : n % m ≡ n = mod-eq_of_lt (omega arith) in ground (arith, q)

abbrev pub width : IntType → ℕ
width (signed w) = w
width (unsigned w) = w

-- A value of the type is cast to itself.
static_cast_self : (t : IntType) (v : ℤ) → 0 < width t → InType t v → static_cast t v ≡ v
static_cast_self (signed zero) v p h = absurd (omega arith)
static_cast_self (signed (suc w)) v p h =
    residue_signed (2 ^ suc w) (2 ^ (suc w - 1)) v (pow_double w) h.0 h.1 (pow_pos (suc w - 1))
static_cast_self (unsigned w) (pos n) p h = ap pos (mod-eq_of_lt (omega (arith, pow_pos w)))
static_cast_self (unsigned w) (negsuc n) p h = absurd (omega arith)

-- For a value of the source type, `checkedIntegralCast` returns the value unchanged, exactly where
-- the target type, which has a positive width, has it.
pub checked_integral_cast_iff :
    (to from : IntType) (v r : ℤ)
    → 0 < width to
    → InType from v
    → (checked_integral_cast to from v ≡ some r) ↔ ((r ≡ v) × InType to v)
unfolding checked_integral_cast
checked_integral_cast_iff (signed w) (signed u) v r p h =
    ground (arith, static_cast_self (signed w) v p)
checked_integral_cast_iff (unsigned w) (signed u) v r p h =
    ground (arith, static_cast_self (unsigned w) v p)
checked_integral_cast_iff (signed w) (unsigned u) (pos n) r p h =
    ground (arith, static_cast_self (signed w) (pos n) p)
checked_integral_cast_iff (unsigned w) (unsigned u) (pos n) r p h =
    ground (arith, static_cast_self (unsigned w) (pos n) p)
checked_integral_cast_iff to (unsigned u) (negsuc n) r p h = absurd (omega arith)

pub cast_size_t_inv : (n m : ℕ) → cast_unsigned size_t n ≡ some m → (m ≡ n) × (n < 2 ^ 64)
unfolding cast_unsigned
cast_size_t_inv n m h = ground arith
