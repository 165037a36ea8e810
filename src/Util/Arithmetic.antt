-- ===== src/Util/Arithmetic.antt =====
-- include/binaryatlas/util/arithmetic.hpp. A value of an unsigned type of `w` bits is a number below
-- 2 ^ w; `max` of the type is 2 ^ w - 1, and `static_cast` back to the type keeps the low `w` bits.
pub mod Exact
use binary_atlas.Prelude.{
  ℕ, ◌+◌, ◌-◌, ◌*◌, ◌/◌, ◌%◌, ◌^◌, ◌≤◌, ◌<◌, ◌≡◌, refl, Bool, true, false, not, ◌&&◌, Option, none,
  some, ltb, leb, ◌==◌, if◌then◌else◌, ◌>>=?◌, arith,
}
use binary_atlas.Prelude.Int.{ℤ, pos, negsuc, ltb_ℤ, residue}

-- `std::numeric_limits<T>::max()` of the unsigned type of `w` bits.
abbrev pub unsigned_max : ℕ → ℕ
unsigned_max w = 2 ^ w - 1

unfoldable pub add_would_overflow : ℕ → ℕ → ℕ → Bool
add_would_overflow w left right = ltb (unsigned_max w - right) left

unfoldable pub multiply_would_overflow : ℕ → ℕ → ℕ → Bool
multiply_would_overflow w left right = not (right == 0) && ltb (unsigned_max w / right) left

unfoldable pub checked_add : ℕ → ℕ → ℕ → Option ℕ
unfolding add_would_overflow
checked_add w left right =
    if add_would_overflow w left right then none else some ((left + right) % 2 ^ w)

unfoldable pub checked_multiply : ℕ → ℕ → ℕ → Option ℕ
unfolding multiply_would_overflow
checked_multiply w left right =
    if multiply_would_overflow w left right then none else some ((left * right) % 2 ^ w)

-- The integral types that the checked cast is used at.
pub data IntType : Type 0 where
  signed unsigned : ℕ → IntType

abbrev pub size_t : IntType
size_t = unsigned 64

abbrev pub ptrdiff_t : IntType
ptrdiff_t = signed 64

abbrev pub type_min : IntType → ℤ
type_min (signed w) = negsuc (2 ^ (w - 1) - 1)
type_min (unsigned w) = pos 0

abbrev pub type_max : IntType → ℤ
type_max (signed w) = pos (2 ^ (w - 1) - 1)
type_max (unsigned w) = pos (2 ^ w - 1)

-- `static_cast<To>(value)`: the value of the type that is congruent to `value`.
abbrev pub static_cast : IntType → ℤ → ℤ
static_cast (unsigned w) v = pos (residue v (2 ^ w))
static_cast (signed w) v =
    if ltb (residue v (2 ^ w)) (2 ^ (w - 1))
    then pos (residue v (2 ^ w))
    else negsuc (2 ^ w - residue v (2 ^ w) - 1)

abbrev pub is_signed : IntType → Bool
is_signed (signed w) = true
is_signed (unsigned w) = false

unfoldable pub checked_integral_cast : IntType → IntType → ℤ → Option ℤ
checked_integral_cast to from value =
    if is_signed from
    then if is_signed to
      then if ltb_ℤ value (type_min to)
        then none
        else if ltb_ℤ (type_max to) value
        then none
        else some (static_cast to value)
      else if ltb_ℤ value (pos 0)
      then none
      else if ltb_ℤ (type_max to) value
      then none
      else some (static_cast to value)
    else if ltb_ℤ (type_max to) value
    then none
    else some (static_cast to value)

-- `checkedIntegralCast<std::size_t>` and the like, from and to numbers: the result of a cast of a
-- value that is not negative is not negative.
abbrev magnitude : ℤ → ℕ
magnitude (pos n) = n
magnitude (negsuc n) = 0

unfoldable pub cast_unsigned : IntType → ℕ → Option ℕ
unfolding checked_integral_cast
cast_unsigned to value =
    checked_integral_cast to (unsigned 64) (pos value) >>=? λ v. some (magnitude v)

unfoldable pub range_fits_within : ℕ → ℕ → ℕ → ℕ → Bool
unfolding checked_add
range_fits_within w offset size bound =
    if ltb bound offset
    then false
    else elim (checked_add w offset size) [ none ↦ false | some end ↦ leb end bound ]

unfoldable pub checked_range_end : ℕ → ℕ → ℕ → Option ℕ
unfolding checked_add
checked_range_end w start size = checked_add w start size
