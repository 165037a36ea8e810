-- ===== src/Util/ByteReader.antt =====
-- include/binaryatlas/util/byte_reader.hpp: bounded reads from a span of bytes.
pub mod Bounds
pub mod Spans
use binary_atlas.Prelude.{
  ℕ, ◌+◌, ◌-◌, ◌*◌, ◌≤◌, ◌≡◌, Bool, true, false, ◌&&◌, Option, none, some, List, [], ◌∷◌, leb,
  if◌then◌else◌, length, take, drop,
}

-- `bytes_`
pub record ByteReader : Type 0 where
  pub bytes : List ℕ

unfoldable pub size : ByteReader → ℕ
size r = length r.bytes

-- `bytes_.subspan(offset, length)`
abbrev pub subspan : ℕ → ℕ → List ℕ → List ℕ
subspan offset n bytes = take n (drop offset bytes)

unfoldable pub can_read : ByteReader → ℕ → ℕ → Bool
unfolding size
can_read r offset n = leb offset (size r) && leb n (size r - offset)

unfoldable pub read_span : ByteReader → ℕ → ℕ → Option (List ℕ)
unfolding can_read
read_span r offset n = if can_read r offset n then some (subspan offset n r.bytes) else none

-- A trivially copyable type: its size, and the value that `std::memcpy` of its bytes gives.
pub record Layout (T : Type 0) : Type 0 where
  pub size_of : ℕ
  pub decode : List ℕ → T

unfoldable pub read_object : {T : Type 0} → Layout T → ByteReader → ℕ → Option T
unfolding can_read
read_object l r offset =
    if can_read r offset l.size_of then some (l.decode (subspan offset l.size_of r.bytes)) else none

-- The number that bytes stand for, lowest byte first, and a field of a structure.
abbrev pub le_value : List ℕ → ℕ
le_value [] = 0
le_value (b ∷ bs) = b + 256 * le_value bs

abbrev pub le_field : ℕ → ℕ → List ℕ → ℕ
le_field offset n bytes = le_value (subspan offset n bytes)
