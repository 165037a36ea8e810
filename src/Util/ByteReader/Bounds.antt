-- ===== src/Util/ByteReader/Bounds.antt =====
-- Lemmas on the bounded reads of include/binaryatlas/util/byte_reader.hpp.
use binary_atlas.Prelude.{
  ◌⊎◌, inl, inr, Bool-cases, leb, ℕ, zero, suc, ◌+◌, ◌≤◌, ◌<◌, ◌≡◌, refl, ◌∙◌, ◌↔◌, true, none,
  some, List, [], ◌∷◌, leb, length, take, drop, get_elem?, length-take, length-drop, arith,
}
use binary_atlas.Util.ByteReader.{ByteReader, size, subspan, can_read, read_span}

pub can_read_iff :
    (r : ByteReader) (offset n : ℕ) → (can_read r offset n ≡ true) ↔ (offset + n ≤ length r.bytes)
unfolding can_read size
can_read_iff r offset n = ground arith

get_elem?-take :
    {A : Type 0} (n i : ℕ) (xs : List A) → i < n → get_elem? (take n xs) i ≡ get_elem? xs i
get_elem?-take zero i xs h = absurd (omega arith)
get_elem?-take (suc n) i [] h = refl
get_elem?-take (suc n) zero (x ∷ xs) h = refl
get_elem?-take (suc n) (suc i) (x ∷ xs) h = get_elem?-take n i xs (omega arith)

get_elem?-drop :
    {A : Type 0} (n i k : ℕ) (xs : List A) → n + i ≡ k → get_elem? (drop n xs) i ≡ get_elem? xs k
get_elem?-drop zero i k xs h = let e : i ≡ k = omega arith in rw e
get_elem?-drop (suc n) i k [] h = refl
get_elem?-drop (suc n) i zero (x ∷ xs) h = absurd (omega arith)
get_elem?-drop (suc n) i (suc k) (x ∷ xs) h = get_elem?-drop n i k xs (omega arith)

pub get_elem?-subspan :
    (offset n i : ℕ) (xs : List ℕ)
    → i < n
    → get_elem? (subspan offset n xs) i ≡ get_elem? xs (offset + i)
get_elem?-subspan offset n i xs h =
    get_elem?-take n i (drop offset xs) h ∙ get_elem?-drop offset i (offset + i) xs refl

pub length-subspan :
    (offset n : ℕ) (xs : List ℕ) → offset + n ≤ length xs → length (subspan offset n xs) ≡ n
length-subspan offset n xs h = omega (arith, length-take n (drop offset xs), length-drop offset xs)

-- What a successful `readSpan` returns.
pub record IsSpan (bytes : List ℕ) (offset n : ℕ) (s : List ℕ) : Type 0 where
  pub fits : offset + n ≤ length bytes
  pub sized : length s ≡ n
  pub same : (i : ℕ) → i < n → get_elem? s i ≡ get_elem? bytes (offset + i)

pub subspan-IsSpan :
    (offset n : ℕ) (bytes : List ℕ)
    → offset + n ≤ length bytes
    → IsSpan bytes offset n (subspan offset n bytes)
subspan-IsSpan offset n bytes fits = record {
  fits = fits;
  sized = length-subspan offset n bytes fits;
  same = λ i l. get_elem?-subspan offset n i bytes l;
}

-- `readSpan` fails where the range leaves the bytes; otherwise it returns as many bytes as were
-- asked for, those that stand at the offset.
pub read_span_lem :
    (r : ByteReader) (offset n : ℕ)
    → ((length r.bytes < offset + n) × (read_span r offset n ≡ none))
      ⊎ ((s : List ℕ) × (read_span r offset n ≡ some s) × IsSpan r.bytes offset n s)
unfolding read_span size
read_span_lem r offset n = elim (Bool-cases (leb (offset + n) (length r.bytes))) [
  | inl h ↦
      let fits : offset + n ≤ length r.bytes = ground arith in
      inr (subspan offset n r.bytes, ground arith, subspan-IsSpan offset n r.bytes fits)
  | inr h ↦ inl (ground arith, ground arith)
]
