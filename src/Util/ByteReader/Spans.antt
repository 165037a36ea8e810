-- ===== src/Util/ByteReader/Spans.antt =====
-- Lemmas on spans of spans.
use binary_atlas.Prelude.{
  ℕ, zero, suc, ◌+◌, ◌≤◌, ◌≡◌, refl, ap, ◌∙◌, List, [], ◌∷◌, ◌++◌, length, take, drop, arith,
}
use binary_atlas.Util.ByteReader.{subspan}

pub take-append_length : {A : Type 0} (xs ys : List A) → take (length xs) (xs ++ ys) ≡ xs
take-append_length [] ys = refl
take-append_length (x ∷ xs) ys = ap (◌∷◌ x) (take-append_length xs ys)

pub drop-append_length :
    {A : Type 0} (xs ys : List A) (k n : ℕ) → n ≡ length xs + k → drop n (xs ++ ys) ≡ drop k ys
drop-append_length [] ys k n h = ap (λ m. drop m ys) (omega arith)
drop-append_length (x ∷ xs) ys k zero h = absurd (omega arith)
drop-append_length (x ∷ xs) ys k (suc n) h = drop-append_length xs ys k n (omega arith)

take-take : {A : Type 0} (k n : ℕ) (xs : List A) → k ≤ n → take k (take n xs) ≡ take k xs
take-take zero n xs h = refl
take-take (suc k) zero xs h = absurd (omega arith)
take-take (suc k) (suc n) [] h = refl
take-take (suc k) (suc n) (x ∷ xs) h = ap (◌∷◌ x) (take-take k n xs (omega arith))

drop-take :
    {A : Type 0} (i k n : ℕ) (xs : List A)
    → i + k ≤ n
    → take k (drop i (take n xs)) ≡ take k (drop i xs)
drop-take zero k n xs h = take-take k n xs (omega arith)
drop-take (suc i) k zero xs h = absurd (omega arith)
drop-take (suc i) k (suc n) [] h = refl
drop-take (suc i) k (suc n) (x ∷ xs) h = drop-take i k n xs (omega arith)

drop-drop : {A : Type 0} (i o k : ℕ) (xs : List A) → k ≡ o + i → drop i (drop o xs) ≡ drop k xs
drop-drop i zero k xs h = ap (λ n. drop n xs) (omega arith)
drop-drop zero (suc o) (suc k) [] h = refl
drop-drop (suc i) (suc o) (suc k) [] h = refl
drop-drop i (suc o) zero xs h = absurd (omega arith)
drop-drop i (suc o) (suc k) (x ∷ xs) h = drop-drop i o k xs (omega arith)

-- A span within a span.
pub subspan-subspan :
    (i k o n : ℕ) (xs : List ℕ) → i + k ≤ n → subspan i k (subspan o n xs) ≡ subspan (o + i) k xs
subspan-subspan i k o n xs h =
    drop-take i k n (drop o xs) h ∙ ap (take k) (drop-drop i o (o + i) xs refl)
