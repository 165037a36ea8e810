-- ===== src/Prelude/Order.antt =====
-- What it means that a list is in order, said without the comparator that sorts it.
use Prim.Native.Nat.{ℕ, ◌<◌}
use mathlib.Core.Path.{◌≡◌, refl, sym, ap, ◌∙◌}
use mathlib.Core.Logic.{◌⊎◌, inl, inr}
use mathlib.Core.Bool.{Bool, true, false}
use mathlib.Core.List.{List, [], ◌∷◌, ◌++◌}
use native.Mathlib.Omega.{arith}
use binary_atlas.Prelude.Tests.{Bool-cases, ◌==◌}
use binary_atlas.Prelude.Lists.{All, All-imp}
use binary_atlas.Prelude.Sort.{Sorted, sort_by, IsOrder, sort_by-Sorted}
use binary_atlas.Prelude.Text.{Text, str_lt, str_lt_total}

-- Each entry is in the relation to all that follow it.
abbrev pub Ordered : {A : Type 0} → (A → A → Type 0) → List A → Type 0
Ordered R [] = Unit
Ordered R (x ∷ xs) = All (R x) xs × Ordered R xs

-- The order of words in a dictionary: behind what both begin with, the first one ends, or has the
-- lower byte.
abbrev pub TextBefore : Text → Text → Type 0
TextBefore s t =
    ((c : ℕ) × (rest : Text) × (t ≡ s ++ c ∷ rest))
    ⊎ ((front : Text) × (c d : ℕ) × (s' t' : Text) × (s ≡ front ++ c ∷ s')
        × (t ≡ front ++ d ∷ t')
        × (c < d))

abbrev pub TextNotAfter : Text → Text → Type 0
TextNotAfter s t = (s ≡ t) ⊎ TextBefore s t

-- By one key, and where it is equal, by what follows.
abbrev pub Then : {K : Type 0} → (K → K → Type 0) → K → K → Type 0 → Type 0
Then before k l next = before k l ⊎ ((k ≡ l) × next)

str_lt-TextBefore : (s t : Text) → str_lt s t ≡ true → TextBefore s t
unfolding str_lt
str_lt-TextBefore [] [] h = absurd (cc h)
str_lt-TextBefore [] (d ∷ t) h = inl (d, t, refl)
str_lt-TextBefore (c ∷ s) [] h = absurd (cc h)
str_lt-TextBefore (c ∷ s) (d ∷ t) h = elim (Bool-cases (c == d)) [
  | inr differ ↦ inr ([], c, d, s, t, refl, refl, ground (arith, differ, h))
  | inl same ↦
      let e : c ≡ d = ground (arith, same) in
      elim (str_lt-TextBefore s t (rw same at h)) [
        | inl (b, rest, q) ↦ inl (b, rest, ap (λ x. x ∷ t) (sym e) ∙ ap (◌∷◌ c) q)
        | inr (front, a, b, s', t', p, q, below) ↦
            inr
              (c ∷ front, a, b, s', t', ap (◌∷◌ c) p, ap (λ x. x ∷ t) (sym e) ∙ ap (◌∷◌ c) q, below)
      ]
]

pub str_lt-TextNotAfter : (s t : Text) → str_lt t s ≡ false → TextNotAfter s t
str_lt-TextNotAfter s t h = elim (Bool-cases (str_lt s t)) [
  | inl before ↦ inr (str_lt-TextBefore s t before)
  | inr not_before ↦ inl (str_lt_total s t not_before h)
]

module _ {A : Type 0} (less : A → A → Bool) (R : A → A → Type 0)
    (says : (x y : A) → less y x ≡ false → R x y) where
  Sorted-Ordered : (xs : List A) → Sorted less xs → Ordered R xs
  Sorted-Ordered [] s = tt
  Sorted-Ordered (x ∷ xs) s =
      (All-imp (λ y. less y x ≡ false) (R x) xs (says x) s.0, Sorted-Ordered xs s.1)

  pub sort_by-Ordered : IsOrder less → (xs : List A) → Ordered R (sort_by less xs)
  sort_by-Ordered o xs = Sorted-Ordered (sort_by less xs) (sort_by-Sorted less o xs)
