-- ===== src/Prelude/Search.antt =====
-- What a search finds: the first entry of a list with a property.
use mathlib.Core.Path.{◌≡◌, ap, subst, ◌∙◌, refl}
use mathlib.Core.Logic.{◌↔◌, inl, inr}
use mathlib.Core.Bool.{Bool, true}
use mathlib.Core.Option.{none, some, some-injective}
use mathlib.Core.List.{List, [], ◌∷◌, ◌++◌}
use binary_atlas.Prelude.Tests.{Bool-cases}
use binary_atlas.Prelude.Lists.{All, find_if}

-- The first entry of the list with the property.
abbrev pub First : {A : Type 0} → (A → Type 0) → A → List A → Type 0
First {A} P x xs =
    (before after : List A) × (xs ≡ before ++ x ∷ after) × P x × All (λ y. ¬ P y) before

module _ {A : Type 0} (p : A → Bool) (P : A → Type 0) (says : (y : A) → (p y ≡ true) ↔ P y) where
  pub find_if-First : (xs : List A) (x : A) → find_if p xs ≡ some x → First P x xs
  find_if-First [] x h = absurd (cc h)
  find_if-First (y ∷ ys) x h = elim (Bool-cases (p y)) [
    | inl here ↦
        let same : y ≡ x = some-injective y x (rw here at h) in
        ([], ys, ap (λ z. z ∷ ys) same, subst P same ((says y).0 here), tt)
    | inr not_here ↦
        let (before, after, e, holds, none_before) = find_if-First ys x (rw not_here at h) in
        (
          y ∷ before,
          after,
          ap (◌∷◌ y) e,
          holds,
          ((λ q. absurd (cc (not_here, (says y).1 q))), none_before),
        )
  ]

  pub First-find_if : (xs : List A) (x : A) → First P x xs → find_if p xs ≡ some x
  First-find_if xs x (before, after, e, holds, none_before) =
      ap (find_if p) e ∙ go before none_before
    where
      go : (front : List A) → All (λ y. ¬ P y) front → find_if p (front ++ x ∷ after) ≡ some x
      go [] h = rw ((says x).1 holds) refl
      go (y ∷ front) h = elim (Bool-cases (p y)) [
        | inl here ↦ absurd (h.0 ((says y).0 here))
        | inr not_here ↦ rw not_here (go front h.1)
      ]

  pub find_if-none : (xs : List A) → (find_if p xs ≡ none) ↔ All (λ y. ¬ P y) xs
  find_if-none [] = (λ h. tt, λ h. refl)
  find_if-none (y ∷ ys) = elim (Bool-cases (p y)) [
    | inl here ↦ rw here (λ h. absurd (cc h), λ h. absurd (h.0 ((says y).0 here)))
    | inr not_here ↦ rw not_here (
      λ h. ((λ q. absurd (cc (not_here, (says y).1 q))), (find_if-none ys).0 h),
      λ h. (find_if-none ys).1 h.1,
    )
  ]
