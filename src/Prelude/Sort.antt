-- ===== src/Prelude/Sort.antt =====
-- `std::sort` with a comparator, as insertion sort: of the orders that the standard allows for
-- entries which the comparator does not tell apart, it picks the order of the input.
use Prim.Native.Nat.{ℕ, suc, ◌<◌}
use mathlib.Core.Path.{◌≡◌, refl, sym, ap, subst, ◌∙◌}
use mathlib.Core.Logic.{◌⊎◌, inl, inr, ◌↔◌}
use mathlib.Core.Bool.{Bool, true, false}
use mathlib.Core.List.{List, [], ◌∷◌, map, Perm}
use mathlib.Core.List.Perm
use native.Mathlib.Omega.{arith}
use binary_atlas.Prelude.Tests.{if◌then◌else◌, Bool-cases, ltb}
use binary_atlas.Prelude.Lists.{In, All, Distinct, In-map, In-map_inv, length}
use binary_atlas.Prelude.Sets.{Above, Ascending}

module _ {A : Type 0} (less : A → A → Bool) where
  unfoldable pub insert_by : A → List A → List A
  insert_by x [] = x ∷ []
  insert_by x (y ∷ ys) = if less y x then y ∷ insert_by x ys else x ∷ y ∷ ys

  unfoldable pub sort_by : List A → List A
  unfolding insert_by
  sort_by [] = []
  sort_by (x ∷ xs) = insert_by x (sort_by xs)

  insert_by-perm : (x : A) (ys : List A) → Perm (insert_by x ys) (x ∷ ys)
  unfolding insert_by
  insert_by-perm x [] = Perm.refl (x ∷ [])
  insert_by-perm x (y ∷ ys) = elim (Bool-cases (less y x)) [
    | inl e ↦ rw e (Perm.trans (Perm.cons y (insert_by-perm x ys)) (Perm.swap x y ys))
    | inr e ↦ rw e (Perm.refl (x ∷ y ∷ ys))
  ]

  -- The same entries, as often.
  pub sort_by-perm : (xs : List A) → Perm (sort_by xs) xs
  unfolding sort_by
  sort_by-perm [] = Perm.refl []
  sort_by-perm (x ∷ xs) = Perm.trans (insert_by-perm x (sort_by xs)) (Perm.cons x (sort_by-perm xs))

  pub In-insert_by : (a x : A) (ys : List A) → In a (insert_by x ys) ↔ ((a ≡ x) ⊎ In a ys)
  unfolding insert_by
  In-insert_by a x [] = (λ h. h, λ h. h)
  In-insert_by a x (y ∷ ys) = ground (arith, In-insert_by a x ys)

  pub In-sort_by : (a : A) (xs : List A) → In a (sort_by xs) ↔ In a xs
  unfolding sort_by
  In-sort_by a [] = (λ h. h, λ h. h)
  In-sort_by a (x ∷ xs) = ground (arith, In-insert_by a x (sort_by xs), In-sort_by a xs)

  length-insert_by : (x : A) (ys : List A) → length (insert_by x ys) ≡ suc (length ys)
  unfolding insert_by
  length-insert_by x [] = refl
  length-insert_by x (y ∷ ys) = ground (arith, length-insert_by x ys)

  pub length-sort_by : (xs : List A) → length (sort_by xs) ≡ length xs
  unfolding sort_by
  length-sort_by [] = refl
  length-sort_by (x ∷ xs) = length-insert_by x (sort_by xs) ∙ ap suc (length-sort_by xs)

  pub All-sort_by : (P : A → Type 0) (xs : List A) → All P xs → All P (sort_by xs)
  unfolding sort_by insert_by
  All-sort_by P [] h = h
  All-sort_by P (x ∷ xs) h = go (sort_by xs) (All-sort_by P xs h.1)
    where
      go : (ys : List A) → All P ys → All P (insert_by x ys)
      go [] k = (h.0, tt)
      go (y ∷ ys) k = elim (Bool-cases (less y x)) [
        | inl e ↦ rw e (k.0, go ys k.1)
        | inr e ↦ rw e (h.0, k)
      ]

  -- No entry comes before one that is less.
  abbrev pub Sorted : List A → Type 0
  Sorted [] = Unit
  Sorted (x ∷ xs) = All (λ y. less y x ≡ false) xs × Sorted xs

  -- What `std::sort` asks of its comparator.
  pub record IsOrder : Type 0 where
    pub asym : (x y : A) → less x y ≡ true → less y x ≡ false
    pub trans : (x y z : A) → less y x ≡ false → less z y ≡ false → less z x ≡ false

  module _ (o : IsOrder) where
    All-trans :
        (x y : A) (ys : List A)
        → less y x ≡ false
        → All (λ z. less z y ≡ false) ys
        → All (λ z. less z x ≡ false) ys
    All-trans x y [] e h = tt
    All-trans x y (z ∷ zs) e h = (o.trans x y z e h.0, All-trans x y zs e h.1)

    All-insert_by : (P : A → Type 0) (x : A) (ys : List A) → P x → All P ys → All P (insert_by x ys)
    unfolding insert_by
    All-insert_by P x [] p h = (p, tt)
    All-insert_by P x (y ∷ ys) p h = elim (Bool-cases (less y x)) [
      | inl e ↦ rw e (h.0, All-insert_by P x ys p h.1)
      | inr e ↦ rw e (p, h)
    ]

    insert_by-Sorted : (x : A) (ys : List A) → Sorted ys → Sorted (insert_by x ys)
    unfolding insert_by
    insert_by-Sorted x [] s = (tt, tt)
    insert_by-Sorted x (y ∷ ys) s = elim (Bool-cases (less y x)) [
      | inl e ↦
          rw e (
            All-insert_by (λ z. less z y ≡ false) x ys (o.asym y x e) s.0,
            insert_by-Sorted x ys s.1,
          )
      | inr e ↦ rw e ((e, All-trans x y ys e s.0), s)
    ]

    pub sort_by-Sorted : (xs : List A) → Sorted (sort_by xs)
    unfolding sort_by
    sort_by-Sorted [] = tt
    sort_by-Sorted (x ∷ xs) = insert_by-Sorted x (sort_by xs) (sort_by-Sorted xs)

-- Comparing by a numeric key is such an order.
unfoldable pub by_key : {A : Type 0} → (A → ℕ) → A → A → Bool
by_key key x y = ltb (key x) (key y)

pub by_key-IsOrder : {A : Type 0} (key : A → ℕ) → IsOrder (by_key key)
unfolding by_key
by_key-IsOrder key = record { asym = λ x y h. ground arith; trans = λ x y z h k. ground arith }

module _ {A : Type 0} (less : A → A → Bool) where
  Distinct-insert_by :
      (x : A) (ys : List A) → Distinct ys → ¬ In x ys → Distinct (insert_by less x ys)
  unfolding insert_by
  Distinct-insert_by x [] d new = (λ m. m, tt)
  Distinct-insert_by x (y ∷ ys) d new = elim (Bool-cases (less y x)) [
    | inl e ↦ rw e (
      λ m. elim ((In-insert_by less y x ys).0 m) [ inl q ↦ new (inl (sym q)) | inr k ↦ d.0 k ],
      Distinct-insert_by x ys d.1 (λ m. new (inr m)),
    )
    | inr e ↦ rw e (new, d)
  ]

  pub Distinct-sort_by : (xs : List A) → Distinct xs → Distinct (sort_by less xs)
  unfolding sort_by
  Distinct-sort_by [] d = tt
  Distinct-sort_by (x ∷ xs) d =
      Distinct-insert_by x (sort_by less xs) (Distinct-sort_by xs d.1)
        (λ m. d.0 ((In-sort_by less x xs).0 m))

-- The same of a key of the entries.
module _ {A : Type 0} (key : A → ℕ) (less : A → A → Bool) where
  In-map_insert :
      (k : ℕ) (x : A) (ys : List A)
      → In k (map key (insert_by less x ys))
      → (k ≡ key x) ⊎ In k (map key ys)
  In-map_insert k x ys m =
      let (y, n, e) = In-map_inv key k (insert_by less x ys) m in
      elim ((In-insert_by less y x ys).0 n) [
        | inl q ↦ inl (e ∙ ap key q)
        | inr l ↦ inr (subst (λ b. In b (map key ys)) (sym e) (In-map key y ys l))
      ]

  Distinct-map_insert :
      (x : A) (ys : List A)
      → ¬ In (key x) (map key ys)
      → Distinct (map key ys)
      → Distinct (map key (insert_by less x ys))
  unfolding insert_by
  Distinct-map_insert x [] new h = (new, tt)
  Distinct-map_insert x (y ∷ ys) new h = elim (Bool-cases (less y x)) [
    | inl e ↦ rw e (
      λ m. elim (In-map_insert (key y) x ys m) [ inl q ↦ new (inl (sym q)) | inr k ↦ h.0 k ],
      Distinct-map_insert x ys (λ m. new (inr m)) h.1,
    )
    | inr e ↦ rw e (new, h)
  ]

  pub Distinct-map_sort :
      (xs : List A) → Distinct (map key xs) → Distinct (map key (sort_by less xs))
  unfolding sort_by
  Distinct-map_sort [] h = tt
  Distinct-map_sort (x ∷ xs) h =
      Distinct-map_insert x (sort_by less xs)
        (λ m.
          let (y, n, e) = In-map_inv key (key x) (sort_by less xs) m in
          h.0
            (subst (λ b. In b (map key xs)) (sym e) (In-map key y xs ((In-sort_by less y xs).0 n))))
        (Distinct-map_sort xs h.1)

-- Sorted by a key that no two entries share, the keys rise.
module _ {A : Type 0} (key : A → ℕ) where
  Above-by_key :
      (x : A) (ys : List A)
      → All (λ y. by_key key y x ≡ false) ys
      → ¬ In (key x) (map key ys)
      → Above (key x) (map key ys)
  unfolding by_key
  Above-by_key x [] h new = tt
  Above-by_key x (y ∷ ys) h new = (above, Above-by_key x ys h.1 (λ m. new (inr m)))
    where
      differs : ¬ (key x ≡ key y)
      differs e = new (inl e)

      above : key x < key y
      above = ground (arith, differs, h.0)

  pub Sorted-Ascending :
      (xs : List A) → Sorted (by_key key) xs → Distinct (map key xs) → Ascending (map key xs)
  Sorted-Ascending [] s d = tt
  Sorted-Ascending (x ∷ xs) s d = (Above-by_key x xs s.0 d.0, Sorted-Ascending xs s.1 d.1)
