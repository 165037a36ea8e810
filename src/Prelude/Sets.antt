-- ===== src/Prelude/Sets.antt =====
-- `std::set<Address>` and `std::map<Address, V>`: lists in ascending order of the keys. The same
-- operations serve `std::unordered_set` and `std::unordered_map` where only membership is read.
use Prim.Native.Nat.{ℕ, ◌+◌, ◌≤◌, ◌<◌}
use mathlib.Core.Path.{◌≡◌, refl, ◌∙◌}
use mathlib.Core.Logic.{◌⊎◌, inl, inr, ◌↔◌}
use mathlib.Core.Bool.{Bool, true, false, ◌||◌}
use mathlib.Core.Option.{Option, none, some}
use mathlib.Core.List.{List, [], ◌∷◌, map}
use native.Mathlib.Omega.{arith}
use binary_atlas.Prelude.Tests.{if◌then◌else◌, ◌==◌, ltb, is_some, Bool-cases}
use binary_atlas.Prelude.Lists.{In, All, length}

-- `s.contains(k)`
abbrev pub contains : ℕ → List ℕ → Bool
contains k [] = false
contains k (x ∷ xs) = k == x || contains k xs

-- `s.insert(k)`
unfoldable pub insert : ℕ → List ℕ → List ℕ
insert k [] = k ∷ []
insert k (x ∷ xs) = if k == x then x ∷ xs else if ltb k x then k ∷ x ∷ xs else x ∷ insert k xs

pub contains_iff : (k : ℕ) (xs : List ℕ) → (contains k xs ≡ true) ↔ In k xs
contains_iff k [] = (λ h. cc, λ h. absurd h)
contains_iff k (x ∷ xs) = ground (arith, contains_iff k xs)

pub contains-insert :
    (j k : ℕ) (xs : List ℕ) → contains j (insert k xs) ≡ (if j == k then true else contains j xs)
unfolding insert
contains-insert j k [] = ground arith
contains-insert j k (x ∷ xs) = ground (arith, contains-insert j k xs)

pub In-insert : (j k : ℕ) (xs : List ℕ) → In j (insert k xs) ↔ ((j ≡ k) ⊎ In j xs)
In-insert j k xs =
    ground (arith, contains_iff j (insert k xs), contains_iff j xs, contains-insert j k xs)

-- Every entry lies above `k`; the list ascends strictly.
abbrev pub Above : ℕ → List ℕ → Type 0
Above k [] = Unit
Above k (x ∷ xs) = (k < x) × Above k xs

abbrev pub Ascending : List ℕ → Type 0
Ascending [] = Unit
Ascending (x ∷ xs) = Above x xs × Ascending xs

Above-trans : (j k : ℕ) (xs : List ℕ) → j < k → Above k xs → Above j xs
Above-trans j k [] h a = tt
Above-trans j k (x ∷ xs) h a = (omega arith, Above-trans j k xs h a.1)

Above-insert : (j k : ℕ) (xs : List ℕ) → j < k → Above j xs → Above j (insert k xs)
unfolding insert
Above-insert j k [] h a = (h, tt)
Above-insert j k (x ∷ xs) h a = ground (arith, Above-insert j k xs h a.1)

pub insert-Ascending : (k : ℕ) (xs : List ℕ) → Ascending xs → Ascending (insert k xs)
unfolding insert
insert-Ascending k [] s = (tt, tt)
insert-Ascending k (x ∷ xs) s =
    ground (arith, insert-Ascending k xs s.1, Above-insert x k xs, Above-trans k x xs)

module _ {ℓ} {V : Type ℓ} where
  -- `m.find(k)`
  abbrev pub map_find : ℕ → List (ℕ × V) → Option V
  map_find k [] = none
  map_find k ((j, v) ∷ m) = if k == j then some v else map_find k m

  -- `m[k] = v`
  unfoldable pub map_put : ℕ → V → List (ℕ × V) → List (ℕ × V)
  map_put k v [] = (k, v) ∷ []
  map_put k v ((j, w) ∷ m) =
      if k == j then (k, v) ∷ m else if ltb k j then (k, v) ∷ (j, w) ∷ m else (j, w) ∷ map_put k v m

  -- `m.emplace(k, v)`: an entry that is there stays.
  unfoldable pub map_emplace : ℕ → V → List (ℕ × V) → List (ℕ × V)
  map_emplace k v m = if is_some (map_find k m) then m else map_put k v m

  abbrev pub keys : List (ℕ × V) → List ℕ
  keys m = map (λ e. e.0) m

  abbrev pub values : List (ℕ × V) → List V
  values m = map (λ e. e.1) m

  pub map_find-put :
      (j k : ℕ) (v : V) (m : List (ℕ × V))
      → map_find j (map_put k v m) ≡ (if j == k then some v else map_find j m)
  unfolding map_put
  map_find-put j k v [] = refl
  map_find-put j k v ((i, w) ∷ m) = ground (arith, map_find-put j k v m)

  pub keys-put : (k : ℕ) (v : V) (m : List (ℕ × V)) → keys (map_put k v m) ≡ insert k (keys m)
  unfolding map_put insert
  keys-put k v [] = refl
  keys-put k v ((j, w) ∷ m) = ground (arith, keys-put k v m)

  pub contains-keys : (k : ℕ) (m : List (ℕ × V)) → contains k (keys m) ≡ is_some (map_find k m)
  contains-keys k [] = refl
  contains-keys k ((j, w) ∷ m) = ground (arith, contains-keys k m)

  -- `m.upper_bound(k)`: the first key above `k`; `m.lower_bound(k)`: the first that is not below.
  unfoldable pub upper_bound : ℕ → List (ℕ × V) → Option (ℕ × V)
  upper_bound k [] = none
  upper_bound k ((j, v) ∷ m) = if ltb k j then some (j, v) else upper_bound k m

  -- The entries from `m.lower_bound(k)` on.
  unfoldable pub from_lower_bound : ℕ → List (ℕ × V) → List (ℕ × V)
  from_lower_bound k [] = []
  from_lower_bound k ((j, v) ∷ m) = if ltb j k then from_lower_bound k m else (j, v) ∷ m

  pub All-map_put {κ} :
      (P : ℕ × V → Type κ) (k : ℕ) (v : V) (m : List (ℕ × V))
      → All P m
      → P (k, v)
      → All P (map_put k v m)
  unfolding map_put
  All-map_put P k v [] h p = (p, tt)
  All-map_put P k v ((j, w) ∷ m) h p = elim (Bool-cases (k == j)) [
    | inl e ↦ rw e (p, h.1)
    | inr e ↦ elim (Bool-cases (ltb k j)) [
      | inl l ↦ rw (e, l) (p, h)
      | inr l ↦ rw (e, l) (h.0, All-map_put P k v m h.1 p)
    ]
  ]

pub length-insert : (k : ℕ) (xs : List ℕ) → length (insert k xs) ≤ length xs + 1
unfolding insert
length-insert k [] = omega arith
length-insert k (x ∷ xs) = ground (arith, length-insert k xs)

pub map_find_of_key :
    {V : Type 0} (k : ℕ) (m : List (ℕ × V)) → is_some (map_find k m) ≡ true → In k (keys m)
map_find_of_key k m h = (contains_iff k (keys m)).0 (contains-keys k m ∙ h)
