-- ===== src/Prelude/Text.antt =====
-- `std::string` as the list of its bytes.
use Prim.Native.Nat.{ℕ}
use Prim.Native.Char.{code}
use Prim.Native.String.{String}
use mathlib.Core.Path.{◌≡◌, refl}
use mathlib.Core.Logic.{◌↔◌, ◌⊎◌}
use mathlib.Core.Bool.{Bool, true, false, ◌&&◌}
use mathlib.Core.List.{List, [], ◌∷◌}
use native.Mathlib.Omega.{arith}
use binary_atlas.Prelude.Tests.{if◌then◌else◌, ◌==◌, ltb}
use binary_atlas.Prelude.Lists.{In}
use binary_atlas.Prelude.Sort.{IsOrder}

abbrev pub Text : Type 0
Text = List ℕ

-- A literal.
abbrev pub lit : String → Text
lit String.[] = []
lit (String.◌∷◌ c s) = code c ∷ lit s

-- `a == b`
unfoldable pub str_eq : Text → Text → Bool
str_eq [] [] = true
str_eq [] (y ∷ ys) = false
str_eq (x ∷ xs) [] = false
str_eq (x ∷ xs) (y ∷ ys) = x == y && str_eq xs ys

-- `a < b`: by the first byte that differs.
unfoldable pub str_lt : Text → Text → Bool
str_lt xs [] = false
str_lt [] (y ∷ ys) = true
str_lt (x ∷ xs) (y ∷ ys) = if x == y then str_lt xs ys else ltb x y

pub str_eq_iff : (a b : Text) → (str_eq a b ≡ true) ↔ (a ≡ b)
unfolding str_eq
str_eq_iff [] [] = (λ h. refl, λ h. refl)
str_eq_iff [] (y ∷ ys) = ground arith
str_eq_iff (x ∷ xs) [] = ground arith
str_eq_iff (x ∷ xs) (y ∷ ys) = ground (arith, str_eq_iff xs ys)

pub str_lt_asym : (a b : Text) → str_lt a b ≡ true → str_lt b a ≡ false
unfolding str_lt
str_lt_asym [] [] h = refl
str_lt_asym [] (y ∷ ys) h = refl
str_lt_asym (x ∷ xs) [] h = cc
str_lt_asym (x ∷ xs) (y ∷ ys) h = ground (arith, str_lt_asym xs ys)

pub str_lt_trans : (a b c : Text) → str_lt b a ≡ false → str_lt c b ≡ false → str_lt c a ≡ false
unfolding str_lt
str_lt_trans [] [] [] h k = refl
str_lt_trans [] [] (z ∷ zs) h k = refl
str_lt_trans [] (y ∷ ys) [] h k = refl
str_lt_trans [] (y ∷ ys) (z ∷ zs) h k = refl
str_lt_trans (x ∷ xs) [] c h k = cc
str_lt_trans (x ∷ xs) (y ∷ ys) [] h k = cc
str_lt_trans (x ∷ xs) (y ∷ ys) (z ∷ zs) h k = ground (arith, str_lt_trans xs ys zs)

pub str_lt_total : (a b : Text) → str_lt a b ≡ false → str_lt b a ≡ false → a ≡ b
unfolding str_lt
str_lt_total [] [] h k = refl
str_lt_total [] (y ∷ ys) h k = cc
str_lt_total (x ∷ xs) [] h k = cc
str_lt_total (x ∷ xs) (y ∷ ys) h k = ground (arith, str_lt_total xs ys)

pub str_lt-IsOrder : IsOrder str_lt
str_lt-IsOrder = record { asym = str_lt_asym; trans = str_lt_trans }

-- `std::set<std::string>`: an ascending list.
unfoldable pub str_insert : Text → List Text → List Text
unfolding str_eq str_lt
str_insert s [] = s ∷ []
str_insert s (t ∷ ts) =
    if str_eq s t then t ∷ ts else if str_lt s t then s ∷ t ∷ ts else t ∷ str_insert s ts

pub In-str_insert : (j s : Text) (ts : List Text) → In j (str_insert s ts) ↔ ((j ≡ s) ⊎ In j ts)
unfolding str_insert
In-str_insert j s [] = (λ h. h, λ h. h)
In-str_insert j s (t ∷ ts) = ground (arith, str_eq_iff s t, In-str_insert j s ts)
