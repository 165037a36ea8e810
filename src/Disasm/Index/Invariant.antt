-- ===== src/Disasm/Index/Invariant.antt =====
-- Lemmas on `DisassemblyResult`: its index and its counter.
use mathlib.Core.List.{append_assoc, append-nil}
use binary_atlas.Prelude.{
  ◌⊎◌, inl, inr, ℕ, ◌+◌, ◌<◌, ◌≡◌, refl, sym, ap, ◌∙◌, inl, inr, ◌↔◌, Bool, true, Option, none,
  some, List, [], ◌∷◌, ◌++◌, if◌then◌else◌, ◌==◌, length, length-append, get_elem?,
  get_elem?-append, get_elem?-length, count_if, Bool-cases, Option-cases, In, All, ◌≢◌,
  In_of_get_elem?, In-append_cases, In-map, In-map_inv, map, is_some, arith, subst, ◌>>=?◌,
}
use binary_atlas.Prelude.Sets.{map_find, map_find-put, keys, keys-put, Ascending, insert-Ascending}
use binary_atlas.Core.Types.{Address}
use binary_atlas.Disasm.Instruction.{Instruction}
use binary_atlas.Disasm.Index.{DisassemblyResult, empty_result, find, add_instruction, add_all}

pub record IsIndexed (r : DisassemblyResult) : Type 0 where
  pub ordered : Ascending (keys r.address_index)
  pub bounded : (a i : ℕ) → map_find a r.address_index ≡ some i → i < length r.instructions
  pub exact : (a : ℕ) (x : Instruction) → find r a ≡ some x → x.address ≡ a
  pub full : (x : Instruction) → In x r.instructions → is_some (find r x.address) ≡ true
  pub counted : r.invalid_instruction_count ≡ count_if (λ x. x.invalid) r.instructions

pub empty_result-IsIndexed : IsIndexed empty_result
unfolding find
empty_result-IsIndexed = record {
  ordered = tt;
  bounded = λ a i h. cc;
  exact = λ a x h. cc;
  full = λ x m. absurd m;
  counted = refl;
}

-- A lookup after `addInstruction` finds the new instruction at its address, also where another one
-- stood there, and what it found before at any other.
pub find-add_instruction :
    (r : DisassemblyResult) (x : Instruction) (a : Address)
    → IsIndexed r
    → find (add_instruction r x) a ≡ (if a == x.address then some x else find r a)
unfolding find add_instruction
find-add_instruction r x a v = elim (Bool-cases (a == x.address)) [
  | inl here ↦
      rw (map_find-put a x.address (length r.instructions) r.address_index, here)
        (get_elem?-length r.instructions x [])
  | inr other ↦
      rw (map_find-put a x.address (length r.instructions) r.address_index, other)
        (old (map_find a r.address_index) refl)
]
  where
    old :
        (o : Option ℕ)
        → map_find a r.address_index ≡ o
        → (o >>=? get_elem? (r.instructions ++ x ∷ [])) ≡ (o >>=? get_elem? r.instructions)
    old none e = refl
    old (some i) e = get_elem?-append r.instructions (x ∷ []) i (v.bounded a i e)

count_if-append :
    (p : Instruction → Bool) (xs ys : List Instruction)
    → count_if p (xs ++ ys) ≡ count_if p xs + count_if p ys
count_if-append p [] ys = omega arith
count_if-append p (x ∷ xs) ys = ground (arith, count_if-append p xs ys)

-- `addInstruction` keeps the index: it ascends, each entry leads to an instruction with its address,
-- each instruction's address is found, and the invalid ones are counted.
pub add_instruction-IsIndexed :
    (r : DisassemblyResult) (x : Instruction) → IsIndexed r → IsIndexed (add_instruction r x)
unfolding add_instruction
add_instruction-IsIndexed r x v = record {
  ordered =
      rw (keys-put x.address (length r.instructions) r.address_index)
        (insert-Ascending x.address (keys r.address_index) v.ordered);
  bounded = λ a i h. ground (
    arith,
    map_find-put a x.address (length r.instructions) r.address_index,
    v.bounded a i,
    length-append r.instructions (x ∷ []),
  );
  exact = λ a y h. ground (arith, find-add_instruction r x a v, v.exact a y);
  full = λ y m. elim (In-append_cases y r.instructions (x ∷ []) m) [
    | inl old ↦ ground (arith, find-add_instruction r x y.address v, v.full y old)
    | inr new ↦ elim new [
      | inl q ↦
          let e : y.address ≡ x.address = ap (λ (z : Instruction). z.address) q in
          ground (arith, find-add_instruction r x y.address v)
      | inr z ↦ absurd z
    ]
  ];
  counted =
      ground (
        arith,
        count_if-append (λ (y : Instruction). y.invalid) r.instructions (x ∷ []),
        v.counted,
      );
}

pub add_all-IsIndexed :
    (r : DisassemblyResult) (xs : List Instruction) → IsIndexed r → IsIndexed (add_all r xs)
unfolding add_all
add_all-IsIndexed r [] v = v
add_all-IsIndexed r (x ∷ xs) v =
    add_all-IsIndexed (add_instruction r x) xs (add_instruction-IsIndexed r x v)

pub instructions-add_all :
    (r : DisassemblyResult) (xs : List Instruction)
    → (add_all r xs).instructions ≡ r.instructions ++ xs
unfolding add_all add_instruction
instructions-add_all r [] = sym (append-nil r.instructions)
instructions-add_all r (x ∷ xs) =
    instructions-add_all (add_instruction r x) xs ∙ append_assoc r.instructions (x ∷ []) xs

in_list :
    (xs : List Instruction) (o : Option ℕ) (x : Instruction)
    → (o >>=? get_elem? xs) ≡ some x
    → In x xs
in_list xs none x h = cc
in_list xs (some i) x h = In_of_get_elem? xs i x h

pub find_parts :
    (r : DisassemblyResult) (a : Address)
    → IsIndexed r
    → ((x : Instruction) → find r a ≡ some x → In x r.instructions × (x.address ≡ a))
      × ((is_some (find r a) ≡ true) ↔ In a (map (λ x. x.address) r.instructions))
unfolding find
find_parts r a v = (
  sound,
  (
    λ h. elim (Option-cases (find r a)) [
      | inl e ↦ absurd (cc (ap is_some e, h))
      | inr (x, e) ↦
          let (m, at_a) = sound x e in
          subst (λ b. In b (map (λ (x : Instruction). x.address) r.instructions)) at_a
            (In-map (λ (x : Instruction). x.address) x r.instructions m)
    ],
    λ m.
        let (x, n, e) = In-map_inv (λ (x : Instruction). x.address) a r.instructions m in
        subst (λ b. is_some (find r b) ≡ true) (sym e) (v.full x n),
  ),
)
  where
    sound : (x : Instruction) → find r a ≡ some x → In x r.instructions × (x.address ≡ a)
    sound x e = (in_list r.instructions (map_find a r.address_index) x e, v.exact a x e)

-- The last of the instructions with the address, or that there is none.
abbrev pub IsLastAt : Address → List Instruction → Option Instruction → Type 0
IsLastAt a xs none = All (λ x. x.address ≢ a) xs
IsLastAt a xs (some x) =
    (before after : List Instruction) × (xs ≡ before ++ x ∷ after)
    × (x.address ≡ a)
    × All (λ y. y.address ≢ a) after

-- Adding instructions finds the last one at the address, or what was found before.
find-add_from :
    (xs : List Instruction) (r : DisassemblyResult) (a : Address)
    → IsIndexed r
    → ((x : Instruction) × (find (add_all r xs) a ≡ some x) × IsLastAt a xs (some x))
      ⊎ ((find (add_all r xs) a ≡ find r a) × IsLastAt a xs none)
unfolding add_all
find-add_from [] r a v = inr (refl, tt)
find-add_from (x ∷ xs) r a v =
    elim (find-add_from xs (add_instruction r x) a (add_instruction-IsIndexed r x v)) [
      | inl (y, found, (before, after, e, at, none_after)) ↦
          inl (y, found, (x ∷ before, after, ap (◌∷◌ x) e, at, none_after))
      | inr (same, none_later) ↦ elim (Bool-cases (a == x.address)) [
        | inl here ↦ inl (
          x,
          same ∙ find-add_instruction r x a v ∙ rw here refl,
          ([], xs, refl, ground (arith, here), none_later),
        )
        | inr other ↦ inr (
          same ∙ find-add_instruction r x a v ∙ rw other refl,
          (λ e. absurd (ground (arith, other, e)), none_later),
        )
      ]
    ]

-- After any instructions were added to an empty result, one after the other, `find` returns the last of
-- them that has the address, and nothing exactly where none has it.
pub find-add_all :
    (xs : List Instruction) (a : Address) → IsLastAt a xs (find (add_all empty_result xs) a)
unfolding find
find-add_all xs a = elim (find-add_from xs empty_result a empty_result-IsIndexed) [
  | inl (x, found, last) ↦ subst (IsLastAt a xs) (sym found) last
  | inr (same, nothing) ↦ subst (IsLastAt a xs) (sym same) nothing
]
