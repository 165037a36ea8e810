-- ===== src/Analysis/Recovery/Analyze/Addresses.antt =====
-- The addresses of a recovered function, and the set of the claimed ones.
use binary_atlas.Prelude.{
  ◌≡◌, refl, sym, ap, subst, ◌⊎◌, inl, inr, ◌↔◌, Bool, false, List, [], ◌∷◌, ◌++◌, any, In,
  In-append_iff, arith,
}
use binary_atlas.Prelude.Sets.{contains, insert, In-insert, values}
use binary_atlas.Prelude.Sort.{sort_by, by_key, In-sort_by}
use binary_atlas.Prelude.Text.{Text}
use binary_atlas.Core.Types.{Address}
use binary_atlas.Core.Image.{BinaryImage}
use binary_atlas.Disasm.Index.{DisassemblyResult}
use binary_atlas.Analysis.Function.{BasicBlock, FunctionSeed, addresses_of, function_addresses}
use binary_atlas.Analysis.Recovery.Walk.{recover_blocks}
use binary_atlas.Analysis.Recovery.Walk.Ends.{IsWalkable}
use binary_atlas.Analysis.Recovery.Walk.Rounds.{block_addresses}
use binary_atlas.Analysis.Recovery.Walk.Closed.{recover_blocks-Inv}
use binary_atlas.Analysis.Recovery.Function.{recover_function, assemble}
use binary_atlas.Analysis.Recovery.Analyze.{insert_all}

In-addresses_of :
    (a : Address) (bs : List BasicBlock)
    → In a (addresses_of bs) ↔ ((b : BasicBlock) × In b bs × In a b.instruction_addresses)
In-addresses_of a [] = (λ m. absurd m, λ (b, m, k). absurd m)
In-addresses_of a (b ∷ bs) = (
  λ m. elim ((In-append_iff a b.instruction_addresses (addresses_of bs)).0 m) [
    | inl k ↦ (b, inl refl, k)
    | inr k ↦ let (c, n, l) = (In-addresses_of a bs).0 k in (c, inr n, l)
  ],
  λ (c, n, l). (In-append_iff a b.instruction_addresses (addresses_of bs)).1 (elim n [
    | inl e ↦ inl (subst (λ (x : BasicBlock). In a x.instruction_addresses) e l)
    | inr k ↦ inr ((In-addresses_of a bs).1 (c, k, l))
  ]),
)

-- The order of the blocks does not matter for the addresses.
addresses_of-sort :
    (less : BasicBlock → BasicBlock → Bool) (a : Address) (bs : List BasicBlock)
    → In a (addresses_of (sort_by less bs)) ↔ In a (addresses_of bs)
addresses_of-sort less a bs = (
  λ m.
      let (b, n, k) = (In-addresses_of a (sort_by less bs)).0 m in
      (In-addresses_of a bs).1 (b, (In-sort_by less b bs).0 n, k),
  λ m.
      let (b, n, k) = (In-addresses_of a bs).0 m in
      (In-addresses_of a (sort_by less bs)).1 (b, (In-sort_by less b bs).1 n, k),
)

addresses_of-values :
    (m : List (Address × BasicBlock)) → addresses_of (values m) ≡ block_addresses m
addresses_of-values [] = refl
addresses_of-values ((k, b) ∷ m) = ap (λ xs. b.instruction_addresses ++ xs) (addresses_of-values m)

-- The addresses that a recovery returns are those of the blocks of its function.
pub recover_function-instructions :
    (entry : Address) (reasons : List FunctionSeed) (image : BinaryImage) (d : DisassemblyResult)
    (hard : List Address) (names : List (Address × Text)) (a : Address)
    → IsWalkable d
    → In a (function_addresses (recover_function entry reasons image d hard names).function)
      ↔ In a (recover_function entry reasons image d hard names).instructions
unfolding recover_function assemble
recover_function-instructions entry reasons image d hard names a v =
    let s = recover_blocks image d entry hard in
    let h = (recover_blocks-Inv image d entry hard v).1 in
    let sorted = addresses_of-sort (by_key (λ b. b.start)) a (values s.blocks) in
    let same = addresses_of-values s.blocks in
    (
      λ m. (h.taken a).1 (subst (In a) same (sorted.0 m)),
      λ m. sorted.1 (subst (In a) (sym same) ((h.taken a).0 m)),
    )

pub In-insert_all :
    (a : Address) (xs s : List Address) → In a (insert_all xs s) ↔ (In a xs ⊎ In a s)
unfolding insert_all
In-insert_all a [] s = (λ m. inr m, λ m. elim m [ inl k ↦ absurd k | inr k ↦ k ])
In-insert_all a (x ∷ xs) s = ground (arith, In-insert_all a xs (insert x s), In-insert a x s)

pub any-false :
    (s : List Address) (a : Address) (xs : List Address)
    → any (λ x. contains x s) xs ≡ false
    → In a xs
    → contains a s ≡ false
any-false s a [] h m = absurd m
any-false s a (x ∷ xs) h m = ground (arith, any-false s a xs)
