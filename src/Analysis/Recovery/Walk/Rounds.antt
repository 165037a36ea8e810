-- ===== src/Analysis/Recovery/Walk/Rounds.antt =====
-- A round of the outer loop: the block that it builds, and what holds between two rounds.
use binary_atlas.Prelude.{
  ℕ, suc, ◌≤◌, ◌<◌, ◌≡◌, refl, sym, ap, subst, ◌⊎◌, inl, inr, ◌↔◌, true, false, not, none, some,
  List, [], ◌∷◌, ◌++◌, is_some, length, count_if, In, In-append_iff, All, All-imp, arith,
}
use binary_atlas.Prelude.Sets.{
  contains, insert, contains-insert, map_find, map_put, keys, Ascending,
}
use binary_atlas.Core.Types.{Address}
use binary_atlas.Core.Image.{BinaryImage}
use binary_atlas.Disasm.Instruction.{Instruction}
use binary_atlas.Disasm.Index.{DisassemblyResult, find}
use binary_atlas.Analysis.Function.{BasicBlock}
use binary_atlas.Analysis.Recovery.Walk.{Recovery, BlockWalk, walk_block, new_block}
use binary_atlas.Analysis.Recovery.Walk.Ends.{IsWalkable, walk_block_rule, count_from-le}
use binary_atlas.Analysis.Recovery.Walk.Blocks.{
  core, Linked, Linked-imp, Walked, Stepped, walk_step-Stepped,
}

-- All instruction addresses of the blocks.
abbrev pub block_addresses : List (Address × BasicBlock) → List Address
block_addresses [] = []
block_addresses ((k, b) ∷ m) = b.instruction_addresses ++ block_addresses m

-- Every edge of every block satisfies its link.
abbrev pub AllLinked : DisassemblyResult → (Address → Type 0) → List (Address × BasicBlock) → Type 0
AllLinked d K m = All (λ (e : Address × BasicBlock). All (Linked d K) e.1.outgoing_edges) m

pub AllLinked-imp :
    (d : DisassemblyResult) (K L : Address → Type 0) (m : List (Address × BasicBlock))
    → ((t : Address) → is_some (find d t) ≡ true → K t → L t)
    → AllLinked d K m
    → AllLinked d L m
AllLinked-imp d K L m f h =
    All-imp (λ (e : Address × BasicBlock). All (Linked d K) e.1.outgoing_edges)
      (λ (e : Address × BasicBlock). All (Linked d L) e.1.outgoing_edges) m
      (λ e l. Linked-imp d K L e.1.outgoing_edges f l) h

pub block_addresses-put :
    (a k : Address) (b : BasicBlock) (m : List (Address × BasicBlock))
    → map_find k m ≡ none
    → In a (block_addresses (map_put k b m))
      ↔ (In a b.instruction_addresses ⊎ In a (block_addresses m))
unfolding map_put
block_addresses-put a k b [] h = ground (arith, In-append_iff a b.instruction_addresses [])
block_addresses-put a k b ((j, c) ∷ m) h = ground (
  arith,
  block_addresses-put a k b m,
  In-append_iff a c.instruction_addresses (block_addresses (map_put k b m)),
  In-append_iff a c.instruction_addresses (block_addresses m),
  In-append_iff a b.instruction_addresses (c.instruction_addresses ++ block_addresses m),
)

-- The state between two rounds, where `todo` is what is pending.
pub record Inv (d : DisassemblyResult) (entry : Address) (todo : List Address) (s : Recovery)
    : Type 0 where
  pub linked : AllLinked d (λ t. In t (keys s.blocks) ⊎ In t todo) s.blocks
  pub keyed : All (λ (e : Address × BasicBlock). e.1.start ≡ e.0) s.blocks
  pub ordered : Ascending (keys s.blocks)
  pub indexed : (a : Address) → In a (keys s.blocks) → is_some (find d a) ≡ true
  pub source : is_some (find d entry) ≡ true → In entry (keys s.blocks) ⊎ In entry todo
  pub taken : (a : Address) → In a s.instructions ↔ In a (block_addresses s.blocks)

pub length-keys : {V : Type 0} (m : List (ℕ × V)) → length (keys m) ≡ length m
length-keys [] = refl
length-keys (e ∷ m) = ap suc (length-keys m)

-- The index entries that are no block yet.
abbrev pub fresh : List Address → List Address → ℕ
fresh seen ks = count_if (λ k. not (contains k seen)) ks

pub fresh-le : (seen ks : List Address) → fresh seen ks ≤ length ks
fresh-le seen [] = omega arith
fresh-le seen (k ∷ ks) = ground (arith, fresh-le seen ks)

fresh_mono : (k : Address) (seen ks : List Address) → fresh (insert k seen) ks ≤ fresh seen ks
fresh_mono k seen [] = omega arith
fresh_mono k seen (j ∷ ks) = ground (arith, contains-insert j k seen, fresh_mono k seen ks)

pub fresh-lt :
    (k : Address) (seen ks : List Address)
    → contains k seen ≡ false
    → In k ks
    → fresh (insert k seen) ks < fresh seen ks
fresh-lt k seen [] h m = absurd m
fresh-lt k seen (j ∷ ks) h (inl e) = ground (arith, contains-insert j k seen, fresh_mono k seen ks)
fresh-lt k seen (j ∷ ks) h (inr m) =
    ground (arith, contains-insert j k seen, fresh-lt k seen ks h m)

module _ (image : BinaryImage) (d : DisassemblyResult) (entry : Address) (hard : List Address) where
  -- The block that a round builds, and the state around it.
  unfoldable pub built : Recovery → Address → Instruction → BlockWalk
  built s start i =
      walk_block image d entry hard (length d.address_index)
        (record { state = s; block = new_block start; current = some i })

  begun :
      (s : Recovery) (start : Address) (i : Instruction)
      → Walked d s start 0 (core (record { state = s; block = new_block start; current = some i }))
  begun s start i = record {
    blocks = refl;
    started = refl;
    grows = λ a m. m;
    room = omega arith;
    linked = tt;
    taken = λ a. (λ m. inl m, λ m. elim m [ inl k ↦ k | inr k ↦ absurd k ]);
  }

  module _ (v : IsWalkable d) where
    pub built-Stepped :
        (s : Recovery) (start : Address) (i : Instruction)
        → find d start ≡ some i
        → Stepped d s start (built s start i)
    unfolding built
    built-Stepped s start i f =
        let at : i.address ≡ start = v.indexed.exact start i f in
        let found : find d i.address ≡ some i = subst (λ a. find d a ≡ some i) (sym at) f in
        (walk_block_rule image d entry hard v (Stepped d s start)
          (λ w j c g h. walk_step-Stepped d s start image entry hard w j c g h)
          (length d.address_index) (record { state = s; block = new_block start; current = some i })
          (some i) refl found
          (omega
            (arith, count_from-le i.address (keys d.address_index), length-keys d.address_index))
          (0, omega arith, (λ e. refl), begun s start i)).0

    -- The walk of a block ends, with fuel for as many instructions as the index has.
    pub built-ends :
        (s : Recovery) (start : Address) (i : Instruction)
        → find d start ≡ some i
        → (walk_block image d entry hard
            (length d.address_index)
            (record { state = s; block = new_block start; current = some i })).current
          ≡ none
    built-ends s start i f =
        let at : i.address ≡ start = v.indexed.exact start i f in
        let found : find d i.address ≡ some i = subst (λ a. find d a ≡ some i) (sym at) f in
        (walk_block_rule image d entry hard v (λ w. Unit) (λ w j c g h. tt) (length d.address_index)
          (record { state = s; block = new_block start; current = some i }) (some i) refl found
          (omega
            (arith, count_from-le i.address (keys d.address_index), length-keys d.address_index))
          tt).1
