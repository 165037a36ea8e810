-- ===== src/Analysis/Recovery/Walk/Keep.antt =====
-- What a round of the outer loop does to the invariant.
use binary_atlas.Prelude.{
  ◌≡◌, refl, sym, ap, ◌∙◌, subst, ◌⊎◌, inl, inr, ◌↔◌, Bool, true, false, none, List, ◌∷◌, is_some,
  ◌==◌, Bool-cases, In, All, arith,
}
use binary_atlas.Prelude.Sets.{
  insert, In-insert, map_find, map_put, map_emplace, keys, keys-put, All-map_put, Ascending,
  insert-Ascending,
}
use binary_atlas.Core.Types.{Address}
use binary_atlas.Disasm.Index.{DisassemblyResult, find}
use binary_atlas.Analysis.Function.{BasicBlock}
use binary_atlas.Analysis.Recovery.Walk.{Recovery, BlockWalk, finish_block}
use binary_atlas.Analysis.Recovery.Walk.Blocks.{Linked, Linked-imp}
use binary_atlas.Analysis.Recovery.Walk.Rounds.{
  block_addresses, AllLinked, AllLinked-imp, block_addresses-put, Inv,
}

-- The block that `finish_block` puts into the map.
pub record Finished (w : BlockWalk) : Type 0 where
  pub block : BasicBlock
  pub started : block.start ≡ w.block.start
  pub edges : block.outgoing_edges ≡ w.block.outgoing_edges
  pub addresses : block.instruction_addresses ≡ w.block.instruction_addresses
  pub blocks : (finish_block w).blocks ≡ map_put w.block.start block w.state.blocks
  pub pending : (finish_block w).pending ≡ w.state.pending
  pub instructions : (finish_block w).instructions ≡ w.state.instructions

pub finish_block-Finished :
    (w : BlockWalk) → is_some (map_find w.block.start w.state.blocks) ≡ false → Finished w
unfolding finish_block map_emplace
finish_block-Finished w h = elim (Bool-cases (w.block.end == 0)) [
  | inl e ↦ record {
    block = record (w.block) { end = w.block.start; partial = true };
    started = refl;
    edges = refl;
    addresses = refl;
    blocks = rw (e, h) refl;
    pending = rw e refl;
    instructions = rw e refl;
  }
  | inr e ↦ record {
    block = w.block;
    started = refl;
    edges = refl;
    addresses = refl;
    blocks = rw (e, h) refl;
    pending = rw e refl;
    instructions = rw e refl;
  }
]

module _ (d : DisassemblyResult) (entry : Address) where
  pub same-Inv :
      (todo : List Address) (s : Recovery) (p : List Address) (b : Bool)
      → Inv d entry todo s
      → Inv d entry todo (record s { pending = p; partial = b })
  same-Inv todo s p b h = record {
    linked = h.linked;
    keyed = h.keyed;
    ordered = h.ordered;
    indexed = h.indexed;
    source = h.source;
    taken = h.taken;
  }

  -- A round that finds nothing to build.
  pub skip-Inv :
      (start : Address) (rest : List Address) (s : Recovery)
      → (is_some (find d start) ≡ true → In start (keys s.blocks))
      → Inv d entry (start ∷ rest) s
      → Inv d entry rest s
  skip-Inv start rest s known h = record {
    linked =
        AllLinked-imp d (λ t. In t (keys s.blocks) ⊎ In t (start ∷ rest))
          (λ t. In t (keys s.blocks) ⊎ In t rest) s.blocks
          (λ t found m. elim m [
            | inl k ↦ inl k
            | inr (inl e) ↦ inl (
                subst (λ a. In a (keys s.blocks)) (sym e)
                  (known (subst (λ a. is_some (find d a) ≡ true) e found)))
            | inr (inr k) ↦ inr k
          ])
          h.linked;
    keyed = h.keyed;
    ordered = h.ordered;
    indexed = h.indexed;
    source = λ found. elim (h.source found) [
      | inl k ↦ inl k
      | inr (inl e) ↦ inl (
          subst (λ a. In a (keys s.blocks)) (sym e)
            (known (subst (λ a. is_some (find d a) ≡ true) e found)))
      | inr (inr k) ↦ inr k
    ];
    taken = h.taken;
  }

  -- A round that adds the block at `start`.
  pub add-Inv :
      (start : Address) (rest todo : List Address) (s r : Recovery) (b : BasicBlock)
      → Inv d entry (start ∷ rest) s
      → map_find start s.blocks ≡ none
      → is_some (find d start) ≡ true
      → r.blocks ≡ map_put start b s.blocks
      → b.start ≡ start
      → All (Linked d (λ t. In t todo)) b.outgoing_edges
      → ((a : Address) → In a rest → In a todo)
      → ((a : Address) → In a r.instructions ↔ (In a s.instructions ⊎ In a b.instruction_addresses))
      → Inv d entry todo r
  add-Inv start rest todo s r b h new found put started edges grows taken =
      let known : keys r.blocks ≡ insert start (keys s.blocks) =
        ap keys put ∙ keys-put start b s.blocks in
      let key : (a : Address) → In a (keys r.blocks) ↔ ((a ≡ start) ⊎ In a (keys s.blocks)) = λ a.
        subst (λ ks. In a ks ↔ ((a ≡ start) ⊎ In a (keys s.blocks))) (sym known)
          (In-insert a start (keys s.blocks)) in
      let into : (t : Address)
          → In t (keys s.blocks) ⊎ In t (start ∷ rest)
          → In t (keys r.blocks) ⊎ In t todo =
        λ t m. elim m [
          | inl k ↦ inl ((key t).1 (inr k))
          | inr (inl e) ↦ inl ((key t).1 (inl e))
          | inr (inr k) ↦ inr (grows t k)
        ] in
      record {
        linked = subst (AllLinked d (λ t. In t (keys r.blocks) ⊎ In t todo)) (sym put) (
            All-map_put
              (λ (e : Address × BasicBlock).
                All (Linked d (λ t. In t (keys r.blocks) ⊎ In t todo)) e.1.outgoing_edges)
              start b s.blocks
              (AllLinked-imp d (λ t. In t (keys s.blocks) ⊎ In t (start ∷ rest))
                (λ t. In t (keys r.blocks) ⊎ In t todo) s.blocks (λ t found m. into t m) h.linked)
              (Linked-imp d (λ t. In t todo) (λ t. In t (keys r.blocks) ⊎ In t todo)
                b.outgoing_edges (λ t found m. inr m) edges));
        keyed = subst (All (λ (e : Address × BasicBlock). e.1.start ≡ e.0)) (sym put) (
            All-map_put (λ (e : Address × BasicBlock). e.1.start ≡ e.0) start b s.blocks h.keyed
              started);
        ordered = subst Ascending (sym known) (insert-Ascending start (keys s.blocks) h.ordered);
        indexed = λ a m. elim ((key a).0 m) [
          | inl e ↦ subst (λ t. is_some (find d t) ≡ true) (sym e) found
          | inr k ↦ h.indexed a k
        ];
        source = λ f. into entry (h.source f);
        taken = λ a.
            subst (λ m. In a r.instructions ↔ In a (block_addresses m)) (sym put)
              (ground (arith, taken a, h.taken a, block_addresses-put a start b s.blocks new));
      }
