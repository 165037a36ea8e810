-- ===== src/Analysis/Recovery/Walk/Closed.antt =====
-- Lemmas on the outer loop of `recoverFunction` as a whole: where the control flow of its blocks leads.
use binary_atlas.Prelude.{
  ℕ, zero, suc, ◌+◌, ◌*◌, ◌≤◌, ◌<◌, ◌≡◌, refl, sym, ap, ◌∙◌, subst, ◌⊎◌, inl, inr, ◌↔◌, Bool, true,
  false, not, ◌&&◌, ◌||◌, none, some, List, [], ◌∷◌, is_some, length, Bool-cases, Option-cases, In,
  All, All-imp, arith,
}
use binary_atlas.Prelude.Sets.{
  contains, insert, contains_iff, map_find, map_put, keys, keys-put, contains-keys, Ascending,
  map_find_of_key,
}
use binary_atlas.Core.Types.{Address}
use binary_atlas.Core.Image.{BinaryImage}
use binary_atlas.Disasm.Instruction.{Instruction}
use binary_atlas.Disasm.Index.{DisassemblyResult, find}
use binary_atlas.Analysis.Function.{BlockEdge, BasicBlock}
use binary_atlas.Analysis.Recovery.Walk.{
  Recovery, new_block, walk_block, finish_block, recover_step, recover_loop, recover_fuel, initial,
  recover_blocks,
}
use binary_atlas.Analysis.Recovery.Walk.Ends.{IsWalkable, find_key}
use binary_atlas.Analysis.Recovery.Walk.Blocks.{Linked}
use binary_atlas.Analysis.Recovery.Walk.Rounds.{
  block_addresses, AllLinked, AllLinked-imp, Inv, length-keys, fresh, fresh-lt, built,
  built-Stepped, built-ends, fresh-le,
}
use binary_atlas.Analysis.Recovery.Walk.Keep.{finish_block-Finished, same-Inv, skip-Inv, add-Inv}

module _ (d : DisassemblyResult) where
  -- An edge inside the function leads to an instruction where one of the blocks starts.
  abbrev pub joined : List Address → BlockEdge → Bool
  joined starts e =
      not e.intra_function
      || elim e.target [ none ↦ false | some t ↦ is_some (find d t) && contains t starts ]

  abbrev pub AllJoined : List Address → List (Address × BasicBlock) → Type 0
  AllJoined starts m =
      All (λ (e : Address × BasicBlock). All (λ o. joined starts o ≡ true) e.1.outgoing_edges) m

  Linked-joined :
      (starts : List Address) (e : BlockEdge)
      → Linked d (λ t. In t starts) e
      → joined starts e ≡ true
  Linked-joined starts e l = elim (Bool-cases e.intra_function) [
    | inr leaves ↦ rw leaves refl
    | inl intra ↦
        let (t, target, found, m) = l intra in
        rw (intra, target, found, (contains_iff t starts).1 m) refl
  ]

  Linked-AllJoined :
      (starts : List Address) (m : List (Address × BasicBlock))
      → AllLinked d (λ t. In t starts) m
      → AllJoined starts m
  Linked-AllJoined starts m h =
      All-imp (λ (e : Address × BasicBlock). All (Linked d (λ t. In t starts)) e.1.outgoing_edges)
        (λ (e : Address × BasicBlock). All (λ o. joined starts o ≡ true) e.1.outgoing_edges) m
        (λ e l.
          All-imp (Linked d (λ t. In t starts)) (λ o. joined starts o ≡ true) e.1.outgoing_edges
            (Linked-joined starts) l)
        h

-- What the rounds that are left can add to, and what is pending.
abbrev measure : DisassemblyResult → Recovery → ℕ
measure d s = 3 * fresh (keys s.blocks) (keys d.address_index) + length s.pending

module _ (image : BinaryImage) (d : DisassemblyResult) (entry : Address) (hard : List Address) where
  -- The round finishes the block that its walk leaves, and the walk has ended with a null pointer.
  abbrev pub WalkEnds : Recovery → Address → Instruction → Type 0
  WalkEnds s start i =
      (recover_step image d entry hard s start
        ≡ finish_block (
            walk_block image d entry hard (length d.address_index)
              (record { state = s; block = new_block start; current = some i })))
      × ((walk_block image d entry hard (length d.address_index)
            (record { state = s; block = new_block start; current = some i })).current
          ≡ none)

module _ (image : BinaryImage) (d : DisassemblyResult) (entry : Address) (hard : List Address)
    (v : IsWalkable d) where
  recover_step-WalkEnds :
      (s : Recovery) (start : Address) (i : Instruction)
      → map_find start s.blocks ≡ none
      → find d start ≡ some i
      → WalkEnds image d entry hard s start i
  unfolding recover_step
  recover_step-WalkEnds s start i new f =
      (rw (recover_step, new, f) refl, built-ends image d entry hard v s start i f)

  abbrev Round : Recovery → Recovery → Type 0
  Round s r = Inv d entry r.pending r × (measure d r ≤ measure d s)

  add-Round :
      (s : Recovery) (start : Address) (i : Instruction)
      → Inv d entry (start ∷ s.pending) s
      → map_find start s.blocks ≡ none
      → find d start ≡ some i
      → Round s (finish_block (built image d entry hard s start i))
  add-Round s start i h new f =
      let w = built image d entry hard s start i in
      let (n, le, zero_if, k) = built-Stepped image d entry hard v s start i f in
      let fresh_start : is_some (map_find w.block.start w.state.blocks) ≡ false =
        rw (k.started, k.blocks, new) refl in
      let b = finish_block-Finished w fresh_start in
      let put : (finish_block w).blocks ≡ map_put start b.block s.blocks =
        b.blocks
        ∙ ap (λ a. map_put a b.block w.state.blocks) k.started
        ∙ ap (map_put start b.block) k.blocks in
      let falls : fresh (insert start (keys s.blocks)) (keys d.address_index)
          < fresh (keys s.blocks) (keys d.address_index) =
        fresh-lt start (keys s.blocks) (keys d.address_index)
          (contains-keys start s.blocks ∙ ap is_some new) (find_key d start i f) in
      let known : keys (finish_block w).blocks ≡ insert start (keys s.blocks) =
        ap keys put ∙ keys-put start b.block s.blocks in
      (
        add-Inv d entry start s.pending (finish_block w).pending s (finish_block w) b.block h new
            (ap is_some f) put (b.started ∙ k.started)
            (subst (λ p. All (Linked d (λ t. In t p)) b.block.outgoing_edges) (sym b.pending)
              (subst (All (Linked d (λ t. In t w.state.pending))) (sym b.edges) k.linked))
            (λ a m. subst (In a) (sym b.pending) (k.grows a m))
            (λ a.
              subst (λ xs. In a xs ↔ (In a s.instructions ⊎ In a b.block.instruction_addresses))
                (sym b.instructions)
                (subst (λ xs. In a w.state.instructions ↔ (In a s.instructions ⊎ In a xs))
                  (sym b.addresses) (k.taken a))),
        rw (known, b.pending) (omega (arith, falls, le, k.room)),
      )

  recover_step-Round :
      (s : Recovery) (start : Address)
      → Inv d entry (start ∷ s.pending) s
      → Round s (recover_step image d entry hard s start)
  unfolding recover_step built
  recover_step-Round s start h = elim (Bool-cases (is_some (map_find start s.blocks))) [
    | inl old ↦
        rw (recover_step, old)
          (
            skip-Inv d entry start s.pending s (λ found. map_find_of_key start s.blocks old) h,
            omega arith,
          )
    | inr new ↦ elim (Option-cases (find d start)) [
      | inl e ↦
          rw (recover_step, new, e)
            (
              same-Inv d entry s.pending s s.pending true
                  (skip-Inv d entry start s.pending s (λ found. ground (arith, e)) h),
              omega arith,
            )
      | inr (i, e) ↦ rw (recover_step, new, e) (add-Round s start i h (ground (arith, new)) e)
    ]
  ]

  recover_loop-Inv :
      (fuel : ℕ) (s : Recovery) (p : List Address)
      → s.pending ≡ p
      → Inv d entry p s
      → measure d s ≤ fuel
      → ((recover_loop image d entry hard fuel s).pending ≡ [])
        × Inv d entry [] (recover_loop image d entry hard fuel s)
  unfolding recover_loop
  recover_loop-Inv zero s [] e h m = (e, h)
  recover_loop-Inv zero s (start ∷ rest) e h m = absurd (omega (arith, ap length e))
  recover_loop-Inv (suc n) s [] e h m = rw (e, recover_loop) (e, h)
  recover_loop-Inv (suc n) s (start ∷ rest) e h m =
      let t : Recovery = record s { pending = rest } in
      let (kept, falls) =
        recover_step-Round t start (same-Inv d entry (start ∷ rest) s rest s.partial h) in
      rw (e, recover_loop)
        (recover_loop-Inv n (recover_step image d entry hard t start)
          (recover_step image d entry hard t start).pending refl kept
          (omega (arith, falls, ap length e)))

  initial-Inv : Inv d entry (entry ∷ []) (initial image d entry hard)
  initial-Inv = record {
    linked = tt;
    keyed = tt;
    ordered = tt;
    indexed = λ a m. absurd m;
    source = λ found. inr (inl refl);
    taken = λ a. (λ m. m, λ m. m);
  }

  -- The state in which `recover_blocks` ends.
  pub recover_blocks-Inv :
      ((recover_blocks image d entry hard).pending ≡ [])
      × Inv d entry [] (recover_blocks image d entry hard)
  unfolding recover_blocks
  recover_blocks-Inv =
      recover_loop-Inv (recover_fuel image d entry hard) (initial image d entry hard) (entry ∷ [])
        refl initial-Inv
        (omega (arith, fresh-le [] (keys d.address_index), length-keys d.address_index))

  -- In a disassembly whose instructions are not empty, a round from any state, for a start that has an
  -- instruction and no block yet, finishes the block of a walk that has ended with a null pointer. Where the entry has an instruction, the
  -- loop over the starts ends with nothing pending. The entry is then the start of a block, the blocks are ordered
  -- by their starts, each edge inside the function leads to the start of one of the blocks, and the
  -- instructions of the function are those of its blocks.
  pub recover_blocks_closed :
      is_some (find d entry) ≡ true
      → ((s : Recovery) (start : Address) (i : Instruction)
          → map_find start s.blocks ≡ none
          → find d start ≡ some i
          → WalkEnds image d entry hard s start i)
        × ((recover_blocks image d entry hard).pending ≡ [])
        × In entry (keys (recover_blocks image d entry hard).blocks)
        × Ascending (keys (recover_blocks image d entry hard).blocks)
        × All
            (λ (e : Address × BasicBlock). e.1.start ≡ e.0)
            (recover_blocks image d entry hard).blocks
        × AllJoined d
            (keys (recover_blocks image d entry hard).blocks)
            (recover_blocks image d entry hard).blocks
        × ((a : Address)
            → In a (recover_blocks image d entry hard).instructions
              ↔ In a (block_addresses (recover_blocks image d entry hard).blocks))
  recover_blocks_closed found =
      let (ends, h) = recover_blocks-Inv in
      (
        recover_step-WalkEnds,
        ends,
        elim (h.source found) [ inl k ↦ k | inr k ↦ absurd k ],
        h.ordered,
        h.keyed,
        Linked-AllJoined d (keys (recover_blocks image d entry hard).blocks)
            (recover_blocks image d entry hard).blocks
            (AllLinked-imp d (λ t. In t (keys (recover_blocks image d entry hard).blocks) ⊎ In t [])
              (λ t. In t (keys (recover_blocks image d entry hard).blocks))
              (recover_blocks image d entry hard).blocks
              (λ t f m. elim m [ inl k ↦ k | inr k ↦ absurd k ]) h.linked),
        h.taken,
      )
