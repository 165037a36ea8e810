-- ===== src/Analysis/Recovery/Walk/Ends.antt =====
-- Lemmas on the loops of `recoverFunction`: the rounds that they take.
use binary_atlas.Prelude.{
  ℕ, zero, suc, ◌^◌, ◌≤◌, ◌<◌, ◌≡◌, refl, sym, subst, ◌⊎◌, inl, inr, not, ◌&&◌, Option, none, some,
  List, [], ◌∷◌, is_empty, leb, length, count_if, Bool-cases, Option-cases, In, arith,
}
use binary_atlas.Prelude.Sets.{contains, keys, map_find_of_key}
use binary_atlas.Util.Arithmetic.{checked_add}
use binary_atlas.Util.Arithmetic.Exact.{checked_add_lem}
use binary_atlas.Core.Types.{Address, InstructionFlowKind}
use binary_atlas.Core.Image.{BinaryImage}
use binary_atlas.Disasm.Instruction.{Instruction}
use binary_atlas.Disasm.Index.{DisassemblyResult, find}
use binary_atlas.Disasm.Index.Invariant.{IsIndexed}
use binary_atlas.Analysis.Recovery.Walk.{
  BlockWalk, dispatch, walk_step, walk_block, proceed, take_instruction,
}

-- How many keys are not below `a`.
abbrev pub count_from : Address → List Address → ℕ
count_from a ks = count_if (λ k. leb a k) ks

pub count_from-le : (a : Address) (ks : List Address) → count_from a ks ≤ length ks
count_from-le a [] = omega arith
count_from-le a (k ∷ ks) = ground (arith, count_from-le a ks)

count_from_mono : (a b : Address) (ks : List Address) → a ≤ b → count_from b ks ≤ count_from a ks
count_from_mono a b [] h = omega arith
count_from_mono a b (k ∷ ks) h = ground (arith, count_from_mono a b ks h)

count_from-lt :
    (a b : Address) (ks : List Address) → In a ks → a < b → count_from b ks < count_from a ks
count_from-lt a b [] m h = absurd m
count_from-lt a b (k ∷ ks) (inl e) h = ground (arith, count_from_mono a b ks)
count_from-lt a b (k ∷ ks) (inr m) h = ground (arith, count_from-lt a b ks m h)

count_from-pos : (a : Address) (ks : List Address) → In a ks → 0 < count_from a ks
count_from-pos a [] m = absurd m
count_from-pos a (k ∷ ks) (inl e) = ground arith
count_from-pos a (k ∷ ks) (inr m) = ground (arith, count_from-pos a ks m)

-- A disassembly whose instructions are not empty.
pub record IsWalkable (d : DisassemblyResult) : Type 0 where
  pub indexed : IsIndexed d
  pub nonempty : (a : Address) (x : Instruction) → find d a ≡ some x → 0 < x.size
  pub small : (a : Address) (x : Instruction) → find d a ≡ some x → x.size < 2 ^ 64

pub find_key :
    (d : DisassemblyResult) (a : Address) (x : Instruction)
    → find d a ≡ some x
    → In a (keys d.address_index)
unfolding find
find_key d a x h = map_find_of_key a d.address_index (ground arith)

module _ (image : BinaryImage) (d : DisassemblyResult) (entry : Address) (hard : List Address) where
  abbrev step : BlockWalk → Instruction → BlockWalk
  step = walk_step image d entry hard

  -- After a round the block is finished, or the next instruction is the current one.
  abbrev Moved : Address → BlockWalk → Type 0
  Moved next w =
      (w.current ≡ none) ⊎ ((n : Instruction) × (w.current ≡ some n) × (find d next ≡ some n))

  dispatch-Moved :
      (k : InstructionFlowKind) (i : Instruction) (next : Address) (w : BlockWalk)
      → Moved next (dispatch image d entry hard k i next w)
  unfolding dispatch
  dispatch-Moved InstructionFlowKind.normal i next w = go (find d next) refl
    where
      go :
          (o : Option Instruction)
          → find d next ≡ o
          → Moved next (proceed image d entry hard o next w)
      go none e = inl refl
      go (some n) e = inr (n, refl, e)
  dispatch-Moved InstructionFlowKind.invalid i next w = inl refl
  dispatch-Moved k i next w = inl (ground arith)

  -- The instruction is one that a lookup at its address finds.
  abbrev pub Found : Option Instruction → Type 0
  Found none = Unit
  Found (some i) = find d i.address ≡ some i

  abbrev pub left : Option Instruction → ℕ
  left none = 0
  left (some i) = count_from i.address (keys d.address_index)

  walk_step-Moved :
      (w : BlockWalk) (i : Instruction)
      → ((step w i).current ≡ none)
        ⊎ ((next : Address) × (checked_add 64 i.address i.size ≡ some next) × Moved next (step w i))
  unfolding walk_step
  walk_step-Moved w i =
      elim (Bool-cases
        (not (is_empty w.block.instruction_addresses) && contains i.address w.state.block_starts)) [
          | inl stop ↦ inl (rw (stop, walk_step) refl)
          | inr go ↦ elim (Option-cases (checked_add 64 i.address i.size)) [
            | inl e ↦ inl (rw (go, e, walk_step) refl)
            | inr (next, e) ↦ inr (
              next,
              e,
              rw (go, e, walk_step)
                  (dispatch-Moved i.flow_kind i next (take_instruction i.address w)),
            )
          ]
        ]

  module _ (v : IsWalkable d) where
    -- What is left of the index falls, and the current instruction stays one of it.
    abbrev Progress : Instruction → Option Instruction → Type 0
    Progress i o = Found o × (left o < left (some i))

    stopped : (i : Instruction) → find d i.address ≡ some i → Progress i none
    stopped i f = (tt, count_from-pos i.address (keys d.address_index) (find_key d i.address i f))

    pub walk_step-Progress :
        (w : BlockWalk) (i : Instruction)
        → find d i.address ≡ some i
        → Progress i (step w i).current
    walk_step-Progress w i f = elim (walk_step-Moved w i) [
      | inl e ↦ subst (Progress i) (sym e) (stopped i f)
      | inr (next, add, moved) ↦ elim moved [
        | inl e ↦ subst (Progress i) (sym e) (stopped i f)
        | inr (n, e, found) ↦
            let at : n.address ≡ next = v.indexed.exact next n found in
            subst (Progress i) (sym e) (
              subst (λ a. find d a ≡ some n) (sym at) found,
              count_from-lt i.address n.address (keys d.address_index) (find_key d i.address i f) (
                  ground (
                    arith,
                    at,
                    checked_add_lem 64 i.address i.size (v.small i.address i f),
                    v.nonempty i.address i f,
                  )),
            )
      ]
    ]

    -- The rule of the inner loop: what a round keeps holds where the loop ends, and it ends.
    pub walk_block_rule :
        (P : BlockWalk → Type 0)
        → ((w : BlockWalk) (i : Instruction)
            → w.current ≡ some i
            → find d i.address ≡ some i
            → P w
            → P (step w i))
        → (fuel : ℕ) (w : BlockWalk) (o : Option Instruction) → w.current ≡ o
        → Found o
        → left o ≤ fuel
        → P w
        → P (walk_block image d entry hard fuel w)
          × ((walk_block image d entry hard fuel w).current ≡ none)
    unfolding walk_block
    walk_block_rule P keep zero w none e f l p = (p, e)
    walk_block_rule P keep zero w (some i) e f l p =
        absurd (
          omega (arith, count_from-pos i.address (keys d.address_index) (find_key d i.address i f)))
    walk_block_rule P keep (suc fuel) w none e f l p = (rw (e, walk_block) p, rw (e, walk_block) e)
    walk_block_rule P keep (suc fuel) w (some i) e f l p =
        let (found, falls) = walk_step-Progress w i f in
        rw (e, walk_block)
          (walk_block_rule P keep fuel (step w i) (step w i).current refl found (omega arith)
            (keep w i e f p))
