-- ===== src/Analysis/Recovery/Walk/Blocks.antt =====
-- What a round of the inner loop adds to the state and to the block.
use binary_atlas.Prelude.{
  ℕ, ◌+◌, ◌≤◌, ◌≡◌, refl, ap, subst, ◌⊎◌, inl, inr, ◌↔◌, true, not, ◌&&◌, Option, none, some, List,
  [], ◌∷◌, is_some, is_empty, ◌==◌, length, Bool-cases, Option-cases, In, In-append_iff, All,
  All-append, All-imp, arith,
}
use binary_atlas.Prelude.Sets.{contains, insert, In-insert, length-insert}
use binary_atlas.Util.Arithmetic.{checked_add}
use binary_atlas.Core.Types.{Address, InstructionFlowKind, BlockEdgeType}
use binary_atlas.Core.Image.{BinaryImage}
use binary_atlas.Disasm.Instruction.{Instruction}
use binary_atlas.Disasm.Index.{DisassemblyResult, find}
use binary_atlas.Analysis.Function.{BlockEdge, BasicBlock}
use binary_atlas.Analysis.Recovery.Walk.{
  Recovery, BlockWalk, close_at, link, leave, followed, fall_to, branch_to, jump_to, proceed,
  dispatch, walk_step, take_instruction,
}

-- The parts of the loop's variables that the invariant speaks of.
pub record Core : Type 0 where
  pub blocks : List (Address × BasicBlock)
  pub pending : List Address
  pub instructions : List Address
  pub start : Address
  pub edges : List BlockEdge
  pub addresses : List Address

abbrev pub core : BlockWalk → Core
core w = record {
  blocks = w.state.blocks;
  pending = w.state.pending;
  instructions = w.state.instructions;
  start = w.block.start;
  edges = w.block.outgoing_edges;
  addresses = w.block.instruction_addresses;
}

-- An edge inside the function has a target, with an instruction, that satisfies `K`.
abbrev pub Linked : DisassemblyResult → (Address → Type 0) → BlockEdge → Type 0
Linked d K e =
    e.intra_function ≡ true
    → (t : Address) × (e.target ≡ some t) × (is_some (find d t) ≡ true) × K t

-- Against the state `s` in which the block at `start` was begun; `n` starts were added.
pub record Walked (d : DisassemblyResult) (s : Recovery) (start : Address) (n : ℕ) (c : Core)
    : Type 0 where
  pub blocks : c.blocks ≡ s.blocks
  pub started : c.start ≡ start
  pub grows : (a : Address) → In a s.pending → In a c.pending
  pub room : length c.pending ≤ length s.pending + n
  pub linked : All (Linked d (λ t. In t c.pending)) c.edges
  pub taken : (a : Address) → In a c.instructions ↔ (In a s.instructions ⊎ In a c.addresses)

pub Linked-imp :
    (d : DisassemblyResult) (K L : Address → Type 0) (es : List BlockEdge)
    → ((t : Address) → is_some (find d t) ≡ true → K t → L t)
    → All (Linked d K) es
    → All (Linked d L) es
Linked-imp d K L es f h =
    All-imp (Linked d K) (Linked d L) es
      (λ e l intra. let (t, target, found, k) = l intra in (t, target, found, f t found k)) h

module _ (d : DisassemblyResult) (s : Recovery) (start : Address) where
  link-Walked :
      (n : ℕ) (w : BlockWalk) (a : Address) (type : BlockEdgeType)
      → is_some (find d a) ≡ true
      → Walked d s start n (core w)
      → Walked d s start (n + 1) (core (link a type w))
  link-Walked n w a type f h = record {
    blocks = h.blocks;
    started = h.started;
    grows = λ b m. (In-insert b a w.state.pending).1 (inr (h.grows b m));
    room = omega (arith, length-insert a w.state.pending, h.room);
    linked =
        All-append (Linked d (λ t. In t (insert a w.state.pending))) w.block.outgoing_edges _
          (Linked-imp d (λ t. In t w.state.pending) (λ t. In t (insert a w.state.pending))
            w.block.outgoing_edges (λ t found m. (In-insert t a w.state.pending).1 (inr m))
            h.linked)
          ((λ intra. (a, refl, f, (In-insert a a w.state.pending).1 (inl refl))), tt);
    taken = h.taken;
  }

  leave-Walked :
      (n : ℕ) (w : BlockWalk) (target : Option Address) (type : BlockEdgeType)
      → Walked d s start n (core w)
      → Walked d s start n (core (leave target type w))
  leave-Walked n w target type h = record {
    blocks = h.blocks;
    started = h.started;
    grows = h.grows;
    room = h.room;
    linked =
        All-append (Linked d (λ t. In t w.state.pending)) w.block.outgoing_edges _ h.linked
          ((λ intra. absurd (cc intra)), tt);
    taken = h.taken;
  }

  take_instruction-Walked :
      (n : ℕ) (w : BlockWalk) (a : Address)
      → Walked d s start n (core w)
      → Walked d s start n (core (take_instruction a w))
  take_instruction-Walked n w a h = record {
    blocks = h.blocks;
    started = h.started;
    grows = h.grows;
    room = h.room;
    linked = h.linked;
    taken = λ b. ground (
      arith,
      h.taken b,
      In-insert b a w.state.instructions,
      In-append_iff b w.block.instruction_addresses (a ∷ []),
    );
  }

  -- What holds of the walk after a round: at most two starts were added, and none if it goes on.
  abbrev pub Stepped : BlockWalk → Type 0
  Stepped w = (n : ℕ) × (n ≤ 2) × (is_some w.current ≡ true → n ≡ 0) × Walked d s start n (core w)

  module _ (image : BinaryImage) (entry : Address) (hard : List Address) where
    followed_found :
        (o : Option Address) (t : Address)
        → followed image d entry hard o ≡ some t
        → is_some (find d t) ≡ true
    followed_found none t h = cc
    followed_found (some u) t h = ground arith

    fall_to-Stepped :
        (n : ℕ) (o : Option Instruction) (next : Address) (type : BlockEdgeType) (w : BlockWalk)
        → find d next ≡ o
        → n ≤ 1
        → w.current ≡ none
        → Walked d s start n (core w)
        → Stepped (fall_to image d entry hard o next type w)
    fall_to-Stepped n none next type w f l c h = (n, omega arith, λ e. cc, h)
    fall_to-Stepped n (some i) next type w f l c h =
        (n + 1, omega arith, (λ e. cc), link-Walked n w next type (ap is_some f) h)

    dispatch-Stepped :
        (k : InstructionFlowKind) (i : Instruction) (next : Address) (w : BlockWalk)
        → Walked d s start 0 (core w)
        → Stepped (dispatch image d entry hard k i next w)
    unfolding dispatch
    dispatch-Stepped InstructionFlowKind.normal i next w h = go (find d next)
      where
        go : (o : Option Instruction) → Stepped (proceed image d entry hard o next w)
        go none = (0, omega arith, (λ e. refl), h)
        go (some n) = (0, omega arith, (λ e. refl), h)
    dispatch-Stepped InstructionFlowKind.invalid i next w h = (0, omega arith, (λ e. refl), h)
    dispatch-Stepped InstructionFlowKind.call_direct i next w h =
        fall_to-Stepped 0 (find d next) next _ _ refl (omega arith) refl h
    dispatch-Stepped InstructionFlowKind.call_indirect i next w h =
        fall_to-Stepped 0 (find d next) next _ _ refl (omega arith) refl h
    dispatch-Stepped InstructionFlowKind.jump_conditional i next w h =
        go (followed image d entry hard i.branch_target) refl
      where
        go :
            (o : Option Address)
            → followed image d entry hard i.branch_target ≡ o
            → Stepped (
                fall_to image d entry hard
                  (find d next)
                  next
                  BlockEdgeType.false_branch
                  (branch_to image d entry hard o (close_at next w)))
        go none e =
            fall_to-Stepped 0 (find d next) next _ _ refl (omega arith) refl
              (leave-Walked 0 (close_at next w) none _ h)
        go (some t) e =
            fall_to-Stepped 1 (find d next) next _ _ refl (omega arith) refl
              (link-Walked 0 (close_at next w) t _ (followed_found i.branch_target t e) h)
    dispatch-Stepped InstructionFlowKind.jump_unconditional i next w h =
        go (followed image d entry hard i.branch_target) refl
      where
        go :
            (o : Option Address)
            → followed image d entry hard i.branch_target ≡ o
            → Stepped (jump_to image d entry hard o (close_at next w))
        go none e = (0, omega arith, (λ e. refl), leave-Walked 0 (close_at next w) none _ h)
        go (some t) e = elim (Bool-cases (not (t == entry) && contains t hard)) [
          | inl out ↦
              rw out (0, omega arith, (λ e. refl), leave-Walked 0 (close_at next w) (some t) _ h)
          | inr within ↦ rw within (
            1,
            omega arith,
            (λ e. cc),
            link-Walked 0 (close_at next w) t _ (followed_found i.branch_target t e) h,
          )
        ]
    dispatch-Stepped InstructionFlowKind.jump_indirect i next w h =
        (0, omega arith, (λ e. refl), leave-Walked 0 (close_at next w) none _ h)
    dispatch-Stepped InstructionFlowKind.return_flow i next w h =
        (0, omega arith, (λ e. refl), leave-Walked 0 (close_at next w) none _ h)
    dispatch-Stepped InstructionFlowKind.trap i next w h =
        (0, omega arith, (λ e. refl), leave-Walked 0 (close_at next w) none _ h)

    pub walk_step-Stepped :
        (w : BlockWalk) (i : Instruction)
        → w.current ≡ some i
        → find d i.address ≡ some i
        → Stepped w
        → Stepped (walk_step image d entry hard w i)
    unfolding walk_step
    walk_step-Stepped w i c f (m, le, zero_if, before) =
        let h = subst (λ k. Walked d s start k (core w)) (zero_if (ap is_some c)) before in
        elim (Bool-cases (
          not (is_empty w.block.instruction_addresses)
          && contains i.address w.state.block_starts)) [
            | inl stop ↦
                rw (stop, walk_step)
                  (
                    1,
                    omega arith,
                    (λ e. cc),
                    link-Walked 0 w i.address BlockEdgeType.fallthrough (ap is_some f) h,
                  )
            | inr go ↦ elim (Option-cases (checked_add 64 i.address i.size)) [
              | inl e ↦
                  rw (go, e, walk_step)
                    (0, omega arith, (λ e. refl), take_instruction-Walked 0 w i.address h)
              | inr (next, e) ↦
                  rw (go, e, walk_step)
                    (dispatch-Stepped i.flow_kind i next (take_instruction i.address w)
                      (take_instruction-Walked 0 w i.address h))
            ]
          ]
