-- ===== src/Analysis/Recovery/Walk.antt =====
-- The loops of `recoverFunction`: blocks are built one after the other from the pending starts.
pub mod Blocks
pub mod Ends
pub mod Rounds
pub mod Keep
pub mod Closed
use binary_atlas.Prelude.{
  ℕ, zero, suc, ◌+◌, ◌*◌, Bool, true, false, not, ◌&&◌, ◌||◌, Option, none, some, List, [], ◌∷◌,
  ◌++◌, if◌then◌else◌, is_some, is_none, is_empty, ◌==◌, length,
}
use binary_atlas.Prelude.Sets.{contains, insert, map_find, map_emplace}
use binary_atlas.Util.Arithmetic.{checked_add}
use binary_atlas.Core.Types.{Address, InstructionFlowKind, BlockEdgeType}
use binary_atlas.Core.Image.{BinaryImage, is_executable_address}
use binary_atlas.Disasm.Instruction.{Instruction}
use binary_atlas.Disasm.Index.{DisassemblyResult, find}
use binary_atlas.Analysis.Function.{BlockEdge, BasicBlock, CallSite}

-- What the loops of `recoverFunction` read and write, but for the block that is being built.
pub record Recovery : Type 0 where
  pub pending : List Address
  pub block_starts : List Address
  pub blocks : List (Address × BasicBlock)
  pub callees : List Address
  pub call_sites : List CallSite
  pub instructions : List Address
  pub partial : Bool

-- The inner loop: `block` and `current`, where `none` is a null pointer.
pub record BlockWalk : Type 0 where
  pub state : Recovery
  pub block : BasicBlock
  pub current : Option Instruction

abbrev pub edge : BasicBlock → Option Address → BlockEdgeType → Bool → BlockEdge
edge b target type intra = record {
  source = b.start;
  target = target;
  type = type;
  intra_function = intra;
}

abbrev pub add_edge : Option Address → BlockEdgeType → Bool → BasicBlock → BasicBlock
add_edge target type intra b = record b {
  outgoing_edges = b.outgoing_edges ++ edge b target type intra ∷ [];
}

abbrev pub mark_partial : Recovery → Recovery
mark_partial s = record s { partial = true }

-- `block_starts.insert(a); pending.insert(a);`
abbrev pub add_start : Address → Recovery → Recovery
add_start a s = record s { block_starts = insert a s.block_starts; pending = insert a s.pending }

-- An edge inside the function, whose target becomes the start of a block.
abbrev pub link : Address → BlockEdgeType → BlockWalk → BlockWalk
link a type w = record w {
  state = add_start a w.state;
  block = add_edge (some a) type true w.block;
}

-- An edge that leaves the function, or whose target is not known.
abbrev pub leave : Option Address → BlockEdgeType → BlockWalk → BlockWalk
leave target type w = record w { block = add_edge target type false w.block }

abbrev pub set_partial : BlockWalk → BlockWalk
set_partial w = record w { state = mark_partial w.state }

-- `block.end = a; current = nullptr;`
abbrev pub close_at : Address → BlockWalk → BlockWalk
close_at a w = record { state = w.state; block = record w.block { end = a }; current = none }

-- `block.instruction_addresses.push_back(a); state.instructions.insert(a);`
abbrev pub take_instruction : Address → BlockWalk → BlockWalk
take_instruction a w = record w {
  state = record (w.state) { instructions = insert a w.state.instructions };
  block = record (w.block) { instruction_addresses = w.block.instruction_addresses ++ a ∷ [] };
}

-- `if (block.end == 0) …` and `blocks.emplace(block.start, block)`
unfoldable pub finish_block : BlockWalk → Recovery
unfolding map_emplace
finish_block w =
    if w.block.end == 0
    then record (w.state) {
      blocks =
          map_emplace w.block.start (record (w.block) { end = w.block.start; partial = true })
            w.state.blocks;
      partial = true;
    }
    else record (w.state) { blocks = map_emplace w.block.start w.block w.state.blocks }

abbrev pub new_block : Address → BasicBlock
new_block start = record {
  start = start;
  end = 0;
  instruction_addresses = [];
  outgoing_edges = [];
  partial = false;
}

module _ (image : BinaryImage) (d : DisassemblyResult) (entry : Address) (hard : List Address) where
  -- A branch target that the source follows.
  abbrev pub followed : Option Address → Option Address
  followed none = none
  followed (some t) = if is_some (find d t) && is_executable_address image t then some t else none

  -- The edge to the instruction behind a call or a conditional jump, if there is one.
  abbrev pub fall_to : Option Instruction → Address → BlockEdgeType → BlockWalk → BlockWalk
  fall_to none next type w = set_partial w
  fall_to (some i) next type w = link next type w

  -- The edge of a conditional jump that is taken.
  abbrev pub branch_to : Option Address → BlockWalk → BlockWalk
  branch_to none w = set_partial (leave none BlockEdgeType.unresolved_indirect w)
  branch_to (some t) w = link t BlockEdgeType.true_branch w

  -- The edge of a jump: it leaves the function where it goes to another hard boundary.
  abbrev pub jump_to : Option Address → BlockWalk → BlockWalk
  jump_to none w = set_partial (leave none BlockEdgeType.unresolved_indirect w)
  jump_to (some t) w =
      if not (t == entry) && contains t hard
      then leave (some t) BlockEdgeType.jump w
      else link t BlockEdgeType.jump w

  -- Behind an instruction that does not branch.
  abbrev pub proceed : Option Instruction → Address → BlockWalk → BlockWalk
  proceed none next w = close_at next w
  proceed (some n) next w = record w { current = some n }

  abbrev pub add_call : Instruction → Bool → BlockWalk → BlockWalk
  add_call i indirect w = record w {
    state = record (w.state) {
      call_sites =
          w.state.call_sites
          ++ record {
            instruction_address = i.address;
            target = i.branch_target;
            indirect = indirect;
            resolved = is_some i.branch_target;
            operand_text = i.operand_text;
          }
            ∷ [];
      callees = elim i.branch_target [
        | none ↦ w.state.callees
        | some t ↦
            if is_executable_address image t then insert t w.state.callees else w.state.callees
      ];
    };
  }

  -- The cases of the `switch`, at the address behind the instruction.
  unfoldable pub dispatch : InstructionFlowKind → Instruction → Address → BlockWalk → BlockWalk
  dispatch InstructionFlowKind.invalid i next w =
      set_partial
        (record (close_at next w) { block = record (w.block) { end = next; partial = true } })
  dispatch InstructionFlowKind.normal i next w = proceed (find d next) next w
  dispatch InstructionFlowKind.call_direct i next w =
      fall_to (find d next) next BlockEdgeType.call_fallthrough (close_at next (add_call i false w))
  dispatch InstructionFlowKind.call_indirect i next w =
      fall_to (find d next) next BlockEdgeType.call_fallthrough (close_at next (add_call i true w))
  dispatch InstructionFlowKind.jump_conditional i next w =
      fall_to (find d next) next BlockEdgeType.false_branch
        (branch_to (followed i.branch_target) (close_at next w))
  dispatch InstructionFlowKind.jump_unconditional i next w =
      jump_to (followed i.branch_target) (close_at next w)
  dispatch InstructionFlowKind.jump_indirect i next w =
      set_partial (leave none BlockEdgeType.unresolved_indirect (close_at next w))
  dispatch InstructionFlowKind.return_flow i next w =
      leave none BlockEdgeType.return_edge (close_at next w)
  dispatch InstructionFlowKind.trap i next w =
      leave none BlockEdgeType.return_edge (close_at next w)

  -- One round of the inner loop, at the instruction `i`.
  unfoldable pub walk_step : BlockWalk → Instruction → BlockWalk
  unfolding dispatch
  walk_step w i =
      if not (is_empty w.block.instruction_addresses) && contains i.address w.state.block_starts
      then record {
        state = record (w.state) { pending = insert i.address w.state.pending };
        block =
            add_edge (some i.address) BlockEdgeType.fallthrough true
              (record (w.block) { end = i.address });
        current = none;
      }
      else elim (checked_add 64 i.address i.size) [
        | none ↦ set_partial (record (close_at i.address (take_instruction i.address w)) {
          block = record ((take_instruction i.address w).block) { end = i.address; partial = true };
        })
        | some next ↦ dispatch i.flow_kind i next (take_instruction i.address w)
      ]

  -- `while (current != nullptr)`; the addresses rise, so the number of index entries is fuel enough.
  unfoldable pub walk_block : ℕ → BlockWalk → BlockWalk
  unfolding walk_step
  walk_block zero w = w
  walk_block (suc fuel) w = elim w.current [ none ↦ w | some i ↦ walk_block fuel (walk_step w i) ]

  -- One round of the outer loop, after `start` was taken from `pending`.
  unfoldable pub recover_step : Recovery → Address → Recovery
  unfolding walk_block finish_block
  recover_step s start = if is_some (map_find start s.blocks) then s else elim (find d start) [
    | none ↦ mark_partial s
    | some i ↦ finish_block (
        walk_block (length d.address_index)
          (record { state = s; block = new_block start; current = some i }))
  ]

  -- `while (!pending.empty())`
  unfoldable pub recover_loop : ℕ → Recovery → Recovery
  unfolding recover_step
  recover_loop zero s = s
  recover_loop (suc fuel) s = elim s.pending [
    | [] ↦ s
    | start ∷ rest ↦ recover_loop fuel (recover_step (record s { pending = rest }) start)
  ]

  -- Each entry of the index can become a block once, and a block adds at most two starts.
  abbrev pub recover_fuel : ℕ
  recover_fuel = 3 * length d.address_index + 1

  abbrev pub initial : Recovery
  initial = record {
    pending = entry ∷ [];
    block_starts = entry ∷ [];
    blocks = [];
    callees = [];
    call_sites = [];
    instructions = [];
    partial = false;
  }

  -- The state when both loops have ended.
  unfoldable pub recover_blocks : Recovery
  unfolding recover_loop
  recover_blocks = recover_loop recover_fuel initial
