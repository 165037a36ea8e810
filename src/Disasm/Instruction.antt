-- ===== src/Disasm/Instruction.antt =====
-- include/binaryatlas/disasm/instruction.hpp: a decoded instruction and the disassembly options.
use binary_atlas.Prelude.{ℕ, Bool, Option, List}
use binary_atlas.Prelude.Text.{Text}
use binary_atlas.Core.Types.{Address, InstructionFlowKind, MemoryReference}

pub record Instruction : Type 0 where
  pub section_name : Text
  pub address : Address
  pub size : ℕ
  pub bytes : List ℕ
  pub mnemonic : Text
  pub operand_text : Text
  pub groups : List Text
  pub flow_kind : InstructionFlowKind
  pub branch_target : Option Address
  pub memory_references : List MemoryReference
  pub invalid : Bool

pub record DisassemblyOptions : Type 0 where
  pub section_name : Option Text
  pub start_address : Option Address
  pub end_address : Option Address
