-- ===== src/Disasm/Decode.antt =====
-- From a decoded `cs_insn` to an `Instruction`: disassembler.cpp, the functions above the loop.
pub mod Classify
use binary_atlas.Prelude.{
  ℕ, ◌+◌, ◌-◌, ◌%◌, ◌^◌, Bool, true, false, not, ◌&&◌, ◌||◌, Option, none, some, List, [], ◌∷◌,
  ◌++◌, ltb, leb, ◌==◌, if◌then◌else◌, take, ◌>>=?◌,
}
use binary_atlas.Prelude.Sets.{contains}
use binary_atlas.Prelude.Int.{ℤ, pos, ◌+ℤ◌, ltb_ℤ, residue}
use binary_atlas.Prelude.Text.{Text, lit}
use binary_atlas.Util.Arithmetic.{static_cast, signed}
use binary_atlas.Util.Strings.{hex}
use binary_atlas.Core.Types.{Address, InstructionFlowKind, MemoryReference}
use binary_atlas.Core.Image.{BinaryImage, find_section_containing}
use binary_atlas.Disasm.Instruction.{Instruction}
use binary_atlas.Disasm.Capstone.{Operand, imm, mem, other, Detail, CsInsn, Capstone}

-- `static_cast<Address>` of an `int64_t`.
abbrev pub to_address : ℤ → Address
to_address v = residue v (2 ^ 64)

-- `static_cast<std::int64_t>` of an address.
abbrev pub signed_address : Address → ℤ
signed_address a = static_cast (signed 64) (pos a)

-- `op_count > 0 && operands[0].type == X86_OP_IMM`
abbrev pub first_is_imm : List Operand → Bool
first_is_imm [] = false
first_is_imm (imm v ∷ ops) = true
first_is_imm (mem base index disp ∷ ops) = false
first_is_imm (other ∷ ops) = false

unfoldable pub has_group : CsInsn → ℕ → Bool
has_group instruction group = elim instruction.detail [
  | none ↦ false
  | some detail ↦ contains group detail.groups
]

abbrev pub first_target : List Operand → Option Address
first_target [] = none
first_target (imm v ∷ ops) = some (to_address v)
first_target (mem base index disp ∷ ops) = none
first_target (other ∷ ops) = none

unfoldable pub direct_branch_target : CsInsn → Option Address
direct_branch_target instruction = elim instruction.detail [
  | none ↦ none
  | some detail ↦ first_target detail.operands
]

-- A reference before anything is resolved.
abbrev pub new_reference : CsInsn → MemoryReference
new_reference instruction = record {
  instruction_address = instruction.address;
  target = 0;
  resolved = false;
  rip_relative = false;
  expression = instruction.op_str;
}

-- The reference of an operand relative to the instruction pointer, at its target.
abbrev pub rip_reference : CsInsn → ℤ → MemoryReference
rip_reference instruction target =
    if ltb_ℤ target (pos 0) then new_reference instruction else record (new_reference instruction) {
      target = to_address target;
      resolved = true;
      rip_relative = true;
    }

module _ (c : Capstone) where
  unfoldable pub is_unconditional_jump : ℕ → Bool
  is_unconditional_jump instruction_id = instruction_id == c.ins_jmp || instruction_id == c.ins_ljmp

  unfoldable pub classify_instruction : CsInsn → InstructionFlowKind
  unfolding is_unconditional_jump has_group
  classify_instruction instruction = elim instruction.detail [
    | none ↦ InstructionFlowKind.normal
    | some detail ↦
        if has_group instruction c.grp_ret
        then InstructionFlowKind.return_flow
        else if has_group instruction c.grp_int || has_group instruction c.grp_iret
        then InstructionFlowKind.trap
        else if has_group instruction c.grp_call
        then if first_is_imm detail.operands
          then InstructionFlowKind.call_direct
          else InstructionFlowKind.call_indirect
        else if has_group instruction c.grp_jump
        then if first_is_imm detail.operands
          then if is_unconditional_jump instruction.id
            then InstructionFlowKind.jump_unconditional
            else InstructionFlowKind.jump_conditional
          else InstructionFlowKind.jump_indirect
        else if instruction.id == c.ins_hlt || instruction.id == c.ins_ud2
        then InstructionFlowKind.trap
        else InstructionFlowKind.normal
  ]

  unfoldable pub names_of_groups : List ℕ → List Text
  names_of_groups [] = []
  names_of_groups (g ∷ gs) =
      let rest = names_of_groups gs in
      elim (c.group_name g) [ none ↦ rest | some name ↦ name ∷ rest ]

  unfoldable pub group_names : CsInsn → List Text
  unfolding names_of_groups
  group_names instruction = elim instruction.detail [
    | none ↦ []
    | some detail ↦ names_of_groups detail.groups
  ]

  -- The reference of a memory operand. The sum of addresses is taken without overflow, which the
  -- source's `int64_t` leaves undefined.
  unfoldable pub mem_reference : CsInsn → ℕ → ℕ → ℤ → MemoryReference
  mem_reference instruction base index disp =
      if base == c.reg_rip
      then rip_reference instruction
          (signed_address instruction.address +ℤ pos instruction.size +ℤ disp)
      else if base == c.reg_invalid && index == c.reg_invalid
      then record (new_reference instruction) {
        target = to_address disp;
        resolved = not (ltb_ℤ disp (pos 0));
      }
      else new_reference instruction

  -- The loop over the operands; `image` may be a null pointer.
  unfoldable pub operand_references :
      CsInsn → Option BinaryImage → List Operand → List MemoryReference
  unfolding mem_reference
  operand_references instruction image [] = []
  operand_references instruction image (mem base index disp ∷ ops) =
      let rest = operand_references instruction image ops in
      let reference = mem_reference instruction base index disp in
      if reference.resolved then reference ∷ rest else rest
  operand_references instruction image (imm v ∷ ops) =
      let rest = operand_references instruction image ops in
      elim (image >>=? λ img. find_section_containing img (to_address v)) [
        | none ↦ rest
        | some section ↦
            record (new_reference instruction) { target = to_address v; resolved = true } ∷ rest
      ]
  operand_references instruction image (other ∷ ops) = operand_references instruction image ops

  unfoldable pub memory_references : CsInsn → Option BinaryImage → List MemoryReference
  unfolding operand_references
  memory_references instruction image = elim instruction.detail [
    | none ↦ []
    | some detail ↦ operand_references instruction image detail.operands
  ]

  unfoldable pub build_instruction : CsInsn → Text → Option BinaryImage → Instruction
  build_instruction decoded section_name image = record {
    section_name = section_name;
    address = decoded.address;
    size = decoded.size % 2 ^ 8;
    bytes = take decoded.size decoded.bytes;
    mnemonic = decoded.mnemonic;
    operand_text = decoded.op_str;
    groups = group_names decoded;
    flow_kind = classify_instruction decoded;
    branch_target = direct_branch_target decoded;
    memory_references = memory_references decoded image;
    invalid = false;
  }

unfoldable pub build_invalid_instruction : Address → ℕ → Text → Instruction
build_invalid_instruction address value section_name = record {
  section_name = section_name;
  address = address;
  size = 1;
  bytes = value ∷ [];
  mnemonic = lit "db";
  operand_text = lit "0x" ++ hex value;
  groups = [];
  flow_kind = InstructionFlowKind.invalid;
  branch_target = none;
  memory_references = [];
  invalid = true;
}
