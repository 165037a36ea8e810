-- ===== src/Disasm/Decode/Classify.antt =====
-- Lemmas on the classification and the branch target of an instruction.
use binary_atlas.Prelude.{
  ◌≡◌, refl, inl, inr, Bool, true, false, none, List, [], ◌∷◌, is_some, Option-cases, arith,
}
use binary_atlas.Core.Types.{InstructionFlowKind}
use binary_atlas.Disasm.Capstone.{CsInsn, Capstone, Operand, imm, mem, other}
use binary_atlas.Disasm.Decode.{
  first_is_imm, first_target, direct_branch_target, classify_instruction,
}

-- The kinds of flow that go to a target which the instruction names.
abbrev pub is_direct : InstructionFlowKind → Bool
is_direct InstructionFlowKind.call_direct = true
is_direct InstructionFlowKind.jump_conditional = true
is_direct InstructionFlowKind.jump_unconditional = true
is_direct _ = false

abbrev pub is_indirect : InstructionFlowKind → Bool
is_indirect InstructionFlowKind.call_indirect = true
is_indirect InstructionFlowKind.jump_indirect = true
is_indirect _ = false

first_is_imm-target : (ops : List Operand) → first_is_imm ops ≡ is_some (first_target ops)
first_is_imm-target [] = refl
first_is_imm-target (imm v ∷ ops) = refl
first_is_imm-target (mem base index disp ∷ ops) = refl
first_is_imm-target (other ∷ ops) = refl

module _ (c : Capstone) (i : CsInsn) where
  -- A direct call or jump has a branch target, and an indirect one has none.
  pub classify_instruction_target :
      (is_direct (classify_instruction c i) ≡ true → is_some (direct_branch_target i) ≡ true)
      × (is_indirect (classify_instruction c i) ≡ true → direct_branch_target i ≡ none)
  unfolding classify_instruction direct_branch_target
  classify_instruction_target = elim (Option-cases i.detail) [
    | inl e ↦ (ground arith, ground arith)
    | inr (d, e) ↦ (
      ground (arith, first_is_imm-target d.operands),
      ground (arith, first_is_imm-target d.operands),
    )
  ]
