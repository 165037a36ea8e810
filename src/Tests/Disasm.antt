-- ===== src/Tests/Disasm.antt =====
-- A decoder that knows three one-byte instructions, and a disassembly with it.
use binary_atlas.Prelude.{
  ℕ, ◌<◌, ◌≤◌, ◌≡◌, refl, true, Option, none, some, List, [], ◌∷◌, if◌then◌else◌, ◌==◌, length,
  take, map, In, All, arith,
}
use binary_atlas.Prelude.Text.{lit, str_eq}
use binary_atlas.Util.Arithmetic.{checked_add, cast_unsigned}
use binary_atlas.Core.Error.{success}
use binary_atlas.Core.Types.{Section, InstructionFlowKind}
use binary_atlas.Disasm.Instruction.{Instruction, DisassemblyOptions}
use binary_atlas.Disasm.Index.{DisassemblyResult, empty_result, find, add_instruction, add_all}
use binary_atlas.Disasm.Index.Invariant.{
  IsIndexed, empty_result-IsIndexed, find-add_instruction, IsLastAt, find-add_all,
  add_instruction-IsIndexed,
}
use binary_atlas.Disasm.Capstone.{CsInsn, Capstone, IsDecoder}
use binary_atlas.Disasm.Decode.{build_instruction, build_invalid_instruction}
use binary_atlas.Disasm.Buffer.{disassemble_buffer}
use binary_atlas.Disasm.Buffer.Tiling.{Tiles, disassemble_buffer-Tiles}
use binary_atlas.Disasm.Sections.{disassemble}
use binary_atlas.Disasm.Sections.Extent.{IsPlaced, disassemble-IsPlaced}
use binary_atlas.Tests.Image.{sample_image}

abbrev one_byte : ℕ → ℕ → CsInsn
one_byte b a = record {
  id = b;
  address = a;
  size = 1;
  bytes = b ∷ [];
  mnemonic = lit "op";
  op_str = [];
  detail = none;
}

abbrev decode_one : List ℕ → ℕ → Option CsInsn
decode_one [] a = none
decode_one (b ∷ rest) a = if b == 0xff then none else some (one_byte b a)

abbrev pub toy : Capstone
toy = record {
  grp_ret = 3;
  grp_int = 4;
  grp_iret = 5;
  grp_call = 2;
  grp_jump = 1;
  ins_jmp = 1;
  ins_ljmp = 2;
  ins_hlt = 0xf4;
  ins_ud2 = 0x0b;
  reg_rip = 41;
  reg_invalid = 0;
  opens = true;
  allocates = true;
  group_name = λ g. none;
  disasm_iter = decode_one;
}

pub toy-IsDecoder : IsDecoder toy
toy-IsDecoder = record {
  placed = placed;
  nonempty = nonempty;
  short = short;
  within = within;
  copied = copied;
}
  where
    placed : (code : List ℕ) (a : ℕ) (i : CsInsn) → decode_one code a ≡ some i → i.address ≡ a
    placed [] a i h = cc
    placed (b ∷ rest) a i h = ground arith

    nonempty : (code : List ℕ) (a : ℕ) (i : CsInsn) → decode_one code a ≡ some i → 0 < i.size
    nonempty [] a i h = cc
    nonempty (b ∷ rest) a i h = ground arith

    short : (code : List ℕ) (a : ℕ) (i : CsInsn) → decode_one code a ≡ some i → i.size ≤ 24
    short [] a i h = cc
    short (b ∷ rest) a i h = ground arith

    within :
        (code : List ℕ) (a : ℕ) (i : CsInsn) → decode_one code a ≡ some i → i.size ≤ length code
    within [] a i h = cc
    within (b ∷ rest) a i h = ground arith

    copied :
        (code : List ℕ) (a : ℕ) (i : CsInsn)
        → decode_one code a ≡ some i
        → take i.size i.bytes ≡ take i.size code
    copied [] a i h = cc
    copied (b ∷ rest) a i h = ground arith

abbrev ghost : Instruction
ghost = record {
  section_name = lit ".text";
  address = 0x1000;
  size = 1;
  bytes = 0xff ∷ [];
  mnemonic = lit "db";
  operand_text = lit "0xff";
  groups = [];
  flow_kind = InstructionFlowKind.invalid;
  branch_target = none;
  memory_references = [];
  invalid = true;
}

add_instruction-IsIndexed_example : IsIndexed (add_instruction empty_result ghost)
add_instruction-IsIndexed_example =
    add_instruction-IsIndexed empty_result ghost empty_result-IsIndexed

find-add_instruction_example :
    find (add_instruction empty_result ghost) 0x1000
    ≡ (if 0x1000 == ghost.address then some ghost else find empty_result 0x1000)
find-add_instruction_example = find-add_instruction empty_result ghost 0x1000 empty_result-IsIndexed

find-add_all_example :
    IsLastAt 0x1000 (ghost ∷ ghost ∷ []) (find (add_all empty_result (ghost ∷ ghost ∷ [])) 0x1000)
find-add_all_example = find-add_all (ghost ∷ ghost ∷ []) 0x1000

abbrev code : List ℕ
code = 0x90 ∷ 0xff ∷ 0xc3 ∷ []

disassemble_buffer-Tiles_example :
    (r : DisassemblyResult) × (disassemble_buffer toy code 0x1000 (lit ".text") none ≡ success r)
    × IsIndexed r
    × Tiles 0x1000 r.instructions code
    × All (λ x. x.section_name ≡ lit ".text") r.instructions
disassemble_buffer-Tiles_example =
    disassemble_buffer-Tiles toy toy-IsDecoder (lit ".text") none code 0x1000 refl refl

abbrev options : DisassemblyOptions
options = record {
  section_name = some (lit ".text");
  start_address = some 0x1001;
  end_address = none;
}

disassembled :
    (r : DisassemblyResult) × (disassemble toy sample_image options ≡ success r)
    × (map (λ x. x.address) r.instructions ≡ 0x1001 ∷ 0x1002 ∷ 0x1003 ∷ [])
    × (r.invalid_instruction_count ≡ 1)
unfolding disassemble checked_add cast_unsigned str_eq build_instruction build_invalid_instruction
    add_all
disassembled = (_, refl, refl, refl)

disassemble-IsPlaced_example :
    IsIndexed disassembled.0
    × All
        (λ x. (s : Section) × In s sample_image.sections × IsPlaced sample_image options s x)
        disassembled.0.instructions
disassemble-IsPlaced_example =
    disassemble-IsPlaced toy toy-IsDecoder sample_image options disassembled.0 (omega arith)
      (omega arith) disassembled.1
