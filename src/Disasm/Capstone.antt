-- ===== src/Disasm/Capstone.antt =====
-- What the disassembler uses of Capstone (capstone/capstone.h), which is not part of the repository:
-- its constants, its decoder and its group names are a parameter, `IsDecoder` is its documented
-- behaviour, and `CapstoneHandle` is the outcome of opening it.
use binary_atlas.Prelude.{ℕ, ◌≤◌, ◌<◌, ◌≡◌, Bool, Option, some, List, length, take}
use binary_atlas.Prelude.Int.{ℤ}
use binary_atlas.Prelude.Text.{Text}

-- An operand of `cs_x86_op`: its type and the fields that the source reads for that type.
pub data Operand : Type 0 where
  imm : ℤ → Operand
  mem : ℕ → ℕ → ℤ → Operand
  other : Operand

-- `cs_detail`
pub record Detail : Type 0 where
  pub groups : List ℕ
  pub operands : List Operand

-- `cs_insn`; `detail` may be a null pointer.
pub record CsInsn : Type 0 where
  pub id : ℕ
  pub address : ℕ
  pub size : ℕ
  pub bytes : List ℕ
  pub mnemonic : Text
  pub op_str : Text
  pub detail : Option Detail

pub record Capstone : Type 0 where
  pub grp_ret : ℕ
  pub grp_int : ℕ
  pub grp_iret : ℕ
  pub grp_call : ℕ
  pub grp_jump : ℕ
  pub ins_jmp : ℕ
  pub ins_ljmp : ℕ
  pub ins_hlt : ℕ
  pub ins_ud2 : ℕ
  pub reg_rip : ℕ
  pub reg_invalid : ℕ
  -- `cs_open` and `cs_malloc` succeed.
  pub opens : Bool
  pub allocates : Bool
  pub group_name : ℕ → Option Text
  -- `cs_disasm_iter` at some code and its address.
  pub disasm_iter : List ℕ → ℕ → Option CsInsn

-- A decoded instruction stands at the address, is not empty and at most 24 bytes long (the size of
-- `cs_insn::bytes`), and its bytes are the first ones of the code.
pub record IsDecoder (c : Capstone) : Type 0 where
  pub placed : (code : List ℕ) (a : ℕ) (i : CsInsn) → c.disasm_iter code a ≡ some i → i.address ≡ a
  pub nonempty : (code : List ℕ) (a : ℕ) (i : CsInsn) → c.disasm_iter code a ≡ some i → 0 < i.size
  pub short : (code : List ℕ) (a : ℕ) (i : CsInsn) → c.disasm_iter code a ≡ some i → i.size ≤ 24
  pub within :
      (code : List ℕ) (a : ℕ) (i : CsInsn) → c.disasm_iter code a ≡ some i → i.size ≤ length code
  pub copied :
      (code : List ℕ) (a : ℕ) (i : CsInsn)
      → c.disasm_iter code a ≡ some i
      → take i.size i.bytes ≡ take i.size code
