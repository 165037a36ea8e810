-- ===== src/Disasm/Buffer.antt =====
-- `disassembleBufferInternal`: decode a buffer from its first byte to its last.
pub mod Tiling
use binary_atlas.Prelude.{
  ℕ, zero, suc, ◌+◌, ◌%◌, ◌^◌, Bool, not, Option, none, some, List, [], ◌∷◌, length, drop,
}
use binary_atlas.Prelude.Text.{Text, lit}
use binary_atlas.Core.Error.{Result, success, disassembly, reject_if, ◌>>◌, ◌>>=◌}
use binary_atlas.Core.Types.{Address}
use binary_atlas.Core.Image.{BinaryImage}
use binary_atlas.Disasm.Index.{DisassemblyResult, empty_result, add_instruction}
use binary_atlas.Disasm.Capstone.{CsInsn, Capstone}
use binary_atlas.Disasm.Decode.{build_instruction, build_invalid_instruction}

-- The variables of the loop; `remaining` is the length of `code`.
pub record Cursor : Type 0 where
  pub code : List ℕ
  pub address : Address
  pub result : DisassemblyResult

module _ (c : Capstone) (section_name : Text) (image : Option BinaryImage) where
  -- One round, at code that begins with `byte`.
  unfoldable pub decode_step : Cursor → ℕ → List ℕ → Cursor
  decode_step s byte rest = elim (c.disasm_iter s.code s.address) [
    | some decoded ↦ record {
      code = drop decoded.size s.code;
      address = (s.address + decoded.size) % 2 ^ 64;
      result = add_instruction s.result (build_instruction c decoded section_name image);
    }
    | none ↦ record {
      code = rest;
      address = (s.address + 1) % 2 ^ 64;
      result = add_instruction s.result (build_invalid_instruction s.address byte section_name);
    }
  ]

  -- `while (remaining > 0)`. Each round takes a byte at least, so the length of the code is fuel
  -- enough.
  unfoldable pub decode_loop : ℕ → Cursor → Cursor
  unfolding decode_step
  decode_loop zero s = s
  decode_loop (suc fuel) s = elim s.code [
    | [] ↦ s
    | byte ∷ rest ↦ decode_loop fuel (decode_step s byte rest)
  ]

unfoldable pub disassemble_buffer :
    Capstone → List ℕ → Address → Text → Option BinaryImage → Result DisassemblyResult
unfolding decode_loop
disassemble_buffer c bytes base_address section_name image = do
  reject_if (not c.opens) (disassembly (lit "failed to initialize Capstone"))
  reject_if (not c.allocates) (disassembly (lit "failed to allocate Capstone instruction"))
  success
      (decode_loop c section_name image (length bytes)
        (record { code = bytes; address = base_address; result = empty_result })).result

-- `Disassembler::disassembleBytes`
unfoldable pub disassemble_bytes : Capstone → Address → List ℕ → Text → Result DisassemblyResult
unfolding disassemble_buffer
disassemble_bytes c base_address bytes section_name =
    disassemble_buffer c bytes base_address section_name none
