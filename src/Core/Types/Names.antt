-- ===== src/Core/Types/Names.antt =====
-- src/core/types.cpp: the names under which the enumerations are printed.
use binary_atlas.Prelude.{◌≡◌, arith}
use binary_atlas.Prelude.Text.{Text, lit}
use binary_atlas.Core.Types.{
  BinaryFormat, Architecture, Endianness, SymbolType, SymbolBinding, InstructionFlowKind,
  BlockEdgeType,
}

unfoldable pub format_text : BinaryFormat → Text
format_text BinaryFormat.elf = lit "elf"
format_text BinaryFormat.pe = lit "pe"
format_text BinaryFormat.macho = lit "macho"
format_text BinaryFormat.unknown = lit "unknown"

unfoldable pub architecture_text : Architecture → Text
architecture_text Architecture.x86_64 = lit "x86_64"
architecture_text Architecture.unknown = lit "unknown"

unfoldable pub endianness_text : Endianness → Text
endianness_text Endianness.little = lit "little"
endianness_text Endianness.big = lit "big"
endianness_text Endianness.unknown = lit "unknown"

unfoldable pub symbol_type_text : SymbolType → Text
symbol_type_text SymbolType.no_type = lit "none"
symbol_type_text SymbolType.function = lit "function"
symbol_type_text SymbolType.object = lit "object"
symbol_type_text SymbolType.section = lit "section"
symbol_type_text SymbolType.file = lit "file"
symbol_type_text SymbolType.tls = lit "tls"
symbol_type_text SymbolType.unknown = lit "unknown"

unfoldable pub symbol_binding_text : SymbolBinding → Text
symbol_binding_text SymbolBinding.local = lit "local"
symbol_binding_text SymbolBinding.global = lit "global"
symbol_binding_text SymbolBinding.weak = lit "weak"
symbol_binding_text SymbolBinding.unknown = lit "unknown"

unfoldable pub flow_kind_text : InstructionFlowKind → Text
flow_kind_text InstructionFlowKind.invalid = lit "invalid"
flow_kind_text InstructionFlowKind.normal = lit "normal"
flow_kind_text InstructionFlowKind.call_direct = lit "call_direct"
flow_kind_text InstructionFlowKind.call_indirect = lit "call_indirect"
flow_kind_text InstructionFlowKind.jump_conditional = lit "jump_conditional"
flow_kind_text InstructionFlowKind.jump_unconditional = lit "jump_unconditional"
flow_kind_text InstructionFlowKind.jump_indirect = lit "jump_indirect"
flow_kind_text InstructionFlowKind.return_flow = lit "return"
flow_kind_text InstructionFlowKind.trap = lit "trap"

unfoldable pub edge_type_text : BlockEdgeType → Text
edge_type_text BlockEdgeType.fallthrough = lit "fallthrough"
edge_type_text BlockEdgeType.true_branch = lit "true_branch"
edge_type_text BlockEdgeType.false_branch = lit "false_branch"
edge_type_text BlockEdgeType.jump = lit "jump"
edge_type_text BlockEdgeType.call_fallthrough = lit "call_fallthrough"
edge_type_text BlockEdgeType.unresolved_indirect = lit "unresolved_indirect"
edge_type_text BlockEdgeType.return_edge = lit "return"

flow_kind_text_injective : (a b : InstructionFlowKind) → flow_kind_text a ≡ flow_kind_text b → a ≡ b
unfolding flow_kind_text
flow_kind_text_injective a b h = ground arith
