-- ===== src/Format/Codes.antt =====
-- src/format/elf_parser.cpp: `mapSymbolType`, `mapSymbolBinding` and `programHeaderTypeName`. A `switch` is
-- a chain of tests in the order of its cases, whose values differ.
use binary_atlas.Prelude.{ℕ, ◌==◌, if◌then◌else◌}
use binary_atlas.Prelude.Text.{Text, lit}
use binary_atlas.Core.Types.{SymbolType, SymbolBinding}
use binary_atlas.Format.ElfTypes.{Elf}

module _ (e : Elf) where
  unfoldable pub map_symbol_type : ℕ → SymbolType
  map_symbol_type info =
      let type = e.st_type info in
      if type == e.stt_notype
      then SymbolType.no_type
      else if type == e.stt_func
      then SymbolType.function
      else if type == e.stt_object
      then SymbolType.object
      else if type == e.stt_section
      then SymbolType.section
      else if type == e.stt_file
      then SymbolType.file
      else if type == e.stt_tls
      then SymbolType.tls
      else SymbolType.unknown

  unfoldable pub map_symbol_binding : ℕ → SymbolBinding
  map_symbol_binding info =
      let binding = e.st_bind info in
      if binding == e.stb_local
      then SymbolBinding.local
      else if binding == e.stb_global
      then SymbolBinding.global
      else if binding == e.stb_weak
      then SymbolBinding.weak
      else SymbolBinding.unknown

  unfoldable pub program_header_type_name : ℕ → Text
  program_header_type_name type =
      if type == e.pt_null
      then lit "PT_NULL"
      else if type == e.pt_load
      then lit "PT_LOAD"
      else if type == e.pt_dynamic
      then lit "PT_DYNAMIC"
      else if type == e.pt_interp
      then lit "PT_INTERP"
      else if type == e.pt_note
      then lit "PT_NOTE"
      else if type == e.pt_phdr
      then lit "PT_PHDR"
      else if type == e.pt_tls
      then lit "PT_TLS"
      else lit "PT_OTHER"
