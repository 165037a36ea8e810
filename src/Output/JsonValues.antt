-- ===== src/Output/JsonValues.antt =====
-- src/output/json_writer.cpp: the values of what an image holds.
use binary_atlas.Prelude.{Option, none, some, [], ◌∷◌}
use binary_atlas.Prelude.Text.{Text, lit}
use binary_atlas.Util.Strings.{format_hex}
use binary_atlas.Core.Types.{
  Address, BinaryMetadata, Section, Segment, Symbol, Relocation, ExtractedString, MemoryReference,
}
use binary_atlas.Core.Types.Names.{
  format_text, architecture_text, endianness_text, symbol_type_text, symbol_binding_text,
}
use binary_atlas.Output.Json.{JsonLibrary}

module _ (j : JsonLibrary) where
  open j use {
    Json, text, number, integer, boolean, hundredths, ratio, array, object, with_member, dump,
    parse,
  }

  unfoldable pub address_json : Address → Json
  address_json address =
      object ((lit "value", number address) ∷ (lit "hex", text (format_hex address)) ∷ [])

  -- `if (member) value[key] = addressJson(*member)`
  abbrev pub with_address : Json → Text → Option Address → Json
  with_address value key none = value
  with_address value key (some address) = with_member value key (address_json address)

  abbrev pub range_json : Address → Address → Json
  range_json start end =
      object ((lit "start", address_json start) ∷ (lit "end", address_json end) ∷ [])

  unfoldable pub metadata_json : BinaryMetadata → Json
  unfolding address_json format_text architecture_text endianness_text
  metadata_json m = object (
      (lit "format", text (format_text m.format))
      ∷ (lit "architecture", text (architecture_text m.architecture))
      ∷ (lit "endianness", text (endianness_text m.endianness))
      ∷ (lit "format_version", text m.format_version)
      ∷ (lit "source_path", text m.source_path)
      ∷ (lit "file_size", number m.file_size)
      ∷ (lit "entry_point", address_json m.entry_point)
      ∷ (lit "abi", number m.abi)
      ∷ (lit "abi_version", number m.abi_version)
      ∷ (lit "type", number m.type)
      ∷ (lit "machine", number m.machine)
      ∷ (lit "stripped", boolean m.stripped)
      ∷ [])

  unfoldable pub section_json : Section → Json
  unfolding address_json
  section_json s = object (
      (lit "name", text s.name)
      ∷ (lit "range", range_json s.range.start s.range.end)
      ∷ (lit "file_offset", number s.file_offset)
      ∷ (lit "file_size", number s.file_size)
      ∷ (lit "alignment", number s.alignment)
      ∷ (lit "flags", number s.flags)
      ∷ (lit "type", number s.type)
      ∷ (lit "executable", boolean s.executable)
      ∷ (lit "writable", boolean s.writable)
      ∷ (lit "alloc", boolean s.alloc)
      ∷ [])

  unfoldable pub segment_json : Segment → Json
  unfolding address_json
  segment_json s = object (
      (lit "type_name", text s.type_name)
      ∷ (lit "range", range_json s.range.start s.range.end)
      ∷ (lit "file_offset", number s.file_offset)
      ∷ (lit "file_size", number s.file_size)
      ∷ (lit "memory_size", number s.memory_size)
      ∷ (lit "flags", number s.flags)
      ∷ (lit "type", number s.type)
      ∷ (lit "executable", boolean s.executable)
      ∷ (lit "writable", boolean s.writable)
      ∷ (lit "readable", boolean s.readable)
      ∷ [])

  unfoldable pub symbol_json : Symbol → Json
  unfolding address_json symbol_type_text symbol_binding_text
  symbol_json s = object (
      (lit "name", text s.name)
      ∷ (lit "section_name", text s.section_name)
      ∷ (lit "source_table", text s.source_table)
      ∷ (lit "address", address_json s.address)
      ∷ (lit "size", number s.size)
      ∷ (lit "type", text (symbol_type_text s.type))
      ∷ (lit "binding", text (symbol_binding_text s.binding))
      ∷ (lit "defined", boolean s.defined)
      ∷ (lit "imported", boolean s.imported)
      ∷ (lit "exported", boolean s.exported)
      ∷ [])

  unfoldable pub relocation_json : Relocation → Json
  unfolding address_json
  relocation_json r = object (
      (lit "section_name", text r.section_name)
      ∷ (lit "symbol_name", text r.symbol_name)
      ∷ (lit "address", address_json r.address)
      ∷ (lit "type", number r.type)
      ∷ (lit "addend", integer r.addend)
      ∷ (lit "has_addend", boolean r.has_addend)
      ∷ [])

  unfoldable pub extracted_string_json : ExtractedString → Json
  unfolding address_json
  extracted_string_json x = object (
      (lit "section_name", text x.section_name)
      ∷ (lit "address", address_json x.address)
      ∷ (lit "value", text x.value)
      ∷ [])

  unfoldable pub memory_reference_json : MemoryReference → Json
  unfolding address_json
  memory_reference_json r = object (
      (lit "instruction_address", address_json r.instruction_address)
      ∷ (lit "target", address_json r.target)
      ∷ (lit "resolved", boolean r.resolved)
      ∷ (lit "rip_relative", boolean r.rip_relative)
      ∷ (lit "expression", text r.expression)
      ∷ [])
