-- ===== src/Output/JsonWriter.antt =====
-- src/output/json_writer.cpp. An array that a loop fills is the list of its members.
pub mod Compose
use binary_atlas.Prelude.{ℕ, Bool, Option, none, some, List, [], ◌∷◌, length, map, ◌>>=?◌}
use binary_atlas.Prelude.Text.{Text, lit}
use binary_atlas.Util.Strings.{format_hex}
use binary_atlas.Core.Types.{
  Address, BinaryMetadata, Section, Segment, Symbol, Relocation, ExtractedString, MemoryReference,
}
use binary_atlas.Core.Types.Names.{
  format_text, architecture_text, endianness_text, symbol_type_text, symbol_binding_text,
  flow_kind_text, edge_type_text,
}
use binary_atlas.Core.Image.{BinaryImage}
use binary_atlas.Disasm.Instruction.{Instruction}
use binary_atlas.Disasm.Index.{DisassemblyResult}
use binary_atlas.Analysis.Function.{
  BlockEdge, CallSite, BasicBlock, FunctionSeed, FunctionMetrics, RecoveredFunction, CallGraphEdge,
  ProgramMetrics, ProgramAnalysis,
}
use binary_atlas.Heuristics.Finding.{HeuristicFinding}
use binary_atlas.Engine.{AnalysisBundle}
use binary_atlas.Output.Json.{JsonLibrary}
use binary_atlas.Output.JsonValues.{
  address_json, with_address, metadata_json, section_json, segment_json, symbol_json,
  relocation_json, extracted_string_json, memory_reference_json,
}

module _ (j : JsonLibrary) where
  open j use {
    Json, text, number, integer, boolean, hundredths, ratio, array, object, with_member, dump,
    parse,
  }

  unfoldable pub instruction_json : Instruction → Json
  unfolding address_json memory_reference_json flow_kind_text
  instruction_json i =
      with_address j
        (object (
          (lit "section_name", text i.section_name)
          ∷ (lit "address", address_json j i.address)
          ∷ (lit "size", number i.size)
          ∷ (lit "bytes", array (map number i.bytes))
          ∷ (lit "mnemonic", text i.mnemonic)
          ∷ (lit "operands", text i.operand_text)
          ∷ (lit "groups", array (map text i.groups))
          ∷ (lit "flow_kind", text (flow_kind_text i.flow_kind))
          ∷ (lit "memory_references", array (map (memory_reference_json j) i.memory_references))
          ∷ (lit "invalid", boolean i.invalid)
          ∷ []))
        (lit "branch_target") i.branch_target

  unfoldable pub seed_json : FunctionSeed → Json
  unfolding address_json
  seed_json s = object (
      (lit "address", address_json j s.address)
      ∷ (lit "source", text s.source)
      ∷ (lit "label", text s.label)
      ∷ (lit "confidence", hundredths s.confidence)
      ∷ [])

  unfoldable pub block_edge_json : BlockEdge → Json
  unfolding address_json edge_type_text
  block_edge_json e =
      with_address j
        (object (
          (lit "source", address_json j e.source)
          ∷ (lit "type", text (edge_type_text e.type))
          ∷ (lit "intra_function", boolean e.intra_function)
          ∷ []))
        (lit "target") e.target

  unfoldable pub block_json : BasicBlock → Json
  unfolding address_json block_edge_json
  block_json b = object (
      (lit "start", address_json j b.start)
      ∷ (lit "end", address_json j b.end)
      ∷ (lit "instruction_addresses", array (map (address_json j) b.instruction_addresses))
      ∷ (lit "edges", array (map block_edge_json b.outgoing_edges))
      ∷ (lit "partial", boolean b.partial)
      ∷ [])

  unfoldable pub call_site_json : CallSite → Json
  unfolding address_json
  call_site_json s =
      with_address j
        (object (
          (lit "instruction_address", address_json j s.instruction_address)
          ∷ (lit "indirect", boolean s.indirect)
          ∷ (lit "resolved", boolean s.resolved)
          ∷ (lit "operand_text", text s.operand_text)
          ∷ []))
        (lit "target") s.target

  unfoldable pub function_metrics_json : FunctionMetrics → Json
  function_metrics_json m = object (
      (lit "block_count", number m.block_count)
      ∷ (lit "edge_count", number m.edge_count)
      ∷ (lit "instruction_count", number m.instruction_count)
      ∷ (lit "size_bytes", number m.size_bytes)
      ∷ (lit "loop_count", number m.loop_count)
      ∷ (lit "connected_components", number m.connected_components)
      ∷ (lit "max_in_degree", number m.max_in_degree)
      ∷ (lit "max_out_degree", number m.max_out_degree)
      ∷ (lit "average_out_degree", ratio m.average_out_degree)
      ∷ (lit "call_out_degree", number m.call_out_degree)
      ∷ (lit "cyclomatic_complexity", number m.cyclomatic_complexity)
      ∷ [])

  unfoldable pub function_json : RecoveredFunction → Json
  unfolding address_json seed_json block_json call_site_json function_metrics_json
  function_json f = object (
      (lit "entry", address_json j f.entry)
      ∷ (lit "name", text f.name)
      ∷ (lit "seeds", array (map seed_json f.seed_reasons))
      ∷ (lit "blocks", array (map block_json f.blocks))
      ∷ (lit "call_sites", array (map call_site_json f.call_sites))
      ∷ (lit "callees", array (map (address_json j) f.callees))
      ∷ (lit "referenced_strings", array (map text f.referenced_strings))
      ∷ (lit "metrics", function_metrics_json f.metrics)
      ∷ (lit "partial", boolean f.partial)
      ∷ (lit "ambiguous", boolean f.ambiguous)
      ∷ [])

  unfoldable pub call_edge_json : CallGraphEdge → Json
  unfolding address_json
  call_edge_json e = object (
      (lit "source", address_json j e.source)
      ∷ (lit "target", address_json j e.target)
      ∷ (lit "external", boolean e.external)
      ∷ (lit "target_name", text e.target_name)
      ∷ [])

  unfoldable pub program_metrics_json : ProgramMetrics → Json
  program_metrics_json m = object (
      (lit "function_count", number m.function_count)
      ∷ (lit "block_count", number m.block_count)
      ∷ (lit "instruction_count", number m.instruction_count)
      ∷ (lit "call_edge_count", number m.call_edge_count)
      ∷ (lit "looping_function_count", number m.looping_function_count)
      ∷ (lit "dispatcher_candidate_count", number m.dispatcher_candidate_count)
      ∷ [])

  unfoldable pub finding_json : HeuristicFinding → Json
  unfolding address_json
  finding_json f =
      with_address j
        (with_address j
          (object (
            (lit "category", text f.category)
            ∷ (lit "confidence", hundredths f.confidence)
            ∷ (lit "evidence", array (map text f.evidence))
            ∷ (lit "explanation", text f.explanation)
            ∷ []))
          (lit "address") f.address)
        (lit "function") f.function

  unfoldable pub disassembly_json : DisassemblyResult → Json
  unfolding instruction_json
  disassembly_json d = object (
      (lit "instruction_count", number (length d.instructions))
      ∷ (lit "invalid_instruction_count", number d.invalid_instruction_count)
      ∷ (lit "instructions", array (map instruction_json d.instructions))
      ∷ [])

  unfoldable pub analysis_json : ProgramAnalysis → Json
  unfolding function_json call_edge_json program_metrics_json seed_json
  analysis_json a = object (
      (lit "functions", array (map function_json a.functions))
      ∷ (lit "call_graph", array (map call_edge_json a.call_graph))
      ∷ (lit "metrics", program_metrics_json a.metrics)
      ∷ (lit "unused_seeds", array (map seed_json a.unused_seeds))
      ∷ [])

  unfoldable pub inspect_json : BinaryImage → Json
  unfolding metadata_json section_json segment_json symbol_json relocation_json
      extracted_string_json
  inspect_json image = object (
      (lit "metadata", metadata_json j image.metadata)
      ∷ (lit "sections", array (map (section_json j) image.sections))
      ∷ (lit "segments", array (map (segment_json j) image.segments))
      ∷ (lit "symbols", array (map (symbol_json j) image.symbols))
      ∷ (lit "relocations", array (map (relocation_json j) image.relocations))
      ∷ (lit "imports", array (map text image.imports))
      ∷ (lit "exports", array (map text image.exports))
      ∷ (lit "strings", array (map (extracted_string_json j) image.extracted_strings))
      ∷ [])

  unfoldable pub findings_json : List HeuristicFinding → Json
  unfolding finding_json
  findings_json findings = object ((lit "findings", array (map finding_json findings)) ∷ [])

  unfoldable pub render_inspect : BinaryImage → Option Text
  unfolding inspect_json
  render_inspect image = dump (inspect_json image)

  unfoldable pub render_disassembly : DisassemblyResult → Option Text
  unfolding disassembly_json
  render_disassembly d = dump (disassembly_json d)

  unfoldable pub render_functions : ProgramAnalysis → Option Text
  unfolding analysis_json
  render_functions analysis = dump (analysis_json analysis)

  unfoldable pub render_heuristics : List HeuristicFinding → Option Text
  unfolding findings_json
  render_heuristics findings = dump (findings_json findings)

  -- Each part is rendered, parsed again, and set as a member of the parsed image.
  unfoldable pub render_analysis : AnalysisBundle → Option Text
  unfolding render_inspect render_disassembly render_functions render_heuristics
  render_analysis b = (render_inspect b.image >>=? parse) >>=? λ value.
      (render_disassembly b.disassembly >>=? parse) >>=? λ d.
      (render_functions b.analysis >>=? parse) >>=? λ a.
      (render_heuristics b.heuristic_findings >>=? parse) >>=? λ h. dump (
        with_member (with_member (with_member value (lit "disassembly") d) (lit "analysis") a)
          (lit "heuristics") h)
