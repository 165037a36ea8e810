-- ===== src/Analysis/Recovery/Function.antt =====
-- `recoverFunction` behind its loops, and `collectReferencedStrings`.
use binary_atlas.Prelude.{
  Bool, false, ◌&&◌, Option, none, some, List, [], ◌∷◌, if◌then◌else◌, length, ltb, leb, ◌>>=?◌,
}
use binary_atlas.Prelude.Sets.{values}
use binary_atlas.Prelude.Sort.{sort_by, by_key}
use binary_atlas.Prelude.Text.{Text, str_insert}
use binary_atlas.Util.Arithmetic.{checked_add, cast_unsigned, unsigned}
use binary_atlas.Core.Types.{Address, ExtractedString, MemoryReference}
use binary_atlas.Core.Image.{BinaryImage}
use binary_atlas.Disasm.Index.{DisassemblyResult, find}
use binary_atlas.Analysis.Function.{FunctionSeed, BasicBlock, FunctionMetrics, RecoveredFunction}
use binary_atlas.Analysis.Metrics.{compute_function_metrics}
use binary_atlas.Analysis.Recovery.Seeds.{resolve_function_name}
use binary_atlas.Analysis.Recovery.Walk.{Recovery, recover_blocks}

-- `RecoveredState`
pub record RecoveredState : Type 0 where
  pub function : RecoveredFunction
  pub instructions : List Address

-- The address behind the string and its terminator, where it fits.
unfoldable pub string_end : ExtractedString → Option Address
unfolding checked_add cast_unsigned
string_end candidate =
    checked_add 64 (length candidate.value) 1
    >>=? cast_unsigned (unsigned 64)
    >>=? checked_add 64 candidate.address

abbrev pub is_reference_into : MemoryReference → ExtractedString → Bool
is_reference_into reference candidate = elim (string_end candidate) [
  | none ↦ false
  | some end ↦ leb candidate.address reference.target && ltb reference.target end
]

-- The three inner loops of `collectReferencedStrings`.
unfoldable pub strings_of_reference : MemoryReference → List ExtractedString → List Text → List Text
unfolding string_end str_insert
strings_of_reference reference [] strings = strings
strings_of_reference reference (c ∷ cs) strings =
    strings_of_reference reference cs
      (if is_reference_into reference c then str_insert c.value strings else strings)

unfoldable pub strings_of_references : BinaryImage → List MemoryReference → List Text → List Text
unfolding strings_of_reference
strings_of_references image [] strings = strings
strings_of_references image (r ∷ rs) strings =
    strings_of_references image rs (strings_of_reference r image.extracted_strings strings)

unfoldable pub strings_of_addresses :
    BinaryImage → DisassemblyResult → List Address → List Text → List Text
unfolding strings_of_references
strings_of_addresses image d [] strings = strings
strings_of_addresses image d (a ∷ rest) strings =
    strings_of_addresses image d rest (elim (find d a) [
      | none ↦ strings
      | some i ↦ strings_of_references image i.memory_references strings
    ])

unfoldable pub collect_referenced_strings :
    BinaryImage → DisassemblyResult → List BasicBlock → List Text → List Text
unfolding strings_of_addresses
collect_referenced_strings image d [] strings = strings
collect_referenced_strings image d (b ∷ bs) strings =
    collect_referenced_strings image d bs
      (strings_of_addresses image d b.instruction_addresses strings)

-- `FunctionMetrics{}`
abbrev pub no_metrics : FunctionMetrics
no_metrics = record {
  block_count = 0;
  edge_count = 0;
  instruction_count = 0;
  size_bytes = 0;
  loop_count = 0;
  connected_components = 0;
  max_in_degree = 0;
  max_out_degree = 0;
  average_out_degree = record { numerator = 0; denominator = 1 };
  call_out_degree = 0;
  cyclomatic_complexity = 0;
}

-- The function with its blocks, calls and strings, before its metrics are computed.
unfoldable pub assemble :
    BinaryImage
    → DisassemblyResult
    → List (Address × Text)
    → Address
    → List FunctionSeed
    → Recovery
    → RecoveredFunction
unfolding resolve_function_name sort_by by_key collect_referenced_strings
assemble image d symbol_names entry reasons s =
    let blocks = sort_by (by_key (λ b. b.start)) (values s.blocks) in
    record {
      entry = entry;
      name = resolve_function_name entry symbol_names image.metadata;
      seed_reasons = reasons;
      blocks = blocks;
      call_sites = sort_by (by_key (λ c. c.instruction_address)) s.call_sites;
      callees = s.callees;
      referenced_strings = collect_referenced_strings image d blocks [];
      metrics = no_metrics;
      partial = s.partial;
      ambiguous = false;
    }

unfoldable pub recover_function :
    Address
    → List FunctionSeed
    → BinaryImage
    → DisassemblyResult
    → List Address
    → List (Address × Text)
    → RecoveredState
unfolding recover_blocks assemble compute_function_metrics
recover_function entry reasons image d hard_boundary_seeds symbol_names =
    let s = recover_blocks image d entry hard_boundary_seeds in
    let function = assemble image d symbol_names entry reasons s in
    record {
      function = record function { metrics = compute_function_metrics function };
      instructions = s.instructions;
    }
