-- ===== src/Heuristics/Detectors.antt =====
-- src/heuristics/detector.cpp: the findings that `HeuristicDetector::analyze` makes, one detector each.
use binary_atlas.Prelude.{
  ℕ, ◌+◌, ◌-◌, ◌*◌, Bool, not, ◌&&◌, ◌||◌, none, some, List, [], ◌∷◌, ◌++◌, leb, ltb, max, map,
  length, is_empty, if◌then◌else◌,
}
use binary_atlas.Prelude.Text.{Text, lit}
use binary_atlas.Util.Strings.{icontains, decimal}
use binary_atlas.Core.Types.{Symbol, ExtractedString}
use binary_atlas.Core.Image.{BinaryImage}
use binary_atlas.Disasm.Index.{DisassemblyResult}
use binary_atlas.Analysis.Function.{CallSite, RecoveredFunction}
use binary_atlas.Heuristics.Finding.{HeuristicFinding, HeuristicOptions, clamp_confidence}
use binary_atlas.Heuristics.Function.{
  has_indirect_dispatch_shape, indirect_count, unresolved_indirect_jump_count,
}

-- The names of the symbols that have one.
abbrev pub symbol_names : List Symbol → List Text
symbol_names [] = []
symbol_names (s ∷ ss) =
    let rest = symbol_names ss in if not (is_empty s.name) then s.name ∷ rest else rest

abbrev pub binary_text_features : BinaryImage → List Text
binary_text_features image =
    image.imports
    ++ (symbol_names image.symbols
        ++ map (λ (x : ExtractedString). x.value) image.extracted_strings)

abbrev pub binary_finding : Text → ℕ → List Text → Text → HeuristicFinding
binary_finding category confidence evidence explanation = record {
  category = category;
  address = none;
  function = none;
  confidence = clamp_confidence confidence;
  evidence = evidence;
  explanation = explanation;
}

abbrev pub function_finding : RecoveredFunction → Text → ℕ → List Text → Text → HeuristicFinding
function_finding f category confidence evidence explanation = record {
  category = category;
  address = some f.entry;
  function = some f.entry;
  confidence = clamp_confidence confidence;
  evidence = evidence;
  explanation = explanation;
}

unfoldable pub binary_engine : List Text → List HeuristicFinding
unfolding clamp_confidence
binary_engine matches =
    if is_empty matches
    then []
    else binary_finding (lit "candidate_engine_fingerprint") (45 + 10 * length matches) matches (
        lit
          "Binary-level symbols or embedded strings match known engine identifiers. This is a coarse fingerprint rather than a definitive identification.")
      ∷ []

unfoldable pub binary_vr : List Text → List HeuristicFinding
unfolding clamp_confidence
binary_vr matches =
    if is_empty matches
    then []
    else binary_finding (lit "candidate_vr_runtime_hook") (40 + 10 * length matches) matches (
        lit
          "Binary-level strings or symbols match VR runtime terminology. This is useful triage context, but the specific runtime touch points still need manual confirmation.")
      ∷ []

abbrev pub name_evidence : RecoveredFunction → Text
name_evidence f = lit "function=" ++ f.name

abbrev pub block_evidence : RecoveredFunction → Text
block_evidence f = lit "blocks=" ++ decimal f.metrics.block_count

unfoldable pub high_complexity : HeuristicOptions → RecoveredFunction → List HeuristicFinding
unfolding clamp_confidence decimal
high_complexity options f =
    if leb options.high_complexity_threshold f.metrics.cyclomatic_complexity
    then function_finding f (lit "high_complexity_function")
        (50 + 4 * (f.metrics.cyclomatic_complexity - options.high_complexity_threshold))
        (name_evidence f
          ∷ (lit "cyclomatic_complexity=" ++ decimal f.metrics.cyclomatic_complexity)
          ∷ block_evidence f
          ∷ [])
        (lit
          "The recovered control-flow graph exceeds the configured complexity threshold and is worth prioritizing during manual review.")
      ∷ []
    else []

unfoldable pub dispatcher_like : HeuristicOptions → RecoveredFunction → List HeuristicFinding
unfolding clamp_confidence decimal
dispatcher_like options f =
    if leb options.dispatcher_out_degree_threshold f.metrics.max_out_degree
      || leb options.dispatcher_out_degree_threshold f.metrics.call_out_degree
    then function_finding f (lit "dispatcher_like_function")
        (55
          + 5
            * (max f.metrics.max_out_degree f.metrics.call_out_degree
                - options.dispatcher_out_degree_threshold))
        (name_evidence f
          ∷ (lit "max_block_out_degree=" ++ decimal f.metrics.max_out_degree)
          ∷ (lit "call_out_degree=" ++ decimal f.metrics.call_out_degree)
          ∷ [])
        (lit
          "This function fans out to many successors or callees, which is a common dispatcher or command routing shape.")
      ∷ []
    else []

abbrev pub indirect_calls : List CallSite → List Text
indirect_calls [] = []
indirect_calls (s ∷ ss) =
    let rest = indirect_calls ss in
    if s.indirect then (lit "indirect_call=" ++ s.operand_text) ∷ rest else rest

unfoldable pub virtual_dispatch :
    DisassemblyResult → Bool → RecoveredFunction → List HeuristicFinding
unfolding clamp_confidence has_indirect_dispatch_shape
virtual_dispatch d has_vtable_region f =
    if has_indirect_dispatch_shape f d
    then function_finding f (lit "candidate_virtual_dispatch")
        (55 + 8 * indirect_count f.call_sites + (if has_vtable_region then 10 else 0))
        (name_evidence f ∷ indirect_calls f.call_sites)
        (lit
          "The function performs indirect memory-based calls through non-RIP operands. That pattern often appears in C++ virtual dispatch or callback tables, but can also come from generic function pointers.")
      ∷ []
    else []

unfoldable pub jump_table : RecoveredFunction → List HeuristicFinding
unfolding clamp_confidence decimal unresolved_indirect_jump_count
jump_table f =
    let jump_table_edges = unresolved_indirect_jump_count f.blocks in
    if ltb 0 jump_table_edges && leb 4 f.metrics.block_count
    then function_finding f (lit "candidate_jump_table") (45 + 10 * jump_table_edges)
        (name_evidence f
          ∷ (lit "unresolved_indirect_edges=" ++ decimal jump_table_edges)
          ∷ block_evidence f
          ∷ [])
        (lit
          "An indirect jump terminator was recovered inside a multi-block function. This often corresponds to a switch jump table, but unresolved dispatchers and hand-written assembly can look similar.")
      ∷ []
    else []

abbrev pub hookish_name : Text → Bool
hookish_name name =
    icontains name (lit "present")
    || icontains name (lit "swap")
    || icontains name (lit "hook")
    || icontains name (lit "render")

unfoldable pub render_hook : List Text → RecoveredFunction → List HeuristicFinding
unfolding clamp_confidence icontains
render_hook matches f =
    if is_empty matches
    then []
    else function_finding f (lit "candidate_render_api_hook")
        (45 + 8 * length matches + (if hookish_name f.name then 15 else 0))
        (matches ++ name_evidence f ∷ [])
        (lit
          "Function-local names or referenced strings match graphics-related APIs or terminology. This is suggestive of render-path integration or hook-adjacent logic, not proof of a stable hook point.")
      ∷ []

unfoldable pub function_vr : List Text → RecoveredFunction → List HeuristicFinding
unfolding clamp_confidence
function_vr matches f =
    if is_empty matches
    then []
    else function_finding f (lit "candidate_vr_runtime_hook") (45 + 10 * length matches)
        (matches ++ name_evidence f ∷ [])
        (lit
          "Function-local strings or names match VR runtime terminology. This is a heuristic signal for XR integration or interception points.")
      ∷ []

unfoldable pub function_engine : List Text → RecoveredFunction → List HeuristicFinding
unfolding clamp_confidence
function_engine matches f =
    if is_empty matches
    then []
    else function_finding f (lit "candidate_engine_fingerprint") (35 + 10 * length matches)
        (matches ++ name_evidence f ∷ [])
        (lit
          "The function references engine-related strings or symbols. The match is useful for triage but may be indirect or incidental.")
      ∷ []
