-- ===== src/Heuristics/Detect.antt =====
-- src/heuristics/detector.cpp: `HeuristicDetector::analyze`.
pub mod Grounded
pub mod Categories
pub mod Reported
use binary_atlas.Prelude.{
  ℕ, ◌+◌, ◌-◌, ◌*◌, Bool, true, false, not, ◌&&◌, ◌||◌, Option, none, some, List, [], ◌∷◌, ◌++◌,
  ◌==◌, leb, ltb, max, map, any, length, is_empty, value_or, if◌then◌else◌,
}
use binary_atlas.Prelude.Sort.{sort_by}
use binary_atlas.Prelude.Text.{Text, lit, str_eq, str_lt}
use binary_atlas.Util.Strings.{icontains, decimal}
use binary_atlas.Core.Types.{Address, Symbol, ExtractedString}
use binary_atlas.Core.Image.{BinaryImage}
use binary_atlas.Disasm.Index.{DisassemblyResult}
use binary_atlas.Analysis.Function.{CallSite, RecoveredFunction, ProgramAnalysis}
use binary_atlas.Heuristics.Finding.{
  HeuristicFinding, HeuristicOptions, clamp_confidence, collect_matches,
}
use binary_atlas.Heuristics.Vtable.{detect_vtable_regions}
use binary_atlas.Heuristics.Function.{
  function_text_features, has_indirect_dispatch_shape, indirect_count,
  unresolved_indirect_jump_count,
}
use binary_atlas.Heuristics.Detectors.{
  binary_text_features, binary_engine, binary_vr, high_complexity, dispatcher_like,
  virtual_dispatch, jump_table, render_hook, function_vr, function_engine,
}

module _ (d : DisassemblyResult) (options : HeuristicOptions) (has_vtable_region : Bool) where
  -- A round of the loop over the functions: the findings that it adds, in their order.
  unfoldable pub function_findings : RecoveredFunction → List HeuristicFinding
  unfolding function_text_features collect_matches high_complexity dispatcher_like virtual_dispatch
      jump_table render_hook function_vr function_engine
  function_findings f =
      let features = function_text_features f in
      high_complexity options f
      ++ (dispatcher_like options f
          ++ (virtual_dispatch d has_vtable_region f
              ++ (jump_table f
                  ++ (render_hook (collect_matches features options.graphics_keywords) f
                      ++ (function_vr (collect_matches features options.vr_keywords) f
                          ++ function_engine (collect_matches features options.engine_keywords)
                              f)))))

  unfoldable pub all_function_findings : List RecoveredFunction → List HeuristicFinding
  unfolding function_findings
  all_function_findings [] = []
  all_function_findings (f ∷ fs) = function_findings f ++ all_function_findings fs

-- `left == right` of two optional addresses.
abbrev pub same_address : Option Address → Option Address → Bool
same_address none none = true
same_address none (some b) = false
same_address (some a) none = false
same_address (some a) (some b) = a == b

-- The comparator of the findings.
unfoldable pub finding_less : HeuristicFinding → HeuristicFinding → Bool
unfolding str_eq str_lt
finding_less left right =
    if not (str_eq left.category right.category)
    then str_lt left.category right.category
    else if not (same_address left.function right.function)
    then ltb (value_or left.function 0) (value_or right.function 0)
    else ltb (value_or left.address 0) (value_or right.address 0)

-- The findings before they are sorted.
unfoldable pub unsorted_findings :
    BinaryImage → DisassemblyResult → ProgramAnalysis → HeuristicOptions → List HeuristicFinding
unfolding detect_vtable_regions collect_matches binary_engine binary_vr all_function_findings
unsorted_findings image d analysis options =
    let regions = detect_vtable_regions image in
    let has_vtable_region =
      any (λ (f : HeuristicFinding). str_eq f.category (lit "candidate_vtable_region")) regions in
    let features = binary_text_features image in
    regions
    ++ (binary_engine (collect_matches features options.engine_keywords)
        ++ (binary_vr (collect_matches features options.vr_keywords)
            ++ all_function_findings d options has_vtable_region analysis.functions))

-- `HeuristicDetector::analyze`
unfoldable pub detect :
    BinaryImage → DisassemblyResult → ProgramAnalysis → HeuristicOptions → List HeuristicFinding
unfolding unsorted_findings sort_by finding_less
detect image d analysis options = sort_by finding_less (unsorted_findings image d analysis options)
