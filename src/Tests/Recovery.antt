-- ===== src/Tests/Recovery.antt =====
-- Two functions: a conditional jump over a call, and what the call goes to.
use binary_atlas.Prelude.{
  ◌+◌, ◌-◌, ◌*◌, ◌≤◌, max, min, count_if, is_empty, ap, ◌≡◌, refl, ◌↔◌, ◌⊎◌, inl, inr, true, false,
  Option, none, some, List, [], ◌∷◌, map, is_some, length, In, All, All-In, Distinct, arith,
}
use binary_atlas.Prelude.Text.{lit}
use binary_atlas.Core.Types.{Address, InstructionFlowKind}
use binary_atlas.Core.Error.{success, failure, analysis}
use binary_atlas.Core.Image.{is_executable_address}
use binary_atlas.Prelude.Sets.{upper_bound, map_find, map_put, keys, Ascending}
use binary_atlas.Prelude.Order.{Ordered}
use binary_atlas.Disasm.Instruction.{Instruction}
use binary_atlas.Disasm.Index.{DisassemblyResult, empty_result, find, add_all}
use binary_atlas.Disasm.Index.Invariant.{
  IsIndexed, empty_result-IsIndexed, add_all-IsIndexed, find_parts,
}
use binary_atlas.Analysis.Function.{
  AnalysisOptions, ProgramAnalysis, RecoveredFunction, function_addresses, addresses_of, edges_of,
  BasicBlock, CallGraphEdge,
}
use binary_atlas.Analysis.Recovery.Walk.{Recovery, recover_blocks}
use binary_atlas.Analysis.Recovery.Walk.Ends.{IsWalkable}
use binary_atlas.Analysis.Recovery.Analyze.{analyze}
use binary_atlas.Util.Strings.{format_hex}
use binary_atlas.Tests.Image.{sample_image}
use binary_atlas.Analysis.Metrics.{compute_function_metrics}
use binary_atlas.Analysis.Metrics.Bounds.{compute_function_metrics_counts, is_internal, is_exit}
use binary_atlas.Analysis.Recovery.Seeds.{SeedRecord, collect_seeds}
use binary_atlas.Analysis.Recovery.Seeds.Best.{collect_seeds_valid}
use binary_atlas.Analysis.Recovery.Walk.Closed.{recover_blocks_closed, AllJoined, WalkEnds}
use binary_atlas.Analysis.Recovery.Walk.Rounds.{block_addresses}
use binary_atlas.Analysis.Recovery.CallGraph.{build_call_graph}
use binary_atlas.Analysis.Recovery.CallGraph.Edges.{
  EdgeOrder, IsCalled, In-build_call_graph, build_call_graph-Ordered,
}
use binary_atlas.Analysis.Recovery.Analyze.Total.{analyze_total}
use binary_atlas.Analysis.Recovery.Analyze.Disjoint.{analyze_disjoint}
use binary_atlas.Analysis.Recovery.Analyze.Graphs.{IsClosed, analyze-IsClosed}
use binary_atlas.Analysis.Recovery.Analyze.Ordered.{analyze_ordered}

abbrev instruction : Address → InstructionFlowKind → Option Address → Instruction
instruction a kind target = record {
  section_name = lit ".text";
  address = a;
  size = 1;
  bytes = 0x90 ∷ [];
  mnemonic = lit "op";
  operand_text = [];
  groups = [];
  flow_kind = kind;
  branch_target = target;
  memory_references = [];
  invalid = false;
}

abbrev sample_code : List Instruction
sample_code =
    instruction 0x1000 InstructionFlowKind.jump_conditional (some 0x1002)
    ∷ instruction 0x1001 InstructionFlowKind.call_direct (some 0x1003)
    ∷ instruction 0x1002 InstructionFlowKind.return_flow none
    ∷ instruction 0x1003 InstructionFlowKind.return_flow none
    ∷ []

abbrev pub sample : DisassemblyResult
sample = add_all empty_result sample_code

sample-IsIndexed : IsIndexed sample
sample-IsIndexed = add_all-IsIndexed empty_result sample_code empty_result-IsIndexed

sample-instructions : sample.instructions ≡ sample_code
unfolding add_all
sample-instructions = refl

abbrev pub no_hints : AnalysisOptions
no_hints = record {
  enable_prologue_heuristics = true;
  high_fanout_threshold = 5;
  complexity_threshold = 8;
}

pub analyzed : (p : ProgramAnalysis) × (analyze sample_image sample no_hints ≡ some (success p))
unfolding analyze add_all upper_bound find is_executable_address
analyzed = (_, refl)

two_functions : map (λ (f : RecoveredFunction). f.entry) analyzed.0.functions ≡ 0x1000 ∷ 0x1003 ∷ []
unfolding analyzed
two_functions = refl

one_byte : (a : Address) (x : Instruction) → find sample a ≡ some x → x.size ≡ 1
unfolding add_all
one_byte a x h =
    All-In (λ (i : Instruction). i.size ≡ 1) x sample_code (refl, (refl, (refl, (refl, tt))))
      ((find_parts sample a sample-IsIndexed).0 x h).0

sample-IsWalkable : IsWalkable sample
sample-IsWalkable = record {
  indexed = sample-IsIndexed;
  nonempty = λ a x h. omega (arith, one_byte a x h);
  small = λ a x h. omega (arith, one_byte a x h);
}

caller : (f : RecoveredFunction) × In f analyzed.0.functions × In 0x1001 (function_addresses f)
unfolding analyzed
caller = (_, inl refl, inr (inl refl))

pub callee : (f : RecoveredFunction) × In f analyzed.0.functions
unfolding analyzed
callee = (_, inr (inl refl))

pub callee_entry : callee.0.entry ≡ 0x1003
unfolding analyzed callee
callee_entry = refl

caller-callee : ¬ (caller.0 ≡ callee.0)
unfolding analyzed caller callee
caller-callee e = absurd (omega (arith, ap (λ (f : RecoveredFunction). f.entry) e))

analyze_disjoint_example : ¬ In 0x1001 (function_addresses callee.0)
analyze_disjoint_example =
    analyze_disjoint sample_image sample no_hints analyzed.0 caller.0 callee.0 0x1001
      sample-IsWalkable analyzed.1 caller.1 callee.1 caller-callee caller.2

analyze_ordered_example : Ascending (map (λ (f : RecoveredFunction). f.entry) analyzed.0.functions)
analyze_ordered_example = analyze_ordered sample_image sample no_hints analyzed.0 analyzed.1

collect_seeds_valid_example :
    Distinct (map (λ (r : SeedRecord). r.seed.address) (collect_seeds sample_image sample true))
    × All
        (λ (r : SeedRecord).
          (is_executable_address sample_image r.seed.address ≡ true)
          × (is_some (find sample r.seed.address) ≡ true))
        (collect_seeds sample_image sample true)
collect_seeds_valid_example = collect_seeds_valid sample_image sample true

build_call_graph-Ordered_example :
    Distinct (build_call_graph sample_image analyzed.0.functions)
    × Ordered EdgeOrder (build_call_graph sample_image analyzed.0.functions)
build_call_graph-Ordered_example = build_call_graph-Ordered sample_image analyzed.0.functions

abbrev call : CallGraphEdge
call = record { source = 0x1000; target = 0x1003; external = false; target_name = lit "sub_1003" }

In-build_call_graph_example :
    In call (build_call_graph sample_image analyzed.0.functions)
    ↔ IsCalled sample_image analyzed.0.functions call
In-build_call_graph_example = In-build_call_graph sample_image analyzed.0.functions call

call_is_there : In call analyzed.0.call_graph
unfolding analyzed format_hex
call_is_there = inl refl

compute_function_metrics_counts_example :
    ((compute_function_metrics caller.0).block_count ≡ length caller.0.blocks)
    × ((compute_function_metrics caller.0).instruction_count
        ≡ length (addresses_of caller.0.blocks))
    × ((compute_function_metrics caller.0).edge_count
        ≡ count_if is_internal (edges_of caller.0.blocks))
    × ((compute_function_metrics caller.0).max_out_degree
        ≤ (compute_function_metrics caller.0).edge_count)
    × ((compute_function_metrics caller.0).cyclomatic_complexity
        ≡ max 1 (
            count_if is_internal (edges_of caller.0.blocks)
            + count_if is_exit (edges_of caller.0.blocks)
            + 2 * max 1 (compute_function_metrics caller.0).connected_components
            - (length caller.0.blocks + min 1 (count_if is_exit (edges_of caller.0.blocks)))))
compute_function_metrics_counts_example = compute_function_metrics_counts caller.0

analyze_total_example :
    ((is_empty sample.instructions ≡ true)
      × (analyze sample_image sample no_hints
          ≡ some (failure (analysis (lit "analysis requires disassembly input")))))
    ⊎ ((is_empty sample.instructions ≡ false)
        × ((p : ProgramAnalysis) × (analyze sample_image sample no_hints ≡ some (success p))
            × (length p.functions + length p.unused_seeds
                ≡ length (collect_seeds sample_image sample true))))
analyze_total_example = analyze_total sample_image sample no_hints

entry_found : is_some (find sample 0x1000) ≡ true
unfolding find add_all map_put
entry_found = refl

recover_blocks_closed_example :
    ((s : Recovery) (start : Address) (i : Instruction)
      → map_find start s.blocks ≡ none
      → find sample start ≡ some i
      → WalkEnds sample_image sample 0x1000 [] s start i)
    × ((recover_blocks sample_image sample 0x1000 []).pending ≡ [])
    × In 0x1000 (keys (recover_blocks sample_image sample 0x1000 []).blocks)
    × Ascending (keys (recover_blocks sample_image sample 0x1000 []).blocks)
    × All
        (λ (e : Address × BasicBlock). e.1.start ≡ e.0)
        (recover_blocks sample_image sample 0x1000 []).blocks
    × AllJoined sample
        (keys (recover_blocks sample_image sample 0x1000 []).blocks)
        (recover_blocks sample_image sample 0x1000 []).blocks
    × ((a : Address)
        → In a (recover_blocks sample_image sample 0x1000 []).instructions
          ↔ In a (block_addresses (recover_blocks sample_image sample 0x1000 []).blocks))
recover_blocks_closed_example =
    recover_blocks_closed sample_image sample 0x1000 [] sample-IsWalkable entry_found

analyze-IsClosed_example : IsClosed sample caller.0
analyze-IsClosed_example =
    analyze-IsClosed sample_image sample no_hints analyzed.0 caller.0 sample-IsWalkable analyzed.1
      caller.1
