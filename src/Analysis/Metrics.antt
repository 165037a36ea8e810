-- ===== src/Analysis/Metrics.antt =====
-- src/analysis/metrics.cpp. Counts are `std::size_t` values and taken without overflow.
pub mod Bounds
use binary_atlas.Prelude.{
  ℕ, zero, suc, ◌+◌, ◌-◌, ◌*◌, Bool, true, false, not, ◌&&◌, ◌||◌, Option, none, some, List, [],
  ◌∷◌, ◌++◌, if◌then◌else◌, length, value_or, is_some, ltb, leb, ◌==◌, max, is_empty,
}
use binary_atlas.Prelude.Int.{ℤ, pos, negsuc, ◌+ℤ◌, ◌-ℤ◌, ltb_ℤ}
use binary_atlas.Prelude.Sets.{contains, map_find, map_put, map_emplace}
use binary_atlas.Prelude.Sort.{sort_by, by_key}
use binary_atlas.Core.Types.{Address, BlockEdgeType}
use binary_atlas.Analysis.Function.{
  BlockEdge, BasicBlock, Ratio, FunctionMetrics, RecoveredFunction, CallGraphEdge, ProgramMetrics,
}
use binary_atlas.Analysis.Graph.{AdjacencyList}
use binary_atlas.Analysis.Graph.Components.{connected_component_count}
use binary_atlas.Analysis.Graph.Tarjan.{tarjan_strongly_connected_components}

-- `edge.target.has_value() && edge.intra_function`, with the target.
abbrev pub internal_target : BlockEdge → Option Address
internal_target e = if e.intra_function then e.target else none

-- `std::unique` and `erase`: of equal neighbours the first stays.
unfoldable pub unique : List Address → List Address
unique [] = []
unique (x ∷ xs) = elim (unique xs) [ [] ↦ x ∷ [] | y ∷ ys ↦ if x == y then y ∷ ys else x ∷ y ∷ ys ]

abbrev pub internal_targets : List BlockEdge → List Address
internal_targets [] = []
internal_targets (e ∷ es) =
    let rest = internal_targets es in elim (internal_target e) [ none ↦ rest | some t ↦ t ∷ rest ]

-- One round of `buildAdjacency`: the targets are appended to those that are there, sorted and
-- made unique.
unfoldable pub add_block : BasicBlock → AdjacencyList → AdjacencyList
unfolding map_put unique
add_block block adjacency =
    map_put block.start
      (unique (
        sort_by (by_key (λ a. a))
          (value_or (map_find block.start adjacency) [] ++ internal_targets block.outgoing_edges)))
      adjacency

unfoldable pub build_adjacency : List BasicBlock → AdjacencyList → AdjacencyList
unfolding add_block
build_adjacency [] adjacency = adjacency
build_adjacency (b ∷ bs) adjacency = build_adjacency bs (add_block b adjacency)

-- The variables of the loops over the blocks and their edges.
pub record Tally : Type 0 where
  pub instruction_count : ℕ
  pub size_bytes : ℕ
  pub internal_edges : ℕ
  pub exit_edges : ℕ
  pub out_degree : ℕ
  pub max_out_degree : ℕ
  pub indegree : List (Address × ℕ)

abbrev pub is_call_fallthrough : BlockEdgeType → Bool
is_call_fallthrough BlockEdgeType.call_fallthrough = true
is_call_fallthrough _ = false

-- An edge, by its target inside the function.
unfoldable pub tally_edge : Option Address → BlockEdge → Tally → Tally
unfolding map_put
tally_edge (some target) e t = record t {
  internal_edges = t.internal_edges + 1;
  out_degree = t.out_degree + 1;
  indegree = map_put target (value_or (map_find target t.indegree) 0 + 1) t.indegree;
}
tally_edge none e t =
    if is_call_fallthrough e.type then t else record t { exit_edges = t.exit_edges + 1 }

unfoldable pub tally_edges : List BlockEdge → Tally → Tally
unfolding tally_edge
tally_edges [] t = t
tally_edges (e ∷ es) t = tally_edges es (tally_edge (internal_target e) e t)

unfoldable pub tally_block : BasicBlock → Tally → Tally
unfolding tally_edges
tally_block b t =
    let t' = tally_edges b.outgoing_edges (record t {
      instruction_count = t.instruction_count + length b.instruction_addresses;
      size_bytes = if leb b.start b.end then t.size_bytes + (b.end - b.start) else t.size_bytes;
      out_degree = 0;
    }) in
    record t' { max_out_degree = max t'.max_out_degree t'.out_degree }

unfoldable pub tally_blocks : List BasicBlock → Tally → Tally
unfolding tally_block
tally_blocks [] t = t
tally_blocks (b ∷ bs) t = tally_blocks bs (tally_block b t)

unfoldable pub max_in_degree : List BasicBlock → List (Address × ℕ) → ℕ → ℕ
max_in_degree [] indegree best = best
max_in_degree (b ∷ bs) indegree best =
    max_in_degree bs indegree (max best (value_or (map_find b.start indegree) 0))

-- A component of several nodes is a loop, and so is one node with an edge to itself.
abbrev pub is_loop : AdjacencyList → List Address → Bool
is_loop adjacency [] = false
is_loop adjacency (a ∷ []) = elim (map_find a adjacency) [
  | none ↦ false
  | some edges ↦ contains a edges
]
is_loop adjacency (a ∷ b ∷ rest) = true

unfoldable pub count_loops : AdjacencyList → List (List Address) → ℕ → ℕ
count_loops adjacency [] count = count
count_loops adjacency (c ∷ cs) count =
    count_loops adjacency cs (if is_loop adjacency c then count + 1 else count)

-- A complexity that is not positive is replaced by 1.
abbrev pub at_least_one : ℤ → ℕ
at_least_one (pos zero) = 1
at_least_one (pos (suc n)) = suc n
at_least_one (negsuc n) = 1

-- edges - nodes + 2 * components, as an `int64_t`.
unfoldable pub cyclomatic : ℕ → ℕ → ℕ → ℕ → ℕ
cyclomatic internal_edges exit_edges block_count components =
    let edges = internal_edges + exit_edges in
    let nodes = block_count + (if ltb 0 exit_edges then 1 else 0) in
    let parts = if components == 0 then 1 else components in
    at_least_one (pos edges -ℤ pos nodes +ℤ pos (2 * parts))

abbrev pub empty_tally : Tally
empty_tally = record {
  instruction_count = 0;
  size_bytes = 0;
  internal_edges = 0;
  exit_edges = 0;
  out_degree = 0;
  max_out_degree = 0;
  indegree = [];
}

unfoldable pub compute_function_metrics : RecoveredFunction → FunctionMetrics
unfolding build_adjacency tally_blocks max_in_degree count_loops cyclomatic
compute_function_metrics function =
    let adjacency = build_adjacency function.blocks [] in
    let t = tally_blocks function.blocks empty_tally in
    let components = if is_empty adjacency then 0 else connected_component_count adjacency in
    record {
      block_count = length function.blocks;
      edge_count = t.internal_edges;
      instruction_count = t.instruction_count;
      size_bytes = t.size_bytes;
      loop_count = count_loops adjacency (tarjan_strongly_connected_components adjacency) 0;
      connected_components = components;
      max_in_degree = max_in_degree function.blocks t.indegree 0;
      max_out_degree = t.max_out_degree;
      average_out_degree =
          if length function.blocks == 0
          then record { numerator = 0; denominator = 1 }
          else record { numerator = t.internal_edges; denominator = length function.blocks };
      call_out_degree = length function.callees;
      cyclomatic_complexity =
          cyclomatic t.internal_edges t.exit_edges (length function.blocks) components;
    }

-- The loop of `computeProgramMetrics`.
unfoldable pub count_functions : List RecoveredFunction → ProgramMetrics → ProgramMetrics
count_functions [] m = m
count_functions (f ∷ fs) m = count_functions fs (record m {
  block_count = m.block_count + f.metrics.block_count;
  instruction_count = m.instruction_count + f.metrics.instruction_count;
  looping_function_count =
      if ltb 0 f.metrics.loop_count then m.looping_function_count + 1 else m.looping_function_count;
  dispatcher_candidate_count =
      if leb 5 f.metrics.max_out_degree || leb 5 f.metrics.call_out_degree
      then m.dispatcher_candidate_count + 1
      else m.dispatcher_candidate_count;
})

unfoldable pub compute_program_metrics :
    List RecoveredFunction → List CallGraphEdge → ProgramMetrics
unfolding count_functions
compute_program_metrics functions call_graph = count_functions functions (record {
  function_count = length functions;
  block_count = 0;
  instruction_count = 0;
  call_edge_count = length call_graph;
  looping_function_count = 0;
  dispatcher_candidate_count = 0;
})
