-- ===== src/Analysis/Function.antt =====
-- include/binaryatlas/analysis: basic_block.hpp, function.hpp, metrics.hpp, analysis_result.hpp and
-- the options of recovery.hpp. A confidence is kept in hundredths; the average degree is kept as
-- the two numbers that the source divides.
use binary_atlas.Prelude.{ℕ, Bool, Option, List, [], ◌∷◌, ◌++◌}
use binary_atlas.Prelude.Text.{Text}
use binary_atlas.Core.Types.{Address, BlockEdgeType}

pub record BlockEdge : Type 0 where
  pub source : Address
  pub target : Option Address
  pub type : BlockEdgeType
  pub intra_function : Bool

pub record CallSite : Type 0 where
  pub instruction_address : Address
  pub target : Option Address
  pub indirect : Bool
  pub resolved : Bool
  pub operand_text : Text

pub record BasicBlock : Type 0 where
  pub start : Address
  pub end : Address
  pub instruction_addresses : List Address
  pub outgoing_edges : List BlockEdge
  pub partial : Bool

pub record FunctionSeed : Type 0 where
  pub address : Address
  pub source : Text
  pub label : Text
  pub confidence : ℕ

-- A quotient of doubles: the numbers that are divided.
pub record Ratio : Type 0 where
  pub numerator : ℕ
  pub denominator : ℕ

pub record FunctionMetrics : Type 0 where
  pub block_count : ℕ
  pub edge_count : ℕ
  pub instruction_count : ℕ
  pub size_bytes : ℕ
  pub loop_count : ℕ
  pub connected_components : ℕ
  pub max_in_degree : ℕ
  pub max_out_degree : ℕ
  pub average_out_degree : Ratio
  pub call_out_degree : ℕ
  pub cyclomatic_complexity : ℕ

pub record RecoveredFunction : Type 0 where
  pub entry : Address
  pub name : Text
  pub seed_reasons : List FunctionSeed
  pub blocks : List BasicBlock
  pub call_sites : List CallSite
  pub callees : List Address
  pub referenced_strings : List Text
  pub metrics : FunctionMetrics
  pub partial : Bool
  pub ambiguous : Bool

pub record CallGraphEdge : Type 0 where
  pub source : Address
  pub target : Address
  pub external : Bool
  pub target_name : Text

pub record ProgramMetrics : Type 0 where
  pub function_count : ℕ
  pub block_count : ℕ
  pub instruction_count : ℕ
  pub call_edge_count : ℕ
  pub looping_function_count : ℕ
  pub dispatcher_candidate_count : ℕ

pub record ProgramAnalysis : Type 0 where
  pub functions : List RecoveredFunction
  pub call_graph : List CallGraphEdge
  pub metrics : ProgramMetrics
  pub unused_seeds : List FunctionSeed

pub record AnalysisOptions : Type 0 where
  pub enable_prologue_heuristics : Bool
  pub high_fanout_threshold : ℕ
  pub complexity_threshold : ℕ

-- All instruction addresses of the blocks of a function.
abbrev pub addresses_of : List BasicBlock → List Address
addresses_of [] = []
addresses_of (b ∷ bs) = b.instruction_addresses ++ addresses_of bs

abbrev pub function_addresses : RecoveredFunction → List Address
function_addresses f = addresses_of f.blocks

-- All edges that leave the blocks of a function.
abbrev pub edges_of : List BasicBlock → List BlockEdge
edges_of [] = []
edges_of (b ∷ bs) = b.outgoing_edges ++ edges_of bs
