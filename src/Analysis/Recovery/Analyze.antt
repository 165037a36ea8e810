-- ===== src/Analysis/Recovery/Analyze.antt =====
-- `ProgramAnalyzer::analyze`: functions are recovered from the seeds in their order, and a function
-- that shares an instruction with an earlier one is dropped.
pub mod Addresses
pub mod Disjoint
pub mod Total
pub mod Ordered
pub mod Graphs
use binary_atlas.Prelude.{
  ℕ, Bool, true, false, Option, none, some, List, [], ◌∷◌, ◌++◌, if◌then◌else◌, is_empty, any,
  ◌>>=?◌, map,
}
use binary_atlas.Prelude.Sets.{contains, insert, map_find}
use binary_atlas.Prelude.Sort.{sort_by, by_key}
use binary_atlas.Prelude.Text.{Text, lit}
use binary_atlas.Core.Types.{Address}
use binary_atlas.Core.Error.{Error, analysis, Result, success, failure}
use binary_atlas.Core.Image.{BinaryImage}
use binary_atlas.Disasm.Index.{DisassemblyResult}
use binary_atlas.Analysis.Function.{
  FunctionSeed, RecoveredFunction, ProgramAnalysis, AnalysisOptions,
}
use binary_atlas.Analysis.Metrics.{compute_function_metrics, compute_program_metrics}
use binary_atlas.Analysis.Recovery.Seeds.{
  SeedRecord, collect_seeds, seed_reason_map, function_symbol_names,
}
use binary_atlas.Analysis.Recovery.Function.{RecoveredState, recover_function}
use binary_atlas.Analysis.Recovery.CallGraph.{build_call_graph}

-- `s.insert(first, last)`
unfoldable pub insert_all : List Address → List Address → List Address
unfolding insert
insert_all [] s = s
insert_all (a ∷ rest) s = insert_all rest (insert a s)

unfoldable pub hard_boundaries : List SeedRecord → List Address → List Address
unfolding insert
hard_boundaries [] s = s
hard_boundaries (r ∷ rs) s =
    hard_boundaries rs (if r.hard_boundary then insert r.seed.address s else s)

-- What the loop over the seeds keeps.
pub record Claims : Type 0 where
  pub claimed : List Address
  pub functions : List RecoveredFunction
  pub unused : List FunctionSeed

abbrev pub no_claims : Claims
no_claims = record { claimed = []; functions = []; unused = [] }

abbrev pub leave_unused : FunctionSeed → Claims → Claims
leave_unused seed c = record c { unused = c.unused ++ seed ∷ [] }

-- The end of a round: a function without blocks, or one that overlaps, leaves its seed unused.
unfoldable pub claim : FunctionSeed → RecoveredState → Claims → Claims
unfolding insert_all
claim seed recovered c =
    if is_empty recovered.function.blocks
    then leave_unused seed c
    else if any (λ a. contains a c.claimed) recovered.instructions
    then leave_unused seed c
    else record c {
      claimed = insert_all recovered.instructions c.claimed;
      functions = c.functions ++ recovered.function ∷ [];
    }

module _ (image : BinaryImage) (d : DisassemblyResult) (hard : List Address)
    (reasons : List (Address × List FunctionSeed)) (names : List (Address × Text)) where
  -- A round of the loop. `reasons.at` throws where there is no entry, which is `none`.
  unfoldable pub claim_seed : FunctionSeed → Claims → Option Claims
  unfolding recover_function claim
  claim_seed seed c =
      if contains seed.address c.claimed
      then some (leave_unused seed c)
      else map_find seed.address reasons >>=? λ why.
          some (claim seed (recover_function seed.address why image d hard names) c)

  unfoldable pub claim_seeds : List SeedRecord → Claims → Option Claims
  unfolding claim_seed
  claim_seeds [] c = some c
  claim_seeds (r ∷ rs) c = claim_seed r.seed c >>=? claim_seeds rs

abbrev pub with_metrics : RecoveredFunction → RecoveredFunction
with_metrics f = record f { metrics = compute_function_metrics f }

-- The rest of `analyze` behind the loop.
unfoldable pub summarize : BinaryImage → Claims → ProgramAnalysis
unfolding sort_by by_key build_call_graph compute_function_metrics compute_program_metrics
summarize image c =
    let sorted = sort_by (by_key (λ f. f.entry)) c.functions in
    let graph = build_call_graph image sorted in
    let functions = map with_metrics sorted in
    record {
      functions = functions;
      call_graph = graph;
      metrics = compute_program_metrics functions graph;
      unused_seeds = c.unused;
    }

-- `none` is an exception from `reasons.at`.
unfoldable pub analyze :
    BinaryImage → DisassemblyResult → AnalysisOptions → Option (Result ProgramAnalysis)
unfolding collect_seeds seed_reason_map function_symbol_names hard_boundaries claim_seeds summarize
analyze image d options =
    if is_empty d.instructions
    then some (failure (analysis (lit "analysis requires disassembly input")))
    else let seeds = collect_seeds image d options.enable_prologue_heuristics in
      claim_seeds image d (hard_boundaries seeds []) (seed_reason_map seeds [])
        (function_symbol_names image.symbols []) seeds no_claims
      >>=? λ c. some (success (summarize image c))
