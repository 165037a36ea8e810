-- ===== src/Tests/Graph.antt =====
-- A graph with a cycle and an unreachable node.
use binary_atlas.Prelude.{◌≡◌, refl, ◌↔◌, [], ◌∷◌, In, Distinct}
use binary_atlas.Prelude.Sets.{insert}
use binary_atlas.Core.Types.{Address}
use binary_atlas.Analysis.Graph.{AdjacencyList, depth_first_reachable}
use binary_atlas.Analysis.Graph.Walk.{Reach}
use binary_atlas.Analysis.Graph.Reachable.{depth_first_reachable_lem}

abbrev sample_graph : AdjacencyList
sample_graph = (1, 2 ∷ 3 ∷ []) ∷ (2, 1 ∷ []) ∷ (3, 9 ∷ []) ∷ (4, 1 ∷ []) ∷ []

depth_first_reachable_runs : depth_first_reachable sample_graph 1 ≡ 1 ∷ 2 ∷ 3 ∷ 9 ∷ []
unfolding depth_first_reachable insert
depth_first_reachable_runs = refl

depth_first_reachable_lem_example :
    Distinct (depth_first_reachable sample_graph 1)
    × ((v : Address) → In v (depth_first_reachable sample_graph 1) ↔ Reach sample_graph 1 v)
depth_first_reachable_lem_example = depth_first_reachable_lem sample_graph 1
