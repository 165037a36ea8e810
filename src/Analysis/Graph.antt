-- ===== src/Analysis/Graph.antt =====
-- src/analysis/graph_algorithms.cpp. An `AdjacencyList` is the list of the table's entries, in some
-- order; a lookup reads the first entry of its key.
pub mod Components
pub mod Tarjan
pub mod Walk
pub mod Reachable
use binary_atlas.Prelude.{
  ℕ, zero, suc, ◌+◌, ◌<◌, ◌≡◌, Bool, true, false, Option, none, some, List, [], ◌∷◌, ◌++◌, reverse,
  if◌then◌else◌, length, ◌==◌,
}
use binary_atlas.Prelude.Sets.{contains, insert, map_find, keys}
use binary_atlas.Core.Types.{Address}

abbrev pub AdjacencyList : Type 0
AdjacencyList = List (Address × List Address)

-- `for (edge = rbegin; edge != rend; ++edge) stack.push_back(*edge)`; the head of a list is the back
-- of the vector.
abbrev pub push_all : List Address → List Address → List Address
push_all [] stack = stack
push_all (x ∷ xs) stack = push_all xs (x ∷ stack)

-- The variables of `depthFirstReachable`.
pub record Search : Type 0 where
  pub order : List Address
  pub visited : List Address
  pub stack : List Address

-- One round, after `node` was popped.
unfoldable pub dfs_step : AdjacencyList → Search → Address → List Address → Search
dfs_step g s node rest = if contains node s.visited then record s { stack = rest } else record {
  order = s.order ++ node ∷ [];
  visited = insert node s.visited;
  stack = elim (map_find node g) [ none ↦ rest | some edges ↦ push_all (reverse edges) rest ];
}

unfoldable pub dfs_loop : AdjacencyList → ℕ → Search → Search
unfolding dfs_step
dfs_loop g zero s = s
dfs_loop g (suc fuel) s = elim s.stack [
  | [] ↦ s
  | node ∷ rest ↦ dfs_loop g fuel (dfs_step g s node rest)
]

-- The number of edges. Each round takes a node from the stack, and an entry puts its edges there
-- once.
unfoldable pub edge_total : AdjacencyList → ℕ
edge_total [] = 0
edge_total ((node, edges) ∷ g) = length edges + edge_total g

unfoldable pub depth_first_reachable : AdjacencyList → Address → List Address
unfolding dfs_loop edge_total
depth_first_reachable g start =
    (dfs_loop g (edge_total g + 1) (record { order = []; visited = []; stack = start ∷ [] })).order
