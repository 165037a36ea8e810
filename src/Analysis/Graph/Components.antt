-- ===== src/Analysis/Graph/Components.antt =====
-- `connectedComponentCount`: the components of the graph without the directions of its edges.
use binary_atlas.Prelude.{ℕ, zero, suc, ◌+◌, List, [], ◌∷◌, ◌++◌, if◌then◌else◌, length, value_or}
use binary_atlas.Prelude.Sets.{contains, insert, map_find, map_put, map_emplace, keys}
use binary_atlas.Core.Types.{Address}
use binary_atlas.Analysis.Graph.{AdjacencyList}

-- `undirected[node].push_back(edge)`
abbrev pub add_neighbour : Address → Address → AdjacencyList → AdjacencyList
add_neighbour node edge m = map_put node (value_or (map_find node m) [] ++ edge ∷ []) m

unfoldable pub add_edges : Address → List Address → AdjacencyList → AdjacencyList
unfolding map_put
add_edges node [] m = m
add_edges node (edge ∷ edges) m =
    add_edges node edges (add_neighbour edge node (add_neighbour node edge m))

-- `undirected[node];` makes an empty entry where there is none.
unfoldable pub make_undirected : AdjacencyList → AdjacencyList → AdjacencyList
unfolding add_edges map_emplace
make_undirected [] m = m
make_undirected ((node, edges) ∷ g) m =
    make_undirected g (add_edges node edges (map_emplace node [] m))

-- The variables of the flood of one component.
pub record Flood : Type 0 where
  pub visited : List Address
  pub stack : List Address

unfoldable pub visit_neighbours : List Address → Flood → Flood
unfolding insert
visit_neighbours [] s = s
visit_neighbours (v ∷ vs) s = visit_neighbours vs (
    if contains v s.visited
    then s
    else record { visited = insert v s.visited; stack = v ∷ s.stack })

-- A node is pushed once, when it is marked; so the number of nodes is fuel enough.
unfoldable pub flood : AdjacencyList → ℕ → Flood → Flood
unfolding visit_neighbours
flood m zero s = s
flood m (suc fuel) s = elim s.stack [
  | [] ↦ s
  | current ∷ rest ↦
      flood m fuel (visit_neighbours (value_or (map_find current m) []) (record s { stack = rest }))
]

unfoldable pub count_components : AdjacencyList → List Address → List Address → ℕ → ℕ
unfolding flood
count_components m [] visited count = count
count_components m (node ∷ nodes) visited count =
    let seen = contains node visited in
    let flooded =
      flood m (length m + 1) (record { visited = insert node visited; stack = node ∷ [] }) in
    count_components m nodes (if seen then visited else flooded.visited)
      (if seen then count else count + 1)

-- The nodes are the keys of the map, which is in ascending order.
unfoldable pub connected_component_count : AdjacencyList → ℕ
unfolding make_undirected count_components
connected_component_count g = let m = make_undirected g [] in count_components m (keys m) [] 0
