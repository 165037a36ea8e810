-- ===== src/Analysis/Graph/Tarjan.antt =====
-- `tarjanStronglyConnectedComponents`.
use binary_atlas.Prelude.{
  ℕ, zero, suc, ◌+◌, not, List, [], ◌∷◌, ◌++◌, if◌then◌else◌, length, value_or, is_some, ◌==◌, min,
  keep_if,
}
use binary_atlas.Prelude.Sets.{contains, insert, map_find, map_put, keys}
use binary_atlas.Prelude.Sort.{sort_by, by_key}
use binary_atlas.Core.Types.{Address}
use binary_atlas.Analysis.Graph.{AdjacencyList, edge_total}

-- The variables that `strong_connect` captures; the head of the stack is the back of the vector.
pub record Tarjan : Type 0 where
  pub indices : List (Address × ℕ)
  pub lowlinks : List (Address × ℕ)
  pub on_stack : List Address
  pub stack : List Address
  pub next_index : ℕ
  pub components : List (List Address)

abbrev pub index_of : Address → List (Address × ℕ) → ℕ
index_of node m = value_or (map_find node m) 0

-- `lowlinks[node] = std::min(lowlinks[node], bound)`
abbrev pub lower : Address → ℕ → Tarjan → Tarjan
lower node bound s = record s {
  lowlinks = map_put node (min (index_of node s.lowlinks) bound) s.lowlinks;
}

unfoldable pub open_node : Address → Tarjan → Tarjan
unfolding map_put insert
open_node node s = record {
  indices = map_put node s.next_index s.indices;
  lowlinks = map_put node s.next_index s.lowlinks;
  on_stack = insert node s.on_stack;
  stack = node ∷ s.stack;
  next_index = s.next_index + 1;
  components = s.components;
}

-- The loop over the successors; `connect` is the recursive call.
unfoldable pub visit_successors :
    (Address → Tarjan → Tarjan) → Address → List Address → Tarjan → Tarjan
unfolding map_put
visit_successors connect node [] s = s
visit_successors connect node (v ∷ vs) s =
    let connected = connect v s in
    let entered = lower node (index_of v connected.lowlinks) connected in
    visit_successors connect node vs (
      if not (is_some (map_find v s.indices))
      then entered
      else if contains v s.on_stack
      then lower node (index_of v s.indices) s
      else s)

abbrev pub erase : Address → List Address → List Address
erase a xs = keep_if (λ b. not (b == a)) xs

-- The loop that pops the nodes of a component up to `node`.
unfoldable pub pop_component :
    Address → List Address → List Address → List Address → Tarjan → Tarjan
pop_component node [] on_stack component s = record s {
  stack = [];
  on_stack = on_stack;
  components = s.components ++ sort_by (by_key (λ a. a)) component ∷ [];
}
pop_component node (current ∷ rest) on_stack component s =
    let popped = pop_component node rest (erase current on_stack) (component ++ current ∷ []) s in
    if current == node
    then record s {
      stack = rest;
      on_stack = erase current on_stack;
      components = s.components ++ sort_by (by_key (λ a. a)) (component ++ current ∷ []) ∷ [];
    }
    else popped

unfoldable pub close_node : Address → Tarjan → Tarjan
unfolding pop_component
close_node node s =
    let closed = pop_component node s.stack s.on_stack [] s in
    if index_of node s.lowlinks == index_of node s.indices then closed else s

-- The depth of the recursion is at most the number of nodes, each of which is opened once.
unfoldable pub strong_connect : AdjacencyList → ℕ → Address → Tarjan → Tarjan
unfolding open_node visit_successors close_node
strong_connect g zero node s = s
strong_connect g (suc fuel) node s = close_node node (
    visit_successors (λ v t. strong_connect g fuel v t) node (value_or (map_find node g) [])
      (open_node node s))

unfoldable pub connect_all : AdjacencyList → List Address → Tarjan → Tarjan
unfolding strong_connect edge_total
connect_all g [] s = s
connect_all g (node ∷ nodes) s =
    let connected = strong_connect g (length g + edge_total g + 1) node s in
    connect_all g nodes (if is_some (map_find node s.indices) then s else connected)

abbrev pub front : List Address → Address
front [] = 0
front (a ∷ as') = a

unfoldable pub tarjan_strongly_connected_components : AdjacencyList → List (List Address)
unfolding connect_all
tarjan_strongly_connected_components g =
    sort_by (by_key front)
      (connect_all g (sort_by (by_key (λ a. a)) (keys g)) (record {
        indices = [];
        lowlinks = [];
        on_stack = [];
        stack = [];
        next_index = 0;
        components = [];
      })).components
