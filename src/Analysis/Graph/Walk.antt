-- ===== src/Analysis/Graph/Walk.antt =====
-- Walks along the edges of an adjacency list.
use binary_atlas.Prelude.{some, none, List, [], In}
use binary_atlas.Prelude.Sets.{map_find}
use binary_atlas.Core.Types.{Address}
use binary_atlas.Analysis.Graph.{AdjacencyList}

-- The targets of the edges out of a node; a node that is no key has none.
abbrev pub targets : AdjacencyList → Address → List Address
targets g u = elim (map_find u g) [ none ↦ [] | some edges ↦ edges ]

abbrev pub Edge : AdjacencyList → Address → Address → Type 0
Edge g u v = In v (targets g u)

pub data Reach (g : AdjacencyList) (start : Address) : Address → Type 0 where
  here : Reach g start start
  step : {u v : Address} → Reach g start u → Edge g u v → Reach g start v
