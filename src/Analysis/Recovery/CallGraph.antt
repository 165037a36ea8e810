-- ===== src/Analysis/Recovery/CallGraph.antt =====
-- `buildCallGraph`.
pub mod Calls
pub mod Edges
use binary_atlas.Prelude.{
  ℕ, Bool, true, false, not, ◌&&◌, ◌||◌, Option, none, some, List, [], ◌∷◌, ◌++◌, if◌then◌else◌,
  is_empty, any, find_if, ltb, ◌==◌, ◌>>=?◌,
}
use binary_atlas.Prelude.Sets.{map_find, map_emplace}
use binary_atlas.Prelude.Sort.{sort_by}
use binary_atlas.Prelude.Text.{Text, str_eq, str_lt}
use binary_atlas.Core.Types.{Address, Symbol}
use binary_atlas.Core.Image.{BinaryImage}
use binary_atlas.Analysis.Function.{CallSite, RecoveredFunction, CallGraphEdge}

-- `by_entry`; a function is kept as its name, which is all that is read of it.
unfoldable pub names_by_entry :
    List RecoveredFunction → List (Address × Text) → List (Address × Text)
unfolding map_emplace
names_by_entry [] names = names
names_by_entry (f ∷ fs) names = names_by_entry fs (map_emplace f.entry f.name names)

abbrev pub bool_eq : Bool → Bool → Bool
bool_eq true b = b
bool_eq false b = not b

-- The fields of an edge are the entries of the tuples in `unique_edges`.
unfoldable pub same_edge : CallGraphEdge → CallGraphEdge → Bool
unfolding str_eq
same_edge left right =
    left.source == right.source
    && left.target == right.target
    && bool_eq left.external right.external
    && str_eq left.target_name right.target_name

-- `unique_edges` holds the tuples of the edges so far, since both grow together.
unfoldable pub push_unique : CallGraphEdge → List CallGraphEdge → List CallGraphEdge
unfolding same_edge
push_unique e edges = if any (same_edge e) edges then edges else edges ++ e ∷ []

unfoldable pub push_edge : Option CallGraphEdge → List CallGraphEdge → List CallGraphEdge
unfolding push_unique
push_edge none edges = edges
push_edge (some e) edges = push_unique e edges

abbrev pub is_named : Address → Symbol → Bool
is_named target symbol = symbol.address == target && not (is_empty symbol.name)

module _ (image : BinaryImage) (by_entry : List (Address × Text)) where
  -- The edge of a call with a target: to a function, or to a symbol.
  unfoldable pub call_edge : Address → Address → Option CallGraphEdge
  call_edge source target = elim (map_find target by_entry) [
    | some name ↦
        some (record { source = source; target = target; external = false; target_name = name })
    | none ↦ elim (find_if (is_named target) image.symbols) [
      | none ↦ none
      | some symbol ↦
          some (record {
            source = source;
            target = target;
            external = true;
            target_name = symbol.name;
          })
    ]
  ]

  -- What a call adds: nothing where the target is not known, or nothing is there.
  unfoldable pub site_edge : Address → CallSite → Option CallGraphEdge
  unfolding call_edge
  site_edge source site = site.target >>=? call_edge source

  unfoldable pub add_call_site : Address → CallSite → List CallGraphEdge → List CallGraphEdge
  unfolding site_edge push_edge
  add_call_site source site edges = push_edge (site_edge source site) edges

  unfoldable pub add_call_sites : Address → List CallSite → List CallGraphEdge → List CallGraphEdge
  unfolding add_call_site
  add_call_sites source [] edges = edges
  add_call_sites source (site ∷ sites) edges =
      add_call_sites source sites (add_call_site source site edges)

  unfoldable pub add_functions : List RecoveredFunction → List CallGraphEdge → List CallGraphEdge
  unfolding add_call_sites
  add_functions [] edges = edges
  add_functions (f ∷ fs) edges = add_functions fs (add_call_sites f.entry f.call_sites edges)

-- The comparator of the sort.
unfoldable pub edge_less : CallGraphEdge → CallGraphEdge → Bool
unfolding str_lt
edge_less left right =
    if left.source == right.source
    then if left.target == right.target
      then str_lt left.target_name right.target_name
      else ltb left.target right.target
    else ltb left.source right.source

unfoldable pub build_call_graph : BinaryImage → List RecoveredFunction → List CallGraphEdge
unfolding names_by_entry add_functions edge_less sort_by
build_call_graph image functions =
    sort_by edge_less (add_functions image (names_by_entry functions []) functions [])
