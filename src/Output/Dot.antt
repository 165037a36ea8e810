-- ===== src/Output/Dot.antt =====
-- src/graph/dot_exporter.cpp. What a stream holds is the list of the bytes written to it.
use binary_atlas.Prelude.{not, none, some, List, [], ◌∷◌, ◌++◌, length, is_empty, if◌then◌else◌}
use binary_atlas.Prelude.Text.{Text, lit}
use binary_atlas.Util.Strings.{format_hex, decimal}
use binary_atlas.Core.Types.Names.{edge_type_text}
use binary_atlas.Analysis.Function.{
  BlockEdge, BasicBlock, RecoveredFunction, CallGraphEdge, ProgramAnalysis,
}

-- Texts one behind the other, as `stream << a << b` writes them.
abbrev pub written : List Text → Text
written [] = []
written (t ∷ ts) = t ++ written ts

abbrev pub quote : Text
quote = lit "\""

-- A node of a block.
unfoldable pub block_node : BasicBlock → Text
unfolding format_hex decimal
block_node block = written (
    lit "  \""
    ∷ format_hex block.start
    ∷ lit "\" [label=\""
    ∷ format_hex block.start
    ∷ lit "\\ninsns="
    ∷ decimal (length block.instruction_addresses)
    ∷ lit "\"];\n"
    ∷ [])

-- A round of the loop over the edges of a block; an edge without a target writes nothing.
unfoldable pub edge_line : BasicBlock → BlockEdge → Text
unfolding format_hex edge_type_text
edge_line block edge = elim edge.target [
  | none ↦ []
  | some target ↦ written (
      lit "  \""
      ∷ format_hex block.start
      ∷ lit "\" -> \""
      ∷ format_hex target
      ∷ lit "\" [label=\""
      ∷ edge_type_text edge.type
      ∷ quote
      ∷ (if not edge.intra_function then lit ",style=dashed" else [])
      ∷ lit "];\n"
      ∷ [])
]

unfoldable pub block_nodes : List BasicBlock → Text
unfolding block_node
block_nodes [] = []
block_nodes (b ∷ bs) = block_node b ++ block_nodes bs

unfoldable pub edge_lines : BasicBlock → List BlockEdge → Text
unfolding edge_line
edge_lines block [] = []
edge_lines block (e ∷ es) = edge_line block e ++ edge_lines block es

unfoldable pub all_edge_lines : List BasicBlock → Text
unfolding edge_lines
all_edge_lines [] = []
all_edge_lines (b ∷ bs) = edge_lines b b.outgoing_edges ++ all_edge_lines bs

unfoldable pub export_function_cfg : RecoveredFunction → Text
unfolding block_nodes all_edge_lines
export_function_cfg function = written (
    lit "digraph \""
    ∷ function.name
    ∷ lit "_cfg\" {\n"
    ∷ lit "  rankdir=TB;\n"
    ∷ lit "  node [shape=box,fontname=\"Courier\"];\n"
    ∷ block_nodes function.blocks
    ∷ all_edge_lines function.blocks
    ∷ lit "}\n"
    ∷ [])

unfoldable pub function_node : RecoveredFunction → Text
unfolding format_hex
function_node function = written (
    lit "  \""
    ∷ format_hex function.entry
    ∷ lit "\" [label=\""
    ∷ function.name
    ∷ lit "\\n"
    ∷ format_hex function.entry
    ∷ lit "\"];\n"
    ∷ [])

unfoldable pub call_line : CallGraphEdge → Text
unfolding format_hex
call_line edge = written (
    lit "  \""
    ∷ format_hex edge.source
    ∷ lit "\" -> \""
    ∷ format_hex edge.target
    ∷ quote
    ∷ lit " [label=\""
    ∷ (if is_empty edge.target_name then format_hex edge.target else edge.target_name)
    ∷ quote
    ∷ (if edge.external then lit ",style=dashed" else [])
    ∷ lit "];\n"
    ∷ [])

unfoldable pub function_nodes : List RecoveredFunction → Text
unfolding function_node
function_nodes [] = []
function_nodes (f ∷ fs) = function_node f ++ function_nodes fs

unfoldable pub call_lines : List CallGraphEdge → Text
unfolding call_line
call_lines [] = []
call_lines (e ∷ es) = call_line e ++ call_lines es

unfoldable pub export_call_graph : ProgramAnalysis → Text
unfolding function_nodes call_lines
export_call_graph analysis = written (
    lit "digraph \"callgraph\" {\n"
    ∷ lit "  rankdir=LR;\n"
    ∷ lit "  node [shape=box,fontname=\"Courier\"];\n"
    ∷ function_nodes analysis.functions
    ∷ call_lines analysis.call_graph
    ∷ lit "}\n"
    ∷ [])
