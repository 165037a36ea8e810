-- ===== src/Output/TerminalLines.antt =====
-- src/output/terminal_renderer.cpp: what is written for one item. What a stream holds is the list of the
-- bytes written to it.
use binary_atlas.Prelude.{
  ℕ, ◌/◌, ◌%◌, Bool, not, Option, none, some, List, [], ◌∷◌, ◌++◌, ◌==◌, ltb, length, is_empty,
  if◌then◌else◌,
}
use binary_atlas.Prelude.Text.{Text, lit}
use binary_atlas.Util.Strings.{format_hex, decimal}
use binary_atlas.Core.Types.{Section, Symbol}
use binary_atlas.Core.Types.Names.{symbol_type_text, flow_kind_text, edge_type_text}
use binary_atlas.Disasm.Instruction.{Instruction}
use binary_atlas.Analysis.Function.{BlockEdge, BasicBlock, RecoveredFunction, CallGraphEdge}
use binary_atlas.Heuristics.Finding.{HeuristicFinding}
use binary_atlas.Output.Dot.{written}

abbrev pub newline : Text
newline = lit "\n"

abbrev pub yes_no : Bool → Text
yes_no b = if b then lit "yes" else lit "no"

-- A double between 0 and 1 in hundredths, as a stream prints it: without zeros at its end.
unfoldable pub hundredths_text : ℕ → Text
unfolding decimal
hundredths_text c =
    if c % 100 == 0
    then decimal (c / 100)
    else if c % 10 == 0
    then lit "0." ++ decimal (c / 10)
    else (if ltb c 10 then lit "0.0" else lit "0.") ++ decimal c

-- `renderList`
unfoldable pub render_list : List Text → Text → Text
render_list [] prefix = []
render_list (item ∷ items) prefix =
    written (prefix ∷ item ∷ newline ∷ []) ++ render_list items prefix

-- A loop that writes a text for each item.
abbrev pub write_all : {A : Type 0} → (A → Text) → List A → Text
write_all line [] = []
write_all line (x ∷ xs) = line x ++ write_all line xs

unfoldable pub section_line : Section → Text
unfolding format_hex decimal
section_line s = written (
    lit "  "
    ∷ s.name
    ∷ lit " "
    ∷ format_hex s.range.start
    ∷ lit " - "
    ∷ format_hex s.range.end
    ∷ lit " size="
    ∷ decimal s.file_size
    ∷ lit " exec="
    ∷ yes_no s.executable
    ∷ newline
    ∷ [])

unfoldable pub symbol_line : Symbol → Text
unfolding format_hex symbol_type_text
symbol_line s = written (
    lit "  "
    ∷ format_hex s.address
    ∷ lit " "
    ∷ s.name
    ∷ lit " "
    ∷ symbol_type_text s.type
    ∷ newline
    ∷ [])

unfoldable pub instruction_line : Instruction → Text
unfolding format_hex flow_kind_text
instruction_line i = written (
    lit "  "
    ∷ format_hex i.address
    ∷ lit ": "
    ∷ i.mnemonic
    ∷ (if not (is_empty i.operand_text) then lit " " ++ i.operand_text else [])
    ∷ lit " ["
    ∷ flow_kind_text i.flow_kind
    ∷ lit "]\n"
    ∷ [])

unfoldable pub block_line : BasicBlock → Text
unfolding format_hex decimal
block_line b = written (
    lit "    block "
    ∷ format_hex b.start
    ∷ lit " -> "
    ∷ format_hex b.end
    ∷ lit " insns="
    ∷ decimal (length b.instruction_addresses)
    ∷ newline
    ∷ [])

unfoldable pub function_line : Bool → RecoveredFunction → Text
unfolding block_line
function_line verbose f = written (
    lit "  "
    ∷ format_hex f.entry
    ∷ lit " "
    ∷ f.name
    ∷ lit " blocks="
    ∷ decimal f.metrics.block_count
    ∷ lit " complexity="
    ∷ decimal f.metrics.cyclomatic_complexity
    ∷ lit " calls="
    ∷ decimal f.metrics.call_out_degree
    ∷ lit " partial="
    ∷ yes_no f.partial
    ∷ newline
    ∷ (if verbose then write_all block_line f.blocks else [])
    ∷ [])

abbrev pub arrow_target : Option ℕ → Text
arrow_target none = []
arrow_target (some target) = lit " -> " ++ format_hex target

unfoldable pub cfg_edge : BlockEdge → Text
unfolding format_hex edge_type_text
cfg_edge e =
    written (lit "    edge " ∷ edge_type_text e.type ∷ arrow_target e.target ∷ newline ∷ [])

unfoldable pub cfg_block : BasicBlock → Text
unfolding cfg_edge
cfg_block b = written (
    lit "  Block "
    ∷ format_hex b.start
    ∷ lit " -> "
    ∷ format_hex b.end
    ∷ newline
    ∷ write_all cfg_edge b.outgoing_edges
    ∷ [])

unfoldable pub call_edge_line : CallGraphEdge → Text
unfolding format_hex
call_edge_line e = written (
    lit "  "
    ∷ format_hex e.source
    ∷ lit " -> "
    ∷ format_hex e.target
    ∷ (if not (is_empty e.target_name) then lit " (" ++ (e.target_name ++ lit ")") else [])
    ∷ (if e.external then lit " external" else [])
    ∷ newline
    ∷ [])

-- `if (function) … else if (address) …`
abbrev pub place_text : HeuristicFinding → Text
place_text f = elim f.function [
  | some function ↦ lit " function=" ++ format_hex function
  | none ↦ elim f.address [ some address ↦ lit " address=" ++ format_hex address | none ↦ [] ]
]

unfoldable pub finding_lines : Bool → HeuristicFinding → Text
unfolding hundredths_text format_hex render_list
finding_lines verbose f = written (
    lit "  ["
    ∷ f.category
    ∷ lit "] confidence="
    ∷ hundredths_text f.confidence
    ∷ place_text f
    ∷ newline
    ∷ lit "    "
    ∷ f.explanation
    ∷ newline
    ∷ (if verbose then render_list f.evidence (lit "    evidence: ") else [])
    ∷ [])
