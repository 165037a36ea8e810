-- ===== src/Output/Terminal.antt =====
-- src/output/terminal_renderer.cpp: the renderers.
use binary_atlas.Prelude.{Bool, false, List, [], ◌∷◌, ◌++◌, length, take, if◌then◌else◌}
use binary_atlas.Prelude.Text.{Text, lit}
use binary_atlas.Util.Strings.{format_hex, decimal}
use binary_atlas.Core.Types.Names.{format_text, architecture_text}
use binary_atlas.Core.Image.{BinaryImage}
use binary_atlas.Disasm.Index.{DisassemblyResult}
use binary_atlas.Analysis.Function.{RecoveredFunction, ProgramAnalysis}
use binary_atlas.Heuristics.Finding.{HeuristicFinding}
use binary_atlas.Engine.{AnalysisBundle}
use binary_atlas.Output.Dot.{written}
use binary_atlas.Output.TerminalLines.{
  newline, write_all, section_line, symbol_line, instruction_line, function_line, cfg_block,
  call_edge_line, finding_lines,
}

unfoldable pub terminal_inspect : BinaryImage → Bool → Text
unfolding format_text architecture_text section_line symbol_line
terminal_inspect image verbose = written (
    lit "BinaryAtlas inspect\n"
    ∷ lit "  Path: "
    ∷ image.source_path
    ∷ newline
    ∷ lit "  Format: "
    ∷ format_text image.metadata.format
    ∷ lit " / "
    ∷ architecture_text image.metadata.architecture
    ∷ newline
    ∷ lit "  Entry: "
    ∷ format_hex image.metadata.entry_point
    ∷ newline
    ∷ lit "  Sections: "
    ∷ decimal (length image.sections)
    ∷ newline
    ∷ lit "  Symbols: "
    ∷ decimal (length image.symbols)
    ∷ newline
    ∷ lit "  Relocations: "
    ∷ decimal (length image.relocations)
    ∷ newline
    ∷ lit "  Imports: "
    ∷ decimal (length image.imports)
    ∷ newline
    ∷ (if verbose
        then written (
            lit "\nSections\n"
            ∷ write_all section_line image.sections
            ∷ lit "\nSymbols\n"
            ∷ write_all symbol_line (take 32 image.symbols)
            ∷ [])
        else [])
    ∷ [])

unfoldable pub terminal_disassembly : DisassemblyResult → Bool → Text
unfolding instruction_line decimal
terminal_disassembly d verbose = written (
    lit "BinaryAtlas disasm\n"
    ∷ lit "  Instructions: "
    ∷ decimal (length d.instructions)
    ∷ newline
    ∷ lit "  Invalid bytes: "
    ∷ decimal d.invalid_instruction_count
    ∷ newline
    ∷ write_all instruction_line (if verbose then d.instructions else take 40 d.instructions)
    ∷ [])

unfoldable pub terminal_functions : ProgramAnalysis → Bool → Text
unfolding function_line
terminal_functions analysis verbose = written (
    lit "Recovered functions: "
    ∷ decimal (length analysis.functions)
    ∷ newline
    ∷ lit "Call graph edges: "
    ∷ decimal (length analysis.call_graph)
    ∷ newline
    ∷ write_all (function_line verbose) analysis.functions
    ∷ [])

unfoldable pub terminal_cfg : RecoveredFunction → Text
unfolding cfg_block
terminal_cfg f = written (
    lit "CFG for "
    ∷ f.name
    ∷ lit " ("
    ∷ format_hex f.entry
    ∷ lit ")\n"
    ∷ write_all cfg_block f.blocks
    ∷ [])

unfoldable pub terminal_call_graph : ProgramAnalysis → Text
unfolding call_edge_line
terminal_call_graph analysis = lit "Call graph\n" ++ write_all call_edge_line analysis.call_graph

unfoldable pub terminal_heuristics : List HeuristicFinding → Bool → Text
unfolding finding_lines decimal
terminal_heuristics findings verbose = written (
    lit "Heuristic findings: "
    ∷ decimal (length findings)
    ∷ newline
    ∷ write_all (finding_lines verbose) findings
    ∷ [])

unfoldable pub terminal_analysis : AnalysisBundle → Bool → Text
unfolding terminal_inspect terminal_functions terminal_heuristics
terminal_analysis b verbose = written (
    terminal_inspect b.image false
    ∷ newline
    ∷ terminal_functions b.analysis verbose
    ∷ newline
    ∷ terminal_heuristics b.heuristic_findings verbose
    ∷ [])
