-- ===== src/Cli/Main.antt =====
-- src/cli/main.cpp: the commands and `main`.
use binary_atlas.Prelude.{
  Bool, true, ◌||◌, Option, none, some, List, [], ◌∷◌, ◌++◌, value_or, is_some, if◌then◌else◌,
}
use binary_atlas.Prelude.Text.{Text, lit, str_eq}
use binary_atlas.Util.FileIo.{write_text_file}
use binary_atlas.Core.Error.{Result, success, failure}
use binary_atlas.Core.Image.{BinaryImage}
use binary_atlas.Disasm.Capstone.{Capstone}
use binary_atlas.Disasm.Instruction.{DisassemblyOptions}
use binary_atlas.Disasm.Index.{DisassemblyResult}
use binary_atlas.Format.ElfTypes.{Elf}
use binary_atlas.Analysis.Function.{
  AnalysisOptions, ProgramAnalysis, ProgramMetrics, RecoveredFunction,
}
use binary_atlas.Heuristics.Finding.{default_options}
use binary_atlas.Engine.{AnalysisBundle, engine_load, engine_disassemble, engine_analyze}
use binary_atlas.Output.Dot.{export_function_cfg, export_call_graph}
use binary_atlas.Output.Json.{JsonLibrary}
use binary_atlas.Output.JsonWriter.{
  render_inspect, render_disassembly, render_functions, render_heuristics, render_analysis,
}
use binary_atlas.Output.Terminal.{
  terminal_inspect, terminal_disassembly, terminal_functions, terminal_cfg, terminal_call_graph,
  terminal_heuristics, terminal_analysis,
}
use binary_atlas.Cli.Options.{CliOptions, Parsed, parse_cli, usage}
use binary_atlas.Cli.Files.{
  Run, fail, fail_with, FileSystem, resolve_function, emit, write_dot, write_graphs,
}

abbrev no_metrics : ProgramMetrics
no_metrics = record {
  function_count = 0;
  block_count = 0;
  instruction_count = 0;
  call_edge_count = 0;
  looping_function_count = 0;
  dispatcher_candidate_count = 0;
}

-- `ProgramAnalysis single; single.functions = {*function};`
abbrev pub single : RecoveredFunction → ProgramAnalysis
single f = record { functions = f ∷ []; call_graph = []; metrics = no_metrics; unused_seeds = [] }

-- `AnalysisOptions{}`
abbrev pub default_analysis_options : AnalysisOptions
default_analysis_options = record {
  enable_prologue_heuristics = true;
  high_fanout_threshold = 5;
  complexity_threshold = 8;
}

-- The fields of the `DisassemblyOptions` of `disasm`.
abbrev pub disassembly_options : CliOptions → DisassemblyOptions
disassembly_options o = record {
  section_name = o.section_name;
  start_address = o.start_address;
  end_address = o.end_address;
}

module _ (j : JsonLibrary) (fs : FileSystem) (o : CliOptions) where
  -- `none`: the exception of the read of the file leaves the command.
  unfoldable pub run_inspect : Option (Result BinaryImage) → Option Run
  unfolding emit render_inspect terminal_inspect
  run_inspect none = none
  run_inspect (some (failure error)) = some (fail_with error [])
  run_inspect (some (success image)) =
      emit fs o (render_inspect j image) (terminal_inspect image o.verbose) []

  unfoldable pub run_disasm : Option (Result DisassemblyResult) → Option Run
  unfolding emit render_disassembly terminal_disassembly
  run_disasm none = none
  run_disasm (some (failure error)) = some (fail_with error [])
  run_disasm (some (success d)) =
      emit fs o (render_disassembly j d) (terminal_disassembly d o.verbose) []

  -- `cfg`, where the selector is given.
  unfoldable pub run_cfg : ProgramAnalysis → Text → Option Run
  unfolding resolve_function emit export_function_cfg render_functions terminal_cfg write_text_file
  run_cfg analysis selector = elim (resolve_function analysis selector) [
    | none ↦ some (fail (lit "function not found: " ++ (selector ++ lit "\n")) [])
    | some f ↦
        write_dot fs o.dot_path (export_function_cfg f)
          (emit fs o (render_functions j (single f)) (terminal_cfg f))
  ]

  -- The commands that read an analysis, of which `analyze` is the last one.
  unfoldable pub run_command : AnalysisBundle → Option Run
  unfolding str_eq run_cfg emit render_functions render_heuristics render_analysis
      terminal_functions terminal_call_graph terminal_heuristics terminal_analysis export_call_graph
      write_graphs write_text_file
  run_command b =
      if str_eq o.command (lit "functions")
      then emit fs o (render_functions j b.analysis) (terminal_functions b.analysis o.verbose) []
      else if str_eq o.command (lit "cfg")
      then elim o.function_selector [
        | none ↦ some (fail (lit "cfg requires --function\n") [])
        | some selector ↦ run_cfg b.analysis selector
      ]
      else if str_eq o.command (lit "callgraph")
      then write_dot fs o.dot_path (export_call_graph b.analysis)
          (emit fs o (render_functions j b.analysis) (terminal_call_graph b.analysis))
      else if str_eq o.command (lit "heuristics")
      then emit fs o (render_heuristics j b.heuristic_findings)
          (terminal_heuristics b.heuristic_findings o.verbose) []
      else if o.full || is_some o.dot_directory
      then write_graphs fs (value_or o.dot_directory (lit "graphs")) b.analysis
          (emit fs o (render_analysis j b) (terminal_analysis b o.verbose))
      else emit fs o (render_analysis j b) (terminal_analysis b o.verbose) []

  unfoldable pub run_analysis : Option (Result AnalysisBundle) → Option Run
  unfolding run_command
  run_analysis none = none
  run_analysis (some (failure error)) = some (fail_with error [])
  run_analysis (some (success b)) = run_command b

  abbrev pub is_analysis_command : Bool
  is_analysis_command =
      str_eq o.command (lit "functions")
      || str_eq o.command (lit "cfg")
      || str_eq o.command (lit "callgraph")
      || str_eq o.command (lit "heuristics")
      || str_eq o.command (lit "analyze")

module _ (c : Capstone) (e : Elf) (j : JsonLibrary) (fs : FileSystem) where
  -- `main` behind `parseCli`.
  unfoldable pub run_options : CliOptions → Option Run
  unfolding str_eq run_inspect run_disasm run_analysis engine_load engine_disassemble engine_analyze
  run_options o =
      if str_eq o.command (lit "inspect")
      then run_inspect j fs o (engine_load e fs.contents o.binary_path)
      else if str_eq o.command (lit "disasm")
      then run_disasm j fs o
          (engine_disassemble c e fs.contents o.binary_path (disassembly_options o))
      else if is_analysis_command j fs o
      then run_analysis j fs o
          (engine_analyze c e fs.contents o.binary_path default_analysis_options default_options)
      else some (fail usage [])

  -- `none` is an exception that leaves `main`.
  unfoldable pub main : List Text → Option Run
  unfolding parse_cli run_options
  main arguments = elim (parse_cli arguments) [
    | Parsed.rejected message ↦ some (fail message [])
    | Parsed.options o ↦ run_options o
  ]
