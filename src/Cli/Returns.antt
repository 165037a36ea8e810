-- ===== src/Cli/Returns.antt =====
-- Lemmas on the writes of `main`: that they end in a run, and what it leaves.
pub mod Documents
pub mod Commands
use binary_atlas.Prelude.{
  ℕ, ◌≡◌, ◌⊎◌, inl, inr, refl, sym, ap, ◌∙◌, Bool, true, false, not, ◌||◌, Option, none, some, List,
  [], ◌∷◌, ◌++◌, All, All-append, Bool-cases, is_some, value_or, if◌then◌else◌, ◌>>=?◌,
}
use binary_atlas.Prelude.Text.{Text, lit, str_eq}
use binary_atlas.Util.FileIo.{Status, write_text_file, ensure_directory}
use binary_atlas.Core.Error.{Result, success, failure}
use binary_atlas.Core.Image.{BinaryImage}
use binary_atlas.Disasm.Capstone.{Capstone}
use binary_atlas.Disasm.Index.{DisassemblyResult}
use binary_atlas.Format.ElfTypes.{Elf}
use binary_atlas.Analysis.Function.{ProgramAnalysis, RecoveredFunction}
use binary_atlas.Heuristics.Finding.{default_options}
use binary_atlas.Engine.{AnalysisBundle, engine_load, engine_disassemble, engine_analyze}
use binary_atlas.Engine.Total.{engine_analyze_total}
use binary_atlas.Output.Dot.{export_function_cfg, export_call_graph}
use binary_atlas.Output.Json.{JsonLibrary, IsJson}
use binary_atlas.Output.JsonWriter.{
  inspect_json, disassembly_json, analysis_json, findings_json, render_inspect, render_disassembly,
  render_functions, render_heuristics, render_analysis,
}
use binary_atlas.Output.JsonWriter.Compose.{whole_json, render_analysis_lem}
use binary_atlas.Output.Terminal.{
  terminal_inspect, terminal_disassembly, terminal_functions, terminal_cfg, terminal_call_graph,
  terminal_heuristics, terminal_analysis,
}
use binary_atlas.Cli.Options.{CliOptions, Parsed, parse_cli, usage}
use binary_atlas.Cli.Main.{
  single, default_analysis_options, run_inspect, run_disasm, run_cfg, run_command, run_analysis,
  is_analysis_command, run_options, main,
}
use binary_atlas.Cli.Files.{
  Run, FileSystem, succeed, fail, resolve_function, dot_file_name, in_directory, write_then, emit,
  write_dot, write_function_dots, write_graphs,
}

module _ (fs : FileSystem) where
  -- A file that was opened and took its content.
  abbrev pub Written : Text × Text → Type 0
  Written file = (fs.opens file.0 ≡ true) × (fs.takes file.0 ≡ true)

  -- A failure prints nothing to the output, a success nothing to the error stream.
  pub record Clean (r : Run) : Type 0 where
    pub streams :
        ((r.exit_failure ≡ true) × (r.out ≡ [])) ⊎ ((r.exit_failure ≡ false) × (r.err ≡ []))
    pub files : All Written r.files

-- `Unwritten` is what is known where an exception ends the program.
module _ (fs : FileSystem) (Unwritten : Type 0) where
  abbrev pub Returns : Option Run → Type 0
  Returns o = ((r : Run) × (o ≡ some r) × Clean fs r) ⊎ ((o ≡ none) × Unwritten)

  abbrev pub Rendered : Option Text → Type 0
  Rendered o = ((t : Text) × (o ≡ some t)) ⊎ ((o ≡ none) × Unwritten)

  pub Returns-succeed :
      (out : Text) (files : List (Text × Text))
      → All (Written fs) files
      → Returns (some (succeed out files))
  Returns-succeed out files h = inl (_, refl, record { streams = inr (refl, refl); files = h })

  pub Returns-fail :
      (err : Text) (files : List (Text × Text))
      → All (Written fs) files
      → Returns (some (fail err files))
  Returns-fail err files h = inl (_, refl, record { streams = inl (refl, refl); files = h })

  pub Returns-if :
      (b : Bool) (x y : Option Run) → Returns x → Returns y → Returns (if b then x else y)
  Returns-if true x y hx hy = hx
  Returns-if false x y hx hy = hy

  -- Either branch may use the test.
  pub Returns-when :
      (b : Bool) (x y : Option Run)
      → (b ≡ true → Returns x)
      → (b ≡ false → Returns y)
      → Returns (if b then x else y)
  Returns-when true x y hx hy = hx refl
  Returns-when false x y hx hy = hy refl

  -- What follows is run only where the file was written.
  Returns-write_then :
      (path content : Text) (files : List (Text × Text)) (next : List (Text × Text) → Option Run)
      → All (Written fs) files
      → ((written : List (Text × Text)) → All (Written fs) written → Returns (next written))
      → Returns (write_then fs path content files next)
  unfolding write_text_file
  Returns-write_then path content files next h k = settled (fs.opens path) (fs.takes path) refl refl
    where
      settled :
          (opened taken : Bool)
          → fs.opens path ≡ opened
          → fs.takes path ≡ taken
          → Returns (elim (write_text_file opened taken path) [
            | Status.ok ↦ next (files ++ (path, content) ∷ [])
            | Status.failed error ↦ some (fail (error.message ++ lit "\n") files)
          ])
      settled false taken p q =
          Returns-fail (lit "failed to open output file: " ++ path ++ lit "\n") files h
      settled true false p q =
          Returns-fail (lit "failed to write output file: " ++ path ++ lit "\n") files h
      settled true true p q =
          k (files ++ (path, content) ∷ [])
            (All-append (Written fs) files ((path, content) ∷ []) h ((p, q), tt))

  pub Returns-emit :
      (o : CliOptions) (renderer : Option Text) (terminal : Text) (files : List (Text × Text))
      → Rendered renderer
      → All (Written fs) files
      → Returns (emit fs o renderer terminal files)
  unfolding emit
  Returns-emit o renderer terminal files (inr (thrown, u)) h = inr (rw thrown refl, u)
  Returns-emit o renderer terminal files (inl (t, e)) h =
      rw e (Returns-if o.json_stdout _ _ (Returns-succeed t files h) (stored o.json_path))
    where
      stored :
          (path : Option Text)
          → Returns (elim path [
            | some path ↦
                write_then fs path t files
                  (λ written. some (succeed (lit "wrote " ++ (path ++ lit "\n")) written))
            | none ↦ some (succeed terminal files)
          ])
      stored none = Returns-succeed terminal files h
      stored (some path) =
          Returns-write_then path t files
            (λ written. some (succeed (lit "wrote " ++ (path ++ lit "\n")) written)) h
            (λ written w. Returns-succeed (lit "wrote " ++ (path ++ lit "\n")) written w)

  pub Returns-write_dot :
      (path : Option Text) (dot : Text) (next : List (Text × Text) → Option Run)
      → ((written : List (Text × Text)) → All (Written fs) written → Returns (next written))
      → Returns (write_dot fs path dot next)
  Returns-write_dot none dot next k = k [] tt
  Returns-write_dot (some path) dot next k = Returns-write_then path dot [] next tt k

  Returns-write_function_dots :
      (directory : Text) (functions : List RecoveredFunction) (files : List (Text × Text))
      (next : List (Text × Text) → Option Run)
      → All (Written fs) files
      → ((written : List (Text × Text)) → All (Written fs) written → Returns (next written))
      → Returns (write_function_dots fs directory functions files next)
  unfolding write_function_dots
  Returns-write_function_dots directory [] files next h k = k files h
  Returns-write_function_dots directory (f ∷ functions) files next h k =
      Returns-write_then (in_directory directory (dot_file_name f)) (export_function_cfg f) files _
        h (λ written w. Returns-write_function_dots directory functions written next w k)

  pub Returns-write_graphs :
      (directory : Text) (analysis : ProgramAnalysis) (next : List (Text × Text) → Option Run)
      → ((written : List (Text × Text)) → All (Written fs) written → Returns (next written))
      → Returns (write_graphs fs directory analysis next)
  unfolding write_graphs
  Returns-write_graphs directory analysis next k =
      made (ensure_directory (fs.directory_error directory) directory)
    where
      made :
          (status : Status)
          → Returns (elim status [
            | Status.failed error ↦ some (fail (error.message ++ lit "\n") [])
            | Status.ok ↦
                write_then fs
                  (in_directory directory (lit "callgraph.dot"))
                  (export_call_graph analysis)
                  []
                  (λ written. write_function_dots fs directory analysis.functions written next)
          ])
      made (Status.failed error) = Returns-fail _ [] tt
      made Status.ok =
          Returns-write_then _ _ [] _ tt
            (λ written w. Returns-write_function_dots directory analysis.functions written next w k)
