-- ===== src/Cli/Returns/Commands.antt =====
-- Lemmas on `main`: that it returns, and what it leaves.
use binary_atlas.Prelude.{
  arith, ◌≡◌, true, inl, inr, refl, Option, none, some, List, [], ◌++◌, ◌>>=?◌,
}
use binary_atlas.Prelude.Text.{Text, lit, str_eq}
use binary_atlas.Util.FileIo.{unreadable}
use binary_atlas.Core.Error.{Result, success, failure, ◌>>=◌}
use binary_atlas.Disasm.Sections.{disassemble}
use binary_atlas.Format.Parse.{load}
use binary_atlas.Format.Parse.Opened.{load-none}
use binary_atlas.Core.Image.{BinaryImage}
use binary_atlas.Disasm.Capstone.{Capstone}
use binary_atlas.Disasm.Index.{DisassemblyResult}
use binary_atlas.Format.ElfTypes.{Elf}
use binary_atlas.Analysis.Function.{RecoveredFunction}
use binary_atlas.Heuristics.Finding.{default_options}
use binary_atlas.Engine.{AnalysisBundle, engine_load, engine_disassemble, engine_analyze}
use binary_atlas.Engine.Total.{engine_analyze_total}
use binary_atlas.Output.Dot.{export_function_cfg}
use binary_atlas.Output.Json.{JsonLibrary, IsJson}
use binary_atlas.Output.JsonWriter.{
  render_inspect, render_disassembly, render_functions, render_heuristics,
}
use binary_atlas.Output.Terminal.{terminal_cfg}
use binary_atlas.Cli.Options.{CliOptions, Parsed, parse_cli, usage}
use binary_atlas.Cli.Main.{
  disassembly_options, single, default_analysis_options, run_inspect, run_disasm, run_cfg,
  run_command, run_analysis, is_analysis_command, run_options, main,
}
use binary_atlas.Cli.Files.{Run, FileSystem, fail, resolve_function, emit, write_dot}
use binary_atlas.Cli.Returns.{
  Returns, Returns-fail, Returns-if, Returns-when, Returns-emit, Returns-write_dot,
  Returns-write_graphs,
}
use binary_atlas.Cli.Returns.Documents.{
  Document, Analyzed, Thrown, Rendered-dump, Rendered-analysis,
}

module _ (c : Capstone) (e : Elf) (j : JsonLibrary) (json : IsJson j) (fs : FileSystem) where
  module _ (o : CliOptions) where
    abbrev Ends : Option Run → Type 0
    Ends = Returns fs (Thrown c e j json fs o)

    run_inspect-Returns :
        (r : Option (Result BinaryImage))
        → str_eq o.command (lit "inspect") ≡ true
        → engine_load e fs.contents o.binary_path ≡ r
        → Ends (run_inspect j fs o r)
    unfolding run_inspect render_inspect engine_load
    run_inspect-Returns none named h = inr (refl, inl (load-none e o.binary_path fs.contents h))
    run_inspect-Returns (some (failure error)) named h =
        Returns-fail fs (Thrown c e j json fs o) _ [] tt
    run_inspect-Returns (some (success image)) named h =
        Returns-emit fs (Thrown c e j json fs o) o _ _ []
          (Rendered-dump c e j json fs o _ (Document.inspected image named h)) tt

    disassemble_none :
        engine_disassemble c e fs.contents o.binary_path (disassembly_options o) ≡ none
        → fs.contents ≡ unreadable
    unfolding engine_disassemble engine_load
    disassemble_none h = go (load e fs.contents o.binary_path) refl h
      where
        go :
            (r : Option (Result BinaryImage))
            → load e fs.contents o.binary_path ≡ r
            → (r >>=? λ image.
                some (image >>= λ loaded. disassemble c loaded (disassembly_options o)))
              ≡ none
            → fs.contents ≡ unreadable
        go none q h = load-none e o.binary_path fs.contents q
        go (some image) q h = absurd (cc h)

    run_disasm-Returns :
        (r : Option (Result DisassemblyResult))
        → str_eq o.command (lit "disasm") ≡ true
        → engine_disassemble c e fs.contents o.binary_path (disassembly_options o) ≡ r
        → Ends (run_disasm j fs o r)
    unfolding run_disasm render_disassembly
    run_disasm-Returns none named h = inr (refl, inl (disassemble_none h))
    run_disasm-Returns (some (failure error)) named h =
        Returns-fail fs (Thrown c e j json fs o) _ [] tt
    run_disasm-Returns (some (success d)) named h =
        Returns-emit fs (Thrown c e j json fs o) o _ _ []
          (Rendered-dump c e j json fs o _ (Document.disassembled d named h)) tt

    -- The command `cfg`, with a selector or without.
    run_cfg-Returns :
        (b : AnalysisBundle) (selector : Option Text)
        → str_eq o.command (lit "cfg") ≡ true
        → Analyzed c e j json fs o b
        → o.function_selector ≡ selector
        → Ends (elim selector [
          | none ↦ some (fail (lit "cfg requires --function\n") [])
          | some s ↦ run_cfg j fs o b.analysis s
        ])
    unfolding run_cfg render_functions
    run_cfg-Returns b none named ran given =
        Returns-fail fs (Thrown c e j json fs o) (lit "cfg requires --function\n") [] tt
    run_cfg-Returns b (some s) named ran given = go (resolve_function b.analysis s) refl
      where
        go :
            (f : Option RecoveredFunction)
            → resolve_function b.analysis s ≡ f
            → Ends (elim f [
              | none ↦ some (fail (lit "function not found: " ++ (s ++ lit "\n")) [])
              | some f ↦
                  write_dot fs o.dot_path
                    (export_function_cfg f)
                    (emit fs o (render_functions j (single f)) (terminal_cfg f))
            ])
        go none q =
            Returns-fail fs (Thrown c e j json fs o) (lit "function not found: " ++ (s ++ lit "\n"))
              [] tt
        go (some f) q =
            Returns-write_dot fs (Thrown c e j json fs o) o.dot_path (export_function_cfg f)
              (emit fs o (render_functions j (single f)) (terminal_cfg f))
              (λ written w.
                Returns-emit fs (Thrown c e j json fs o) o (render_functions j (single f))
                  (terminal_cfg f) written
                  (Rendered-dump c e j json fs o _ (Document.selected b s f named ran given q)) w)

    run_command-Returns :
        (b : AnalysisBundle)
        → is_analysis_command j fs o ≡ true
        → Analyzed c e j json fs o b
        → Ends (run_command j fs o b)
    unfolding run_command render_functions render_heuristics
    run_command-Returns b named ran =
        Returns-when fs (Thrown c e j json fs o) (str_eq o.command (lit "functions")) _ _
          (λ t.
            Returns-emit fs (Thrown c e j json fs o) o _ _ []
              (Rendered-dump c e j json fs o _ (Document.recovered b (rw t refl) ran)) tt)
          (λ not_functions.
            Returns-when fs (Thrown c e j json fs o) (str_eq o.command (lit "cfg")) _ _
              (λ t. run_cfg-Returns b o.function_selector t ran refl)
              (λ not_cfg.
                Returns-when fs (Thrown c e j json fs o) (str_eq o.command (lit "callgraph")) _ _
                  (λ t. Returns-write_dot fs (Thrown c e j json fs o) o.dot_path _ _ (λ written w.
                    Returns-emit fs (Thrown c e j json fs o) o _ _ written
                      (Rendered-dump c e j json fs o _
                        (Document.recovered b (ground (arith, t, not_functions)) ran))
                      w))
                  (λ not_callgraph.
                    Returns-when fs (Thrown c e j json fs o) (str_eq o.command (lit "heuristics")) _
                      _
                      (λ t.
                        Returns-emit fs (Thrown c e j json fs o) o _ _ []
                          (Rendered-dump c e j json fs o _ (Document.found b t ran)) tt)
                      (λ not_heuristics.
                        let last : str_eq o.command (lit "analyze") ≡ true =
                          ground
                            (arith, named, not_functions, not_cfg, not_callgraph, not_heuristics) in
                        Returns-if fs (Thrown c e j json fs o) _ _ _
                          (Returns-write_graphs fs (Thrown c e j json fs o) _ b.analysis _
                            (λ written w.
                              Returns-emit fs (Thrown c e j json fs o) o _ _ written
                                (Rendered-analysis c e j json fs o b last ran) w))
                          (Returns-emit fs (Thrown c e j json fs o) o _ _ []
                            (Rendered-analysis c e j json fs o b last ran) tt)))))

    run_analysis-Returns :
        (r : Option (Result AnalysisBundle))
        → is_analysis_command j fs o ≡ true
        → engine_analyze c e fs.contents o.binary_path default_analysis_options default_options ≡ r
        → Ends (run_analysis j fs o r)
    unfolding run_analysis
    run_analysis-Returns none named h = inr (
      refl,
      elim (engine_analyze_total c e fs.contents o.binary_path default_analysis_options
          default_options) [
            | inl (u, q) ↦ inl u
            | inr (v, returned, explained) ↦ absurd (cc (h, returned))
          ],
    )
    run_analysis-Returns (some (failure error)) named h =
        Returns-fail fs (Thrown c e j json fs o) _ [] tt
    run_analysis-Returns (some (success b)) named h = run_command-Returns b named h

    run_options-Returns : Ends (run_options c e j fs o)
    unfolding run_options
    run_options-Returns =
        Returns-when fs (Thrown c e j json fs o) (str_eq o.command (lit "inspect")) _ _
          (λ t. run_inspect-Returns _ t refl)
          (λ not_inspect.
            Returns-when fs (Thrown c e j json fs o) (str_eq o.command (lit "disasm")) _ _
              (λ t. run_disasm-Returns _ t refl)
              (λ not_disasm.
                Returns-when fs (Thrown c e j json fs o) (is_analysis_command j fs o) _ _
                  (λ t. run_analysis-Returns _ t refl)
                  (λ unknown. Returns-fail fs (Thrown c e j json fs o) usage [] tt)))

  abbrev pub ThrownBy : List Text → Type 0
  ThrownBy arguments =
      (o : CliOptions) × (parse_cli arguments ≡ Parsed.options o) × Thrown c e j json fs o

  -- For a JSON library whose texts parse back and all arguments, `main` returns, or one of two
  -- exceptions leaves it: that of the read of a file that opens and cannot be read, or that of a
  -- dump of a JSON value of the command's own run. Where it fails, it has printed nothing to the output, and
  -- where it succeeds, nothing to the error stream; and each file that it has written was opened and
  -- took its content.
  pub main-Returns :
      (arguments : List Text) → Returns fs (ThrownBy arguments) (main c e j fs arguments)
  unfolding main
  main-Returns arguments = parsed (parse_cli arguments) refl
    where
      parsed :
          (p : Parsed)
          → parse_cli arguments ≡ p
          → Returns fs (ThrownBy arguments) (elim p [
            | Parsed.rejected message ↦ some (fail message [])
            | Parsed.options o ↦ run_options c e j fs o
          ])
      parsed (Parsed.rejected message) q = Returns-fail fs (ThrownBy arguments) message [] tt
      parsed (Parsed.options o) q = elim (run_options-Returns o) [
        | inl returned ↦ inl returned
        | inr (thrown, reason) ↦ inr (thrown, (o, q, reason))
      ]
