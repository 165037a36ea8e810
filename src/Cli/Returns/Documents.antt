-- ===== src/Cli/Returns/Documents.antt =====
-- Lemmas on the JSON values that the commands of `main` write, and on the exceptions that leave it.
use binary_atlas.Prelude.{
  ◌≡◌, ◌⊎◌, In, ◌∷◌, true, ◌||◌, inl, inr, refl, Option, none, some, [], Option-cases, ◌>>=?◌,
}
use binary_atlas.Prelude.Text.{Text, lit, str_eq}
use binary_atlas.Util.FileIo.{unreadable}
use binary_atlas.Core.Error.{success}
use binary_atlas.Core.Image.{BinaryImage}
use binary_atlas.Disasm.Capstone.{Capstone}
use binary_atlas.Disasm.Index.{DisassemblyResult}
use binary_atlas.Format.ElfTypes.{Elf}
use binary_atlas.Analysis.Function.{RecoveredFunction}
use binary_atlas.Heuristics.Finding.{default_options}
use binary_atlas.Engine.{AnalysisBundle, engine_load, engine_disassemble, engine_analyze}
use binary_atlas.Output.Json.{JsonLibrary, IsJson}
use binary_atlas.Output.JsonWriter.{
  inspect_json, disassembly_json, analysis_json, findings_json, render_inspect, render_disassembly,
  render_functions, render_heuristics, render_analysis,
}
use binary_atlas.Output.JsonWriter.Compose.{whole_json, render_analysis_lem}
use binary_atlas.Cli.Options.{CliOptions}
use binary_atlas.Cli.Main.{disassembly_options, single, default_analysis_options}
use binary_atlas.Cli.Files.{FileSystem, resolve_function}
use binary_atlas.Cli.Returns.{Rendered}

module _ (c : Capstone) (e : Elf) (j : JsonLibrary) (json : IsJson j) (fs : FileSystem) where
  -- `engine.analyze` of the program gives the bundle.
  abbrev pub Analyzed : CliOptions → AnalysisBundle → Type 0
  Analyzed o b =
      engine_analyze c e fs.contents o.binary_path default_analysis_options default_options
      ≡ some (success b)

  -- The JSON values of a run, by its command: those that `analyze` writes are the four documents of the
  -- bundle and the one that is made of them.
  pub data Document (o : CliOptions) : j.Json → Type 0 where
    inspected :
        (image : BinaryImage)
        → str_eq o.command (lit "inspect") ≡ true
        → engine_load e fs.contents o.binary_path ≡ some (success image)
        → Document o (inspect_json j image)
    disassembled :
        (d : DisassemblyResult)
        → str_eq o.command (lit "disasm") ≡ true
        → engine_disassemble c e fs.contents o.binary_path (disassembly_options o)
          ≡ some (success d)
        → Document o (disassembly_json j d)
    recovered :
        (b : AnalysisBundle)
        → (str_eq o.command (lit "functions") || str_eq o.command (lit "callgraph")) ≡ true
        → Analyzed o b
        → Document o (analysis_json j b.analysis)
    selected :
        (b : AnalysisBundle) (selector : Text) (f : RecoveredFunction)
        → str_eq o.command (lit "cfg") ≡ true
        → Analyzed o b
        → o.function_selector ≡ some selector
        → resolve_function b.analysis selector ≡ some f
        → Document o (analysis_json j (single f))
    found :
        (b : AnalysisBundle)
        → str_eq o.command (lit "heuristics") ≡ true
        → Analyzed o b
        → Document o (findings_json j b.heuristic_findings)
    analyzed :
        (b : AnalysisBundle) (v : j.Json)
        → str_eq o.command (lit "analyze") ≡ true
        → Analyzed o b
        → In v (
            inspect_json j b.image
            ∷ disassembly_json j b.disassembly
            ∷ analysis_json j b.analysis
            ∷ findings_json j b.heuristic_findings
            ∷ whole_json j json b
            ∷ [])
        → Document o v

  -- Why an exception leaves the program: the file cannot be read, or a value of the run cannot be dumped,
  -- as where one of its texts is not UTF-8.
  abbrev pub Thrown : CliOptions → Type 0
  Thrown o = (fs.contents ≡ unreadable) ⊎ ((v : j.Json) × Document o v × (j.dump v ≡ none))

  module _ (o : CliOptions) where
    abbrev pub Writes : Option Text → Type 0
    Writes = Rendered fs (Thrown o)

    pub Rendered-dump : (v : j.Json) → Document o v → Writes (j.dump v)
    Rendered-dump v d = elim (Option-cases (j.dump v)) [
      | inl h ↦ inr (h, inr (v, d, h))
      | inr h ↦ inl h
    ]

    Rendered-bind : (x next : Option Text) → Writes x → Writes next → Writes (x >>=? λ _. next)
    Rendered-bind x next (inr (q, u)) h = inr (rw q refl, u)
    Rendered-bind x next (inl (t, q)) h = rw q h

    pub Rendered-analysis :
        (b : AnalysisBundle)
        → str_eq o.command (lit "analyze") ≡ true
        → Analyzed o b
        → Writes (render_analysis j b)
    unfolding render_inspect render_disassembly render_functions render_heuristics
    Rendered-analysis b named ran = rw (render_analysis_lem j json b) (
        Rendered-bind _ _ (Rendered-dump _ (Document.analyzed b _ named ran (inl refl))) (
          Rendered-bind _ _ (Rendered-dump _ (Document.analyzed b _ named ran (inr (inl refl)))) (
            Rendered-bind _ _
              (Rendered-dump _ (Document.analyzed b _ named ran (inr (inr (inl refl)))))
              (Rendered-bind _ _
                (Rendered-dump _ (Document.analyzed b _ named ran (inr (inr (inr (inl refl))))))
                (Rendered-dump _
                  (Document.analyzed b _ named ran (inr (inr (inr (inr (inl refl)))))))))))
