-- ===== src/Engine/Total.antt =====
-- Lemmas on `BinaryAtlasEngine::analyze`: that it returns, and where its errors come from.
use binary_atlas.Prelude.{
  ℕ, ◌≡◌, ◌⊎◌, inl, inr, refl, true, false, Option, none, some, List, is_empty,
}
use binary_atlas.Prelude.Text.{Text, lit}
use binary_atlas.Util.FileIo.{FileContents, absent, unreadable, readable}
use binary_atlas.Core.Error.{
  io_error, parse_error, unsupported_format, disassembly_error, analysis_error, Result, success,
  failure, Error, analysis,
}
use binary_atlas.Core.Image.{BinaryImage}
use binary_atlas.Disasm.Capstone.{Capstone}
use binary_atlas.Disasm.Index.{DisassemblyResult}
use binary_atlas.Disasm.Sections.{disassemble}
use binary_atlas.Disasm.Sections.Errors.{OnlyDisassembly, disassemble-OnlyDisassembly}
use binary_atlas.Format.ElfTypes.{Elf}
use binary_atlas.Format.Parse.{parse_buffer}
use binary_atlas.Format.Parse.Opened.{load_cases}
use binary_atlas.Format.Parse.Outcome.{Outcome, parse_buffer-Outcome}
use binary_atlas.Analysis.Function.{AnalysisOptions}
use binary_atlas.Analysis.Recovery.Analyze.Total.{analyze_total}
use binary_atlas.Heuristics.Finding.{HeuristicOptions}
use binary_atlas.Engine.{
  AnalysisBundle, whole, to_bundle, engine_load, analyze_disassembly, analyze_image, engine_analyze,
}

module _ (c : Capstone) (e : Elf) (contents : FileContents) (path : Text) (o : AnalysisOptions)
    (ho : HeuristicOptions) where
  -- Which stage an error comes from, and its code.
  abbrev pub Explained : Result AnalysisBundle → Type 0
  Explained (success b) =
      (engine_load e contents path ≡ some (success b.image))
      × (disassemble c b.image whole ≡ success b.disassembly)
      × (is_empty b.disassembly.instructions ≡ false)
  Explained (failure err) =
      ((contents ≡ absent) × (err.code ≡ io_error))
      ⊎ ((bytes : List ℕ) × (contents ≡ readable bytes)
          × (parse_buffer e path bytes ≡ failure err)
          × ((err.code ≡ parse_error) ⊎ (err.code ≡ unsupported_format)))
      ⊎ ((image : BinaryImage) × (engine_load e contents path ≡ some (success image))
          × (((disassemble c image whole ≡ failure err) × (err.code ≡ disassembly_error))
              ⊎ ((d : DisassemblyResult) × (disassemble c image whole ≡ success d)
                  × (is_empty d.instructions ≡ true)
                  × (err.code ≡ analysis_error))))

  -- The call returned `v`, with no exception.
  abbrev pub Returned : Option (Result AnalysisBundle) → Type 0
  Returned r = (v : Result AnalysisBundle) × (r ≡ some v) × Explained v

  abbrev pub Returns : Option (Result AnalysisBundle) → Type 0
  Returns r = ((contents ≡ unreadable) × (r ≡ none)) ⊎ Returned r

  from_disassembly :
      (image : BinaryImage) (r : Result DisassemblyResult)
      → engine_load e contents path ≡ some (success image)
      → disassemble c image whole ≡ r
      → OnlyDisassembly r
      → Returned (analyze_disassembly o ho image r)
  unfolding analyze_disassembly
  from_disassembly image (failure err) loaded q code =
      (failure err, refl, inr (inr (image, loaded, inl (q, code))))
  from_disassembly image (success d) loaded q code = elim (analyze_total image d o) [
    | inl (empty, fails) ↦
        let error = analysis (lit "analysis requires disassembly input") in
        rw fails (failure error, refl, inr (inr (image, loaded, inr (d, q, empty, refl))))
    | inr (full, (p, works, n)) ↦
        rw works (success (to_bundle ho image d p), refl, (loaded, q, full))
  ]

  load-Explained :
      (r : Result BinaryImage)
      → engine_load e contents path ≡ some r
      → ((err : Error) → r ≡ failure err → Explained (failure err))
      → Returned (analyze_image c o ho r)
  unfolding analyze_image
  load-Explained (success image) loaded explained =
      from_disassembly image (disassemble c image whole) loaded refl
        (disassemble-OnlyDisassembly c image whole refl)
  load-Explained (failure err) loaded explained = (failure err, refl, explained err refl)

  code :
      (bytes : List ℕ) (r : Result BinaryImage) (err : Error)
      → Outcome e bytes r
      → r ≡ failure err
      → (err.code ≡ parse_error) ⊎ (err.code ≡ unsupported_format)
  code bytes (success image) err out h = absurd (cc h)
  code bytes (failure other) err (inl p) h = inl (cc (p, h))
  code bytes (failure other) err (inr q) h = inr (cc (q.0, h))

  -- `BinaryAtlasEngine::analyze` throws exactly where the file opens and cannot be read, which is the
  -- exception of that read. Otherwise it returns a bundle, whose disassembly has instructions; or an
  -- I/O error where the file does not open; the parser's error, which is a parse error or one of
  -- an unsupported format; the disassembler's, which is a disassembly error; or an analysis error where
  -- nothing was disassembled.
  pub engine_analyze_total : Returns (engine_analyze c e contents path o ho)
  unfolding engine_analyze engine_load
  engine_analyze_total = elim (load_cases e path contents) [
    | inl (u, q) ↦ rw q (inl (u, refl))
    | inr (inl (u, q)) ↦ rw q (inr (load-Explained _ q (λ err h. inl (u, cc h))))
    | inr (inr (bytes, u, q)) ↦ rw q (
        inr (
          load-Explained (parse_buffer e path bytes) q (λ err h. inr (
            inl (
              bytes,
              u,
              h,
              code bytes (parse_buffer e path bytes) err (parse_buffer-Outcome e path bytes) h,
            )))))
  ]
