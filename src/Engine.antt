-- ===== src/Engine.antt =====
-- include/binaryatlas/core/analyzer.hpp and src/core/analyzer.cpp: the chain of the stages.
pub mod Sound
pub mod Total
use binary_atlas.Prelude.{ℕ, Option, none, some, List, ◌>>=?◌}
use binary_atlas.Prelude.Text.{Text}
use binary_atlas.Util.FileIo.{FileContents}
use binary_atlas.Core.Error.{Result, success, failure, ◌>>=◌}
use binary_atlas.Core.Image.{BinaryImage}
use binary_atlas.Disasm.Capstone.{Capstone}
use binary_atlas.Disasm.Instruction.{DisassemblyOptions}
use binary_atlas.Disasm.Index.{DisassemblyResult}
use binary_atlas.Disasm.Sections.{disassemble}
use binary_atlas.Format.ElfTypes.{Elf}
use binary_atlas.Format.Parse.{load}
use binary_atlas.Analysis.Function.{AnalysisOptions, ProgramAnalysis}
use binary_atlas.Analysis.Recovery.Analyze.{analyze}
use binary_atlas.Heuristics.Finding.{HeuristicFinding, HeuristicOptions}
use binary_atlas.Heuristics.Detect.{detect}

pub record AnalysisBundle : Type 0 where
  pub image : BinaryImage
  pub disassembly : DisassemblyResult
  pub analysis : ProgramAnalysis
  pub heuristic_findings : List HeuristicFinding

-- `DisassemblyOptions{}`
abbrev pub whole : DisassemblyOptions
whole = record { section_name = none; start_address = none; end_address = none }

abbrev pub to_bundle :
    HeuristicOptions → BinaryImage → DisassemblyResult → ProgramAnalysis → AnalysisBundle
to_bundle heuristic_options image d analysis = record {
  image = image;
  disassembly = d;
  analysis = analysis;
  heuristic_findings = detect image d analysis heuristic_options;
}

-- The stages behind the disassembly.
unfoldable pub analyze_disassembly :
    AnalysisOptions
    → HeuristicOptions
    → BinaryImage
    → Result DisassemblyResult
    → Option (Result AnalysisBundle)
unfolding analyze detect
analyze_disassembly analysis_options heuristic_options image (failure error) = some (failure error)
analyze_disassembly analysis_options heuristic_options image (success d) =
    analyze image d analysis_options >>=? λ r.
    some (r >>= λ analysis. success (to_bundle heuristic_options image d analysis))

-- The stages behind the loading of the file.
unfoldable pub analyze_image :
    Capstone
    → AnalysisOptions
    → HeuristicOptions
    → Result BinaryImage
    → Option (Result AnalysisBundle)
unfolding disassemble analyze_disassembly
analyze_image c analysis_options heuristic_options (failure error) = some (failure error)
analyze_image c analysis_options heuristic_options (success image) =
    analyze_disassembly analysis_options heuristic_options image (disassemble c image whole)

-- `BinaryAtlasEngine`: its `load`, `disassemble` and `analyze`. `contents` is what the stream of the file
-- at `path` gives; `none` is an exception, from its read or from the analyzer.
unfoldable pub engine_load : Elf → FileContents → Text → Option (Result BinaryImage)
unfolding load
engine_load e contents path = load e contents path

module _ (c : Capstone) (e : Elf) (contents : FileContents) (path : Text) where
  unfoldable pub engine_disassemble : DisassemblyOptions → Option (Result DisassemblyResult)
  unfolding engine_load disassemble
  engine_disassemble options = engine_load e contents path >>=? λ image.
      some (image >>= λ loaded. disassemble c loaded options)

  unfoldable pub engine_analyze :
      AnalysisOptions → HeuristicOptions → Option (Result AnalysisBundle)
  unfolding engine_load analyze_image
  engine_analyze analysis_options heuristic_options =
      engine_load e contents path >>=? analyze_image c analysis_options heuristic_options
