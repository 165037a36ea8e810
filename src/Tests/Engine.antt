-- ===== src/Tests/Engine.antt =====
-- A whole run: the small ELF file, decoded by the toy decoder, and analyzed.
use binary_atlas.Prelude.{◌^◌, ◌<◌, ◌≡◌, refl, some, [], ◌∷◌, map, length, In, All, arith}
use binary_atlas.Prelude.Text.{lit}
use binary_atlas.Util.FileIo.{readable}
use binary_atlas.Core.Error.{success}
use binary_atlas.Core.Types.{Address, Section}
use binary_atlas.Prelude.Sets.{upper_bound}
use binary_atlas.Disasm.Index.{add_all}
use binary_atlas.Disasm.Decode.{build_instruction, classify_instruction}
use binary_atlas.Disasm.Sections.Extent.{IsPlaced}
use binary_atlas.Analysis.Function.{RecoveredFunction, function_addresses}
use binary_atlas.Analysis.Recovery.Analyze.Graphs.{IsClosed}
use binary_atlas.Heuristics.Finding.{default_options}
use binary_atlas.Engine.{AnalysisBundle, whole, engine_analyze}
use binary_atlas.Engine.Sound.{engine_analyze_sound}
use binary_atlas.Engine.Total.{Returns, engine_analyze_total}
use binary_atlas.Tests.Disasm.{toy, toy-IsDecoder}
use binary_atlas.Tests.Elf.{elf_bytes}
use binary_atlas.Tests.Layouts.{test_elf, test_elf-IsElf}
use binary_atlas.Tests.Recovery.{no_hints}

ran :
    (b : AnalysisBundle) × (engine_analyze toy test_elf
        (readable elf_bytes)
        (lit "f")
        no_hints
        default_options
      ≡ some (success b))
unfolding engine_analyze add_all upper_bound build_instruction classify_instruction
ran = (_, refl)

abbrev bundle : AnalysisBundle
bundle = ran.0

kept : bundle.image.file_bytes ≡ elf_bytes
unfolding ran
kept = refl

functions_found : map (λ (f : RecoveredFunction). f.entry) bundle.analysis.functions ≡ 0x1000 ∷ []
unfolding ran
functions_found = refl

small : length bundle.image.file_bytes < 2 ^ 63
unfolding ran
small = omega arith

engine_analyze_sound_example :
    (readable elf_bytes ≡ readable bundle.image.file_bytes)
    × All
        (λ x. (s : Section) × In s bundle.image.sections × IsPlaced bundle.image whole s x)
        bundle.disassembly.instructions
    × All (IsClosed bundle.disassembly) bundle.analysis.functions
    × ((f g : RecoveredFunction) (a : Address)
        → In f bundle.analysis.functions
        → In g bundle.analysis.functions
        → ¬ (f ≡ g)
        → In a (function_addresses f)
        → ¬ In a (function_addresses g))
engine_analyze_sound_example =
    engine_analyze_sound toy test_elf (readable elf_bytes) (lit "f") no_hints default_options bundle
      toy-IsDecoder test_elf-IsElf small ran.1

engine_analyze_total_example :
    Returns toy test_elf
      (readable elf_bytes)
      (lit "f")
      no_hints
      default_options
      (engine_analyze toy test_elf (readable elf_bytes) (lit "f") no_hints default_options)
engine_analyze_total_example =
    engine_analyze_total toy test_elf (readable elf_bytes) (lit "f") no_hints default_options
