-- ===== src/Tests/Heuristics.antt =====
-- A table of three pointers into code, and a function of high complexity.
use binary_atlas.Prelude.{ℕ, ◌≡◌, ◌↔◌, refl, true, false, some, List, [], ◌∷◌, ◌++◌, map, In, All}
use binary_atlas.Prelude.Text.{lit}
use binary_atlas.Core.Types.{Section}
use binary_atlas.Core.Image.{BinaryImage, is_executable_address}
use binary_atlas.Disasm.Index.{empty_result}
use binary_atlas.Analysis.Function.{RecoveredFunction, ProgramAnalysis}
use binary_atlas.Heuristics.Finding.{HeuristicFinding, default_options, clamp_confidence}
use binary_atlas.Heuristics.Vtable.{available_bytes, detect_vtable_regions, vtable_finding}
use binary_atlas.Heuristics.Vtable.Runs.{Triple, Covered}
use binary_atlas.Heuristics.Vtable.Regions.{FoundIn, detect_vtable_regions_lem}
use binary_atlas.Heuristics.Detect.{detect}
use binary_atlas.Heuristics.Detect.Categories.{high, dispatcher}
use binary_atlas.Heuristics.Detect.Grounded.{Grounded, detect-Grounded}
use binary_atlas.Heuristics.Detect.Reported.{Reports, IsComplex, IsDispatcher, detect-Reports}
use binary_atlas.Tests.Image.{sample_image, text_section}

abbrev pointer : List ℕ
pointer = 0 ∷ 16 ∷ 0 ∷ 0 ∷ 0 ∷ 0 ∷ 0 ∷ 0 ∷ []

abbrev table_section : Section
table_section = record {
  name = lit ".rodata";
  range = record { start = 0x2000; end = 0x2018 };
  file_offset = 8;
  file_size = 24;
  alignment = 8;
  flags = 2;
  type = 1;
  executable = false;
  writable = false;
  alloc = true;
}

abbrev table_image : BinaryImage
table_image = record sample_image {
  file_bytes = sample_image.file_bytes ++ pointer ++ pointer ++ pointer;
  sections = text_section ∷ table_section ∷ [];
}

one_region :
    (map (λ (f : HeuristicFinding). f.address) (detect_vtable_regions table_image)
      ≡ some 0x2000 ∷ [])
    × (map (λ (f : HeuristicFinding). f.confidence) (detect_vtable_regions table_image) ≡ 55 ∷ [])
unfolding detect_vtable_regions is_executable_address vtable_finding clamp_confidence
one_region = (refl, refl)

detect_vtable_regions_lem_example :
    ((f : HeuristicFinding)
      → In f (detect_vtable_regions table_image)
      → (s : Section) × In s table_image.sections × FoundIn table_image s f)
    × ((s : Section) (k : ℕ)
        → In s table_image.sections
        → s.executable ≡ false
        → s.alloc ≡ true
        → Triple table_image s (available_bytes table_image s) 0 k
        → Covered table_image s
            (available_bytes table_image s)
            0
            k
            (detect_vtable_regions table_image))
detect_vtable_regions_lem_example = detect_vtable_regions_lem table_image

abbrev busy : RecoveredFunction
busy = record {
  entry = 0x1000;
  name = lit "present";
  seed_reasons = [];
  blocks = [];
  call_sites = [];
  callees = [];
  referenced_strings = [];
  metrics = record {
    block_count = 12;
    edge_count = 22;
    instruction_count = 40;
    size_bytes = 90;
    loop_count = 1;
    connected_components = 1;
    max_in_degree = 2;
    max_out_degree = 6;
    average_out_degree = record { numerator = 22; denominator = 12 };
    call_out_degree = 0;
    cyclomatic_complexity = 12;
  };
  partial = false;
  ambiguous = false;
}

abbrev busy_analysis : ProgramAnalysis
busy_analysis = record {
  functions = busy ∷ [];
  call_graph = [];
  metrics = record {
    function_count = 1;
    block_count = 12;
    instruction_count = 40;
    call_edge_count = 0;
    looping_function_count = 1;
    dispatcher_candidate_count = 1;
  };
  unused_seeds = [];
}

detect-Grounded_example :
    All
      (Grounded busy_analysis.functions)
      (detect table_image empty_result busy_analysis default_options)
detect-Grounded_example = detect-Grounded table_image empty_result busy_analysis default_options

detect-Reports_example :
    (Reports high 0x1000 (detect table_image empty_result busy_analysis default_options) ↔ (
      (f : RecoveredFunction) × In f busy_analysis.functions
      × (f.entry ≡ 0x1000)
      × IsComplex default_options f))
    × (Reports dispatcher 0x1000 (detect table_image empty_result busy_analysis default_options) ↔ (
        (f : RecoveredFunction) × In f busy_analysis.functions
        × (f.entry ≡ 0x1000)
        × IsDispatcher default_options f))
detect-Reports_example =
    detect-Reports table_image empty_result busy_analysis default_options 0x1000
