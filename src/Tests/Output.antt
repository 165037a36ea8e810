-- ===== src/Tests/Output.antt =====
-- A JSON library that keeps its values as texts, and the documents and DOT files of an analysis.
use binary_atlas.Prelude.{
  ◌+◌, ◌≡◌, sym, true, false, some, List, [], ◌∷◌, ◌++◌, map, Distinct, Bool, ◌>>=?◌,
}
use binary_atlas.Prelude.Int.{ℤ, pos, negsuc}
use binary_atlas.Prelude.Text.{Text, lit}
use binary_atlas.Util.Strings.{decimal}
use binary_atlas.Disasm.Index.{empty_result}
use binary_atlas.Analysis.Function.{Ratio}
use binary_atlas.Engine.{AnalysisBundle}
use binary_atlas.Output.Json.{JsonLibrary, IsJson}
use binary_atlas.Output.JsonWriter.{
  render_inspect, render_disassembly, render_functions, render_heuristics, render_analysis,
}
use binary_atlas.Output.JsonWriter.Compose.{whole_json, render_analysis_lem}
use binary_atlas.Cli.Files.{dot_file_name}
use binary_atlas.Cli.DotFiles.{dot_files-Distinct}
use binary_atlas.Tests.Image.{sample_image}
use binary_atlas.Tests.Recovery.{sample, no_hints, analyzed}

abbrev integer_text : ℤ → Text
integer_text (pos n) = decimal n
integer_text (negsuc n) = lit "-" ++ decimal (n + 1)

abbrev boolean_text : Bool → Text
boolean_text true = lit "true"
boolean_text false = lit "false"

abbrev texts : List Text → Text
texts [] = []
texts (t ∷ ts) = t ++ lit "," ++ texts ts

abbrev members : List (Text × Text) → Text
members [] = []
members ((k, t) ∷ ts) = k ++ lit ":" ++ t ++ lit "," ++ members ts

abbrev pub text_library : JsonLibrary
text_library = record {
  Json = Text;
  text = λ t. lit "\"" ++ t ++ lit "\"";
  number = decimal;
  integer = integer_text;
  boolean = boolean_text;
  hundredths = decimal;
  ratio = λ (r : Ratio). decimal r.numerator ++ lit "/" ++ decimal r.denominator;
  array = λ ts. lit "[" ++ texts ts ++ lit "]";
  object = λ ts. lit "{" ++ members ts ++ lit "}";
  with_member = λ v k t. v ++ k ++ lit ":" ++ t;
  dump = some;
  parse = some;
}

pub text_library-IsJson : IsJson text_library
text_library-IsJson = record { parse_dump = λ v t h. sym h }

abbrev written_bundle : AnalysisBundle
written_bundle = record {
  image = sample_image;
  disassembly = empty_result;
  analysis = analyzed.0;
  heuristic_findings = [];
}

render_analysis_lem_example : render_analysis text_library written_bundle ≡ (
    render_inspect text_library written_bundle.image >>=? λ _.
    render_disassembly text_library written_bundle.disassembly >>=? λ _.
    render_functions text_library written_bundle.analysis >>=? λ _.
    render_heuristics text_library written_bundle.heuristic_findings >>=? λ _.
    some (whole_json text_library text_library-IsJson written_bundle))
render_analysis_lem_example = render_analysis_lem text_library text_library-IsJson written_bundle

dot_files-Distinct_example : Distinct (lit "callgraph.dot" ∷ map dot_file_name analyzed.0.functions)
dot_files-Distinct_example = dot_files-Distinct sample_image sample no_hints analyzed.0 analyzed.1
