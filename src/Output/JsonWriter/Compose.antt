-- ===== src/Output/JsonWriter/Compose.antt =====
-- Lemmas on `JsonWriter::renderAnalysis`: the document that it writes.
use binary_atlas.Prelude.{◌≡◌, refl, Option, none, some, ◌>>=?◌}
use binary_atlas.Prelude.Text.{Text, lit}
use binary_atlas.Engine.{AnalysisBundle}
use binary_atlas.Output.Json.{JsonLibrary, IsJson}
use binary_atlas.Output.JsonWriter.{
  inspect_json, disassembly_json, analysis_json, findings_json, render_inspect, render_disassembly,
  render_functions, render_heuristics, render_analysis,
}

module _ (j : JsonLibrary) (json : IsJson j) where
  open j use {Json, with_member, dump, parse}

  -- To parse what was dumped, and go on with the value, is to go on where the dump succeeds.
  reparse :
      (v : Json) (o : Option Text) (k : Json → Option Text) (r : Option Text)
      → dump v ≡ o
      → k v ≡ r
      → ((o >>=? parse) >>=? k) ≡ (o >>=? λ t. r)
  reparse v none k r e h = refl
  reparse v (some t) k r e h = rw (json.parse_dump v t e) h

  -- The whole document, built without a detour through text.
  abbrev pub whole_json : AnalysisBundle → Json
  whole_json b =
      with_member
        (with_member
          (with_member (inspect_json j b.image) (lit "disassembly")
            (disassembly_json j b.disassembly))
          (lit "analysis") (analysis_json j b.analysis))
        (lit "heuristics") (findings_json j b.heuristic_findings)

  -- Where JSON texts parse back, `renderAnalysis` writes the document of the image with the other
  -- three parts as members, each as its own command writes it; it throws exactly where one of the four
  -- parts or the whole cannot be written.
  pub render_analysis_lem :
      (b : AnalysisBundle)
      → render_analysis j b ≡ (
          render_inspect j b.image >>=? λ _. render_disassembly j b.disassembly >>=? λ _.
          render_functions j b.analysis >>=? λ _.
          render_heuristics j b.heuristic_findings >>=? λ _. dump (whole_json b))
  unfolding render_analysis render_inspect render_disassembly render_functions render_heuristics
  render_analysis_lem b = reparse (inspect_json j b.image) _ _ _ refl (
      reparse (disassembly_json j b.disassembly) _ _ _ refl (
        reparse (analysis_json j b.analysis) _ _ _ refl
          (reparse (findings_json j b.heuristic_findings) _ _ _ refl refl)))
