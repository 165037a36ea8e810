-- ===== src/Heuristics/Finding.antt =====
-- include/binaryatlas/heuristics: finding.hpp and the options of detector.hpp; `clampConfidence` and
-- `collectMatches` of src/heuristics/detector.cpp. A confidence is kept in hundredths.
use binary_atlas.Prelude.{ℕ, Option, none, some, List, [], ◌∷◌, if◌then◌else◌, ltb}
use binary_atlas.Prelude.Text.{Text, lit, str_insert}
use binary_atlas.Util.Strings.{first_matching_keyword}
use binary_atlas.Core.Types.{Address}

pub record HeuristicFinding : Type 0 where
  pub category : Text
  pub address : Option Address
  pub function : Option Address
  pub confidence : ℕ
  pub evidence : List Text
  pub explanation : Text

pub record HeuristicOptions : Type 0 where
  pub graphics_keywords : List Text
  pub vr_keywords : List Text
  pub engine_keywords : List Text
  pub high_complexity_threshold : ℕ
  pub dispatcher_out_degree_threshold : ℕ

abbrev pub default_options : HeuristicOptions
default_options = record {
  graphics_keywords =
      lit "directx"
      ∷ lit "dxgi"
      ∷ lit "d3d"
      ∷ lit "vulkan"
      ∷ lit "opengl"
      ∷ lit "swapbuffers"
      ∷ lit "present"
      ∷ [];
  vr_keywords = lit "openxr" ∷ lit "openvr" ∷ lit "steamvr" ∷ lit "xr" ∷ [];
  engine_keywords =
      lit "unity" ∷ lit "unreal" ∷ lit "ue4" ∷ lit "ue5" ∷ lit "cryengine" ∷ lit "godot" ∷ [];
  high_complexity_threshold = 8;
  dispatcher_out_degree_threshold = 5;
}

-- `std::clamp` of a value that is not negative.
unfoldable pub clamp_confidence : ℕ → ℕ
clamp_confidence value = if ltb 100 value then 100 else value

-- The keyword that a text adds to the set of matches.
unfoldable pub add_match : Option Text → List Text → List Text
unfolding str_insert
add_match none matches = matches
add_match (some keyword) matches = str_insert keyword matches

unfoldable pub collect_from : List Text → List Text → List Text → List Text
unfolding first_matching_keyword add_match
collect_from [] keywords matches = matches
collect_from (value ∷ values) keywords matches =
    collect_from values keywords (add_match (first_matching_keyword value keywords) matches)

unfoldable pub collect_matches : List Text → List Text → List Text
unfolding collect_from
collect_matches haystacks keywords = collect_from haystacks keywords []
