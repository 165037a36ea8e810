-- ===== src/Output/Json.antt =====
-- What src/output/json_writer.cpp uses of nlohmann/json.hpp, which is not part of the repository: its
-- values, `dump(2)` and `parse` are a parameter, and `IsJson` is the documented round trip.
use binary_atlas.Prelude.{ℕ, ◌≡◌, Bool, Option, some, List}
use binary_atlas.Prelude.Int.{ℤ}
use binary_atlas.Prelude.Text.{Text}
use binary_atlas.Analysis.Function.{Ratio}

pub record JsonLibrary : Type 1 where
  pub Json : Type 0
  pub text : Text → Json
  pub number : ℕ → Json
  pub integer : ℤ → Json
  pub boolean : Bool → Json
  -- The doubles: a confidence in hundredths, and an average.
  pub hundredths : ℕ → Json
  pub ratio : Ratio → Json
  pub array : List Json → Json
  pub object : List (Text × Json) → Json
  -- `value[key] = member`
  pub with_member : Json → Text → Json → Json
  -- `value.dump(2)`; `none` is an exception, as for a text that is not UTF-8.
  pub dump : Json → Option Text
  -- `json::parse(text)`; `none` is an exception.
  pub parse : Text → Option Json

-- What `dump` writes is parsed to the value again.
pub record IsJson (j : JsonLibrary) : Type 0 where
  pub parse_dump : (v : j.Json) (t : Text) → j.dump v ≡ some t → j.parse t ≡ some v
