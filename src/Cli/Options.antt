-- ===== src/Cli/Options.antt =====
-- src/cli/main.cpp: `CliOptions` and `parseCli`.
use binary_atlas.Prelude.{Bool, true, false, Option, none, some, List, [], ◌∷◌, ◌++◌, if◌then◌else◌}
use binary_atlas.Prelude.Text.{Text, lit, str_eq}
use binary_atlas.Util.Strings.{starts_with}
use binary_atlas.Core.Types.{Address}
use binary_atlas.Cli.Address.{parse_address}

pub record CliOptions : Type 0 where
  pub command : Text
  pub binary_path : Text
  pub section_name : Option Text
  pub start_address : Option Address
  pub end_address : Option Address
  pub function_selector : Option Text
  pub json_path : Option Text
  pub dot_path : Option Text
  pub dot_directory : Option Text
  pub json_stdout : Bool
  pub verbose : Bool
  pub full : Bool

abbrev pub new_options : Text → Text → CliOptions
new_options command binary_path = record {
  command = command;
  binary_path = binary_path;
  section_name = none;
  start_address = none;
  end_address = none;
  function_selector = none;
  json_path = none;
  dot_path = none;
  dot_directory = none;
  json_stdout = false;
  verbose = false;
  full = false;
}

unfoldable pub is_flag : Text → Bool
unfolding starts_with
is_flag value = starts_with (lit "--") value

-- What `printUsage` writes.
abbrev pub usage : Text
usage =
    lit "BinaryAtlas\nUsage:\n"
    ++ (lit "  binaryatlas inspect <binary> [--json [path]] [--verbose]\n"
        ++ (lit
              "  binaryatlas disasm <binary> [--section name] [--start addr] [--end addr] [--json [path]]\n"
            ++ (lit "  binaryatlas functions <binary> [--json [path]] [--verbose]\n"
                ++ (lit
                      "  binaryatlas cfg <binary> --function <addr|name> [--dot path] [--json [path]]\n"
                    ++ (lit "  binaryatlas callgraph <binary> [--dot path] [--json [path]]\n"
                        ++ (lit "  binaryatlas heuristics <binary> [--json [path]] [--verbose]\n"
                            ++ lit
                                "  binaryatlas analyze <binary> [--full] [--dot-dir dir] [--json [path]] [--verbose]\n"))))))

-- What a round of the loop does: go on with the next argument, go on behind the value that it has used, or
-- return `nullopt` after a message.
pub data Action : Type 0 where
  go_on : CliOptions → Action
  use_value : CliOptions → Action
  reject : Text → Action

-- The argument behind, where there is one that is no flag.
abbrev pub plain_value : Option Text → Option Text
plain_value none = none
plain_value (some value) = if is_flag value then none else some value

-- An option with a value that is no flag.
abbrev pub with_value : Option Text → (Text → CliOptions) → Text → Action
with_value value store message = elim (plain_value value) [
  | none ↦ reject message
  | some v ↦ use_value (store v)
]

-- An option with an address.
abbrev pub with_address : Option Text → (Address → CliOptions) → Text → Action
with_address none store message = reject []
with_address (some value) store message = elim (parse_address value) [
  | none ↦ reject message
  | some address ↦ use_value (store address)
]

-- A round of the loop at an argument, with the one behind it.
unfoldable pub take_option : Text → Option Text → CliOptions → Action
unfolding str_eq is_flag parse_address
take_option argument value o =
    if str_eq argument (lit "--json")
    then elim (plain_value value) [
      | none ↦ go_on (record o { json_stdout = true })
      | some path ↦ use_value (record o { json_path = some path })
    ]
    else if str_eq argument (lit "--dot")
    then with_value value (λ v. record o { dot_path = some v }) (lit "--dot requires a path\n")
    else if str_eq argument (lit "--dot-dir")
    then with_value value (λ v. record o { dot_directory = some v })
        (lit "--dot-dir requires a directory\n")
    else if str_eq argument (lit "--section")
    then with_value value (λ v. record o { section_name = some v })
        (lit "--section requires a value\n")
    else if str_eq argument (lit "--start")
    then with_address value (λ a. record o { start_address = some a })
        (lit "invalid --start address\n")
    else if str_eq argument (lit "--end")
    then with_address value (λ a. record o { end_address = some a }) (lit "invalid --end address\n")
    else if str_eq argument (lit "--function")
    then with_value value (λ v. record o { function_selector = some v })
        (lit "--function requires an address or name\n")
    else if str_eq argument (lit "--verbose")
    then go_on (record o { verbose = true })
    else if str_eq argument (lit "--full")
    then go_on (record o { full = true })
    else reject (lit "unknown option: " ++ (argument ++ lit "\n"))

-- The options, or the message that is written to the error stream.
pub data Parsed : Type 0 where
  options : CliOptions → Parsed
  rejected : Text → Parsed

unfoldable pub parse_options : List Text → CliOptions → Parsed
unfolding take_option
parse_options [] o = options o
parse_options (argument ∷ []) o = elim (take_option argument none o) [
  | go_on next ↦ options next
  | use_value next ↦ options next
  | reject message ↦ rejected message
]
parse_options (argument ∷ value ∷ rest) o = elim (take_option argument (some value) o) [
  | go_on next ↦ parse_options (value ∷ rest) next
  | use_value next ↦ parse_options rest next
  | reject message ↦ rejected message
]

-- `argv` with the name of the program.
unfoldable pub parse_cli : List Text → Parsed
unfolding parse_options
parse_cli [] = rejected usage
parse_cli (program ∷ []) = rejected usage
parse_cli (program ∷ command ∷ []) = rejected usage
parse_cli (program ∷ command ∷ path ∷ arguments) =
    parse_options arguments (new_options command path)
