-- ===== src/Cli/Files.antt =====
-- src/cli/main.cpp: `emit`, `resolveFunction`, `sanitizeName` and the writes of `main`.
use binary_atlas.Prelude.{
  ℕ, Bool, true, false, ◌&&◌, ◌||◌, Option, none, some, List, [], ◌∷◌, ◌++◌, ◌==◌, leb, map, drop,
  find_if, is_empty, if◌then◌else◌, ◌>>=?◌,
}
use binary_atlas.Prelude.Text.{Text, lit, str_eq}
use binary_atlas.Util.FileIo.{FileContents, Status, write_text_file, ensure_directory}
use binary_atlas.Util.Strings.{format_hex}
use binary_atlas.Core.Error.{Error}
use binary_atlas.Analysis.Function.{ProgramAnalysis, RecoveredFunction}
use binary_atlas.Output.Dot.{export_function_cfg, export_call_graph}
use binary_atlas.Cli.Address.{parse_address}
use binary_atlas.Cli.Options.{CliOptions}

-- What the program leaves: its exit code, its two streams, and the files that it has written.
pub record Run : Type 0 where
  pub exit_failure : Bool
  pub out : Text
  pub err : Text
  pub files : List (Text × Text)

abbrev pub succeed : Text → List (Text × Text) → Run
succeed out files = record { exit_failure = false; out = out; err = []; files = files }

abbrev pub fail : Text → List (Text × Text) → Run
fail err files = record { exit_failure = true; out = []; err = err; files = files }

-- `std::cerr << error.message << '\n'`
abbrev pub fail_with : Error → List (Text × Text) → Run
fail_with error files = fail (error.message ++ lit "\n") files

-- What the file system does: whether the binary opens, can be read, and its bytes; whether an output file
-- opens and takes its content; and the message where a directory cannot be made.
pub record FileSystem : Type 0 where
  pub contents : FileContents
  pub opens : Text → Bool
  pub takes : Text → Bool
  pub directory_error : Text → Option Text

unfoldable pub resolve_function : ProgramAnalysis → Text → Option RecoveredFunction
unfolding parse_address str_eq
resolve_function analysis selector = elim (parse_address selector) [
  | some address ↦ find_if (λ f. f.entry == address) analysis.functions
  | none ↦ find_if (λ f. str_eq f.name selector) analysis.functions
]

-- `std::isalnum` of the "C" locale.
abbrev pub is_alnum : ℕ → Bool
is_alnum c = (leb b'0' c && leb c b'9') || (leb b'A' c && leb c b'Z') || (leb b'a' c && leb c b'z')

unfoldable pub sanitize_name : Text → Text
sanitize_name name = map (λ c. if is_alnum c || c == b'_' then c else b'_') name

-- The name of the DOT file of a function.
unfoldable pub dot_file_name : RecoveredFunction → Text
unfolding sanitize_name format_hex
dot_file_name f = sanitize_name f.name ++ (lit "_" ++ (drop 2 (format_hex f.entry) ++ lit ".dot"))

-- `directory / name`, for a name without a slash.
abbrev pub ends_in_slash : Text → Bool
ends_in_slash [] = false
ends_in_slash (c ∷ []) = c == b'/'
ends_in_slash (c ∷ d ∷ rest) = ends_in_slash (d ∷ rest)

abbrev pub in_directory : Text → Text → Text
in_directory directory name =
    if is_empty directory || ends_in_slash directory
    then directory ++ name
    else directory ++ (lit "/" ++ name)

module _ (fs : FileSystem) where
  -- A write, and what follows it; a failed write ends the program.
  abbrev pub write_then :
      Text → Text → List (Text × Text) → (List (Text × Text) → Option Run) → Option Run
  write_then path content files next = elim (write_text_file (fs.opens path) (fs.takes path) path) [
    | Status.ok ↦ next (files ++ (path, content) ∷ [])
    | Status.failed error ↦ some (fail_with error files)
  ]

  -- `renderer()` runs first, also where its result is not used; `none` is its exception.
  unfoldable pub emit : CliOptions → Option Text → Text → List (Text × Text) → Option Run
  unfolding write_text_file
  emit o renderer default_terminal_output files = renderer >>=? λ rendered.
      if o.json_stdout then some (succeed rendered files) else elim o.json_path [
        | some path ↦
            write_then path rendered files
              (λ written. some (succeed (lit "wrote " ++ (path ++ lit "\n")) written))
        | none ↦ some (succeed default_terminal_output files)
      ]

  -- `if (options->dot_path) …`, and what follows.
  abbrev pub write_dot : Option Text → Text → (List (Text × Text) → Option Run) → Option Run
  write_dot none dot next = next []
  write_dot (some path) dot next = write_then path dot [] next

  -- The loop over the functions, and what follows it.
  unfoldable pub write_function_dots :
      Text
      → List RecoveredFunction
      → List (Text × Text)
      → (List (Text × Text) → Option Run)
      → Option Run
  unfolding write_text_file dot_file_name export_function_cfg
  write_function_dots directory [] files next = next files
  write_function_dots directory (f ∷ fs') files next =
      write_then (in_directory directory (dot_file_name f)) (export_function_cfg f) files
        (λ written. write_function_dots directory fs' written next)

  -- The graphs of `analyze --full`.
  unfoldable pub write_graphs :
      Text → ProgramAnalysis → (List (Text × Text) → Option Run) → Option Run
  unfolding ensure_directory write_text_file export_call_graph write_function_dots
  write_graphs directory analysis next =
      elim (ensure_directory (fs.directory_error directory) directory) [
        | Status.failed error ↦ some (fail_with error [])
        | Status.ok ↦
            write_then (in_directory directory (lit "callgraph.dot")) (export_call_graph analysis)
              [] (λ written. write_function_dots directory analysis.functions written next)
      ]
