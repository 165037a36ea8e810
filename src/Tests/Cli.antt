-- ===== src/Tests/Cli.antt =====
-- Runs of the program on the small ELF file, on a file that is not there, and on a directory.
use binary_atlas.Prelude.{◌≡◌, refl, true, none, some, List, [], ◌∷◌, arith}
use binary_atlas.Prelude.Text.{Text, lit, str_eq}
use binary_atlas.Util.FileIo.{FileContents, absent, unreadable, readable}
use binary_atlas.Util.Strings.{format_hex}
use binary_atlas.Cli.Address.{parse_address}
use binary_atlas.Cli.Main.{main}
use binary_atlas.Cli.Files.{FileSystem, fail, resolve_function}
use binary_atlas.Cli.Resolve.{resolve_function-format_hex}
use binary_atlas.Cli.Returns.{Returns}
use binary_atlas.Cli.Returns.Commands.{ThrownBy, main-Returns}
use binary_atlas.Tests.Disasm.{toy}
use binary_atlas.Tests.Elf.{elf_bytes}
use binary_atlas.Tests.Layouts.{test_elf}
use binary_atlas.Tests.Image.{sample_image}
use binary_atlas.Tests.Output.{text_library, text_library-IsJson}
use binary_atlas.Tests.Recovery.{sample, no_hints, analyzed, callee, callee_entry}

abbrev disk : FileContents → FileSystem
disk contents = record {
  contents = contents;
  opens = λ path. true;
  takes = λ path. true;
  directory_error = λ path. none;
}

abbrev arguments : List Text
arguments = lit "binaryatlas" ∷ lit "inspect" ∷ lit "f" ∷ []

missing :
    main toy test_elf text_library (disk absent) arguments
    ≡ some (fail (lit "failed to open file: f\n") [])
unfolding main str_eq
missing = refl

-- A directory opens, and its read throws.
directory : main toy test_elf text_library (disk unreadable) arguments ≡ none
unfolding main str_eq
directory = refl

negative : parse_address (lit "-1") ≡ some 0xffffffffffffffff
unfolding parse_address
negative = refl

abbrev full_arguments : List Text
full_arguments =
    lit "binaryatlas" ∷ lit "analyze" ∷ lit "f" ∷ lit "--full" ∷ lit "--json" ∷ lit "f.json" ∷ []

main-Returns_example :
    Returns
      (disk (readable elf_bytes))
      (ThrownBy toy test_elf text_library text_library-IsJson
        (disk (readable elf_bytes))
        full_arguments)
      (main toy test_elf text_library (disk (readable elf_bytes)) full_arguments)
main-Returns_example =
    main-Returns toy test_elf text_library text_library-IsJson (disk (readable elf_bytes))
      full_arguments

resolve_function-format_hex_example :
    resolve_function analyzed.0 (format_hex callee.0.entry) ≡ some callee.0
resolve_function-format_hex_example =
    resolve_function-format_hex sample_image sample no_hints analyzed.0 callee.0 analyzed.1 callee.1
      (omega (arith, callee_entry))
