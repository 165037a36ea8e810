-- ===== src/Tests/Elf.antt =====
-- A small ELF file: two dynamic symbols, a relocation, a segment.
use binary_atlas.Prelude.{
  ℕ, ◌+◌, ◌≡◌, refl, true, false, not, List, [], ◌∷◌, ◌==◌, All, any, length,
}
use binary_atlas.Prelude.Int.{negsuc}
use binary_atlas.Prelude.Order.{Ordered}
use binary_atlas.Format.Symbols.Sorting.{SymbolOrder, RelocationOrder}
use binary_atlas.Prelude.Text.{Text, lit}
use binary_atlas.Core.Error.{success}
use binary_atlas.Core.Types.{
  BinaryFormat, Architecture, Endianness, SymbolType, SymbolBinding, Section, Symbol,
}
use binary_atlas.Core.Image.{BinaryImage}
use binary_atlas.Format.Ranges.Fits.{SectionFits, SegmentFits}
use binary_atlas.Format.Symbols.Names.{NamesOf, SymbolKind}
use binary_atlas.Format.Parse.{parse_buffer}
use binary_atlas.Format.Parse.Outcome.{Outcome, parse_buffer-Outcome}
use binary_atlas.Format.Parse.Sound.{parse_buffer-fits, parse_buffer-NamesOf, parse_buffer-Ordered}
use binary_atlas.Tests.Layouts.{test_elf, test_elf-IsElf}

abbrev pub elf_bytes : List ℕ
elf_bytes =
    127 ∷ 69 ∷ 76 ∷ 70 ∷ 2 ∷ 1 ∷ 1 ∷ 0 ∷ 0 ∷ 0 ∷ 0 ∷ 0 ∷ 0 ∷ 0 ∷ 0 ∷ 0 ∷ 2 ∷ 0 ∷ 62 ∷ 0 ∷ 1 ∷ 0 ∷ 0
    ∷ 0 ∷ 0 ∷ 16 ∷ 0 ∷ 0 ∷ 0 ∷ 0 ∷ 0 ∷ 0 ∷ 144 ∷ 0 ∷ 0 ∷ 0 ∷ 0 ∷ 0 ∷ 0 ∷ 0 ∷ 200 ∷ 0 ∷ 0 ∷ 0 ∷ 0 ∷ 0
    ∷ 0 ∷ 0 ∷ 0 ∷ 0 ∷ 0 ∷ 0 ∷ 64 ∷ 0 ∷ 56 ∷ 0 ∷ 1 ∷ 0 ∷ 64 ∷ 0 ∷ 4 ∷ 0 ∷ 1 ∷ 0 ∷ 0 ∷ 102 ∷ 0 ∷ 103
    ∷ 0 ∷ 46 ∷ 120 ∷ 0 ∷ 1 ∷ 0 ∷ 0 ∷ 0 ∷ 18 ∷ 0 ∷ 0 ∷ 0 ∷ 0 ∷ 0 ∷ 0 ∷ 0 ∷ 0 ∷ 0 ∷ 0 ∷ 0 ∷ 0 ∷ 0 ∷ 0
    ∷ 0 ∷ 0 ∷ 0 ∷ 0 ∷ 0 ∷ 3 ∷ 0 ∷ 0 ∷ 0 ∷ 18 ∷ 0 ∷ 2 ∷ 0 ∷ 0 ∷ 16 ∷ 0 ∷ 0 ∷ 0 ∷ 0 ∷ 0 ∷ 0 ∷ 4 ∷ 0
    ∷ 0 ∷ 0 ∷ 0 ∷ 0 ∷ 0 ∷ 0 ∷ 0 ∷ 32 ∷ 0 ∷ 0 ∷ 0 ∷ 0 ∷ 0 ∷ 0 ∷ 7 ∷ 0 ∷ 0 ∷ 0 ∷ 0 ∷ 0 ∷ 0 ∷ 0 ∷ 248
    ∷ 255 ∷ 255 ∷ 255 ∷ 255 ∷ 255 ∷ 255 ∷ 255 ∷ 1 ∷ 0 ∷ 0 ∷ 0 ∷ 5 ∷ 0 ∷ 0 ∷ 0 ∷ 0 ∷ 0 ∷ 0 ∷ 0 ∷ 0
    ∷ 0 ∷ 0 ∷ 0 ∷ 0 ∷ 16 ∷ 0 ∷ 0 ∷ 0 ∷ 0 ∷ 0 ∷ 0 ∷ 0 ∷ 16 ∷ 0 ∷ 0 ∷ 0 ∷ 0 ∷ 0 ∷ 0 ∷ 64 ∷ 0 ∷ 0 ∷ 0
    ∷ 0 ∷ 0 ∷ 0 ∷ 0 ∷ 64 ∷ 0 ∷ 0 ∷ 0 ∷ 0 ∷ 0 ∷ 0 ∷ 0 ∷ 1 ∷ 0 ∷ 0 ∷ 0 ∷ 0 ∷ 0 ∷ 0 ∷ 0 ∷ 0 ∷ 0 ∷ 0 ∷ 0
    ∷ 0 ∷ 0 ∷ 0 ∷ 0 ∷ 0 ∷ 0 ∷ 0 ∷ 0 ∷ 0 ∷ 0 ∷ 0 ∷ 0 ∷ 0 ∷ 0 ∷ 0 ∷ 0 ∷ 0 ∷ 0 ∷ 0 ∷ 0 ∷ 0 ∷ 0 ∷ 0 ∷ 0
    ∷ 0 ∷ 0 ∷ 0 ∷ 0 ∷ 0 ∷ 0 ∷ 0 ∷ 0 ∷ 0 ∷ 0 ∷ 0 ∷ 0 ∷ 0 ∷ 0 ∷ 0 ∷ 0 ∷ 0 ∷ 0 ∷ 0 ∷ 0 ∷ 1 ∷ 0 ∷ 0 ∷ 0
    ∷ 0 ∷ 0 ∷ 0 ∷ 0 ∷ 0 ∷ 0 ∷ 0 ∷ 0 ∷ 0 ∷ 0 ∷ 0 ∷ 0 ∷ 5 ∷ 0 ∷ 0 ∷ 0 ∷ 3 ∷ 0 ∷ 0 ∷ 0 ∷ 0 ∷ 0 ∷ 0 ∷ 0
    ∷ 0 ∷ 0 ∷ 0 ∷ 0 ∷ 0 ∷ 0 ∷ 0 ∷ 0 ∷ 0 ∷ 0 ∷ 0 ∷ 0 ∷ 64 ∷ 0 ∷ 0 ∷ 0 ∷ 0 ∷ 0 ∷ 0 ∷ 0 ∷ 8 ∷ 0 ∷ 0 ∷ 0
    ∷ 0 ∷ 0 ∷ 0 ∷ 0 ∷ 0 ∷ 0 ∷ 0 ∷ 0 ∷ 0 ∷ 0 ∷ 0 ∷ 0 ∷ 1 ∷ 0 ∷ 0 ∷ 0 ∷ 0 ∷ 0 ∷ 0 ∷ 0 ∷ 0 ∷ 0 ∷ 0 ∷ 0
    ∷ 0 ∷ 0 ∷ 0 ∷ 0 ∷ 5 ∷ 0 ∷ 0 ∷ 0 ∷ 11 ∷ 0 ∷ 0 ∷ 0 ∷ 6 ∷ 0 ∷ 0 ∷ 0 ∷ 0 ∷ 0 ∷ 0 ∷ 0 ∷ 0 ∷ 16 ∷ 0
    ∷ 0 ∷ 0 ∷ 0 ∷ 0 ∷ 0 ∷ 72 ∷ 0 ∷ 0 ∷ 0 ∷ 0 ∷ 0 ∷ 0 ∷ 0 ∷ 48 ∷ 0 ∷ 0 ∷ 0 ∷ 0 ∷ 0 ∷ 0 ∷ 0 ∷ 1 ∷ 0
    ∷ 0 ∷ 0 ∷ 0 ∷ 0 ∷ 0 ∷ 0 ∷ 1 ∷ 0 ∷ 0 ∷ 0 ∷ 0 ∷ 0 ∷ 0 ∷ 0 ∷ 24 ∷ 0 ∷ 0 ∷ 0 ∷ 0 ∷ 0 ∷ 0 ∷ 0 ∷ 5 ∷ 0
    ∷ 0 ∷ 0 ∷ 4 ∷ 0 ∷ 0 ∷ 0 ∷ 0 ∷ 0 ∷ 0 ∷ 0 ∷ 0 ∷ 0 ∷ 0 ∷ 0 ∷ 0 ∷ 0 ∷ 0 ∷ 0 ∷ 0 ∷ 0 ∷ 0 ∷ 0 ∷ 120
    ∷ 0 ∷ 0 ∷ 0 ∷ 0 ∷ 0 ∷ 0 ∷ 0 ∷ 24 ∷ 0 ∷ 0 ∷ 0 ∷ 0 ∷ 0 ∷ 0 ∷ 0 ∷ 2 ∷ 0 ∷ 0 ∷ 0 ∷ 0 ∷ 0 ∷ 0 ∷ 0 ∷ 1
    ∷ 0 ∷ 0 ∷ 0 ∷ 0 ∷ 0 ∷ 0 ∷ 0 ∷ 24 ∷ 0 ∷ 0 ∷ 0 ∷ 0 ∷ 0 ∷ 0 ∷ 0 ∷ []

abbrev name : List ℕ
name = lit "f"

abbrev import : Symbol
import = record {
  name = lit "f";
  section_name = [];
  source_table = lit ".x";
  address = 0;
  size = 0;
  type = SymbolType.function;
  binding = SymbolBinding.global;
  defined = false;
  imported = true;
  exported = false;
}

abbrev export : Symbol
export = record {
  name = lit "g";
  section_name = lit ".x";
  source_table = lit ".x";
  address = 0x1000;
  size = 4;
  type = SymbolType.function;
  binding = SymbolBinding.global;
  defined = true;
  imported = false;
  exported = true;
}

abbrev section : Text → ℕ → ℕ → ℕ → ℕ → ℕ → Section
section name type address offset size flags = record {
  name = name;
  range = record { start = address; end = address + size };
  file_offset = offset;
  file_size = size;
  alignment = 1;
  flags = flags;
  type = type;
  executable = flags == 6;
  writable = false;
  alloc = flags == 6;
}

abbrev elf_image : BinaryImage
elf_image = record {
  metadata = record {
    format = BinaryFormat.elf;
    architecture = Architecture.x86_64;
    endianness = Endianness.little;
    format_version = lit "ELF64";
    source_path = name;
    file_size = 456;
    entry_point = 0x1000;
    abi = 0;
    abi_version = 0;
    type = 2;
    machine = 62;
    stripped = true;
  };
  source_path = name;
  file_bytes = elf_bytes;
  sections =
      section [] 0 0 0 0 0
      ∷ section (lit ".x") 3 0 64 8 0
      ∷ section (lit ".x") 11 0x1000 72 48 6
      ∷ section (lit ".x") 4 0 120 24 0
      ∷ [];
  segments =
      record {
        type_name = lit "PT_LOAD";
        range = record { start = 0x1000; end = 0x1040 };
        file_offset = 0;
        file_size = 64;
        memory_size = 64;
        flags = 5;
        type = 1;
        executable = true;
        writable = false;
        readable = true;
      }
      ∷ [];
  symbols = import ∷ export ∷ [];
  relocations =
      record {
        section_name = lit ".x";
        symbol_name = lit "f";
        address = 0x2000;
        type = 7;
        addend = negsuc 7;
        has_addend = true;
      }
      ∷ [];
  imports = lit "f" ∷ [];
  exports = lit "g" ∷ [];
  extracted_strings = [];
}

parsed : parse_buffer test_elf name elf_bytes ≡ success elf_image
unfolding parse_buffer
parsed = refl

parse_buffer-fits_example :
    (elf_image.file_bytes ≡ elf_bytes)
    × All (SectionFits test_elf (length elf_bytes)) elf_image.sections
    × All (SegmentFits (length elf_bytes)) elf_image.segments
parse_buffer-fits_example =
    parse_buffer-fits test_elf test_elf-IsElf name elf_bytes elf_image parsed

parse_buffer-NamesOf_example :
    NamesOf (λ s. s.imported) elf_image.imports elf_image.symbols
    × NamesOf (λ s. s.exported) elf_image.exports elf_image.symbols
    × All SymbolKind elf_image.symbols
parse_buffer-NamesOf_example = parse_buffer-NamesOf test_elf name elf_bytes elf_image parsed

parse_buffer-Ordered_example :
    Ordered SymbolOrder elf_image.symbols
    × Ordered RelocationOrder elf_image.relocations
    × (elf_image.metadata.stripped
        ≡ not (any (λ s. s.type == test_elf.sht_symtab) elf_image.sections))
parse_buffer-Ordered_example =
    parse_buffer-Ordered test_elf test_elf-IsElf name elf_bytes elf_image parsed

parse_buffer-Outcome_example : Outcome test_elf elf_bytes (parse_buffer test_elf name elf_bytes)
parse_buffer-Outcome_example = parse_buffer-Outcome test_elf name elf_bytes
