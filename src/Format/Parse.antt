-- ===== src/Format/Parse.antt =====
-- src/format/elf_parser.cpp: `ElfParser::parseBuffer`, `ElfParser::parseFile` and `BinaryLoader::load`.
pub mod Stages
pub mod Errors
pub mod Outcome
pub mod Sound
pub mod Opened
use binary_atlas.Prelude.{
  ℕ, Bool, not, ◌||◌, Option, some, ◌>>=?◌, List, [], ◌∷◌, ◌==◌, length, get_or, get_elem?,
}
use binary_atlas.Prelude.Sort.{sort_by}
use binary_atlas.Prelude.Text.{Text, lit}
use binary_atlas.Util.Arithmetic.{cast_unsigned, unsigned}
use binary_atlas.Util.ByteReader.{ByteReader, read_object}
use binary_atlas.Util.FileIo.{FileContents, read_binary_file}
use binary_atlas.Core.Error.{Result, success, parse, unsupported, reject_if, or_fail, ◌>>◌, ◌>>=◌}
use binary_atlas.Core.Types.{
  BinaryFormat, Architecture, Endianness, BinaryMetadata, Section, Segment, Relocation,
}
use binary_atlas.Core.Image.{BinaryImage}
use binary_atlas.Format.ElfTypes.{Elf, Elf64Ehdr, Elf64Shdr}
use binary_atlas.Format.Reads.{has_prefix, read_bounded_span, read_table}
use binary_atlas.Format.Ranges.{parse_sections, parse_segments}
use binary_atlas.Format.Symbols.{SymbolTables, no_symbols, parse_symbol_tables, symbol_less}
use binary_atlas.Format.Relocations.{parse_relocation_tables, relocation_less}
use binary_atlas.Format.Strings.{extract_strings}

abbrev pub elf_magic : List ℕ
elf_magic = 0x7f ∷ lit "ELF"

module _ (e : Elf) where
  abbrev pub ident : Elf64Ehdr → ℕ → ℕ
  ident header index = get_or header.e_ident index 0

  -- The tests of the header, up to the first table.
  unfoldable pub check_header : Elf64Ehdr → Result (Unit {0})
  check_header header = do
    reject_if (not (ident header e.ei_class == e.elfclass64))
        (unsupported (lit "only ELF64 is supported"))
    reject_if (not (ident header e.ei_data == e.elfdata2lsb))
        (unsupported (lit "only little-endian ELF binaries are supported"))
    reject_if (not (header.e_machine == e.em_x86_64))
        (unsupported (lit "only x86_64 ELF binaries are supported"))
    reject_if (not (header.e_version == e.ev_current)) (parse (lit "unsupported ELF version"))
    reject_if (header.e_shnum == 0 || header.e_shnum == e.pn_xnum)
        (unsupported (lit "extended ELF section numbering is not supported in this version"))
    reject_if (header.e_shstrndx == e.shn_xindex)
        (unsupported (lit "extended ELF section name table index is not supported"))

  abbrev pub to_metadata : Text → List ℕ → Elf64Ehdr → Bool → BinaryMetadata
  to_metadata source_name file_bytes header has_symtab = record {
    format = BinaryFormat.elf;
    architecture = Architecture.x86_64;
    endianness = Endianness.little;
    format_version = lit "ELF64";
    source_path = source_name;
    file_size = length file_bytes;
    entry_point = header.e_entry;
    abi = ident header e.ei_osabi;
    abi_version = ident header e.ei_abiversion;
    type = header.e_type;
    machine = header.e_machine;
    stripped = not has_symtab;
  }

  -- The end of `parseBuffer`: both sorts and the image.
  unfoldable pub to_image :
      Text
      → List ℕ
      → Elf64Ehdr
      → List Section
      → List Segment
      → SymbolTables
      → List Relocation
      → BinaryImage
  unfolding sort_by symbol_less relocation_less extract_strings
  to_image source_name file_bytes header sections segments tables relocations = record {
    metadata = to_metadata source_name file_bytes header tables.has_symtab;
    source_path = source_name;
    file_bytes = file_bytes;
    sections = sections;
    segments = segments;
    symbols = sort_by symbol_less tables.symbols;
    relocations = sort_by relocation_less relocations;
    imports = tables.imports;
    exports = tables.exports;
    extracted_strings = extract_strings file_bytes sections;
  }

  -- The reads behind the header: section headers, their names, program headers, symbols, relocations.
  unfoldable pub parse_tables : Text → List ℕ → ℕ → Elf64Ehdr → Result BinaryImage
  unfolding read_table read_bounded_span parse_sections parse_segments parse_symbol_tables
      parse_relocation_tables to_image
  parse_tables source_name file_bytes file_size header =
      let reader : ByteReader = record { bytes = file_bytes } in
      do
        headers ←
            read_table e.shdr reader header.e_shoff header.e_shentsize (lit "section")
              header.e_shnum
        shstrtab ←
            or_fail (get_elem? headers header.e_shstrndx)
              (parse (lit "invalid section string table index"))
        names ←
            read_bounded_span reader shstrtab.sh_offset shstrtab.sh_size
              (lit "section string table")
        sections ← parse_sections e file_size names 0 headers
        program_headers ←
            read_table e.phdr reader header.e_phoff header.e_phentsize (lit "program header")
              header.e_phnum
        segments ← parse_segments e file_size 0 program_headers
        tables ← parse_symbol_tables e reader headers sections 0 headers no_symbols
        relocations ← parse_relocation_tables e reader headers sections 0 headers
        success (to_image source_name file_bytes header sections segments tables relocations)

  unfoldable pub parse_buffer : Text → List ℕ → Result BinaryImage
  unfolding has_prefix cast_unsigned read_object check_header parse_tables
  parse_buffer source_name file_bytes = do
    reject_if (not (has_prefix file_bytes elf_magic)) (unsupported (lit "unsupported file magic"))
    file_size ←
        or_fail (cast_unsigned (unsigned 64) (length file_bytes))
          (parse (lit "file exceeds supported host size limits"))
    header ←
        or_fail (read_object e.ehdr (record { bytes = file_bytes }) 0)
          (parse (lit "truncated ELF header"))
    check_header header
    parse_tables source_name file_bytes file_size header

  -- `contents` is what the stream of the file at `path` gives; `none` is an exception.
  unfoldable pub parse_file : FileContents → Text → Option (Result BinaryImage)
  unfolding read_binary_file parse_buffer
  parse_file contents path =
      read_binary_file contents path >>=? λ file_bytes. some (file_bytes >>= parse_buffer path)

  unfoldable pub load : FileContents → Text → Option (Result BinaryImage)
  unfolding parse_file
  load contents path = parse_file contents path
