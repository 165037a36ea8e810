-- ===== src/Format/Parse/Stages.antt =====
-- Lemmas on `parseBuffer`: the results of its stages, taken from a parse that succeeds.
use binary_atlas.Prelude.{ℕ, ◌^◌, ◌<◌, ◌≡◌, not, List, length, get_elem?, subst}
use binary_atlas.Prelude.Text.{Text, lit}
use binary_atlas.Util.Arithmetic.{cast_unsigned, unsigned}
use binary_atlas.Util.Arithmetic.Exact.{cast_size_t_inv}
use binary_atlas.Util.ByteReader.{ByteReader, read_object}
use binary_atlas.Core.Error.{
  success, parse, unsupported, reject_if, or_fail, >>=-eq-success, or_fail-eq-success, success_inj,
}
use binary_atlas.Core.Types.{Section, Segment, Relocation}
use binary_atlas.Core.Image.{BinaryImage}
use binary_atlas.Format.ElfTypes.{Elf, Elf64Ehdr, Elf64Shdr, Elf64Phdr}
use binary_atlas.Format.Reads.{has_prefix, read_bounded_span, read_table}
use binary_atlas.Format.Ranges.{parse_sections, parse_segments}
use binary_atlas.Format.Symbols.{SymbolTables, no_symbols, parse_symbol_tables}
use binary_atlas.Format.Relocations.{parse_relocation_tables}
use binary_atlas.Format.Parse.{elf_magic, check_header, to_image, parse_tables, parse_buffer}

module _ (e : Elf) (source_name : Text) (file_bytes : List ℕ) where
  abbrev pub reader_of : ByteReader
  reader_of = record { bytes = file_bytes }

  -- The values that the stages pass on.
  pub record Stages (header : Elf64Ehdr) (image : BinaryImage) : Type 0 where
    pub headers : List Elf64Shdr
    pub names : List ℕ
    pub sections : List Section
    pub program_headers : List Elf64Phdr
    pub segments : List Segment
    pub tables : SymbolTables
    pub relocations : List Relocation
    pub headers_read :
        read_table e.shdr reader_of header.e_shoff header.e_shentsize (lit "section") header.e_shnum
        ≡ success headers
    pub sections_read : parse_sections e (length file_bytes) names 0 headers ≡ success sections
    pub programs_read :
        read_table e.phdr reader_of header.e_phoff header.e_phentsize
          (lit "program header")
          header.e_phnum
        ≡ success program_headers
    pub segments_read : parse_segments e (length file_bytes) 0 program_headers ≡ success segments
    pub symbols_read :
        parse_symbol_tables e reader_of headers sections 0 headers no_symbols ≡ success tables
    pub relocations_read :
        parse_relocation_tables e reader_of headers sections 0 headers ≡ success relocations
    pub built :
        to_image e source_name file_bytes header sections segments tables relocations ≡ image

  parse_tables-Stages :
      (header : Elf64Ehdr) (image : BinaryImage)
      → parse_tables e source_name file_bytes (length file_bytes) header ≡ success image
      → Stages header image
  unfolding parse_tables
  parse_tables-Stages header image h =
      let n = length file_bytes in
      let (headers, e1, h1) =
        >>=-eq-success
          (read_table e.shdr reader_of header.e_shoff header.e_shentsize (lit "section")
            header.e_shnum)
          _ h in
      let (shstrtab, e2, h2) =
        >>=-eq-success
          (or_fail (get_elem? headers header.e_shstrndx)
            (parse (lit "invalid section string table index")))
          _ h1 in
      let (names, e3, h3) =
        >>=-eq-success
          (read_bounded_span reader_of shstrtab.sh_offset shstrtab.sh_size
            (lit "section string table"))
          _ h2 in
      let (sections, e4, h4) = >>=-eq-success (parse_sections e n names 0 headers) _ h3 in
      let (program_headers, e5, h5) =
        >>=-eq-success
          (read_table e.phdr reader_of header.e_phoff header.e_phentsize (lit "program header")
            header.e_phnum)
          _ h4 in
      let (segments, e6, h6) = >>=-eq-success (parse_segments e n 0 program_headers) _ h5 in
      let (tables, e7, h7) =
        >>=-eq-success (parse_symbol_tables e reader_of headers sections 0 headers no_symbols) _
          h6 in
      let (relocations, e8, h8) =
        >>=-eq-success (parse_relocation_tables e reader_of headers sections 0 headers) _ h7 in
      record {
        headers = headers;
        names = names;
        sections = sections;
        program_headers = program_headers;
        segments = segments;
        tables = tables;
        relocations = relocations;
        headers_read = e1;
        sections_read = e4;
        programs_read = e5;
        segments_read = e6;
        symbols_read = e7;
        relocations_read = e8;
        built = success_inj h8;
      }

  -- A parse that succeeds has read a header that it supports.
  pub parse_buffer-Stages :
      (image : BinaryImage)
      → parse_buffer e source_name file_bytes ≡ success image
      → (header : Elf64Ehdr) × (length file_bytes < 2 ^ 64)
        × (check_header e header ≡ success tt)
        × Stages header image
  unfolding parse_buffer
  parse_buffer-Stages image h =
      let (u, e1, h1) =
        >>=-eq-success
          (reject_if (not (has_prefix file_bytes elf_magic))
            (unsupported (lit "unsupported file magic")))
          _ h in
      let (size, e2, h2) =
        >>=-eq-success
          (or_fail (cast_unsigned (unsigned 64) (length file_bytes))
            (parse (lit "file exceeds supported host size limits")))
          _ h1 in
      let (header, e3, h3) =
        >>=-eq-success
          (or_fail (read_object e.ehdr reader_of 0) (parse (lit "truncated ELF header"))) _ h2 in
      let (v, e4, h4) = >>=-eq-success (check_header e header) _ h3 in
      let (same, small) = cast_size_t_inv (length file_bytes) size (or_fail-eq-success _ _ e2) in
      (
        header,
        small,
        e4,
        parse_tables-Stages header image
            (subst (λ n. parse_tables e source_name file_bytes n header ≡ success image) same h4),
      )
