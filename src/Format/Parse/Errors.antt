-- ===== src/Format/Parse/Errors.antt =====
-- Lemmas on `parseBuffer`: which errors it returns.
use binary_atlas.Prelude.{ℕ, ◌+◌, List, [], ◌∷◌}
use binary_atlas.Prelude.Text.{Text}
use binary_atlas.Util.ByteReader.{ByteReader}
use binary_atlas.Core.Types.{Section}
use binary_atlas.Format.ElfTypes.{Elf, Elf64Ehdr, Elf64Shdr, Elf64Phdr}
use binary_atlas.Format.Reads.Errors.{
  OnlyParse, returns, bind-OnlyParse, parses, read_bounded_span-OnlyParse,
  compute_entry_count-OnlyParse, read_table-OnlyParse,
}
use binary_atlas.Format.Ranges.{parse_section, parse_sections, parse_segment, parse_segments}
use binary_atlas.Format.Symbols.{
  SymbolTables, read_symbols, parse_symbol_table, parse_symbol_tables,
}
use binary_atlas.Format.Relocations.{
  read_relocation_symbols, read_rela, read_rel, read_relocations, parse_relocation_table,
  parse_relocation_tables,
}
use binary_atlas.Format.Parse.{parse_tables}

ruleset reads =
    (parses, read_bounded_span-OnlyParse, compute_entry_count-OnlyParse, read_table-OnlyParse)

module _ (e : Elf) (n : ℕ) where
  parse_section-OnlyParse :
      (names : List ℕ) (index : ℕ) (h : Elf64Shdr) → OnlyParse (parse_section e n names index h)
  unfolding parse_section
  parse_section-OnlyParse names index h = search parses depth 12

  parse_sections-OnlyParse :
      (names : List ℕ) (index : ℕ) (hs : List Elf64Shdr)
      → OnlyParse (parse_sections e n names index hs)
  unfolding parse_sections
  parse_sections-OnlyParse names index [] = returns _
  parse_sections-OnlyParse names index (h ∷ hs) =
      search (parses, parse_section-OnlyParse, parse_sections-OnlyParse names (index + 1) hs)

  parse_segment-OnlyParse : (index : ℕ) (h : Elf64Phdr) → OnlyParse (parse_segment e n index h)
  unfolding parse_segment
  parse_segment-OnlyParse index h = search parses depth 12

  parse_segments-OnlyParse :
      (index : ℕ) (hs : List Elf64Phdr) → OnlyParse (parse_segments e n index hs)
  unfolding parse_segments
  parse_segments-OnlyParse index [] = returns _
  parse_segments-OnlyParse index (h ∷ hs) =
      search (parses, parse_segment-OnlyParse, parse_segments-OnlyParse (index + 1) hs)

module _ (e : Elf) (reader : ByteReader) (headers : List Elf64Shdr) where
  read_symbols-OnlyParse : (h : Elf64Shdr) → OnlyParse (read_symbols e reader headers h)
  unfolding read_symbols
  read_symbols-OnlyParse h = search reads depth 12

module _ (e : Elf) (reader : ByteReader) (headers : List Elf64Shdr) (sections : List Section) where
  parse_symbol_table-OnlyParse :
      (index : ℕ) (h : Elf64Shdr) (t : SymbolTables)
      → OnlyParse (parse_symbol_table e reader headers sections index h t)
  unfolding parse_symbol_table
  parse_symbol_table-OnlyParse index h t = search (reads, read_symbols-OnlyParse e reader headers)

  parse_symbol_tables-OnlyParse :
      (index : ℕ) (hs : List Elf64Shdr) (t : SymbolTables)
      → OnlyParse (parse_symbol_tables e reader headers sections index hs t)
  unfolding parse_symbol_tables
  parse_symbol_tables-OnlyParse index [] t = returns t
  parse_symbol_tables-OnlyParse index (h ∷ hs) t =
      bind-OnlyParse (parse_symbol_table-OnlyParse index h t)
        (parse_symbol_tables-OnlyParse (index + 1) hs)

  read_relocation_symbols-OnlyParse :
      (linked : Elf64Shdr) → OnlyParse (read_relocation_symbols e reader headers sections linked)
  unfolding read_relocation_symbols
  read_relocation_symbols-OnlyParse linked = search reads depth 12

  read_rela-OnlyParse :
      (index : ℕ) (h linked : Elf64Shdr) (strings : List ℕ) (count : ℕ)
      → OnlyParse (read_rela e reader headers sections index h linked strings count)
  unfolding read_rela
  read_rela-OnlyParse index h linked strings count =
      search (reads, read_relocation_symbols-OnlyParse)

  read_rel-OnlyParse :
      (index : ℕ) (h linked : Elf64Shdr) (strings : List ℕ) (count : ℕ)
      → OnlyParse (read_rel e reader headers sections index h linked strings count)
  unfolding read_rel
  read_rel-OnlyParse index h linked strings count =
      search (reads, read_relocation_symbols-OnlyParse)

  read_relocations-OnlyParse :
      (index : ℕ) (h : Elf64Shdr) → OnlyParse (read_relocations e reader headers sections index h)
  unfolding read_relocations
  read_relocations-OnlyParse index h =
      search (reads, read_rela-OnlyParse, read_rel-OnlyParse) depth 12

  parse_relocation_tables-OnlyParse :
      (index : ℕ) (hs : List Elf64Shdr)
      → OnlyParse (parse_relocation_tables e reader headers sections index hs)
  unfolding parse_relocation_tables parse_relocation_table
  parse_relocation_tables-OnlyParse index [] = returns _
  parse_relocation_tables-OnlyParse index (h ∷ hs) =
      search (parses, read_relocations-OnlyParse, parse_relocation_tables-OnlyParse (index + 1) hs)
        depth 8

module _ (e : Elf) (source_name : Text) (file_bytes : List ℕ) where
  pub parse_tables-OnlyParse :
      (n : ℕ) (header : Elf64Ehdr) → OnlyParse (parse_tables e source_name file_bytes n header)
  unfolding parse_tables
  parse_tables-OnlyParse n header =
      search
        (
          reads, parse_sections-OnlyParse, parse_segments-OnlyParse, parse_symbol_tables-OnlyParse,
          parse_relocation_tables-OnlyParse,
        )
        depth 24
