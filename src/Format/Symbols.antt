-- ===== src/Format/Symbols.antt =====
-- src/format/elf_parser.cpp: the loop of `parseBuffer` over the symbol tables, and the order of symbols.
pub mod Names
pub mod Sorting
use binary_atlas.Prelude.{
  ℕ, ◌+◌, Bool, true, false, not, ◌&&◌, ◌||◌, Option, none, some, List, [], ◌∷◌, ◌++◌, ◌==◌, ltb,
  is_empty, length, get_elem?, if◌then◌else◌,
}
use binary_atlas.Prelude.Text.{Text, lit, str_eq, str_lt, str_insert}
use binary_atlas.Util.ByteReader.{ByteReader}
use binary_atlas.Core.Error.{Result, success, parse, or_fail, ◌>>=◌}
use binary_atlas.Core.Types.{SymbolBinding, Section, Symbol}
use binary_atlas.Format.ElfTypes.{Elf, Elf64Shdr, Elf64Sym}
use binary_atlas.Format.Codes.{map_symbol_type, map_symbol_binding}
use binary_atlas.Format.Reads.{read_c_string, read_bounded_span, compute_entry_count, read_table}

-- What the loop fills.
pub record SymbolTables : Type 0 where
  pub symbols : List Symbol
  pub imports : List Text
  pub exports : List Text
  pub has_symtab : Bool

abbrev pub no_symbols : SymbolTables
no_symbols = record { symbols = []; imports = []; exports = []; has_symtab = false }

-- `sections[index].name`
abbrev pub section_name_at : List Section → ℕ → Text
section_name_at sections index = elim (get_elem? sections index) [ none ↦ [] | some s ↦ s.name ]

-- `binding == SymbolBinding::global || binding == SymbolBinding::weak`
abbrev pub is_visible : SymbolBinding → Bool
is_visible SymbolBinding.global = true
is_visible SymbolBinding.weak = true
is_visible SymbolBinding.local = false
is_visible SymbolBinding.unknown = false

-- The end of a round of the loop over the entries.
unfoldable pub add_symbol : Symbol → SymbolTables → SymbolTables
unfolding str_insert
add_symbol s t = record t {
  symbols = t.symbols ++ s ∷ [];
  imports = if s.imported then str_insert s.name t.imports else t.imports;
  exports = if s.exported then str_insert s.name t.exports else t.exports;
}

module _ (e : Elf) where
  -- The symbol of an entry; `dynamic` is `symtab_section.sh_type == SHT_DYNSYM`.
  unfoldable pub to_symbol : Bool → List ℕ → Text → List Section → Elf64Sym → Symbol
  unfolding read_c_string map_symbol_type map_symbol_binding
  to_symbol dynamic strings table_name sections entry =
      let name = read_c_string strings entry.st_name in
      let binding = map_symbol_binding e entry.st_info in
      let defined = not (entry.st_shndx == e.shn_undef) in
      record {
        name = name;
        section_name =
            if defined && ltb entry.st_shndx (length sections)
            then section_name_at sections entry.st_shndx
            else [];
        source_table = table_name;
        address = entry.st_value;
        size = entry.st_size;
        type = map_symbol_type e entry.st_info;
        binding = binding;
        defined = defined;
        imported = dynamic && not defined && not (is_empty name);
        exported = dynamic && defined && is_visible binding;
      }

  unfoldable pub add_symbols :
      Bool → List ℕ → Text → List Section → List Elf64Sym → SymbolTables → SymbolTables
  unfolding to_symbol add_symbol
  add_symbols dynamic strings table_name sections [] t = t
  add_symbols dynamic strings table_name sections (entry ∷ entries) t =
      add_symbols dynamic strings table_name sections entries
        (add_symbol (to_symbol dynamic strings table_name sections entry) t)

  abbrev pub is_symbol_table : Elf64Shdr → Bool
  is_symbol_table h = h.sh_type == e.sht_symtab || h.sh_type == e.sht_dynsym

  module _ (reader : ByteReader) (headers : List Elf64Shdr) where
    -- The entries of a table, and its strings.
    unfoldable pub read_symbols : Elf64Shdr → Result (List ℕ × List Elf64Sym)
    unfolding read_bounded_span compute_entry_count read_table
    read_symbols h = do
      string_section ←
          or_fail (get_elem? headers h.sh_link)
            (parse (lit "symbol table string link is out of range"))
      strings ←
          read_bounded_span reader string_section.sh_offset string_section.sh_size
            (lit "ELF symbol string table")
      count ← compute_entry_count h.sh_size h.sh_entsize (lit "symbol table")
      entries ← read_table e.sym reader h.sh_offset h.sh_entsize (lit "symbol") count
      success (strings, entries)

  module _ (reader : ByteReader) (headers : List Elf64Shdr) (sections : List Section) where
    -- A round of the loop over the sections, at `index`.
    unfoldable pub parse_symbol_table : ℕ → Elf64Shdr → SymbolTables → Result SymbolTables
    unfolding read_symbols add_symbols
    parse_symbol_table index h t =
        if not (is_symbol_table h)
        then success t
        else read_symbols reader headers h >>= λ table. success (
            add_symbols (h.sh_type == e.sht_dynsym) table.0 (section_name_at sections index)
              sections table.1
              (record t { has_symtab = t.has_symtab || h.sh_type == e.sht_symtab }))

    unfoldable pub parse_symbol_tables : ℕ → List Elf64Shdr → SymbolTables → Result SymbolTables
    unfolding parse_symbol_table
    parse_symbol_tables index [] t = success t
    parse_symbol_tables index (h ∷ hs) t =
        parse_symbol_table index h t >>= λ next. parse_symbol_tables (index + 1) hs next

-- The comparator of the symbols.
unfoldable pub symbol_less : Symbol → Symbol → Bool
unfolding str_eq str_lt
symbol_less left right =
    if not (left.address == right.address)
    then ltb left.address right.address
    else if not (str_eq left.name right.name)
    then str_lt left.name right.name
    else str_lt left.source_table right.source_table
