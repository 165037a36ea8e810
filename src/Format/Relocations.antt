-- ===== src/Format/Relocations.antt =====
-- src/format/elf_parser.cpp: the loop of `parseBuffer` over the relocation tables, and their order.
use binary_atlas.Prelude.{
  ℕ, ◌+◌, ◌%◌, ◌^◌, Bool, true, false, not, ◌||◌, none, some, List, [], ◌∷◌, ◌++◌, ◌==◌, ltb,
  get_elem?, map, if◌then◌else◌,
}
use binary_atlas.Prelude.Int.{pos}
use binary_atlas.Prelude.Text.{Text, lit, str_eq, str_lt}
use binary_atlas.Util.ByteReader.{ByteReader}
use binary_atlas.Core.Error.{Result, success, parse, or_fail, ◌>>=◌}
use binary_atlas.Core.Types.{Section, Relocation}
use binary_atlas.Format.ElfTypes.{Elf, Elf64Shdr, Elf64Sym, Elf64Rel, Elf64Rela}
use binary_atlas.Format.Reads.{read_c_string, read_bounded_span, compute_entry_count, read_table}
use binary_atlas.Format.Symbols.{section_name_at}

module _ (e : Elf) where
  -- The name of the symbol that an entry's `r_info` gives the index of.
  unfoldable pub relocation_symbol : List ℕ → List Elf64Sym → ℕ → Text
  unfolding read_c_string
  relocation_symbol strings symbols info = elim (get_elem? symbols (e.r_sym info)) [
    | none ↦ []
    | some s ↦ read_c_string strings s.st_name
  ]

  unfoldable pub from_rela : Text → List ℕ → List Elf64Sym → Elf64Rela → Relocation
  unfolding relocation_symbol
  from_rela section_name strings symbols entry = record {
    section_name = section_name;
    symbol_name = relocation_symbol strings symbols entry.r_info;
    address = entry.r_offset;
    type = e.r_type entry.r_info % 2 ^ 32;
    addend = entry.r_addend;
    has_addend = true;
  }

  unfoldable pub from_rel : Text → List ℕ → List Elf64Sym → Elf64Rel → Relocation
  unfolding relocation_symbol
  from_rel section_name strings symbols entry = record {
    section_name = section_name;
    symbol_name = relocation_symbol strings symbols entry.r_info;
    address = entry.r_offset;
    type = e.r_type entry.r_info % 2 ^ 32;
    addend = pos 0;
    has_addend = false;
  }

  abbrev pub is_relocation_table : Elf64Shdr → Bool
  is_relocation_table h = h.sh_type == e.sht_rela || h.sh_type == e.sht_rel

  module _ (reader : ByteReader) (headers : List Elf64Shdr) (sections : List Section) where
    -- The symbols of the linked section.
    unfoldable pub read_relocation_symbols : Elf64Shdr → Result (List Elf64Sym)
    unfolding compute_entry_count read_table
    read_relocation_symbols linked = do
      count ← compute_entry_count linked.sh_size linked.sh_entsize (lit "relocation symbol table")
      read_table e.sym reader linked.sh_offset linked.sh_entsize (lit "relocation symbol") count

    unfoldable pub read_rela : ℕ → Elf64Shdr → Elf64Shdr → List ℕ → ℕ → Result (List Relocation)
    unfolding read_table read_relocation_symbols from_rela
    read_rela index h linked strings count = do
      entries ← read_table e.rela reader h.sh_offset h.sh_entsize (lit "rela relocation") count
      symbols ← read_relocation_symbols linked
      success (map (from_rela (section_name_at sections index) strings symbols) entries)

    unfoldable pub read_rel : ℕ → Elf64Shdr → Elf64Shdr → List ℕ → ℕ → Result (List Relocation)
    unfolding read_table read_relocation_symbols from_rel
    read_rel index h linked strings count = do
      entries ← read_table e.rel reader h.sh_offset h.sh_entsize (lit "rel relocation") count
      symbols ← read_relocation_symbols linked
      success (map (from_rel (section_name_at sections index) strings symbols) entries)

    unfoldable pub read_relocations : ℕ → Elf64Shdr → Result (List Relocation)
    unfolding read_bounded_span compute_entry_count read_rela read_rel
    read_relocations index h = do
      linked ←
          or_fail (get_elem? headers h.sh_link)
            (parse (lit "relocation symbol table link is out of range"))
      string_section ←
          or_fail (get_elem? headers linked.sh_link)
            (parse (lit "relocation string table link is out of range"))
      strings ←
          read_bounded_span reader string_section.sh_offset string_section.sh_size
            (lit "relocation string table")
      count ← compute_entry_count h.sh_size h.sh_entsize (
          if h.sh_type == e.sht_rela
          then lit "rela relocation table"
          else lit "rel relocation table")
      (if h.sh_type == e.sht_rela
          then read_rela index h linked strings count
          else read_rel index h linked strings count)

    -- A round of the loop over the sections, at `index`: the relocations that it adds.
    unfoldable pub parse_relocation_table : ℕ → Elf64Shdr → Result (List Relocation)
    unfolding read_relocations
    parse_relocation_table index h =
        if not (is_relocation_table h) then success [] else read_relocations index h

    unfoldable pub parse_relocation_tables : ℕ → List Elf64Shdr → Result (List Relocation)
    unfolding parse_relocation_table
    parse_relocation_tables index [] = success []
    parse_relocation_tables index (h ∷ hs) = do
      here ← parse_relocation_table index h
      rest ← parse_relocation_tables (index + 1) hs
      success (here ++ rest)

-- The comparator of the relocations.
unfoldable pub relocation_less : Relocation → Relocation → Bool
unfolding str_eq str_lt
relocation_less left right =
    if not (left.address == right.address)
    then ltb left.address right.address
    else if not (str_eq left.section_name right.section_name)
    then str_lt left.section_name right.section_name
    else str_lt left.symbol_name right.symbol_name
