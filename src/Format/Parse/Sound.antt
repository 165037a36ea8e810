-- ===== src/Format/Parse/Sound.antt =====
-- Lemmas on `parseBuffer`: what holds of an image that it returns.
use binary_atlas.Prelude.{
  ℕ, ◌^◌, ◌<◌, ◌≡◌, refl, sym, ap, subst, ◌∙◌, Bool, not, ◌||◌, List, [], ◌∷◌, ◌==◌, All, any, map,
  length,
}
use binary_atlas.Prelude.Sort.{sort_by, In-sort_by, All-sort_by}
use binary_atlas.Prelude.Order.{Ordered}
use binary_atlas.Prelude.Text.{Text}
use binary_atlas.Core.Error.{success}
use binary_atlas.Core.Types.{Symbol, Section}
use binary_atlas.Core.Image.{BinaryImage}
use binary_atlas.Format.ElfTypes.{Elf, IsElf}
use binary_atlas.Format.Reads.Decoded.{read_table-All}
use binary_atlas.Format.Ranges.Fits.{
  SectionFits, SegmentFits, parse_sections-SectionFits, parse_segments-SegmentFits,
}
use binary_atlas.Format.Symbols.{no_symbols, symbol_less}
use binary_atlas.Format.Symbols.Names.{
  NamesOf, SymbolKind, no_symbols-Collected, parse_symbol_tables-Collected,
}
use binary_atlas.Format.Symbols.Sorting.{
  SymbolOrder, RelocationOrder, sort_by-SymbolOrder, sort_by-RelocationOrder,
}
use binary_atlas.Format.Parse.{to_image, parse_buffer}
use binary_atlas.Format.Parse.Stages.{parse_buffer-Stages, reader_of}

-- The names of a permuted list of symbols.
NamesOf-sort :
    (flag : Symbol → Bool) (names : List Text) (symbols : List Symbol)
    → NamesOf flag names symbols
    → NamesOf flag names (sort_by symbol_less symbols)
NamesOf-sort flag names symbols h n = (
  λ m. let (s, k, f, q) = (h n).0 m in (s, (In-sort_by symbol_less s symbols).1 k, f, q),
  λ (s, k, f, q). (h n).1 (s, (In-sort_by symbol_less s symbols).0 k, f, q),
)

any-map :
    {A : Type 0} (f : A → ℕ) (p : ℕ → Bool) (xs : List A) → any p (map f xs) ≡ any (λ x. p (f x)) xs
any-map f p [] = refl
any-map f p (x ∷ xs) = ap (λ b. p (f x) || b) (any-map f p xs)

module _ (e : Elf) (source_name : Text) (bytes : List ℕ) (image : BinaryImage)
    (parsed : parse_buffer e source_name bytes ≡ success image) where
  -- In an image that `parseBuffer` returns, the imports are the names of the imported symbols, and the
  -- exports those of the exported ones. An imported symbol is undefined and has a name; an exported one
  -- is defined, and its binding is global or weak.
  pub parse_buffer-NamesOf :
      NamesOf (λ s. s.imported) image.imports image.symbols
      × NamesOf (λ s. s.exported) image.exports image.symbols
      × All SymbolKind image.symbols
  unfolding to_image
  parse_buffer-NamesOf =
      let (header, small, ok, s) = parse_buffer-Stages e source_name bytes image parsed in
      let c =
        (parse_symbol_tables-Collected e (reader_of e source_name bytes) s.headers s.sections 0
          s.headers no_symbols s.tables no_symbols-Collected s.symbols_read).0 in
      subst
        (λ (i : BinaryImage).
          NamesOf (λ s. s.imported) i.imports i.symbols
          × NamesOf (λ s. s.exported) i.exports i.symbols
          × All SymbolKind i.symbols)
        s.built
        (
          NamesOf-sort (λ s. s.imported) s.tables.imports s.tables.symbols c.imports,
          NamesOf-sort (λ s. s.exported) s.tables.exports s.tables.symbols c.exports,
          All-sort_by symbol_less SymbolKind s.tables.symbols c.kinds,
        )

module _ (e : Elf) (elf : IsElf e) (source_name : Text) (bytes : List ℕ) (image : BinaryImage)
    (parsed : parse_buffer e source_name bytes ≡ success image) where
  -- An image that `parseBuffer` returns keeps the bytes of the file. The addresses of each section and
  -- segment end at their start plus the size, below 2^64. The content of each lies in the file, but
  -- for an empty one and a section of the type that has no content.
  pub parse_buffer-fits :
      (image.file_bytes ≡ bytes)
      × All (SectionFits e (length bytes)) image.sections
      × All (SegmentFits (length bytes)) image.segments
  unfolding to_image
  parse_buffer-fits =
      let (header, small, ok, s) = parse_buffer-Stages e source_name bytes image parsed in
      let words =
        read_table-All e.shdr (reader_of e source_name bytes) header.e_shoff header.e_shentsize _
          (λ h. h.sh_size < 2 ^ 64) elf.sh_size_word header.e_shnum s.headers s.headers_read in
      let program_words =
        read_table-All e.phdr (reader_of e source_name bytes) header.e_phoff header.e_phentsize _
          (λ h. (h.p_memsz < 2 ^ 64) × (h.p_filesz < 2 ^ 64))
          (λ b. (elf.p_memsz_word b, elf.p_filesz_word b)) header.e_phnum s.program_headers
          s.programs_read in
      let ranges =
        parse_sections-SectionFits e (length bytes) small s.names 0 s.headers s.sections words
          s.sections_read in
      let segments =
        parse_segments-SegmentFits e (length bytes) small 0 s.program_headers s.segments
          program_words s.segments_read in
      subst
        (λ (i : BinaryImage).
          (i.file_bytes ≡ bytes)
          × All (SectionFits e (length bytes)) i.sections
          × All (SegmentFits (length bytes)) i.segments)
        s.built (refl, ranges.0, segments)

  -- In an image that `parseBuffer` returns, the symbols are in the order of address, then name, then
  -- table, and the relocations in that of address, then section, then symbol, texts as in a
  -- dictionary of bytes. The binary counts as stripped exactly where no section is a full symbol table.
  pub parse_buffer-Ordered :
      Ordered SymbolOrder image.symbols
      × Ordered RelocationOrder image.relocations
      × (image.metadata.stripped ≡ not (any (λ s. s.type == e.sht_symtab) image.sections))
  unfolding to_image
  parse_buffer-Ordered =
      let (header, small, ok, s) = parse_buffer-Stages e source_name bytes image parsed in
      let words =
        read_table-All e.shdr (reader_of e source_name bytes) header.e_shoff header.e_shentsize _
          (λ h. h.sh_size < 2 ^ 64) elf.sh_size_word header.e_shnum s.headers s.headers_read in
      let types =
        (parse_sections-SectionFits e (length bytes) small s.names 0 s.headers s.sections words
          s.sections_read).1 in
      let full =
        (parse_symbol_tables-Collected e (reader_of e source_name bytes) s.headers s.sections 0
          s.headers no_symbols s.tables no_symbols-Collected s.symbols_read).1 in
      let is_full = λ (type : ℕ). type == e.sht_symtab in
      let stripped : not s.tables.has_symtab ≡ not (any (λ s. s.type == e.sht_symtab) s.sections) =
        ap not (
          full
          ∙ ap (any is_full) (sym types)
          ∙ any-map (λ (s : Section). s.type) is_full s.sections) in
      subst
        (λ (i : BinaryImage).
          Ordered SymbolOrder i.symbols
          × Ordered RelocationOrder i.relocations
          × (i.metadata.stripped ≡ not (any (λ s. s.type == e.sht_symtab) i.sections)))
        s.built
        (sort_by-SymbolOrder s.tables.symbols, sort_by-RelocationOrder s.relocations, stripped)
