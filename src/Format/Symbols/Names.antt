-- ===== src/Format/Symbols/Names.antt =====
-- Lemmas on the loop over the symbol tables: the sets of names that it fills, and the kinds of table.
use binary_atlas.Prelude.{
  ℕ, ◌+◌, ◌≡◌, ◌≢◌, ◌↔◌, refl, ap, subst, ◌∙◌, Bool, true, false, not, ◌||◌, inl, inr, List, [],
  ◌∷◌, ◌++◌, ◌==◌, if◌then◌else◌, In, All, any, map, Bool-cases, if_true, if_false, In-append_left,
  In-append_right, In-append_cases, All-append, arith,
}
use binary_atlas.Prelude.Text.{Text, str_insert, In-str_insert}
use binary_atlas.Util.ByteReader.{ByteReader}
use binary_atlas.Core.Error.{success, >>=-eq-success, success_inj}
use binary_atlas.Core.Types.{Section, Symbol}
use binary_atlas.Format.ElfTypes.{Elf, Elf64Shdr, Elf64Sym}
use binary_atlas.Format.Symbols.{
  SymbolTables, no_symbols, to_symbol, add_symbol, add_symbols, is_symbol_table, read_symbols,
  section_name_at, parse_symbol_table, parse_symbol_tables, is_visible,
}

-- A set of names holds those of the symbols with a flag.
abbrev pub NamesOf : (Symbol → Bool) → List Text → List Symbol → Type 0
NamesOf flag names symbols =
    (n : Text) → In n names ↔ ((s : Symbol) × In s symbols × (flag s ≡ true) × (n ≡ s.name))

NamesOf-step :
    (flag : Symbol → Bool) (s : Symbol) (names : List Text) (symbols : List Symbol)
    → NamesOf flag names symbols
    → NamesOf flag (if flag s then str_insert s.name names else names) (symbols ++ s ∷ [])
NamesOf-step flag s names symbols h n = elim (Bool-cases (flag s)) [
  | inl set ↦ rw set (
    λ m. elim ((In-str_insert n s.name names).0 m) [
      | inl e ↦ (s, In-append_right s symbols (s ∷ []) (inl refl), set, e)
      | inr old ↦ let (t, k, f, e) = (h n).0 old in (t, In-append_left t symbols (s ∷ []) k, f, e)
    ],
    λ (t, k, f, e). elim (In-append_cases t symbols (s ∷ []) k) [
      | inl old ↦ (In-str_insert n s.name names).1 (inr ((h n).1 (t, old, f, e)))
      | inr new ↦ elim new [
        | inl same ↦ (In-str_insert n s.name names).1 (inl (e ∙ ap (λ (x : Symbol). x.name) same))
        | inr z ↦ absurd z
      ]
    ],
  )
  | inr unset ↦ rw unset (
    λ m. let (t, k, f, e) = (h n).0 m in (t, In-append_left t symbols (s ∷ []) k, f, e),
    λ (t, k, f, e). elim (In-append_cases t symbols (s ∷ []) k) [
      | inl old ↦ (h n).1 (t, old, f, e)
      | inr new ↦ elim new [ inl same ↦ absurd (cc (ap flag same)) | inr z ↦ absurd z ]
    ],
  )
]

-- What the flags of a symbol say.
pub record SymbolKind (s : Symbol) : Type 0 where
  pub imported_undefined : s.imported ≡ true → (s.defined ≡ false) × (s.name ≢ [])
  pub exported_defined : s.exported ≡ true → (s.defined ≡ true) × (is_visible s.binding ≡ true)

-- What the loop keeps.
pub record Collected (t : SymbolTables) : Type 0 where
  pub imports : NamesOf (λ s. s.imported) t.imports t.symbols
  pub exports : NamesOf (λ s. s.exported) t.exports t.symbols
  pub kinds : All SymbolKind t.symbols

pub no_symbols-Collected : Collected no_symbols
no_symbols-Collected = record {
  imports = λ n. (λ h. absurd h, λ h. absurd h.1);
  exports = λ n. (λ h. absurd h, λ h. absurd h.1);
  kinds = tt;
}

module _ (e : Elf) where
  to_symbol-SymbolKind :
      (dynamic : Bool) (strings : List ℕ) (table_name : Text) (sections : List Section)
      (entry : Elf64Sym)
      → SymbolKind (to_symbol e dynamic strings table_name sections entry)
  unfolding to_symbol
  to_symbol-SymbolKind dynamic strings table_name sections entry = record {
    imported_undefined = λ h. (ground (arith, h), λ empty. ground (arith, h, empty));
    exported_defined = λ h. (ground (arith, h), ground (arith, h));
  }

  add_symbol-Collected :
      (s : Symbol) (t : SymbolTables) → SymbolKind s → Collected t → Collected (add_symbol s t)
  unfolding add_symbol
  add_symbol-Collected s t k c = record {
    imports = NamesOf-step (λ x. x.imported) s t.imports t.symbols c.imports;
    exports = NamesOf-step (λ x. x.exported) s t.exports t.symbols c.exports;
    kinds = All-append SymbolKind t.symbols (s ∷ []) c.kinds (k, tt);
  }

  add_symbols-Collected :
      (dynamic : Bool) (strings : List ℕ) (table_name : Text) (sections : List Section)
      (entries : List Elf64Sym) (t : SymbolTables)
      → Collected t
      → Collected (add_symbols e dynamic strings table_name sections entries t)
        × ((add_symbols e dynamic strings table_name sections entries t).has_symtab ≡ t.has_symtab)
  unfolding add_symbols
  add_symbols-Collected dynamic strings table_name sections [] t c = (c, refl)
  add_symbols-Collected dynamic strings table_name sections (entry ∷ entries) t c =
      let s = to_symbol e dynamic strings table_name sections entry in
      let rest =
        add_symbols-Collected dynamic strings table_name sections entries (add_symbol s t) (
          add_symbol-Collected s t (to_symbol-SymbolKind dynamic strings table_name sections entry)
            c) in
      (rest.0, rest.1 ∙ kept s t)
    where
      kept : (s : Symbol) (t : SymbolTables) → (add_symbol s t).has_symtab ≡ t.has_symtab
      kept s t = refl

  -- One of the types is that of a full symbol table.
  abbrev pub has_full_table : List ℕ → Bool
  has_full_table types = any (λ type. type == e.sht_symtab) types

  module _ (reader : ByteReader) (headers : List Elf64Shdr) (sections : List Section) where
    parse_symbol_table-Collected :
        (index : ℕ) (h : Elf64Shdr) (t next : SymbolTables)
        → Collected t
        → parse_symbol_table e reader headers sections index h t ≡ success next
        → Collected next × (next.has_symtab ≡ (t.has_symtab || h.sh_type == e.sht_symtab))
    unfolding parse_symbol_table
    parse_symbol_table-Collected index h t next c p =
        elim (Bool-cases (not (is_symbol_table e h))) [
          | inl other ↦
              let same = success_inj (if_true (not (is_symbol_table e h)) _ _ other p) in
              subst
                (λ n. Collected n × (n.has_symtab ≡ (t.has_symtab || h.sh_type == e.sht_symtab)))
                same (c, ground arith)
          | inr table ↦
              let (read, first, last) =
                >>=-eq-success (read_symbols e reader headers h) _
                  (if_false (not (is_symbol_table e h)) _ _ table p) in
              let start = record t { has_symtab = t.has_symtab || h.sh_type == e.sht_symtab } in
              subst
                (λ n. Collected n × (n.has_symtab ≡ (t.has_symtab || h.sh_type == e.sht_symtab)))
                (success_inj last)
                (add_symbols-Collected (h.sh_type == e.sht_dynsym) read.0
                  (section_name_at sections index) sections read.1 start
                  (record { imports = c.imports; exports = c.exports; kinds = c.kinds }))
        ]

    pub parse_symbol_tables-Collected :
        (index : ℕ) (hs : List Elf64Shdr) (t result : SymbolTables)
        → Collected t
        → parse_symbol_tables e reader headers sections index hs t ≡ success result
        → Collected result
          × (result.has_symtab ≡ (t.has_symtab || has_full_table (map (λ h. h.sh_type) hs)))
    unfolding parse_symbol_tables
    parse_symbol_tables-Collected index [] t result c p =
        subst (λ r. Collected r × (r.has_symtab ≡ (t.has_symtab || false))) (success_inj p)
          (c, ground arith)
    parse_symbol_tables-Collected index (h ∷ hs) t result c p =
        let (next, first, more) =
          >>=-eq-success (parse_symbol_table e reader headers sections index h t) _ p in
        let one = parse_symbol_table-Collected index h t next c first in
        let all = parse_symbol_tables-Collected (index + 1) hs next result one.0 more in
        (all.0, ground (arith, one.1, all.1))
