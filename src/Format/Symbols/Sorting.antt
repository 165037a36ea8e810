-- ===== src/Format/Symbols/Sorting.antt =====
-- Lemmas on the comparators of the symbols and the relocations.
use binary_atlas.Prelude.{
  ℕ, ◌<◌, sym, inl, inr, Bool-cases, List, ◌≡◌, ◌==◌, ltb, not, Bool, true, false, if◌then◌else◌,
  arith,
}
use binary_atlas.Prelude.Sort.{IsOrder, sort_by}
use binary_atlas.Prelude.Order.{
  Ordered, TextBefore, TextNotAfter, Then, str_lt-TextNotAfter, sort_by-Ordered,
}
use binary_atlas.Prelude.Text.{
  Text, str_eq, str_lt, str_eq_iff, str_lt_asym, str_lt_trans, str_lt_total,
}
use binary_atlas.Core.Types.{Symbol, Relocation}
use binary_atlas.Format.Symbols.{symbol_less}
use binary_atlas.Format.Relocations.{relocation_less}

-- The test of both comparators: a number, then two texts.
lex : ℕ → Text → Text → ℕ → Text → Text → Bool
lex a s t b u v =
    if not (a == b) then ltb a b else if not (str_eq s u) then str_lt s u else str_lt t v

-- The second text decides where the first ones are equal.
text_lex : Text → Text → Text → Text → Bool
text_lex s t u v = if not (str_eq s u) then str_lt s u else str_lt t v

text_lex_asym : (s t u v : Text) → text_lex s t u v ≡ true → text_lex u v s t ≡ false
unfolding text_lex
text_lex_asym s t u v h =
    ground (arith, h, str_eq_iff s u, str_eq_iff u s, str_lt_asym s u, str_lt_asym t v)

text_lex_trans :
    (s t u v x y : Text)
    → text_lex u v s t ≡ false
    → text_lex x y u v ≡ false
    → text_lex x y s t ≡ false
unfolding text_lex
text_lex_trans s t u v x y h k = ground (
  arith,
  h,
  k,
  str_eq_iff u s,
  str_eq_iff x u,
  str_eq_iff x s,
  str_lt_trans s u x,
  str_lt_trans t v y,
  str_lt_total u s,
  str_lt_total x u,
  str_lt_total x s,
  str_lt_asym s x,
  str_lt_asym s u,
  str_lt_asym u x,
  str_lt_asym x u,
  str_lt_asym x s,
  str_lt_asym u s,
)

lex_asym : (a b : ℕ) (s t u v : Text) → lex a s t b u v ≡ true → lex b u v a s t ≡ false
unfolding lex text_lex
lex_asym a b s t u v h = ground (arith, h, text_lex_asym s t u v)

lex_trans :
    (a b c : ℕ) (s t u v x y : Text)
    → lex b u v a s t ≡ false
    → lex c x y b u v ≡ false
    → lex c x y a s t ≡ false
unfolding lex text_lex
lex_trans a b c s t u v x y h k = ground (arith, h, k, text_lex_trans s t u v x y)

symbol_less-IsOrder : IsOrder symbol_less
unfolding symbol_less lex
symbol_less-IsOrder = record {
  asym = λ x y h. lex_asym x.address y.address x.name x.source_table y.name y.source_table h;
  trans = λ x y z h k.
      lex_trans x.address y.address z.address x.name x.source_table y.name y.source_table z.name
        z.source_table h k;
}

relocation_less-IsOrder : IsOrder relocation_less
unfolding relocation_less lex
relocation_less-IsOrder = record {
  asym = λ x y h.
      lex_asym x.address y.address x.section_name x.symbol_name y.section_name y.symbol_name h;
  trans = λ x y z h k.
      lex_trans x.address y.address z.address x.section_name x.symbol_name y.section_name
        y.symbol_name z.section_name z.symbol_name h k;
}

-- By address, then by name, then by table.
abbrev pub SymbolOrder : Symbol → Symbol → Type 0
SymbolOrder x y =
    Then (◌<◌) x.address y.address
      (Then TextBefore x.name y.name (TextNotAfter x.source_table y.source_table))

-- By address, then by section, then by symbol.
abbrev pub RelocationOrder : Relocation → Relocation → Type 0
RelocationOrder x y =
    Then (◌<◌) x.address y.address
      (Then TextBefore x.section_name y.section_name (TextNotAfter x.symbol_name y.symbol_name))

text_lex-Then : (s t u v : Text) → text_lex u v s t ≡ false → Then TextBefore s u (TextNotAfter t v)
unfolding text_lex
text_lex-Then s t u v h = elim (Bool-cases (str_eq u s)) [
  | inl same ↦
      inr (sym ((str_eq_iff u s).0 same), str_lt-TextNotAfter t v (ground (arith, same, h)))
  | inr differ ↦ elim (str_lt-TextNotAfter s u (ground (arith, differ, h))) [
    | inl same ↦ absurd (ground (arith, differ, (str_eq_iff u s).1 (sym same)))
    | inr before ↦ inl before
  ]
]

lex-Then :
    (a b : ℕ) (s t u v : Text)
    → lex b u v a s t ≡ false
    → Then (◌<◌) a b (Then TextBefore s u (TextNotAfter t v))
unfolding lex text_lex
lex-Then a b s t u v h = elim (Bool-cases (b == a)) [
  | inl same ↦ inr (ground (arith, same), text_lex-Then s t u v (ground (arith, same, h)))
  | inr differ ↦ inl (ground (arith, differ, h))
]

pub sort_by-SymbolOrder : (xs : List Symbol) → Ordered SymbolOrder (sort_by symbol_less xs)
unfolding symbol_less lex
sort_by-SymbolOrder =
    sort_by-Ordered symbol_less SymbolOrder
      (λ x y h. lex-Then x.address y.address x.name x.source_table y.name y.source_table h)
      symbol_less-IsOrder

pub sort_by-RelocationOrder :
    (xs : List Relocation) → Ordered RelocationOrder (sort_by relocation_less xs)
unfolding relocation_less lex
sort_by-RelocationOrder =
    sort_by-Ordered relocation_less RelocationOrder
      (λ x y h.
        lex-Then x.address y.address x.section_name x.symbol_name y.section_name y.symbol_name h)
      relocation_less-IsOrder
