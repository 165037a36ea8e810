-- ===== src/Analysis/Recovery/CallGraph/Calls.antt =====
-- Lemmas on `buildCallGraph`: the edge that a call gives, said without the maps and searches of the code.
use binary_atlas.Prelude.{
  ◌≡◌, ◌≢◌, refl, sym, ap, subst, ◌∙◌, ◌⊎◌, inl, inr, ◌↔◌, true, false, Option, none, some, List,
  [], ◌∷◌, ◌==◌, find_if, is_empty, Bool-cases, Option-cases, All, ◌>>=?◌, if◌then◌else◌, arith,
}
use mathlib.Core.Option.{some-injective}
use binary_atlas.Prelude.Search.{First, find_if-First, First-find_if, find_if-none}
use binary_atlas.Prelude.Sets.{map_find, map_emplace, map_find-put}
use binary_atlas.Prelude.Text.{Text}
use binary_atlas.Core.Types.{Address, Symbol}
use binary_atlas.Core.Image.{BinaryImage}
use binary_atlas.Analysis.Function.{CallSite, RecoveredFunction, CallGraphEdge}
use binary_atlas.Analysis.Recovery.CallGraph.{names_by_entry, is_named, call_edge, site_edge}

abbrev or_else : Option Text → Option Text → Option Text
or_else none o = o
or_else (some n) o = some n

or_else_assoc : (o p q : Option Text) → or_else (or_else o p) q ≡ or_else o (or_else p q)
or_else_assoc none p q = refl
or_else_assoc (some n) p q = refl

or_else-none : (o : Option Text) → o ≡ or_else o none
or_else-none none = refl
or_else-none (some n) = refl

map_find-emplace :
    (a k : Address) (n : Text) (m : List (Address × Text))
    → map_find a (map_emplace k n m) ≡ or_else (map_find a m) (if k == a then some n else none)
unfolding map_emplace
map_find-emplace a k n m = elim (Bool-cases (k == a)) [
  | inl same ↦
      let e : k ≡ a = ground (arith, same) in
      let test : (a == k) ≡ true = ground (arith, e) in
      elim (Option-cases (map_find a m)) [
        | inl new ↦
            let absent : map_find k m ≡ none = subst (λ b. map_find b m ≡ none) (sym e) new in
            rw (absent, new, same) (map_find-put a k n m ∙ rw test refl)
        | inr (x, old) ↦
            let there : map_find k m ≡ some x = subst (λ b. map_find b m ≡ some x) (sym e) old in
            rw (there, old) refl
      ]
  | inr differ ↦
      let test : (a == k) ≡ false = ground (arith, differ) in
      elim (Option-cases (map_find k m)) [
        | inl new ↦ rw (new, differ) (map_find-put a k n m ∙ rw test (or_else-none (map_find a m)))
        | inr (x, old) ↦ rw (old, differ) (or_else-none (map_find a m))
      ]
]

-- The name of the first function with the entry.
abbrev find_name : Address → List RecoveredFunction → Option Text
find_name a fs = find_if (λ (f : RecoveredFunction). f.entry == a) fs >>=? λ f. some f.name

map_find-names :
    (a : Address) (fs : List RecoveredFunction) (m : List (Address × Text))
    → map_find a (names_by_entry fs m) ≡ or_else (map_find a m) (find_name a fs)
unfolding names_by_entry
map_find-names a [] m = elim (Option-cases (map_find a m)) [
  | inl e ↦ rw e refl
  | inr (n, e) ↦ rw e refl
]
map_find-names a (f ∷ fs) m =
    map_find-names a fs (map_emplace f.entry f.name m)
    ∙ ap (λ o. or_else o (find_name a fs)) (map_find-emplace a f.entry f.name m)
    ∙ or_else_assoc (map_find a m) (if f.entry == a then some f.name else none) (find_name a fs)
    ∙ ap (or_else (map_find a m)) first
  where
    first :
        or_else (if f.entry == a then some f.name else none) (find_name a fs) ≡ find_name a (f ∷ fs)
    first = elim (Bool-cases (f.entry == a)) [ inl e ↦ rw e refl | inr e ↦ rw e refl ]

abbrev pub HasEntry : Address → RecoveredFunction → Type 0
HasEntry a f = f.entry ≡ a

abbrev pub IsNamed : Address → Symbol → Type 0
IsNamed a s = (s.address ≡ a) × (s.name ≢ [])

HasEntry-iff : (a : Address) (f : RecoveredFunction) → ((f.entry == a) ≡ true) ↔ HasEntry a f
HasEntry-iff a f = ground arith

is_named_iff : (a : Address) (s : Symbol) → (is_named a s ≡ true) ↔ IsNamed a s
is_named_iff a s = (
  λ h. (ground (arith, h), λ e. absurd (nonempty s.name (ground (arith, h)) e)),
  λ (at, some_name). ground (arith, at, named s.name some_name),
)
  where
    nonempty : (t : Text) → is_empty t ≡ false → t ≢ []
    nonempty [] h e = cc h
    nonempty (c ∷ t) h e = cc e

    named : (t : Text) → t ≢ [] → is_empty t ≡ false
    named [] h = absurd (h refl)
    named (c ∷ t) h = refl

module _ (image : BinaryImage) (fs : List RecoveredFunction) where
  -- An edge from the source to the target. Where a function has the target as its entry it is internal and
  -- named after the first one; otherwise it is external, and named after the first symbol at the
  -- target that has a name.
  abbrev pub IsCall : Address → Address → CallGraphEdge → Type 0
  IsCall source target e =
      (e.source ≡ source)
      × (e.target ≡ target)
      × (((e.external ≡ false)
            × ((g : RecoveredFunction) × First (HasEntry target) g fs × (e.target_name ≡ g.name)))
          ⊎ ((e.external ≡ true)
              × All (λ g. ¬ HasEntry target g) fs
              × ((s : Symbol) × First (IsNamed target) s image.symbols × (e.target_name ≡ s.name))))

  abbrev internal : Address → Address → Text → CallGraphEdge
  internal source target name = record {
    source = source;
    target = target;
    external = false;
    target_name = name;
  }

  abbrev external : Address → Address → Text → CallGraphEdge
  external source target name = record {
    source = source;
    target = target;
    external = true;
    target_name = name;
  }

  same_fields :
      (e f : CallGraphEdge)
      → e.source ≡ f.source
      → e.target ≡ f.target
      → e.external ≡ f.external
      → e.target_name ≡ f.target_name
      → e ≡ f
  same_fields e f source target kind name =
      λ i. record { source = source i; target = target i; external = kind i; target_name = name i }

  -- The edge by the two searches.
  abbrev searched :
      Address → Address → Option RecoveredFunction → Option Symbol → Option CallGraphEdge
  searched source target (some g) s = some (internal source target g.name)
  searched source target none none = none
  searched source target none (some s) = some (external source target s.name)

  abbrev function_at : Address → Option RecoveredFunction
  function_at target = find_if (λ (f : RecoveredFunction). f.entry == target) fs

  abbrev symbol_at : Address → Option Symbol
  symbol_at target = find_if (is_named target) image.symbols

  call_edge-searched :
      (source target : Address)
      → call_edge image (names_by_entry fs []) source target
        ≡ searched source target (function_at target) (symbol_at target)
  unfolding call_edge
  call_edge-searched source target = elim (Option-cases (function_at target)) [
    | inl e ↦
        let missing : map_find target (names_by_entry fs []) ≡ none =
          map_find-names target fs [] ∙ rw e refl in
        elim (Option-cases (symbol_at target)) [
          | inl s ↦ rw (call_edge, missing, e, s) refl
          | inr (x, s) ↦ rw (call_edge, missing, e, s) refl
        ]
    | inr (g, e) ↦
        let there : map_find target (names_by_entry fs []) ≡ some g.name =
          map_find-names target fs [] ∙ rw e refl in
        rw (call_edge, there, e) refl
  ]

  searched-IsCall :
      (source target : Address) (e : CallGraphEdge) (g : Option RecoveredFunction)
      (s : Option Symbol)
      → function_at target ≡ g
      → symbol_at target ≡ s
      → (searched source target g s ≡ some e) ↔ IsCall source target e
  searched-IsCall source target e (some g) s qg qs = (
    λ h.
        subst (IsCall source target) (some-injective _ e h)
          (refl, refl, inl (refl, (g, find_if-First _ _ (HasEntry-iff target) fs g qg, refl))),
    λ (from, to, kind). elim kind [
      | inl (inside, (g', first, name)) ↦
          let same : g ≡ g' =
            some-injective g g' (sym qg ∙ First-find_if _ _ (HasEntry-iff target) fs g' first) in
          ap some (
            same_fields (internal source target g.name) e (sym from) (sym to) (sym inside)
              (ap (λ (x : RecoveredFunction). x.name) same ∙ sym name))
      | inr (outside, none_there, rest) ↦
          absurd (cc (qg, (find_if-none _ _ (HasEntry-iff target) fs).1 none_there))
    ],
  )
  searched-IsCall source target e none (some s) qg qs = (
    λ h. subst (IsCall source target) (some-injective _ e h) (
      refl,
      refl,
      inr (
        refl,
        (find_if-none _ _ (HasEntry-iff target) fs).0 qg,
        (s, find_if-First _ _ (is_named_iff target) image.symbols s qs, refl),
      ),
    ),
    λ (from, to, kind). elim kind [
      | inl (inside, (g', first, name)) ↦
          absurd (cc (qg, First-find_if _ _ (HasEntry-iff target) fs g' first))
      | inr (outside, none_there, (s', first, name)) ↦
          let same : s ≡ s' =
            some-injective s s'
              (sym qs ∙ First-find_if _ _ (is_named_iff target) image.symbols s' first) in
          ap some (
            same_fields (external source target s.name) e (sym from) (sym to) (sym outside)
              (ap (λ (x : Symbol). x.name) same ∙ sym name))
    ],
  )
  searched-IsCall source target e none none qg qs = (
    λ h. absurd (cc h),
    λ (from, to, kind). elim kind [
      | inl (inside, (g', first, name)) ↦
          absurd (cc (qg, First-find_if _ _ (HasEntry-iff target) fs g' first))
      | inr (outside, none_there, (s', first, name)) ↦
          absurd (cc (qs, First-find_if _ _ (is_named_iff target) image.symbols s' first))
    ],
  )

  -- A call gives an edge exactly where its target is known, and there is a function or a symbol.
  pub site_edge-IsCall :
      (source : Address) (site : CallSite) (e : CallGraphEdge)
      → (site_edge image (names_by_entry fs []) source site ≡ some e)
        ↔ ((target : Address) × (site.target ≡ some target) × IsCall source target e)
  unfolding site_edge
  site_edge-IsCall source site e = at site.target
    where
      at :
          (o : Option Address)
          → ((o >>=? call_edge image (names_by_entry fs []) source) ≡ some e)
            ↔ ((target : Address) × (o ≡ some target) × IsCall source target e)
      at none = (λ h. absurd (cc h), λ (t, q, c). absurd (cc q))
      at (some t) =
          let iff = searched-IsCall source t e (function_at t) (symbol_at t) refl refl in
          let code = call_edge-searched source t in
          (
            λ h. (t, refl, iff.0 (sym code ∙ h)),
            λ (u, q, c).
                code ∙ iff.1 (subst (λ v. IsCall source v e) (sym (some-injective t u q)) c),
          )
