-- ===== src/Analysis/Recovery/CallGraph/Edges.antt =====
-- Lemmas on `buildCallGraph`: its edges and their order.
use binary_atlas.Prelude.{
  ◌<◌, ◌==◌, ◌≡◌, refl, sym, ap, subst, ◌⊎◌, inl, inr, ◌↔◌, Bool, true, false, Option, none, some,
  List, [], ◌∷◌, any, Bool-cases, In, In-append_iff, Distinct, Distinct-concat, arith,
}
use mathlib.Core.Option.{some-injective}
use binary_atlas.Prelude.Sort.{In-sort_by, Distinct-sort_by, IsOrder}
use binary_atlas.Prelude.Order.{Ordered, Then, TextNotAfter, str_lt-TextNotAfter, sort_by-Ordered}
use binary_atlas.Analysis.Recovery.CallGraph.Calls.{IsCall, site_edge-IsCall}
use binary_atlas.Prelude.Text.{Text, str_eq_iff, str_lt-IsOrder}
use binary_atlas.Core.Types.{Address}
use binary_atlas.Core.Image.{BinaryImage}
use binary_atlas.Analysis.Function.{CallSite, RecoveredFunction, CallGraphEdge}
use binary_atlas.Analysis.Recovery.CallGraph.{
  bool_eq, same_edge, push_unique, push_edge, site_edge, add_call_site, add_call_sites,
  add_functions, names_by_entry, edge_less, build_call_graph,
}

bool_eq_lem : (a b : Bool) → bool_eq a b ≡ true → a ≡ b
bool_eq_lem true b h = sym h
bool_eq_lem false b h = ground arith

same_edge_refl : (e : CallGraphEdge) → same_edge e e ≡ true
unfolding same_edge
same_edge_refl e = elim (Bool-cases e.external) [
  | inl x ↦ ground (arith, x, str_eq_iff e.target_name e.target_name)
  | inr x ↦ ground (arith, x, str_eq_iff e.target_name e.target_name)
]

same_edge_eq : (e f : CallGraphEdge) → same_edge e f ≡ true → e ≡ f
unfolding same_edge
same_edge_eq e f h =
    let source : e.source ≡ f.source = ground arith in
    let target : e.target ≡ f.target = ground arith in
    let external : e.external ≡ f.external = ground (arith, bool_eq_lem e.external f.external) in
    let name : e.target_name ≡ f.target_name =
      ground (arith, str_eq_iff e.target_name f.target_name) in
    λ i. record {
      source = source i;
      target = target i;
      external = external i;
      target_name = name i;
    }

any_same : (e : CallGraphEdge) (es : List CallGraphEdge) → (any (same_edge e) es ≡ true) ↔ In e es
any_same e [] = (λ h. cc, λ m. absurd m)
any_same e (f ∷ es) = (
  λ h. elim (Bool-cases (same_edge e f)) [
    | inl s ↦ inl (same_edge_eq e f s)
    | inr s ↦ inr ((any_same e es).0 (ground (arith, s)))
  ],
  λ m. elim m [
    | inl q ↦ rw (← q, same_edge_refl e) refl
    | inr k ↦ ground (arith, (any_same e es).1 k)
  ],
)

In-push_unique :
    (e x : CallGraphEdge) (es : List CallGraphEdge) → In e (push_unique x es) ↔ ((e ≡ x) ⊎ In e es)
unfolding push_unique
In-push_unique e x es = elim (Bool-cases (any (same_edge x) es)) [
  | inl old ↦ rw old (
    λ m. inr m,
    λ m. elim m [ inl q ↦ subst (λ y. In y es) (sym q) ((any_same x es).0 old) | inr k ↦ k ],
  )
  | inr new ↦ rw new (ground (arith, In-append_iff e es (x ∷ [])))
]

push_unique-Distinct :
    (x : CallGraphEdge) (es : List CallGraphEdge) → Distinct es → Distinct (push_unique x es)
unfolding push_unique
push_unique-Distinct x es d = elim (Bool-cases (any (same_edge x) es)) [
  | inl e ↦ rw e d
  | inr e ↦ rw e (Distinct-concat es x d (λ m. ground (arith, e, any_same x es)))
]

In-push_edge :
    (o : Option CallGraphEdge) (e : CallGraphEdge) (es : List CallGraphEdge)
    → In e (push_edge o es) ↔ ((o ≡ some e) ⊎ In e es)
unfolding push_edge
In-push_edge none e es = (λ m. inr m, λ m. elim m [ inl q ↦ absurd (ground arith) | inr k ↦ k ])
In-push_edge (some x) e es = (
  λ m. elim ((In-push_unique e x es).0 m) [ inl s ↦ inl (ap some (sym s)) | inr k ↦ inr k ],
  λ m.
      (In-push_unique e x es).1
        (elim m [ inl s ↦ inl (sym (some-injective x e s)) | inr k ↦ inr k ]),
)

push_edge-Distinct :
    (o : Option CallGraphEdge) (es : List CallGraphEdge) → Distinct es → Distinct (push_edge o es)
unfolding push_edge
push_edge-Distinct none es d = d
push_edge-Distinct (some x) es d = push_unique-Distinct x es d

module _ (image : BinaryImage) (by_entry : List (Address × Text)) where
  abbrev FromSites : Address → List CallSite → CallGraphEdge → Type 0
  FromSites source sites e =
      (site : CallSite) × In site sites × (site_edge image by_entry source site ≡ some e)

  In-add_call_sites :
      (source : Address) (sites : List CallSite) (e : CallGraphEdge) (es : List CallGraphEdge)
      → In e (add_call_sites image by_entry source sites es) ↔ (FromSites source sites e ⊎ In e es)
  unfolding add_call_sites add_call_site
  In-add_call_sites source [] e es =
      (λ m. inr m, λ m. elim m [ inl (s, k, q) ↦ absurd k | inr k ↦ k ])
  In-add_call_sites source (site ∷ sites) e es =
      let next = add_call_site image by_entry source site es in
      let rest = In-add_call_sites source sites e next in
      let first = In-push_edge (site_edge image by_entry source site) e es in
      (
        λ m. elim (rest.0 m) [
          | inl (s, k, q) ↦ inl (s, inr k, q)
          | inr k ↦ elim (first.0 k) [ inl q ↦ inl (site, inl refl, q) | inr l ↦ inr l ]
        ],
        λ m. rest.1 (elim m [
          | inl (s, inl r, q) ↦
              inr (first.1 (inl (subst (λ x. site_edge image by_entry source x ≡ some e) r q)))
          | inl (s, inr k, q) ↦ inl (s, k, q)
          | inr l ↦ inr (first.1 (inr l))
        ]),
      )

  add_call_sites-Distinct :
      (source : Address) (sites : List CallSite) (es : List CallGraphEdge)
      → Distinct es
      → Distinct (add_call_sites image by_entry source sites es)
  unfolding add_call_sites add_call_site
  add_call_sites-Distinct source [] es d = d
  add_call_sites-Distinct source (site ∷ sites) es d =
      add_call_sites-Distinct source sites _
        (push_edge-Distinct (site_edge image by_entry source site) es d)

  -- The edge is that of a call in one of the functions.
  abbrev FromCalls : List RecoveredFunction → CallGraphEdge → Type 0
  FromCalls fs e =
      (f : RecoveredFunction) × In f fs
      × ((site : CallSite) × In site f.call_sites
          × (site_edge image by_entry f.entry site ≡ some e))

  In-add_functions :
      (fs : List RecoveredFunction) (e : CallGraphEdge) (es : List CallGraphEdge)
      → In e (add_functions image by_entry fs es) ↔ (FromCalls fs e ⊎ In e es)
  unfolding add_functions
  In-add_functions [] e es = (λ m. inr m, λ m. elim m [ inl (f, k, q) ↦ absurd k | inr k ↦ k ])
  In-add_functions (f ∷ fs) e es =
      let next = add_call_sites image by_entry f.entry f.call_sites es in
      let rest = In-add_functions fs e next in
      let first = In-add_call_sites f.entry f.call_sites e es in
      (
        λ m. elim (rest.0 m) [
          | inl (g, k, q) ↦ inl (g, inr k, q)
          | inr k ↦ elim (first.0 k) [ inl q ↦ inl (f, inl refl, q) | inr l ↦ inr l ]
        ],
        λ m. rest.1 (elim m [
          | inl (g, inl r, q) ↦ inr (
              first.1
                (inl (subst (λ (x : RecoveredFunction). FromSites x.entry x.call_sites e) r q)))
          | inl (g, inr k, q) ↦ inl (g, k, q)
          | inr l ↦ inr (first.1 (inr l))
        ]),
      )

  add_functions-Distinct :
      (fs : List RecoveredFunction) (es : List CallGraphEdge)
      → Distinct es
      → Distinct (add_functions image by_entry fs es)
  unfolding add_functions
  add_functions-Distinct [] es d = d
  add_functions-Distinct (f ∷ fs) es d =
      add_functions-Distinct fs _ (add_call_sites-Distinct f.entry f.call_sites es d)

-- The edge is that of a call site, with a known target, of one of the functions.
abbrev pub IsCalled : BinaryImage → List RecoveredFunction → CallGraphEdge → Type 0
IsCalled image fs e =
    (f : RecoveredFunction) × In f fs
    × ((site : CallSite) × In site f.call_sites
        × ((target : Address) × (site.target ≡ some target) × IsCall image fs f.entry target e))

-- An edge is in the call graph exactly where one of the functions has a call site whose target is known,
-- from the function's entry to that target, and either the target is the entry of a function, and the edge
-- is internal and named after the first function with it, or it is no function's entry but the address of
-- a symbol with a name, and the edge is external and named after the first such symbol.
pub In-build_call_graph :
    (image : BinaryImage) (fs : List RecoveredFunction) (e : CallGraphEdge)
    → In e (build_call_graph image fs) ↔ IsCalled image fs e
unfolding build_call_graph
In-build_call_graph image fs e =
    let names = names_by_entry fs [] in
    let all = In-add_functions image names fs e [] in
    let sorted = In-sort_by edge_less e (add_functions image names fs []) in
    (
      λ m. elim (all.0 (sorted.0 m)) [
        | inl (f, k, (site, l, q)) ↦
            (f, k, (site, l, (site_edge-IsCall image fs f.entry site e).0 q))
        | inr k ↦ absurd k
      ],
      λ (f, k, (site, l, c)).
          sorted.1 (all.1 (inl (f, k, (site, l, (site_edge-IsCall image fs f.entry site e).1 c)))),
    )

edge_less-IsOrder : IsOrder edge_less
unfolding edge_less
edge_less-IsOrder = record {
  asym = λ x y h. ground (arith, str_lt-IsOrder.asym x.target_name y.target_name);
  trans =
      λ x y z h k. ground (arith, str_lt-IsOrder.trans x.target_name y.target_name z.target_name);
}

-- By source, then by target, then by name.
abbrev pub EdgeOrder : CallGraphEdge → CallGraphEdge → Type 0
EdgeOrder x y =
    Then (◌<◌) x.source y.source
      (Then (◌<◌) x.target y.target (TextNotAfter x.target_name y.target_name))

edge_less-EdgeOrder : (x y : CallGraphEdge) → edge_less y x ≡ false → EdgeOrder x y
unfolding edge_less
edge_less-EdgeOrder x y h = elim (Bool-cases (y.source == x.source)) [
  | inr differ ↦ inl (ground (arith, differ, h))
  | inl same ↦ elim (Bool-cases (y.target == x.target)) [
    | inr differ ↦ inr (ground (arith, same), inl (ground (arith, same, differ, h)))
    | inl equal ↦ inr (
      ground (arith, same),
      inr (
        ground (arith, equal),
        str_lt-TextNotAfter x.target_name y.target_name (ground (arith, same, equal, h)),
      ),
    )
  ]
]

-- The call graph has no edge twice, and its edges are in the order of source, then target, then name, names
-- as in a dictionary of bytes.
pub build_call_graph-Ordered :
    (image : BinaryImage) (fs : List RecoveredFunction)
    → Distinct (build_call_graph image fs) × Ordered EdgeOrder (build_call_graph image fs)
unfolding build_call_graph
build_call_graph-Ordered image fs =
    let edges = add_functions image (names_by_entry fs []) fs [] in
    (
      Distinct-sort_by edge_less edges
          (add_functions-Distinct image (names_by_entry fs []) fs [] tt),
      sort_by-Ordered edge_less EdgeOrder edge_less-EdgeOrder edge_less-IsOrder edges,
    )
