-- ===== src/Heuristics/Detect/Reported.antt =====
-- Lemmas on `HeuristicDetector::analyze`: for which functions it reports high complexity or a dispatcher.
use binary_atlas.Prelude.{
  ◌≤◌, ◌≡◌, ◌↔◌, refl, subst, Bool, true, ◌||◌, ◌⊎◌, inl, inr, some, List, [], ◌∷◌, ◌++◌, leb, In,
  All, All-imp, All-In, In-append_cases, In-append_left, In-append_right, any, arith,
}
use binary_atlas.Prelude.Sort.{In-sort_by}
use binary_atlas.Prelude.Text.{Text, lit, str_eq, str_eq_iff}
use binary_atlas.Core.Types.{Address}
use binary_atlas.Core.Image.{BinaryImage}
use binary_atlas.Disasm.Index.{DisassemblyResult}
use binary_atlas.Analysis.Function.{RecoveredFunction, ProgramAnalysis}
use binary_atlas.Heuristics.Finding.{HeuristicFinding, HeuristicOptions, collect_matches}
use binary_atlas.Heuristics.Vtable.{regions_of, detect_vtable_regions}
use binary_atlas.Heuristics.Detect.{
  function_findings, all_function_findings, unsorted_findings, finding_less, detect,
}
use binary_atlas.Heuristics.Detectors.{
  binary_text_features, binary_engine, binary_vr, high_complexity, dispatcher_like,
}
use binary_atlas.Heuristics.Detect.Categories.{
  Other, high, dispatcher, Neither, later_findings, later_findings-Neither, regions_of-Neither,
  binary_engine-Neither, binary_vr-Neither,
}

-- One of the findings has the category, and is about the function at `a`.
abbrev pub Reports : Text → Address → List HeuristicFinding → Type 0
Reports category a xs =
    (x : HeuristicFinding) × In x xs × (x.category ≡ category) × (x.function ≡ some a)

module _ (category : Text) (a : Address) where
  Reports-append_cases :
      (xs ys : List HeuristicFinding)
      → Reports category a (xs ++ ys)
      → Reports category a xs ⊎ Reports category a ys
  Reports-append_cases xs ys (x, m, c, f) = elim (In-append_cases x xs ys m) [
    | inl l ↦ inl (x, l, c, f)
    | inr r ↦ inr (x, r, c, f)
  ]

  Reports-append_left :
      (xs ys : List HeuristicFinding) → Reports category a xs → Reports category a (xs ++ ys)
  Reports-append_left xs ys (x, m, c, f) = (x, In-append_left x xs ys m, c, f)

  Reports-append_right :
      (xs ys : List HeuristicFinding) → Reports category a ys → Reports category a (xs ++ ys)
  Reports-append_right xs ys (x, m, c, f) = (x, In-append_right x xs ys m, c, f)

  not-Reports : (xs : List HeuristicFinding) → All (Other category) xs → ¬ Reports category a xs
  not-Reports xs h (x, m, c, f) =
      cc (All-In (Other category) x xs h m, (str_eq_iff x.category category).1 c)

  -- Findings of other categories in front change nothing.
  Reports-behind :
      (xs ys : List HeuristicFinding)
      → All (Other category) xs
      → Reports category a (xs ++ ys)
      → Reports category a ys
  Reports-behind xs ys h r = elim (Reports-append_cases xs ys r) [
    | inl here ↦ absurd (not-Reports xs h here)
    | inr behind ↦ behind
  ]

abbrev pub IsComplex : HeuristicOptions → RecoveredFunction → Type 0
IsComplex o f = o.high_complexity_threshold ≤ f.metrics.cyclomatic_complexity

abbrev pub IsDispatcher : HeuristicOptions → RecoveredFunction → Type 0
IsDispatcher o f =
    (o.dispatcher_out_degree_threshold ≤ f.metrics.max_out_degree)
    ⊎ (o.dispatcher_out_degree_threshold ≤ f.metrics.call_out_degree)

module _ (o : HeuristicOptions) (f : RecoveredFunction) where
  high_complexity_facts :
      All
        (λ x.
          (x.category ≡ high) × (x.function ≡ some f.entry) × IsComplex o f × Other dispatcher x)
        (high_complexity o f)
  unfolding high_complexity str_eq
  high_complexity_facts = ground arith

  dispatcher_like_facts :
      All
        (λ x.
          (x.category ≡ dispatcher) × (x.function ≡ some f.entry) × IsDispatcher o f × Other high x)
        (dispatcher_like o f)
  unfolding dispatcher_like str_eq
  dispatcher_like_facts = ground arith

  Reports-high_complexity : IsComplex o f → Reports high f.entry (high_complexity o f)
  unfolding high_complexity
  Reports-high_complexity h =
      let test : leb o.high_complexity_threshold f.metrics.cyclomatic_complexity ≡ true =
        ground arith in
      rw test (_, inl refl, refl, refl)

  Reports-dispatcher_like : IsDispatcher o f → Reports dispatcher f.entry (dispatcher_like o f)
  unfolding dispatcher_like
  Reports-dispatcher_like h =
      let test : (leb o.dispatcher_out_degree_threshold f.metrics.max_out_degree
            || leb o.dispatcher_out_degree_threshold f.metrics.call_out_degree)
          ≡ true =
        ground (arith, h) in
      rw test (_, inl refl, refl, refl)

module _ (d : DisassemblyResult) (o : HeuristicOptions) (b : Bool) (a : Address) where
  -- What one function adds, for both categories.
  abbrev Exact : Text → (RecoveredFunction → Type 0) → RecoveredFunction → Type 0
  Exact category P f = Reports category a (function_findings d o b f) ↔ ((f.entry ≡ a) × P f)

  later_Other-high : (f : RecoveredFunction) → All (Other high) (later_findings d o b f)
  later_Other-high f =
      All-imp Neither (Other high) (later_findings d o b f) (λ x h. h.0)
        (later_findings-Neither f d o b)

  later_Other-dispatcher : (f : RecoveredFunction) → All (Other dispatcher) (later_findings d o b f)
  later_Other-dispatcher f =
      All-imp Neither (Other dispatcher) (later_findings d o b f) (λ x h. h.1)
        (later_findings-Neither f d o b)

  high-Exact : (f : RecoveredFunction) → Exact high (IsComplex o) f
  unfolding function_findings
  high-Exact f = (
    λ r. elim (Reports-append_cases high a (high_complexity o f) _ r) [
      | inl (x, m, c, g) ↦
          let facts = All-In _ x (high_complexity o f) (high_complexity_facts o f) m in
          (ground (arith, facts.1, g), facts.2)
      | inr behind ↦ absurd (
          not-Reports high a (later_findings d o b f) (later_Other-high f) (
            Reports-behind high a (dispatcher_like o f) _
              (All-imp _ (Other high) (dispatcher_like o f) (λ x h. h.3)
                (dispatcher_like_facts o f))
              behind))
    ],
    λ (same, h).
        Reports-append_left high a (high_complexity o f) _
          (subst (λ e. Reports high e (high_complexity o f)) same (Reports-high_complexity o f h)),
  )

  dispatcher-Exact : (f : RecoveredFunction) → Exact dispatcher (IsDispatcher o) f
  unfolding function_findings
  dispatcher-Exact f = (
    λ r.
        let behind =
          Reports-behind dispatcher a (high_complexity o f) _
            (All-imp _ (Other dispatcher) (high_complexity o f) (λ x h. h.3)
              (high_complexity_facts o f))
            r in
        elim (Reports-append_cases dispatcher a (dispatcher_like o f) _ behind) [
          | inl (x, m, c, g) ↦
              let facts = All-In _ x (dispatcher_like o f) (dispatcher_like_facts o f) m in
              (ground (arith, facts.1, g), facts.2)
          | inr last ↦
              absurd
                (not-Reports dispatcher a (later_findings d o b f) (later_Other-dispatcher f) last)
        ],
    λ (same, h). Reports-append_right dispatcher a (high_complexity o f) _ (
        Reports-append_left dispatcher a (dispatcher_like o f) _ (
          subst (λ e. Reports dispatcher e (dispatcher_like o f)) same
            (Reports-dispatcher_like o f h))),
  )

  all-Exact :
      (category : Text) (P : RecoveredFunction → Type 0)
      → ((f : RecoveredFunction) → Exact category P f)
      → (fs : List RecoveredFunction)
      → Reports category a (all_function_findings d o b fs)
        ↔ ((f : RecoveredFunction) × In f fs × (f.entry ≡ a) × P f)
  unfolding all_function_findings
  all-Exact category P exact [] = (λ r. absurd r.1, λ r. absurd r.1)
  all-Exact category P exact (f ∷ fs) = (
    λ r. elim (Reports-append_cases category a (function_findings d o b f) _ r) [
      | inl here ↦ let (e, p) = (exact f).0 here in (f, inl refl, e, p)
      | inr later ↦ let (g, m, e, p) = (all-Exact category P exact fs).0 later in (g, inr m, e, p)
    ],
    λ (g, m, e, p). elim m [
      | inl same ↦
          Reports-append_left category a (function_findings d o b f) _
            ((exact f).1 (subst (λ g. (g.entry ≡ a) × P g) same (e, p)))
      | inr later ↦
          Reports-append_right category a (function_findings d o b f) _
            ((all-Exact category P exact fs).1 (g, later, e, p))
    ],
  )

module _ (image : BinaryImage) (d : DisassemblyResult) (analysis : ProgramAnalysis)
    (o : HeuristicOptions) (a : Address) where
  detect-Exact :
      (category : Text) (P : RecoveredFunction → Type 0)
      → ((x : HeuristicFinding) → Neither x → Other category x)
      → ((b : Bool) (f : RecoveredFunction) → Exact d o b a category P f)
      → Reports category a (detect image d analysis o)
        ↔ ((f : RecoveredFunction) × In f analysis.functions × (f.entry ≡ a) × P f)
  unfolding detect unsorted_findings detect_vtable_regions
  detect-Exact category P other exact =
      let features = binary_text_features image in
      let engine = binary_engine (collect_matches features o.engine_keywords) in
      let vr = binary_vr (collect_matches features o.vr_keywords) in
      let regions = regions_of image image.sections in
      let has_region =
        any (λ (f : HeuristicFinding). str_eq f.category (lit "candidate_vtable_region")) regions in
      let rest = all_function_findings d o has_region analysis.functions in
      let all = all-Exact d o has_region a category P (exact has_region) analysis.functions in
      let skip = λ (xs : List HeuristicFinding) (h : All Neither xs).
        All-imp Neither (Other category) xs other h in
      (
        λ (x, m, c, f). all.0 (
            Reports-behind category a vr rest (skip vr (binary_vr-Neither _)) (
              Reports-behind category a engine (vr ++ rest) (skip engine (binary_engine-Neither _))
                (Reports-behind category a regions (engine ++ (vr ++ rest))
                  (skip regions (regions_of-Neither image image.sections))
                  (x, (In-sort_by finding_less x _).0 m, c, f)))),
        λ r.
            let (x, m, c, f) = Reports-append_right category a regions (engine ++ (vr ++ rest)) (
              Reports-append_right category a engine (vr ++ rest)
                (Reports-append_right category a vr rest (all.1 r))) in
            (x, (In-sort_by finding_less x _).1 m, c, f),
      )

  -- The function at an address is reported as highly complex exactly where the analysis has a function
  -- with that entry whose complexity reaches the threshold, and as a dispatcher exactly where it
  -- has one with that entry whose out-degree, of blocks or of calls, reaches the threshold.
  pub detect-Reports :
      (Reports high a (detect image d analysis o)
        ↔ ((f : RecoveredFunction) × In f analysis.functions × (f.entry ≡ a) × IsComplex o f))
      × (Reports dispatcher a (detect image d analysis o)
          ↔ ((f : RecoveredFunction) × In f analysis.functions × (f.entry ≡ a) × IsDispatcher o f))
  detect-Reports = (
    detect-Exact high (IsComplex o) (λ x h. h.0) (λ b. high-Exact d o b a),
    detect-Exact dispatcher (IsDispatcher o) (λ x h. h.1) (λ b. dispatcher-Exact d o b a),
  )
