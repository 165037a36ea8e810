-- ===== src/Heuristics/Detect/Grounded.antt =====
-- Lemmas on `HeuristicDetector::analyze`: what each finding refers to.
use binary_atlas.Prelude.{
  ℕ, zero, suc, ◌+◌, ◌*◌, ◌-◌, ◌≤◌, ◌<◌, ◌≡◌, refl, Bool, false, ◌⊎◌, inl, inr, none, some, List,
  [], ◌∷◌, leb, In, All, All-append, All-imp, length-append, Bool-cases, is_empty, length, arith,
}
use binary_atlas.Prelude.Sort.{All-sort_by}
use binary_atlas.Prelude.Text.{Text}
use binary_atlas.Core.Types.{Section}
use binary_atlas.Core.Image.{BinaryImage}
use binary_atlas.Disasm.Index.{DisassemblyResult}
use binary_atlas.Analysis.Function.{RecoveredFunction, ProgramAnalysis}
use binary_atlas.Heuristics.Finding.{
  HeuristicFinding, HeuristicOptions, clamp_confidence, collect_matches,
}
use binary_atlas.Heuristics.Vtable.{
  vtable_loop, section_regions, regions_of, detect_vtable_regions, is_skipped, available_bytes,
  run_from,
}
use binary_atlas.Heuristics.Function.{function_text_features}
use binary_atlas.Heuristics.Detect.{
  function_findings, all_function_findings, unsorted_findings, finding_less, detect,
}
use binary_atlas.Heuristics.Detectors.{
  name_evidence, binary_text_features, binary_engine, binary_vr, high_complexity, dispatcher_like,
  virtual_dispatch, jump_table, render_hook, function_vr, function_engine,
}

-- A finding about the function, or about none; with a confidence of at most one, and evidence.
pub record IsAbout (f : RecoveredFunction) (x : HeuristicFinding) : Type 0 where
  pub function : x.function ≡ some f.entry
  pub address : x.address ≡ some f.entry
  pub confidence : x.confidence ≤ 100
  pub evidence : 0 < length x.evidence

pub record IsAboutBinary (x : HeuristicFinding) : Type 0 where
  pub function : x.function ≡ none
  pub confidence : x.confidence ≤ 100
  pub evidence : 0 < length x.evidence

pub clamp_confidence_bound : (c : ℕ) → clamp_confidence c ≤ 100
unfolding clamp_confidence
clamp_confidence_bound c = ground arith

is_empty-length : (xs : List Text) → is_empty xs ≡ false → 0 < length xs
is_empty-length [] h = cc
is_empty-length (x ∷ xs) h = omega arith

vtable_loop-IsAboutBinary :
    (image : BinaryImage) (s : Section) (available fuel cursor : ℕ)
    → All IsAboutBinary (vtable_loop image s available fuel cursor)
unfolding vtable_loop
vtable_loop-IsAboutBinary image s available zero cursor = tt
vtable_loop-IsAboutBinary image s available (suc fuel) cursor =
    let run = run_from image s available available cursor 0 in
    elim (Bool-cases (leb (cursor + 8) available)) [
      | inr out ↦ rw out tt
      | inl inside ↦ elim (Bool-cases (leb 3 run)) [
        | inr short ↦
            rw (inside, short) (vtable_loop-IsAboutBinary image s available fuel (cursor + 8))
        | inl long ↦
            rw (inside, long)
              (
                record {
                  function = refl;
                  confidence = clamp_confidence_bound (55 + 8 * (run - 3));
                  evidence = omega arith;
                },
                vtable_loop-IsAboutBinary image s available fuel (cursor + run * 8),
              )
      ]
    ]

regions_of-IsAboutBinary :
    (image : BinaryImage) (ss : List Section) → All IsAboutBinary (regions_of image ss)
unfolding regions_of section_regions
regions_of-IsAboutBinary image [] = tt
regions_of-IsAboutBinary image (s ∷ ss) =
    All-append IsAboutBinary (section_regions image s) (regions_of image ss)
      (elim (Bool-cases (is_skipped image s)) [
        | inl e ↦ rw e tt
        | inr e ↦ rw e (
            vtable_loop-IsAboutBinary image s (available_bytes image s) (available_bytes image s) 0)
      ])
      (regions_of-IsAboutBinary image ss)

binary_engine-IsAboutBinary : (matches : List Text) → All IsAboutBinary (binary_engine matches)
unfolding binary_engine
binary_engine-IsAboutBinary matches = ground (arith, is_empty-length matches)

binary_vr-IsAboutBinary : (matches : List Text) → All IsAboutBinary (binary_vr matches)
unfolding binary_vr
binary_vr-IsAboutBinary matches = ground (arith, is_empty-length matches)

module _ (f : RecoveredFunction) where
  high_complexity-IsAbout : (o : HeuristicOptions) → All (IsAbout f) (high_complexity o f)
  unfolding high_complexity
  high_complexity-IsAbout o = ground arith

  dispatcher_like-IsAbout : (o : HeuristicOptions) → All (IsAbout f) (dispatcher_like o f)
  unfolding dispatcher_like
  dispatcher_like-IsAbout o = ground arith

  virtual_dispatch-IsAbout :
      (d : DisassemblyResult) (b : Bool) → All (IsAbout f) (virtual_dispatch d b f)
  unfolding virtual_dispatch
  virtual_dispatch-IsAbout d b = ground arith

  jump_table-IsAbout : All (IsAbout f) (jump_table f)
  unfolding jump_table
  jump_table-IsAbout = ground arith

  render_hook-IsAbout : (matches : List Text) → All (IsAbout f) (render_hook matches f)
  unfolding render_hook
  render_hook-IsAbout matches = ground (arith, length-append matches (name_evidence f ∷ []))

  function_vr-IsAbout : (matches : List Text) → All (IsAbout f) (function_vr matches f)
  unfolding function_vr
  function_vr-IsAbout matches = ground (arith, length-append matches (name_evidence f ∷ []))

  function_engine-IsAbout : (matches : List Text) → All (IsAbout f) (function_engine matches f)
  unfolding function_engine
  function_engine-IsAbout matches = ground (arith, length-append matches (name_evidence f ∷ []))

module _ (d : DisassemblyResult) (o : HeuristicOptions) (b : Bool) where
  function_findings-IsAbout : (f : RecoveredFunction) → All (IsAbout f) (function_findings d o b f)
  unfolding function_findings
  function_findings-IsAbout f =
      let features = function_text_features f in
      let both = λ (xs ys : List HeuristicFinding). All-append (IsAbout f) xs ys in
      both _ _ (high_complexity-IsAbout f o) (
        both _ _ (dispatcher_like-IsAbout f o) (
          both _ _ (virtual_dispatch-IsAbout f d b) (
            both _ _ (jump_table-IsAbout f) (
              both _ _ (render_hook-IsAbout f (collect_matches features o.graphics_keywords)) (
                both _ _ (function_vr-IsAbout f (collect_matches features o.vr_keywords))
                  (function_engine-IsAbout f (collect_matches features o.engine_keywords)))))))

-- A finding about the binary, or about one of the functions.
abbrev pub Grounded : List RecoveredFunction → HeuristicFinding → Type 0
Grounded fs x = IsAboutBinary x ⊎ ((f : RecoveredFunction) × In f fs × IsAbout f x)

Grounded-later :
    (f : RecoveredFunction) (fs : List RecoveredFunction) (x : HeuristicFinding)
    → Grounded fs x
    → Grounded (f ∷ fs) x
Grounded-later f fs x (inl h) = inl h
Grounded-later f fs x (inr (g, m, h)) = inr (g, inr m, h)

all_function_findings-Grounded :
    (d : DisassemblyResult) (o : HeuristicOptions) (b : Bool) (fs : List RecoveredFunction)
    → All (Grounded fs) (all_function_findings d o b fs)
unfolding all_function_findings
all_function_findings-Grounded d o b [] = tt
all_function_findings-Grounded d o b (f ∷ fs) =
    All-append (Grounded (f ∷ fs)) (function_findings d o b f) (all_function_findings d o b fs)
      (All-imp (IsAbout f) (Grounded (f ∷ fs)) (function_findings d o b f)
        (λ x h. inr (f, inl refl, h)) (function_findings-IsAbout d o b f))
      (All-imp (Grounded fs) (Grounded (f ∷ fs)) (all_function_findings d o b fs)
        (Grounded-later f fs) (all_function_findings-Grounded d o b fs))

-- Each finding has a confidence of at most one and some evidence, and is about the binary as a whole or
-- about a function of the analysis: then it names the function's entry as its address.
pub detect-Grounded :
    (image : BinaryImage) (d : DisassemblyResult) (analysis : ProgramAnalysis)
    (options : HeuristicOptions)
    → All (Grounded analysis.functions) (detect image d analysis options)
unfolding detect unsorted_findings detect_vtable_regions
detect-Grounded image d analysis options =
    let fs = analysis.functions in
    let features = binary_text_features image in
    let lift = λ (xs : List HeuristicFinding) (h : All IsAboutBinary xs).
      All-imp IsAboutBinary (Grounded fs) xs (λ x g. inl g) h in
    All-sort_by finding_less (Grounded fs) (unsorted_findings image d analysis options) (
      All-append (Grounded fs) _ _ (lift _ (regions_of-IsAboutBinary image image.sections)) (
        All-append (Grounded fs) _ _
          (lift _ (binary_engine-IsAboutBinary (collect_matches features options.engine_keywords)))
          (All-append (Grounded fs) _ _
            (lift _ (binary_vr-IsAboutBinary (collect_matches features options.vr_keywords)))
            (all_function_findings-Grounded d options _ fs))))
