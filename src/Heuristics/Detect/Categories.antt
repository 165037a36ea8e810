-- ===== src/Heuristics/Detect/Categories.antt =====
-- Lemmas on the detectors of `HeuristicDetector::analyze`: the categories of their findings.
use binary_atlas.Prelude.{
  ℕ, zero, suc, ◌+◌, ◌*◌, ◌≡◌, refl, Bool, false, inl, inr, List, [], ◌∷◌, ◌++◌, leb, All,
  All-append, Bool-cases, arith,
}
use binary_atlas.Prelude.Text.{Text, lit, str_eq}
use binary_atlas.Core.Types.{Section}
use binary_atlas.Core.Image.{BinaryImage}
use binary_atlas.Disasm.Index.{DisassemblyResult}
use binary_atlas.Analysis.Function.{RecoveredFunction}
use binary_atlas.Heuristics.Finding.{HeuristicFinding, HeuristicOptions, collect_matches}
use binary_atlas.Heuristics.Vtable.{
  vtable_loop, section_regions, regions_of, is_skipped, available_bytes, run_from,
}
use binary_atlas.Heuristics.Function.{function_text_features}
use binary_atlas.Heuristics.Detectors.{
  binary_engine, binary_vr, virtual_dispatch, jump_table, render_hook, function_vr, function_engine,
}

-- A finding of another category.
abbrev pub Other : Text → HeuristicFinding → Type 0
Other category x = str_eq x.category category ≡ false

abbrev pub high : Text
high = lit "high_complexity_function"

abbrev pub dispatcher : Text
dispatcher = lit "dispatcher_like_function"

-- The findings about the binary, and those of the later detectors, are of neither category.
abbrev pub Neither : HeuristicFinding → Type 0
Neither x = Other high x × Other dispatcher x

vtable_loop-Neither :
    (image : BinaryImage) (s : Section) (available fuel cursor : ℕ)
    → All Neither (vtable_loop image s available fuel cursor)
unfolding vtable_loop str_eq
vtable_loop-Neither image s available zero cursor = tt
vtable_loop-Neither image s available (suc fuel) cursor =
    let run = run_from image s available available cursor 0 in
    elim (Bool-cases (leb (cursor + 8) available)) [
      | inr out ↦ rw out tt
      | inl inside ↦ elim (Bool-cases (leb 3 run)) [
        | inr short ↦ rw (inside, short) (vtable_loop-Neither image s available fuel (cursor + 8))
        | inl long ↦
            rw (inside, long)
              ((refl, refl), vtable_loop-Neither image s available fuel (cursor + run * 8))
      ]
    ]

pub regions_of-Neither :
    (image : BinaryImage) (ss : List Section) → All Neither (regions_of image ss)
unfolding regions_of section_regions
regions_of-Neither image [] = tt
regions_of-Neither image (s ∷ ss) =
    All-append Neither (section_regions image s) (regions_of image ss)
      (elim (Bool-cases (is_skipped image s)) [
        | inl e ↦ rw e tt
        | inr e ↦
            rw e (vtable_loop-Neither image s (available_bytes image s) (available_bytes image s) 0)
      ])
      (regions_of-Neither image ss)

pub binary_engine-Neither : (matches : List Text) → All Neither (binary_engine matches)
unfolding binary_engine str_eq
binary_engine-Neither matches = ground arith

pub binary_vr-Neither : (matches : List Text) → All Neither (binary_vr matches)
unfolding binary_vr str_eq
binary_vr-Neither matches = ground arith

-- What the loop over the functions adds behind the first two detectors.
abbrev pub later_findings :
    DisassemblyResult → HeuristicOptions → Bool → RecoveredFunction → List HeuristicFinding
later_findings d o b f =
    let features = function_text_features f in
    virtual_dispatch d b f
    ++ (jump_table f
        ++ (render_hook (collect_matches features o.graphics_keywords) f
            ++ (function_vr (collect_matches features o.vr_keywords) f
                ++ function_engine (collect_matches features o.engine_keywords) f)))

module _ (f : RecoveredFunction) where
  virtual_dispatch-Neither :
      (d : DisassemblyResult) (b : Bool) → All Neither (virtual_dispatch d b f)
  unfolding virtual_dispatch str_eq
  virtual_dispatch-Neither d b = ground arith

  jump_table-Neither : All Neither (jump_table f)
  unfolding jump_table str_eq
  jump_table-Neither = ground arith

  render_hook-Neither : (matches : List Text) → All Neither (render_hook matches f)
  unfolding render_hook str_eq
  render_hook-Neither matches = ground arith

  function_vr-Neither : (matches : List Text) → All Neither (function_vr matches f)
  unfolding function_vr str_eq
  function_vr-Neither matches = ground arith

  function_engine-Neither : (matches : List Text) → All Neither (function_engine matches f)
  unfolding function_engine str_eq
  function_engine-Neither matches = ground arith

  pub later_findings-Neither :
      (d : DisassemblyResult) (o : HeuristicOptions) (b : Bool)
      → All Neither (later_findings d o b f)
  later_findings-Neither d o b =
      let features = function_text_features f in
      let both = λ (xs ys : List HeuristicFinding). All-append Neither xs ys in
      both _ _ (virtual_dispatch-Neither d b) (
        both _ _ jump_table-Neither (
          both _ _ (render_hook-Neither (collect_matches features o.graphics_keywords)) (
            both _ _ (function_vr-Neither (collect_matches features o.vr_keywords))
              (function_engine-Neither (collect_matches features o.engine_keywords)))))
