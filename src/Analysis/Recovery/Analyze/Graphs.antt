-- ===== src/Analysis/Recovery/Analyze/Graphs.antt =====
-- Lemmas on `ProgramAnalyzer::analyze`: the control-flow graphs of its functions.
use binary_atlas.Prelude.{
  ◌≡◌, refl, sym, ap, ◌∙◌, subst, inl, inr, true, false, not, ◌&&◌, ◌||◌, Option, none, some, List,
  [], ◌∷◌, is_some, is_empty, any, map, ◌>>=?◌, Bool-cases, Option-cases, In, In-map, In-map_inv,
  All, All-In, All-imp, All-append, arith,
}
use binary_atlas.Prelude.Sets.{contains, contains_iff, map_find, keys, values}
use binary_atlas.Prelude.Sort.{sort_by, by_key, In-sort_by, All-sort_by}
use binary_atlas.Prelude.Text.{Text}
use binary_atlas.Core.Types.{Address}
use binary_atlas.Core.Error.{Result, success, failure}
use binary_atlas.Core.Image.{BinaryImage}
use binary_atlas.Disasm.Index.{DisassemblyResult, find}
use binary_atlas.Analysis.Function.{
  BlockEdge, BasicBlock, FunctionSeed, RecoveredFunction, ProgramAnalysis, AnalysisOptions,
}
use binary_atlas.Analysis.Recovery.Seeds.{
  SeedRecord, collect_seeds, seed_reason_map, function_symbol_names,
}
use binary_atlas.Analysis.Recovery.Seeds.Best.{collect_seeds_valid}
use binary_atlas.Analysis.Recovery.Walk.{recover_blocks}
use binary_atlas.Analysis.Recovery.Walk.Ends.{IsWalkable}
use binary_atlas.Analysis.Recovery.Walk.Closed.{joined, recover_blocks_closed}
use binary_atlas.Analysis.Recovery.Function.{RecoveredState, recover_function, assemble}
use binary_atlas.Analysis.Recovery.Analyze.{
  Claims, no_claims, leave_unused, hard_boundaries, claim, claim_seed, claim_seeds, summarize,
  analyze, with_metrics,
}

abbrev pub starts : List BasicBlock → List Address
starts bs = map (λ b. b.start) bs

-- The entry is the start of a block, and each edge inside the function leads to one.
abbrev pub IsClosed : DisassemblyResult → RecoveredFunction → Type 0
IsClosed d f =
    In f.entry (starts f.blocks)
    × All (λ (b : BasicBlock). All (λ e. joined d (starts f.blocks) e ≡ true) b.outgoing_edges)
        f.blocks

joined_mono :
    (d : DisassemblyResult) (s t : List Address) (e : BlockEdge)
    → ((a : Address) → In a s → In a t)
    → joined d s e ≡ true
    → joined d t e ≡ true
joined_mono d s t e f h = go e.target h
  where
    go :
        (o : Option Address)
        → (not e.intra_function
            || elim o [ none ↦ false | some a ↦ is_some (find d a) && contains a s ])
          ≡ true
        → (not e.intra_function
            || elim o [ none ↦ false | some a ↦ is_some (find d a) && contains a t ])
          ≡ true
    go none k = k
    go (some a) k = ground (arith, f a, contains_iff a s, contains_iff a t)

starts-values :
    (m : List (Address × BasicBlock))
    → All (λ (e : Address × BasicBlock). e.1.start ≡ e.0) m
    → starts (values m) ≡ keys m
starts-values [] h = refl
starts-values ((k, b) ∷ m) h =
    ap (λ a. a ∷ starts (values m)) h.0 ∙ ap (λ xs. k ∷ xs) (starts-values m h.1)

All-values :
    (P : BasicBlock → Type 0) (m : List (Address × BasicBlock))
    → All (λ (e : Address × BasicBlock). P e.1) m
    → All P (values m)
All-values P [] h = tt
All-values P (e ∷ m) h = (h.0, All-values P m h.1)

recover_function-IsClosed :
    (entry : Address) (reasons : List FunctionSeed) (image : BinaryImage) (d : DisassemblyResult)
    (hard : List Address) (names : List (Address × Text))
    → IsWalkable d
    → is_some (find d entry) ≡ true
    → IsClosed d (recover_function entry reasons image d hard names).function
unfolding recover_function assemble
recover_function-IsClosed entry reasons image d hard names v found =
    let m = (recover_blocks image d entry hard).blocks in
    let (walks, ends, source, ordered, keyed, edges, taken) =
      recover_blocks_closed image d entry hard v found in
    let sorted = sort_by (by_key (λ (b : BasicBlock). b.start)) (values m) in
    let same = starts-values m keyed in
    let into : (a : Address) → In a (keys m) → In a (starts sorted) = λ a k.
      let (b, n, e) =
        In-map_inv (λ (b : BasicBlock). b.start) a (values m) (subst (In a) (sym same) k) in
      subst (λ x. In x (starts sorted)) (sym e)
        (In-map (λ (b : BasicBlock). b.start) b sorted
          ((In-sort_by (by_key (λ (b : BasicBlock). b.start)) b (values m)).1 n)) in
    (
      into entry source,
      All-sort_by (by_key (λ (b : BasicBlock). b.start))
          (λ (b : BasicBlock). All (λ e. joined d (starts sorted) e ≡ true) b.outgoing_edges)
          (values m)
          (All-values
            (λ (b : BasicBlock). All (λ e. joined d (starts sorted) e ≡ true) b.outgoing_edges) m
            (All-imp
              (λ (e : Address × BasicBlock).
                All (λ o. joined d (keys m) o ≡ true) e.1.outgoing_edges)
              (λ (e : Address × BasicBlock).
                All (λ o. joined d (starts sorted) o ≡ true) e.1.outgoing_edges)
              m
              (λ e l.
                All-imp (λ o. joined d (keys m) o ≡ true) (λ o. joined d (starts sorted) o ≡ true)
                  e.1.outgoing_edges (λ o j. joined_mono d (keys m) (starts sorted) o into j) l)
              edges)),
    )

module _ (image : BinaryImage) (d : DisassemblyResult) (v : IsWalkable d) (hard : List Address)
    (reasons : List (Address × List FunctionSeed)) (names : List (Address × Text)) where
  abbrev MaybeClosed : Option Claims → Type 0
  MaybeClosed none = Unit
  MaybeClosed (some c) = All (IsClosed d) c.functions

  claim-IsClosed :
      (seed : FunctionSeed) (r : RecoveredState) (c : Claims)
      → IsClosed d r.function
      → All (IsClosed d) c.functions
      → All (IsClosed d) (claim seed r c).functions
  unfolding claim
  claim-IsClosed seed r c n h = elim (Bool-cases (is_empty r.function.blocks)) [
    | inl e ↦ rw e h
    | inr e ↦ elim (Bool-cases (any (λ a. contains a c.claimed) r.instructions)) [
      | inl u ↦ rw (e, u) h
      | inr u ↦ rw (e, u) (All-append (IsClosed d) c.functions (r.function ∷ []) h (n, tt))
    ]
  ]

  claim_seeds-IsClosed :
      (rs : List SeedRecord) (c : Claims)
      → All (λ (r : SeedRecord). is_some (find d r.seed.address) ≡ true) rs
      → All (IsClosed d) c.functions
      → MaybeClosed (claim_seeds image d hard reasons names rs c)
  unfolding claim_seeds claim_seed
  claim_seeds-IsClosed [] c f h = h
  claim_seeds-IsClosed (r ∷ rs) c f h = elim (Bool-cases (contains r.seed.address c.claimed)) [
    | inl e ↦ rw e (claim_seeds-IsClosed rs (leave_unused r.seed c) f.1 h)
    | inr e ↦ elim (Option-cases (map_find r.seed.address reasons)) [
      | inl n ↦ rw (e, n) tt
      | inr (why, s) ↦
          let recovered = recover_function r.seed.address why image d hard names in
          rw (e, s)
            (claim_seeds-IsClosed rs (claim r.seed recovered c) f.1 (
              claim-IsClosed r.seed recovered c
                (recover_function-IsClosed r.seed.address why image d hard names v f.0) h))
    ]
  ]

abbrev AllClosed : DisassemblyResult → Option (Result ProgramAnalysis) → Type 0
AllClosed d none = Unit
AllClosed d (some (failure e)) = Unit
AllClosed d (some (success p)) = All (IsClosed d) p.functions

All-map-with_metrics :
    (d : DisassemblyResult) (fs : List RecoveredFunction)
    → All (IsClosed d) fs
    → All (IsClosed d) (map with_metrics fs)
All-map-with_metrics d [] h = tt
All-map-with_metrics d (f ∷ fs) h = (h.0, All-map-with_metrics d fs h.1)

analyze-AllClosed :
    (image : BinaryImage) (d : DisassemblyResult) (options : AnalysisOptions)
    → IsWalkable d
    → AllClosed d (analyze image d options)
unfolding analyze summarize
analyze-AllClosed image d options v = elim (Bool-cases (is_empty d.instructions)) [
  | inl e ↦ rw e tt
  | inr e ↦
      let seeds = collect_seeds image d options.enable_prologue_heuristics in
      let valid =
        All-imp _ (λ (r : SeedRecord). is_some (find d r.seed.address) ≡ true) seeds (λ r k. k.1)
          (collect_seeds_valid image d options.enable_prologue_heuristics).1 in
      rw e (
        go _ (
          claim_seeds-IsClosed image d v (hard_boundaries seeds []) (seed_reason_map seeds [])
            (function_symbol_names image.symbols []) seeds no_claims valid tt))
]
  where
    go :
        (q : Option Claims)
        → MaybeClosed image d v [] [] [] q
        → AllClosed d (q >>=? λ c. some (success (summarize image c)))
    go none u = tt
    go (some c) u =
        All-map-with_metrics d (sort_by (by_key (λ f. f.entry)) c.functions)
          (All-sort_by (by_key (λ f. f.entry)) (IsClosed d) c.functions u)

-- Where the instructions of the disassembly are not empty and `analyze` returns an analysis, the
-- entry of each function is the start of one of its blocks, and each edge inside the function leads
-- to an instruction at which one of its blocks starts.
pub analyze-IsClosed :
    (image : BinaryImage) (d : DisassemblyResult) (options : AnalysisOptions) (p : ProgramAnalysis)
    (f : RecoveredFunction)
    → IsWalkable d
    → analyze image d options ≡ some (success p)
    → In f p.functions
    → IsClosed d f
analyze-IsClosed image d options p f v h m =
    All-In (IsClosed d) f p.functions (subst (AllClosed d) h (analyze-AllClosed image d options v))
      m
