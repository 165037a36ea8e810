-- ===== src/Analysis/Metrics/Bounds.antt =====
-- What `computeFunctionMetrics` counts, against the blocks of the function.
use binary_atlas.Prelude.{
  ℕ, zero, suc, ◌+◌, ◌-◌, ◌*◌, ◌≤◌, ◌≡◌, refl, inl, inr, ◌∙◌, Bool, Option, none, some, List, [],
  ◌∷◌, ◌++◌, if◌then◌else◌, length, length-append, is_some, count_if, not, ◌&&◌, min, ltb, leb,
  ◌==◌, max, Bool-cases, arith,
}
use binary_atlas.Prelude.Int.{pos, pos_part, neg_part, sub_ℕ}
use binary_atlas.Core.Types.{Address}
use binary_atlas.Analysis.Function.{
  BlockEdge, BasicBlock, RecoveredFunction, addresses_of, edges_of,
}
use binary_atlas.Analysis.Metrics.{
  Tally, tally_edge, internal_target, is_call_fallthrough, tally_edges, tally_block, tally_blocks,
  at_least_one, cyclomatic, empty_tally, compute_function_metrics,
}

abbrev pub is_internal : BlockEdge → Bool
is_internal e = is_some (internal_target e)

count_if-append :
    (p : BlockEdge → Bool) (xs ys : List BlockEdge)
    → count_if p (xs ++ ys) ≡ count_if p xs + count_if p ys
count_if-append p [] ys = omega arith
count_if-append p (x ∷ xs) ys = ground (arith, count_if-append p xs ys)

abbrev pub is_exit : BlockEdge → Bool
is_exit e = not (is_internal e) && not (is_call_fallthrough e.type)

-- What an edge, or the edges of a block, add: `m` edges inside the function, and `n` exits.
record Added (m n : ℕ) (t u : Tally) : Type 0 where
  internal : u.internal_edges ≡ t.internal_edges + m
  exits : u.exit_edges ≡ t.exit_edges + n
  degree : u.out_degree ≡ t.out_degree + m
  instructions : u.instruction_count ≡ t.instruction_count
  best : u.max_out_degree ≡ t.max_out_degree

abbrev bit : Bool → ℕ
bit b = if b then 1 else 0

tally_edge-Added :
    (o : Option Address) (e : BlockEdge) (t : Tally)
    → Added
        (bit (is_some o))
        (bit (not (is_some o) && not (is_call_fallthrough e.type)))
        t
        (tally_edge o e t)
unfolding tally_edge
tally_edge-Added (some a) e t = record {
  internal = refl;
  exits = omega arith;
  degree = refl;
  instructions = refl;
  best = refl;
}
tally_edge-Added none e t = elim (Bool-cases (is_call_fallthrough e.type)) [
  | inl c ↦ rw c (record {
    internal = omega arith;
    exits = omega arith;
    degree = omega arith;
    instructions = refl;
    best = refl;
  })
  | inr c ↦ rw c (record {
    internal = omega arith;
    exits = refl;
    degree = omega arith;
    instructions = refl;
    best = refl;
  })
]

tally_edges-Added :
    (es : List BlockEdge) (t : Tally)
    → Added (count_if is_internal es) (count_if is_exit es) t (tally_edges es t)
unfolding tally_edges
tally_edges-Added [] t = record {
  internal = omega arith;
  exits = omega arith;
  degree = omega arith;
  instructions = refl;
  best = refl;
}
tally_edges-Added (e ∷ es) t =
    let h = tally_edge-Added (internal_target e) e t in
    let k = tally_edges-Added es (tally_edge (internal_target e) e t) in
    record {
      internal = ground (arith, h.internal, k.internal);
      exits = ground (arith, h.exits, k.exits);
      degree = ground (arith, h.degree, k.degree);
      instructions = k.instructions ∙ h.instructions;
      best = k.best ∙ h.best;
    }

-- What the loop over the blocks has counted.
record Counted (bs : List BasicBlock) (t u : Tally) : Type 0 where
  internal : u.internal_edges ≡ t.internal_edges + count_if is_internal (edges_of bs)
  exits : u.exit_edges ≡ t.exit_edges + count_if is_exit (edges_of bs)
  instructions : u.instruction_count ≡ t.instruction_count + length (addresses_of bs)
  best : t.max_out_degree ≤ t.internal_edges → u.max_out_degree ≤ u.internal_edges

tally_blocks-Counted : (bs : List BasicBlock) (t : Tally) → Counted bs t (tally_blocks bs t)
unfolding tally_blocks tally_block
tally_blocks-Counted [] t = record {
  internal = omega arith;
  exits = omega arith;
  instructions = omega arith;
  best = λ h. h;
}
tally_blocks-Counted (b ∷ bs) t =
    let begun : Tally = record t {
      instruction_count = t.instruction_count + length b.instruction_addresses;
      size_bytes = if leb b.start b.end then t.size_bytes + (b.end - b.start) else t.size_bytes;
      out_degree = 0;
    } in
    let h = tally_edges-Added b.outgoing_edges begun in
    let k = tally_blocks-Counted bs (tally_block b t) in
    record {
      internal = omega (
        arith,
        h.internal,
        k.internal,
        count_if-append is_internal b.outgoing_edges (edges_of bs),
      );
      exits =
          omega (arith, h.exits, k.exits, count_if-append is_exit b.outgoing_edges (edges_of bs));
      instructions = omega (
        arith,
        h.instructions,
        k.instructions,
        length-append b.instruction_addresses (addresses_of bs),
      );
      best = λ l. k.best (omega (arith, h.internal, h.degree, h.best, l));
    }

at_least_one-sub : (a b : ℕ) → at_least_one (sub_ℕ a b) ≡ max 1 (a - b)
at_least_one-sub a b = elim (Bool-cases (leb b a)) [
  | inr e ↦ rw e (ground (arith, e))
  | inl e ↦ rw e (go (a - b))
]
  where
    go : (n : ℕ) → at_least_one (pos n) ≡ max 1 n
    go zero = omega arith
    go (suc n) = omega arith

sub_ℕ-parts : (a b : ℕ) → (pos_part (sub_ℕ a b) ≡ a - b) × (neg_part (sub_ℕ a b) ≡ b - a)
sub_ℕ-parts a b = elim (Bool-cases (leb b a)) [
  | inr e ↦ rw e (ground (arith, e), ground (arith, e))
  | inl e ↦ rw e (refl, ground (arith, e))
]

-- The integers of `cyclomatic`, without a sign: edges and twice the components, less the nodes.
cyclomatic_lem :
    (internal exits blocks components : ℕ)
    → cyclomatic internal exits blocks components
      ≡ max 1 (internal + exits + 2 * max 1 components - (blocks + min 1 exits))
unfolding cyclomatic
cyclomatic_lem internal exits blocks components =
    let a = internal + exits in
    let b = blocks + (if ltb 0 exits then 1 else 0) in
    let c = 2 * (if components == 0 then 1 else components) in
    let (p, n) = sub_ℕ-parts (a + 0) (0 + b) in
    let node : (if ltb 0 exits then 1 else 0) ≡ min 1 exits = ground arith in
    let part : (if components == 0 then 1 else components) ≡ max 1 components = ground arith in
    at_least_one-sub (pos_part (sub_ℕ (a + 0) (0 + b)) + c) (neg_part (sub_ℕ (a + 0) (0 + b)) + 0)
    ∙ omega (arith, p, n, node, part)

-- For every function, the metrics count its blocks, the addresses in its blocks and the edges
-- inside the function. No block has more edges inside the function than there are. The complexity
-- is the number of edges inside and out, less the blocks and one more for the exits where there are
-- some, plus twice the components, with one component and a complexity of one as the least.
pub compute_function_metrics_counts :
    (f : RecoveredFunction)
    → ((compute_function_metrics f).block_count ≡ length f.blocks)
      × ((compute_function_metrics f).instruction_count ≡ length (addresses_of f.blocks))
      × ((compute_function_metrics f).edge_count ≡ count_if is_internal (edges_of f.blocks))
      × ((compute_function_metrics f).max_out_degree ≤ (compute_function_metrics f).edge_count)
      × ((compute_function_metrics f).cyclomatic_complexity
          ≡ max 1 (
              count_if is_internal (edges_of f.blocks)
              + count_if is_exit (edges_of f.blocks)
              + 2 * max 1 (compute_function_metrics f).connected_components
              - (length f.blocks + min 1 (count_if is_exit (edges_of f.blocks)))))
unfolding compute_function_metrics
compute_function_metrics_counts f =
    let u = tally_blocks f.blocks empty_tally in
    let k = tally_blocks-Counted f.blocks empty_tally in
    (
      refl,
      k.instructions ∙ omega arith,
      k.internal ∙ omega arith,
      k.best (omega arith),
      omega (
        arith,
        k.internal,
        k.exits,
        cyclomatic_lem u.internal_edges u.exit_edges (length f.blocks)
            (compute_function_metrics f).connected_components,
      ),
    )
