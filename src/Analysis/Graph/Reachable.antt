-- ===== src/Analysis/Graph/Reachable.antt =====
-- Lemmas on `depthFirstReachable` of src/analysis/graph_algorithms.cpp.
use mathlib.Core.List.{reverse-cons}
use binary_atlas.Prelude.{
  ℕ, zero, suc, ◌+◌, ◌≤◌, ◌≡◌, refl, sym, ap, subst, ◌⊎◌, inl, inr, ◌↔◌, true, false, Option, none,
  some, List, [], ◌∷◌, ◌++◌, reverse, if◌then◌else◌, length, length-reverse, Bool-cases,
  Option-cases, List-cases, In, Distinct, Distinct-concat, In-append_iff, arith,
}
use binary_atlas.Prelude.Sets.{contains, contains_iff, insert, contains-insert, In-insert, map_find}
use binary_atlas.Core.Types.{Address}
use binary_atlas.Analysis.Graph.{
  AdjacencyList, push_all, Search, dfs_step, dfs_loop, edge_total, depth_first_reachable,
}
use binary_atlas.Analysis.Graph.Walk.{Edge, Reach, here, step}

push_all-append :
    (xs ys stack : List Address) → push_all (xs ++ ys) stack ≡ push_all ys (push_all xs stack)
push_all-append [] ys stack = refl
push_all-append (x ∷ xs) ys stack = push_all-append xs ys (x ∷ stack)

In-push_all :
    (a : Address) (xs stack : List Address) → In a (push_all xs stack) ↔ (In a xs ⊎ In a stack)
In-push_all a [] stack = (inr, λ h. elim h [ inl z ↦ absurd z | inr m ↦ m ])
In-push_all a (x ∷ xs) stack = ground (arith, In-push_all a xs (x ∷ stack))

In-reverse : (a : Address) (xs : List Address) → In a (reverse xs) ↔ In a xs
In-reverse a [] = (λ h. h, λ h. h)
In-reverse a (x ∷ xs) =
    subst (λ l. In a l ↔ In a (x ∷ xs)) (sym (reverse-cons x xs))
      (ground (arith, In-append_iff a (reverse xs) (x ∷ []), In-reverse a xs))

length-push_all : (xs stack : List Address) → length (push_all xs stack) ≡ length xs + length stack
length-push_all [] stack = omega arith
length-push_all (x ∷ xs) stack = omega (arith, length-push_all xs (x ∷ stack))

-- The edges of the entries that are not visited yet.
abbrev unvisited : List Address → AdjacencyList → ℕ
unvisited seen [] = 0
unvisited seen ((k, edges) ∷ g) = (if contains k seen then 0 else length edges) + unvisited seen g

unvisited_mono :
    (node : Address) (seen : List Address) (g : AdjacencyList)
    → unvisited (insert node seen) g ≤ unvisited seen g
unvisited_mono node seen [] = omega arith
unvisited_mono node seen ((k, edges) ∷ g) =
    ground (arith, contains-insert k node seen, unvisited_mono node seen g)

unvisited-insert :
    (node : Address) (seen : List Address) (g : AdjacencyList) (edges : List Address)
    → contains node seen ≡ false
    → map_find node g ≡ some edges
    → unvisited (insert node seen) g + length edges ≤ unvisited seen g
unvisited-insert node seen [] edges h e = cc
unvisited-insert node seen ((k, es) ∷ g) edges h e = ground (
  arith,
  contains-insert k node seen,
  unvisited_mono node seen g,
  unvisited-insert node seen g edges h,
)

unvisited-empty : (g : AdjacencyList) → unvisited [] g ≡ edge_total g
unfolding edge_total
unvisited-empty [] = refl
unvisited-empty ((k, edges) ∷ g) = ap (λ n. length edges + n) (unvisited-empty g)

abbrev work : AdjacencyList → Search → ℕ
work g s = length s.stack + unvisited s.visited g

module _ (g : AdjacencyList) where
  work-dfs_step :
      (s : Search) (node : Address) (rest : List Address)
      → s.stack ≡ node ∷ rest
      → work g (dfs_step g s node rest) + 1 ≤ work g s
  unfolding dfs_step
  work-dfs_step s node rest e = elim (Bool-cases (contains node s.visited)) [
    | inl seen ↦ rw seen (omega (arith, ap length e))
    | inr new ↦ elim (Option-cases (map_find node g)) [
      | inl missing ↦
          rw (new, missing) (omega (arith, ap length e, unvisited_mono node s.visited g))
      | inr (edges, found) ↦
          rw (new, found)
            (omega (
              arith,
              ap length e,
              length-push_all (reverse edges) rest,
              length-reverse edges,
              unvisited-insert node s.visited g edges new found,
            ))
    ]
  ]

  module _ (start : Address) where
    record Inv (s : Search) : Type 0 where
      same : (v : Address) → In v s.visited ↔ In v s.order
      distinct : Distinct s.order
      source : In start s.visited ⊎ In start s.stack
      queued : (v : Address) → In v s.stack → Reach g start v
      sound : (v : Address) → In v s.visited → Reach g start v
      closed : (u v : Address) → In u s.visited → Edge g u v → In v s.visited ⊎ In v s.stack

    -- The edges out of a node are what the round pushes.
    In-pushed :
        (node v : Address) (rest : List Address)
        → In v (elim (map_find node g) [ none ↦ rest | some edges ↦ push_all (reverse edges) rest ])
          ↔ (Edge g node v ⊎ In v rest)
    In-pushed node v rest = go (map_find node g)
      where
        go :
            (o : Option (List Address))
            → In v (elim o [ none ↦ rest | some edges ↦ push_all (reverse edges) rest ])
              ↔ (In v (elim o [ none ↦ [] | some edges ↦ edges ]) ⊎ In v rest)
        go none = (inr, λ h. elim h [ inl z ↦ absurd z | inr m ↦ m ])
        go (some edges) = ground (arith, In-push_all v (reverse edges) rest, In-reverse v edges)

    dfs_step-Inv :
        (s : Search) (node : Address) (rest : List Address)
        → s.stack ≡ node ∷ rest
        → Inv s
        → Inv (dfs_step g s node rest)
    unfolding dfs_step
    dfs_step-Inv s node rest e h = elim (Bool-cases (contains node s.visited)) [
      | inl seen ↦ rw seen (record {
        same = h.same;
        distinct = h.distinct;
        source = ground (arith, h.source, popped start, seen_visited seen);
        queued = λ v m. h.queued v ((popped v).1 (inr m));
        sound = h.sound;
        closed = λ u v m edge. ground (arith, h.closed u v m edge, popped v, seen_visited seen);
      })
      | inr new ↦ rw new (record {
        same = λ v.
            ground
              (arith, h.same v, In-insert v node s.visited, In-append_iff v s.order (node ∷ []));
        distinct =
            Distinct-concat s.order node h.distinct
              (λ m. cc ((contains_iff node s.visited).1 ((h.same node).1 m), new));
        source = ground (
          arith,
          h.source,
          popped start,
          In-insert start node s.visited,
          In-pushed node start rest,
        );
        queued = λ v m. elim ((In-pushed node v rest).0 m) [
          | inl edge ↦ step (h.queued node ((popped node).1 (inl refl))) edge
          | inr r ↦ h.queued v ((popped v).1 (inr r))
        ];
        sound = λ v m. elim ((In-insert v node s.visited).0 m) [
          | inl q ↦ subst (Reach g start) (sym q) (h.queued node ((popped node).1 (inl refl)))
          | inr old ↦ h.sound v old
        ];
        closed = λ u v m edge. elim ((In-insert u node s.visited).0 m) [
          | inl q ↦ inr ((In-pushed node v rest).1 (inl (subst (λ w. Edge g w v) q edge)))
          | inr old ↦ elim (h.closed u v old edge) [
            | inl seen ↦ inl ((In-insert v node s.visited).1 (inr seen))
            | inr waits ↦ elim ((popped v).0 waits) [
              | inl q ↦ inl ((In-insert v node s.visited).1 (inl q))
              | inr r ↦ inr ((In-pushed node v rest).1 (inr r))
            ]
          ]
        ];
      })
    ]
      where
        popped : (v : Address) → In v s.stack ↔ ((v ≡ node) ⊎ In v rest)
        popped v = subst (λ l. In v l ↔ In v (node ∷ rest)) (sym e) (λ m. m, λ m. m)

        seen_visited : contains node s.visited ≡ true → In node s.visited
        seen_visited seen = (contains_iff node s.visited).0 seen

    -- The loop ends with an empty stack, and keeps the invariant.
    dfs_loop-Inv :
        (fuel : ℕ) (s : Search)
        → work g s ≤ fuel
        → Inv s
        → Inv (dfs_loop g fuel s) × ((dfs_loop g fuel s).stack ≡ [])
    unfolding dfs_loop
    dfs_loop-Inv zero s w h = elim (List-cases s.stack) [
      | inl e ↦ (h, e)
      | inr (node, rest, e) ↦ absurd (omega (arith, ap length e))
    ]
    dfs_loop-Inv (suc fuel) s w h = elim (List-cases s.stack) [
      | inl e ↦ (rw (e, dfs_loop) h, rw (e, dfs_loop) e)
      | inr (node, rest, e) ↦
          let rec =
            dfs_loop-Inv fuel (dfs_step g s node rest) (omega (arith, work-dfs_step s node rest e))
              (dfs_step-Inv s node rest e h) in
          (rw (e, dfs_loop) rec.0, rw (e, dfs_loop) rec.1)
    ]

    start_search : Search
    start_search = record { order = []; visited = []; stack = start ∷ [] }

    start-Inv : Inv start_search
    unfolding start_search
    start-Inv = record {
      same = λ v. (λ m. m, λ m. m);
      distinct = tt;
      source = inr (inl refl);
      queued = λ v m. elim m [ inl q ↦ subst (Reach g start) (sym q) here | inr z ↦ absurd z ];
      sound = λ v m. absurd m;
      closed = λ u v m edge. absurd m;
    }

    complete :
        (s : Search) → Inv s → s.stack ≡ [] → {v : Address} → Reach g start v → In v s.visited
    complete s h e here = elim h.source [ inl m ↦ m | inr m ↦ absurd (subst (In start) e m) ]
    complete s h e (step {u} {v} p edge) = elim (h.closed u v (complete s h e p) edge) [
      | inl m ↦ m
      | inr m ↦ absurd (subst (In v) e m)
    ]

  -- `depthFirstReachable` returns, for every graph and start, the nodes that some walk along edges
  -- leads to from the start: all of them, no other, and none twice.
  pub depth_first_reachable_lem :
      (start : Address)
      → Distinct (depth_first_reachable g start)
        × ((v : Address) → In v (depth_first_reachable g start) ↔ Reach g start v)
  unfolding depth_first_reachable start_search
  depth_first_reachable_lem start =
      let (h, e) =
        dfs_loop-Inv start (edge_total g + 1) (start_search start)
          (omega (arith, unvisited-empty g)) (start-Inv start) in
      (
        h.distinct,
        λ v. (
          λ m. h.sound v ((h.same v).1 m),
          λ p.
              (h.same v).0
                (complete start (dfs_loop g (edge_total g + 1) (start_search start)) h e p),
        ),
      )
