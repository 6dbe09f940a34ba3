-- ===== src/Workflow/Graph/Setup.antt =====
-- The maps with which Kahn's loop begins, and the state in which it ends
-- (runner/test-workflow-graph.ts).
use bumd.Prelude.{
  String, true, some, List, [], ◌∷◌, length, contains, Distinct, Within, Dict, lookup, keys, ℤ, pos,
  ◌≡◌, arith,
}
use native.Mathlib.Nat.{zero-add}
use bumd.Workflow.Graph.{
  Edge, zero_degrees, no_neighbors, count_edges, ready_ids, kahn_loop, require_all,
  build_topological_order,
}
use bumd.Workflow.Graph.Errors.{ok}
use bumd.Workflow.Graph.Degrees.{
  Refs, in_count, lookup-from_entries, contains-keys-from_entries, Distinct-keys-from_entries,
  Refs-check_refs, count_edges_adj, count_edges_degree, count_edges-keys, count_edges_total,
  contains-ready_ids, ready_ids-key, ready_ids-Distinct,
}
use bumd.Workflow.Graph.Loop.{Inv, Adjacent, OrderedBy, pending-nil, kahn_loop_ends}

nothing-OrderedBy : (es : List Edge) → OrderedBy [] es
nothing-OrderedBy [] = tt
nothing-OrderedBy (e ∷ es) = (λ m. absurd (cc), nothing-OrderedBy es)

module _ (nodes : List String) (edges : List Edge) (refs : Refs nodes edges) where
  -- The maps that the counting loop leaves.
  counted :
      (r : Dict ℤ × Dict (List String)) × (count_edges
          (zero_degrees nodes)
          (no_neighbors nodes)
          edges
        ≡ ok r)
  unfolding no_neighbors
  counted =
      count_edges_total (zero_degrees nodes) (no_neighbors nodes) nodes edges
        (λ u m. ([], ground (arith, lookup-from_entries {V = List String} [] [] nodes u))) refs

  module _ (r : Dict ℤ × Dict (List String))
      (e : count_edges (zero_degrees nodes) (no_neighbors nodes) edges ≡ ok r) where
    start-Adjacent : Adjacent nodes edges r.1
    unfolding no_neighbors
    start-Adjacent u m =
        count_edges_adj (zero_degrees nodes) (no_neighbors nodes) edges r u [] e
          (ground (arith, lookup-from_entries {V = List String} [] [] nodes u))

    start_degree :
        (v : String) → contains nodes v ≡ true → lookup v r.0 ≡ some (pos (in_count v edges))
    unfolding zero_degrees
    start_degree v m = rw zero-add at (
        count_edges_degree (zero_degrees nodes) (no_neighbors nodes) edges r v 0 e
          (ground (arith, lookup-from_entries (pos 0) [] nodes v)))

    start_keys : ((v : String) → contains (keys r.0) v ≡ contains nodes v) × Distinct (keys r.0)
    unfolding zero_degrees
    start_keys =
        count_edges-keys (zero_degrees nodes) (no_neighbors nodes) edges r nodes e refs
          (λ v. ground (arith, contains-keys-from_entries (pos 0) [] nodes v))
          (Distinct-keys-from_entries (pos 0) [] nodes tt)

    ready_ids-Within : Within (ready_ids r.0) nodes
    ready_ids-Within a m = ground (arith, ready_ids-key r.0 a, start_keys.0 a)

    start-Inv : Inv nodes edges r.0 (ready_ids r.0) []
    start-Inv = record {
      degrees = λ v m. rw (pending-nil v edges) (start_degree v m);
      ready = λ v m.
          rw (pending-nil v edges)
            (contains-ready_ids r.0 v (in_count v edges) start_keys.1 (start_degree v m));
      distinct = ready_ids-Distinct r.0 start_keys.1;
      within = λ a m. ready_ids-Within a m;
      ordered = nothing-OrderedBy edges;
    }

  -- With every reference valid, both loops end, in a state that keeps the invariant.
  pub loop_runs :
      (r : Dict ℤ × Dict (List String)) × (order : List String) × (last : Dict ℤ) × Inv nodes edges
        last [] order
      × (count_edges (zero_degrees nodes) (no_neighbors nodes) edges ≡ ok r)
      × (kahn_loop (length nodes) r.1 r.0 (ready_ids r.0) [] ≡ ok order)
  loop_runs =
      let (r, e) = counted in
      let (order, ends, last, inv) =
        kahn_loop_ends nodes edges r.1 (length nodes) r.0 (ready_ids r.0) [] refs
          (start-Adjacent r e) (start-Inv r e) (omega arith) in
      (r, order, last, inv, e, ends)

  pub loop_result :
      (order : List String) × (last : Dict ℤ) × Inv nodes edges last [] order
      × (build_topological_order nodes edges ≡ require_all nodes order)
  unfolding build_topological_order
  loop_result =
      let (r, order, last, inv, e, ends) = loop_runs in
      (order, last, inv, simp (Refs-check_refs nodes edges refs, e, ends))
