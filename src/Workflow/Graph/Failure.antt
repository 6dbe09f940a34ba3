-- ===== src/Workflow/Graph/Failure.antt =====
-- When `buildTopologicalOrder` throws, and what (runner/test-workflow-graph.ts).
use bumd.Prelude.{
  ℕ, String, true, false, List, [], ◌∷◌, ◌==◌, contains, any, Distinct, ◌≡◌, ◌≢◌, sym, ◌∙◌, subst,
  arith, eq_self, inl, inr,
}
use bumd.Workflow.Graph.{Edge, check_refs, require_all, build_topological_order}
use bumd.Workflow.Graph.Errors.{
  GraphError, err, cycle, out_of_fuel, invalid_source, invalid_target, missing_source, Result-cases,
  err-injective,
}
use bumd.Workflow.Graph.Degrees.{Refs, check_refs-Refs}
use bumd.Workflow.Graph.Setup.{loop_result}
use bumd.Workflow.Graph.Order.{Grows, build_topological_order_iff}

-- What each error says of the input.
abbrev pub ErrorMeans : List String → List Edge → GraphError → Type 0
ErrorMeans nodes edges (invalid_source id) =
    (contains nodes id ≡ false) × (any (λ e. e.source == id) edges ≡ true)
ErrorMeans nodes edges (invalid_target id) =
    (contains nodes id ≡ false) × (any (λ e. e.target == id) edges ≡ true)
ErrorMeans nodes edges (missing_source id) = ⊥
ErrorMeans nodes edges cycle =
    Refs nodes edges × ¬ (Distinct nodes × ((rank : String → ℕ) × Grows rank edges))
ErrorMeans nodes edges out_of_fuel = ⊥

check_refs-ne-cycle : (es : List Edge) (nodes : List String) → check_refs nodes es ≢ err cycle
unfolding check_refs
check_refs-ne-cycle [] nodes h = cc
check_refs-ne-cycle (edge ∷ es) nodes h = ground (arith, check_refs-ne-cycle es nodes)

-- The references are checked edge by edge.
check_refs-err :
    (nodes : List String) (es : List Edge) (e : GraphError)
    → check_refs nodes es ≡ err e
    → ErrorMeans nodes es e
unfolding check_refs
check_refs-err nodes [] e h = absurd (cc)
check_refs-err nodes (edge ∷ es) (invalid_source id) h =
    ground (arith, check_refs-err nodes es (invalid_source id), eq_self id)
check_refs-err nodes (edge ∷ es) (invalid_target id) h =
    ground (arith, check_refs-err nodes es (invalid_target id), eq_self id)
check_refs-err nodes (edge ∷ es) (missing_source id) h =
    ground (arith, check_refs-err nodes es (missing_source id))
check_refs-err nodes (edge ∷ es) cycle h = absurd (check_refs-ne-cycle (edge ∷ es) nodes h)
check_refs-err nodes (edge ∷ es) out_of_fuel h = ground (arith, check_refs-err nodes es out_of_fuel)

require_all-err :
    (nodes order : List String) (e : GraphError) → require_all nodes order ≡ err e → e ≡ cycle
unfolding require_all
require_all-err nodes order e h = ground arith

-- A WORKFLOW_INVALID error names an end of some edge that is not a node. WORKFLOW_CYCLE is thrown
-- only if all references are valid, and then the nodes repeat or no numbering of them grows along
-- every edge. The exception for a missing list of neighbours is never thrown, and the fuel of the
-- model never runs out.
pub build_topological_order-err :
    (nodes : List String) (edges : List Edge) (e : GraphError)
    → build_topological_order nodes edges ≡ err e
    → ErrorMeans nodes edges e
unfolding build_topological_order
build_topological_order-err nodes edges e h = elim (Result-cases (check_refs nodes edges)) [
  | inr (d, refused) ↦
      let same : d ≡ e = err-injective (List String) (rw (refused, build_topological_order) at h) in
      subst (ErrorMeans nodes edges) same (check_refs-err nodes edges d refused)
  | inl (u, valid) ↦
      let refs = check_refs-Refs nodes edges valid in
      let (order, last, inv, computed) = loop_result nodes edges refs in
      let same : e ≡ cycle = require_all-err nodes order e (sym computed ∙ h) in
      subst (ErrorMeans nodes edges) (sym same) (
        refs,
        λ p. let (found, done) = (build_topological_order_iff nodes edges p.0).1 (refs, p.1) in cc,
      )
]
