-- ===== src/Workflow/Definition/Validity.antt =====
-- `parseAndValidateDefinition` accepts exactly the well-formed definitions
-- (test-workflow-definition.schema.ts).
use bumd.Prelude.{
  ℕ, zero, suc, String, List, [], ◌∷◌, ◌++◌, map, if◌then◌else◌, eqb, length, contains, Distinct,
  Dict, lookup, ℤ, Except, returned, >>-returned, >>=-returned, >>=-assoc, returned-injective,
  ◌>>=◌, ◌>>◌, ◌≡◌, ◌↔◌, refl, sym, ap, ◌∙◌, subst, arith, length-append,
}
use bumd.Workflow.Types.{WorkflowDefinition}
use bumd.Workflow.Graph.{
  Edge, release, or_empty, ready_ids, kahn_loop, require_all, build_topological_order,
}
use bumd.Workflow.Graph.Errors.{Result, ok, err, cycle, ok-injective}
use bumd.Workflow.Graph.Degrees.{Refs, Refs-check_refs}
use bumd.Workflow.Graph.Setup.{loop_runs}
use bumd.Workflow.Graph.Order.{Grows, build_topological_order_iff}
use bumd.Workflow.Definition.{
  DefinitionError, DefinitionInput, to_definition, collect_node_ids, check_edges, by_id,
  check_phases, check_all_exports, detect_loop, detect_cycle, ends, lift,
  parse_and_validate_definition,
}
use bumd.Workflow.Definition.WellFormed.{
  IsWellFormed, export_names, FreshTo-Distinct, Distinct-FreshTo, collect_node_ids-FreshTo,
  FreshTo-collect_node_ids, check_edges_iff, check_all_exports-FreshTo, FreshTo-check_all_exports,
}
use bumd.Workflow.Definition.Phases.{check_phases_iff}

-- The loop that counts goes with the loop that collects.
detect_loop-kahn_loop :
    (fuel : ℕ) (adj : Dict (List String)) (deg : Dict ℤ) (queue order result : List String)
    → kahn_loop fuel adj deg queue order ≡ ok result
    → detect_loop fuel adj deg queue (length order) ≡ ok (length result)
unfolding kahn_loop detect_loop
detect_loop-kahn_loop fuel adj deg [] order result h = ap (λ o. ok (length o)) (ok-injective h)
detect_loop-kahn_loop zero adj deg (u ∷ queue) order result h = absurd (cc)
detect_loop-kahn_loop (suc fuel) adj deg (u ∷ queue) order result h =
    let released = release deg queue (or_empty (lookup u adj)) in
    let longer : length (order ++ u ∷ []) ≡ suc (length order) =
      omega (arith, length-append order (u ∷ [])) in
    rw longer at (detect_loop-kahn_loop fuel adj released.0 released.1 (order ++ u ∷ []) result h)

-- Both functions compare the same length.
cycle_results :
    (nodes : List String) (edges : List Edge)
    → Refs nodes edges
    → (order : List String) × (detect_cycle nodes edges
        ≡ (if eqb (length order) (length nodes) then ok tt else err cycle))
      × (build_topological_order nodes edges
          ≡ (if eqb (length order) (length nodes) then ok order else err cycle))
unfolding detect_cycle build_topological_order require_all
cycle_results nodes edges refs =
    let (r, order, last, inv, e, ends) = loop_runs nodes edges refs in
    let counted = detect_loop-kahn_loop (length nodes) r.1 r.0 (ready_ids r.0) [] order ends in
    (order, simp (e, counted), simp (Refs-check_refs nodes edges refs, e, ends))

-- Where all references are valid, `detectCycle` passes exactly if `buildTopologicalOrder` returns.
detect_cycle-build_topological_order :
    (nodes : List String) (edges : List Edge)
    → Refs nodes edges
    → (detect_cycle nodes edges ≡ ok tt)
      ↔ ((order : List String) × (build_topological_order nodes edges ≡ ok order))
detect_cycle-build_topological_order nodes edges refs =
    let (order, counted, built) = cycle_results nodes edges refs in
    (λ h. (order, ground arith), λ found. let done = found.1 in ground arith)

detect_cycle_iff :
    (nodes : List String) (edges : List Edge)
    → Refs nodes edges
    → Distinct nodes
    → (detect_cycle nodes edges ≡ ok tt) ↔ ((rank : String → ℕ) × Grows rank edges)
detect_cycle_iff nodes edges refs distinct =
    let (to, from) = detect_cycle-build_topological_order nodes edges refs in
    let (there, back) = build_topological_order_iff nodes edges distinct in
    (λ h. (there (to h)).1, λ h. from (back (refs, h)))

Refs-same :
    (ids nodes : List String) (es : List Edge)
    → ((a : String) → contains ids a ≡ contains nodes a)
    → Refs ids es ↔ Refs nodes es
Refs-same ids nodes [] same = (λ h. tt, λ h. tt)
Refs-same ids nodes (e ∷ es) same =
    ground (arith, Refs-same ids nodes es same, same e.source, same e.target)

lift-ok : (r : Result (Unit {0})) → lift r ≡ returned tt → r ≡ ok tt
lift-ok (ok a) h = refl
lift-ok (err e) h = cc

-- The five checks and the cycle test, one after the other.
abbrev checks : WorkflowDefinition → Except DefinitionError (Unit {0})
checks def = do
  node_ids ← collect_node_ids [] def.nodes
  check_edges node_ids [] def.edges
  check_phases (by_id def.nodes) def.edges
  check_all_exports [] def.nodes
  lift (detect_cycle (map (λ node. node.id) def.nodes) (map ends def.edges))

checks-IsWellFormed : (def : WorkflowDefinition) → checks def ≡ returned tt → IsWellFormed def
checks-IsWellFormed def h =
    let ns = map (λ node. node.id) def.nodes in
    let (ids, collected, h₁) = >>=-returned (collect_node_ids [] def.nodes) _ h in
    let (edges_pass, h₂) = >>-returned (check_edges ids [] def.edges) _ h₁ in
    let (phases_pass, h₃) = >>-returned (check_phases (by_id def.nodes) def.edges) _ h₂ in
    let (exports_pass, lifted) = >>-returned (check_all_exports [] def.nodes) _ h₃ in
    let (fresh, same) = collect_node_ids-FreshTo [] def.nodes ids collected in
    let distinct = (FreshTo-Distinct [] ns fresh).0 in
    let (edge_ids, refs) = (check_edges_iff ids [] def.edges).0 edges_pass in
    let refs' = (Refs-same ids ns (map ends def.edges) same).0 refs in
    let names = check_all_exports-FreshTo [] def.nodes exports_pass in
    record {
      node_ids = distinct;
      edge_ids = (FreshTo-Distinct [] (map (λ e. e.id) def.edges) edge_ids).0;
      refs = refs';
      phases = (check_phases_iff def.nodes distinct def.edges).0 phases_pass;
      exports = (FreshTo-Distinct [] (export_names def.nodes) names).0;
      acyclic = (detect_cycle_iff ns (map ends def.edges) refs' distinct).0 (lift-ok _ lifted);
    }

IsWellFormed-checks : (def : WorkflowDefinition) → IsWellFormed def → checks def ≡ returned tt
IsWellFormed-checks def w =
    let ns = map (λ node. node.id) def.nodes in
    let (ids, collected) =
      FreshTo-collect_node_ids [] def.nodes (Distinct-FreshTo [] ns w.node_ids (λ a m. refl)) in
    let same = (collect_node_ids-FreshTo [] def.nodes ids collected).1 in
    let edges_pass = (check_edges_iff ids [] def.edges).1 (
      Distinct-FreshTo [] (map (λ e. e.id) def.edges) w.edge_ids (λ a m. refl),
      (Refs-same ids ns (map ends def.edges) same).1 w.refs,
    ) in
    let phases_pass = (check_phases_iff def.nodes w.node_ids def.edges).1 w.phases in
    let exports_pass =
      FreshTo-check_all_exports [] def.nodes
        (Distinct-FreshTo [] (export_names def.nodes) w.exports (λ a m. refl)) in
    let acyclic = (detect_cycle_iff ns (map ends def.edges) w.refs w.node_ids).1 w.acyclic in
    simp (collected, edges_pass, phases_pass, exports_pass, acyclic)

checks_result :
    (input : DefinitionInput)
    → parse_and_validate_definition input
      ≡ (checks (to_definition input) >> returned (to_definition input))
unfolding parse_and_validate_definition
checks_result input = simp >>=-assoc

-- A definition is accepted exactly if it is well formed: its node ids, edge ids and export names are
-- distinct, its edges join nodes of it, no edge leads back to an earlier phase, and it has no cycle.
-- What is returned is then the input itself, or the upgraded version 1 input.
pub parse_and_validate_definition_iff :
    (input : DefinitionInput) (def : WorkflowDefinition)
    → (parse_and_validate_definition input ≡ returned def)
      ↔ ((to_definition input ≡ def) × IsWellFormed def)
parse_and_validate_definition_iff input def = (
  λ h.
      let (passed, same) =
        >>-returned (checks (to_definition input)) _ (sym (checks_result input) ∙ h) in
      let same' = returned-injective same in
      (same', subst IsWellFormed same' (checks-IsWellFormed (to_definition input) passed)),
  λ h.
      let passed = IsWellFormed-checks (to_definition input) (subst IsWellFormed (sym h.0) h.1) in
      checks_result input ∙ (rw passed (ap returned h.0)),
)

-- An accepted definition always has a topological order: the runner, which computes it from the
-- same nodes and edges, throws no error of the graph functions.
pub parse_and_validate_definition-build_topological_order :
    (input : DefinitionInput) (def : WorkflowDefinition)
    → parse_and_validate_definition input ≡ returned def
    → (order : List String) × (build_topological_order
          (map (λ n. n.id) def.nodes)
          (map ends def.edges)
        ≡ ok order)
parse_and_validate_definition-build_topological_order input def h =
    let w = ((parse_and_validate_definition_iff input def).0 h).1 in
    (build_topological_order_iff (map (λ n. n.id) def.nodes) (map ends def.edges) w.node_ids).1
      (w.refs, w.acyclic)
