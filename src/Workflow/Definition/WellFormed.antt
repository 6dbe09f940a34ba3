-- ===== src/Workflow/Definition/WellFormed.antt =====
-- What it means that a definition is well formed, independent of how
-- test-workflow-definition.schema.ts checks it, and the lemmas on each of its loops.
use bumd.Prelude.{
  ℕ, ◌≤◌, String, true, false, ◌||◌, List, [], ◌∷◌, ◌++◌, map, contains, add, Distinct, returned,
  Except-cases, ◌≡◌, ◌↔◌, refl, arith, eq_iff, eq_self, contains-add, All, Bool-cases, inl, inr,
}
use bumd.Workflow.Types.{WorkflowExport, WorkflowNode, WorkflowEdge, WorkflowDefinition}
use bumd.Workflow.Graph.Degrees.{Refs}
use bumd.Workflow.Graph.Order.{Grows}
use bumd.Workflow.Definition.{
  phase_order, collect_node_ids, check_edges, check_exports, check_all_exports, ends,
}

-- The names of all exports, node by node.
abbrev pub export_names : List WorkflowNode → List String
export_names [] = []
export_names (node ∷ nodes) = map (λ x. x.name) node.exports ++ export_names nodes

-- No edge leads from a node to a node of an earlier phase.
abbrev pub PhasesAscend : List WorkflowNode → WorkflowEdge → Type 0
PhasesAscend nodes edge =
    All
      (λ s.
        All
          (λ t. s.id ≡ edge.source → t.id ≡ edge.target → phase_order s.phase ≤ phase_order t.phase)
          nodes)
      nodes

pub record IsWellFormed (def : WorkflowDefinition) : Type 0 where
  pub node_ids : Distinct (map (λ n. n.id) def.nodes)
  pub edge_ids : Distinct (map (λ e. e.id) def.edges)
  pub refs : Refs (map (λ n. n.id) def.nodes) (map ends def.edges)
  pub phases : All (PhasesAscend def.nodes) def.edges
  pub exports : Distinct (export_names def.nodes)
  pub acyclic : (rank : String → ℕ) × Grows rank (map ends def.edges)

-- Each name is new to the set that the names before it extend.
abbrev pub FreshTo : List String → List String → Type 0
FreshTo seen [] = Unit
FreshTo seen (x ∷ xs) = (contains seen x ≡ false) × FreshTo (add seen x) xs

pub FreshTo-Distinct :
    (seen xs : List String)
    → FreshTo seen xs
    → Distinct xs × ((a : String) → contains xs a ≡ true → contains seen a ≡ false)
FreshTo-Distinct seen [] h = (tt, λ a m. absurd (cc))
FreshTo-Distinct seen (x ∷ xs) h =
    let (distinct, apart) = FreshTo-Distinct (add seen x) xs h.1 in
    (
      (ground (arith, apart x, contains-add seen x x, eq_self x), distinct),
      λ a m. ground (arith, apart a, contains-add seen x a, h.0, eq_iff x a),
    )

pub Distinct-FreshTo :
    (seen xs : List String)
    → Distinct xs
    → ((a : String) → contains xs a ≡ true → contains seen a ≡ false)
    → FreshTo seen xs
Distinct-FreshTo seen [] d apart = tt
Distinct-FreshTo seen (x ∷ xs) d apart = (
  apart x (ground (arith, eq_self x)),
  Distinct-FreshTo (add seen x) xs d.1
      (λ a m. ground (arith, apart a, contains-add seen x a, d.0, eq_iff x a)),
)

pub collect_node_ids-FreshTo :
    (seen : List String) (nodes : List WorkflowNode) (ids : List String)
    → collect_node_ids seen nodes ≡ returned ids
    → FreshTo seen (map (λ n. n.id) nodes)
      × ((a : String) → contains ids a ≡ (contains seen a || contains (map (λ n. n.id) nodes) a))
unfolding collect_node_ids
collect_node_ids-FreshTo seen [] ids h = (tt, λ a. ground arith)
collect_node_ids-FreshTo seen (n ∷ nodes) ids h = elim (Bool-cases (contains seen n.id)) [
  | inl old ↦ absurd (cc (rw old at h))
  | inr new ↦
      let ih = collect_node_ids-FreshTo (add seen n.id) nodes ids (ground arith) in
      ((new, ih.0), λ a. ground (arith, ih.1 a, contains-add seen n.id a))
]

pub FreshTo-collect_node_ids :
    (seen : List String) (nodes : List WorkflowNode)
    → FreshTo seen (map (λ n. n.id) nodes)
    → (ids : List String) × (collect_node_ids seen nodes ≡ returned ids)
unfolding collect_node_ids
FreshTo-collect_node_ids seen [] h = (seen, refl)
FreshTo-collect_node_ids seen (n ∷ nodes) h =
    let (ids, done) = FreshTo-collect_node_ids (add seen n.id) nodes h.1 in (ids, ground arith)

pub check_edges_iff :
    (ids seen : List String) (edges : List WorkflowEdge)
    → (check_edges ids seen edges ≡ returned tt)
      ↔ (FreshTo seen (map (λ e. e.id) edges) × Refs ids (map ends edges))
unfolding check_edges
check_edges_iff ids seen [] = (λ h. (tt, tt), λ h. refl)
check_edges_iff ids seen (e ∷ edges) = ground (arith, check_edges_iff ids (add seen e.id) edges)

-- The set after all of the names.
abbrev add_all : List String → List String → List String
add_all seen [] = seen
add_all seen (x ∷ xs) = add_all (add seen x) xs

FreshTo-append :
    (seen xs ys : List String)
    → FreshTo seen (xs ++ ys) ↔ (FreshTo seen xs × FreshTo (add_all seen xs) ys)
FreshTo-append seen [] ys = (λ h. (tt, h), λ h. h.1)
FreshTo-append seen (x ∷ xs) ys =
    let (to, from) = FreshTo-append (add seen x) xs ys in
    (λ h. ((h.0, (to h.1).0), (to h.1).1), λ h. (h.0.0, from (h.0.1, h.1)))

check_exports-FreshTo :
    (seen : List String) (exports : List WorkflowExport) (names : List String)
    → check_exports seen exports ≡ returned names
    → FreshTo seen (map (λ x. x.name) exports) × (names ≡ add_all seen (map (λ x. x.name) exports))
unfolding check_exports
check_exports-FreshTo seen [] names h = (tt, ground arith)
check_exports-FreshTo seen (x ∷ exports) names h = elim (Bool-cases (contains seen x.name)) [
  | inl old ↦ absurd (cc (rw old at h))
  | inr new ↦
      let ih = check_exports-FreshTo (add seen x.name) exports names (ground arith) in
      ((new, ih.0), ih.1)
]

FreshTo-check_exports :
    (seen : List String) (exports : List WorkflowExport)
    → FreshTo seen (map (λ x. x.name) exports)
    → check_exports seen exports ≡ returned (add_all seen (map (λ x. x.name) exports))
unfolding check_exports
FreshTo-check_exports seen [] h = refl
FreshTo-check_exports seen (x ∷ exports) h =
    ground (arith, FreshTo-check_exports (add seen x.name) exports h.1)

pub check_all_exports-FreshTo :
    (seen : List String) (nodes : List WorkflowNode)
    → check_all_exports seen nodes ≡ returned tt
    → FreshTo seen (export_names nodes)
unfolding check_all_exports
check_all_exports-FreshTo seen [] h = tt
check_all_exports-FreshTo seen (n ∷ nodes) h = elim (Except-cases (check_exports seen n.exports)) [
  | inr (e, refused) ↦ absurd (cc (rw refused at h))
  | inl (names, passed) ↦
      let (fresh, same) = check_exports-FreshTo seen n.exports names passed in
      let rest = check_all_exports-FreshTo names nodes (rw passed at h) in
      (FreshTo-append seen (map (λ x. x.name) n.exports) (export_names nodes)).1
        (fresh, rw same at rest)
]

pub FreshTo-check_all_exports :
    (seen : List String) (nodes : List WorkflowNode)
    → FreshTo seen (export_names nodes)
    → check_all_exports seen nodes ≡ returned tt
unfolding check_all_exports
FreshTo-check_all_exports seen [] h = refl
FreshTo-check_all_exports seen (n ∷ nodes) h =
    let (here, later) =
      (FreshTo-append seen (map (λ x. x.name) n.exports) (export_names nodes)).0 h in
    rw (FreshTo-check_exports seen n.exports here)
      (FreshTo-check_all_exports (add_all seen (map (λ x. x.name) n.exports)) nodes later)
