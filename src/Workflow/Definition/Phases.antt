-- ===== src/Workflow/Definition/Phases.antt =====
-- The phase rule of test-workflow-definition.schema.ts reads the nodes through a map by id.
use bumd.Prelude.{
  ◌≤◌, String, true, false, none, some, List, [], ◌∷◌, map, ◌==◌, contains, Distinct, Dict, lookup,
  insert, from_entries, returned, ◌≡◌, ◌↔◌, refl, arith, eq_iff, eq_self, subst, lookup-insert, All,
  Bool-cases, Option-cases, inl, inr,
}
use bumd.Workflow.Types.{WorkflowNode, WorkflowEdge}
use bumd.Workflow.Definition.{phase_order, by_id, phase_ok, check_phases}
use bumd.Workflow.Definition.WellFormed.{PhasesAscend}

abbrev entry : WorkflowNode → String × WorkflowNode
entry n = (n.id, n)

lookup-absent :
    (d : Dict WorkflowNode) (nodes : List WorkflowNode) (k : String)
    → contains (map (λ n. n.id) nodes) k ≡ false
    → lookup k (from_entries d (map entry nodes)) ≡ lookup k d
lookup-absent d [] k h = refl
lookup-absent d (n ∷ nodes) k h =
    ground (arith, lookup-absent (insert n.id n d) nodes k, lookup-insert n.id k n d)

-- Under distinct ids the map finds each node by its id.
lookup-node :
    (d : Dict WorkflowNode) (nodes : List WorkflowNode)
    → Distinct (map (λ n. n.id) nodes)
    → All (λ n. lookup n.id (from_entries d (map entry nodes)) ≡ some n) nodes
lookup-node d [] h = tt
lookup-node d (n ∷ nodes) h = (
  ground (
    arith,
    lookup-absent (insert n.id n d) nodes n.id,
    lookup-insert n.id n.id n d,
    eq_self n.id,
  ),
  lookup-node (insert n.id n d) nodes h.1,
)

-- What the map finds is one of the nodes, with that id.
found_node :
    (P : WorkflowNode → Type 0) (d : Dict WorkflowNode) (nodes : List WorkflowNode) (k : String)
    (s : WorkflowNode)
    → All P nodes
    → lookup k d ≡ none
    → Distinct (map (λ n. n.id) nodes)
    → lookup k (from_entries d (map entry nodes)) ≡ some s
    → (s.id ≡ k) × P s
found_node P d [] k s all absent distinct h = absurd (cc)
found_node P d (n ∷ nodes) k s all absent distinct h = elim (Bool-cases (n.id == k)) [
  | inl same ↦
      let here : lookup k (from_entries (insert n.id n d) (map entry nodes)) ≡ some n =
        ground (
          arith,
          lookup-absent (insert n.id n d) nodes k,
          lookup-insert n.id k n d,
          eq_iff n.id k,
        ) in
      let e : n ≡ s = ground arith in (ground (arith, eq_iff n.id k), subst P e all.0)
  | inr other ↦
      found_node P (insert n.id n d) nodes k s all.1 (ground (arith, lookup-insert n.id k n d))
        distinct.1 h
]

All-map {ℓ κ μ} :
    {A : Type ℓ} (P : A → Type κ) (Q : A → Type μ) (xs : List A)
    → ((x : A) → P x → Q x)
    → All P xs
    → All Q xs
All-map P Q [] f h = tt
All-map P Q (x ∷ xs) f h = (f x h.0, All-map P Q xs f h.1)

module _ (nodes : List WorkflowNode) (distinct : Distinct (map (λ n. n.id) nodes)) where
  abbrev Found : WorkflowNode → Type 0
  Found n = lookup n.id (by_id nodes) ≡ some n

  edge-PhasesAscend :
      (edge : WorkflowEdge)
      → phase_ok (lookup edge.source (by_id nodes)) (lookup edge.target (by_id nodes)) ≡ true
      → PhasesAscend nodes edge
  unfolding phase_ok
  edge-PhasesAscend edge ok =
      let all = lookup-node [] nodes distinct in
      All-map Found _ nodes
        (λ s at_s. All-map Found _ nodes (λ t at_t p q. ordered s t at_s at_t p q) all) all
    where
      ordered :
          (s t : WorkflowNode)
          → Found s
          → Found t
          → s.id ≡ edge.source
          → t.id ≡ edge.target
          → phase_order s.phase ≤ phase_order t.phase
      ordered s t at_s at_t p q =
          let from : lookup edge.source (by_id nodes) ≡ some s = rw (← p) at_s in
          let to : lookup edge.target (by_id nodes) ≡ some t = rw (← q) at_t in ground arith

  PhasesAscend-edge :
      (edge : WorkflowEdge)
      → PhasesAscend nodes edge
      → phase_ok (lookup edge.source (by_id nodes)) (lookup edge.target (by_id nodes)) ≡ true
  unfolding phase_ok
  PhasesAscend-edge edge all = elim (Option-cases (lookup edge.source (by_id nodes))) [
    | inl missing ↦ rw (missing, phase_ok)
    | inr (s, at_s) ↦ elim (Option-cases (lookup edge.target (by_id nodes))) [
      | inl missing ↦ rw (at_s, missing)
      | inr (t, at_t) ↦
          let (p, row) =
            found_node
              (λ x.
                All
                  (λ y.
                    x.id ≡ edge.source
                    → y.id ≡ edge.target
                    → phase_order x.phase ≤ phase_order y.phase)
                  nodes)
              [] nodes edge.source s all refl distinct at_s in
          let (q, below) =
            found_node
              (λ y.
                s.id ≡ edge.source → y.id ≡ edge.target → phase_order s.phase ≤ phase_order y.phase)
              [] nodes edge.target t row refl distinct at_t in
          let le = below p q in rw (at_s, at_t) (ground arith)
    ]
  ]

  -- The loop passes exactly if the phases ascend along every edge.
  pub check_phases_iff :
      (edges : List WorkflowEdge)
      → (check_phases (by_id nodes) edges ≡ returned tt) ↔ All (PhasesAscend nodes) edges
  unfolding check_phases
  check_phases_iff [] = (λ h. tt, λ h. refl)
  check_phases_iff (e ∷ edges) =
      let (to, from) = check_phases_iff edges in
      (
        λ h. (edge-PhasesAscend e (ground arith), to (ground arith)),
        λ h. let passed = PhasesAscend-edge e h.0 in rw passed (from h.1),
      )
