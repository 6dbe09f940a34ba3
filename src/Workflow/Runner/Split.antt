-- ===== src/Workflow/Runner/Split.antt =====
-- How `executeRun` splits the nodes of a definition into phases: `nodesForPhase` over the
-- topological order (runner/test-workflow-runner.service.ts).
use bumd.Prelude.{
  String, true, false, some, List, [], ◌∷◌, map, ◌==◌, contains, Dict, lookup, insert, from_entries,
  ◌≡◌, refl, arith, eq_iff, lookup-insert, Bool-cases, Option-cases, ◌⊎◌, inl, inr,
}
use bumd.Workflow.Types.{NodePhase, setup, test, teardown, WorkflowNode}
use bumd.Workflow.Definition.{by_id}
use bumd.Workflow.Runner.Run.{same_phase, nodes_for_phase}

abbrev entry : WorkflowNode → String × WorkflowNode
entry n = (n.id, n)

-- The map holds each node under its own id.
abbrev ById : Dict WorkflowNode → Type 0
ById d = (k : String) (n : WorkflowNode) → lookup k d ≡ some n → n.id ≡ k

ById-insert : (n : WorkflowNode) (d : Dict WorkflowNode) → ById d → ById (insert n.id n d)
ById-insert n d h k m found = ground (arith, lookup-insert n.id k n d, eq_iff n.id k, h k m)

ById-from_entries :
    (d : Dict WorkflowNode) (nodes : List WorkflowNode)
    → ById d
    → ById (from_entries d (map entry nodes))
ById-from_entries d [] h = h
ById-from_entries d (n ∷ nodes) h = ById-from_entries (insert n.id n d) nodes (ById-insert n d h)

ById-by_id : (nodes : List WorkflowNode) → ById (by_id nodes)
ById-by_id nodes = ById-from_entries [] nodes (λ k n h. absurd (cc))

lookup-from_entries-some :
    (d : Dict WorkflowNode) (nodes : List WorkflowNode) (j : String)
    → ((contains (map (λ n. n.id) nodes) j ≡ true) ⊎ ((n : WorkflowNode) × (lookup j d ≡ some n)))
    → (n : WorkflowNode) × (lookup j (from_entries d (map entry nodes)) ≡ some n)
lookup-from_entries-some d [] j (inl h) = absurd (cc)
lookup-from_entries-some d [] j (inr h) = h
lookup-from_entries-some d (n ∷ nodes) j h = elim (Bool-cases (n.id == j)) [
  | inl same ↦
      lookup-from_entries-some (insert n.id n d) nodes j
        (inr (n, ground (arith, lookup-insert n.id j n d)))
  | inr other ↦ lookup-from_entries-some (insert n.id n d) nodes j (later h other)
]
  where
    later :
        (contains (map (λ n. n.id) (n ∷ nodes)) j ≡ true)
          ⊎ ((m : WorkflowNode) × (lookup j d ≡ some m))
        → (n.id == j) ≡ false
        → (contains (map (λ n. n.id) nodes) j ≡ true)
          ⊎ ((m : WorkflowNode) × (lookup j (insert n.id n d) ≡ some m))
    later (inl listed) other = inl (ground arith)
    later (inr (m, found)) other = inr (m, ground (arith, lookup-insert n.id j n d))

-- Each node of the order whose phase is this one is in the list of the phase.
nodes_for_phase-contains :
    (order : List String) (d : Dict WorkflowNode) (phase : NodePhase) (j : String)
    (n : WorkflowNode)
    → lookup j d ≡ some n
    → n.id ≡ j
    → same_phase n.phase phase ≡ true
    → contains order j ≡ true
    → contains (map (λ n. n.id) (nodes_for_phase order d phase)) j ≡ true
unfolding nodes_for_phase
nodes_for_phase-contains [] d phase j n found own here listed = absurd (cc)
nodes_for_phase-contains (k ∷ order) d phase j n found own here listed =
    let ih = nodes_for_phase-contains order d phase j n found own here in
    elim (Bool-cases (k == j)) [
      | inl same ↦
          let at_k : lookup k d ≡ some n = ground (arith, eq_iff k j) in
          rw (at_k, here) (ground (arith, eq_iff n.id j))
      | inr other ↦ elim (Option-cases (lookup k d)) [
        | inl missing ↦ rw missing (ih (ground arith))
        | inr (m, at_k) ↦ let rest = ih (ground arith) in rw at_k (ground arith)
      ]
    ]

-- The list of a phase holds nodes of the order only.
pub nodes_for_phase-Within :
    (order : List String) (nodes : List WorkflowNode) (phase : NodePhase) (j : String)
    → contains (map (λ n. n.id) (nodes_for_phase order (by_id nodes) phase)) j ≡ true
    → contains order j ≡ true
unfolding nodes_for_phase
nodes_for_phase-Within [] nodes phase j h = h
nodes_for_phase-Within (k ∷ order) nodes phase j h =
    let ih = nodes_for_phase-Within order nodes phase j in
    elim (Option-cases (lookup k (by_id nodes))) [
      | inl missing ↦ let rest = ih (rw missing at h) in ground arith
      | inr (m, found) ↦
          let own = ById-by_id nodes k m found in
          let h' = rw found at h in ground (arith, eq_iff m.id j, eq_iff k j, eq_iff m.id k)
    ]

-- Each node of the definition is in the list of one of the three phases.
pub nodes_for_phase-cases :
    (order : List String) (nodes : List WorkflowNode) (j : String)
    → contains order j ≡ true
    → contains (map (λ n. n.id) nodes) j ≡ true
    → (phase : NodePhase) × (contains
          (map (λ n. n.id) (nodes_for_phase order (by_id nodes) phase))
          j
        ≡ true)
nodes_for_phase-cases order nodes j ordered listed =
    let (n, found) = lookup-from_entries-some [] nodes j (inl listed) in
    (
      n.phase,
      nodes_for_phase-contains order (by_id nodes) n.phase j n found (ById-by_id nodes j n found)
          (same n.phase) ordered,
    )
  where
    same : (p : NodePhase) → same_phase p p ≡ true
    same setup = refl
    same test = refl
    same teardown = refl
