-- ===== src/Editor/Phases.antt =====
-- workflow-phases.ts: the editor's phase rule for a connection of two nodes, and the phase rule of
-- parseAndValidateDefinition in the backend's test-workflow-definition.schema.ts.
use bumd.Prelude.{
  ℕ, String, Bool, true, false, Option, none, some, List, [], ◌∷◌, map, ◌==◌, if◌then◌else◌, leb,
  find?, contains, Distinct, Dict, lookup, insert, from_entries, lookup-insert, ◌≡◌, ◌↔◌, refl, sym,
  ap, ◌∙◌, subst, arith, eq_iff, Bool-cases, Option-cases, inl, inr,
}
use bumd.Workflow.Types.{NodePhase, setup, test, teardown, WorkflowNode}
use bumd.Workflow.Definition.{phase_order as backend_order, by_id, phase_ok}

-- `Pick<TestWorkflowNode, "id" | "phase">`
pub record PhaseNode : Type 0 where
  pub id : String
  pub phase : NodePhase

-- The messages.
pub data ConnectionError : Type 0 where
  unknown_node : ConnectionError
  earlier_phase : NodePhase → NodePhase → ConnectionError

-- `phaseOrder`
abbrev pub phase_order : NodePhase → ℕ
phase_order setup = 0
phase_order test = 1
phase_order teardown = 2

abbrev pub connection_error : Option PhaseNode → Option PhaseNode → Option ConnectionError
connection_error none target = some unknown_node
connection_error (some source) none = some unknown_node
connection_error (some source) (some target) =
    if leb (phase_order source.phase) (phase_order target.phase)
    then none
    else some (earlier_phase source.phase target.phase)

unfoldable pub get_phase_connection_error :
    List PhaseNode → String → String → Option ConnectionError
get_phase_connection_error nodes source_id target_id =
    connection_error (find? (λ node. node.id == source_id) nodes)
      (find? (λ node. node.id == target_id) nodes)

-- What the editor sees of a node of the backend.
abbrev pub pick : WorkflowNode → PhaseNode
pick node = record { id = node.id; phase = node.phase }

abbrev picked : Option WorkflowNode → Option PhaseNode
picked none = none
picked (some node) = some (pick node)

abbrev is_some : Option WorkflowNode → Bool
is_some none = false
is_some (some node) = true

abbrev entry : WorkflowNode → String × WorkflowNode
entry n = (n.id, n)

lookup_absent :
    (d : Dict WorkflowNode) (nodes : List WorkflowNode) (k : String)
    → contains (map (λ n. n.id) nodes) k ≡ false
    → lookup k (from_entries d (map entry nodes)) ≡ lookup k d
lookup_absent d [] k h = refl
lookup_absent d (n ∷ nodes) k h =
    ground (arith, lookup_absent (insert n.id n d) nodes k, lookup-insert n.id k n d)

-- Under distinct ids, the first node with an id is the one that the map by id holds.
find-from_entries :
    (d : Dict WorkflowNode) (nodes : List WorkflowNode) (k : String)
    → Distinct (map (λ n. n.id) nodes)
    → lookup k d ≡ none
    → find? (λ node. node.id == k) (map pick nodes)
      ≡ picked (lookup k (from_entries d (map entry nodes)))
find-from_entries d [] k distinct absent = sym (ap picked absent)
find-from_entries d (n ∷ nodes) k distinct absent = elim (Bool-cases (n.id == k)) [
  | inl same ↦
      let e : n.id ≡ k = (eq_iff n.id k).0 same in
      let here : lookup k (from_entries (insert n.id n d) (map entry nodes)) ≡ some n =
        lookup_absent (insert n.id n d) nodes k
          (subst (λ j. contains (map (λ m. m.id) nodes) j ≡ false) e distinct.0)
        ∙ lookup-insert n.id k n d
        ∙ simp same in
      simp same (sym (ap picked here))
  | inr other ↦ simp other (
      find-from_entries (insert n.id n d) nodes k distinct.1
        (lookup-insert n.id k n d ∙ simp other absent))
]

contains-find :
    (nodes : List WorkflowNode) (k : String)
    → contains (map (λ n. n.id) nodes) k ≡ false
    → find? (λ node. node.id == k) (map pick nodes) ≡ none
contains-find [] k h = refl
contains-find (n ∷ nodes) k h = ground (arith, contains-find nodes k)

find-contains :
    (nodes : List WorkflowNode) (k : String)
    → find? (λ node. node.id == k) (map pick nodes) ≡ none
    → contains (map (λ n. n.id) nodes) k ≡ false
find-contains [] k h = refl
find-contains (n ∷ nodes) k h = ground (arith, find-contains nodes k)

same_order : (phase : NodePhase) → phase_order phase ≡ backend_order phase
same_order setup = refl
same_order test = refl
same_order teardown = refl

connection_error_iff :
    (source target : Option WorkflowNode)
    → (connection_error (picked source) (picked target) ≡ none)
      ↔ ((is_some source ≡ true) × (is_some target ≡ true) × (phase_ok source target ≡ true))
unfolding phase_ok
connection_error_iff none target = (λ h. absurd (cc), λ h. absurd (cc (h.0)))
connection_error_iff (some s) none = (λ h. absurd (cc), λ h. absurd (cc (h.1)))
connection_error_iff (some s) (some t) =
    let at_source = same_order s.phase in
    let at_target = same_order t.phase in
    (λ h. (refl, refl, ground (arith, h)), λ h. let ok = h.2 in ground (arith, ok))

is_some-lookup :
    (nodes : List WorkflowNode) (k : String)
    → Distinct (map (λ n. n.id) nodes)
    → is_some (lookup k (by_id nodes)) ≡ contains (map (λ n. n.id) nodes) k
is_some-lookup nodes k distinct =
    let found = find-from_entries [] nodes k distinct refl in
    elim (Option-cases (lookup k (by_id nodes))) [
      | inl missing ↦ ap is_some missing ∙ sym (find-contains nodes k (found ∙ ap picked missing))
      | inr (n, e) ↦ elim (Bool-cases (contains (map (λ m. m.id) nodes) k)) [
        | inl listed ↦ ap is_some e ∙ sym listed
        | inr absent ↦ absurd (cc (contains-find nodes k absent, found, ap picked e))
      ]
    ]

-- Where no two nodes have one id, the editor's getPhaseConnectionError gives no error for a connection
-- exactly if both nodes are there and the connection passes the phase rule of the backend.
pub get_phase_connection_error_iff :
    (nodes : List WorkflowNode) (source_id target_id : String)
    → Distinct (map (λ n. n.id) nodes)
    → (get_phase_connection_error (map pick nodes) source_id target_id ≡ none) ↔ (
        (contains (map (λ n. n.id) nodes) source_id ≡ true)
        × (contains (map (λ n. n.id) nodes) target_id ≡ true)
        × (phase_ok (lookup source_id (by_id nodes)) (lookup target_id (by_id nodes)) ≡ true))
unfolding get_phase_connection_error
get_phase_connection_error_iff nodes source_id target_id distinct =
    let source = lookup source_id (by_id nodes) in
    let target = lookup target_id (by_id nodes) in
    let at_source = find-from_entries [] nodes source_id distinct refl in
    let at_target = find-from_entries [] nodes target_id distinct refl in
    let there_source = is_some-lookup nodes source_id distinct in
    let there_target = is_some-lookup nodes target_id distinct in
    let rule = connection_error_iff source target in
    let error : get_phase_connection_error (map pick nodes) source_id target_id
        ≡ connection_error (picked source) (picked target) =
      ap (λ o. connection_error o (find? (λ node. node.id == target_id) (map pick nodes))) at_source
      ∙ ap (connection_error (picked source)) at_target in
    (
      λ h.
          let (a, b, c) = rule.0 (sym error ∙ h) in (sym there_source ∙ a, sym there_target ∙ b, c),
      λ h. let (a, b, c) = h in error ∙ rule.1 (there_source ∙ a, there_target ∙ b, c),
    )
