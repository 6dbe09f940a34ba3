-- ===== src/Editor/Connect/Allowed.antt =====
-- When `onConnect` draws an edge (test-workflow-canvas.tsx).
use bumd.Prelude.{
  ◌≤◌, String, false, ◌||◌, Option, none, some, List, map, ◌==◌, find?, ◌≡◌, ◌≢◌, ◌↔◌, refl, sym,
  subst, arith, eq_iff, Bool-cases, inl, inr,
}
use bumd.Workflow.Graph.{Edge}
use bumd.Editor.Types.{EditorEdge, EditorDefinition, EditorAction, add_edge}
use bumd.Editor.Phases.{
  PhaseNode, ConnectionError, phase_order, connection_error, get_phase_connection_error,
}
use bumd.Editor.Connect.{
  has_cycle, dispatched, edge_ends, phase_node, checked_phase, checked_cycle, on_connect,
}
use bumd.Editor.Connect.Cycles.{LeadsBack, has_cycle_lem}

abbrev pub edges_of : EditorDefinition → List Edge
edges_of definition = map edge_ends definition.edges

-- Both ends have a node, and the phase of the target is not an earlier one.
abbrev pub PhasesFit : Option PhaseNode → Option PhaseNode → Type 0
PhasesFit source target =
    (s : PhaseNode) × (t : PhaseNode) × (source ≡ some s)
    × (target ≡ some t)
    × (phase_order s.phase ≤ phase_order t.phase)

-- The edge has two ends, closes no cycle, and its phases fit.
pub record Allowed (definition : EditorDefinition) (edge : EditorEdge) : Type 0 where
  pub source_named : edge.source ≢ ""
  pub target_named : edge.target ≢ ""
  pub no_way_back : LeadsBack (edges_of definition) edge.source edge.target → ⊥
  pub phases :
      PhasesFit
        (find? (λ node. node.id == edge.source) (map phase_node definition.nodes))
        (find? (λ node. node.id == edge.target) (map phase_node definition.nodes))

connection_error-PhasesFit :
    (source target : Option PhaseNode)
    → connection_error source target ≡ none
    → PhasesFit source target
connection_error-PhasesFit none target h = cc
connection_error-PhasesFit (some s) none h = cc
connection_error-PhasesFit (some s) (some t) h = (s, t, refl, refl, ground (arith, h))

PhasesFit-connection_error :
    (source target : Option PhaseNode)
    → PhasesFit source target
    → connection_error source target ≡ none
PhasesFit-connection_error source target (s, t, e, f, order) = rw (e, f) (ground (arith, order))

dispatched-none :
    (edge : EditorEdge) (error : Option ConnectionError) (action : EditorAction)
    → checked_phase edge error ≡ dispatched action
    → (error ≡ none) × (action ≡ add_edge edge)
dispatched-none edge none action h = (refl, cc)
dispatched-none edge (some error) action h = cc

some-eq : {A : Type 0} {x y : A} → some x ≡ some y → x ≡ y
some-eq h = cc

empty_ends : (a b : String) → (a == "" || b == "") ≡ false → (a ≢ "") × (b ≢ "")
empty_ends a b h = (λ e. ground (arith, h, e, eq_iff a ""), λ e. ground (arith, h, e, eq_iff b ""))

module _ (definition : EditorDefinition) (edge : EditorEdge) where
  abbrev error : Option ConnectionError
  error = get_phase_connection_error (map phase_node definition.nodes) edge.source edge.target

  checked_cycle-Allowed :
      (action : EditorAction)
      → (edge.source == "" || edge.target == "") ≡ false
      → checked_cycle definition edge (has_cycle (edges_of definition) edge.source edge.target)
        ≡ some (dispatched action)
      → Allowed definition edge × (action ≡ add_edge edge)
  unfolding get_phase_connection_error
  checked_cycle-Allowed action named h =
      elim (has_cycle_lem (edges_of definition) edge.source edge.target) [
        | inl (e, back) ↦ absurd (cc (e, h))
        | inr (e, none_back) ↦
            let passed = dispatched-none edge error action (some-eq (rw e at h)) in
            (
              record {
                source_named = (empty_ends edge.source edge.target named).0;
                target_named = (empty_ends edge.source edge.target named).1;
                no_way_back = none_back;
                phases = connection_error-PhasesFit _ _ passed.0;
              },
              passed.1,
            )
      ]

  on_connect-Allowed :
      (action : EditorAction)
      → on_connect definition edge ≡ some (dispatched action)
      → Allowed definition edge × (action ≡ add_edge edge)
  unfolding on_connect
  on_connect-Allowed action h = elim (Bool-cases (edge.source == "" || edge.target == "")) [
    | inl unnamed ↦ absurd (cc (rw unnamed at h))
    | inr named ↦ checked_cycle-Allowed action named (rw named at h)
  ]

  Allowed-on_connect :
      Allowed definition edge → on_connect definition edge ≡ some (dispatched (add_edge edge))
  unfolding on_connect get_phase_connection_error
  Allowed-on_connect allowed =
      let ok = PhasesFit-connection_error _ _ allowed.phases in
      elim (Bool-cases (edge.source == "")) [
        | inl empty ↦ absurd (allowed.source_named ((eq_iff edge.source "").0 empty))
        | inr first ↦ elim (Bool-cases (edge.target == "")) [
          | inl empty ↦ absurd (allowed.target_named ((eq_iff edge.target "").0 empty))
          | inr second ↦ elim (has_cycle_lem (edges_of definition) edge.source edge.target) [
            | inl (e, back) ↦ absurd (allowed.no_way_back back)
            | inr (e, none_back) ↦ rw (first, second, e, ok) refl
          ]
        ]
      ]

  -- The editor draws an edge exactly if it has two ends, its target is not its source, no path of edges
  -- leads from its target back to its source, both ends have a node, and the phase of the target is not
  -- earlier than that of the source; nothing else is dispatched.
  pub on_connect_iff :
      (action : EditorAction)
      → (on_connect definition edge ≡ some (dispatched action))
        ↔ (Allowed definition edge × (action ≡ add_edge edge))
  on_connect_iff action = (
    on_connect-Allowed action,
    λ h.
        subst (λ a. on_connect definition edge ≡ some (dispatched a)) (sym h.1)
          (Allowed-on_connect h.0),
  )
