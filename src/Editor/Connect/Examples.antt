-- ===== src/Editor/Connect/Examples.antt =====
-- Two nodes that are joined, and what would close a cycle (test-workflow-canvas.tsx).
use bumd.Prelude.{String, none, some, [], ◌∷◌, ◌≡◌, ◌↔◌, refl}
use bumd.Json.{null}
use bumd.Workflow.Types.{setup, teardown, NodePhase}
use bumd.Workflow.Graph.Walk.{Reaches, one, more, Step}
use bumd.Editor.Types.{EditorNode, EditorEdge, EditorState, EditorDefinition, add_edge}
use bumd.Editor.Phases.{earlier_phase, get_phase_connection_error}
use bumd.Editor.{initial_editor_state, workflow_editor_reducer}
use bumd.Editor.Connect.{
  push_children, cycle_loop, has_cycle, would_cycle, phase_refused, dispatched, on_connect,
}
use bumd.Editor.Connect.Allowed.{edges_of, Allowed, on_connect_iff}
use bumd.Editor.Connect.Acyclic.{IsAcyclic, on_connect-IsAcyclic}

abbrev node : String → NodePhase → EditorNode
node id phase = record {
  id = id;
  phase = phase;
  request_template = record { server_url = none; rest = null };
  exports = null;
  assertions = null;
  endpoint = null;
}

abbrev edge : String → String → EditorEdge
edge source target = record { id = "e"; source = source; target = target }

abbrev two_nodes : EditorState
two_nodes = record initial_editor_state {
  definition = record initial_editor_state.definition {
    nodes = node "a" setup ∷ node "b" setup ∷ node "c" teardown ∷ [];
  };
}

abbrev joined : EditorDefinition
joined = record two_nodes.definition { edges = edge "a" "b" ∷ edge "b" "c" ∷ [] }

drawn : on_connect two_nodes.definition (edge "a" "b") ≡ some (dispatched (add_edge (edge "a" "b")))
unfolding on_connect has_cycle cycle_loop push_children get_phase_connection_error
drawn = refl

cycle_refused : on_connect joined (edge "c" "a") ≡ some would_cycle
unfolding on_connect has_cycle cycle_loop push_children
cycle_refused = refl

phase_back :
    on_connect two_nodes.definition (edge "c" "a")
    ≡ some (phase_refused (earlier_phase teardown setup))
unfolding on_connect has_cycle cycle_loop push_children get_phase_connection_error
phase_back = refl

on_connect_iff_example :
    (on_connect two_nodes.definition (edge "a" "b") ≡ some (dispatched (add_edge (edge "a" "b"))))
    ↔ (Allowed two_nodes.definition (edge "a" "b")
        × (add_edge (edge "a" "b") ≡ add_edge (edge "a" "b")))
on_connect_iff_example =
    on_connect_iff two_nodes.definition (edge "a" "b") (add_edge (edge "a" "b"))

no_edges : (v w : String) → Reaches (Step []) v w → ⊥
no_edges v w (one s) = cc
no_edges v w (more p s) = cc

two_nodes-IsAcyclic : IsAcyclic (edges_of two_nodes.definition)
two_nodes-IsAcyclic v path = no_edges v v path

on_connect-IsAcyclic_example :
    IsAcyclic
      (edges_of (workflow_editor_reducer "12:00:00" two_nodes (add_edge (edge "a" "b"))).definition)
on_connect-IsAcyclic_example =
    on_connect-IsAcyclic "12:00:00" two_nodes (edge "a" "b") (add_edge (edge "a" "b"))
      two_nodes-IsAcyclic drawn
