-- ===== src/Editor/Examples.antt =====
-- Sequences of actions of the editor, and its theorems applied to them (workflow-editor-state.ts,
-- workflow-phases.ts).
use bumd.Prelude.{
  String, true, false, none, some, List, [], ◌∷◌, map, contains, lookup, ◌≡◌, ◌↔◌, refl,
}
use bumd.Json.{null, obj, end}
use bumd.Workflow.Types.{setup, teardown, WorkflowNode, NodePhase}
use bumd.Workflow.Definition.{by_id, phase_ok}
use bumd.Editor.Types.{
  EditorState, NewNode, EditorAction, add_node, add_edge, remove_node, select_node, select_edge,
  run_start,
}
use bumd.Editor.{initial_editor_state, workflow_editor_reducer}
use bumd.Editor.Edges.{IsValid}
use bumd.Editor.Reach.{
  Reaches, done, step, Edits, SameContent, initial_editor_state-IsValid, Edits-SameContent,
}
use bumd.Editor.Phases.{
  earlier_phase, get_phase_connection_error, pick, get_phase_connection_error_iff,
}

abbrev new_node : String → NewNode
new_node id = record {
  id = id;
  phase = none;
  request_template = record { server_url = none; rest = null };
  exports = null;
  assertions = null;
  endpoint = null;
}

abbrev after : EditorState → EditorAction → EditorState
after state action = workflow_editor_reducer "12:00:00" state action

abbrev two_nodes : EditorState
two_nodes = after (after initial_editor_state (add_node (new_node "a"))) (add_node (new_node "b"))

abbrev joined : EditorState
joined =
    after (after two_nodes (add_edge (record { id = "e"; source = "a"; target = "b" })))
      (select_node "a")

abbrev parted : EditorState
parted = after joined (remove_node "a")

edge_gone : parted.definition.edges ≡ []
unfolding workflow_editor_reducer
edge_gone = refl

selection_gone : parted.selected_node_id ≡ none
unfolding workflow_editor_reducer
selection_gone = refl

-- The selection of an edge stays when the edge goes with its node.
edge_still_selected :
    (after (after joined (select_edge "e")) (remove_node "a")).selected_edge_id ≡ some "e"
unfolding workflow_editor_reducer
edge_still_selected = refl

reached : Reaches initial_editor_state parted
unfolding workflow_editor_reducer
reached = step "12:00:00" (add_node (new_node "a")) tt (
    step "12:00:00" (add_node (new_node "b")) tt (
      step "12:00:00" (add_edge (record { id = "e"; source = "a"; target = "b" })) (refl, refl)
        (step "12:00:00" (select_node "a") tt (step "12:00:00" (remove_node "a") tt done))))

initial_editor_state-IsValid_example : IsValid parted
initial_editor_state-IsValid_example = initial_editor_state-IsValid parted reached

-- A clean state, and one after actions that change no content.
abbrev running : EditorState
running = after (after initial_editor_state (select_node "a")) (run_start "run_1")

edited : Edits initial_editor_state running
edited =
    Edits.step "12:00:00" (select_node "a") refl
      (Edits.step "12:00:00" (run_start "run_1") refl Edits.done)

running_clean : running.dirty ≡ false
unfolding workflow_editor_reducer
running_clean = refl

Edits-SameContent_example : SameContent initial_editor_state running
Edits-SameContent_example = Edits-SameContent edited running_clean

abbrev workflow_node : String → NodePhase → WorkflowNode
workflow_node id phase = record {
  id = id;
  operation_id = id;
  method = "get";
  path = "/";
  label = id;
  phase = phase;
  request_template = obj end;
  exports = [];
  assertions = [];
}

abbrev nodes : List WorkflowNode
nodes = workflow_node "a" setup ∷ workflow_node "b" teardown ∷ []

earlier_refused :
    get_phase_connection_error (map pick nodes) "b" "a" ≡ some (earlier_phase teardown setup)
unfolding get_phase_connection_error
earlier_refused = refl

get_phase_connection_error_iff_example :
    (get_phase_connection_error (map pick nodes) "a" "b" ≡ none) ↔ (
      (contains (map (λ n. n.id) nodes) "a" ≡ true)
      × (contains (map (λ n. n.id) nodes) "b" ≡ true)
      × (phase_ok (lookup "a" (by_id nodes)) (lookup "b" (by_id nodes)) ≡ true))
get_phase_connection_error_iff_example =
    get_phase_connection_error_iff nodes "a" "b" (refl, (refl, tt))
