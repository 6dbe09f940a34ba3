-- ===== src/Editor.antt =====
-- The workflow editor (apps/frontend/src/features/test-workflow-editor/model): the reducer of
-- workflow-editor-state.ts, and workflow-phases.ts. What the reducer only carries along is JSON.
pub mod Types
pub mod Phases
pub mod Connect
pub mod Edges
pub mod Reach
pub mod Form
mod Examples
use bumd.Prelude.{
  ℕ, String, Bool, true, false, not, ◌&&◌, ◌||◌, Option, none, some, List, [], ◌∷◌, ◌++◌, map, ◌==◌,
  if◌then◌else◌, eqb, leb, any, filter, find?,
}
use bumd.Json.{Json, Fields, end, obj}
use bumd.Workflow.Types.{NodePhase, setup, test, teardown}
use Types.{
  RequestTemplate, EditorNode, NewNode, EditorEdge, Metadata, EditorDefinition, WorkflowDto,
  Settings, EditorState, EditorAction, load_workflow, update_settings, set_nodes, set_edges,
  select_node, select_edge, deselect, update_node_template, update_node_exports,
  update_node_assertions, add_node, remove_node, add_edge, remove_edge, save_start, save_success,
  save_failure, save_conflict, run_start, run_update, run_finish,
}

-- The data of `{ testData: {} }`.
abbrev pub no_data : Json
no_data = obj end

abbrev pub initial_editor_state : EditorState
initial_editor_state = record {
  workflow_id = none;
  name = "";
  description = none;
  metadata = record { tags = []; priority = "medium"; test_type = "integration" };
  revision = 1;
  definition = record { test_data = no_data; nodes = []; edges = []; viewport = none };
  selected_node_id = none;
  selected_edge_id = none;
  dirty = false;
  saving = false;
  save_error = none;
  has_save_conflict = false;
  conflict_revision = none;
  running = false;
  current_run_id = none;
  run_status = none;
  last_saved_at = none;
  default_server_url = none;
}

-- `Boolean(text)`
abbrev pub truthy : Option String → Bool
truthy none = false
truthy (some text) = not (text == "")

-- `first ?? second`
abbrev pub or_else {ℓ} : {A : Type ℓ} → Option A → Option A → Option A
or_else none second = second
or_else (some a) second = some a

abbrev pub json_or : Option Json → Json → Json
json_or none default = default
json_or (some json) default = json

abbrev pub with_server : Option String → EditorNode → EditorNode
with_server server_url node = record node {
  request_template = record node.request_template { server_url = server_url };
}

abbrev pub as_test : EditorNode → EditorNode
as_test node = record node { phase = test }

unfoldable pub normalized_nodes : WorkflowDto → List EditorNode
normalized_nodes workflow =
    if eqb workflow.schema_version 1 then map as_test workflow.nodes else workflow.nodes

abbrev pub is_empty : List EditorNode → Bool
is_empty [] = true
is_empty (node ∷ nodes) = false

-- `applyDefault`
abbrev pub apply_default : List EditorNode → Option String → Bool
apply_default nodes default_server_url =
    not (any (λ node. truthy node.request_template.server_url) nodes)
    && (truthy default_server_url && not (is_empty nodes))

-- `loadWorkflow`
unfoldable pub load : EditorState → WorkflowDto → Option String → EditorState
unfolding normalized_nodes
load state workflow default_server_url =
    let nodes = normalized_nodes workflow in
    let applies = apply_default nodes default_server_url in
    record state {
      workflow_id = some workflow.id;
      name = workflow.name;
      description = workflow.description;
      metadata = record {
        tags = workflow.tags;
        priority = workflow.priority;
        test_type = workflow.test_type;
      };
      revision = workflow.revision;
      definition = record {
        test_data = json_or workflow.test_data no_data;
        nodes = if applies then map (with_server default_server_url) nodes else nodes;
        edges = workflow.edges;
        viewport = workflow.viewport;
      };
      default_server_url = or_else default_server_url state.default_server_url;
      dirty = applies;
      saving = false;
      save_error = none;
      has_save_conflict = false;
      conflict_revision = none;
      selected_node_id = none;
      selected_edge_id = none;
      run_status = none;
      current_run_id = none;
      running = false;
      last_saved_at = none;
    }

-- `updateNodes`
abbrev pub update_nodes : EditorState → List EditorNode → EditorState
update_nodes state nodes = record state {
  definition = record state.definition { nodes = nodes };
  dirty = true;
}

abbrev pub update_edges : EditorState → List EditorEdge → EditorState
update_edges state edges = record state {
  definition = record state.definition { edges = edges };
  dirty = true;
}

-- The node with this id is changed.
abbrev pub at_node : String → (EditorNode → EditorNode) → EditorNode → EditorNode
at_node node_id change node = if node.id == node_id then change node else node

abbrev pub with_template : String → RequestTemplate → EditorNode → EditorNode
with_template node_id template node =
    if node.id == node_id
    then record node { request_template = template }
    else with_server template.server_url node

abbrev pub server_of : Option EditorNode → Option String
server_of none = none
server_of (some node) = node.request_template.server_url

abbrev pub phase_or_test : Option NodePhase → NodePhase
phase_or_test none = test
phase_or_test (some phase) = phase

abbrev pub added_node : EditorState → NewNode → EditorNode
added_node state new =
    let server_url =
      server_of (find? (λ node. truthy node.request_template.server_url) state.definition.nodes) in
    record {
      id = new.id;
      phase = phase_or_test new.phase;
      request_template = record new.request_template {
        server_url =
            or_else server_url (or_else state.default_server_url new.request_template.server_url);
      };
      exports = new.exports;
      assertions = new.assertions;
      endpoint = new.endpoint;
    }

-- `selected === id ? null : selected`
abbrev pub cleared : Option String → String → Option String
cleared none id = none
cleared (some selected) id = if selected == id then none else some selected

abbrev pub touches : String → EditorEdge → Bool
touches node_id edge = edge.source == node_id || edge.target == node_id

-- `workflowEditorReducer`; `now` is `new Date().toLocaleTimeString()`.
unfoldable pub workflow_editor_reducer : String → EditorState → EditorAction → EditorState
unfolding load
workflow_editor_reducer now state (load_workflow workflow default_server_url) =
    load state workflow default_server_url
workflow_editor_reducer now state (update_settings settings) = record state {
  name = settings.name;
  description = settings.description;
  metadata = settings.metadata;
  definition = record state.definition { test_data = settings.test_data };
  dirty = true;
}
workflow_editor_reducer now state (set_nodes nodes) = update_nodes state nodes
workflow_editor_reducer now state (set_edges edges) = update_edges state edges
workflow_editor_reducer now state (select_node node_id) = record state {
  selected_node_id = some node_id;
  selected_edge_id = none;
}
workflow_editor_reducer now state (select_edge edge_id) = record state {
  selected_edge_id = some edge_id;
  selected_node_id = none;
}
workflow_editor_reducer now state deselect = record state {
  selected_node_id = none;
  selected_edge_id = none;
}
workflow_editor_reducer now state (update_node_template node_id template) =
    update_nodes state (map (with_template node_id template) state.definition.nodes)
workflow_editor_reducer now state (update_node_exports node_id exports) =
    update_nodes state
      (map (at_node node_id (λ node. record node { exports = exports })) state.definition.nodes)
workflow_editor_reducer now state (update_node_assertions node_id assertions) =
    update_nodes state (
      map (at_node node_id (λ node. record node { assertions = assertions }))
        state.definition.nodes)
workflow_editor_reducer now state (add_node new) =
    update_nodes state (state.definition.nodes ++ added_node state new ∷ [])
workflow_editor_reducer now state (remove_node node_id) = record state {
  definition = record state.definition {
    nodes = filter (λ node. not (node.id == node_id)) state.definition.nodes;
    edges = filter (λ edge. not (touches node_id edge)) state.definition.edges;
  };
  dirty = true;
  selected_node_id = cleared state.selected_node_id node_id;
}
workflow_editor_reducer now state (add_edge edge) =
    update_edges state (state.definition.edges ++ edge ∷ [])
workflow_editor_reducer now state (remove_edge edge_id) = record state {
  definition = record state.definition {
    edges = filter (λ edge. not (edge.id == edge_id)) state.definition.edges;
  };
  selected_edge_id = cleared state.selected_edge_id edge_id;
  dirty = true;
}
workflow_editor_reducer now state save_start = record state {
  saving = true;
  save_error = none;
  has_save_conflict = false;
  conflict_revision = none;
}
workflow_editor_reducer now state (save_success workflow) =
    record (load state workflow state.default_server_url) { last_saved_at = some now }
workflow_editor_reducer now state (save_failure error) = record state {
  saving = false;
  save_error = some error;
}
workflow_editor_reducer now state (save_conflict current_revision) = record state {
  saving = false;
  save_error = none;
  has_save_conflict = true;
  conflict_revision = current_revision;
}
workflow_editor_reducer now state (run_start run_id) = record state {
  running = true;
  current_run_id = some run_id;
  run_status = none;
}
workflow_editor_reducer now state (run_update run_status) = record state {
  run_status = some run_status;
}
workflow_editor_reducer now state run_finish = record state { running = false }
