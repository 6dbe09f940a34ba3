-- ===== src/Editor/Types.antt =====
-- The state and the actions of workflow-editor-state.ts, and what they use of
-- apps/frontend/src/shared/api/test-workflow-types.ts.
use bumd.Prelude.{ℕ, String, Bool, Option, List}
use bumd.Json.{Json}
use bumd.Workflow.Types.{NodePhase}

-- `rest` holds the parameters, the query, the headers and the body.
pub record RequestTemplate : Type 0 where
  pub server_url : Option String
  pub rest : Json

-- `endpoint` holds the operation, its label and the position.
pub record EditorNode : Type 0 where
  pub id : String
  pub phase : NodePhase
  pub request_template : RequestTemplate
  pub exports : Json
  pub assertions : Json
  pub endpoint : Json

-- The node of ADD_NODE, whose phase may be missing.
pub record NewNode : Type 0 where
  pub id : String
  pub phase : Option NodePhase
  pub request_template : RequestTemplate
  pub exports : Json
  pub assertions : Json
  pub endpoint : Json

pub record EditorEdge : Type 0 where
  pub id : String
  pub source : String
  pub target : String

pub record Metadata : Type 0 where
  pub tags : List String
  pub priority : String
  pub test_type : String

-- `test_data` is the context; the schema version is 2.
pub record EditorDefinition : Type 0 where
  pub test_data : Json
  pub nodes : List EditorNode
  pub edges : List EditorEdge
  pub viewport : Option Json

-- A stored workflow with its definition; in version 1 the phases of the nodes say nothing.
pub record WorkflowDto : Type 0 where
  pub id : String
  pub name : String
  pub description : Option String
  pub tags : List String
  pub priority : String
  pub test_type : String
  pub revision : ℕ
  pub schema_version : ℕ
  pub test_data : Option Json
  pub nodes : List EditorNode
  pub edges : List EditorEdge
  pub viewport : Option Json

pub record Settings : Type 0 where
  pub name : String
  pub description : Option String
  pub metadata : Metadata
  pub test_data : Json

pub record EditorState : Type 0 where
  pub workflow_id : Option String
  pub name : String
  pub description : Option String
  pub metadata : Metadata
  pub revision : ℕ
  pub definition : EditorDefinition
  pub selected_node_id : Option String
  pub selected_edge_id : Option String
  pub dirty : Bool
  pub saving : Bool
  pub save_error : Option String
  pub has_save_conflict : Bool
  pub conflict_revision : Option ℕ
  pub running : Bool
  pub current_run_id : Option String
  pub run_status : Option Json
  pub last_saved_at : Option String
  pub default_server_url : Option String

pub data EditorAction : Type 0 where
  load_workflow : WorkflowDto → Option String → EditorAction
  update_settings : Settings → EditorAction
  set_nodes : List EditorNode → EditorAction
  set_edges : List EditorEdge → EditorAction
  select_node : String → EditorAction
  select_edge : String → EditorAction
  deselect : EditorAction
  update_node_template : String → RequestTemplate → EditorAction
  update_node_exports : String → Json → EditorAction
  update_node_assertions : String → Json → EditorAction
  add_node : NewNode → EditorAction
  remove_node : String → EditorAction
  add_edge : EditorEdge → EditorAction
  remove_edge : String → EditorAction
  save_start : EditorAction
  save_success : WorkflowDto → EditorAction
  save_failure : String → EditorAction
  save_conflict : Option ℕ → EditorAction
  run_start : String → EditorAction
  run_update : Json → EditorAction
  run_finish : EditorAction
