-- ===== src/Workflow/Types.antt =====
-- test-workflow-types.ts: statuses, phases and the definition of a workflow. What only the canvas
-- reads (node positions and the viewport) is left out.
use bumd.Prelude.{ℕ, String, Bool, true, false, Option, List, Dict}
use bumd.Json.{Json}

pub data RunStatus : Type 0 where
  queued running succeeded failed canceled : RunStatus

pub data StepStatus : Type 0 where
  queued running succeeded failed skipped canceled : StepStatus

-- `TerminalRunStatuses.has(status)`
abbrev pub is_terminal_run : RunStatus → Bool
is_terminal_run RunStatus.succeeded = true
is_terminal_run RunStatus.failed = true
is_terminal_run RunStatus.canceled = true
is_terminal_run _ = false

-- `TerminalStepStatuses.has(status)`
abbrev pub is_terminal_step : StepStatus → Bool
is_terminal_step StepStatus.succeeded = true
is_terminal_step StepStatus.failed = true
is_terminal_step StepStatus.skipped = true
is_terminal_step StepStatus.canceled = true
is_terminal_step _ = false

pub data NodePhase : Type 0 where
  setup test teardown : NodePhase

pub data ExportSource : Type 0 where
  status header body : ExportSource

pub record WorkflowExport : Type 0 where
  pub name : String
  pub source : ExportSource
  pub path : Option String
  pub header_name : Option String

pub data StatusOperator : Type 0 where
  equals not_equals in_list : StatusOperator

pub data PathOperator : Type 0 where
  exists equals not_equals contains : PathOperator

pub data HeaderOperator : Type 0 where
  exists equals contains : HeaderOperator

-- `number | number[]`
pub data ExpectedStatus : Type 0 where
  one : ℕ → ExpectedStatus
  many : List ℕ → ExpectedStatus

-- Each with its id.
pub data WorkflowAssertion : Type 0 where
  status : String → StatusOperator → ExpectedStatus → WorkflowAssertion
  json_path : String → String → PathOperator → Option Json → WorkflowAssertion
  header : String → String → HeaderOperator → Option String → WorkflowAssertion
  response_time : String → ℕ → WorkflowAssertion

pub record WorkflowNode : Type 0 where
  pub id : String
  pub operation_id : String
  pub method : String
  pub path : String
  pub label : String
  pub phase : NodePhase
  pub request_template : Json
  pub exports : List WorkflowExport
  pub assertions : List WorkflowAssertion

pub record WorkflowEdge : Type 0 where
  pub id : String
  pub source : String
  pub target : String

pub record WorkflowDefinition : Type 0 where
  pub test_data : Dict Json
  pub nodes : List WorkflowNode
  pub edges : List WorkflowEdge
