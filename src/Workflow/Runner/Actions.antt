-- ===== src/Workflow/Runner/Actions.antt =====
-- The state of one run while the runner works on it, and actions that may throw
-- (runner/test-workflow-runner.service.ts).
use bumd.Prelude.{
  ℕ, String, Bool, Option, List, Dict, Except, returned, thrown, ◌≡◌, refl, true, false,
  if◌then◌else◌,
}
use bumd.Json.{Json}
use bumd.Workflow.Types.{StepStatus, NodePhase, WorkflowNode}
use bumd.Workflow.Graph.Errors.{GraphError}
use bumd.Workflow.Definition.{DefinitionError}

-- What a step writes to its row.
pub record PersistedStepResult : Type 0 where
  pub request_json : Json
  pub response_json : Json
  pub assertions_json : Json
  pub exports_json : Json
  pub inputs_json : Json
  pub duration_ms : ℕ
  pub error_code : Option String
  pub error_message : Option String

pub data StepResult : Type 0 where
  succeeded : PersistedStepResult → Dict Json → StepResult
  failed : PersistedStepResult → StepResult

-- What is persisted of a step.
abbrev pub stored : StepResult → PersistedStepResult
stored (succeeded r exports) = r
stored (failed r) = r

-- A row of "TestWorkflowStepRun".
pub record StepRow : Type 0 where
  pub status : StepStatus
  pub phase : NodePhase
  pub started : Bool
  pub finished : Bool
  pub result : Option PersistedStepResult

-- What the runner calls: the execution of a step from the variables so far, which changes the outside
-- world, and whether the run's row asks for cancellation at the n-th read.
pub record Services (W : Type 0) : Type 0 where
  pub execute_step : WorkflowNode → Dict Json → W → StepResult × W
  pub cancel_at : ℕ → Bool

pub record RunState (W : Type 0) : Type 0 where
  pub rows : Dict StepRow
  pub failed_nodes : List String
  pub vars : Dict Json
  pub polls : ℕ
  pub world : W

pub data RunError : Type 0 where
  missing_step : String → RunError  -- Step … not found for run …
  graph : GraphError → RunError
  invalid_snapshot : RunError  -- the zod schema rejects the stored definition
  definition : DefinitionError → RunError
  workflow_error : String → RunError  -- a TestWorkflowError with this code
  other_error : RunError  -- anything else that the environment service throws

abbrev pub M : Type 0 → Type 0 → Type 0
M W A = RunState W → Except RunError A × RunState W

-- What follows an action, by its result.
abbrev pub continue :
    {W A B : Type 0} → Except RunError A × RunState W → (A → M W B) → Except RunError B × RunState W
continue (returned a, s) f = f a s
continue (thrown e, s) f = (thrown e, s)

infixl 5 ◌>>=◌ ◌>>◌
abbrev pub ◌>>=◌ : {W A B : Type 0} → M W A → (A → M W B) → M W B
◌>>=◌ m f s = continue (m s) f

abbrev pub ◌>>◌ : {W B : Type 0} → M W (Unit {0}) → M W B → M W B
◌>>◌ m k s = continue (m s) (λ _. k)

abbrev pub pure : {W A : Type 0} → A → M W A
pure a s = (returned a, s)

abbrev pub raise : {W A : Type 0} → RunError → M W A
raise e s = (thrown e, s)

pub continue-returned :
    {W A B : Type 0} (m : Except RunError A × RunState W) (k : A → M W B) {a : A}
    → m.0 ≡ returned a
    → continue m k ≡ k a m.1
continue-returned (returned b, s) k h = cc
continue-returned (thrown e, s) k h = cc

-- To prove something of an action that branches on a test.
pub branch {ℓ} :
    {W A : Type 0} (P : Except RunError A × RunState W → Type ℓ) (b : Bool) (x y : M W A)
    (s : RunState W)
    → (b ≡ true → P (x s))
    → (b ≡ false → P (y s))
    → P ((if b then x else y) s)
branch P true x y s f g = f refl
branch P false x y s f g = g refl
