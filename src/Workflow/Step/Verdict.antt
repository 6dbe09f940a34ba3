-- ===== src/Workflow/Step/Verdict.antt =====
-- When a step succeeds, and with which variables (runner/test-workflow-step-executor.ts).
use bumd.Prelude.{ℕ, ◌-◌, ◌≡◌, Dict, Except, returned}
use bumd.Json.{Json}
use bumd.Workflow.Types.{WorkflowNode}
use bumd.Workflow.Runner.Actions.{PersistedStepResult, StepResult, succeeded}
use bumd.Workflow.Step.Texts.{Texts}
use bumd.Workflow.Step.Assertions.{ResolvedResponse}
use bumd.Workflow.Step.Request.{StepContext, Prepared, prepare}
use bumd.Workflow.Step.Executor.{resolved_response}
use bumd.TryItOut.Types.{Failure, TryItOutResponse}
use bumd.Workflow.Step.Checks.{Extracts, Passes}

-- The template resolves, the request is answered, every export finds its value, and every assertion
-- passes.
pub record Fine (texts : Texts) {W : Type 0} (now : W → ℕ)
    (send : Json → W → Except Failure TryItOutResponse × W) (node : WorkflowNode)
    (context : StepContext) (world : W) : Type 0 where
  pub request : Prepared
  pub resolves : prepare texts node context ≡ returned request
  pub response : TryItOutResponse
  pub answered : (send request.sent world).0 ≡ returned response
  pub observed : ResolvedResponse
  pub observation :
      observed ≡ resolved_response texts response (now (send request.sent world).1 - now world)
  pub extracts : Extracts texts node.exports observed
  pub passes : Passes texts node.assertions observed

abbrev pub IsSuccess : StepResult → Type 0
IsSuccess result =
    (r : PersistedStepResult) × (exports : Dict Json) × (result ≡ succeeded r exports)
