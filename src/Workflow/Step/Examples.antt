-- ===== src/Workflow/Step/Examples.antt =====
-- A step that sends a token and reads a header of the response.
use bumd.Prelude.{ℕ, suc, none, some, [], ◌∷◌, ◌≡◌, refl, Dict, Except, returned}
use bumd.Json.{Json, str, obj, end, field}
use bumd.Workflow.Types.{ExportSource, StatusOperator, one, WorkflowAssertion, WorkflowNode, test}
use bumd.Workflow.Runner.Actions.{PersistedStepResult, succeeded, stored}
use bumd.Workflow.Step.Template.{
  InterpolationContext, var_ref, interpolate, interpolate_string, resolve_ref,
}
use bumd.Workflow.Step.Assertions.{evaluate_assertions}
use bumd.Workflow.Step.Exports.{extract_exports}
use bumd.Workflow.Step.Request.{StepContext, prepare}
use bumd.Workflow.Step.Executor.{check_response, execute_workflow_step}
use bumd.Workflow.Step.Whole.{whole, whole-Removable, secrets}
use bumd.Workflow.Step.Stored.{StoresNoSecret, execute_workflow_step-StoresNoSecret}
use bumd.Workflow.Step.Shape.{HasShape, interpolate-HasShape}
use bumd.TryItOut.Types.{Failure, TryItOutResponse}

abbrev read : WorkflowNode
read = record {
  id = "read";
  operation_id = "op";
  method = "GET";
  path = "/";
  label = "read";
  phase = test;
  request_template =
      obj (field "headers" (obj (field "authorization" (str "{{vars.token}}") end)) end);
  exports =
      record { name = "id"; source = ExportSource.header; path = none; header_name = some "x-id" }
      ∷ [];
  assertions = WorkflowAssertion.status "a1" StatusOperator.equals (one 200) ∷ [];
}

abbrev context_with : Dict Json → StepContext
context_with values = record {
  vars = values;
  env = [];
  data_values = [];
  secret_keys = [];
  secret_values = secrets;
}

abbrev token : Dict Json
token = ("token", str "s3cret") ∷ []

-- The world counts what was sent, and is its own clock.
abbrev answer : Json → ℕ → Except Failure TryItOutResponse × ℕ
answer body sent = (
  returned (record { status = 200; headers = ("x-id", "s3cret") ∷ []; body = "s3cret" }),
  suc sent,
)

abbrev clock : ℕ → ℕ
clock sent = sent

exports_id :
    (r : PersistedStepResult) × ((execute_workflow_step whole clock answer read
        (context_with token)
        0).0
      ≡ succeeded r (("id", str "s3cret") ∷ []))
unfolding execute_workflow_step prepare interpolate check_response extract_exports
    evaluate_assertions interpolate_string
exports_id = (_, refl)

execute_workflow_step-StoresNoSecret_example :
    StoresNoSecret whole secrets
      (stored (execute_workflow_step whole clock answer read (context_with token) 0).0)
execute_workflow_step-StoresNoSecret_example =
    execute_workflow_step-StoresNoSecret whole clock answer read (context_with token) 0
      whole-Removable

abbrev headers_of : Json → Json
headers_of value = obj (field "headers" (obj (field "authorization" value end)) end)

abbrev token_context : InterpolationContext
token_context = record { vars = token; env = []; data_values = []; secret_keys = [] }

interpolate-HasShape_example :
    HasShape whole token_context (headers_of (str "{{vars.token}}")) (headers_of (str "s3cret"))
unfolding interpolate interpolate_string resolve_ref
interpolate-HasShape_example =
    interpolate-HasShape whole token_context (headers_of (str "{{vars.token}}"))
      (headers_of (str "s3cret")) (var_ref "token" (str "s3cret") ∷ []) refl
