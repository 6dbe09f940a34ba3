-- ===== src/Workflow/Step/Classify.antt =====
-- What a step catches: the codes and messages of test-workflow-template.ts, and
-- runner/test-workflow-error-classifier.ts for steps.
use bumd.Prelude.{String, none, some, concat}
use bumd.Workflow.Step.Template.{
  TemplateError, env_var_missing, test_data_missing, var_ref_invalid, cannot_embed,
}
use bumd.Workflow.Step.Exports.{ExportError, export_message}
use bumd.TryItOut.Types.{TryItOutErrorCode, target_forbidden, timeout, Failure, try_it_out, other}

-- What the body of `try` throws.
pub data StepError : Type 0 where
  template : TemplateError → StepError
  export_failed : ExportError → StepError
  request : Failure → StepError

pub record ClassifiedWorkflowError : Type 0 where
  pub code : String
  pub message : String

abbrev pub classified : String → String → ClassifiedWorkflowError
classified code message = record { code = code; message = message }

-- The codes and messages of the template errors.
abbrev pub template_error : TemplateError → ClassifiedWorkflowError
template_error (env_var_missing key) =
    classified "ENV_VAR_MISSING"
      (concat "Environment variable \"{{env." (concat key "}}\" is not defined"))
template_error (test_data_missing key) =
    classified "TEST_DATA_MISSING"
      (concat "Test data \"{{data." (concat key "}}\" is not defined in the workflow context"))
template_error (var_ref_invalid key) =
    classified "VAR_REF_INVALID"
      (concat "Variable \"{{vars." (concat key "}}\" is not available at this step"))
template_error (cannot_embed text) =
    classified "VAR_REF_INVALID"
      (concat "Cannot embed object/array value inside a string template (\"" (concat text "\")"))

abbrev pub request_error_code : TryItOutErrorCode → String
request_error_code target_forbidden = "REQUEST_BLOCKED"
request_error_code timeout = "REQUEST_TIMEOUT"
request_error_code _ = "REQUEST_FAILED"

unfoldable pub classify_step_error : StepError → ClassifiedWorkflowError
classify_step_error (template e) = template_error e
classify_step_error (export_failed e) = classified "EXPORT_FAILED" (export_message e)
classify_step_error (request (try_it_out e)) = classified (request_error_code e.code) e.message
classify_step_error (request (other none)) = classified "REQUEST_FAILED" "Unknown request error"
classify_step_error (request (other (some message))) = classified "REQUEST_FAILED" message
