-- ===== src/Workflow/Step/Executor.antt =====
-- runner/test-workflow-step-executor.ts from the response on: one step, to the result that is stored.
use bumd.Prelude.{
  ℕ, ◌-◌, String, Bool, not, Option, none, some, List, [], ◌∷◌, map, Dict, Except, returned, thrown,
  ◌>>=◌, find?, concat,
}
use bumd.Json.{Json, null, num, str, arr, obj, from_dict}
use bumd.Workflow.Types.{WorkflowNode}
use bumd.Workflow.Runner.Actions.{PersistedStepResult, StepResult, succeeded, failed}
use bumd.Workflow.Step.Texts.{Texts}
use bumd.Workflow.Step.Template.{TemplateError}
use bumd.Workflow.Step.Assertions.{
  ResolvedResponse, AssertionResult, evaluate_assertions, optional_entry, assertion_json,
  json_items,
}
use bumd.Workflow.Step.Exports.{ExportError, extract_exports}
use bumd.Workflow.Step.Redaction.{
  redact_sensitive_headers, redact_secret_values, redact_text, truncate_body,
}
use bumd.TryItOut.Types.{Failure, TryItOutResponse}
use bumd.Workflow.Step.Classify.{StepError, template, export_failed, request, classify_step_error}
use bumd.Workflow.Step.Request.{StepContext, text_fields, input_json, Prepared, prepare}

abbrev pub is_failing : AssertionResult → Bool
is_failing result = not result.passed

abbrev pub assertion_failed : String → String
assertion_failed id = concat "Assertion \"" (concat id "\" failed")

module _ (texts : Texts) where
  abbrev pub parsed_or_text : String → Option Json → Json
  parsed_or_text body none = str body
  parsed_or_text body (some value) = value

  -- `parseResponseBody`; the HTTP client returns a text.
  abbrev pub parse_response_body : String → Json
  parse_response_body body = parsed_or_text body (texts.parse body)

  abbrev pub resolved_response : TryItOutResponse → ℕ → ResolvedResponse
  resolved_response response duration = record {
    status = response.status;
    headers = response.headers;
    body = parse_response_body response.body;
    duration_ms = duration;
  }

  abbrev pub optional_body : Option Json → Dict Json
  optional_body body = optional_entry "body" body []

  unfoldable pub response_json : ResolvedResponse → List String → Json
  response_json response secrets = obj (
      from_dict (
        ("status", num (texts.number response.status))
        ∷ (
          "headers",
          redact_secret_values texts secrets
              (obj (text_fields (redact_sensitive_headers texts response.headers))),
        )
        ∷ optional_body
            (truncate_body texts (some (redact_secret_values texts secrets response.body)))))

  -- `persisted`, with the code and the message that go with it.
  abbrev pub persisted :
      Prepared
      → List String
      → ResolvedResponse
      → List AssertionResult
      → Dict Json
      → Option String
      → Option String
      → PersistedStepResult
  persisted p secrets response assertions exports code message = record {
    request_json = p.snapshot;
    response_json = response_json response secrets;
    assertions_json =
        redact_secret_values texts secrets (arr (json_items (map assertion_json assertions)));
    exports_json = redact_secret_values texts secrets (obj (from_dict exports));
    inputs_json = redact_secret_values texts secrets (arr (json_items (map input_json p.inputs)));
    duration_ms = response.duration_ms;
    error_code = code;
    error_message = message;
  }

  -- The result, by the first assertion that does not pass.
  abbrev pub verdict :
      Prepared
      → List String
      → ResolvedResponse
      → List AssertionResult
      → Dict Json
      → Option AssertionResult
      → StepResult
  verdict p secrets response assertions exports none =
      succeeded (persisted p secrets response assertions exports none none) exports
  verdict p secrets response assertions exports (some failing) = failed (
      persisted p secrets response assertions exports (some "ASSERTION_FAILED")
        (some (assertion_failed failing.id)))

  -- The exports are read before the assertions are looked at.
  unfoldable pub check_response :
      WorkflowNode → Prepared → List String → ResolvedResponse → Except ExportError StepResult
  unfolding evaluate_assertions extract_exports
  check_response node p secrets response =
      extract_exports texts node.exports response >>= λ exports.
      let assertions = evaluate_assertions texts node.assertions response in
      returned (verdict p secrets response assertions exports (find? is_failing assertions))

  -- The body of `catch`.
  unfoldable pub caught_step : StepError → List String → ℕ → StepResult
  unfolding classify_step_error redact_text
  caught_step e secrets duration =
      let error = classify_step_error e in
      failed (record {
        request_json = null;
        response_json = null;
        assertions_json = null;
        exports_json = null;
        inputs_json = null;
        duration_ms = duration;
        error_code = some error.code;
        error_message = some (redact_text texts secrets error.message);
      })

  abbrev pub checked : Except ExportError StepResult → List String → ℕ → StepResult
  checked (returned result) secrets duration = result
  checked (thrown e) secrets duration = caught_step (export_failed e) secrets duration

  module _ {W : Type 0} (now : W → ℕ) where
    -- After the request; the clock does not go back.
    abbrev pub after_request :
        WorkflowNode
        → StepContext
        → ℕ
        → Prepared
        → Except Failure TryItOutResponse × W
        → StepResult × W
    after_request node context started p (thrown e, world) =
        (caught_step (request e) context.secret_values (now world - started), world)
    after_request node context started p (returned response, world) =
        let duration = now world - started in
        (
          checked
              (check_response node p context.secret_values (resolved_response response duration))
              context.secret_values duration,
          world,
        )

    abbrev pub after_prepare :
        (Json → W → Except Failure TryItOutResponse × W)
        → WorkflowNode
        → StepContext
        → W
        → Except TemplateError Prepared
        → StepResult × W
    after_prepare send node context world (thrown e) =
        (caught_step (template e) context.secret_values 0, world)
    after_prepare send node context world (returned p) =
        after_request node context (now world) p (send p.sent world)

    -- `executeWorkflowStep`; `send` is `tryItOut.execute` for the run's route.
    unfoldable pub execute_workflow_step :
        (Json → W → Except Failure TryItOutResponse × W)
        → WorkflowNode
        → StepContext
        → W
        → StepResult × W
    unfolding prepare check_response caught_step
    execute_workflow_step send node context world =
        after_prepare send node context world (prepare texts node context)
