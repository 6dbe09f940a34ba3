-- ===== src/Workflow/Step/Stored.antt =====
-- What a step stores contains none of the environment's secrets
-- (runner/test-workflow-step-executor.ts).
use bumd.Prelude.{
  ℕ, String, Bool, true, false, Option, none, some, List, [], ◌∷◌, ◌≡◌, refl, if◌then◌else◌, Except,
  returned, thrown, ◌>>=◌, Dict, inl, inr, ◌⊎◌, leb, sym,
}
use bumd.Json.{Json, null, bool, num, str, arr, obj, from_dict}
use bumd.Workflow.Step.Texts.{Texts}
use bumd.Workflow.Types.{WorkflowNode}
use bumd.Workflow.Runner.Actions.{PersistedStepResult, stored}
use bumd.Workflow.Step.Template.{TemplateError, CollectedRef}
use bumd.Workflow.Step.Assertions.{ResolvedResponse, AssertionResult}
use bumd.Workflow.Step.Exports.{ExportError, extract_exports}
use bumd.Workflow.Step.Classify.{StepError, template, export_failed, request, classify_step_error}
use bumd.Workflow.Step.Request.{
  StepContext, text_fields, Prepared, prepared, prepare, request_snapshot,
}
use bumd.Workflow.Step.Executor.{
  assertion_failed, response_json, persisted, verdict, check_response, caught_step, checked,
  after_request, after_prepare, execute_workflow_step,
}
use bumd.TryItOut.Types.{Failure, TryItOutResponse}
use bumd.Workflow.Step.Redaction.{
  redact_sensitive_headers, truncation, truncate_body, max_body_bytes, redact_secret_values,
}
use bumd.Workflow.Step.Hidden.{
  Removable, Free, Hidden, redact_text-Free, redact_secret_values-Hidden,
}

-- The body of the response was too long, and its preview is kept; the headers contain no secret.
abbrev pub Previewed : Texts → List String → Json → Type 0
Previewed texts secrets v =
    (status : Json) × (headers : Json) × (text : String) × (v
      ≡ obj (
          from_dict
            (("status", status) ∷ ("headers", headers) ∷ ("body", truncation texts text) ∷ [])))
    × Hidden texts secrets headers

-- The message names an assertion, or contains no secret.
abbrev pub MessageHidden : Texts → List String → Option String → Type 0
MessageHidden texts secrets none = Unit {0}
MessageHidden texts secrets (some message) =
    ((id : String) × (message ≡ assertion_failed id)) ⊎ Free texts secrets message

pub record StoresNoSecret (texts : Texts) (secrets : List String) (r : PersistedStepResult)
    : Type 0 where
  pub request : Hidden texts secrets r.request_json
  pub response : Hidden texts secrets r.response_json ⊎ Previewed texts secrets r.response_json
  pub assertions : Hidden texts secrets r.assertions_json
  pub exports : Hidden texts secrets r.exports_json
  pub inputs : Hidden texts secrets r.inputs_json
  pub message : MessageHidden texts secrets r.error_message

module _ (texts : Texts) (secrets : List String) (laws : Removable texts secrets) where
  kept_or_cut :
      (b : Bool) (v : Json) (text : String)
      → ((if b then some v else some (truncation texts text)) ≡ some v)
        ⊎ ((t : String) × ((if b then some v else some (truncation texts text))
              ≡ some (truncation texts t)))
  kept_or_cut true v text = inl refl
  kept_or_cut false v text = inr (text, refl)

  truncate_body-cases :
      (v : Json)
      → (truncate_body texts (some v) ≡ some v)
        ⊎ ((text : String) × (truncate_body texts (some v) ≡ some (truncation texts text)))
  unfolding truncate_body
  truncate_body-cases null = inl refl
  truncate_body-cases (bool b) =
      kept_or_cut (leb (texts.byte_length (texts.stringify (bool b))) max_body_bytes) (bool b) _
  truncate_body-cases (num n) =
      kept_or_cut (leb (texts.byte_length (texts.stringify (num n))) max_body_bytes) (num n) _
  truncate_body-cases (str s) = kept_or_cut (leb (texts.byte_length s) max_body_bytes) (str s) s
  truncate_body-cases (arr vs) =
      kept_or_cut (leb (texts.byte_length (texts.stringify (arr vs))) max_body_bytes) (arr vs) _
  truncate_body-cases (obj fs) =
      kept_or_cut (leb (texts.byte_length (texts.stringify (obj fs))) max_body_bytes) (obj fs) _

  response_json-Hidden :
      (response : ResolvedResponse)
      → Hidden texts secrets (response_json texts response secrets)
        ⊎ Previewed texts secrets (response_json texts response secrets)
  unfolding response_json
  response_json-Hidden response =
      elim (truncate_body-cases (redact_secret_values texts secrets response.body)) [
        | inl same ↦ inl (
            simp same (
              tt,
              (
                redact_secret_values-Hidden texts secrets laws _,
                (redact_secret_values-Hidden texts secrets laws response.body, tt),
              ),
            ))
        | inr (text, long) ↦ inr (
          num (texts.number response.status),
          redact_secret_values texts secrets
              (obj (text_fields (redact_sensitive_headers texts response.headers))),
          text,
          simp long refl,
          redact_secret_values-Hidden texts secrets laws _,
        )
      ]

  persisted-StoresNoSecret :
      (p : Prepared) (response : ResolvedResponse) (results : List AssertionResult)
      (exports : Dict Json) (code message : Option String)
      → Hidden texts secrets p.snapshot
      → MessageHidden texts secrets message
      → StoresNoSecret texts secrets
          (persisted texts p secrets response results exports code message)
  persisted-StoresNoSecret p response results exports code message h k = record {
    request = h;
    response = response_json-Hidden response;
    assertions = redact_secret_values-Hidden texts secrets laws _;
    exports = redact_secret_values-Hidden texts secrets laws _;
    inputs = redact_secret_values-Hidden texts secrets laws _;
    message = k;
  }

  verdict-StoresNoSecret :
      (p : Prepared) (response : ResolvedResponse) (results : List AssertionResult)
      (exports : Dict Json) (o : Option AssertionResult)
      → Hidden texts secrets p.snapshot
      → StoresNoSecret texts secrets (stored (verdict texts p secrets response results exports o))
  verdict-StoresNoSecret p response results exports none h =
      persisted-StoresNoSecret p response results exports none none h tt
  verdict-StoresNoSecret p response results exports (some failing) h =
      persisted-StoresNoSecret p response results exports _ _ h (inl (failing.id, refl))

  caught_step-StoresNoSecret :
      (e : StepError) (duration : ℕ)
      → StoresNoSecret texts secrets (stored (caught_step texts e secrets duration))
  unfolding caught_step
  caught_step-StoresNoSecret e duration = record {
    request = tt;
    response = inl tt;
    assertions = tt;
    exports = tt;
    inputs = tt;
    message = inr (redact_text-Free texts secrets laws (classify_step_error e).message);
  }

  checked-StoresNoSecret :
      (node : WorkflowNode) (p : Prepared) (response : ResolvedResponse)
      (m : Except ExportError (Dict Json)) (duration : ℕ)
      → Hidden texts secrets p.snapshot
      → m ≡ extract_exports texts node.exports response
      → StoresNoSecret texts secrets
          (stored (checked texts (check_response texts node p secrets response) secrets duration))
  unfolding check_response
  checked-StoresNoSecret node p response (returned exports) duration h e =
      rw (sym e) (verdict-StoresNoSecret p response _ exports _ h)
  checked-StoresNoSecret node p response (thrown x) duration h e =
      rw (sym e) (caught_step-StoresNoSecret (export_failed x) duration)

  request_snapshot-Hidden :
      (node : WorkflowNode) (t : Dict Json)
      → Hidden texts secrets (request_snapshot texts node t secrets)
  unfolding request_snapshot
  request_snapshot-Hidden node t = redact_secret_values-Hidden texts secrets laws _

module _ (texts : Texts) {W : Type 0} (now : W → ℕ)
    (send : Json → W → Except Failure TryItOutResponse × W) where
  after_request-StoresNoSecret :
      (node : WorkflowNode) (context : StepContext) (started : ℕ) (p : Prepared)
      (m : Except Failure TryItOutResponse × W)
      → Removable texts context.secret_values
      → Hidden texts context.secret_values p.snapshot
      → StoresNoSecret texts context.secret_values
          (stored (after_request texts now node context started p m).0)
  after_request-StoresNoSecret node context started p (thrown e, world) laws h =
      caught_step-StoresNoSecret texts context.secret_values laws (request e) _
  after_request-StoresNoSecret node context started p (returned response, world) laws h =
      checked-StoresNoSecret texts context.secret_values laws node p _ _ _ h refl

  after_prepare-StoresNoSecret :
      (node : WorkflowNode) (context : StepContext) (world : W)
      (m : Except TemplateError (Json × List CollectedRef))
      → Removable texts context.secret_values
      → StoresNoSecret texts context.secret_values (
          stored
            (after_prepare texts now send node context world
              (m >>= λ resolved. returned (prepared texts node context resolved))).0)
  after_prepare-StoresNoSecret node context world (thrown e) laws =
      caught_step-StoresNoSecret texts context.secret_values laws (template e) _
  after_prepare-StoresNoSecret node context world (returned resolved) laws =
      after_request-StoresNoSecret node context (now world) (prepared texts node context resolved)
        (send (prepared texts node context resolved).sent world) laws
        (request_snapshot-Hidden texts context.secret_values laws node _)

  -- If replacing a secret value of the environment removes it and brings no other back, then no text
  -- value that a step stores contains such a value: none in the request, the assertions, the exports,
  -- the inputs, the response and what was caught. The preview of a response body that is too long and
  -- the name of an assertion that failed are excepted, and nothing is said of the keys of objects and
  -- of numbers, which are stored as they are.
  pub execute_workflow_step-StoresNoSecret :
      (node : WorkflowNode) (context : StepContext) (world : W)
      → Removable texts context.secret_values
      → StoresNoSecret texts context.secret_values
          (stored (execute_workflow_step texts now send node context world).0)
  unfolding execute_workflow_step prepare
  execute_workflow_step-StoresNoSecret node context world laws =
      after_prepare-StoresNoSecret node context world _ laws
