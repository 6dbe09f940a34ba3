-- ===== src/Workflow/Step/Request.antt =====
-- runner/test-workflow-step-executor.ts up to the request: what is sent, and what is stored of it.
use bumd.Prelude.{
  String, Option, none, some, List, [], ◌∷◌, map, Dict, lookup, Except, returned, ◌>>=◌, concat,
}
use bumd.Json.{Json, Fields, null, num, str, arr, obj, end, entries, from_dict}
use bumd.Workflow.Types.{WorkflowNode}
use bumd.Workflow.Step.Texts.{Texts}
use bumd.Workflow.Step.Template.{
  InterpolationContext, CollectedRef, CollectedInput, env_input, data_input, var_input,
  TemplateError, collected_refs_to_inputs, interpolate,
}
use bumd.Workflow.Step.Assertions.{optional_entry}
use bumd.Workflow.Step.Redaction.{redact_sensitive_headers, redact_secret_values, truncate_body}

-- `input.context`
pub record StepContext : Type 0 where
  pub vars : Dict Json
  pub env : Dict String
  pub data_values : Dict Json
  pub secret_keys : List String
  pub secret_values : List String

-- `value ?? default`
abbrev pub or_default : Json → Option Json → Json
or_default value none = value
or_default value (some null) = value
or_default value (some given) = given

-- `requestTemplate`
abbrev pub request_template : Json → Dict Json
request_template (obj fs) = entries fs
request_template _ = []

-- The entries of `pathParams`, `query` or `headers`. The schema of the definition lets only records
-- through, and interpolation keeps them.
abbrev pub record_entries : Option Json → Dict Json
record_entries (some (obj fs)) = entries fs
record_entries _ = []

abbrev pub text_fields : Dict String → Fields
text_fields [] = end
text_fields ((key, value) ∷ rest) = bumd.Json.field key (str value) (text_fields rest)

abbrev pub optional_value : Option String → Option Json
optional_value none = none
optional_value (some value) = some (str value)

-- An input as the JSON that is stored.
abbrev pub input_json : CollectedInput → Json
input_json (env_input key value) = obj (
    from_dict
      (("type", str "env") ∷ ("key", str key) ∷ optional_entry "value" (optional_value value) []))
input_json (data_input key value) =
    obj (from_dict (("type", str "data") ∷ ("key", str key) ∷ ("value", value) ∷ []))
input_json (var_input name value) =
    obj (from_dict (("type", str "var") ∷ ("name", str name) ∷ ("value", value) ∷ []))

-- What is known once the request is built: what is sent, what is stored of it, and the inputs.
pub record Prepared : Type 0 where
  pub sent : Json
  pub snapshot : Json
  pub inputs : List CollectedInput

module _ (texts : Texts) where
  -- `stringRecord`
  abbrev pub string_record : Dict Json → Dict String
  string_record values = map (λ entry. (entry.0, texts.to_text entry.1)) values

  -- The loop over the path parameters.
  unfoldable pub fill_path : String → Dict Json → String
  fill_path path [] = path
  fill_path path ((key, value) ∷ params) =
      fill_path (texts.replace path (concat "{" (concat key "}")) (texts.to_text value)) params

  abbrev pub resolved_path : WorkflowNode → Dict Json → String
  resolved_path node t = fill_path node.path (record_entries (lookup "pathParams" t))

  unfoldable pub request_snapshot : WorkflowNode → Dict Json → List String → Json
  request_snapshot node t secrets = redact_secret_values texts secrets (
      obj (
        from_dict (
          ("method", str node.method)
          ∷ ("serverUrl", or_default (str "") (lookup "serverUrl" t))
          ∷ ("path", str (resolved_path node t))
          ∷ ("query", or_default (obj end) (lookup "query" t))
          ∷ (
            "headers",
            obj (
                text_fields (
                  redact_sensitive_headers texts
                    (string_record (record_entries (lookup "headers" t))))),
          )
          ∷ optional_entry "body" (truncate_body texts (lookup "body" t)) [])))

  -- The body of the call of `tryItOut.execute`.
  unfoldable pub request_body : WorkflowNode → Dict Json → Json
  request_body node t = obj (
      from_dict (
        ("serverUrl", or_default (str "") (lookup "serverUrl" t))
        ∷ ("method", str (texts.to_upper_case node.method))
        ∷ ("path", str (resolved_path node t))
        ∷ ("query", obj (text_fields (string_record (record_entries (lookup "query" t)))))
        ∷ ("headers", obj (text_fields (string_record (record_entries (lookup "headers" t)))))
        ∷ optional_entry "body" (lookup "body" t) []))

  abbrev pub interpolation_context : StepContext → InterpolationContext
  interpolation_context context = record {
    vars = context.vars;
    env = context.env;
    data_values = context.data_values;
    secret_keys = context.secret_keys;
  }

  abbrev pub prepared : WorkflowNode → StepContext → Json × List CollectedRef → Prepared
  prepared node context resolved = record {
    sent = request_body node (request_template resolved.0);
    snapshot = request_snapshot node (request_template resolved.0) context.secret_values;
    inputs = collected_refs_to_inputs resolved.1 context.env;
  }

  -- Up to the call of `tryItOut.execute`.
  unfoldable pub prepare : WorkflowNode → StepContext → Except TemplateError Prepared
  unfolding interpolate
  prepare node context =
      interpolate texts (interpolation_context context) node.request_template >>= λ resolved.
      returned (prepared node context resolved)
