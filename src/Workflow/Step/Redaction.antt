-- ===== src/Workflow/Step/Redaction.antt =====
-- runner/test-workflow-redaction.ts: secrets and long bodies are kept out of what is stored.
use bumd.Prelude.{
  ℕ, String, true, not, ◌&&◌, Option, none, some, List, [], ◌∷◌, ◌==◌, if◌then◌else◌, leb, contains,
  Dict, insert,
}
use bumd.Json.{
  Json, Items, Fields, null, bool, num, str, arr, obj, nil, cons, end, field, from_dict, with_field,
}
use bumd.Workflow.Step.Texts.{Texts}

abbrev pub sensitive_headers : List String
sensitive_headers =
    "authorization" ∷ "cookie" ∷ "set-cookie" ∷ "x-api-key" ∷ "proxy-authorization" ∷ []

abbrev pub redacted_placeholder : String
redacted_placeholder = "[REDACTED]"

abbrev pub max_body_bytes : ℕ
max_body_bytes = 65536

-- A field of the result: without secrets, the value itself is the result.
abbrev pub redacted_field : List String → String → Json → Fields → Fields
redacted_field [] k v fs = field k v fs
redacted_field (secret ∷ secrets) k v fs = with_field k v fs

module _ (texts : Texts) where
  abbrev pub redact_header : String → String → String
  redact_header key value =
      if contains sensitive_headers (texts.to_lower_case key) then redacted_placeholder else value

  -- The loop of `redactSensitiveHeaders`; assigning a text to `__proto__` does nothing.
  unfoldable pub redact_headers_into : Dict String → Dict String → Dict String
  redact_headers_into result [] = result
  redact_headers_into result ((key, value) ∷ headers) =
      redact_headers_into
        (if key == "__proto__" then result else insert key (redact_header key value) result) headers

  unfoldable pub redact_sensitive_headers : Dict String → Dict String
  unfolding redact_headers_into
  redact_sensitive_headers headers = redact_headers_into [] headers

  abbrev pub redact_one : String → String → String
  redact_one secret text =
      if not (secret == "") && texts.includes text secret
      then texts.replace_all text secret redacted_placeholder
      else text

  -- The loop over the secrets.
  unfoldable pub redact_text : List String → String → String
  redact_text [] text = text
  redact_text (secret ∷ secrets) text = redact_text secrets (redact_one secret text)

  -- `redactSecretValues`; without secrets, nothing changes.
  unfoldable mutual
    pub redact_secret_values : List String → Json → Json
    redact_secret_values secrets (str value) = str (redact_text secrets value)
    redact_secret_values secrets (arr vs) = arr (redact_items secrets vs)
    redact_secret_values secrets (obj fs) = obj (redact_fields secrets fs)
    redact_secret_values secrets null = null
    redact_secret_values secrets (bool b) = bool b
    redact_secret_values secrets (num n) = num n

    pub redact_items : List String → Items → Items
    redact_items secrets nil = nil
    redact_items secrets (cons v vs) =
        cons (redact_secret_values secrets v) (redact_items secrets vs)

    pub redact_fields : List String → Fields → Fields
    redact_fields secrets end = end
    redact_fields secrets (field k v fs) =
        redacted_field secrets k (redact_secret_values secrets v) (redact_fields secrets fs)

  -- `typeof body === "string" ? body : JSON.stringify(body)`
  abbrev pub serialized : Json → String
  serialized (str s) = s
  serialized body = texts.stringify body

  abbrev pub truncation : String → Json
  truncation text = obj (
      from_dict (
        ("truncated", bool true)
        ∷ ("sizeBytes", num (texts.number (texts.byte_length text)))
        ∷ ("preview", str (texts.preview text))
        ∷ []))

  -- `truncateBody`; undefined and null stay.
  unfoldable pub truncate_body : Option Json → Option Json
  truncate_body none = none
  truncate_body (some null) = some null
  truncate_body (some body) =
      if leb (texts.byte_length (serialized body)) max_body_bytes
      then some body
      else some (truncation (serialized body))
