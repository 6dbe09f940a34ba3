-- ===== src/Workflow/Step/Checks.antt =====
-- The exports and the assertions of a step, one by one (runner/test-workflow-exports.ts and
-- runner/test-workflow-assertions.ts).
use bumd.Prelude.{
  String, Bool, true, false, not, Option, none, some, List, [], ◌∷◌, ◌==◌, ◌≡◌, refl, sym,
  if◌then◌else◌, Dict, lookup, insert, or_earlier, or_earlier-lookup-insert, Except, returned,
  thrown, >>=-returned, returned-injective, find?, ◌∙◌, ap,
}
use bumd.Json.{Json}
use bumd.Workflow.Types.{WorkflowExport, WorkflowAssertion}
use bumd.Workflow.Step.Texts.{Texts}
use bumd.Workflow.Step.Assertions.{ResolvedResponse, evaluate_assertion, evaluate_assertions}
use bumd.Workflow.Step.Exports.{ExportError, extract_export, extract_into}
use bumd.Workflow.Step.Executor.{is_failing}

abbrev pub value_or : Except ExportError Json → Option Json → Option Json
value_or (returned v) rest = some v
value_or (thrown e) rest = rest

none-of-if :
    {A : Type 0} (b : Bool) (x : A) (o : Option A)
    → (if not b then some x else o) ≡ none
    → (b ≡ true) × (o ≡ none)
none-of-if true x o h = (refl, h)
none-of-if false x o h = cc

module _ (texts : Texts) where
  -- Every export finds its value.
  abbrev pub Extracts : List WorkflowExport → ResolvedResponse → Type 0
  Extracts [] response = Unit {0}
  Extracts (e ∷ es) response =
      ((v : Json) × (extract_export texts e.name e.source e response ≡ returned v))
      × Extracts es response

  -- The value of the last export of a name.
  abbrev pub last_value : String → List WorkflowExport → ResolvedResponse → Option Json
  last_value name [] response = none
  last_value name (e ∷ es) response = or_earlier (last_value name es response) (
      if e.name == name
      then value_or (extract_export texts e.name e.source e response) none
      else none)

  -- Every assertion passes.
  abbrev pub Passes : List WorkflowAssertion → ResolvedResponse → Type 0
  Passes [] response = Unit {0}
  Passes (a ∷ asserts) response =
      ((evaluate_assertion texts a response).passed ≡ true) × Passes asserts response

  pub extract_into_returns :
      (es : List WorkflowExport) (response : ResolvedResponse) (d : Dict Json)
      → Extracts es response
      → (exports : Dict Json) × (extract_into texts d es response ≡ returned exports)
  unfolding extract_into
  extract_into_returns [] response d h = (d, refl)
  extract_into_returns (e ∷ es) response d ((v, h), hs) =
      rw h (extract_into_returns es response (insert e.name v d) hs)

  pub extract_into_lem :
      (es : List WorkflowExport) (response : ResolvedResponse) (d : Dict Json) {exports : Dict Json}
      → extract_into texts d es response ≡ returned exports
      → Extracts es response
        × ((name : String)
            → lookup name exports ≡ or_earlier (last_value name es response) (lookup name d))
  unfolding extract_into
  extract_into_lem [] response d h = (tt, λ name. ap (lookup name) (sym (returned-injective h)))
  extract_into_lem (e ∷ es) response d h =
      let (v, found, rest) =
        >>=-returned (extract_export texts e.name e.source e response)
          (λ value. extract_into texts (insert e.name value d) es response) h in
      let (extracts, lookups) = extract_into_lem es response (insert e.name v d) rest in
      (
        ((v, found), extracts),
        λ name.
            lookups name
            ∙ rw found (or_earlier-lookup-insert name e.name v (last_value name es response) d),
      )

  pub find_failing-Passes :
      (asserts : List WorkflowAssertion) (response : ResolvedResponse)
      → find? is_failing (evaluate_assertions texts asserts response) ≡ none
      → Passes asserts response
  unfolding evaluate_assertions
  find_failing-Passes [] response h = tt
  find_failing-Passes (a ∷ asserts) response h =
      let (passed, rest) =
        none-of-if (evaluate_assertion texts a response).passed
          (evaluate_assertion texts a response)
          (find? is_failing (evaluate_assertions texts asserts response)) h in
      (passed, find_failing-Passes asserts response rest)

  pub Passes-find_failing :
      (asserts : List WorkflowAssertion) (response : ResolvedResponse)
      → Passes asserts response
      → find? is_failing (evaluate_assertions texts asserts response) ≡ none
  unfolding evaluate_assertions
  Passes-find_failing [] response h = refl
  Passes-find_failing (a ∷ asserts) response (h, hs) =
      simp h (Passes-find_failing asserts response hs)
