-- ===== src/Workflow/Step/Assertions.antt =====
-- runner/test-workflow-assertions.ts: the assertions of a node against a response.
use bumd.Prelude.{
  ℕ, String, Bool, true, false, not, Option, none, some, List, [], ◌∷◌, map, ◌==◌, if◌then◌else◌,
  eqb, ltb, any, Dict, Except, returned, thrown,
}
use bumd.Json.{Json, Items, bool, num, str, arr, obj, nil, cons, from_dict}
use bumd.Workflow.Types.{
  StatusOperator, PathOperator, HeaderOperator, ExpectedStatus, one, many, WorkflowAssertion,
  json_path, response_time,
}
use bumd.Workflow.Step.Texts.{Texts}
use bumd.Workflow.Step.Paths.{PathError, path_message, resolve_path, deep_equal}

pub record ResolvedResponse : Type 0 where
  pub status : ℕ
  pub headers : Dict String
  pub body : Json
  pub duration_ms : ℕ

-- `none` stands for undefined.
pub record AssertionResult : Type 0 where
  pub id : String
  pub assertion_type : String
  pub passed : Bool
  pub expected : Option Json
  pub actual : Option Json
  pub error : Option String

abbrev pub expected_is : ExpectedStatus → ℕ → Bool
expected_is (one n) actual = eqb actual n
expected_is (many ns) actual = false

abbrev pub expected_has : ExpectedStatus → ℕ → Bool
expected_has (one n) actual = false
expected_has (many ns) actual = any (λ n. eqb n actual) ns

unfoldable pub status_passed : StatusOperator → ExpectedStatus → ℕ → Bool
status_passed StatusOperator.equals expected actual = expected_is expected actual
status_passed StatusOperator.not_equals expected actual = not (expected_is expected actual)
status_passed StatusOperator.in_list expected actual = expected_has expected actual

abbrev pub header_value : Texts → String → Dict String → Option String
header_value texts name [] = none
header_value texts name ((k, v) ∷ headers) =
    let rest = header_value texts name headers in
    if texts.to_lower_case k == texts.to_lower_case name then some v else rest

abbrev pub json_items : List Json → Items
json_items [] = nil
json_items (v ∷ vs) = cons v (json_items vs)

module _ (texts : Texts) where
  abbrev pub expected_json : ExpectedStatus → Json
  expected_json (one n) = num (texts.number n)
  expected_json (many ns) = arr (json_items (map (λ n. num (texts.number n)) ns))

  abbrev pub contains_text : Json → Option Json → Bool
  contains_text (str actual) (some (str expected)) = texts.includes actual expected
  contains_text _ _ = false

  -- Where the path resolves.
  unfoldable pub value_passed : PathOperator → Json → Option Json → Bool
  unfolding deep_equal
  value_passed PathOperator.exists actual expected = true
  value_passed PathOperator.equals actual expected = deep_equal texts actual expected
  value_passed PathOperator.not_equals actual expected = not (deep_equal texts actual expected)
  value_passed PathOperator.contains actual expected = contains_text actual expected

  abbrev pub path_result :
      String → PathOperator → Option Json → Except PathError Json → AssertionResult
  path_result id operator expected (returned actual) = record {
    id = id;
    assertion_type = "jsonPath";
    passed = value_passed operator actual expected;
    expected = expected;
    actual = some actual;
    error = none;
  }
  path_result id operator expected (thrown e) = record {
    id = id;
    assertion_type = "jsonPath";
    passed = false;
    expected = expected;
    actual = none;
    error = some (path_message e);
  }

  unfoldable pub header_passed : HeaderOperator → Option String → Option String → Bool
  header_passed operator none expected = false
  header_passed HeaderOperator.exists (some actual) expected = true
  header_passed HeaderOperator.equals (some actual) none = false
  header_passed HeaderOperator.equals (some actual) (some expected) = actual == expected
  header_passed HeaderOperator.contains (some actual) none = false
  header_passed HeaderOperator.contains (some actual) (some expected) =
      texts.includes actual expected

  abbrev pub optional_text : Option String → Option Json
  optional_text none = none
  optional_text (some s) = some (str s)

  unfoldable pub evaluate_assertion : WorkflowAssertion → ResolvedResponse → AssertionResult
  unfolding status_passed value_passed header_passed resolve_path
  evaluate_assertion (WorkflowAssertion.status id operator expected) response = record {
    id = id;
    assertion_type = "status";
    passed = status_passed operator expected response.status;
    expected = some (expected_json expected);
    actual = some (num (texts.number response.status));
    error = none;
  }
  evaluate_assertion (json_path id path operator expected) response =
      path_result id operator expected (resolve_path texts path response.body)
  evaluate_assertion (WorkflowAssertion.header id name operator expected) response =
      let actual = header_value texts name response.headers in
      record {
        id = id;
        assertion_type = "header";
        passed = header_passed operator actual expected;
        expected = optional_text expected;
        actual = optional_text actual;
        error = none;
      }
  evaluate_assertion (response_time id expected_ms) response = record {
    id = id;
    assertion_type = "responseTime";
    passed = ltb response.duration_ms expected_ms;
    expected = some (num (texts.number expected_ms));
    actual = some (num (texts.number response.duration_ms));
    error = none;
  }

  unfoldable pub evaluate_assertions :
      List WorkflowAssertion → ResolvedResponse → List AssertionResult
  unfolding evaluate_assertion
  evaluate_assertions [] response = []
  evaluate_assertions (assertion ∷ assertions) response =
      evaluate_assertion assertion response ∷ evaluate_assertions assertions response

abbrev pub optional_entry : String → Option Json → Dict Json → Dict Json
optional_entry key none rest = rest
optional_entry key (some value) rest = (key, value) ∷ rest

abbrev pub error_json : Option String → Option Json
error_json none = none
error_json (some s) = some (str s)

-- The result as the JSON that is stored, without what is undefined.
abbrev pub assertion_json : AssertionResult → Json
assertion_json result = obj (
    from_dict (
      ("id", str result.id)
      ∷ ("type", str result.assertion_type)
      ∷ ("passed", bool result.passed)
      ∷ optional_entry "expected" result.expected (
          optional_entry "actual" result.actual
            (optional_entry "error" (error_json result.error) []))))
