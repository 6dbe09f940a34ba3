-- ===== src/Editor/Form/Examples.antt =====
-- A form that is let through, one that is not, and the theorems applied (workflow-settings.ts).
use bumd.Prelude.{
  String, true, none, some, List, [], ◌∷◌, ◌==◌, if◌then◌else◌, Dict, ◌≡◌, refl, ◌⊎◌,
}
use bumd.Json.{Json, num}
use bumd.Editor.Form.{
  Texts, TestDataRow, WorkflowSettingsInput, WorkflowSettings, WorkflowSettingsErrors, ok, refused,
  duplicate_key, invalid_value, has_error, is_json_value, parse_test_data,
  validate_workflow_settings, test_data_to_rows,
}
use bumd.Editor.Form.Rows.{parse_test_data-test_data_to_rows}
use bumd.Editor.Form.Bounds.{WithinLimits, validate_workflow_settings-WithinLimits}

abbrev number : Json → String
number (num n) = n
number _ = ""

abbrev texts : Texts
texts = record {
  trim = λ text. text;
  to_lower_case = λ text. text;
  split_commas = λ text. text ∷ text ∷ [];
  tag_pattern = λ tag. true;
  test_data_key_pattern = λ key. true;
  parse = λ text. if text == "1" then some (num "1") else none;
  stringify = number;
  text_length = λ text. if text == "" then 0 else 4;
  byte_length = λ text. 2;
  is_finite = λ n. true;
}

abbrev form : List TestDataRow → WorkflowSettingsInput
form rows = record {
  name = "Pets";
  description = "";
  tags_text = "smoke";
  priority = "high";
  test_type = "smoke";
  test_data_rows = rows;
}

abbrev row : String → String → TestDataRow
row key value = record { key = key; value = value }

let_through :
    validate_workflow_settings texts (form (row "count" "1" ∷ []))
    ≡ ok (record {
      name = "Pets";
      description = none;
      tags = "smoke" ∷ [];
      priority = "high";
      test_type = "smoke";
      test_data = ("count", num "1") ∷ [];
    })
unfolding validate_workflow_settings
let_through = refl

rows_refused :
    (parse_test_data texts (row "a" "1" ∷ row "a" "1" ∷ row "b" "x" ∷ [])).row_errors
    ≡ (2, invalid_value) ∷ (1, duplicate_key) ∷ []
unfolding parse_test_data
rows_refused = refl

-- The pattern lets this key through, and its value is lost without an error.
proto_lost :
    validate_workflow_settings texts (form (row "__proto__" "1" ∷ []))
    ≡ validate_workflow_settings texts (form [])
unfolding validate_workflow_settings
proto_lost = refl

abbrev stored : Dict Json
stored = ("first", num "1") ∷ ("second", num "1") ∷ []

parse_test_data-test_data_to_rows_example :
    ((parse_test_data texts (test_data_to_rows texts stored)).test_data ≡ stored)
    × ((parse_test_data texts (test_data_to_rows texts stored)).row_errors ≡ [])
unfolding is_json_value
parse_test_data-test_data_to_rows_example =
    parse_test_data-test_data_to_rows texts stored
      (
        record { trimmed = refl; pattern = refl; own = refl; kept = refl; json = refl },
        (record { trimmed = refl; pattern = refl; own = refl; kept = refl; json = refl }, tt),
      )
      (refl, (refl, tt))

validate_workflow_settings-WithinLimits_example :
    ((settings : WorkflowSettings) × (validate_workflow_settings texts (form (row "count" "1" ∷ []))
        ≡ ok settings)
      × WithinLimits texts settings)
    ⊎ ((errors : WorkflowSettingsErrors) × (validate_workflow_settings texts
            (form (row "count" "1" ∷ []))
          ≡ refused errors)
        × (has_error errors ≡ true))
validate_workflow_settings-WithinLimits_example =
    validate_workflow_settings-WithinLimits texts (form (row "count" "1" ∷ []))
