-- ===== src/Editor/Form.antt =====
-- The form of a workflow's settings (workflow-settings.ts): its rows of test data, the check of the
-- whole form, and the rows that show stored data.
pub mod Rows
pub mod Bounds
mod Examples
use bumd.Prelude.{
  ℕ, suc, String, Bool, true, false, not, ◌&&◌, ◌||◌, Option, none, some, List, [], ◌∷◌, map, ◌==◌,
  if◌then◌else◌, ltb, leb, eqb, any, filter, length, contains, add, Dict, insert,
}
use bumd.Json.{
  Json, Items, Fields, null, bool, num, str, arr, obj, nil, cons, end, field, from_dict,
}

-- Operations of JavaScript: `trim`, `toLowerCase`, `split(",")`, the two patterns, JSON, the length of
-- a text and of its encoding, and whether a number is finite. `parse` is none for a SyntaxError.
pub record Texts : Type 0 where
  pub trim : String → String
  pub to_lower_case : String → String
  pub split_commas : String → List String
  pub tag_pattern : String → Bool
  pub test_data_key_pattern : String → Bool
  pub parse : String → Option Json
  pub stringify : Json → String
  pub text_length : String → ℕ
  pub byte_length : String → ℕ
  pub is_finite : String → Bool

pub record TestDataRow : Type 0 where
  pub key : String
  pub value : String

pub record WorkflowSettingsInput : Type 0 where
  pub name : String
  pub description : String
  pub tags_text : String
  pub priority : String
  pub test_type : String
  pub test_data_rows : List TestDataRow

pub record WorkflowSettings : Type 0 where
  pub name : String
  pub description : Option String
  pub tags : List String
  pub priority : String
  pub test_type : String
  pub test_data : Dict Json

pub data RowError : Type 0 where
  invalid_key duplicate_key invalid_value : RowError

pub data NameError : Type 0 where
  name_missing name_too_long : NameError

pub data TestDataError : Type 0 where
  too_many_entries too_many_bytes : TestDataError

pub record WorkflowSettingsErrors : Type 0 where
  pub name : Option NameError
  pub description : Bool  -- too long
  pub tags : Bool  -- some tag does not match
  pub test_data : Option TestDataError
  pub rows : List (ℕ × RowError)  -- by index, the last row first

pub data WorkflowSettingsValidation : Type 0 where
  ok : WorkflowSettings → WorkflowSettingsValidation
  refused : WorkflowSettingsErrors → WorkflowSettingsValidation

-- `filter((tag, index, tags) => tags.indexOf(tag) === index)`, after the tags in `seen`.
unfoldable pub first_occurrences : List String → List String → List String
first_occurrences seen [] = []
first_occurrences seen (tag ∷ tags) =
    let rest = first_occurrences (tag ∷ seen) tags in if contains seen tag then rest else tag ∷ rest

-- The state of the loop over the rows.
pub record ParsedRows : Type 0 where
  pub test_data : Dict Json
  pub row_errors : List (ℕ × RowError)
  pub keys : List String

-- `testData[key] = value`: this name is no own property.
abbrev pub set_entry : String → Json → Dict Json → Dict Json
set_entry key value test_data = if key == "__proto__" then test_data else insert key value test_data

abbrev pub is_some {ℓ} : {A : Type ℓ} → Option A → Bool
is_some none = false
is_some (some a) = true

abbrev pub is_nil {ℓ} : {A : Type ℓ} → List A → Bool
is_nil [] = true
is_nil (x ∷ xs) = false

abbrev pub has_error : WorkflowSettingsErrors → Bool
has_error errors =
    is_some errors.name
    || (errors.description
        || (errors.tags || (is_some errors.test_data || not (is_nil errors.rows))))

module _ (texts : Texts) where
  -- `parseTags`
  unfoldable pub parse_tags : String → List String
  unfolding first_occurrences
  parse_tags tags_text = first_occurrences [] (
      filter (λ tag. not (tag == ""))
        (map (λ tag. texts.to_lower_case (texts.trim tag)) (texts.split_commas tags_text)))

  unfoldable mutual
    -- `isJsonValue`, of a value that was parsed.
    pub is_json_value : Json → Bool
    is_json_value null = true
    is_json_value (bool b) = true
    is_json_value (num n) = texts.is_finite n
    is_json_value (str s) = true
    is_json_value (arr vs) = all_items vs
    is_json_value (obj fs) = all_fields fs

    pub all_items : Items → Bool
    all_items nil = true
    all_items (cons v vs) = is_json_value v && all_items vs

    pub all_fields : Fields → Bool
    all_fields end = true
    all_fields (field k v fs) = is_json_value v && all_fields fs

  abbrev pub refuse : ℕ → RowError → ParsedRows → ParsedRows
  refuse index error rows = record rows { row_errors = (index, error) ∷ rows.row_errors }

  -- The `try` of the loop.
  abbrev pub set_value : ℕ → String → Option Json → ParsedRows → ParsedRows
  set_value index key none rows = refuse index invalid_value rows
  set_value index key (some value) rows =
      if is_json_value value
      then record rows { test_data = set_entry key value rows.test_data }
      else refuse index invalid_value rows

  -- The body of the loop.
  unfoldable pub parse_row : ℕ → TestDataRow → ParsedRows → ParsedRows
  unfolding is_json_value
  parse_row index row rows =
      let key = texts.trim row.key in
      if not (texts.test_data_key_pattern key)
      then refuse index invalid_key rows
      else (if contains rows.keys key
          then refuse index duplicate_key rows
          else set_value index key (texts.parse row.value)
              (record rows { keys = add rows.keys key }))

  unfoldable pub parse_rows : ℕ → List TestDataRow → ParsedRows → ParsedRows
  unfolding parse_row
  parse_rows index [] rows = rows
  parse_rows index (row ∷ more) rows = parse_rows (suc index) more (parse_row index row rows)

  -- `parseTestData`
  unfoldable pub parse_test_data : List TestDataRow → ParsedRows
  unfolding parse_rows
  parse_test_data rows = parse_rows 0 rows (record { test_data = []; row_errors = []; keys = [] })

  abbrev pub name_error : String → Option NameError
  name_error name =
      if eqb (texts.text_length name) 0
      then some name_missing
      else (if ltb 200 (texts.text_length name) then some name_too_long else none)

  abbrev pub data_bytes : Dict Json → ℕ
  data_bytes test_data = texts.byte_length (texts.stringify (obj (from_dict test_data)))

  abbrev pub test_data_error : ℕ → Dict Json → Option TestDataError
  test_data_error rows test_data =
      if ltb 100 rows
      then some too_many_entries
      else (if ltb 65536 (data_bytes test_data) then some too_many_bytes else none)

  -- The checks of the form, each with its error.
  unfoldable pub errors_of : WorkflowSettingsInput → WorkflowSettingsErrors
  unfolding parse_tags parse_test_data
  errors_of input = record {
    name = name_error (texts.trim input.name);
    description = ltb 1000 (texts.text_length (texts.trim input.description));
    tags = any (λ tag. not (texts.tag_pattern tag)) (parse_tags input.tags_text);
    test_data =
        test_data_error (length input.test_data_rows)
          (parse_test_data input.test_data_rows).test_data;
    rows = (parse_test_data input.test_data_rows).row_errors;
  }

  unfoldable pub settings_of : WorkflowSettingsInput → WorkflowSettings
  unfolding parse_tags parse_test_data
  settings_of input = record {
    name = texts.trim input.name;
    description =
        if eqb (texts.text_length (texts.trim input.description)) 0
        then none
        else some (texts.trim input.description);
    tags = parse_tags input.tags_text;
    priority = input.priority;
    test_type = input.test_type;
    test_data = (parse_test_data input.test_data_rows).test_data;
  }

  -- `validateWorkflowSettings`
  unfoldable pub validate_workflow_settings : WorkflowSettingsInput → WorkflowSettingsValidation
  unfolding errors_of settings_of
  validate_workflow_settings input =
      if has_error (errors_of input) then refused (errors_of input) else ok (settings_of input)

  -- `testDataToRows`
  unfoldable pub test_data_to_rows : Dict Json → List TestDataRow
  test_data_to_rows [] = []
  test_data_to_rows ((key, value) ∷ test_data) =
      record { key = key; value = texts.stringify value } ∷ test_data_to_rows test_data
