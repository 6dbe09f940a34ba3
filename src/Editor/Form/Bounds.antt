-- ===== src/Editor/Form/Bounds.antt =====
-- What the check of the settings lets through (workflow-settings.ts).
use bumd.Prelude.{
  ℕ, suc, ◌+◌, ◌≤◌, String, true, false, not, Option, none, some, List, [], ◌∷◌, ◌++◌, ◌==◌,
  if◌then◌else◌, ltb, eqb, any, length, contains, All, Distinct, keys, Dict, insert,
  Distinct-keys-insert, ◌≡◌, refl, subst, arith, eq_iff, eq_self, Bool-cases, if_true, if_false,
  ◌⊎◌, inl, inr,
}
use bumd.Json.{Json}
use bumd.Editor.Form.{
  Texts, TestDataRow, WorkflowSettingsInput, WorkflowSettings, WorkflowSettingsErrors, ok, refused,
  first_occurrences, ParsedRows, set_entry, parse_tags, is_json_value, set_value, parse_row,
  parse_rows, parse_test_data, data_bytes, errors_of, settings_of, has_error,
  validate_workflow_settings,
}

-- Tags that were seen do not come again.
first_occurrences-fresh :
    (seen tags : List String) (tag : String)
    → contains seen tag ≡ true
    → contains (first_occurrences seen tags) tag ≡ false
unfolding first_occurrences
first_occurrences-fresh seen [] tag h = refl
first_occurrences-fresh seen (t ∷ tags) tag h =
    ground (arith, first_occurrences-fresh (t ∷ seen) tags tag, eq_iff t tag)

first_occurrences-Distinct : (seen tags : List String) → Distinct (first_occurrences seen tags)
unfolding first_occurrences
first_occurrences-Distinct seen [] = tt
first_occurrences-Distinct seen (t ∷ tags) = elim (Bool-cases (contains seen t)) [
  | inl again ↦ simp again (first_occurrences-Distinct (t ∷ seen) tags)
  | inr new ↦ simp new (
      (
        first_occurrences-fresh (t ∷ seen) tags t (ground (arith, eq_self t)),
        first_occurrences-Distinct (t ∷ seen) tags,
      ))
]

length-insert :
    (key : String) (value : Json) (d : Dict Json) → length (insert key value d) ≤ suc (length d)
length-insert key value [] = omega arith
length-insert key value ((j, w) ∷ d) = ground (arith, length-insert key value d)

any-false :
    (texts : Texts) (tags : List String)
    → any (λ tag. not (texts.tag_pattern tag)) tags ≡ false
    → All (λ tag. texts.tag_pattern tag ≡ true) tags
any-false texts [] h = tt
any-false texts (tag ∷ tags) h = (ground (arith, h), any-false texts tags (ground (arith, h)))

module _ (texts : Texts) where
  -- What holds of the test data after some rows.
  record Collected (count : ℕ) (rows : ParsedRows) : Type 0 where
    few : length rows.test_data ≤ count
    distinct : Distinct (keys rows.test_data)
    fit : All (λ key. texts.test_data_key_pattern key ≡ true) (keys rows.test_data)

  keys-insert-fit :
      (key : String) (value : Json) (d : Dict Json)
      → texts.test_data_key_pattern key ≡ true
      → All (λ k. texts.test_data_key_pattern k ≡ true) (keys d)
      → All (λ k. texts.test_data_key_pattern k ≡ true) (keys (insert key value d))
  keys-insert-fit key value [] fits h = (fits, tt)
  keys-insert-fit key value ((j, w) ∷ d) fits h = elim (Bool-cases (j == key)) [
    | inl same ↦ simp same ((h.0, h.1))
    | inr other ↦ simp other ((h.0, keys-insert-fit key value d fits h.1))
  ]

  more : (count : ℕ) (rows : ParsedRows) → Collected count rows → Collected (suc count) rows
  more count rows c = record { few = omega (arith, c.few); distinct = c.distinct; fit = c.fit }

  set_entry-Collected :
      (count : ℕ) (key : String) (value : Json) (rows : ParsedRows)
      → texts.test_data_key_pattern key ≡ true
      → Collected count rows
      → Collected (suc count) (record rows { test_data = set_entry key value rows.test_data })
  set_entry-Collected count key value rows fits c = elim (Bool-cases (key == "__proto__")) [
    | inl proto ↦ simp proto (more count rows c)
    | inr own ↦ simp own (record {
      few = omega (arith, c.few, length-insert key value rows.test_data);
      distinct = Distinct-keys-insert key value rows.test_data c.distinct;
      fit = keys-insert-fit key value rows.test_data fits c.fit;
    })
  ]

  set_value-Collected :
      (count index : ℕ) (key : String) (value : Option Json) (rows : ParsedRows)
      → texts.test_data_key_pattern key ≡ true
      → Collected count rows
      → Collected (suc count) (set_value texts index key value rows)
  set_value-Collected count index key none rows fits c =
      let c' = more count rows c in record { few = c'.few; distinct = c'.distinct; fit = c'.fit }
  set_value-Collected count index key (some value) rows fits c =
      elim (Bool-cases (is_json_value texts value)) [
        | inl json ↦ simp json (set_entry-Collected count key value rows fits c)
        | inr other ↦
            let c' = more count rows c in
            simp other (record { few = c'.few; distinct = c'.distinct; fit = c'.fit })
      ]

  parse_row-Collected :
      (count index : ℕ) (row : TestDataRow) (rows : ParsedRows)
      → Collected count rows
      → Collected (suc count) (parse_row texts index row rows)
  unfolding parse_row
  parse_row-Collected count index row rows c =
      let key = texts.trim row.key in
      let c' = more count rows c in
      elim (Bool-cases (texts.test_data_key_pattern key)) [
        | inr bad ↦ simp bad (record { few = c'.few; distinct = c'.distinct; fit = c'.fit })
        | inl fits ↦ elim (Bool-cases (contains rows.keys key)) [
          | inl twice ↦
              simp (fits, twice) (record { few = c'.few; distinct = c'.distinct; fit = c'.fit })
          | inr fresh ↦
              simp (fits, fresh)
                (set_value-Collected count index key (texts.parse row.value)
                  (record rows { keys = rows.keys ++ key ∷ [] }) fits
                  (record { few = c.few; distinct = c.distinct; fit = c.fit }))
        ]
      ]

  parse_rows-Collected :
      (count index : ℕ) (more_rows : List TestDataRow) (rows : ParsedRows)
      → Collected count rows
      → Collected (count + length more_rows) (parse_rows texts index more_rows rows)
  unfolding parse_rows
  parse_rows-Collected count index [] rows c = record {
    few = omega (arith, c.few);
    distinct = c.distinct;
    fit = c.fit;
  }
  parse_rows-Collected count index (row ∷ more_rows) rows c =
      let rest =
        parse_rows-Collected (suc count) (suc index) more_rows (parse_row texts index row rows)
          (parse_row-Collected count index row rows c) in
      record { few = omega (arith, rest.few); distinct = rest.distinct; fit = rest.fit }

  parse_test_data-Collected :
      (rows : List TestDataRow) → Collected (length rows) (parse_test_data texts rows)
  unfolding parse_test_data
  parse_test_data-Collected rows =
      let c =
        parse_rows-Collected 0 0 rows (record { test_data = []; row_errors = []; keys = [] })
          (record { few = omega arith; distinct = tt; fit = tt }) in
      record { few = omega (arith, c.few); distinct = c.distinct; fit = c.fit }

  -- The limits that accepted settings keep.
  pub record WithinLimits (settings : WorkflowSettings) : Type 0 where
    pub name_some : 1 ≤ texts.text_length settings.name
    pub name_short : texts.text_length settings.name ≤ 200
    pub description_short :
        (d : String)
        → settings.description ≡ some d
        → (1 ≤ texts.text_length d) × (texts.text_length d ≤ 1000)
    pub tags_distinct : Distinct settings.tags
    pub tags_fit : All (λ tag. texts.tag_pattern tag ≡ true) settings.tags
    pub entries : length settings.test_data ≤ 100
    pub bytes : data_bytes texts settings.test_data ≤ 65536
    pub keys_distinct : Distinct (keys settings.test_data)
    pub keys_fit : All (λ key. texts.test_data_key_pattern key ≡ true) (keys settings.test_data)

  description_within :
      (description d : String)
      → ltb 1000 (texts.text_length description) ≡ false
      → (if eqb (texts.text_length description) 0 then none else some description) ≡ some d
      → (1 ≤ texts.text_length d) × (texts.text_length d ≤ 1000)
  description_within description d short kept =
      elim (Bool-cases (eqb (texts.text_length description) 0)) [
        | inl empty ↦ absurd (cc (simp empty at kept))
        | inr some_text ↦
            let e : description ≡ d = cc (simp some_text at kept) in
            subst (λ t. (1 ≤ texts.text_length t) × (texts.text_length t ≤ 1000)) e
              (ground (arith, some_text), ground (arith, short))
      ]

  settings_of-WithinLimits :
      (input : WorkflowSettingsInput)
      → has_error (errors_of texts input) ≡ false
      → WithinLimits (settings_of texts input)
  unfolding errors_of settings_of parse_tags
  settings_of-WithinLimits input clean =
      let collected = parse_test_data-Collected input.test_data_rows in
      let few = collected.few in
      record {
        name_some = ground (arith, clean);
        name_short = ground (arith, clean);
        description_short = λ d kept.
            description_within (texts.trim input.description) d (ground (arith, clean)) kept;
        tags_distinct = first_occurrences-Distinct [] _;
        tags_fit = any-false texts (parse_tags texts input.tags_text) (ground (arith, clean));
        entries = ground (arith, clean, few);
        bytes = ground (arith, clean);
        keys_distinct = collected.distinct;
        keys_fit = collected.fit;
      }

  -- Settings that the check lets through keep the limits: a name of 1 to 200 characters, no
  -- description or one of 1 to 1000, distinct tags and distinct keys that match their patterns, at most
  -- 100 entries of test data, and at most 65536 bytes of them. A form that is not let through has an
  -- error.
  pub validate_workflow_settings-WithinLimits :
      (input : WorkflowSettingsInput)
      → ((settings : WorkflowSettings) × (validate_workflow_settings texts input ≡ ok settings)
          × WithinLimits settings)
        ⊎ ((errors : WorkflowSettingsErrors) × (validate_workflow_settings texts input
              ≡ refused errors)
            × (has_error errors ≡ true))
  unfolding validate_workflow_settings
  validate_workflow_settings-WithinLimits input =
      elim (Bool-cases (has_error (errors_of texts input))) [
        | inl wrong ↦ inr (errors_of texts input, if_true _ _ wrong, wrong)
        | inr clean ↦
            inl (settings_of texts input, if_false _ _ clean, settings_of-WithinLimits input clean)
      ]
