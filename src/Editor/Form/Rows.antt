-- ===== src/Editor/Form/Rows.antt =====
-- Rows of test data, shown and parsed again (workflow-settings.ts).
use bumd.Prelude.{
  ℕ, suc, String, true, false, ◌||◌, some, [], ◌∷◌, ◌++◌, ◌==◌, contains, contains-append, All,
  Distinct, keys, Dict, insert, ◌≡◌, refl, sym, ap, ◌∙◌, arith, eq_iff, eq_self,
}
use bumd.Json.{Json}
use bumd.Editor.Form.{
  Texts, ParsedRows, is_json_value, parse_row, parse_rows, parse_test_data, test_data_to_rows,
}

module _ (texts : Texts) where
  -- An entry of test data that the form accepts: a key that fits the pattern and has no space around
  -- it, and a value that JSON keeps.
  pub record Accepted (entry : String × Json) : Type 0 where
    pub trimmed : texts.trim entry.0 ≡ entry.0
    pub pattern : texts.test_data_key_pattern entry.0 ≡ true
    pub own : (entry.0 == "__proto__") ≡ false
    pub kept : texts.parse (texts.stringify entry.1) ≡ some entry.1
    pub json : is_json_value texts entry.1 ≡ true

  insert-absent :
      (key : String) (value : Json) (d : Dict Json)
      → contains (keys d) key ≡ false
      → insert key value d ≡ d ++ (key, value) ∷ []
  insert-absent key value [] h = refl
  insert-absent key value ((j, w) ∷ d) h = ground (arith, insert-absent key value d)

  keys-append : (d other : Dict Json) → keys (d ++ other) ≡ keys d ++ keys other
  keys-append [] other = refl
  keys-append ((k, v) ∷ d) other = ap (λ rest. k ∷ rest) (keys-append d other)

  append_assoc : (xs ys zs : Dict Json) → (xs ++ ys) ++ zs ≡ xs ++ (ys ++ zs)
  append_assoc [] ys zs = refl
  append_assoc (x ∷ xs) ys zs = ap (λ rest. x ∷ rest) (append_assoc xs ys zs)

  append_nil : (xs : Dict Json) → xs ++ [] ≡ xs
  append_nil [] = refl
  append_nil (x ∷ xs) = ap (λ rest. x ∷ rest) (append_nil xs)

  -- The state of the loop after these entries.
  abbrev parsed : Dict Json → ParsedRows
  parsed d = record { test_data = d; row_errors = []; keys = keys d }

  parse_row-Accepted :
      (index : ℕ) (key : String) (value : Json) (before : Dict Json)
      → Accepted (key, value)
      → contains (keys before) key ≡ false
      → parse_row texts index (record { key = key; value = texts.stringify value }) (parsed before)
        ≡ parsed (before ++ (key, value) ∷ [])
  unfolding parse_row
  parse_row-Accepted index key value before a fresh =
      let trimmed = a.trimmed in
      let pattern = a.pattern in
      let own = a.own in
      let kept = a.kept in
      let json = a.json in
      let last = insert-absent key value before fresh in
      let more = keys-append before ((key, value) ∷ []) in
      simp (trimmed, pattern, fresh, kept, json, own, last, more)

  parse_rows-Accepted :
      (index : ℕ) (before d : Dict Json)
      → All Accepted d
      → Distinct (keys d)
      → ((k : String) → contains (keys d) k ≡ true → contains (keys before) k ≡ false)
      → parse_rows texts index (test_data_to_rows texts d) (parsed before) ≡ parsed (before ++ d)
  unfolding parse_rows test_data_to_rows
  parse_rows-Accepted index before [] all distinct apart = ap parsed (sym (append_nil before))
  parse_rows-Accepted index before ((key, value) ∷ d) all distinct apart =
      let fresh = apart key (ground (arith, eq_self key)) in
      let next = before ++ (key, value) ∷ [] in
      ap (parse_rows texts (suc index) (test_data_to_rows texts d))
        (parse_row-Accepted index key value before all.0 fresh)
      ∙ parse_rows-Accepted (suc index) next d all.1 distinct.1 (λ k listed.
        ap (λ ks. contains ks k) (keys-append before ((key, value) ∷ []))
        ∙ contains-append (keys before) (key ∷ []) k
        ∙ apart_next k listed (apart k (ground arith)))
      ∙ ap parsed (append_assoc before ((key, value) ∷ []) d)
    where
      apart_next :
          (k : String)
          → contains (keys d) k ≡ true
          → contains (keys before) k ≡ false
          → (contains (keys before) k || contains (key ∷ []) k) ≡ false
      apart_next k listed absent = ground (arith, distinct.0, eq_iff key k)

  -- Stored test data that is shown in the form and read back is the same data, in the same order, without
  -- an error in any row: if its keys are distinct, and each entry is one that the form accepts.
  pub parse_test_data-test_data_to_rows :
      (d : Dict Json)
      → All Accepted d
      → Distinct (keys d)
      → ((parse_test_data texts (test_data_to_rows texts d)).test_data ≡ d)
        × ((parse_test_data texts (test_data_to_rows texts d)).row_errors ≡ [])
  unfolding parse_test_data
  parse_test_data-test_data_to_rows d all distinct =
      let all_rows = parse_rows-Accepted 0 [] d all distinct (λ k listed. refl) in
      (ap (λ p. p.test_data) all_rows, ap (λ p. p.row_errors) all_rows)
