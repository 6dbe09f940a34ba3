-- ===== src/Diff/Severity.antt =====
-- What all changes of a comparison have in common, and what the classification says of them
-- (classifier.ts, diff-engine.ts).
use bumd.Prelude.{
  String, Bool, true, false, Option, none, some, List, [], ◌∷◌, ◌++◌, ◌==◌, any, contains, All,
  Dict, lookup, Except, returned, thrown, ◌≡◌, ◌↔◌, refl, arith, Bool-cases, ◌⊎◌, inl, inr,
}
use bumd.Json.{Json, null, bool, num, str, arr, obj, object_prototype}
use bumd.Diff.Types.{
  DiffEngineClassification, DiffChangeKind, removed_endpoint, added_required_parameter,
  response_type_changed, DiffChange, DiffEngineResult,
}
use bumd.Diff.Records.{read_string}
use bumd.Diff.{
  removed, added, required, new_field, new_type, read_path, missing_methods, missing_endpoints,
  endpoint_changes, required_parameters, new_parameters, method_parameters,
  required_parameter_changes,
}
use bumd.Diff.Responses.{
  response_properties, type_change, field_change, field_changes, operation_changes, method_changes,
  response_schema_changes,
}
use bumd.Diff.Compare.{
  paths_of, classify_open_api_specs, is_breaking, is_warning, classification_for, classification_of,
  OasdiffError, compare_open_api_specs,
}

pub All-append {ℓ κ} :
    {A : Type ℓ} (P : A → Type κ) (xs ys : List A) → All P xs → All P ys → All P (xs ++ ys)
All-append P [] ys hx hy = hy
All-append P (x ∷ xs) ys hx hy = (hx.0, All-append P xs ys hx.1 hy)

-- A property of the changes that each loop makes is one of all changes.
module _ (P : DiffChange → Type 0) where
  missing_methods-All :
      (change : String → DiffChange) (path other : Dict Json)
      → ((method : String) → P (change method))
      → All P (missing_methods change path other)
  unfolding missing_methods
  missing_methods-All change [] other h = tt
  missing_methods-All change ((method, operation) ∷ path) other h =
      let rest = missing_methods-All change path other h in
      let others = missing_methods change path other in
      elim (lookup method other)
        as (λ found. All P (elim found [ none ↦ change method ∷ others | some op ↦ others ])) [
          | none ↦ (h method, rest)
          | some found ↦ rest
        ]

  pub missing_endpoints-All :
      (change : String → String → DiffChange) (paths other : Dict Json)
      → ((path method : String) → P (change path method))
      → All P (missing_endpoints change paths other)
  unfolding missing_endpoints
  missing_endpoints-All change [] other h = tt
  missing_endpoints-All change ((path, item) ∷ paths) other h =
      All-append P _ (missing_endpoints change paths other)
        (missing_methods-All (change path) (read_path (some item)) (read_path (lookup path other))
          (h path))
        (missing_endpoints-All change paths other h)

  new_parameters-All :
      (path method : String) (base parameters : List String)
      → ((path method parameter : String) → P (required path method parameter))
      → All P (new_parameters path method base parameters)
  unfolding new_parameters
  new_parameters-All path method base [] h = tt
  new_parameters-All path method base (parameter ∷ parameters) h =
      let rest = new_parameters-All path method base parameters h in
      elim (Bool-cases (contains base parameter)) [
        | inl old ↦ rw old rest
        | inr new ↦ rw new (h path method parameter, rest)
      ]

  method_parameters-All :
      (path : String) (base revision : Dict Json)
      → ((path method parameter : String) → P (required path method parameter))
      → All P (method_parameters path base revision)
  unfolding method_parameters
  method_parameters-All path base [] h = tt
  method_parameters-All path base ((method, operation) ∷ revision) h =
      All-append P _ (method_parameters path base revision)
        (new_parameters-All path method (required_parameters (lookup method base))
          (required_parameters (some operation)) h)
        (method_parameters-All path base revision h)

  pub required_parameter_changes-All :
      (base revision : Dict Json)
      → ((path method parameter : String) → P (required path method parameter))
      → All P (required_parameter_changes base revision)
  unfolding required_parameter_changes
  required_parameter_changes-All base [] h = tt
  required_parameter_changes-All base ((path, item) ∷ revision) h =
      All-append P _ (required_parameter_changes base revision)
        (method_parameters-All path (read_path (lookup path base)) (read_path (some item)) h)
        (required_parameter_changes-All base revision h)

  module _ (field_holds : (path method name : String) → P (new_field path method name))
      (type_holds : (path method name base revision : String)
        → P (new_type path method name base revision)) where
    type_change-All :
        (path method name : String) (base revision : Option String)
        → All P (type_change path method name base revision)
    type_change-All path method name (some base) (some revision) =
        elim (Bool-cases (base == revision)) [
          | inl same ↦ rw same tt
          | inr differs ↦ rw differs (type_holds path method name base revision, tt)
        ]
    type_change-All path method name (some base) none = tt
    type_change-All path method name none revision = tt

    field_change-All :
        (path method name : String) (base : Option Json) (revision : Json)
        → All P (field_change path method name base revision)
    unfolding field_change
    field_change-All path method name (some base) revision =
        type_change-All path method name (read_string base "type") (read_string revision "type")
    field_change-All path method name none revision =
        elim (Bool-cases (contains object_prototype name)) [
          | inl inherited ↦ rw inherited tt
          | inr new ↦ rw new (field_holds path method name, tt)
        ]

    field_changes-All :
        (path method : String) (base revision : Dict Json)
        → All P (field_changes path method base revision)
    unfolding field_changes
    field_changes-All path method base [] = tt
    field_changes-All path method base ((name, property) ∷ revision) =
        All-append P _ (field_changes path method base revision)
          (field_change-All path method name (lookup name base) property)
          (field_changes-All path method base revision)

    operation_changes-All :
        (base_spec revision_spec : Json) (path method : String) (base : Option Json)
        (revision : Json)
        → All P (operation_changes base_spec revision_spec path method base revision)
    unfolding operation_changes
    operation_changes-All bs rs path method (some (obj base)) revision =
        field_changes-All path method (response_properties bs (obj base))
          (response_properties rs revision)
    operation_changes-All bs rs path method (some null) revision = tt
    operation_changes-All bs rs path method (some (bool b)) revision = tt
    operation_changes-All bs rs path method (some (num n)) revision = tt
    operation_changes-All bs rs path method (some (str s)) revision = tt
    operation_changes-All bs rs path method (some (arr vs)) revision = tt
    operation_changes-All bs rs path method none revision = tt

    method_changes-All :
        (base_spec revision_spec : Json) (path : String) (base revision : Dict Json)
        → All P (method_changes base_spec revision_spec path base revision)
    unfolding method_changes
    method_changes-All bs rs path base [] = tt
    method_changes-All bs rs path base ((method, operation) ∷ revision) =
        All-append P _ (method_changes bs rs path base revision)
          (operation_changes-All bs rs path method (lookup method base) operation)
          (method_changes-All bs rs path base revision)

    pub response_schema_changes-All :
        (base_spec : Json) (base : Dict Json) (revision_spec : Json) (revision : Dict Json)
        → All P (response_schema_changes base_spec base revision_spec revision)
    unfolding response_schema_changes
    response_schema_changes-All bs base rs [] = tt
    response_schema_changes-All bs base rs ((path, item) ∷ revision) =
        All-append P _ (response_schema_changes bs base rs revision)
          (method_changes-All bs rs path (read_path (lookup path base)) (read_path (some item)))
          (response_schema_changes-All bs base rs revision)

-- The changes that can break a client.
abbrev pub breaks : DiffChangeKind → Bool
breaks removed_endpoint = true
breaks added_required_parameter = true
breaks response_type_changed = true
breaks _ = false

-- The severity of a change is given by its kind, and none is a warning.
abbrev HasSeverity : DiffChange → Type 0
HasSeverity c = (is_breaking c.severity ≡ breaks c.kind) × (is_warning c.severity ≡ false)

classify_open_api_specs-HasSeverity :
    (base revision : Json) → All HasSeverity (classify_open_api_specs base revision)
unfolding classify_open_api_specs endpoint_changes
classify_open_api_specs-HasSeverity base revision =
    let b = paths_of base in
    let r = paths_of revision in
    All-append HasSeverity (endpoint_changes b r) _
      (All-append HasSeverity (missing_endpoints removed b r) _
        (missing_endpoints-All HasSeverity removed b r (λ p m. (refl, refl)))
        (missing_endpoints-All HasSeverity added r b (λ p m. (refl, refl))))
      (All-append HasSeverity (required_parameter_changes b r) _
        (required_parameter_changes-All HasSeverity b r (λ p m q. (refl, refl)))
        (response_schema_changes-All HasSeverity (λ p m n. (refl, refl)) (λ p m n x y. (refl, refl))
          base b revision r))

breaking_any :
    (xs : List DiffChange)
    → All HasSeverity xs
    → any (λ c. is_breaking c.severity) xs ≡ any (λ c. breaks c.kind) xs
breaking_any [] h = refl
breaking_any (x ∷ xs) h = let here = h.0 in ground (arith, breaking_any xs h.1)

warning_any :
    (xs : List DiffChange) → All HasSeverity xs → any (λ c. is_warning c.severity) xs ≡ false
warning_any [] h = refl
warning_any (x ∷ xs) h = let here = h.0 in ground (arith, warning_any xs h.1)

classification_of-All :
    (changes : List DiffChange)
    → All HasSeverity changes
    → (is_breaking (classification_of changes) ≡ any (λ c. breaks c.kind) changes)
      × ((classification_of changes ≡ DiffEngineClassification.none) ↔ (changes ≡ []))
      × (is_warning (classification_of changes) ≡ false)
unfolding classification_of classification_for
classification_of-All [] h = (refl, (λ e. refl, λ e. refl), refl)
classification_of-All (c ∷ cs) h =
    let b = breaking_any (c ∷ cs) h in
    let w = warning_any (c ∷ cs) h in
    (ground arith, (λ e. ground arith, λ e. ground arith), ground arith)

-- What the result of a comparison says of the changes: it is breaking exactly if some change can break
-- a client, it is "none" exactly if there is no change, and it is never "warning".
pub record Classifies (changes : List DiffChange) (result : DiffEngineResult) : Type 0 where
  pub changes_kept : result.diff_json.changes ≡ changes
  pub breaking_iff : result.has_breaking ≡ any (λ c. breaks c.kind) changes
  pub same : result.has_breaking ≡ is_breaking result.classification
  pub none_iff : (result.classification ≡ DiffEngineClassification.none) ↔ (changes ≡ [])
  pub no_warning : is_warning result.classification ≡ false

-- A comparison returns a result that classifies its changes, unless oasdiff is there and fails.
pub compare_open_api_specs-Classifies :
    (base revision : Json) (oasdiff : Except OasdiffError Json)
    → ((result : DiffEngineResult) × (compare_open_api_specs base revision oasdiff
          ≡ returned result)
        × Classifies (classify_open_api_specs base revision) result)
      ⊎ (oasdiff ≡ thrown OasdiffError.failed)
unfolding compare_open_api_specs
compare_open_api_specs-Classifies base revision (thrown OasdiffError.failed) = inr refl
compare_open_api_specs-Classifies base revision (thrown OasdiffError.unavailable) =
    let (b, n, w) =
      classification_of-All (classify_open_api_specs base revision)
        (classify_open_api_specs-HasSeverity base revision) in
    inl (
      _,
      refl,
      record { changes_kept = refl; breaking_iff = b; same = refl; none_iff = n; no_warning = w },
    )
compare_open_api_specs-Classifies base revision (returned raw) =
    let (b, n, w) =
      classification_of-All (classify_open_api_specs base revision)
        (classify_open_api_specs-HasSeverity base revision) in
    inl (
      _,
      refl,
      record { changes_kept = refl; breaking_iff = b; same = refl; none_iff = n; no_warning = w },
    )
