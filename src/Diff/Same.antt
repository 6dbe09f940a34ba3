-- ===== src/Diff/Same.antt =====
-- A specification compared with itself (classifier.ts).
use bumd.Prelude.{
  String, true, false, Option, none, some, List, [], ◌∷◌, contains, All, Distinct,
  Distinct-keys-insert, keys, values, Dict, from_entries, lookup, insert, ◌==◌, Bool-cases, ◌≡◌,
  refl, arith, eq_iff, eq_self, Option-cases, inl, inr,
}
use bumd.Json.{Json, Fields, null, bool, num, str, arr, obj, entries}
use bumd.Diff.Types.{DiffChange}
use bumd.Diff.Records.{read_record, read_string}
use bumd.Diff.Responses.{
  read_from, assign_key, assign, assign_if, response_schema, properties_of, merge_properties,
  entries_or_empty, ok_properties, or_else, properties_from, response_properties, type_change,
  field_change, field_changes, operation_changes, method_changes, response_schema_changes,
}
use bumd.Diff.Compare.{paths_of, classify_open_api_specs}
use bumd.Diff.{
  http_methods, removed, added, operations, read_path, missing_methods, missing_endpoints,
  endpoint_changes, required_parameters, new_parameters, method_parameters,
  required_parameter_changes,
}

-- Every entry of the first map is what the second holds for its key.
abbrev pub AllFound : Dict Json → Dict Json → Type 0
AllFound d other = All (λ entry. lookup entry.0 other ≡ some entry.1) d

AllFound-cons :
    (d other : Dict Json) (k : String) (v : Json)
    → contains (keys d) k ≡ false
    → AllFound d other
    → AllFound d ((k, v) ∷ other)
AllFound-cons [] other k v absent h = tt
AllFound-cons ((j, w) ∷ d) other k v absent h =
    (ground (arith, h.0, eq_iff k j, eq_iff j k), AllFound-cons d other k v (ground arith) h.1)

AllFound-self : (d : Dict Json) → Distinct (keys d) → AllFound d d
AllFound-self [] h = tt
AllFound-self ((k, v) ∷ d) h =
    (ground (arith, eq_self k), AllFound-cons d d k v h.0 (AllFound-self d h.1))

contains-operations :
    (methods : List String) (item : Dict Json) (m : String)
    → contains methods m ≡ false
    → contains (keys (operations methods item)) m ≡ false
unfolding operations
contains-operations [] item m h = refl
contains-operations (method ∷ methods) item m h = elim (Option-cases (lookup method item)) [
  | inl missing ↦ simp missing (contains-operations methods item m (ground arith))
  | inr (v, found) ↦ ground (arith, found, contains-operations methods item m)
]

operations-Distinct :
    (methods : List String) (item : Dict Json)
    → Distinct methods
    → Distinct (keys (operations methods item))
unfolding operations
operations-Distinct [] item h = tt
operations-Distinct (method ∷ methods) item h = elim (Option-cases (lookup method item)) [
  | inl missing ↦ simp missing (operations-Distinct methods item h.1)
  | inr (v, found) ↦
      simp found
        ((contains-operations methods item method h.0, operations-Distinct methods item h.1))
]

read_path-Distinct : (item : Option Json) → Distinct (keys (read_path item))
unfolding read_path
read_path-Distinct none = tt
read_path-Distinct (some null) = tt
read_path-Distinct (some (bool b)) = tt
read_path-Distinct (some (num n)) = tt
read_path-Distinct (some (str s)) = tt
read_path-Distinct (some (arr vs)) = tt
read_path-Distinct (some (obj fs)) =
    operations-Distinct http_methods (entries fs)
      (refl, (refl, (refl, (refl, (refl, (refl, (refl, (refl, tt))))))))

read_path-AllFound : (item : Option Json) → AllFound (read_path item) (read_path item)
read_path-AllFound item = AllFound-self (read_path item) (read_path-Distinct item)

missing_methods-nil :
    (change : String → DiffChange) (path other : Dict Json)
    → AllFound path other
    → missing_methods change path other ≡ []
unfolding missing_methods
missing_methods-nil change [] other h = refl
missing_methods-nil change ((m, v) ∷ path) other h =
    let rest = missing_methods-nil change path other h.1 in ground (arith, h.0, rest)

missing_endpoints-nil :
    (change : String → String → DiffChange) (paths other : Dict Json)
    → AllFound paths other
    → missing_endpoints change paths other ≡ []
unfolding missing_endpoints
missing_endpoints-nil change [] other h = refl
missing_endpoints-nil change ((p, item) ∷ paths) other h =
    let found = h.0 in
    let here =
      missing_methods-nil (change p) (read_path (some item)) (read_path (some item))
        (read_path-AllFound (some item)) in
    let rest = missing_endpoints-nil change paths other h.1 in simp (found, here, rest)

new_parameters-nil :
    (path method : String) (base parameters : List String)
    → ((a : String) → contains parameters a ≡ true → contains base a ≡ true)
    → new_parameters path method base parameters ≡ []
unfolding new_parameters
new_parameters-nil path method base [] h = refl
new_parameters-nil path method base (p ∷ parameters) h =
    let here = h p (ground (arith, eq_self p)) in
    simp here (new_parameters-nil path method base parameters (λ a m. h a (ground arith)))

method_parameters-nil :
    (path : String) (base revision : Dict Json)
    → AllFound revision base
    → method_parameters path base revision ≡ []
unfolding method_parameters
method_parameters-nil path base [] h = refl
method_parameters-nil path base ((m, operation) ∷ revision) h =
    let found = h.0 in
    let ps = required_parameters (some operation) in
    let here = new_parameters-nil path m ps ps (λ a c. c) in
    let rest = method_parameters-nil path base revision h.1 in simp (found, here, rest)

required_parameter_changes-nil :
    (base revision : Dict Json)
    → AllFound revision base
    → required_parameter_changes base revision ≡ []
unfolding required_parameter_changes
required_parameter_changes-nil base [] h = refl
required_parameter_changes-nil base ((p, item) ∷ revision) h =
    let found = h.0 in
    let here =
      method_parameters-nil p (read_path (some item)) (read_path (some item))
        (read_path-AllFound (some item)) in
    let rest = required_parameter_changes-nil base revision h.1 in simp (found, here, rest)

assign_key-Distinct :
    (k : String) (v : Json) (properties : Dict Json)
    → Distinct (keys properties)
    → Distinct (keys (assign_key k v properties))
assign_key-Distinct k v properties h = elim (Bool-cases (k == "__proto__")) [
  | inl proto ↦ rw proto h
  | inr other ↦ rw other (Distinct-keys-insert k v properties h)
]

from_entries-Distinct :
    (properties source : Dict Json)
    → Distinct (keys properties)
    → Distinct (keys (from_entries properties source))
from_entries-Distinct properties [] h = h
from_entries-Distinct properties ((k, v) ∷ source) h =
    from_entries-Distinct (insert k v properties) source (Distinct-keys-insert k v properties h)

assign-Distinct :
    (properties source : Dict Json)
    → Distinct (keys properties)
    → Distinct (keys (assign properties source))
unfolding assign
assign-Distinct properties [] h = h
assign-Distinct properties ((k, v) ∷ source) h =
    assign-Distinct (assign_key k v properties) source (assign_key-Distinct k v properties h)

assign_if-Distinct :
    (properties : Dict Json) (source : Option Fields)
    → Distinct (keys properties)
    → Distinct (keys (assign_if properties source))
assign_if-Distinct properties none h = h
assign_if-Distinct properties (some fs) h = assign-Distinct properties (entries fs) h

merge_properties-Distinct :
    (spec : Json) (properties : Dict Json) (responses : List Json)
    → Distinct (keys properties)
    → Distinct (keys (merge_properties spec properties responses))
unfolding merge_properties
merge_properties-Distinct spec properties [] h = h
merge_properties-Distinct spec properties (response ∷ responses) h =
    merge_properties-Distinct spec
      (assign_if properties (properties_of spec (response_schema response))) responses
      (assign_if-Distinct properties (properties_of spec (response_schema response)) h)

entries_or_empty-Distinct : (found : Option Fields) → Distinct (keys (entries_or_empty found))
entries_or_empty-Distinct none = tt
entries_or_empty-Distinct (some fs) = from_entries-Distinct [] (entries fs) tt

ok_properties-Distinct : (operation : Json) → Distinct (keys (ok_properties operation))
unfolding ok_properties
ok_properties-Distinct operation = entries_or_empty-Distinct (
    read_from
      (read_from
        (read_from (read_from (read_from (read_record operation "responses") "200") "content")
          "application/json")
        "schema")
      "properties")

or_else-Distinct :
    (d ok : Dict Json) → Distinct (keys d) → Distinct (keys ok) → Distinct (keys (or_else d ok))
or_else-Distinct [] ok h k = k
or_else-Distinct (entry ∷ d) ok h k = h

properties_from-Distinct :
    (spec operation : Json) (responses : Option Fields)
    → Distinct (keys (properties_from spec operation responses))
properties_from-Distinct spec operation none = ok_properties-Distinct operation
properties_from-Distinct spec operation (some fs) =
    or_else-Distinct (merge_properties spec [] (values (entries fs))) (ok_properties operation)
      (merge_properties-Distinct spec [] _ tt) (ok_properties-Distinct operation)

-- No field name stands twice in what `responseProperties` returns.
response_properties-Distinct :
    (spec operation : Json) → Distinct (keys (response_properties spec operation))
unfolding response_properties
response_properties-Distinct spec operation =
    properties_from-Distinct spec operation (read_record operation "responses")

type_change_self :
    (path method name : String) (type_name : Option String)
    → type_change path method name type_name type_name ≡ []
type_change_self path method name none = refl
type_change_self path method name (some t) = simp (eq_self t)

field_changes-nil :
    (path method : String) (base revision : Dict Json)
    → AllFound revision base
    → field_changes path method base revision ≡ []
unfolding field_changes field_change
field_changes-nil path method base [] h = refl
field_changes-nil path method base ((name, property) ∷ revision) h =
    let found = h.0 in
    let here = type_change_self path method name (read_string property "type") in
    let rest = field_changes-nil path method base revision h.1 in simp (found, here, rest)

operation_changes-nil :
    (spec : Json) (path method : String) (operation : Json)
    → operation_changes spec spec path method (some operation) operation ≡ []
unfolding operation_changes
operation_changes-nil spec path method null = refl
operation_changes-nil spec path method (bool b) = refl
operation_changes-nil spec path method (num n) = refl
operation_changes-nil spec path method (str s) = refl
operation_changes-nil spec path method (arr vs) = refl
operation_changes-nil spec path method (obj fs) =
    field_changes-nil path method _ _ (AllFound-self _ (response_properties-Distinct spec (obj fs)))

method_changes-nil :
    (spec : Json) (path : String) (base revision : Dict Json)
    → AllFound revision base
    → method_changes spec spec path base revision ≡ []
unfolding method_changes
method_changes-nil spec path base [] h = refl
method_changes-nil spec path base ((m, operation) ∷ revision) h =
    let found = h.0 in
    let here = operation_changes-nil spec path m operation in
    let rest = method_changes-nil spec path base revision h.1 in simp (found, here, rest)

response_schema_changes-nil :
    (spec : Json) (base revision : Dict Json)
    → AllFound revision base
    → response_schema_changes spec base spec revision ≡ []
unfolding response_schema_changes
response_schema_changes-nil spec base [] h = refl
response_schema_changes-nil spec base ((p, item) ∷ revision) h =
    let found = h.0 in
    let here =
      method_changes-nil spec p (read_path (some item)) (read_path (some item))
        (read_path-AllFound (some item)) in
    let rest = response_schema_changes-nil spec base revision h.1 in simp (found, here, rest)

-- A specification in which no path stands twice has no changes from itself.
pub classify_open_api_specs_self :
    (spec : Json) → Distinct (keys (paths_of spec)) → classify_open_api_specs spec spec ≡ []
unfolding classify_open_api_specs endpoint_changes
classify_open_api_specs_self spec d =
    let paths = paths_of spec in
    let found = AllFound-self paths d in
    let gone = missing_endpoints-nil removed paths paths found in
    let new = missing_endpoints-nil added paths paths found in
    let ps = required_parameter_changes-nil paths paths found in
    let fs = response_schema_changes-nil spec paths paths found in simp (gone, new, ps, fs)
