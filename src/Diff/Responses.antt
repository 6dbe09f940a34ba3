-- ===== src/Diff/Responses.antt =====
-- packages/diff-engine/src/classifier.ts: the changes of response fields. Fields are compared by name
-- over all responses of an operation that are JSON.
use bumd.Prelude.{
  String, Option, none, some, List, [], ◌∷◌, ◌++◌, ◌==◌, if◌then◌else◌, contains, Dict, lookup,
  insert, from_entries, values, starts_with, drop_prefix,
}
use bumd.Json.{Json, Fields, obj, entries, object_prototype}
use bumd.Diff.Types.{DiffChange}
use bumd.Diff.Records.{read_record, read_string}
use bumd.Diff.{read_path, new_field, new_type}

-- `x === null ? null : readRecord(x, key)`
abbrev pub read_from : Option Fields → String → Option Fields
read_from none key = none
read_from (some fs) key = read_record (obj fs) key

abbrev pub ref_prefix : String
ref_prefix = "#/components/schemas/"

abbrev pub record_of : Json → Option Fields
record_of (obj fs) = some fs
record_of _ = none

-- The end of `schemaProperties`, with the text of "$ref".
unfoldable pub referenced : Json → Option String → Option Fields
unfolding read_record
referenced spec none = none
referenced spec (some ref) =
    if starts_with ref_prefix ref
    then read_from
        (read_from (read_from (read_from (record_of spec) "components") "schemas")
          (drop_prefix ref_prefix ref))
        "properties"
    else none

unfoldable pub schema_properties : Json → Fields → Option Fields
unfolding referenced read_record read_string
schema_properties spec schema = elim (read_record (obj schema) "properties") [
  | none ↦ referenced spec (read_string (obj schema) "$ref")
  | some properties ↦ some properties
]

-- `properties[k] = v`, which adds no own key for "__proto__". It may then set the prototype of
-- `properties`; names found there only are not modelled.
abbrev pub assign_key : String → Json → Dict Json → Dict Json
assign_key k v properties = if k == "__proto__" then properties else insert k v properties

-- `Object.assign(properties, source)`
unfoldable pub assign : Dict Json → Dict Json → Dict Json
assign properties [] = properties
assign properties ((k, v) ∷ source) = assign (assign_key k v properties) source

abbrev pub assign_if : Dict Json → Option Fields → Dict Json
assign_if properties none = properties
assign_if properties (some source) = assign properties (entries source)

-- The chain from a response to its schema.
unfoldable pub response_schema : Json → Option Fields
unfolding read_record
response_schema response =
    read_from (read_from (read_from (record_of response) "content") "application/json") "schema"

abbrev pub properties_of : Json → Option Fields → Option Fields
properties_of spec none = none
properties_of spec (some schema) = schema_properties spec schema

-- The loop over the responses.
unfoldable pub merge_properties : Json → Dict Json → List Json → Dict Json
unfolding response_schema schema_properties assign
merge_properties spec properties [] = properties
merge_properties spec properties (response ∷ responses) =
    merge_properties spec (assign_if properties (properties_of spec (response_schema response)))
      responses

-- The record, each of its keys once, or `{}`.
abbrev pub entries_or_empty : Option Fields → Dict Json
entries_or_empty none = []
entries_or_empty (some fs) = from_entries [] (entries fs)

-- The second half of `responseProperties`: the fields of the response "200".
unfoldable pub ok_properties : Json → Dict Json
unfolding read_record
ok_properties operation = entries_or_empty (
    read_from
      (read_from
        (read_from (read_from (read_from (read_record operation "responses") "200") "content")
          "application/json")
        "schema")
      "properties")

-- `if (Object.keys(properties).length > 0) return properties`
abbrev pub or_else : Dict Json → Dict Json → Dict Json
or_else [] ok = ok
or_else (property ∷ properties) ok = property ∷ properties

abbrev pub properties_from : Json → Json → Option Fields → Dict Json
properties_from spec operation none = ok_properties operation
properties_from spec operation (some responses) =
    or_else (merge_properties spec [] (values (entries responses))) (ok_properties operation)

unfoldable pub response_properties : Json → Json → Dict Json
unfolding merge_properties ok_properties read_record
response_properties spec operation =
    properties_from spec operation (read_record operation "responses")

-- The comparison of a field's types.
abbrev pub type_change : String → String → String → Option String → Option String → List DiffChange
type_change path method name (some base) (some revision) =
    if base == revision then [] else new_type path method name base revision ∷ []
type_change path method name _ _ = []

-- The body of the loop over the fields of the revision.
unfoldable pub field_change : String → String → String → Option Json → Json → List DiffChange
unfolding read_string
field_change path method name (some base) revision =
    type_change path method name (read_string base "type") (read_string revision "type")
field_change path method name none revision =
    -- None of the values of `Object.prototype` is a record with a text as its type.
    if contains object_prototype name then [] else new_field path method name ∷ []

unfoldable pub field_changes : String → String → Dict Json → Dict Json → List DiffChange
unfolding field_change
field_changes path method base [] = []
field_changes path method base ((name, property) ∷ revision) =
    field_change path method name (lookup name base) property
    ++ field_changes path method base revision

-- The body of the loop over the methods, `continue` where the base has no such operation.
unfoldable pub operation_changes :
    Json → Json → String → String → Option Json → Json → List DiffChange
unfolding field_changes response_properties
operation_changes base_spec revision_spec path method (some (obj base)) revision =
    field_changes path method (response_properties base_spec (obj base))
      (response_properties revision_spec revision)
operation_changes base_spec revision_spec path method _ revision = []

unfoldable pub method_changes : Json → Json → String → Dict Json → Dict Json → List DiffChange
unfolding operation_changes
method_changes base_spec revision_spec path base [] = []
method_changes base_spec revision_spec path base ((method, operation) ∷ revision) =
    operation_changes base_spec revision_spec path method (lookup method base) operation
    ++ method_changes base_spec revision_spec path base revision

unfoldable pub response_schema_changes : Json → Dict Json → Json → Dict Json → List DiffChange
unfolding method_changes read_path
response_schema_changes base_spec base revision_spec [] = []
response_schema_changes base_spec base revision_spec ((path, path_item) ∷ revision) =
    method_changes base_spec revision_spec path (read_path (lookup path base))
      (read_path (some path_item))
    ++ response_schema_changes base_spec base revision_spec revision
