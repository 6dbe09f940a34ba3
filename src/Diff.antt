-- ===== src/Diff.antt =====
-- packages/diff-engine/src: classifier.ts (the changes between two OpenAPI specifications), markdown.ts
-- and diff-engine.ts. A specification is the value that JSON.parse or the YAML library gives; both, and
-- the oasdiff program, are parameters.
pub mod Types
pub mod Records
pub mod Responses
pub mod Compare
pub mod Endpoints
pub mod Same
pub mod Severity
mod Examples
use bumd.Prelude.{
  ℕ, String, Bool, true, false, not, ◌&&◌, ◌||◌, Option, none, some, List, [], ◌∷◌, ◌++◌, map, ◌==◌,
  if◌then◌else◌, contains, any, filter, Dict, lookup, insert, Except, returned, thrown, ◌>>=◌,
  concat, starts_with, drop_prefix, join,
}
use bumd.Json.{Json, Fields, null, bool, arr, obj, entries, items, from_dict}
use Types.{
  DiffEngineClassification, DiffChangeKind, removed_endpoint, added_endpoint,
  added_required_parameter, response_type_changed, added_optional_field, DiffChange, DiffJson,
  DiffEngineResult,
}
use Records.{child, read_record, read_string}

abbrev pub http_methods : List String
http_methods = "get" ∷ "put" ∷ "post" ∷ "delete" ∷ "patch" ∷ "options" ∷ "head" ∷ "trace" ∷ []

-- `method.toUpperCase()`, for one of these methods.
abbrev pub upper_case : String → String
upper_case method =
    elim (lookup {V = String} method (
      ("get", "GET")
      ∷ ("put", "PUT")
      ∷ ("post", "POST")
      ∷ ("delete", "DELETE")
      ∷ ("patch", "PATCH")
      ∷ ("options", "OPTIONS")
      ∷ ("head", "HEAD")
      ∷ ("trace", "TRACE")
      ∷ [])) [ none ↦ method | some upper ↦ upper ]

-- `${method.toUpperCase()} ${path}` and the rest of a message.
abbrev pub message_of : String → String → String → String
message_of method path rest = concat (upper_case method) (concat " " (concat path rest))

abbrev pub removed : String → String → DiffChange
removed path method = record {
  kind = removed_endpoint;
  path = path;
  method = method;
  location = none;
  severity = DiffEngineClassification.breaking;
  message = message_of method path " was removed";
}

abbrev pub added : String → String → DiffChange
added path method = record {
  kind = added_endpoint;
  path = path;
  method = method;
  location = none;
  severity = DiffEngineClassification.non_breaking;
  message = message_of method path " was added";
}

abbrev pub required : String → String → String → DiffChange
required path method parameter = record {
  kind = added_required_parameter;
  path = path;
  method = method;
  location = some parameter;
  severity = DiffEngineClassification.breaking;
  message = message_of method path (concat " added required parameter " parameter);
}

abbrev pub new_field : String → String → String → DiffChange
new_field path method name = record {
  kind = added_optional_field;
  path = path;
  method = method;
  location = some name;
  severity = DiffEngineClassification.non_breaking;
  message = message_of method path (concat " added optional response field " name);
}

abbrev pub new_type : String → String → String → String → String → DiffChange
new_type path method name base_type revision_type = record {
  kind = response_type_changed;
  path = path;
  method = method;
  location = some name;
  severity = DiffEngineClassification.breaking;
  message = message_of method path (
      concat " changed response field "
        (concat name (concat " from " (concat base_type (concat " to " revision_type)))));
}

abbrev pub with_operation : String → Option Json → Dict Json → Dict Json
with_operation method none rest = rest
with_operation method (some operation) rest = (method, operation) ∷ rest

-- The loop of `readPath` over the methods.
unfoldable pub operations : List String → Dict Json → Dict Json
operations [] path_item = []
operations (method ∷ methods) path_item =
    with_operation method (lookup method path_item) (operations methods path_item)

-- `readPath`; what a path inherits from `Object.prototype` holds no operation either.
unfoldable pub read_path : Option Json → Dict Json
unfolding operations
read_path (some (obj fs)) = operations http_methods (entries fs)
read_path _ = []

-- The loop over the methods of one path that are missing on the other side.
unfoldable pub missing_methods : (String → DiffChange) → Dict Json → Dict Json → List DiffChange
missing_methods change [] other = []
missing_methods change ((method, operation) ∷ path) other =
    let rest = missing_methods change path other in
    elim (lookup method other) [ none ↦ change method ∷ rest | some found ↦ rest ]

-- Both loops of `endpointChanges`.
unfoldable pub missing_endpoints :
    (String → String → DiffChange) → Dict Json → Dict Json → List DiffChange
unfolding missing_methods read_path
missing_endpoints change [] other = []
missing_endpoints change ((path, path_item) ∷ paths) other =
    missing_methods (change path) (read_path (some path_item)) (read_path (lookup path other))
    ++ missing_endpoints change paths other

unfoldable pub endpoint_changes : Dict Json → Dict Json → List DiffChange
unfolding missing_endpoints
endpoint_changes base revision =
    missing_endpoints removed base revision ++ missing_endpoints added revision base

-- `parameter["required"] !== true`
abbrev pub is_true : Option Json → Bool
is_true (some (bool true)) = true
is_true _ = false

abbrev pub parameter_key : Option String → Option String → List String
parameter_key (some name) (some location) = concat location (concat ":" name) ∷ []
parameter_key _ _ = []

-- The function that `requiredParameters` maps over the parameters.
unfoldable pub required_key : Json → List String
unfolding read_string
required_key parameter =
    if is_true (child parameter "required")
    then parameter_key (read_string parameter "name") (read_string parameter "in")
    else []

unfoldable pub required_keys : List Json → List String
unfolding required_key
required_keys [] = []
required_keys (parameter ∷ parameters) = required_key parameter ++ required_keys parameters

abbrev pub array_or_empty : Option Json → List Json
array_or_empty (some (arr vs)) = items vs
array_or_empty _ = []

abbrev pub child_of : Option Json → String → Option Json
child_of none key = none
child_of (some value) key = child value key

-- `requiredParameters`, and the set that `parameterKeys` makes of it.
unfoldable pub required_parameters : Option Json → List String
unfolding required_keys
required_parameters operation = required_keys (array_or_empty (child_of operation "parameters"))

-- The innermost loop of `requiredParameterChanges`.
unfoldable pub new_parameters : String → String → List String → List String → List DiffChange
new_parameters path method base [] = []
new_parameters path method base (parameter ∷ parameters) =
    let rest = new_parameters path method base parameters in
    if contains base parameter then rest else required path method parameter ∷ rest

unfoldable pub method_parameters : String → Dict Json → Dict Json → List DiffChange
unfolding new_parameters required_parameters
method_parameters path base [] = []
method_parameters path base ((method, operation) ∷ revision) =
    new_parameters path method (required_parameters (lookup method base))
      (required_parameters (some operation))
    ++ method_parameters path base revision

unfoldable pub required_parameter_changes : Dict Json → Dict Json → List DiffChange
unfolding method_parameters read_path
required_parameter_changes base [] = []
required_parameter_changes base ((path, path_item) ∷ revision) =
    method_parameters path (read_path (lookup path base)) (read_path (some path_item))
    ++ required_parameter_changes base revision
