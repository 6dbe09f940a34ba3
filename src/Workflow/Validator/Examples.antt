-- ===== src/Workflow/Validator/Examples.antt =====
-- A definition whose second node uses the token that the first exports.
use bumd.Prelude.{
  String, true, none, some, List, [], ◌∷◌, ◌==◌, ◌≡◌, ◌≢◌, Bool-cases, inl, inr, ◌↔◌, refl, arith,
  contains, All, returned,
}
use bumd.Json.{Json, str, arr, obj, nil, end, field}
use bumd.Workflow.Types.{ExportSource, WorkflowExport, WorkflowNode, WorkflowDefinition, test}
use bumd.Workflow.Graph.{get_ancestors, walk, discover, parents_of, push_at}
use bumd.Workflow.Step.Template.{
  InterpolationContext, cannot_embed, interpolate, interpolate_string, resolve_ref,
  collect_template_refs, replace_matches,
}
use bumd.Workflow.Step.Whole.{whole, whole_pure}
use bumd.Workflow.Validator.{
  add_methods, add_paths, extract_operation_ids, add_exports, export_to_node, check_env_refs,
  check_data_refs, check_var_refs, check_node, check_nodes, validate_definition_for_run,
}
use bumd.Workflow.Validator.Ready.{NodeReady, last_owner}
use bumd.Workflow.Validator.Accepted.{validate_definition_for_run_iff}
use bumd.Workflow.Validator.Resolves.{Provides, validate_definition_for_run-interpolate}

abbrev node : String → List WorkflowExport → Json → WorkflowNode
node id exports template = record {
  id = id;
  operation_id = "op";
  method = "GET";
  path = "/";
  label = id;
  phase = test;
  request_template = template;
  exports = exports;
  assertions = [];
}

abbrev login : WorkflowNode
login =
    node "login"
      (record {
        name = "token";
        source = ExportSource.header;
        path = none;
        header_name = some "x-token";
      }
        ∷ [])
      (obj end)

abbrev read : WorkflowNode
read = node "read" [] (obj (field "body" (str "Bearer {{vars.token}}") end))

abbrev login_read : WorkflowDefinition
login_read = record {
  test_data = [];
  nodes = login ∷ read ∷ [];
  edges = record { id = "e1"; source = "login"; target = "read" } ∷ [];
}

abbrev spec : Json
spec = obj (
    field "paths"
      (obj (field "/" (obj (field "get" (obj (field "operationId" (str "op") end)) end)) end)) end)

accepted : validate_definition_for_run whole login_read spec [] ≡ returned tt
unfolding validate_definition_for_run check_nodes check_node check_env_refs check_data_refs
    check_var_refs export_to_node add_exports add_paths add_methods collect_template_refs
    get_ancestors walk discover parents_of push_at
accepted = refl

validate_definition_for_run_iff_example :
    (validate_definition_for_run whole login_read spec [] ≡ returned tt)
    ↔ All (NodeReady whole login_read (extract_operation_ids spec) []) login_read.nodes
validate_definition_for_run_iff_example = validate_definition_for_run_iff whole login_read spec []

abbrev context : InterpolationContext
context = record { vars = ("token", arr nil) ∷ []; env = []; data_values = []; secret_keys = [] }

only_token :
    (name : String) {owner : String}
    → last_owner name login_read.nodes ≡ some owner
    → contains ("token" ∷ []) name ≡ true
only_token name h = elim (Bool-cases ("token" == name)) [
  | inl e ↦ ground arith
  | inr e ↦ absurd (nobody (simp e at h))
]
  where
    nobody : {owner : String} → none ≢ some owner
    nobody e = cc

has : Provides login_read [] read context
has = record {
  has_env = λ key m. cc;
  has_data = λ key m. cc;
  has_vars = λ name owner h path. only_token name h;
}

validate_definition_for_run-interpolate_example :
    (text : String) × (cannot_embed "{{vars.token}}" ≡ cannot_embed text)
unfolding interpolate interpolate_string replace_matches resolve_ref
validate_definition_for_run-interpolate_example =
    validate_definition_for_run-interpolate whole login_read spec [] 1 read context
      (cannot_embed "{{vars.token}}") whole_pure accepted refl has refl
