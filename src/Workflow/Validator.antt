-- ===== src/Workflow/Validator.antt =====
-- runner/test-workflow-validator.ts: what a definition needs before it runs.
pub mod Ready
pub mod Accepted
pub mod Resolves
mod Examples
use bumd.Prelude.{
  String, Bool, true, false, not, ◌||◌, Option, none, some, List, [], ◌∷◌, map, ◌==◌, if◌then◌else◌,
  contains, Dict, keys, lookup, insert, Except, returned, thrown, ◌>>=◌, ◌>>◌, throw_if, add,
}
use bumd.Json.{Json, Fields, null, bool, num, str, arr, obj, entries, object_prototype}
use bumd.Workflow.Types.{WorkflowExport, WorkflowNode, WorkflowEdge, WorkflowDefinition}
use bumd.Workflow.Graph.{get_ancestors}
use bumd.Workflow.Definition.{ends}
use bumd.Workflow.Step.Texts.{Texts}
use bumd.Workflow.Step.Template.{TemplateRefs, collect_template_refs}

-- The errors with status 422, with the node and the name that they are about; their codes are
-- WorkflowStaleOperation, EnvVarMissing, TestDataMissing, VarRefInvalid and VarRefNotAncestor.
pub data RunValidationError : Type 0 where
  stale_operation : String → String → RunValidationError
  env_not_defined : String → String → RunValidationError
  data_not_defined : String → String → RunValidationError
  not_exported : String → String → RunValidationError
  not_ancestor : String → String → String → RunValidationError

abbrev pub spec_methods : List String
spec_methods = "get" ∷ "post" ∷ "put" ∷ "patch" ∷ "delete" ∷ "head" ∷ "options" ∷ []

-- `isRecord(op) && typeof op["operationId"] === "string"`
abbrev pub operation_id_of : Option Json → Option String
operation_id_of (some (obj op)) = text_of (lookup "operationId" (entries op))
  where
    text_of : Option Json → Option String
    text_of (some (str id)) = some id
    text_of _ = none
operation_id_of _ = none

abbrev pub add_id : List String → Option String → List String
add_id ids none = ids
add_id ids (some id) = add ids id

-- The loop over the methods of a path.
unfoldable pub add_methods : List String → List String → Dict Json → List String
add_methods [] ids path_item = ids
add_methods (method ∷ methods) ids path_item =
    add_methods methods (add_id ids (operation_id_of (lookup method path_item))) path_item

abbrev pub add_path_item : List String → Json → List String
add_path_item ids (obj path_item) = add_methods spec_methods ids (entries path_item)
add_path_item ids _ = ids

-- The loop over the paths.
unfoldable pub add_paths : List String → Dict Json → List String
unfolding add_methods
add_paths ids [] = ids
add_paths ids ((path, path_item) ∷ paths) = add_paths (add_path_item ids path_item) paths

abbrev pub paths_ids : Option Json → List String
paths_ids (some (obj paths)) = add_paths [] (entries paths)
paths_ids _ = []

abbrev pub extract_operation_ids : Json → List String
extract_operation_ids (obj spec) = paths_ids (lookup "paths" (entries spec))
extract_operation_ids _ = []

-- The loops that fill `exportToNode`.
unfoldable pub add_exports : Dict String → List WorkflowExport → String → Dict String
add_exports owners [] node_id = owners
add_exports owners (exp ∷ exports) node_id =
    add_exports (insert exp.name node_id owners) exports node_id

unfoldable pub export_to_node : Dict String → List WorkflowNode → Dict String
unfolding add_exports
export_to_node owners [] = owners
export_to_node owners (node ∷ nodes) =
    export_to_node (add_exports owners node.exports node.id) nodes

-- `key in value`
abbrev pub in_record : Dict Json → String → Bool
in_record value key = contains (keys value) key || contains object_prototype key

-- The loop over the environment references of a node.
unfoldable pub check_env_refs :
    String → List String → List String → Except RunValidationError (Unit {0})
check_env_refs node_id env_keys [] = returned tt
check_env_refs node_id env_keys (key ∷ refs) = do
  throw_if (not (contains env_keys key)) (env_not_defined node_id key)
  check_env_refs node_id env_keys refs

-- Over those of the test data: `key in def.context.testData`.
unfoldable pub check_data_refs :
    String → Dict Json → List String → Except RunValidationError (Unit {0})
check_data_refs node_id test_data [] = returned tt
check_data_refs node_id test_data (key ∷ refs) = do
  throw_if (not (in_record test_data key)) (data_not_defined node_id key)
  check_data_refs node_id test_data refs

abbrev pub check_owner :
    String → List String → String → Option String → Except RunValidationError (Unit {0})
check_owner node_id ancestors name none = thrown (not_exported node_id name)
check_owner node_id ancestors name (some owner) =
    throw_if (not (contains ancestors owner)) (not_ancestor node_id name owner)

-- Over the variables.
unfoldable pub check_var_refs :
    String → Dict String → List String → List String → Except RunValidationError (Unit {0})
check_var_refs node_id owners ancestors [] = returned tt
check_var_refs node_id owners ancestors (name ∷ refs) = do
  check_owner node_id ancestors name (lookup name owners)
  check_var_refs node_id owners ancestors refs

-- `getAncestors` always ends, so it is never `none`.
abbrev pub found_ancestors : Option (List String) → List String
found_ancestors none = []
found_ancestors (some ancestors) = ancestors

module _ (texts : Texts) where
  abbrev pub check_refs :
      WorkflowDefinition
      → Dict String
      → List String
      → WorkflowNode
      → TemplateRefs
      → Except RunValidationError (Unit {0})
  check_refs def owners env_keys node refs = do
    check_env_refs node.id env_keys refs.env_refs
    check_data_refs node.id def.test_data refs.data_refs
    check_var_refs node.id owners (found_ancestors (get_ancestors node.id (map ends def.edges)))
        refs.var_refs

  -- The body of the loop over the nodes.
  unfoldable pub check_node :
      WorkflowDefinition
      → List String
      → Dict String
      → List String
      → WorkflowNode
      → Except RunValidationError (Unit {0})
  unfolding check_env_refs check_data_refs check_var_refs
  check_node def operation_ids owners env_keys node = do
    throw_if (not (contains operation_ids node.operation_id))
        (stale_operation node.id node.operation_id)
    check_refs def owners env_keys node (collect_template_refs texts node.request_template)

  unfoldable pub check_nodes :
      WorkflowDefinition
      → List String
      → Dict String
      → List String
      → List WorkflowNode
      → Except RunValidationError (Unit {0})
  unfolding check_node
  check_nodes def operation_ids owners env_keys [] = returned tt
  check_nodes def operation_ids owners env_keys (node ∷ nodes) = do
    check_node def operation_ids owners env_keys node
    check_nodes def operation_ids owners env_keys nodes

  unfoldable pub validate_definition_for_run :
      WorkflowDefinition → Json → List String → Except RunValidationError (Unit {0})
  unfolding check_nodes export_to_node
  validate_definition_for_run def spec env_keys =
      check_nodes def (extract_operation_ids spec) (export_to_node [] def.nodes) env_keys def.nodes
