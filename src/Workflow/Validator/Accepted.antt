-- ===== src/Workflow/Validator/Accepted.antt =====
-- validateDefinitionForRun accepts exactly the definitions whose nodes are ready
-- (runner/test-workflow-validator.ts).
use bumd.Prelude.{
  String, Bool, true, Option, none, some, List, [], ◌∷◌, ◌==◌, ◌≡◌, ◌↔◌, refl, sym, ◌∙◌, subst,
  arith, if◌then◌else◌, contains, any, All, Dict, lookup, insert, lookup-insert, or_earlier,
  or_earlier_none, returned, >>-returned, Bool-cases, inl, inr,
}
use bumd.Json.{Json}
use bumd.Workflow.Types.{WorkflowExport, WorkflowNode, WorkflowDefinition}
use bumd.Workflow.Graph.{get_ancestors}
use bumd.Workflow.Graph.Walk.{Reaches, Step}
use bumd.Workflow.Graph.Paths.{get_ancestors_iff}
use bumd.Workflow.Step.Texts.{Texts}
use bumd.Workflow.Step.Template.{collect_template_refs}
use bumd.Workflow.Validator.{
  extract_operation_ids, add_exports, export_to_node, found_ancestors, check_node, check_nodes,
  validate_definition_for_run,
}
use bumd.Workflow.Validator.Ready.{
  last_owner, edges_of, NodeReady, throw_if_false, check_env_refs-Within, Within-check_env_refs,
  check_data_refs-Defined, Defined-check_data_refs, check_var_refs-Owned, Owned-check_var_refs,
}

-- The node exports the name.
abbrev pub exported : String → List WorkflowExport → Bool
exported name exports = any (λ exp. exp.name == name) exports

lookup-add_exports :
    (name node_id : String) (owners : Dict String) (exports : List WorkflowExport)
    → lookup name (add_exports owners exports node_id)
      ≡ (if exported name exports then some node_id else lookup name owners)
unfolding add_exports
lookup-add_exports name node_id owners [] = refl
lookup-add_exports name node_id owners (e ∷ exports) =
    lookup-add_exports name node_id (insert e.name node_id owners) exports
    ∙ ground (arith, lookup-insert e.name name node_id owners)

or_earlier_if :
    (name node_id : String) (exports : List WorkflowExport) (o : Option String)
    (owners : Dict String)
    → or_earlier o (lookup name (add_exports owners exports node_id))
      ≡ or_earlier
          (or_earlier o (if exported name exports then some node_id else none))
          (lookup name owners)
or_earlier_if name node_id exports (some v) owners = refl
or_earlier_if name node_id exports none owners = elim (Bool-cases (exported name exports)) [
  | inl here ↦ lookup-add_exports name node_id owners exports ∙ simp here refl
  | inr elsewhere ↦ lookup-add_exports name node_id owners exports ∙ simp elsewhere refl
]

lookup-export_to_node :
    (name : String) (owners : Dict String) (nodes : List WorkflowNode)
    → lookup name (export_to_node owners nodes)
      ≡ or_earlier (last_owner name nodes) (lookup name owners)
unfolding export_to_node
lookup-export_to_node name owners [] = refl
lookup-export_to_node name owners (node ∷ nodes) =
    lookup-export_to_node name (add_exports owners node.exports node.id) nodes
    ∙ or_earlier_if name node.id node.exports (last_owner name nodes) owners

-- The map of the validator has the last owner of each name.
pub lookup-owners :
    (name : String) (nodes : List WorkflowNode)
    → lookup name (export_to_node [] nodes) ≡ last_owner name nodes
lookup-owners name nodes = lookup-export_to_node name [] nodes ∙ or_earlier_none _

module _ (texts : Texts) (def : WorkflowDefinition) (operation_ids env_keys : List String) where
  abbrev owners : Dict String
  owners = export_to_node [] def.nodes

  abbrev ancestors : WorkflowNode → List String
  ancestors node = found_ancestors (get_ancestors node.id (edges_of def))

  contains-found_ancestors :
      (node : WorkflowNode) (a : String)
      → (contains (ancestors node) a ≡ true) ↔ Reaches (Step (edges_of def)) a node.id
  contains-found_ancestors node a =
      let (found, ends, iff) = get_ancestors_iff node.id (edges_of def) in
      subst (λ o. (contains (found_ancestors o) a ≡ true) ↔ Reaches (Step (edges_of def)) a node.id)
        (sym ends) (iff a)

  check_node-NodeReady :
      (node : WorkflowNode)
      → check_node texts def operation_ids owners env_keys node ≡ returned tt
      → NodeReady texts def operation_ids env_keys node
  unfolding check_node
  check_node-NodeReady node h =
      let refs = collect_template_refs texts node.request_template in
      let (one, rest) = >>-returned _ _ h in
      let (envs, rest2) = >>-returned _ _ rest in
      let (datas, vs) = >>-returned _ _ rest2 in
      record {
        operation = throw_if_false _ _ one;
        env_defined = check_env_refs-Within node.id env_keys refs.env_refs envs;
        data_defined = check_data_refs-Defined node.id def.test_data refs.data_refs datas;
        vars_exported = λ name m.
            let (owner, found, above) =
              check_var_refs-Owned node.id owners (ancestors node) refs.var_refs vs name m in
            (
              owner,
              sym (lookup-owners name def.nodes) ∙ found,
              (contains-found_ancestors node owner).0 above,
            );
      }

  NodeReady-check_node :
      (node : WorkflowNode)
      → NodeReady texts def operation_ids env_keys node
      → check_node texts def operation_ids owners env_keys node ≡ returned tt
  unfolding check_node
  NodeReady-check_node node ready =
      let refs = collect_template_refs texts node.request_template in
      rw
        (
          ready.operation,
          Within-check_env_refs node.id env_keys refs.env_refs ready.env_defined,
          Defined-check_data_refs node.id def.test_data refs.data_refs ready.data_defined,
        )
        (Owned-check_var_refs node.id owners (ancestors node) refs.var_refs (λ name m.
          let (owner, found, path) = ready.vars_exported name m in
          (
            owner,
            lookup-owners name def.nodes ∙ found,
            (contains-found_ancestors node owner).1 path,
          )))

  check_nodes-NodeReady :
      (nodes : List WorkflowNode)
      → check_nodes texts def operation_ids owners env_keys nodes ≡ returned tt
      → All (NodeReady texts def operation_ids env_keys) nodes
  unfolding check_nodes
  check_nodes-NodeReady [] h = tt
  check_nodes-NodeReady (node ∷ nodes) h =
      let (one, rest) =
        >>-returned (check_node texts def operation_ids owners env_keys node)
          (check_nodes texts def operation_ids owners env_keys nodes) h in
      (check_node-NodeReady node one, check_nodes-NodeReady nodes rest)

  NodeReady-check_nodes :
      (nodes : List WorkflowNode)
      → All (NodeReady texts def operation_ids env_keys) nodes
      → check_nodes texts def operation_ids owners env_keys nodes ≡ returned tt
  unfolding check_nodes
  NodeReady-check_nodes [] h = refl
  NodeReady-check_nodes (node ∷ nodes) (one, rest) =
      rw (NodeReady-check_node node one) (NodeReady-check_nodes nodes rest)

-- A definition is accepted for a run exactly if every node is ready: its operation is one of the
-- specification, the environment has each variable that its template refers to, each name of test data
-- in it is a key of the test data or one that every JavaScript object inherits, and each variable of
-- the run in it is exported by a node, the last one to export it, from which a path of edges leads
-- here.
pub validate_definition_for_run_iff :
    (texts : Texts) (def : WorkflowDefinition) (spec : Json) (env_keys : List String)
    → (validate_definition_for_run texts def spec env_keys ≡ returned tt)
      ↔ All (NodeReady texts def (extract_operation_ids spec) env_keys) def.nodes
unfolding validate_definition_for_run
validate_definition_for_run_iff texts def spec env_keys = (
  check_nodes-NodeReady texts def (extract_operation_ids spec) env_keys def.nodes,
  NodeReady-check_nodes texts def (extract_operation_ids spec) env_keys def.nodes,
)
