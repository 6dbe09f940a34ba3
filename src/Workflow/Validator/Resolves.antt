-- ===== src/Workflow/Validator/Resolves.antt =====
-- The templates of an accepted definition find what they refer to (runner/test-workflow-validator.ts
-- and runner/test-workflow-template.ts).
use bumd.Prelude.{
  ℕ, zero, suc, String, Bool, true, false, none, some, List, [], ◌∷◌, ◌≡◌, ◌≢◌, refl, subst, arith,
  contains, All, get_elem?, Within, Dict, keys, lookup, returned, thrown, inl, inr,
}
use bumd.Json.{Json}
use bumd.Workflow.Types.{WorkflowNode, WorkflowDefinition}
use bumd.Workflow.Graph.Walk.{Reaches, Step}
use bumd.Workflow.Step.Texts.{Texts}
use bumd.Workflow.Step.Template.{
  InterpolationContext, TemplateError, env_var_missing, test_data_missing, var_ref_invalid,
  cannot_embed, interpolate, collect_template_refs,
}
use bumd.Workflow.Step.Refs.{Missing}
use bumd.Workflow.Step.Errors.{PureIsFound, interpolate-collect_template_refs}
use bumd.Workflow.Validator.{extract_operation_ids, validate_definition_for_run}
use bumd.Workflow.Validator.Ready.{last_owner, edges_of, NodeReady}
use bumd.Workflow.Validator.Accepted.{validate_definition_for_run_iff}

-- The context of a node has the environment that the definition was checked against, its test data,
-- and the variables of the nodes from which a path leads here.
pub record Provides (def : WorkflowDefinition) (env_keys : List String) (node : WorkflowNode)
    (ctx : InterpolationContext) : Type 0 where
  pub has_env : Within env_keys (keys ctx.env)
  pub has_data : Within (keys def.test_data) (keys ctx.data_values)
  pub has_vars :
      (name owner : String)
      → last_owner name def.nodes ≡ some owner
      → Reaches (Step (edges_of def)) owner node.id
      → contains (keys ctx.vars) name ≡ true

some_eq : {A : Type 0} {x y : A} → some x ≡ some y → x ≡ y
some_eq h = cc

All-get_elem? :
    {A : Type 0} (P : A → Type 0) (xs : List A) (i : ℕ) {x : A}
    → All P xs
    → get_elem? xs i ≡ some x
    → P x
All-get_elem? P [] i h e = cc
All-get_elem? P (y ∷ xs) zero (p, h) e = subst P (some_eq e) p
All-get_elem? P (y ∷ xs) (suc i) (p, h) e = All-get_elem? P xs i h e

keys-lookup :
    {V : Type 0} (k : String) (d : Dict V) → contains (keys d) k ≡ true → lookup k d ≢ none
keys-lookup k [] m e = cc
keys-lookup k ((j, v) ∷ d) m e = ground (arith, keys-lookup k d)

never_both : {b : Bool} → b ≡ true → b ≡ false → ⊥
never_both p q = cc

only_embedding :
    (texts : Texts) (def : WorkflowDefinition) (operation_ids env_keys : List String)
    (node : WorkflowNode) (ctx : InterpolationContext) (e : TemplateError)
    → NodeReady texts def operation_ids env_keys node
    → Provides def env_keys node ctx
    → Missing ctx (collect_template_refs texts node.request_template) e
    → (text : String) × (e ≡ cannot_embed text)
only_embedding texts def operation_ids env_keys node ctx (env_var_missing key) ready has (m, l) =
    absurd (keys-lookup key ctx.env (has.has_env key (ready.env_defined key m)) l.0)
only_embedding texts def operation_ids env_keys node ctx (test_data_missing key) ready has (m, l) =
    elim (ready.data_defined key m) [
      | inl own ↦ absurd (keys-lookup key ctx.data_values (has.has_data key own) l.0)
      | inr inherited ↦ let foreign = l.1 in absurd (never_both inherited foreign)
    ]
only_embedding texts def operation_ids env_keys node ctx (var_ref_invalid key) ready has (m, l) =
    let (owner, found, path) = ready.vars_exported key m in
    absurd (keys-lookup key ctx.vars (has.has_vars key owner found path) l.0)
only_embedding texts def operation_ids env_keys node ctx (cannot_embed text) ready has m =
    (text, refl)

-- Once a definition is accepted for a run, the template of a node is interpolated without a missing
-- reference wherever the context has the environment's keys, the test data and the variables that the
-- nodes before it export: the only error left is a list or an object inside a text. A text that is one
-- template has no other match.
pub validate_definition_for_run-interpolate :
    (texts : Texts) (def : WorkflowDefinition) (spec : Json) (env_keys : List String) (i : ℕ)
    (node : WorkflowNode) (ctx : InterpolationContext) (e : TemplateError)
    → PureIsFound texts
    → validate_definition_for_run texts def spec env_keys ≡ returned tt
    → get_elem? def.nodes i ≡ some node
    → Provides def env_keys node ctx
    → interpolate texts ctx node.request_template ≡ thrown e
    → (text : String) × (e ≡ cannot_embed text)
validate_definition_for_run-interpolate texts def spec env_keys i node ctx e pure_found accepted at
      has h =
    only_embedding texts def (extract_operation_ids spec) env_keys node ctx e
      (All-get_elem? (NodeReady texts def (extract_operation_ids spec) env_keys) def.nodes i
        ((validate_definition_for_run_iff texts def spec env_keys).0 accepted) at)
      has (interpolate-collect_template_refs texts pure_found ctx node.request_template e h)
