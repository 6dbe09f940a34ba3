-- ===== src/Workflow/Validator/Ready.antt =====
-- What validateDefinitionForRun accepts (runner/test-workflow-validator.ts).
use bumd.Prelude.{
  String, Bool, true, false, not, Option, none, some, List, [], ◌∷◌, map, ◌==◌, ◌≡◌, ◌⊎◌, refl,
  subst, arith, if◌then◌else◌, contains, any, Within, eq_iff, eq_self, Dict, keys, lookup,
  or_earlier, returned, throw_if, >>-returned, Bool-cases, inl, inr,
}
use bumd.Json.{Json, object_prototype}
use bumd.Workflow.Types.{WorkflowNode, WorkflowDefinition}
use bumd.Workflow.Graph.{Edge}
use bumd.Workflow.Graph.Walk.{Reaches, Step}
use bumd.Workflow.Definition.{ends}
use bumd.Workflow.Step.Texts.{Texts}
use bumd.Workflow.Step.Template.{collect_template_refs}
use bumd.Workflow.Validator.{
  in_record, check_env_refs, check_data_refs, check_owner, check_var_refs,
}

-- The last node that exports the name.
abbrev pub last_owner : String → List WorkflowNode → Option String
last_owner name [] = none
last_owner name (node ∷ nodes) =
    or_earlier (last_owner name nodes)
      (if any (λ exp. exp.name == name) node.exports then some node.id else none)

abbrev pub edges_of : WorkflowDefinition → List Edge
edges_of def = map ends def.edges

-- Each name is a key of the record, or one that every object inherits.
abbrev pub Defined : List String → Dict Json → Type 0
Defined names value =
    (name : String)
    → contains names name ≡ true
    → (contains (keys value) name ≡ true) ⊎ (contains object_prototype name ≡ true)

-- The operation of the node exists, the environment and the test data define what its template refers
-- to, and each variable comes from a node from which a path of edges leads here.
pub record NodeReady (texts : Texts) (def : WorkflowDefinition)
    (operation_ids env_keys : List String) (node : WorkflowNode) : Type 0 where
  pub operation : contains operation_ids node.operation_id ≡ true
  pub env_defined : Within (collect_template_refs texts node.request_template).env_refs env_keys
  pub data_defined :
      Defined (collect_template_refs texts node.request_template).data_refs def.test_data
  pub vars_exported :
      (name : String)
      → contains (collect_template_refs texts node.request_template).var_refs name ≡ true
      → (owner : String) × (last_owner name def.nodes ≡ some owner)
        × Reaches (Step (edges_of def)) owner node.id

pub throw_if_false : {E : Type 0} (b : Bool) (e : E) → throw_if (not b) e ≡ returned tt → b ≡ true
throw_if_false true e h = refl
throw_if_false false e h = cc

Within-cons :
    (x : String) (xs ys : List String) → contains ys x ≡ true → Within xs ys → Within (x ∷ xs) ys
Within-cons x xs ys h sub a m = ground (arith, sub a, eq_iff x a)

Within-head : (x : String) (xs ys : List String) → Within (x ∷ xs) ys → contains ys x ≡ true
Within-head x xs ys sub = sub x (ground (arith, eq_self x))

Within-tail : (x : String) (xs ys : List String) → Within (x ∷ xs) ys → Within xs ys
Within-tail x xs ys sub a m = sub a (ground (arith))

pub check_env_refs-Within :
    (id : String) (env_keys refs : List String)
    → check_env_refs id env_keys refs ≡ returned tt
    → Within refs env_keys
unfolding check_env_refs
check_env_refs-Within id env_keys [] h = λ a m. cc
check_env_refs-Within id env_keys (key ∷ refs) h =
    let (one, rest) = >>-returned _ (check_env_refs id env_keys refs) h in
    Within-cons key refs env_keys (throw_if_false _ _ one)
      (check_env_refs-Within id env_keys refs rest)

pub Within-check_env_refs :
    (id : String) (env_keys refs : List String)
    → Within refs env_keys
    → check_env_refs id env_keys refs ≡ returned tt
unfolding check_env_refs
Within-check_env_refs id env_keys [] sub = refl
Within-check_env_refs id env_keys (key ∷ refs) sub =
    rw (Within-head key refs env_keys sub)
      (Within-check_env_refs id env_keys refs (Within-tail key refs env_keys sub))

in_record-Defined :
    (value : Dict Json) (name : String)
    → in_record value name ≡ true
    → (contains (keys value) name ≡ true) ⊎ (contains object_prototype name ≡ true)
in_record-Defined value name h = elim (Bool-cases (contains (keys value) name)) [
  | inl own ↦ inl own
  | inr other ↦ inr (simp other at h)
]

Defined-in_record :
    (value : Dict Json) (name : String)
    → (contains (keys value) name ≡ true) ⊎ (contains object_prototype name ≡ true)
    → in_record value name ≡ true
Defined-in_record value name (inl own) = simp own
Defined-in_record value name (inr inherited) = ground (arith, inherited)

pub check_data_refs-Defined :
    (id : String) (test_data : Dict Json) (refs : List String)
    → check_data_refs id test_data refs ≡ returned tt
    → Defined refs test_data
unfolding check_data_refs
check_data_refs-Defined id test_data [] h name m = absurd (cc)
check_data_refs-Defined id test_data (key ∷ refs) h name m =
    let (one, rest) = >>-returned _ (check_data_refs id test_data refs) h in
    let here = in_record-Defined test_data key (throw_if_false _ _ one) in
    elim (Bool-cases (key == name)) [
      | inl same ↦
          subst (λ n. (contains (keys test_data) n ≡ true) ⊎ (contains object_prototype n ≡ true))
            ((eq_iff key name).0 same) here
      | inr other ↦ check_data_refs-Defined id test_data refs rest name (ground (arith))
    ]

pub Defined-check_data_refs :
    (id : String) (test_data : Dict Json) (refs : List String)
    → Defined refs test_data
    → check_data_refs id test_data refs ≡ returned tt
unfolding check_data_refs
Defined-check_data_refs id test_data [] sub = refl
Defined-check_data_refs id test_data (key ∷ refs) sub =
    rw (Defined-in_record test_data key (sub key (ground (arith, eq_self key))))
      (Defined-check_data_refs id test_data refs (λ n m. sub n (ground (arith))))

-- Each name has an owner among the ancestors.
abbrev pub Owned : Dict String → List String → List String → Type 0
Owned owners ancestors refs =
    (name : String)
    → contains refs name ≡ true
    → (owner : String) × (lookup name owners ≡ some owner) × (contains ancestors owner ≡ true)

check_owner-Owned :
    (id : String) (ancestors : List String) (name : String) (o : Option String)
    → check_owner id ancestors name o ≡ returned tt
    → (owner : String) × (o ≡ some owner) × (contains ancestors owner ≡ true)
check_owner-Owned id ancestors name none h = cc
check_owner-Owned id ancestors name (some owner) h = (owner, refl, throw_if_false _ _ h)

pub check_var_refs-Owned :
    (id : String) (owners : Dict String) (ancestors refs : List String)
    → check_var_refs id owners ancestors refs ≡ returned tt
    → Owned owners ancestors refs
unfolding check_var_refs
check_var_refs-Owned id owners ancestors [] h name m = cc
check_var_refs-Owned id owners ancestors (ref ∷ refs) h name m =
    let (one, rest) = >>-returned _ (check_var_refs id owners ancestors refs) h in
    elim (Bool-cases (ref == name)) [
      | inl same ↦
          subst
            (λ n.
              (owner : String) × (lookup n owners ≡ some owner) × (contains ancestors owner ≡ true))
            ((eq_iff ref name).0 same) (check_owner-Owned id ancestors ref _ one)
      | inr other ↦ check_var_refs-Owned id owners ancestors refs rest name (ground (arith))
    ]

pub Owned-check_var_refs :
    (id : String) (owners : Dict String) (ancestors refs : List String)
    → Owned owners ancestors refs
    → check_var_refs id owners ancestors refs ≡ returned tt
unfolding check_var_refs
Owned-check_var_refs id owners ancestors [] owned = refl
Owned-check_var_refs id owners ancestors (ref ∷ refs) owned =
    let (owner, found, above) = owned ref (ground (arith, eq_self ref)) in
    rw (found, above)
      (Owned-check_var_refs id owners ancestors refs (λ n m. owned n (ground (arith))))
