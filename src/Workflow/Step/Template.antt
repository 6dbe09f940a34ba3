-- ===== src/Workflow/Step/Template.antt =====
-- runner/test-workflow-template.ts: templates in a value are replaced by variables of the run, of the
-- environment and of the test data.
use bumd.Prelude.{
  String, Bool, true, false, Option, none, some, List, [], ◌∷◌, ◌++◌, if◌then◌else◌, contains, add,
  Dict, lookup, Except, returned, thrown, ◌>>=◌,
}
use bumd.Json.{
  Json, Items, Fields, null, bool, num, str, arr, obj, nil, cons, end, field, object_prototype,
  with_field,
}
use bumd.Workflow.Step.Texts.{TemplateNamespace, vars, env, data_ns, Match, Texts}

pub record InterpolationContext : Type 0 where
  pub vars : Dict Json
  pub env : Dict String
  pub data_values : Dict Json
  pub secret_keys : List String

pub data CollectedRef : Type 0 where
  env_ref : String → Bool → CollectedRef
  data_ref : String → Json → CollectedRef
  var_ref : String → Json → CollectedRef

pub data CollectedInput : Type 0 where
  env_input : String → Option String → CollectedInput
  data_input : String → Json → CollectedInput
  var_input : String → Json → CollectedInput

-- The errors of templates, with their codes EnvVarMissing, TestDataMissing and VarRefInvalid.
pub data TemplateError : Type 0 where
  env_var_missing : String → TemplateError
  test_data_missing : String → TemplateError
  var_ref_invalid : String → TemplateError  -- not available at this step
  cannot_embed : String → TemplateError

-- A value, with the refs that were collected on the way.
abbrev pub Resolved : Type 0 → Type 0
Resolved A = Except TemplateError (A × List CollectedRef)

abbrev pub redacted : String
redacted = "[REDACTED]"

abbrev pub to_input : Dict String → CollectedRef → CollectedInput
to_input env_values (env_ref key true) = env_input key (some redacted)
to_input env_values (env_ref key false) = env_input key (lookup key env_values)
to_input env_values (data_ref key value) = data_input key value
to_input env_values (var_ref name value) = var_input name value

unfoldable pub collected_refs_to_inputs : List CollectedRef → Dict String → List CollectedInput
collected_refs_to_inputs [] env_values = []
collected_refs_to_inputs (ref ∷ refs) env_values =
    to_input env_values ref ∷ collected_refs_to_inputs refs env_values

abbrev pub found_env : InterpolationContext → String → Option Json → Resolved Json
found_env ctx key none = thrown (env_var_missing key)
found_env ctx key (some value) = returned (value, env_ref key (contains ctx.secret_keys key) ∷ [])

abbrev pub found_data : String → Option Json → Resolved Json
found_data key none = thrown (test_data_missing key)
found_data key (some value) = returned (value, data_ref key value ∷ [])

abbrev pub found_var : String → Option Json → Resolved Json
found_var key none = thrown (var_ref_invalid key)
found_var key (some value) = returned (value, var_ref key value ∷ [])

-- The keys of each namespace, each once.
pub record TemplateRefs : Type 0 where
  pub data_refs : List String
  pub env_refs : List String
  pub var_refs : List String

abbrev pub add_ref : TemplateRefs → TemplateNamespace → String → TemplateRefs
add_ref refs env key = record refs { env_refs = add refs.env_refs key }
add_ref refs data_ns key = record refs { data_refs = add refs.data_refs key }
add_ref refs vars key = record refs { var_refs = add refs.var_refs key }

-- `value[key]`: an own key, or what every object inherits.
abbrev pub or_inherited : Texts → String → Option Json → Option Json
or_inherited texts key (some value) = some value
or_inherited texts key none =
    if contains object_prototype key then some (texts.inherited key) else none

abbrev pub own_text : Option String → Option Json
own_text none = none
own_text (some value) = some (str value)

module _ (texts : Texts) where
  unfoldable pub resolve_ref : InterpolationContext → Match → Resolved Json
  resolve_ref ctx match_found = elim match_found.namespace [
    | env ↦
        found_env ctx match_found.key
          (or_inherited texts match_found.key (own_text (lookup match_found.key ctx.env)))
    | data_ns ↦
        found_data match_found.key
          (or_inherited texts match_found.key (lookup match_found.key ctx.data_values))
    | vars ↦
        found_var match_found.key
          (or_inherited texts match_found.key (lookup match_found.key ctx.vars))
  ]

  -- `resolved === null ? "" : String(resolved)`, for what may be embedded.
  abbrev pub embedded : Match → Json → Except TemplateError String
  embedded match_found null = returned ""
  embedded match_found (arr vs) = thrown (cannot_embed match_found.text)
  embedded match_found (obj fs) = thrown (cannot_embed match_found.text)
  embedded match_found value = returned (texts.to_text value)

  -- The loop over the matches.
  unfoldable pub replace_matches :
      InterpolationContext → List Match → String → List CollectedRef → Resolved Json
  unfolding resolve_ref
  replace_matches ctx [] result refs = returned (str result, refs)
  replace_matches ctx (match_found ∷ matches) result refs = do
    resolved ← resolve_ref ctx match_found
    text ← embedded match_found resolved.0
    replace_matches ctx matches (texts.replace result match_found.text text) (refs ++ resolved.1)

  abbrev pub interpolate_embedded : InterpolationContext → String → Resolved Json
  interpolate_embedded ctx value = replace_matches ctx (texts.all_templates value) value []

  abbrev pub interpolate_pure : InterpolationContext → String → Option Match → Resolved Json
  interpolate_pure ctx value none = interpolate_embedded ctx value
  interpolate_pure ctx value (some match_found) = resolve_ref ctx match_found

  -- `interpolateString`
  unfoldable pub interpolate_string : InterpolationContext → String → Resolved Json
  unfolding replace_matches resolve_ref
  interpolate_string ctx value = interpolate_pure ctx value (texts.pure_template value)

  -- `interpolate`; refs are collected in the order of the value.
  unfoldable mutual
    pub interpolate : InterpolationContext → Json → Resolved Json
    interpolate ctx (str value) = interpolate_string ctx value
    interpolate ctx (arr vs) = interpolate_items ctx vs >>= λ r. returned (arr r.0, r.1)
    interpolate ctx (obj fs) = interpolate_fields ctx fs >>= λ r. returned (obj r.0, r.1)
    interpolate ctx null = returned (null, [])
    interpolate ctx (bool b) = returned (bool b, [])
    interpolate ctx (num n) = returned (num n, [])

    pub interpolate_items : InterpolationContext → Items → Resolved Items
    interpolate_items ctx nil = returned (nil, [])
    interpolate_items ctx (cons v vs) = interpolate ctx v >>= λ r.
        interpolate_items ctx vs >>= λ rest. returned (cons r.0 rest.0, r.1 ++ rest.1)

    pub interpolate_fields : InterpolationContext → Fields → Resolved Fields
    interpolate_fields ctx end = returned (end, [])
    interpolate_fields ctx (field k v fs) = interpolate ctx v >>= λ r.
        interpolate_fields ctx fs >>= λ rest. returned (with_field k r.0 rest.0, r.1 ++ rest.1)

  -- The loop over the matches of a text.
  unfoldable pub collect_matches : TemplateRefs → List Match → TemplateRefs
  collect_matches refs [] = refs
  collect_matches refs (match_found ∷ matches) =
      collect_matches (add_ref refs match_found.namespace match_found.key) matches

  -- `collectRefsFromValue`
  unfoldable mutual
    pub collect_refs_from_value : TemplateRefs → Json → TemplateRefs
    collect_refs_from_value refs (str value) = collect_matches refs (texts.all_templates value)
    collect_refs_from_value refs (arr vs) = collect_refs_from_items refs vs
    collect_refs_from_value refs (obj fs) = collect_refs_from_fields refs fs
    collect_refs_from_value refs null = refs
    collect_refs_from_value refs (bool b) = refs
    collect_refs_from_value refs (num n) = refs

    pub collect_refs_from_items : TemplateRefs → Items → TemplateRefs
    collect_refs_from_items refs nil = refs
    collect_refs_from_items refs (cons v vs) =
        collect_refs_from_items (collect_refs_from_value refs v) vs

    pub collect_refs_from_fields : TemplateRefs → Fields → TemplateRefs
    collect_refs_from_fields refs end = refs
    collect_refs_from_fields refs (field k v fs) =
        collect_refs_from_fields (collect_refs_from_value refs v) fs

  unfoldable pub collect_template_refs : Json → TemplateRefs
  unfolding collect_refs_from_value collect_matches
  collect_template_refs value =
      collect_refs_from_value (record { data_refs = []; env_refs = []; var_refs = [] }) value
