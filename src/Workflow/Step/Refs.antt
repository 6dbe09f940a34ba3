-- ===== src/Workflow/Step/Refs.antt =====
-- The references that a template needs are those that are collected from it
-- (runner/test-workflow-template.ts).
use bumd.Prelude.{
  String, Bool, true, false, Option, none, some, List, [], ◌∷◌, ◌≡◌, ◌⊎◌, refl, ap, subst, arith,
  contains, if◌then◌else◌, contains-add, eq_self, lookup, Except, returned, thrown, ◌>>=◌, inl, inr,
}
use bumd.Json.{
  Json, Items, Fields, null, bool, num, str, arr, obj, nil, cons, end, field, object_prototype,
}
use bumd.Workflow.Step.Texts.{TemplateNamespace, vars, env, data_ns, Match, Texts}
use bumd.Workflow.Step.Template.{
  InterpolationContext, TemplateError, env_var_missing, test_data_missing, var_ref_invalid,
  cannot_embed, resolve_ref, or_inherited, own_text, found_env, found_data, found_var, TemplateRefs,
  add_ref, collect_matches, collect_refs_from_value, collect_refs_from_items,
  collect_refs_from_fields,
}

abbrev pub names : TemplateRefs → TemplateNamespace → List String
names refs vars = refs.var_refs
names refs env = refs.env_refs
names refs data_ns = refs.data_refs

abbrev pub Names : TemplateRefs → TemplateNamespace → String → Type 0
Names refs namespace key = contains (names refs namespace) key ≡ true

-- Neither an own key nor one that every object inherits.
abbrev pub NotFound : {A : Type 0} → String → Option A → Type 0
NotFound key own = (own ≡ none) × (contains object_prototype key ≡ false)

-- The error is of a reference among these that the context does not define, or of a list or an object
-- inside a text.
abbrev pub Missing : InterpolationContext → TemplateRefs → TemplateError → Type 0
Missing ctx refs (env_var_missing key) = Names refs env key × NotFound key (lookup key ctx.env)
Missing ctx refs (test_data_missing key) =
    Names refs data_ns key × NotFound key (lookup key ctx.data_values)
Missing ctx refs (var_ref_invalid key) = Names refs vars key × NotFound key (lookup key ctx.vars)
Missing ctx refs (cannot_embed text) = Unit {0}

abbrev pub Extends : TemplateRefs → TemplateRefs → Type 0
Extends refs more =
    (namespace : TemplateNamespace) (key : String)
    → Names refs namespace key
    → Names more namespace key

pub Missing-Extends :
    (ctx : InterpolationContext) (refs more : TemplateRefs) (e : TemplateError)
    → Extends refs more
    → Missing ctx refs e
    → Missing ctx more e
Missing-Extends ctx refs more (env_var_missing key) up (h, l) = (up env key h, l)
Missing-Extends ctx refs more (test_data_missing key) up (h, l) = (up data_ns key h, l)
Missing-Extends ctx refs more (var_ref_invalid key) up (h, l) = (up vars key h, l)
Missing-Extends ctx refs more (cannot_embed text) up h = tt

add_ref-Extends :
    (refs : TemplateRefs) (namespace : TemplateNamespace) (key : String)
    → Extends refs (add_ref refs namespace key)
add_ref-Extends refs env key env k h = ground (arith, contains-add refs.env_refs key k)
add_ref-Extends refs env key vars k h = h
add_ref-Extends refs env key data_ns k h = h
add_ref-Extends refs vars key env k h = h
add_ref-Extends refs vars key vars k h = ground (arith, contains-add refs.var_refs key k)
add_ref-Extends refs vars key data_ns k h = h
add_ref-Extends refs data_ns key env k h = h
add_ref-Extends refs data_ns key vars k h = h
add_ref-Extends refs data_ns key data_ns k h = ground (arith, contains-add refs.data_refs key k)

pub add_ref-Names :
    (refs : TemplateRefs) (namespace : TemplateNamespace) (key : String)
    → Names (add_ref refs namespace key) namespace key
add_ref-Names refs env key = ground (arith, contains-add refs.env_refs key key, eq_self key)
add_ref-Names refs vars key = ground (arith, contains-add refs.var_refs key key, eq_self key)
add_ref-Names refs data_ns key = ground (arith, contains-add refs.data_refs key key, eq_self key)

pub thrown-injective : {A E : Type 0} {d e : E} → ◌≡◌ {A = Except E A} (thrown d) (thrown e) → d ≡ e
thrown-injective h = cc

if_none : {A : Type 0} (b : Bool) (v : A) → (if b then some v else none) ≡ none → b ≡ false
if_none true v h = cc
if_none false v h = refl

or_inherited-none :
    (texts : Texts) (key : String) (own : Option Json)
    → or_inherited texts key own ≡ none
    → NotFound key own
or_inherited-none texts key none h = (refl, if_none _ _ h)
or_inherited-none texts key (some v) h = cc

own_text-none : (own : Option String) → own_text own ≡ none → own ≡ none
own_text-none none h = refl
own_text-none (some v) h = cc

module _ (texts : Texts) (ctx : InterpolationContext) (refs : TemplateRefs) (key : String) where
  found_env-Missing :
      (o : Option Json) {e : TemplateError}
      → or_inherited texts key (own_text (lookup key ctx.env)) ≡ o
      → Names refs env key
      → found_env ctx key o ≡ thrown e
      → Missing ctx refs e
  found_env-Missing none l n h =
      let (own, inherited) = or_inherited-none texts key (own_text (lookup key ctx.env)) l in
      subst (Missing ctx refs) (thrown-injective h)
        (n, (own_text-none (lookup key ctx.env) own, inherited))
  found_env-Missing (some v) l n h = cc

  found_data-Missing :
      (o : Option Json) {e : TemplateError}
      → or_inherited texts key (lookup key ctx.data_values) ≡ o
      → Names refs data_ns key
      → found_data key o ≡ thrown e
      → Missing ctx refs e
  found_data-Missing none l n h =
      subst (Missing ctx refs) (thrown-injective h) (n, or_inherited-none texts key _ l)
  found_data-Missing (some v) l n h = cc

  found_var-Missing :
      (o : Option Json) {e : TemplateError}
      → or_inherited texts key (lookup key ctx.vars) ≡ o
      → Names refs vars key
      → found_var key o ≡ thrown e
      → Missing ctx refs e
  found_var-Missing none l n h =
      subst (Missing ctx refs) (thrown-injective h) (n, or_inherited-none texts key _ l)
  found_var-Missing (some v) l n h = cc

pub >>=-thrown :
    {E A B : Type 0} (m : Except E A) (f : A → Except E B) {e : E}
    → (m >>= f) ≡ thrown e
    → (m ≡ thrown e) ⊎ ((a : A) × (m ≡ returned a) × (f a ≡ thrown e))
>>=-thrown (returned a) f h = inr (a, refl, h)
>>=-thrown (thrown d) f h = inl (ap thrown (thrown-injective h))

module _ (texts : Texts) where
  -- For the fields of a match.
  resolve_fields-Missing :
      (ctx : InterpolationContext) (refs : TemplateRefs) (text : String)
      (namespace : TemplateNamespace) (key : String) {e : TemplateError}
      → Names refs namespace key
      → resolve_ref texts ctx (record { text = text; namespace = namespace; key = key }) ≡ thrown e
      → Missing ctx refs e
  unfolding resolve_ref
  resolve_fields-Missing ctx refs text env key n h = found_env-Missing texts ctx refs key _ refl n h
  resolve_fields-Missing ctx refs text data_ns key n h =
      found_data-Missing texts ctx refs key _ refl n h
  resolve_fields-Missing ctx refs text vars key n h =
      found_var-Missing texts ctx refs key _ refl n h

  pub resolve_ref-Missing :
      (ctx : InterpolationContext) (refs : TemplateRefs) (m : Match) {e : TemplateError}
      → Names refs m.namespace m.key
      → resolve_ref texts ctx m ≡ thrown e
      → Missing ctx refs e
  resolve_ref-Missing ctx refs m n h = resolve_fields-Missing ctx refs m.text m.namespace m.key n h

  pub collect_matches-Extends :
      (refs : TemplateRefs) (ms : List Match) → Extends refs (collect_matches texts refs ms)
  unfolding collect_matches
  collect_matches-Extends refs [] ns k h = h
  collect_matches-Extends refs (m ∷ ms) ns k h =
      collect_matches-Extends (add_ref refs m.namespace m.key) ms ns k
        (add_ref-Extends refs m.namespace m.key ns k h)

  mutual
    unfolding collect_refs_from_value

    pub collect_refs_from_value-Extends :
        (refs : TemplateRefs) (v : Json) → Extends refs (collect_refs_from_value texts refs v)
    collect_refs_from_value-Extends refs (str s) ns k h =
        collect_matches-Extends refs (texts.all_templates s) ns k h
    collect_refs_from_value-Extends refs (arr vs) ns k h =
        collect_refs_from_items-Extends refs vs ns k h
    collect_refs_from_value-Extends refs (obj fs) ns k h =
        collect_refs_from_fields-Extends refs fs ns k h
    collect_refs_from_value-Extends refs null ns k h = h
    collect_refs_from_value-Extends refs (bool b) ns k h = h
    collect_refs_from_value-Extends refs (num n) ns k h = h

    pub collect_refs_from_items-Extends :
        (refs : TemplateRefs) (vs : Items) → Extends refs (collect_refs_from_items texts refs vs)
    collect_refs_from_items-Extends refs nil ns k h = h
    collect_refs_from_items-Extends refs (cons v vs) ns k h =
        collect_refs_from_items-Extends (collect_refs_from_value texts refs v) vs ns k
          (collect_refs_from_value-Extends refs v ns k h)

    pub collect_refs_from_fields-Extends :
        (refs : TemplateRefs) (fs : Fields) → Extends refs (collect_refs_from_fields texts refs fs)
    collect_refs_from_fields-Extends refs end ns k h = h
    collect_refs_from_fields-Extends refs (field name v fs) ns k h =
        collect_refs_from_fields-Extends (collect_refs_from_value texts refs v) fs ns k
          (collect_refs_from_value-Extends refs v ns k h)
