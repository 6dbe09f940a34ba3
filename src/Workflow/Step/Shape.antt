-- ===== src/Workflow/Step/Shape.antt =====
-- Interpolation keeps the shape of a template (runner/test-workflow-template.ts).
use bumd.Prelude.{
  String, Option, none, some, List, [], ◌∷◌, ◌++◌, ◌==◌, if◌then◌else◌, lookup, ◌≡◌, refl, sym, ap,
  Except, returned, >>=-returned, returned-injective,
}
use bumd.Json.{Json, Items, Fields, null, bool, num, str, arr, obj, nil, cons, end, field}
use bumd.Workflow.Step.Texts.{TemplateNamespace, vars, env, data_ns, Match, Texts}
use bumd.Workflow.Step.Template.{
  InterpolationContext, CollectedRef, or_inherited, own_text, found_env, found_data, found_var,
  resolve_ref, embedded, replace_matches, interpolate_pure, interpolate_string, interpolate,
  interpolate_items, interpolate_fields,
}

-- What the context has under a reference, if anything: an own key or what every object inherits.
abbrev pub ref_value : Texts → InterpolationContext → Match → Option Json
ref_value texts ctx m = or_inherited texts m.key (own ctx m.namespace m.key)
  where
    own : InterpolationContext → TemplateNamespace → String → Option Json
    own ctx env key = own_text (lookup key ctx.env)
    own ctx data_ns key = lookup key ctx.data_values
    own ctx vars key = lookup key ctx.vars

-- The text of a value inside a text; lists and objects have none.
abbrev pub plain_text : Texts → Json → Option String
plain_text texts null = some ""
plain_text texts (arr vs) = none
plain_text texts (obj fs) = none
plain_text texts v = some (texts.to_text v)

-- The second text is the first with one match after the other replaced by the text of its value.
abbrev pub Filled : Texts → InterpolationContext → List Match → String → String → Type 0
Filled texts ctx [] s t = s ≡ t
Filled texts ctx (m ∷ ms) s t =
    (v : Json) × (u : String) × (ref_value texts ctx m ≡ some v)
    × (plain_text texts v ≡ some u)
    × Filled texts ctx ms (texts.replace s m.text u) t

-- What a text becomes, given whether it is one template.
abbrev pub HasText : Texts → InterpolationContext → String → Json → Option Match → Type 0
HasText texts ctx s w (some m) = ref_value texts ctx m ≡ some w
HasText texts ctx s w none =
    (t : String) × (w ≡ str t) × Filled texts ctx (texts.all_templates s) s t

-- The second value is the first, its templates filled from the context: lists have as many items and
-- objects the same keys in the same order, less a key `__proto__`, each of its shape, and what is no
-- text is the same.
abbrev mutual
  pub HasShape : Texts → InterpolationContext → Json → Json → Type 0
  HasShape texts ctx (str s) w = HasText texts ctx s w (texts.pure_template s)
  HasShape texts ctx (arr vs) w = (ws : Items) × (w ≡ arr ws) × HasItems texts ctx vs ws
  HasShape texts ctx (obj fs) w = (gs : Fields) × (w ≡ obj gs) × HasFields texts ctx fs gs
  HasShape texts ctx null w = w ≡ null
  HasShape texts ctx (bool b) w = w ≡ bool b
  HasShape texts ctx (num n) w = w ≡ num n

  pub HasItems : Texts → InterpolationContext → Items → Items → Type 0
  HasItems texts ctx nil us = us ≡ nil
  HasItems texts ctx (cons v vs) us =
      (w : Json) × (ws : Items) × (us ≡ cons w ws)
      × HasShape texts ctx v w
      × HasItems texts ctx vs ws

  pub HasFields : Texts → InterpolationContext → Fields → Fields → Type 0
  HasFields texts ctx end us = us ≡ end
  HasFields texts ctx (field k v fs) us =
      (w : Json) × (gs : Fields) × (us ≡ (if k == "__proto__" then gs else field k w gs))
      × HasShape texts ctx v w
      × HasFields texts ctx fs gs

first-eq :
    {A B : Type 0} {E : Type 0} {a b : A} {x y : B}
    → ◌≡◌ {A = Except E (A × B)} (returned (a, x)) (returned (b, y))
    → b ≡ a
first-eq h = sym (ap (λ r. r.0) (returned-injective h))

found_env-eq :
    (ctx : InterpolationContext) (key : String) (o : Option Json) {w : Json}
    {refs : List CollectedRef}
    → found_env ctx key o ≡ returned (w, refs)
    → o ≡ some w
found_env-eq ctx key none h = cc
found_env-eq ctx key (some v) h = sym (ap some (first-eq h))

found_data-eq :
    (key : String) (o : Option Json) {w : Json} {refs : List CollectedRef}
    → found_data key o ≡ returned (w, refs)
    → o ≡ some w
found_data-eq key none h = cc
found_data-eq key (some v) h = sym (ap some (first-eq h))

found_var-eq :
    (key : String) (o : Option Json) {w : Json} {refs : List CollectedRef}
    → found_var key o ≡ returned (w, refs)
    → o ≡ some w
found_var-eq key none h = cc
found_var-eq key (some v) h = sym (ap some (first-eq h))

module _ (texts : Texts) where
  resolve_fields-value :
      (ctx : InterpolationContext) (text : String) (namespace : TemplateNamespace) (key : String)
      {w : Json} {refs : List CollectedRef}
      → resolve_ref texts ctx (record { text = text; namespace = namespace; key = key })
        ≡ returned (w, refs)
      → ref_value texts ctx (record { text = text; namespace = namespace; key = key }) ≡ some w
  unfolding resolve_ref
  resolve_fields-value ctx text env key h = found_env-eq ctx key _ h
  resolve_fields-value ctx text data_ns key h = found_data-eq key _ h
  resolve_fields-value ctx text vars key h = found_var-eq key _ h

  resolve_ref-value :
      (ctx : InterpolationContext) (m : Match) {w : Json} {refs : List CollectedRef}
      → resolve_ref texts ctx m ≡ returned (w, refs)
      → ref_value texts ctx m ≡ some w
  resolve_ref-value ctx m h = resolve_fields-value ctx m.text m.namespace m.key h

  embedded-plain_text :
      (m : Match) (v : Json) {u : String}
      → embedded texts m v ≡ returned u
      → plain_text texts v ≡ some u
  embedded-plain_text m null h = ap some (returned-injective h)
  embedded-plain_text m (bool b) h = ap some (returned-injective h)
  embedded-plain_text m (num n) h = ap some (returned-injective h)
  embedded-plain_text m (str s) h = ap some (returned-injective h)
  embedded-plain_text m (arr vs) h = cc
  embedded-plain_text m (obj fs) h = cc

  replace_matches-Filled :
      (ctx : InterpolationContext) (ms : List Match) (s : String) (before : List CollectedRef)
      (w : Json) (refs : List CollectedRef)
      → replace_matches texts ctx ms s before ≡ returned (w, refs)
      → (t : String) × (w ≡ str t) × Filled texts ctx ms s t
  unfolding replace_matches
  replace_matches-Filled ctx [] s before w refs h = (s, first-eq h, refl)
  replace_matches-Filled ctx (m ∷ ms) s before w refs h =
      let (r, found, rest) = >>=-returned (resolve_ref texts ctx m) _ h in
      let (u, plain, last) = >>=-returned (embedded texts m r.0) _ rest in
      let (t, same, filled) =
        replace_matches-Filled ctx ms (texts.replace s m.text u) (before ++ r.1) w refs last in
      (t, same, (r.0, u, resolve_ref-value ctx m found, embedded-plain_text m r.0 plain, filled))

  interpolate_pure-HasText :
      (ctx : InterpolationContext) (s : String) (o : Option Match) (w : Json)
      (refs : List CollectedRef)
      → interpolate_pure texts ctx s o ≡ returned (w, refs)
      → HasText texts ctx s w o
  interpolate_pure-HasText ctx s none w refs h =
      replace_matches-Filled ctx (texts.all_templates s) s [] w refs h
  interpolate_pure-HasText ctx s (some m) w refs h = resolve_ref-value ctx m h

  mutual
    unfolding interpolate interpolate_string

    interpolate_shaped :
        (ctx : InterpolationContext) (v w : Json) (refs : List CollectedRef)
        → interpolate texts ctx v ≡ returned (w, refs)
        → HasShape texts ctx v w
    interpolate_shaped ctx (str s) w refs h =
        interpolate_pure-HasText ctx s (texts.pure_template s) w refs h
    interpolate_shaped ctx (arr vs) w refs h =
        let (r, found, rest) = >>=-returned (interpolate_items texts ctx vs) _ h in
        (r.0, first-eq rest, interpolate_items_shaped ctx vs r.0 r.1 found)
    interpolate_shaped ctx (obj fs) w refs h =
        let (r, found, rest) = >>=-returned (interpolate_fields texts ctx fs) _ h in
        (r.0, first-eq rest, interpolate_fields_shaped ctx fs r.0 r.1 found)
    interpolate_shaped ctx null w refs h = first-eq h
    interpolate_shaped ctx (bool b) w refs h = first-eq h
    interpolate_shaped ctx (num n) w refs h = first-eq h

    interpolate_items_shaped :
        (ctx : InterpolationContext) (vs ws : Items) (refs : List CollectedRef)
        → interpolate_items texts ctx vs ≡ returned (ws, refs)
        → HasItems texts ctx vs ws
    interpolate_items_shaped ctx nil ws refs h = first-eq h
    interpolate_items_shaped ctx (cons v vs) ws refs h =
        let (r, found, rest) = >>=-returned (interpolate texts ctx v) _ h in
        let (q, also, last) = >>=-returned (interpolate_items texts ctx vs) _ rest in
        (
          r.0,
          q.0,
          first-eq last,
          interpolate_shaped ctx v r.0 r.1 found,
          interpolate_items_shaped ctx vs q.0 q.1 also,
        )

    interpolate_fields_shaped :
        (ctx : InterpolationContext) (fs gs : Fields) (refs : List CollectedRef)
        → interpolate_fields texts ctx fs ≡ returned (gs, refs)
        → HasFields texts ctx fs gs
    interpolate_fields_shaped ctx end gs refs h = first-eq h
    interpolate_fields_shaped ctx (field k v fs) gs refs h =
        let (r, found, rest) = >>=-returned (interpolate texts ctx v) _ h in
        let (q, also, last) = >>=-returned (interpolate_fields texts ctx fs) _ rest in
        (
          r.0,
          q.0,
          first-eq last,
          interpolate_shaped ctx v r.0 r.1 found,
          interpolate_fields_shaped ctx fs q.0 q.1 also,
        )

  -- What a template is interpolated to: lists keep their length and objects their keys in order, less a
  -- key `__proto__`; what is no text stays; a text that is one template becomes the value that the
  -- context has under its name, with its type; any other text stays a text in which each match is
  -- replaced by the text of its value, and is the same text where there is no match.
  pub interpolate-HasShape :
      (ctx : InterpolationContext) (v w : Json) (refs : List CollectedRef)
      → interpolate texts ctx v ≡ returned (w, refs)
      → HasShape texts ctx v w
  interpolate-HasShape ctx v w refs h = interpolate_shaped ctx v w refs h
