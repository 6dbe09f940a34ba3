-- ===== src/Workflow/Step/Errors.antt =====
-- What the interpolation of a template throws (runner/test-workflow-template.ts).
use bumd.Prelude.{String, Option, none, some, List, [], ◌∷◌, ◌≡◌, refl, subst, thrown, inl, inr}
use bumd.Json.{Json, Items, Fields, null, bool, num, str, arr, obj, nil, cons, end, field}
use bumd.Workflow.Step.Texts.{Match, Texts}
use bumd.Workflow.Step.Template.{
  InterpolationContext, CollectedRef, TemplateError, resolve_ref, embedded, replace_matches,
  interpolate_pure, interpolate_string, interpolate, interpolate_items, interpolate_fields,
  TemplateRefs, add_ref, collect_matches, collect_refs_from_value, collect_refs_from_items,
  collect_refs_from_fields, collect_template_refs,
}
use bumd.Workflow.Step.Refs.{
  Missing, Missing-Extends, thrown-injective, >>=-thrown, resolve_ref-Missing, add_ref-Names,
  collect_matches-Extends, collect_refs_from_items-Extends, collect_refs_from_fields-Extends,
}

module _ (texts : Texts) where
  embedded-Missing :
      (ctx : InterpolationContext) (refs : TemplateRefs) (m : Match) (v : Json) {e : TemplateError}
      → embedded texts m v ≡ thrown e
      → Missing ctx refs e
  embedded-Missing ctx refs m null h = cc
  embedded-Missing ctx refs m (bool b) h = cc
  embedded-Missing ctx refs m (num n) h = cc
  embedded-Missing ctx refs m (str s) h = cc
  embedded-Missing ctx refs m (arr vs) h = subst (Missing ctx refs) (thrown-injective h) tt
  embedded-Missing ctx refs m (obj fs) h = subst (Missing ctx refs) (thrown-injective h) tt

  replace_matches-Missing :
      (ctx : InterpolationContext) (refs : TemplateRefs) (ms : List Match) (result : String)
      (collected : List CollectedRef) {e : TemplateError}
      → replace_matches texts ctx ms result collected ≡ thrown e
      → Missing ctx (collect_matches texts refs ms) e
  unfolding replace_matches collect_matches
  replace_matches-Missing ctx refs [] result collected h = cc
  replace_matches-Missing ctx refs (m ∷ ms) result collected {e} h =
      let next = add_ref refs m.namespace m.key in
      elim (>>=-thrown (resolve_ref texts ctx m) _ h) [
        | inl missing ↦
            Missing-Extends ctx next _ e (collect_matches-Extends texts next ms)
              (resolve_ref-Missing texts ctx next m (add_ref-Names refs m.namespace m.key) missing)
        | inr (r, found, rest) ↦ elim (>>=-thrown (embedded texts m r.0) _ rest) [
          | inl not_text ↦ embedded-Missing ctx _ m r.0 not_text
          | inr (text, e, more) ↦ replace_matches-Missing ctx next ms _ _ more
        ]
      ]

-- A text that is one template has that template as its only match.
abbrev pub PureIsFound : Texts → Type 0
PureIsFound texts =
    (s : String) (m : Match) → texts.pure_template s ≡ some m → texts.all_templates s ≡ m ∷ []

module _ (texts : Texts) (pure_found : PureIsFound texts) where
  interpolate_pure-Missing :
      (ctx : InterpolationContext) (refs : TemplateRefs) (s : String) (o : Option Match)
      {e : TemplateError}
      → texts.pure_template s ≡ o
      → interpolate_pure texts ctx s o ≡ thrown e
      → Missing ctx (collect_matches texts refs (texts.all_templates s)) e
  unfolding collect_matches
  interpolate_pure-Missing ctx refs s none p h =
      replace_matches-Missing texts ctx refs (texts.all_templates s) s [] h
  interpolate_pure-Missing ctx refs s (some m) p h = rw (pure_found s m p) (
      resolve_ref-Missing texts ctx (add_ref refs m.namespace m.key) m
        (add_ref-Names refs m.namespace m.key) h)

  mutual
    unfolding interpolate interpolate_string collect_refs_from_value

    pub interpolate-Missing :
        (ctx : InterpolationContext) (refs : TemplateRefs) (v : Json) {e : TemplateError}
        → interpolate texts ctx v ≡ thrown e
        → Missing ctx (collect_refs_from_value texts refs v) e
    interpolate-Missing ctx refs (str s) h =
        interpolate_pure-Missing ctx refs s (texts.pure_template s) refl h
    interpolate-Missing ctx refs (arr vs) h =
        elim (>>=-thrown (interpolate_items texts ctx vs) _ h) [
          | inl missing ↦ interpolate_items-Missing ctx refs vs missing
          | inr (r, found, rest) ↦ cc
        ]
    interpolate-Missing ctx refs (obj fs) h =
        elim (>>=-thrown (interpolate_fields texts ctx fs) _ h) [
          | inl missing ↦ interpolate_fields-Missing ctx refs fs missing
          | inr (r, found, rest) ↦ cc
        ]
    interpolate-Missing ctx refs null h = cc
    interpolate-Missing ctx refs (bool b) h = cc
    interpolate-Missing ctx refs (num n) h = cc

    pub interpolate_items-Missing :
        (ctx : InterpolationContext) (refs : TemplateRefs) (vs : Items) {e : TemplateError}
        → interpolate_items texts ctx vs ≡ thrown e
        → Missing ctx (collect_refs_from_items texts refs vs) e
    interpolate_items-Missing ctx refs nil h = cc
    interpolate_items-Missing ctx refs (cons v vs) {e} h =
        let next = collect_refs_from_value texts refs v in
        elim (>>=-thrown (interpolate texts ctx v) _ h) [
          | inl missing ↦
              Missing-Extends ctx next _ e (collect_refs_from_items-Extends texts next vs)
                (interpolate-Missing ctx refs v missing)
          | inr (r, found, rest) ↦ elim (>>=-thrown (interpolate_items texts ctx vs) _ rest) [
            | inl missing ↦ interpolate_items-Missing ctx next vs missing
            | inr (q, also, last) ↦ cc
          ]
        ]

    pub interpolate_fields-Missing :
        (ctx : InterpolationContext) (refs : TemplateRefs) (fs : Fields) {e : TemplateError}
        → interpolate_fields texts ctx fs ≡ thrown e
        → Missing ctx (collect_refs_from_fields texts refs fs) e
    interpolate_fields-Missing ctx refs end h = cc
    interpolate_fields-Missing ctx refs (field k v fs) {e} h =
        let next = collect_refs_from_value texts refs v in
        elim (>>=-thrown (interpolate texts ctx v) _ h) [
          | inl missing ↦
              Missing-Extends ctx next _ e (collect_refs_from_fields-Extends texts next fs)
                (interpolate-Missing ctx refs v missing)
          | inr (r, found, rest) ↦ elim (>>=-thrown (interpolate_fields texts ctx fs) _ rest) [
            | inl missing ↦ interpolate_fields-Missing ctx next fs missing
            | inr (q, also, last) ↦ cc
          ]
        ]

  -- Where a text that is one template has no other match: an error of interpolation is about a
  -- reference that is collected from the value and that the context does not define, or about a list or
  -- an object inside a text.
  pub interpolate-collect_template_refs :
      (ctx : InterpolationContext) (v : Json) (e : TemplateError)
      → interpolate texts ctx v ≡ thrown e
      → Missing ctx (collect_template_refs texts v) e
  unfolding collect_template_refs
  interpolate-collect_template_refs ctx v e h = interpolate-Missing ctx _ v h
