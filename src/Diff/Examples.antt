-- ===== src/Diff/Examples.antt =====
-- Runs of the comparison on small specifications, and its theorems applied to them.
use bumd.Prelude.{
  String, true, not, ◌&&◌, ◌⊎◌, [], ◌∷◌, map, Dict, Distinct, keys, Except, returned, thrown, ◌≡◌,
  refl,
}
use bumd.Json.{Json, str, obj, bool, arr, cons, nil, from_dict}
use bumd.Diff.Types.{
  DiffEngineResult, breaking, removed_endpoint, added_endpoint, added_required_parameter,
  response_type_changed, added_optional_field,
}
use bumd.Diff.Compare.{
  paths_of, classify_open_api_specs, classification_of, render_markdown, OasdiffError, unavailable,
  compare_open_api_specs,
}
use bumd.Diff.Endpoints.{reports, has_operation, reports-classify_open_api_specs}
use bumd.Diff.Severity.{Classifies, compare_open_api_specs-Classifies}
use bumd.Diff.Same.{classify_open_api_specs_self}

abbrev object : Dict Json → Json
object d = obj (from_dict d)

-- A response "200" with one field of this type.
abbrev returning : String → String → Dict Json → Json
returning name type_name rest = object (
    (
      "responses",
      object (
          (
            "200",
            object (
                (
                  "content",
                  object (
                      (
                        "application/json",
                        object (
                            (
                              "schema",
                              object (
                                  (
                                    "properties",
                                    object ((name, object (("type", str type_name) ∷ [])) ∷ rest),
                                  )
                                  ∷ []),
                            )
                            ∷ []),
                      )
                      ∷ []),
                )
                ∷ []),
          )
          ∷ []),
    )
    ∷ [])

abbrev with_paths : Dict Json → Json
with_paths paths = object (("paths", object paths) ∷ [])

abbrev old_spec : Json
old_spec =
    with_paths
      (("/pets", object (("get", returning "id" "integer" []) ∷ ("delete", object []) ∷ [])) ∷ [])

abbrev id_parameter : Json
id_parameter = object (("name", str "id") ∷ ("in", str "query") ∷ ("required", bool true) ∷ [])

abbrev new_spec : Json
new_spec = with_paths (
    (
      "/pets",
      object (
          ("get", returning "id" "string" (("name", object []) ∷ []))
          ∷ ("post", object (("parameters", arr (cons id_parameter nil)) ∷ []))
          ∷ []),
    )
    ∷ [])

-- One change of each kind.
changes_found :
    map (λ c. c.kind) (classify_open_api_specs old_spec new_spec)
    ≡ removed_endpoint ∷ added_endpoint ∷ added_required_parameter ∷ response_type_changed
      ∷ added_optional_field ∷ []
unfolding classify_open_api_specs
changes_found = refl

classification_found : classification_of (classify_open_api_specs old_spec new_spec) ≡ breaking
unfolding classify_open_api_specs classification_of
classification_found = refl

message_found :
    render_markdown breaking (classify_open_api_specs old_spec (with_paths []))
    ≡ "## Breaking changes\n- GET /pets was removed\n- DELETE /pets was removed\n\n## Removed operations\n- GET /pets was removed\n- DELETE /pets was removed"
unfolding classify_open_api_specs render_markdown
message_found = refl

old_paths : Distinct (keys (paths_of old_spec))
unfolding paths_of
old_paths = (refl, tt)

new_paths : Distinct (keys (paths_of new_spec))
unfolding paths_of
new_paths = (refl, tt)

classify_open_api_specs_self_example : classify_open_api_specs new_spec new_spec ≡ []
classify_open_api_specs_self_example = classify_open_api_specs_self new_spec new_paths

reports-classify_open_api_specs_example :
    (reports removed_endpoint "/pets" "delete" (classify_open_api_specs old_spec new_spec) ≡ (
      has_operation (paths_of old_spec) "/pets" "delete"
      && not (has_operation (paths_of new_spec) "/pets" "delete")))
    × (reports added_endpoint "/pets" "delete" (classify_open_api_specs old_spec new_spec) ≡ (
        has_operation (paths_of new_spec) "/pets" "delete"
        && not (has_operation (paths_of old_spec) "/pets" "delete")))
reports-classify_open_api_specs_example =
    reports-classify_open_api_specs old_spec new_spec "/pets" "delete" old_paths new_paths

compare_open_api_specs-Classifies_example :
    ((result : DiffEngineResult) × (compare_open_api_specs old_spec new_spec (thrown unavailable)
        ≡ returned result)
      × Classifies (classify_open_api_specs old_spec new_spec) result)
    ⊎ (◌≡◌ {A = Except OasdiffError Json} (thrown unavailable) (thrown OasdiffError.failed))
compare_open_api_specs-Classifies_example =
    compare_open_api_specs-Classifies old_spec new_spec (thrown unavailable)
