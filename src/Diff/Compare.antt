-- ===== src/Diff/Compare.antt =====
-- packages/diff-engine/src: `classifyOpenApiSpecs` and `classificationFor` of classifier.ts,
-- diff-engine.ts and markdown.ts.
use bumd.Prelude.{
  String, Bool, true, false, not, none, some, List, [], ◌∷◌, ◌++◌, map, ◌==◌, if◌then◌else◌, any,
  filter, Dict, Except, returned, thrown, ◌>>=◌, concat, join,
}
use bumd.Json.{Json, bool, obj, field, end}
use bumd.Diff.Types.{
  DiffEngineClassification, non_breaking, warning, breaking, DiffChangeKind, removed_endpoint,
  added_endpoint, added_required_parameter, response_type_changed, added_optional_field, DiffChange,
  DiffEngineResult,
}
use bumd.Diff.Records.{read_record}
use bumd.Diff.{endpoint_changes, required_parameter_changes}
use bumd.Diff.Responses.{entries_or_empty, response_schema_changes}

-- `readRecord(spec, "paths") ?? {}`
unfoldable pub paths_of : Json → Dict Json
unfolding read_record
paths_of spec = entries_or_empty (read_record spec "paths")

unfoldable pub classify_open_api_specs : Json → Json → List DiffChange
unfolding paths_of endpoint_changes required_parameter_changes response_schema_changes
classify_open_api_specs base revision =
    endpoint_changes (paths_of base) (paths_of revision)
    ++ (required_parameter_changes (paths_of base) (paths_of revision)
        ++ response_schema_changes base (paths_of base) revision (paths_of revision))

abbrev pub is_breaking : DiffEngineClassification → Bool
is_breaking breaking = true
is_breaking _ = false

abbrev pub is_warning : DiffEngineClassification → Bool
is_warning warning = true
is_warning _ = false

unfoldable pub classification_for : List DiffChange → DiffEngineClassification
classification_for changes =
    if any (λ change. is_breaking change.severity) changes
    then breaking
    else (if any (λ change. is_warning change.severity) changes then warning else non_breaking)

-- `changes.length === 0 ? None : classificationFor(changes)`
unfoldable pub classification_of : List DiffChange → DiffEngineClassification
unfolding classification_for
classification_of [] = DiffEngineClassification.none
classification_of (change ∷ changes) = classification_for (change ∷ changes)

unfoldable pub render_section : String → List DiffChange → String
render_section title [] = ""
render_section title (change ∷ changes) =
    join "\n" (concat "## " title ∷ map (λ change. concat "- " change.message) (change ∷ changes))

abbrev pub is_added : DiffChangeKind → Bool
is_added added_endpoint = true
is_added _ = false

abbrev pub is_removed : DiffChangeKind → Bool
is_removed removed_endpoint = true
is_removed _ = false

-- `changedOperationKinds.has(kind)`
abbrev pub is_changed : DiffChangeKind → Bool
is_changed added_required_parameter = true
is_changed response_type_changed = true
is_changed added_optional_field = true
is_changed _ = false

unfoldable pub render_grouped_markdown : List DiffChange → String
unfolding render_section
render_grouped_markdown changes = join "\n\n" (
    filter (λ section. not (section == ""))
      (render_section "Breaking changes" (filter (λ c. is_breaking c.severity) changes)
        ∷ render_section "Added operations" (filter (λ c. is_added c.kind) changes)
        ∷ render_section "Changed operations" (filter (λ c. is_changed c.kind) changes)
        ∷ render_section "Removed operations" (filter (λ c. is_removed c.kind) changes)
        ∷ render_section "Unknown changes" (filter (λ c. is_warning c.severity) changes)
        ∷ []))

unfoldable pub render_markdown : DiffEngineClassification → List DiffChange → String
unfolding render_grouped_markdown
render_markdown DiffEngineClassification.none changes =
    "## No functional changes\n\nNo functional OpenAPI changes were detected."
render_markdown classification changes = render_grouped_markdown changes

abbrev pub initial_diff : DiffEngineResult
initial_diff = record {
  classification = DiffEngineClassification.none;
  has_breaking = false;
  diff_json = record { changes = []; oasdiff = none };
  markdown = "## Initial version\n\nNo previous version exists on this branch.";
}

-- What the program oasdiff fails with.
pub data OasdiffError : Type 0 where
  unavailable failed : OasdiffError

-- `readOasdiffOutput`, the JSON.
abbrev pub read_oasdiff_output : Except OasdiffError Json → Except OasdiffError Json
read_oasdiff_output (thrown OasdiffError.unavailable) =
    returned (obj (field "unavailable" (bool true) end))
read_oasdiff_output result = result

-- `compareOpenApiSpecs`, from the parsed specifications and the result of oasdiff.
unfoldable pub compare_open_api_specs :
    Json → Json → Except OasdiffError Json → Except OasdiffError DiffEngineResult
unfolding classify_open_api_specs classification_of render_markdown
compare_open_api_specs base revision oasdiff = do
  let changes = classify_open_api_specs base revision
  let classification = classification_of changes
  raw ← read_oasdiff_output oasdiff
  returned (record {
    classification = classification;
    has_breaking = is_breaking classification;
    diff_json = record { changes = changes; oasdiff = some raw };
    markdown = render_markdown classification changes;
  })
