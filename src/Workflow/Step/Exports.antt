-- ===== src/Workflow/Step/Exports.antt =====
-- runner/test-workflow-exports.ts: what a node exports from a response.
use bumd.Prelude.{
  String, Option, none, some, List, [], ◌∷◌, ◌==◌, if◌then◌else◌, Dict, insert, Except, returned,
  thrown, ◌>>=◌, concat,
}
use bumd.Json.{Json, num, str}
use bumd.Workflow.Types.{ExportSource, WorkflowExport}
use bumd.Workflow.Step.Texts.{Texts}
use bumd.Workflow.Step.Paths.{PathError, path_message, resolve_path}
use bumd.Workflow.Step.Assertions.{ResolvedResponse, header_value}

-- What is thrown, with the code ExportFailed.
pub data ExportError : Type 0 where
  header_name_required : String → ExportError
  header_not_found : String → String → ExportError
  path_required : String → ExportError
  unresolved : String → PathError → ExportError

abbrev pub export_message : ExportError → String
export_message (header_name_required name) =
    concat "Export \"" (concat name "\": headerName is required for source \"header\"")
export_message (header_not_found name header_name) =
    concat "Export \""
      (concat name (concat "\": header \"" (concat header_name "\" not found in response")))
export_message (path_required name) =
    concat "Export \"" (concat name "\": path is required for source \"body\"")
export_message (unresolved name e) =
    concat "Export \"" (concat name (concat "\": " (path_message e)))

-- `!text`
abbrev pub given : Option String → Option String
given none = none
given (some text) = if text == "" then none else some text

abbrev pub found_header : String → String → Option String → Except ExportError Json
found_header name header_name none = thrown (header_not_found name header_name)
found_header name header_name (some value) = returned (str value)

abbrev pub of_path : String → Except PathError Json → Except ExportError Json
of_path name (returned value) = returned value
of_path name (thrown e) = thrown (unresolved name e)

module _ (texts : Texts) where
  abbrev pub export_header : String → Option String → ResolvedResponse → Except ExportError Json
  export_header name none response = thrown (header_name_required name)
  export_header name (some header_name) response =
      found_header name header_name (header_value texts header_name response.headers)

  abbrev pub export_body : String → Option String → ResolvedResponse → Except ExportError Json
  export_body name none response = thrown (path_required name)
  export_body name (some path) response = of_path name (resolve_path texts path response.body)

  unfoldable pub extract_export :
      String → ExportSource → WorkflowExport → ResolvedResponse → Except ExportError Json
  unfolding resolve_path
  extract_export name ExportSource.status exp response =
      returned (num (texts.number response.status))
  extract_export name ExportSource.header exp response =
      export_header name (given exp.header_name) response
  extract_export name ExportSource.body exp response = export_body name (given exp.path) response

  -- The loop of `extractExports`.
  unfoldable pub extract_into :
      Dict Json → List WorkflowExport → ResolvedResponse → Except ExportError (Dict Json)
  unfolding extract_export
  extract_into result [] response = returned result
  extract_into result (exp ∷ exports) response =
      extract_export exp.name exp.source exp response >>= λ value.
      extract_into (insert exp.name value result) exports response

  unfoldable pub extract_exports :
      List WorkflowExport → ResolvedResponse → Except ExportError (Dict Json)
  unfolding extract_into
  extract_exports exports response = extract_into [] exports response
