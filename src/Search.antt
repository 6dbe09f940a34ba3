-- ===== src/Search.antt =====
-- The index of operations (apps/backend/src/search): the documents of a specification
-- (openapi-search-extractor.ts) and the index in memory (in-memory-search-index.ts). The id of a version
-- as a text, the fallback name of a path, and the lower case of a text are parameters.
pub mod Replace
pub mod Refine
mod Examples
use bumd.Prelude.{
  ℕ, String, Bool, true, false, not, ◌&&◌, ◌||◌, Option, none, some, List, [], ◌∷◌, ◌++◌, ◌==◌,
  if◌then◌else◌, eqb, filter, Dict, lookup, insert, values, concat, join,
}
use bumd.Json.{Json, Fields, str, arr, obj, entries, items}
use bumd.Diff.{http_methods, upper_case}

-- The version of a document, as far as the index reads it.
pub record Indexed : Type 0 where
  pub organization_id : String
  pub doc_id : String
  pub branch_id : String
  pub version_id : ℕ

pub record SearchDocument : Type 0 where
  pub version : Indexed
  pub operation_id : String
  pub method : String
  pub path : String
  pub tags : List String
  pub summary : String
  pub description : String
  pub anchor : String

abbrev pub string_value : Option Json → Option String
string_value (some (str s)) = some s
string_value _ = none

abbrev pub or_default : Option String → String → String
or_default none default = default
or_default (some s) default = s

abbrev pub strings : List Json → List String
strings [] = []
strings (str s ∷ vs) = s ∷ strings vs
strings (v ∷ vs) = strings vs

abbrev pub string_array : Option Json → List String
string_array (some (arr vs)) = strings (items vs)
string_array _ = []

-- `fallback_id path` is `path.replace(/[^a-z0-9]+/giu, "-")`.
module _ (fallback_id : String → String) where
  unfoldable pub document_of : Indexed → String → String → Dict Json → SearchDocument
  document_of version path method operation =
      let operation_id =
        or_default (string_value (lookup "operationId" operation))
          (concat method (concat "-" (fallback_id path))) in
      record {
        version = version;
        operation_id = operation_id;
        method = upper_case method;
        path = path;
        tags = string_array (lookup "tags" operation);
        summary = or_default (string_value (lookup "summary" operation)) operation_id;
        description = or_default (string_value (lookup "description" operation)) "";
        anchor = concat "operation-" operation_id;
      }

  -- The inner function of `extractOpenApiSearchDocuments`, for one method.
  abbrev pub operation_documents : Indexed → String → String → Option Json → List SearchDocument
  operation_documents version path method (some (obj operation)) =
      document_of version path method (entries operation) ∷ []
  operation_documents version path method _ = []

  unfoldable pub method_documents : Indexed → String → Dict Json → List String → List SearchDocument
  unfolding document_of
  method_documents version path path_item [] = []
  method_documents version path path_item (method ∷ methods) =
      operation_documents version path method (lookup method path_item)
      ++ method_documents version path path_item methods

  unfoldable pub path_documents : Indexed → Dict Json → List SearchDocument
  unfolding method_documents
  path_documents version [] = []
  path_documents version ((path, obj path_item) ∷ paths) =
      method_documents version path (entries path_item) http_methods ++ path_documents version paths
  path_documents version ((path, _) ∷ paths) = path_documents version paths

  abbrev pub documents_of_paths : Indexed → Option Json → List SearchDocument
  documents_of_paths version (some (obj paths)) = path_documents version (entries paths)
  documents_of_paths version _ = []

  unfoldable pub extract_open_api_search_documents : Indexed → Json → List SearchDocument
  unfolding path_documents
  extract_open_api_search_documents version (obj spec) =
      documents_of_paths version (lookup "paths" (entries spec))
  extract_open_api_search_documents version _ = []

-- The documents of one branch of one doc.
abbrev pub same_branch : Indexed → SearchDocument → Bool
same_branch version document =
    document.version.organization_id == version.organization_id
    && (document.version.doc_id == version.doc_id
        && document.version.branch_id == version.branch_id)

abbrev pub SearchIndex : Type 0
SearchIndex = Dict SearchDocument

-- The first loop of `replaceVersionDocuments`.
unfoldable pub delete_branch : Indexed → SearchIndex → SearchIndex
delete_branch version [] = []
delete_branch version ((key, document) ∷ index) =
    let rest = delete_branch version index in
    if same_branch version document then rest else (key, document) ∷ rest

module _ (version_text : ℕ → String) where
  unfoldable pub document_key : SearchDocument → String
  document_key document = join ":" (
      version_text document.version.version_id
      ∷ document.operation_id
      ∷ document.method
      ∷ document.path
      ∷ [])

  -- The second loop.
  unfoldable pub set_documents : List SearchDocument → SearchIndex → SearchIndex
  unfolding document_key
  set_documents [] index = index
  set_documents (document ∷ documents) index =
      set_documents documents (insert (document_key document) document index)

  unfoldable pub replace_version_documents :
      Indexed → List SearchDocument → SearchIndex → SearchIndex
  unfolding delete_branch set_documents
  replace_version_documents version documents index =
      set_documents documents (delete_branch version index)

pub record SearchInput : Type 0 where
  pub organization_id : String
  pub doc_id : String
  pub branch_id : Option String
  pub version_id : Option ℕ
  pub query : String

abbrev pub matches_branch : Option String → SearchDocument → Bool
matches_branch none document = true
matches_branch (some branch_id) document = document.version.branch_id == branch_id

abbrev pub matches_version : Option ℕ → SearchDocument → Bool
matches_version none document = true
matches_version (some version_id) document = eqb document.version.version_id version_id

unfoldable pub matches_input : SearchInput → SearchDocument → Bool
matches_input input document =
    document.version.organization_id == input.organization_id
    && (document.version.doc_id == input.doc_id
        && (matches_branch input.branch_id document && matches_version input.version_id document))

-- `lower` is `toLocaleLowerCase`, `trim` is `trim`, and `includes haystack query` is `haystack.includes(query)`.
module _ (lower trim : String → String) (includes : String → String → Bool) where
  unfoldable pub matches_query : String → SearchDocument → Bool
  matches_query query document =
      query == ""
      || includes
          (lower (
            join " " (
              document.operation_id ∷ document.method ∷ document.path ∷ document.summary
              ∷ document.description ∷ document.tags)))
          query

  unfoldable pub search : SearchInput → SearchIndex → List SearchDocument
  unfolding matches_input matches_query
  search input index =
      filter
        (λ document.
          matches_input input document && matches_query (lower (trim input.query)) document)
        (values index)
