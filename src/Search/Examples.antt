-- ===== src/Search/Examples.antt =====
-- Runs of the index, and its theorems applied to them (in-memory-search-index.ts).
use bumd.Prelude.{
  Distinct, ℕ, String, Bool, List, [], ◌∷◌, map, All, contains, eqb, if◌then◌else◌, ◌≡◌, refl,
}
use bumd.Json.{Json, str, obj, arr, cons, nil, from_dict}
use bumd.Search.{
  Indexed, SearchDocument, SearchIndex, document_of, method_documents, path_documents,
  extract_open_api_search_documents, delete_branch, document_key, set_documents,
  replace_version_documents, matches_input, matches_query, search,
}
use bumd.Search.Replace.{in_branch, search-replace_version_documents}
use bumd.Search.Refine.{IsFree, view, replace_branch, view-replace_version_documents}

abbrev version_of : String → ℕ → Indexed
version_of branch_id version_id = record {
  organization_id = "acme";
  doc_id = "api";
  branch_id = branch_id;
  version_id = version_id;
}

abbrev version_text : ℕ → String
version_text n = if eqb n 1 then "ver_1" else (if eqb n 2 then "ver_2" else "ver_3")

abbrev operation : Json
operation = obj (
    from_dict (
      ("operationId", str "list_pets")
      ∷ ("tags", arr (cons (str "pets") (cons (obj (from_dict [])) nil)))
      ∷ []))

abbrev spec : Json
spec = obj (
    from_dict (
      (
        "paths",
        obj (
            from_dict (
              ("/pets", obj (from_dict (("post", obj (from_dict [])) ∷ ("get", operation) ∷ [])))
              ∷ [])),
      )
      ∷ []))

abbrev dashed : String → String
dashed path = "-pets"

abbrev documents : Indexed → List SearchDocument
documents version = extract_open_api_search_documents dashed version spec

documents_found :
    map (λ d. d.operation_id) (documents (version_of "main" 1)) ≡ "list_pets" ∷ "post--pets" ∷ []
unfolding extract_open_api_search_documents path_documents method_documents document_of
documents_found = refl

-- The index with the documents of two branches.
abbrev two_branches : SearchIndex
two_branches =
    replace_version_documents version_text (version_of "next" 2) (documents (version_of "next" 2)) (
      replace_version_documents version_text (version_of "main" 1) (documents (version_of "main" 1))
        [])

abbrev same_text : String → String
same_text text = text

abbrev includes : String → String → Bool
includes text query = contains (text ∷ []) query

replaced :
    map
      (λ d. d.version.version_id)
      (search same_text same_text includes (in_branch version_text (version_of "main" 3) "") (
        replace_version_documents version_text
          (version_of "main" 3)
          (documents (version_of "main" 3))
          two_branches))
    ≡ 3 ∷ 3 ∷ []
unfolding search matches_input matches_query replace_version_documents delete_branch set_documents
    document_key extract_open_api_search_documents path_documents method_documents document_of
replaced = refl

search-replace_version_documents_example :
    All
      (λ d. d.version.version_id ≡ 3)
      (search same_text same_text includes (in_branch version_text (version_of "main" 3) "") (
        replace_version_documents version_text
          (version_of "main" 3)
          (documents (version_of "main" 3))
          two_branches))
search-replace_version_documents_example =
    search-replace_version_documents version_text same_text same_text includes dashed
      (version_of "main" 3) spec "" two_branches

keys-IsFree :
    All
      (λ d. IsFree (version_of "main" 3) two_branches (document_key version_text d))
      (documents (version_of "main" 3))
unfolding replace_version_documents delete_branch set_documents document_key
    extract_open_api_search_documents path_documents method_documents document_of
keys-IsFree = (
  ((λ e. refl), ((λ e. refl), ((λ e. absurd (cc e)), ((λ e. absurd (cc e)), tt)))),
  (((λ e. refl), ((λ e. refl), ((λ e. absurd (cc e)), ((λ e. absurd (cc e)), tt)))), tt),
)

documents-Distinct : Distinct (map (document_key version_text) (documents (version_of "main" 3)))
unfolding document_key extract_open_api_search_documents path_documents method_documents document_of
documents-Distinct = (refl, (refl, tt))

view-replace_version_documents_example :
    view
      (replace_version_documents version_text
        (version_of "main" 3)
        (documents (version_of "main" 3))
        two_branches)
      (version_of "next" 0)
    ≡ replace_branch
        (version_of "main" 3)
        (documents (version_of "main" 3))
        (view two_branches)
        (version_of "next" 0)
view-replace_version_documents_example =
    view-replace_version_documents version_text dashed (version_of "main" 3) spec two_branches
      documents-Distinct keys-IsFree (version_of "next" 0)
