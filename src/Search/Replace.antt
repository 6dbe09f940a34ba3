-- ===== src/Search/Replace.antt =====
-- What is found after the documents of a branch are replaced (in-memory-search-index.ts,
-- openapi-search-extractor.ts).
use bumd.Prelude.{
  ℕ, String, Bool, true, ◌&&◌, Option, none, some, List, [], ◌∷◌, ◌++◌, ◌==◌, filter, All, values,
  Dict, lookup, insert, ◌≡◌, refl, ap, arith, Bool-cases, inl, inr,
}
use bumd.Json.{Json, null, bool, num, str, arr, obj, entries}
use bumd.Diff.{http_methods}
use bumd.Search.{
  Indexed, SearchDocument, document_of, documents_of_paths, operation_documents, method_documents,
  path_documents, extract_open_api_search_documents, same_branch, SearchIndex, delete_branch,
  document_key, set_documents, replace_version_documents, SearchInput, matches_input, matches_query,
  search,
}

All-append :
    (P : SearchDocument → Type 0) (xs ys : List SearchDocument)
    → All P xs
    → All P ys
    → All P (xs ++ ys)
All-append P [] ys hx hy = hy
All-append P (x ∷ xs) ys hx hy = (hx.0, All-append P xs ys hx.1 hy)

-- Every document of a specification is one of its version.
module _ (fallback_id : String → String) (version : Indexed) where
  abbrev OfVersion : List SearchDocument → Type 0
  OfVersion documents = All (λ d. d.version ≡ version) documents

  operation_documents-OfVersion :
      (path method : String) (operation : Option Json)
      → OfVersion (operation_documents fallback_id version path method operation)
  unfolding document_of
  operation_documents-OfVersion path method none = tt
  operation_documents-OfVersion path method (some null) = tt
  operation_documents-OfVersion path method (some (bool b)) = tt
  operation_documents-OfVersion path method (some (num n)) = tt
  operation_documents-OfVersion path method (some (str s)) = tt
  operation_documents-OfVersion path method (some (arr vs)) = tt
  operation_documents-OfVersion path method (some (obj fs)) = (refl, tt)

  method_documents-OfVersion :
      (path : String) (item : Dict Json) (methods : List String)
      → OfVersion (method_documents fallback_id version path item methods)
  unfolding method_documents
  method_documents-OfVersion path item [] = tt
  method_documents-OfVersion path item (m ∷ methods) =
      All-append _ (operation_documents fallback_id version path m (lookup m item)) _
        (operation_documents-OfVersion path m (lookup m item))
        (method_documents-OfVersion path item methods)

  path_documents-OfVersion :
      (paths : Dict Json) → OfVersion (path_documents fallback_id version paths)
  unfolding path_documents
  path_documents-OfVersion [] = tt
  path_documents-OfVersion ((path, null) ∷ paths) = path_documents-OfVersion paths
  path_documents-OfVersion ((path, bool b) ∷ paths) = path_documents-OfVersion paths
  path_documents-OfVersion ((path, num n) ∷ paths) = path_documents-OfVersion paths
  path_documents-OfVersion ((path, str s) ∷ paths) = path_documents-OfVersion paths
  path_documents-OfVersion ((path, arr vs) ∷ paths) = path_documents-OfVersion paths
  path_documents-OfVersion ((path, obj item) ∷ paths) =
      All-append _ (method_documents fallback_id version path (entries item) http_methods) _
        (method_documents-OfVersion path (entries item) http_methods)
        (path_documents-OfVersion paths)

  documents_of_paths-OfVersion :
      (paths : Option Json) → OfVersion (documents_of_paths fallback_id version paths)
  documents_of_paths-OfVersion none = tt
  documents_of_paths-OfVersion (some null) = tt
  documents_of_paths-OfVersion (some (bool b)) = tt
  documents_of_paths-OfVersion (some (num n)) = tt
  documents_of_paths-OfVersion (some (str s)) = tt
  documents_of_paths-OfVersion (some (arr vs)) = tt
  documents_of_paths-OfVersion (some (obj fs)) = path_documents-OfVersion (entries fs)

  pub extract-OfVersion :
      (spec : Json) → OfVersion (extract_open_api_search_documents fallback_id version spec)
  unfolding extract_open_api_search_documents
  extract-OfVersion null = tt
  extract-OfVersion (bool b) = tt
  extract-OfVersion (num n) = tt
  extract-OfVersion (str s) = tt
  extract-OfVersion (arr vs) = tt
  extract-OfVersion (obj fs) = documents_of_paths-OfVersion (lookup "paths" (entries fs))

-- Every document of the branch is one of the version.
abbrev NoStale : Indexed → List SearchDocument → Type 0
NoStale version documents =
    All (λ d. same_branch version d ≡ true → d.version.version_id ≡ version.version_id) documents

delete_branch-NoStale :
    (version : Indexed) (index : SearchIndex)
    → NoStale version (values (delete_branch version index))
unfolding delete_branch
delete_branch-NoStale version [] = tt
delete_branch-NoStale version ((k, d) ∷ index) = elim (Bool-cases (same_branch version d)) [
  | inl same ↦ simp same (delete_branch-NoStale version index)
  | inr other ↦ simp other ((λ same. absurd (cc same), delete_branch-NoStale version index))
]

insert-NoStale :
    (version : Indexed) (key : String) (d : SearchDocument) (index : SearchIndex)
    → d.version ≡ version
    → NoStale version (values index)
    → NoStale version (values (insert key d index))
insert-NoStale version key d [] own h = (λ same. ap (λ v. v.version_id) own, tt)
insert-NoStale version key d ((k, e) ∷ index) own h = elim (Bool-cases (k == key)) [
  | inl same ↦ simp same ((λ m. ap (λ v. v.version_id) own, h.1))
  | inr other ↦ simp other ((h.0, insert-NoStale version key d index own h.1))
]

module _ (version_text : ℕ → String) where
  set_documents-NoStale :
      (version : Indexed) (documents : List SearchDocument) (index : SearchIndex)
      → All (λ d. d.version ≡ version) documents
      → NoStale version (values index)
      → NoStale version (values (set_documents version_text documents index))
  unfolding set_documents
  set_documents-NoStale version [] index own h = h
  set_documents-NoStale version (d ∷ documents) index own h =
      set_documents-NoStale version documents (insert (document_key version_text d) d index) own.1
        (insert-NoStale version (document_key version_text d) d index own.0 h)

  -- What `search` finds in a branch.
  abbrev pub in_branch : Indexed → String → SearchInput
  in_branch version query = record {
    organization_id = version.organization_id;
    doc_id = version.doc_id;
    branch_id = some version.branch_id;
    version_id = none;
    query = query;
  }

  filter-NoStale :
      (version : Indexed) (query text : String) (test : SearchDocument → Bool)
      (documents : List SearchDocument)
      → NoStale version documents
      → All
          (λ d. d.version.version_id ≡ version.version_id)
          (filter (λ d. matches_input (in_branch version query) d && test d) documents)
  unfolding matches_input
  filter-NoStale version query text test [] h = tt
  filter-NoStale version query text test (d ∷ documents) h =
      let rest = filter-NoStale version query text test documents h.1 in
      elim (Bool-cases (matches_input (in_branch version query) d && test d)) [
        | inl found ↦ simp found ((h.0 (ground (arith, found)), rest))
        | inr missed ↦ simp missed rest
      ]

  -- After the documents of a branch are replaced by those of a new specification, a search in the
  -- branch finds documents of the new version alone, whatever the index held before.
  pub search-replace_version_documents :
      (lower trim : String → String) (includes : String → String → Bool)
      (fallback_id : String → String) (version : Indexed) (spec : Json) (query : String)
      (index : SearchIndex)
      → All
          (λ d. d.version.version_id ≡ version.version_id)
          (search lower trim includes (in_branch version query) (
            replace_version_documents version_text version
              (extract_open_api_search_documents fallback_id version spec)
              index))
  unfolding search replace_version_documents
  search-replace_version_documents lower trim includes fallback_id version spec query index =
      filter-NoStale version query (lower (trim query))
        (matches_query lower trim includes (lower (trim query))) _
        (set_documents-NoStale version (extract_open_api_search_documents fallback_id version spec)
          (delete_branch version index) (extract-OfVersion fallback_id version spec)
          (delete_branch-NoStale version index))
