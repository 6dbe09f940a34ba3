-- ===== src/Search/Refine.antt =====
-- The index in memory implements a map from branches to documents (in-memory-search-index.ts).
use bumd.Prelude.{
  ℕ, String, Bool, true, false, ◌&&◌, List, [], ◌∷◌, ◌++◌, map, ◌==◌, if◌then◌else◌, filter,
  contains, All, Distinct, contains-append, keys, values, insert, ◌≡◌, refl, sym, ap, ◌∙◌, subst,
  arith, eq_iff, eq_self, if_true, if_false, Bool-cases, inl, inr,
}
use bumd.Json.{Json}
use bumd.Search.{
  Indexed, SearchDocument, extract_open_api_search_documents, same_branch, SearchIndex,
  delete_branch, document_key, set_documents, replace_version_documents,
}
use bumd.Search.Replace.{extract-OfVersion}

-- Whatever stands under this key belongs to the branch.
abbrev pub IsFree : Indexed → SearchIndex → String → Type 0
IsFree version index key =
    All (λ entry. (entry.0 == key) ≡ true → same_branch version entry.1 ≡ true) index

-- What the index promises: the documents of each branch.
abbrev pub Branches : Type 0
Branches = Indexed → List SearchDocument

abbrev pub one_branch : Indexed → Indexed → Bool
one_branch branch version =
    version.organization_id == branch.organization_id
    && (version.doc_id == branch.doc_id && version.branch_id == branch.branch_id)

-- The abstract operation: the documents of one branch are replaced.
abbrev pub replace_branch : Indexed → List SearchDocument → Branches → Branches
replace_branch version documents branches branch =
    if one_branch branch version then documents else branches branch

-- The documents that the index holds for a branch.
abbrev pub view : SearchIndex → Branches
view index branch = filter (same_branch branch) (values index)

same_branch-one_branch :
    (branch version : Indexed) (d : SearchDocument)
    → one_branch branch version ≡ true
    → same_branch version d ≡ same_branch branch d
same_branch-one_branch branch version d same =
    let a : version.organization_id ≡ branch.organization_id =
      (eq_iff _ _).0 (ground (arith, same)) in
    let b : version.doc_id ≡ branch.doc_id = (eq_iff _ _).0 (ground (arith, same)) in
    let c : version.branch_id ≡ branch.branch_id = (eq_iff _ _).0 (ground (arith, same)) in
    simp (a, b, c)

same_branch-apart :
    (branch version : Indexed) (d : SearchDocument)
    → one_branch branch version ≡ false
    → same_branch version d ≡ true
    → same_branch branch d ≡ false
same_branch-apart branch version d apart own =
    let a : d.version.organization_id ≡ version.organization_id =
      (eq_iff _ _).0 (ground (arith, own)) in
    let b : d.version.doc_id ≡ version.doc_id = (eq_iff _ _).0 (ground (arith, own)) in
    let c : d.version.branch_id ≡ version.branch_id = (eq_iff _ _).0 (ground (arith, own)) in
    simp (a, b, c) apart

view-delete_branch :
    (version branch : Indexed) (index : SearchIndex)
    → view (delete_branch version index) branch
      ≡ (if one_branch branch version then [] else view index branch)
unfolding delete_branch
view-delete_branch version branch [] = elim (Bool-cases (one_branch branch version)) [
  | inl same ↦ sym (if_true _ _ same)
  | inr apart ↦ sym (if_false _ _ apart)
]
view-delete_branch version branch ((k, d) ∷ index) = elim (Bool-cases (one_branch branch version)) [
  | inl same ↦
      let alike = same_branch-one_branch branch version d same in
      ground (arith, view-delete_branch version branch index, alike, same)
  | inr apart ↦ ground (
    arith,
    view-delete_branch version branch index,
    same_branch-apart branch version d apart,
    apart,
  )
]

filter-append :
    (test : SearchDocument → Bool) (xs ys : List SearchDocument)
    → filter test (xs ++ ys) ≡ filter test xs ++ filter test ys
filter-append test [] ys = refl
filter-append test (x ∷ xs) ys = ground (arith, filter-append test xs ys)

view-own :
    (version branch : Indexed) (documents : List SearchDocument)
    → All (λ d. d.version ≡ version) documents
    → filter (same_branch branch) documents ≡ (if one_branch branch version then documents else [])
view-own version branch [] own = elim (Bool-cases (one_branch branch version)) [
  | inl same ↦ sym (if_true _ _ same)
  | inr apart ↦ sym (if_false _ _ apart)
]
view-own version branch (d ∷ documents) own =
    let here : same_branch branch d ≡ one_branch branch version = ap (one_branch branch) own.0 in
    let rest = view-own version branch documents own.1 in
    elim (Bool-cases (one_branch branch version)) [
      | inl same ↦
          if_true _ _ (here ∙ same)
          ∙ ap (λ ds. d ∷ ds) (rest ∙ if_true _ _ same)
          ∙ sym (if_true _ _ same)
      | inr apart ↦
          if_false _ _ (here ∙ apart) ∙ rest ∙ if_false _ _ apart ∙ sym (if_false _ _ apart)
    ]

values-insert :
    (key : String) (d : SearchDocument) (index : SearchIndex)
    → contains (keys index) key ≡ false
    → (values (insert key d index) ≡ values index ++ d ∷ [])
      × (keys (insert key d index) ≡ keys index ++ key ∷ [])
values-insert key d [] h = (refl, refl)
values-insert key d ((k, e) ∷ index) h = elim (Bool-cases (k == key)) [
  | inl same ↦ absurd (cc (simp same at h))
  | inr other ↦
      let (vs, ks) = values-insert key d index (simp other at h) in
      (simp other (ap (λ xs. e ∷ xs) vs), simp other (ap (λ xs. k ∷ xs) ks))
]

append_assoc : (xs ys zs : List SearchDocument) → (xs ++ ys) ++ zs ≡ xs ++ (ys ++ zs)
append_assoc [] ys zs = refl
append_assoc (x ∷ xs) ys zs = ap (λ rest. x ∷ rest) (append_assoc xs ys zs)

Distinct-apart :
    (xs : List String) (keys_before : List String) (key : String)
    → contains xs key ≡ false
    → ((k : String) → contains (key ∷ xs) k ≡ true → contains keys_before k ≡ false)
    → (k : String) → contains xs k ≡ true
    → contains (keys_before ++ key ∷ []) k ≡ false
Distinct-apart xs keys_before key fresh apart k listed =
    let absent = apart k (ground arith) in
    contains-append keys_before (key ∷ []) k ∙ ground (arith, absent, fresh, listed, eq_iff key k)

module _ (version_text : ℕ → String) where
  abbrev keys_of : List SearchDocument → List String
  keys_of documents = map (document_key version_text) documents

  values-set_documents :
      (documents : List SearchDocument) (index : SearchIndex)
      → Distinct (keys_of documents)
      → ((k : String) → contains (keys_of documents) k ≡ true → contains (keys index) k ≡ false)
      → values (set_documents version_text documents index) ≡ values index ++ documents
  unfolding set_documents
  values-set_documents [] index distinct apart = append_nil (values index)
    where
      append_nil : (xs : List SearchDocument) → xs ≡ xs ++ []
      append_nil [] = refl
      append_nil (x ∷ xs) = ap (λ rest. x ∷ rest) (append_nil xs)
  values-set_documents (d ∷ documents) index distinct apart =
      let key = document_key version_text d in
      let (vs, ks) = values-insert key d index (apart key (ground (arith, eq_self key))) in
      values-set_documents documents (insert key d index) distinct.1 (λ k listed.
        ap (λ xs. contains xs k) ks
        ∙ Distinct-apart (keys_of documents) (keys index) key distinct.0 apart k listed)
      ∙ ap (λ xs. xs ++ documents) vs
      ∙ append_assoc (values index) (d ∷ []) documents

  -- A key that is free of other branches is free once the branch is deleted.
  contains-delete_branch :
      (version : Indexed) (index : SearchIndex) (key : String)
      → IsFree version index key
      → contains (keys (delete_branch version index)) key ≡ false
  unfolding delete_branch
  contains-delete_branch version [] key free = refl
  contains-delete_branch version ((k, d) ∷ index) key free =
      elim (Bool-cases (same_branch version d)) [
        | inl own ↦ simp own (contains-delete_branch version index key free.1)
        | inr other ↦ elim (Bool-cases (k == key)) [
          | inl same ↦ absurd (cc (free.0 same, other))
          | inr differs ↦ simp (other, differs) (contains-delete_branch version index key free.1)
        ]
      ]

  All-contains :
      (version : Indexed) (index : SearchIndex) (documents : List SearchDocument)
      → All (λ d. IsFree version index (document_key version_text d)) documents
      → (k : String) → contains (keys_of documents) k ≡ true
      → contains (keys (delete_branch version index)) k ≡ false
  All-contains version index [] free k listed = absurd (cc)
  All-contains version index (d ∷ documents) free k listed =
      elim (Bool-cases (document_key version_text d == k)) [
        | inl same ↦
            subst (λ j. contains (keys (delete_branch version index)) j ≡ false)
              ((eq_iff (document_key version_text d) k).0 same)
              (contains-delete_branch version index (document_key version_text d) free.0)
        | inr other ↦ All-contains version index documents free.1 k (simp other at listed)
      ]

  -- Seen as a map from branches to documents, replacing the documents of a version's branch by those of
  -- its specification does just that: the branch holds these documents, in their order, and every other
  -- branch what it held. The documents have distinct keys, and none of these is the key of a document of
  -- another branch.
  pub view-replace_version_documents :
      (fallback_id : String → String) (version : Indexed) (spec : Json) (index : SearchIndex)
      → Distinct (
          map
            (document_key version_text)
            (extract_open_api_search_documents fallback_id version spec))
      → All
          (λ d. IsFree version index (document_key version_text d))
          (extract_open_api_search_documents fallback_id version spec)
      → (branch : Indexed)
      → view
          (replace_version_documents version_text version
            (extract_open_api_search_documents fallback_id version spec)
            index)
          branch
        ≡ replace_branch version
            (extract_open_api_search_documents fallback_id version spec)
            (view index)
            branch
  unfolding replace_version_documents
  view-replace_version_documents fallback_id version spec index distinct free branch =
      let documents = extract_open_api_search_documents fallback_id version spec in
      let rest = delete_branch version index in
      ap (filter (same_branch branch))
        (values-set_documents documents rest distinct (All-contains version index documents free))
      ∙ filter-append (same_branch branch) (values rest) documents
      ∙ elim (Bool-cases (one_branch branch version)) [
        | inl same ↦
            ap (λ xs. xs ++ filter (same_branch branch) documents)
              (view-delete_branch version branch index ∙ if_true _ _ same)
            ∙ view-own version branch documents (extract-OfVersion fallback_id version spec)
            ∙ if_true _ _ same
            ∙ sym (if_true _ _ same)
        | inr apart ↦
            ap (λ xs. view rest branch ++ xs)
              (view-own version branch documents (extract-OfVersion fallback_id version spec)
                ∙ if_false _ _ apart)
            ∙ append_none (view rest branch)
            ∙ view-delete_branch version branch index
            ∙ if_false _ _ apart
            ∙ sym (if_false _ _ apart)
      ]
    where
      append_none : (xs : List SearchDocument) → xs ++ [] ≡ xs
      append_none [] = refl
      append_none (x ∷ xs) = ap (λ rest. x ∷ rest) (append_none xs)
