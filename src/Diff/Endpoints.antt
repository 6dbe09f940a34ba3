-- ===== src/Diff/Endpoints.antt =====
-- Which operations are reported as removed, as added, and with a new required parameter
-- (classifier.ts).
use bumd.Prelude.{
  String, Bool, true, false, not, ◌&&◌, ◌||◌, Option, none, some, List, [], ◌∷◌, ◌++◌, ◌==◌, any,
  contains, All, Distinct, keys, Dict, lookup, ◌≡◌, refl, sym, ap, ◌∙◌, subst, arith, eq_iff,
  Bool-cases, Option-cases, inl, inr,
}
use bumd.Json.{Json}
use bumd.Diff.Types.{
  DiffChangeKind, removed_endpoint, added_endpoint, added_required_parameter, response_type_changed,
  added_optional_field, DiffChange,
}
use bumd.Diff.{
  removed, added, read_path, missing_methods, missing_endpoints, endpoint_changes,
  required_parameter_changes,
}
use bumd.Diff.Responses.{response_schema_changes}
use bumd.Diff.Compare.{paths_of, classify_open_api_specs}
use bumd.Diff.Severity.{
  missing_endpoints-All, required_parameter_changes-All, response_schema_changes-All,
}

abbrev pub same_kind : DiffChangeKind → DiffChangeKind → Bool
same_kind removed_endpoint removed_endpoint = true
same_kind added_endpoint added_endpoint = true
same_kind added_required_parameter added_required_parameter = true
same_kind response_type_changed response_type_changed = true
same_kind added_optional_field added_optional_field = true
same_kind _ _ = false

-- Some change of this kind is about this operation.
abbrev pub reports : DiffChangeKind → String → String → List DiffChange → Bool
reports kind path method changes =
    any (λ c. same_kind c.kind kind && (c.path == path && c.method == method)) changes

abbrev pub present : Option Json → Bool
present none = false
present (some v) = true

-- The specification has an operation for this path and method.
abbrev pub has_operation : Dict Json → String → String → Bool
has_operation paths path method = present (lookup method (read_path (lookup path paths)))

any-append :
    (test : DiffChange → Bool) (xs ys : List DiffChange)
    → any test (xs ++ ys) ≡ (any test xs || any test ys)
any-append test [] ys = refl
any-append test (x ∷ xs) ys = ground (arith, any-append test xs ys)

present-lookup : (d : Dict Json) (k : String) → contains (keys d) k ≡ present (lookup k d)
present-lookup [] k = refl
present-lookup ((j, v) ∷ d) k = ground (arith, present-lookup d k)

-- Changes of other kinds report nothing of this kind.
reports-All :
    (kind : DiffChangeKind) (path method : String) (changes : List DiffChange)
    → All (λ c. same_kind c.kind kind ≡ false) changes
    → reports kind path method changes ≡ false
reports-All kind path method [] h = refl
reports-All kind path method (c ∷ changes) h =
    let here = h.0 in ground (arith, reports-All kind path method changes h.1)

has_operation-absent :
    (paths : Dict Json) (path method : String)
    → contains (keys paths) path ≡ false
    → has_operation paths path method ≡ false
unfolding read_path
has_operation-absent paths path method absent = elim (Option-cases (lookup path paths)) [
  | inl missing ↦ simp missing
  | inr (v, found) ↦ absurd (cc (present-lookup paths path, ap present found))
]

or_false : (b : Bool) → (b || false) ≡ b
or_false true = refl
or_false false = refl

-- A change of this kind for each path and method.
module _ (kind : DiffChangeKind) (change : String → String → DiffChange)
    (own : (p m : String)
      → (same_kind (change p m).kind kind ≡ true)
        × ((change p m).path ≡ p)
        × ((change p m).method ≡ m)) where
  reports-own :
      (q n path method : String)
      → (same_kind (change q n).kind kind
          && ((change q n).path == path && (change q n).method == method))
        ≡ (q == path && n == method)
  reports-own q n path method = let (k, p, m) = own q n in simp (k, p, m)

  reports-missing_methods :
      (q path method : String) (ops other : Dict Json)
      → reports kind path method (missing_methods (change q) ops other)
        ≡ (q == path && (contains (keys ops) method && not (present (lookup method other))))
  unfolding missing_methods
  reports-missing_methods q path method [] other = ground arith
  reports-missing_methods q path method ((n, operation) ∷ ops) other = ground (
    arith,
    reports-missing_methods q path method ops other,
    reports-own q n path method,
    eq_iff n method,
  )

  reports-missing_endpoints :
      (path method : String) (paths other : Dict Json)
      → Distinct (keys paths)
      → reports kind path method (missing_endpoints change paths other)
        ≡ (has_operation paths path method && not (has_operation other path method))
  unfolding missing_endpoints
  reports-missing_endpoints path method [] other d = sym (
      ap (λ b. b && not (has_operation other path method))
        (has_operation-absent [] path method refl))
  reports-missing_endpoints path method ((q, item) ∷ paths) other d =
      let here = read_path (some item) in
      let there = read_path (lookup q other) in
      let split =
        any-append (λ c. same_kind c.kind kind && (c.path == path && c.method == method))
          (missing_methods (change q) here there) (missing_endpoints change paths other) in
      let first = reports-missing_methods q path method here there in
      let rest = reports-missing_endpoints path method paths other d.1 in
      elim (Bool-cases (q == path)) [
        | inl same ↦
            let e : q ≡ path = (eq_iff q path).0 same in
            let gone =
              has_operation-absent paths path method
                (subst (λ k. contains (keys paths) k ≡ false) e d.0) in
            let found = present-lookup here method in
            let over : present (lookup method there) ≡ has_operation other path method =
              ap (λ k. present (lookup method (read_path (lookup k other)))) e in
            simp (split, first, rest, gone, found, same, over) (or_false _)
        | inr differs ↦ simp (split, first, rest, differs)
      ]

-- A kind that only `endpointChanges` makes is reported by one of its two loops.
reports-endpoint_changes :
    (kind : DiffChangeKind) (base revision : Json) (path method : String)
    → same_kind added_required_parameter kind ≡ false
    → same_kind response_type_changed kind ≡ false
    → same_kind added_optional_field kind ≡ false
    → reports kind path method (classify_open_api_specs base revision) ≡ (
        reports kind path method (missing_endpoints removed (paths_of base) (paths_of revision))
        || reports kind path method (missing_endpoints added (paths_of revision) (paths_of base)))
unfolding classify_open_api_specs endpoint_changes
reports-endpoint_changes kind base revision path method e1 e2 e3 =
    let b = paths_of base in
    let r = paths_of revision in
    let test =
      λ (c : DiffChange). same_kind c.kind kind && (c.path == path && c.method == method) in
    let ps = required_parameter_changes b r in
    let fs = response_schema_changes base b revision r in
    let P = λ (c : DiffChange). same_kind c.kind kind ≡ false in
    let no_ps =
      reports-All kind path method ps (required_parameter_changes-All P b r (λ p m q. e1)) in
    let no_fs =
      reports-All kind path method fs
        (response_schema_changes-All P (λ p m n. e3) (λ p m n x y. e2) base b revision r) in
    let outer =
      any-append test (missing_endpoints removed b r ++ missing_endpoints added r b) (ps ++ fs) in
    let inner = any-append test (missing_endpoints removed b r) (missing_endpoints added r b) in
    let tail = any-append test ps fs in simp (outer, inner, tail, no_ps, no_fs) (or_false _)

-- Where no path stands twice in either specification, an operation is reported as removed exactly if the
-- base has it and the revision does not, and as added exactly if the revision has it and the base does
-- not.
pub reports-classify_open_api_specs :
    (base revision : Json) (path method : String)
    → Distinct (keys (paths_of base))
    → Distinct (keys (paths_of revision))
    → (reports removed_endpoint path method (classify_open_api_specs base revision) ≡ (
        has_operation (paths_of base) path method
        && not (has_operation (paths_of revision) path method)))
      × (reports added_endpoint path method (classify_open_api_specs base revision) ≡ (
          has_operation (paths_of revision) path method
          && not (has_operation (paths_of base) path method)))
reports-classify_open_api_specs base revision path method db dr =
    let b = paths_of base in
    let r = paths_of revision in
    let none_added = reports-All removed_endpoint path method (missing_endpoints added r b) (
      missing_endpoints-All (λ c. same_kind c.kind removed_endpoint ≡ false) added r b
        (λ p m. refl)) in
    let none_removed = reports-All added_endpoint path method (missing_endpoints removed b r) (
      missing_endpoints-All (λ c. same_kind c.kind added_endpoint ≡ false) removed b r
        (λ p m. refl)) in
    let gone =
      reports-missing_endpoints removed_endpoint removed (λ p m. (refl, refl, refl)) path method b r
        db in
    let new =
      reports-missing_endpoints added_endpoint added (λ p m. (refl, refl, refl)) path method r b
        dr in
    (
      reports-endpoint_changes removed_endpoint base revision path method refl refl refl
          ∙ simp (none_added, gone) (or_false _),
      reports-endpoint_changes added_endpoint base revision path method refl refl refl
          ∙ simp (none_removed, new),
    )
