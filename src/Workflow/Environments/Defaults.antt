-- ===== src/Workflow/Environments/Defaults.antt =====
-- A branch has at most one default environment (test-environments.service.ts).
use bumd.Prelude.{
  ℕ, suc, ◌+◌, ◌≤◌, Bool, true, false, not, ◌&&◌, Option, none, some, List, [], ◌∷◌, ◌++◌, map,
  ◌==◌, ◌≡◌, refl, sym, arith, if◌then◌else◌, eq_iff, eqb, Bool-cases, inl, inr, any,
}
use bumd.Workflow.Environments.{
  UpdateEnvironmentDto, update_environment_row, with_name_and_default, EnvironmentRow,
  CreateEnvironmentDto, BranchRoute, given_or, is_true, in_branch, without_default, clear_default,
  new_environment,
}

-- The environment is a default of the branch.
abbrev pub counts : BranchRoute → EnvironmentRow → Bool
counts route row = in_branch route row && (row.is_default && not row.deleted)

abbrev pub defaults : BranchRoute → List EnvironmentRow → ℕ
defaults route [] = 0
defaults route (row ∷ rows) =
    let rest = defaults route rows in if counts route row then suc rest else rest

counts-without_default :
    (other route : BranchRoute) (kept : Option ℕ) (row : EnvironmentRow)
    → counts other (without_default route kept row) ≡ true
    → counts other row ≡ true
counts-without_default other route none row h = ground (arith)
counts-without_default other route (some id) row h = ground (arith)

defaults-map :
    (other route : BranchRoute) (kept : Option ℕ) (rows : List EnvironmentRow)
    → defaults other (map (without_default route kept) rows) ≤ defaults other rows
defaults-map other route kept [] = omega arith
defaults-map other route kept (row ∷ rows) =
    ground (arith, defaults-map other route kept rows, counts-without_default other route kept row)

counts_cleared :
    (other route : BranchRoute) (row : EnvironmentRow)
    → other.doc_id ≡ route.doc_id
    → other.branch_id ≡ route.branch_id
    → counts other (without_default route none row) ≡ false
counts_cleared other route row d b = ground (arith)

defaults_cleared :
    (other route : BranchRoute) (rows : List EnvironmentRow)
    → other.doc_id ≡ route.doc_id
    → other.branch_id ≡ route.branch_id
    → defaults other (map (without_default route none) rows) ≡ 0
defaults_cleared other route [] d b = refl
defaults_cleared other route (row ∷ rows) d b =
    simp (counts_cleared other route row d b) (defaults_cleared other route rows d b)

defaults-append :
    (route : BranchRoute) (rows : List EnvironmentRow) (row : EnvironmentRow)
    → defaults route (rows ++ row ∷ []) ≡ defaults route rows + (if counts route row then 1 else 0)
defaults-append route [] row = ground arith
defaults-append route (r ∷ rows) row = ground (arith, defaults-append route rows row)

defaults-clear_default :
    (b : Bool) (other route : BranchRoute) (kept : Option ℕ) (rows : List EnvironmentRow)
    → defaults other (clear_default b route kept rows) ≤ defaults other rows
defaults-clear_default true other route kept rows = defaults-map other route kept rows
defaults-clear_default false other route kept rows = omega arith

-- The rows of one id.
abbrev pub rows_of : ℕ → List EnvironmentRow → ℕ
rows_of id [] = 0
rows_of id (row ∷ rows) = let rest = rows_of id rows in if eqb row.id id then suc rest else rest

counts_new :
    (other route : BranchRoute) (dto : CreateEnvironmentDto) (id : ℕ) (o : Option Bool)
    → dto.is_default ≡ o
    → counts other (new_environment route dto id) ≡ true
    → (is_true o ≡ true) × (other.doc_id ≡ route.doc_id) × (other.branch_id ≡ route.branch_id)
counts_new other route dto id none e h = let g = simp e at h in ground (arith)
counts_new other route dto id (some b) e h =
    let g = simp e at h in
    (
      ground (arith),
      sym ((eq_iff route.doc_id other.doc_id).0 (ground (arith))),
      sym ((eq_iff route.branch_id other.branch_id).0 (ground (arith))),
    )

pub defaults-created :
    (other route : BranchRoute) (dto : CreateEnvironmentDto) (id : ℕ) (rows : List EnvironmentRow)
    → defaults other rows ≤ 1
    → defaults other (
        clear_default (is_true dto.is_default) route none rows ++ new_environment route dto id ∷ [])
      ≤ 1
defaults-created other route dto id rows h =
    elim (Bool-cases (counts other (new_environment route dto id))) [
      | inl new ↦
          let (is_set, d, b) = counts_new other route dto id dto.is_default refl new in
          rw is_set (
            ground (
              arith,
              defaults-append other (map (without_default route none) rows)
                  (new_environment route dto id),
              defaults_cleared other route rows d b,
            ))
      | inr other_branch ↦ ground (
        arith,
        defaults-append other (clear_default (is_true dto.is_default) route none rows)
            (new_environment route dto id),
        defaults-clear_default (is_true dto.is_default) other route none rows,
      )
    ]

-- The rows after an update of one environment's name and default.
abbrev pub updated :
    BranchRoute → ℕ → UpdateEnvironmentDto → Bool → List EnvironmentRow → List EnvironmentRow
updated route id dto b rows =
    update_environment_row id (with_name_and_default dto) (clear_default b route (some id) rows)

-- In the branch of the route, only the environment that is kept may be a default.
pub defaults-rows_of :
    (other route : BranchRoute) (id : ℕ) (dto : UpdateEnvironmentDto) (rows : List EnvironmentRow)
    → other.doc_id ≡ route.doc_id
    → other.branch_id ≡ route.branch_id
    → defaults other (updated route id dto true rows) ≤ rows_of id rows
unfolding update_environment_row
defaults-rows_of other route id dto [] d b = omega arith
defaults-rows_of other route id dto (row ∷ rows) d b =
    ground (arith, defaults-rows_of other route id dto rows d b)

-- In another branch nothing becomes a default, if the environment is one of the route's branch.
pub defaults-elsewhere :
    (other route : BranchRoute) (id : ℕ) (dto : UpdateEnvironmentDto) (rows : List EnvironmentRow)
    → (other.doc_id == route.doc_id && other.branch_id == route.branch_id) ≡ false
    → any (λ row. eqb row.id id && not (in_branch route row)) rows ≡ false
    → defaults other (updated route id dto true rows) ≤ defaults other rows
unfolding update_environment_row
defaults-elsewhere other route id dto [] apart h = omega arith
defaults-elsewhere other route id dto (row ∷ rows) apart h = ground (
  arith,
  defaults-elsewhere other route id dto rows apart,
  eq_iff row.doc_id other.doc_id,
  eq_iff row.branch_id other.branch_id,
  eq_iff row.doc_id route.doc_id,
  eq_iff row.branch_id route.branch_id,
  eq_iff other.doc_id route.doc_id,
  eq_iff other.branch_id route.branch_id,
)

still_default :
    (o : Option Bool) (before : Bool) → is_true o ≡ false → given_or before o ≡ true → before ≡ true
still_default none before h g = g
still_default (some b) before h g = ground (arith)

-- Without a new default, none is made.
pub defaults-unset :
    (other route : BranchRoute) (id : ℕ) (dto : UpdateEnvironmentDto) (rows : List EnvironmentRow)
    → is_true dto.is_default ≡ false
    → defaults other (updated route id dto false rows) ≤ defaults other rows
unfolding update_environment_row
defaults-unset other route id dto [] h = omega arith
defaults-unset other route id dto (row ∷ rows) h =
    ground (
      arith,
      defaults-unset other route id dto rows h,
      still_default dto.is_default row.is_default h,
    )
