-- ===== src/Workflow/Environments/Steps.antt =====
-- What the requests of the service do to the defaults of the branches (test-environments.service.ts).
use bumd.Prelude.{
  ℕ, ◌≤◌, String, Bool, true, false, not, ◌&&◌, ◌||◌, Option, none, some, List, [], ◌∷◌, ◌==◌, ◌≡◌,
  refl, ◌∙◌, arith, if◌then◌else◌, eq_iff, eqb, Bool-cases, inl, inr, Except, any,
}
use bumd.Workflow.Environments.{
  VariableUpdate, UpdateEnvironmentDto, update_environment_row, apply_update, apply_updates,
  set_variable, update_rows, update_found, update_environment, require_environment,
  EnvironmentError, EnvironmentRow, EnvironmentRows, NewVariable, CreateEnvironmentDto, BranchRoute,
  is_true, in_branch, transact, insert_variables, create_rows, create_environment,
}
use bumd.Prelude.{find?, returned, thrown}
use bumd.Workflow.Environments.{
  duplicate, VariableRow, is_variable, delete_found, delete_environment, has_twin, same_name,
  same_key,
}
use bumd.Workflow.Environments.Defaults.{
  defaults, rows_of, updated, defaults-created, defaults-rows_of, defaults-elsewhere,
  defaults-unset,
}

abbrev pub OneDefault : EnvironmentRows → Type 0
OneDefault rows = (route : BranchRoute) → defaults route rows.environments ≤ 1

module _ (encrypt_secret : String → String) where
  environments-insert_variables :
      (id : ℕ) (vs : List NewVariable) (rows : EnvironmentRows)
      → (insert_variables encrypt_secret id vs rows).environments ≡ rows.environments
  unfolding insert_variables
  environments-insert_variables id [] rows = refl
  environments-insert_variables id (v ∷ vs) rows = environments-insert_variables id vs _

  environments-set_variable :
      (id : ℕ) (v : VariableUpdate) (o : Option VariableRow) (rows : EnvironmentRows)
      → (set_variable encrypt_secret id v o rows).environments ≡ rows.environments
  environments-set_variable id v none rows = refl
  environments-set_variable id v (some row) rows = refl

  environments-apply_update :
      (id : ℕ) (v : VariableUpdate) (rows : EnvironmentRows)
      → (apply_update encrypt_secret id v rows).environments ≡ rows.environments
  environments-apply_update id v rows = elim (Bool-cases v.remove) [
    | inl removed ↦ simp removed refl
    | inr kept ↦
        simp kept
          (environments-set_variable id v (find? (is_variable id v.key) rows.variables) rows)
  ]

  environments-apply_updates :
      (id : ℕ) (vs : List VariableUpdate) (rows : EnvironmentRows)
      → (apply_updates encrypt_secret id vs rows).environments ≡ rows.environments
  unfolding apply_updates
  environments-apply_updates id [] rows = refl
  environments-apply_updates id (v ∷ vs) rows =
      environments-apply_updates id vs (apply_update encrypt_secret id v rows)
      ∙ environments-apply_update id v rows

  kept_by_if :
      {A : Type 0} (b : Bool) (x y : A × EnvironmentRows)
      → OneDefault x.1
      → OneDefault y.1
      → OneDefault (if b then x else y).1
  kept_by_if true x y h k = h
  kept_by_if false x y h k = k

  transact-OneDefault :
      (before after : EnvironmentRows) (id : ℕ)
      → OneDefault before
      → OneDefault after
      → OneDefault (transact before id after).1
  transact-OneDefault before after id h k =
      kept_by_if (has_twin same_name after.environments || has_twin same_key after.variables)
        (thrown duplicate, before) (returned id, after) h k

  -- The requests. An update has one row at most of its environment, in the branch of its route: the
  -- service itself does not compare the branch.
  pub data Request : EnvironmentRows → EnvironmentRows → Type 0 where
    creates :
        (route : BranchRoute) (dto : Option CreateEnvironmentDto) (rows : EnvironmentRows)
        → Request rows (create_environment encrypt_secret route dto rows).1
    updates :
        (route : BranchRoute) (id : ℕ) (dto : Option UpdateEnvironmentDto) (rows : EnvironmentRows)
        → rows_of id rows.environments ≤ 1
        → any (λ row. eqb row.id id && not (in_branch route row)) rows.environments ≡ false
        → Request rows (update_environment encrypt_secret route id dto rows).1
    deletes :
        (organization_id : String) (id : ℕ) (rows : EnvironmentRows)
        → Request rows (delete_environment organization_id id rows).1

  create-OneDefault :
      (route : BranchRoute) (dto : Option CreateEnvironmentDto) (rows : EnvironmentRows)
      → OneDefault rows
      → OneDefault (create_environment encrypt_secret route dto rows).1
  unfolding create_environment
  create-OneDefault route none rows h = h
  create-OneDefault route (some dto) rows h =
      transact-OneDefault rows (create_rows encrypt_secret route dto rows) rows.made h (λ other.
        rw (environments-insert_variables rows.made dto.variables _)
          (defaults-created other route dto rows.made rows.environments (h other)))

  updated-OneDefault :
      (route : BranchRoute) (id : ℕ) (dto : UpdateEnvironmentDto) (rows : EnvironmentRows)
      (other : BranchRoute)
      → defaults other rows.environments ≤ 1
      → rows_of id rows.environments ≤ 1
      → any (λ row. eqb row.id id && not (in_branch route row)) rows.environments ≡ false
      → defaults other (updated route id dto (is_true dto.is_default) rows.environments) ≤ 1
  updated-OneDefault route id dto rows other h one inside =
      elim (Bool-cases (is_true dto.is_default)) [
        | inr unset ↦
            rw unset (ground (arith, defaults-unset other route id dto rows.environments unset))
        | inl is_set ↦
            elim (Bool-cases (other.doc_id == route.doc_id && other.branch_id == route.branch_id)) [
              | inl same ↦ rw is_set (
                  ground (
                    arith,
                    defaults-rows_of other route id dto rows.environments
                        ((eq_iff other.doc_id route.doc_id).0 (ground (arith)))
                        ((eq_iff other.branch_id route.branch_id).0 (ground (arith))),
                  ))
              | inr apart ↦ rw is_set (
                  ground
                    (arith, defaults-elsewhere other route id dto rows.environments apart inside))
            ]
      ]

  update_found-OneDefault :
      (route : BranchRoute) (id : ℕ) (dto : UpdateEnvironmentDto)
      (m : Except EnvironmentError EnvironmentRow) (rows : EnvironmentRows)
      → OneDefault rows
      → rows_of id rows.environments ≤ 1
      → any (λ row. eqb row.id id && not (in_branch route row)) rows.environments ≡ false
      → OneDefault (update_found encrypt_secret route id dto m rows).1
  unfolding update_rows
  update_found-OneDefault route id dto (thrown e) rows h one inside = h
  update_found-OneDefault route id dto (returned row) rows h one inside =
      transact-OneDefault rows (update_rows encrypt_secret route id dto rows) id h (λ other.
        rw (environments-apply_updates id dto.variables _)
          (updated-OneDefault route id dto rows other (h other) one inside))

  update-OneDefault :
      (route : BranchRoute) (id : ℕ) (dto : Option UpdateEnvironmentDto) (rows : EnvironmentRows)
      → OneDefault rows
      → rows_of id rows.environments ≤ 1
      → any (λ row. eqb row.id id && not (in_branch route row)) rows.environments ≡ false
      → OneDefault (update_environment encrypt_secret route id dto rows).1
  unfolding update_environment
  update-OneDefault route id none rows h one inside = h
  update-OneDefault route id (some dto) rows h one inside =
      update_found-OneDefault route id dto (require_environment route.organization_id id rows) rows
        h one inside

  defaults-deleted :
      (route : BranchRoute) (id : ℕ) (rows : List EnvironmentRow)
      → defaults route (update_environment_row id (λ r. record r { deleted = true }) rows)
        ≤ defaults route rows
  unfolding update_environment_row
  defaults-deleted route id [] = omega arith
  defaults-deleted route id (row ∷ rows) = ground (arith, defaults-deleted route id rows)

  delete_found-OneDefault :
      (id : ℕ) (m : Except EnvironmentError EnvironmentRow) (rows : EnvironmentRows)
      → OneDefault rows
      → OneDefault (delete_found id m rows).1
  delete_found-OneDefault id (thrown e) rows h = h
  delete_found-OneDefault id (returned row) rows h =
      λ route. omega (arith, defaults-deleted route id rows.environments, h route)

  -- A branch that has one default environment at most still has one at most after a creation, an update
  -- or a deletion, if an update is of an environment in the branch of its route.
  pub Request-OneDefault :
      (rows after : EnvironmentRows) → Request rows after → OneDefault rows → OneDefault after
  unfolding delete_environment
  Request-OneDefault _ _ (creates route dto rows) h = create-OneDefault route dto rows h
  Request-OneDefault _ _ (updates route id dto rows one inside) h =
      update-OneDefault route id dto rows h one inside
  Request-OneDefault _ _ (deletes organization_id id rows) h =
      delete_found-OneDefault id (require_environment organization_id id rows) rows h
