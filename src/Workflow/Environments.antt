-- ===== src/Workflow/Environments.antt =====
-- apps/backend/src/test-workflows/test-environments.service.ts: the environments of a branch of a
-- documentation and their variables, as the rows that the statements read and write. A transaction that
-- throws leaves them as they were. Dates are left out; rows are in the order of their creation. Ids are
-- numbered by how many were made.
pub mod Defaults
pub mod Steps
mod Examples
use bumd.Prelude.{
  ℕ, suc, String, Bool, true, false, not, ◌&&◌, ◌||◌, Option, none, some, List, [], ◌∷◌, ◌++◌, ◌==◌,
  if◌then◌else◌, map, filter, find?, any, contains, add, Dict, insert, Except, returned, thrown,
  ◌>>=◌, eqb,
}

-- The error code EnvNotFound, with status 400 or 404; and what the database throws for a row that a
-- unique index has already.
pub data EnvironmentError : Type 0 where
  invalid_body not_found duplicate : EnvironmentError

pub record EnvironmentRow : Type 0 where
  pub id : ℕ
  pub organization_id : String
  pub doc_id : String
  pub branch_id : String
  pub name : String
  pub is_default : Bool
  pub deleted : Bool

pub record VariableRow : Type 0 where
  pub id : ℕ
  pub environment_id : ℕ
  pub key : String
  pub encrypted_value : Option String
  pub secret : Bool

pub record EnvironmentRows : Type 0 where
  pub environments : List EnvironmentRow
  pub variables : List VariableRow
  pub made : ℕ

-- What the schema of a creation lets through.
pub record NewVariable : Type 0 where
  pub key : String
  pub value : String
  pub secret : Option Bool

pub record CreateEnvironmentDto : Type 0 where
  pub name : String
  pub is_default : Option Bool
  pub variables : List NewVariable

-- And of an update; a missing `remove` is false.
pub record VariableUpdate : Type 0 where
  pub key : String
  pub value : Option String
  pub secret : Option Bool
  pub remove : Bool

pub record UpdateEnvironmentDto : Type 0 where
  pub name : Option String
  pub is_default : Option Bool
  pub variables : List VariableUpdate

-- `organizationId`, `docId` and `branchId` of a request.
pub record BranchRoute : Type 0 where
  pub organization_id : String
  pub doc_id : String
  pub branch_id : String

-- `value ?? default`
abbrev pub given_or {ℓ} : {A : Type ℓ} → A → Option A → A
given_or value none = value
given_or value (some given) = given

abbrev pub is_true : Option Bool → Bool
is_true none = false
is_true (some b) = b

abbrev pub in_branch : BranchRoute → EnvironmentRow → Bool
in_branch route row = row.doc_id == route.doc_id && row.branch_id == route.branch_id

-- The `UPDATE` that takes the default of the branch away, from all but the environment that is kept.
abbrev pub without_default : BranchRoute → Option ℕ → EnvironmentRow → EnvironmentRow
without_default route none row =
    if in_branch route row && (row.is_default && not row.deleted)
    then record row { is_default = false }
    else row
without_default route (some kept) row =
    if in_branch route row && (row.is_default && not row.deleted) && not (eqb row.id kept)
    then record row { is_default = false }
    else row

abbrev pub clear_default : Bool → BranchRoute → Option ℕ → List EnvironmentRow → List EnvironmentRow
clear_default true route kept rows = map (without_default route kept) rows
clear_default false route kept rows = rows

abbrev pub new_environment : BranchRoute → CreateEnvironmentDto → ℕ → EnvironmentRow
new_environment route dto id = record {
  id = id;
  organization_id = route.organization_id;
  doc_id = route.doc_id;
  branch_id = route.branch_id;
  name = dto.name;
  is_default = given_or false dto.is_default;
  deleted = false;
}

-- `UPDATE "TestEnvironment" SET … WHERE id = $1`
unfoldable pub update_environment_row :
    ℕ → (EnvironmentRow → EnvironmentRow) → List EnvironmentRow → List EnvironmentRow
update_environment_row id change [] = []
update_environment_row id change (row ∷ rows) =
    (if eqb row.id id then change row else row) ∷ update_environment_row id change rows

abbrev pub with_name_and_default : UpdateEnvironmentDto → EnvironmentRow → EnvironmentRow
with_name_and_default dto row = record row {
  name = given_or row.name dto.name;
  is_default = given_or row.is_default dto.is_default;
}

-- `requireEnvironment`
abbrev pub is_required : String → ℕ → EnvironmentRow → Bool
is_required organization_id id row =
    eqb row.id id && (row.organization_id == organization_id && not row.deleted)

abbrev pub found_environment : Option EnvironmentRow → Except EnvironmentError EnvironmentRow
found_environment none = thrown not_found
found_environment (some row) = returned row

unfoldable pub require_environment :
    String → ℕ → EnvironmentRows → Except EnvironmentError EnvironmentRow
require_environment organization_id id rows =
    found_environment (find? (is_required organization_id id) rows.environments)

abbrev pub is_variable : ℕ → String → VariableRow → Bool
is_variable id key variable = eqb variable.environment_id id && variable.key == key

abbrev pub same_name : EnvironmentRow → EnvironmentRow → Bool
same_name a b = a.doc_id == b.doc_id && (a.branch_id == b.branch_id && a.name == b.name)

abbrev pub same_key : VariableRow → VariableRow → Bool
same_key a b = eqb a.environment_id b.environment_id && a.key == b.key

abbrev pub has_twin {ℓ} : {A : Type ℓ} → (A → A → Bool) → List A → Bool
has_twin same [] = false
has_twin same (x ∷ xs) = any (same x) xs || has_twin same xs

-- `COMMIT`, unless a row broke a unique index: of an environment's branch and name, deleted or not, or
-- of a variable's environment and key.
abbrev pub transact :
    EnvironmentRows → ℕ → EnvironmentRows → Except EnvironmentError ℕ × EnvironmentRows
transact before id after =
    if has_twin same_name after.environments || has_twin same_key after.variables
    then (thrown duplicate, before)
    else (returned id, after)

module _ (encrypt_secret : String → String) where
  -- The loop over the variables of a new environment.
  unfoldable pub insert_variables : ℕ → List NewVariable → EnvironmentRows → EnvironmentRows
  insert_variables id [] rows = rows
  insert_variables id (v ∷ vs) rows = insert_variables id vs (record rows {
    variables =
        rows.variables
        ++ record {
          id = rows.made;
          environment_id = id;
          key = v.key;
          encrypted_value = some (encrypt_secret v.value);
          secret = given_or true v.secret;
        }
          ∷ [];
    made = suc rows.made;
  })

  -- The transaction of `createEnvironment`, and the id of the new row.
  unfoldable pub create_rows :
      BranchRoute → CreateEnvironmentDto → EnvironmentRows → EnvironmentRows
  unfolding insert_variables
  create_rows route dto rows = insert_variables rows.made dto.variables (record rows {
    environments =
        clear_default (is_true dto.is_default) route none rows.environments
        ++ new_environment route dto rows.made ∷ [];
    made = suc rows.made;
  })

  unfoldable pub create_environment :
      BranchRoute
      → Option CreateEnvironmentDto
      → EnvironmentRows
      → Except EnvironmentError ℕ × EnvironmentRows
  unfolding create_rows
  create_environment route none rows = (thrown invalid_body, rows)
  create_environment route (some dto) rows = transact rows rows.made (create_rows route dto rows)

  abbrev pub encrypted : Option String → Option String → Option String
  encrypted none before = before
  encrypted (some value) before = some (encrypt_secret value)

  abbrev pub changed_variable : VariableUpdate → VariableRow → VariableRow
  changed_variable v row = record row {
    encrypted_value = encrypted v.value row.encrypted_value;
    secret = given_or row.secret v.secret;
  }

  -- `UPDATE "TestEnvironmentVariable" … WHERE id = $3`
  unfoldable pub update_variable_row :
      ℕ → (VariableRow → VariableRow) → List VariableRow → List VariableRow
  update_variable_row id change [] = []
  update_variable_row id change (row ∷ rows) =
      (if eqb row.id id then change row else row) ∷ update_variable_row id change rows

  abbrev pub set_variable :
      ℕ → VariableUpdate → Option VariableRow → EnvironmentRows → EnvironmentRows
  set_variable id v (some row) rows = record rows {
    variables = update_variable_row row.id (changed_variable v) rows.variables;
  }
  set_variable id v none rows = record rows {
    variables =
        rows.variables
        ++ record {
          id = rows.made;
          environment_id = id;
          key = v.key;
          encrypted_value = encrypted v.value none;
          secret = given_or true v.secret;
        }
          ∷ [];
    made = suc rows.made;
  }

  -- The body of the loop over the variables of an update.
  abbrev pub apply_update : ℕ → VariableUpdate → EnvironmentRows → EnvironmentRows
  apply_update id v rows =
      if v.remove
      then record rows { variables = filter (λ w. not (is_variable id v.key w)) rows.variables }
      else set_variable id v (find? (is_variable id v.key) rows.variables) rows

  unfoldable pub apply_updates : ℕ → List VariableUpdate → EnvironmentRows → EnvironmentRows
  unfolding update_variable_row
  apply_updates id [] rows = rows
  apply_updates id (v ∷ vs) rows = apply_updates id vs (apply_update id v rows)

  -- The transaction of `updateEnvironment`.
  unfoldable pub update_rows :
      BranchRoute → ℕ → UpdateEnvironmentDto → EnvironmentRows → EnvironmentRows
  unfolding apply_updates update_environment_row
  update_rows route id dto rows = apply_updates id dto.variables (record rows {
    environments =
        update_environment_row id (with_name_and_default dto)
          (clear_default (is_true dto.is_default) route (some id) rows.environments);
  })

  abbrev pub update_found :
      BranchRoute
      → ℕ
      → UpdateEnvironmentDto
      → Except EnvironmentError EnvironmentRow
      → EnvironmentRows
      → Except EnvironmentError ℕ × EnvironmentRows
  update_found route id dto (thrown e) rows = (thrown e, rows)
  update_found route id dto (returned row) rows = transact rows id (update_rows route id dto rows)

  unfoldable pub update_environment :
      BranchRoute
      → ℕ
      → Option UpdateEnvironmentDto
      → EnvironmentRows
      → Except EnvironmentError ℕ × EnvironmentRows
  unfolding update_rows require_environment
  update_environment route id none rows = (thrown invalid_body, rows)
  update_environment route id (some dto) rows =
      update_found route id dto (require_environment route.organization_id id rows) rows

abbrev pub delete_found :
    ℕ
    → Except EnvironmentError EnvironmentRow
    → EnvironmentRows
    → Except EnvironmentError (Unit {0}) × EnvironmentRows
delete_found id (thrown e) rows = (thrown e, rows)
delete_found id (returned row) rows = (
  returned tt,
  record rows {
    environments = update_environment_row id (λ r. record r { deleted = true }) rows.environments;
  },
)

unfoldable pub delete_environment :
    String → ℕ → EnvironmentRows → Except EnvironmentError (Unit {0}) × EnvironmentRows
unfolding require_environment update_environment_row
delete_environment organization_id id rows =
    delete_found id (require_environment organization_id id rows) rows

-- `values` and `secretKeys` of `loadRunEnvironmentContext`.
pub record RunEnvironmentContext : Type 0 where
  pub values : Dict String
  pub secret_keys : List String

module _ (decrypt_secret : String → Option String) where
  abbrev pub set_plaintext : String → Option String → Dict String → Dict String
  set_plaintext key none values = values
  set_plaintext key (some plaintext) values = insert key plaintext values

  abbrev pub decrypted : Option String → Option String
  decrypted none = none
  decrypted (some value) = decrypt_secret value

  abbrev pub add_variable : VariableRow → RunEnvironmentContext → RunEnvironmentContext
  add_variable v context = record {
    values = set_plaintext v.key (decrypted v.encrypted_value) context.values;
    secret_keys = if v.secret then add context.secret_keys v.key else context.secret_keys;
  }

  -- The loop over the variables of the snapshot.
  unfoldable pub context_of_variables :
      List VariableRow → RunEnvironmentContext → RunEnvironmentContext
  context_of_variables [] context = context
  context_of_variables (v ∷ vs) context = context_of_variables vs (add_variable v context)
