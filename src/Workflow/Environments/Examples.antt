-- ===== src/Workflow/Environments/Examples.antt =====
-- A second environment becomes the default of its branch.
use bumd.Prelude.{ℕ, String, Bool, true, false, none, some, [], ◌∷◌, ◌≡◌, refl, arith, thrown}
use bumd.Workflow.Environments.{
  EnvironmentRow, EnvironmentRows, BranchRoute, UpdateEnvironmentDto, duplicate, insert_variables,
  create_rows, create_environment, update_environment_row, apply_updates, update_rows,
  require_environment, update_environment,
}
use bumd.Workflow.Environments.Steps.{OneDefault, updates, Request-OneDefault}

abbrev encrypt : String → String
encrypt value = value

abbrev main : BranchRoute
main = record { organization_id = "org_1"; doc_id = "doc"; branch_id = "main" }

abbrev environment : ℕ → String → Bool → EnvironmentRow
environment id name is_default = record {
  id = id;
  organization_id = "org_1";
  doc_id = "doc";
  branch_id = "main";
  name = name;
  is_default = is_default;
  deleted = false;
}

abbrev two : EnvironmentRows
two = record {
  environments = environment 0 "local" true ∷ environment 1 "staging" false ∷ [];
  variables = [];
  made = 2;
}

abbrev to_default : UpdateEnvironmentDto
to_default = record { name = none; is_default = some true; variables = [] }

-- The name of an environment is taken on its branch, also once the environment is deleted.
name_taken :
    (create_environment encrypt main
      (some (record { name = "staging"; is_default = none; variables = [] }))
      (record two {
        environments = record (environment 1 "staging" false) { deleted = true } ∷ [];
      })).0
    ≡ thrown duplicate
unfolding create_environment create_rows insert_variables
name_taken = refl

moved_default :
    (update_environment encrypt main 1 (some to_default) two).1.environments
    ≡ environment 0 "local" false ∷ environment 1 "staging" true ∷ []
unfolding update_environment update_rows update_environment_row apply_updates require_environment
moved_default = refl

two-OneDefault : OneDefault two
two-OneDefault route = ground (arith)

Request-OneDefault_example : OneDefault (update_environment encrypt main 1 (some to_default) two).1
Request-OneDefault_example =
    Request-OneDefault encrypt two (update_environment encrypt main 1 (some to_default) two).1
      (updates main 1 (some to_default) two (omega arith) refl) two-OneDefault
