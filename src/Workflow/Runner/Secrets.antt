-- ===== src/Workflow/Runner/Secrets.antt =====
-- The runner with the step executor: what a run stores (runner/test-workflow-node-runner.ts, the call of
-- executeWorkflowStep, with runner/test-workflow-step-executor.ts).
use bumd.Workflow.Environments.{RunEnvironmentContext}
use bumd.Prelude.{
  contains, add, [], ◌∷◌, ℕ, String, Bool, true, false, Option, none, some, List, if◌then◌else◌,
  Dict, Except, returned, thrown, ◌≡◌, ◌⊎◌, inl, inr, refl,
}
use bumd.Json.{Json}
use bumd.Workflow.Types.{is_terminal_run, WorkflowNode, WorkflowDefinition}
use bumd.Workflow.Graph.Errors.{Result, ok, err}
use bumd.Workflow.Definition.{DefinitionInput, DefinitionError, parse_and_validate_definition}
use bumd.Workflow.Runner.Actions.{PersistedStepResult, Services, RunState}
use bumd.Workflow.Runner.{dependency_failed}
use bumd.Workflow.Runner.Run.{
  run_phases, run_order, run_definition, run_parsed, execute_run, RunRow, process,
}
use bumd.Workflow.Runner.Keeps.{RowsHold, Keeps}
use bumd.Workflow.Runner.KeepsRun.{Keeps-run_phases}
use bumd.Workflow.Step.Texts.{Texts}
use bumd.Workflow.Step.Request.{StepContext}
use bumd.Workflow.Step.Executor.{execute_workflow_step}
use bumd.Workflow.Step.Hidden.{Removable}
use bumd.Workflow.Step.Stored.{StoresNoSecret, execute_workflow_step-StoresNoSecret}
use bumd.TryItOut.Types.{Failure, TryItOutResponse}

-- `input.environment`
pub record RunEnvironment : Type 0 where
  pub values : Dict String
  pub secret_keys : List String
  pub secret_values : List String

-- `new Set(…)` of the values whose keys are secret.
abbrev pub add_secret_values : List String → Dict String → List String → List String
add_secret_values found [] keys = found
add_secret_values found ((key, value) ∷ values) keys =
    add_secret_values (if contains keys key then add found value else found) values keys

-- What executeRun makes of the context that the environments' service loads.
abbrev pub run_environment : RunEnvironmentContext → RunEnvironment
run_environment context = record {
  values = context.values;
  secret_keys = context.secret_keys;
  secret_values = add_secret_values [] context.values context.secret_keys;
}

abbrev pub step_context : RunEnvironment → Dict Json → Dict Json → StepContext
step_context environment test_data vars = record {
  vars = vars;
  env = environment.values;
  data_values = test_data;
  secret_keys = environment.secret_keys;
  secret_values = environment.secret_values;
}

-- The executor of steps for a run; `send` is `tryItOut.execute` for the run's route.
abbrev pub step_services :
    {W : Type 0}
    → Texts
    → (W → ℕ)
    → (Json → W → Except Failure TryItOutResponse × W)
    → RunEnvironment
    → Dict Json
    → (ℕ → Bool)
    → Services W
step_services texts now send environment test_data cancel_at = record {
  execute_step = λ node vars world.
      execute_workflow_step texts now send node (step_context environment test_data vars) world;
  cancel_at = cancel_at;
}

-- The result has no secret, or is that of a teardown step that was not sent.
abbrev pub NoSecret : Texts → List String → PersistedStepResult → Type 0
NoSecret texts secrets r = StoresNoSecret texts secrets r ⊎ (r ≡ dependency_failed)

module _ {W : Type 0} (P : PersistedStepResult → Type 0) (services : Services W)
    (keeps_phases : (def : WorkflowDefinition) (setups tests teardowns : List WorkflowNode)
      → Keeps P (run_phases services def setups tests teardowns)) where
  Keeps-run_definition :
      (def : WorkflowDefinition) (order : Result (List String))
      → Keeps P (run_definition (returned services) def order)
  unfolding run_definition run_order
  Keeps-run_definition def (err e) s h = h
  Keeps-run_definition def (ok order) s h = keeps_phases def _ _ _ s h

  Keeps-run_parsed :
      (parsed : Except DefinitionError WorkflowDefinition)
      → Keeps P (run_parsed (returned services) parsed)
  unfolding run_parsed
  Keeps-run_parsed (thrown e) s h = h
  Keeps-run_parsed (returned def) s h = Keeps-run_definition def _ s h

  Keeps-execute_run :
      (snapshot : Option DefinitionInput) → Keeps P (execute_run (returned services) snapshot)
  unfolding execute_run
  Keeps-execute_run none s h = h
  Keeps-execute_run (some input) s h = Keeps-run_parsed (parse_and_validate_definition input) s h

RowsHold-ended :
    {W : Type 0} (P : PersistedStepResult → Type 0) (b : Bool) (x y : RunRow × RunState W)
    → RowsHold P x.1.rows
    → RowsHold P y.1.rows
    → RowsHold P (if b then x else y).1.rows
RowsHold-ended P true x y h k = h
RowsHold-ended P false x y h k = k

-- If replacing a secret value of the environment removes it and brings no other back, and the rows of a
-- run have none in the text values that their steps stored, then that is still so after a worker has
-- processed the run with the step executor, whatever the outcome: in the requests, responses,
-- assertions, exports, inputs and messages, apart from the preview of a long response body and the name
-- of a failed assertion. Nothing is said of the keys of objects and of numbers, which are stored as they
-- are.
pub process-NoSecret :
    {W : Type 0} (texts : Texts) (now : W → ℕ)
    (send : Json → W → Except Failure TryItOutResponse × W) (environment : RunEnvironment)
    (test_data : Dict Json) (cancel_at : ℕ → Bool) (snapshot : Option DefinitionInput)
    (row : RunRow) (s : RunState W)
    → Removable texts environment.secret_values
    → RowsHold (NoSecret texts environment.secret_values) s.rows
    → RowsHold
        (NoSecret texts environment.secret_values)
        (process
          (returned (step_services texts now send environment test_data cancel_at))
          snapshot
          row
          s).1.rows
unfolding process
process-NoSecret texts now send environment test_data cancel_at snapshot row s laws h =
    RowsHold-ended (NoSecret texts environment.secret_values) (is_terminal_run row.status) _ _ h (
      Keeps-execute_run (NoSecret texts environment.secret_values)
        (step_services texts now send environment test_data cancel_at)
        (Keeps-run_phases (NoSecret texts environment.secret_values) (inr refl)
          (step_services texts now send environment test_data cancel_at)
          (λ node vars world. inl (
            execute_workflow_step-StoresNoSecret texts now send node
              (step_context environment test_data vars) world laws)))
        snapshot s h)
