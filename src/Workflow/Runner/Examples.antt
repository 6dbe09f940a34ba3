-- ===== src/Workflow/Runner/Examples.antt =====
-- Runs of runner/test-workflow-runner.service.ts with steps that succeed, fail or are canceled.
use bumd.Prelude.{
  ◌⊎◌, ℕ, suc, String, true, false, none, some, List, [], ◌∷◌, map, ◌==◌, if◌then◌else◌, Except,
  returned, thrown, ◌≡◌, refl, eqb,
}
use bumd.Json.{Json, null}
use bumd.Workflow.Step.Whole.{whole, whole-Removable, secrets}
use bumd.Workflow.Runner.Keeps.{RowsHold}
use bumd.Workflow.Environments.{context_of_variables}
use bumd.Workflow.Runner.Secrets.{
  run_environment, RunEnvironment, step_services, NoSecret, process-NoSecret,
}
use bumd.TryItOut.Types.{Failure, TryItOutResponse}
use bumd.Workflow.Types.{
  RunStatus, is_terminal_run, StepStatus, NodePhase, setup, test, teardown, WorkflowNode,
  WorkflowEdge, WorkflowDefinition,
}
use bumd.Workflow.Graph.{
  zero_degrees, no_neighbors, count_in, count_edges, ready_ids, release, push_at, children_of,
  discover, walk, get_descendants,
}
use bumd.Workflow.Definition.{
  v2, to_definition, collect_node_ids, check_edges, phase_ok, check_phases, check_exports,
  check_all_exports, detect_loop, detect_cycle, parse_and_validate_definition,
}
use bumd.Workflow.Runner.Actions.{StepResult, Services, RunState, RunError}
use bumd.Workflow.Runner.{
  update_row, assign, failed_dependency, load_step, mark_step_status, persist_step,
  mark_queued_nodes, add_failed, add_vars, conclude, cancel_requested, canceled_or_requested,
  run_step, execute, skip_blocked, execute_or_skip_blocked, fail_blocked, execute_teardown,
  dependency_failed,
}
use bumd.Workflow.Runner.Run.{
  RunOutcome, nodes_for_phase, outcome_of, setup_loop, block_descendants, test_loop, test_phase,
  teardown_loop, run_phases, run_order, execute_run, RunRow, process, new_run,
}
use bumd.Workflow.Runner.Phases.{Settled}
use bumd.Workflow.Runner.Finish.{execute_run-Settled, new_run-Ready, process-terminal}

abbrev node : String → NodePhase → WorkflowNode
node id phase = record {
  id = id;
  operation_id = "op";
  method = "GET";
  path = "/";
  label = id;
  phase = phase;
  request_template = null;
  exports = [];
  assertions = [];
}

abbrev edge : String → String → String → WorkflowEdge
edge id a b = record { id = id; source = a; target = b }

-- login → create → read, and cleanup after login.
abbrev four : WorkflowDefinition
four = record {
  test_data = [];
  nodes = node "login" setup ∷ node "create" test ∷ node "read" test ∷ node "cleanup" teardown ∷ [];
  edges = edge "e1" "login" "create" ∷ edge "e2" "create" "read" ∷ edge "e3" "login" "cleanup" ∷ [];
}

-- The step of one node fails; the world counts the steps that were sent.
abbrev failing_at : String → Services ℕ
failing_at id = record {
  execute_step = λ node vars sent. (
    if node.id == id
        then StepResult.failed dependency_failed
        else StepResult.succeeded dependency_failed [],
    suc sent,
  );
  cancel_at = λ n. false;
}

-- The run is canceled from the n-th read on.
abbrev canceled_at : ℕ → Services ℕ
canceled_at n = record (failing_at "") { cancel_at = λ m. eqb m n }

four_accepted : parse_and_validate_definition (v2 four) ≡ returned four
unfolding parse_and_validate_definition to_definition collect_node_ids check_edges check_phases
    phase_ok check_exports check_all_exports detect_cycle detect_loop zero_degrees no_neighbors
    count_edges count_in ready_ids release
four_accepted = refl

abbrev statuses : {W : Type 0} → RunState W → List (String × StepStatus)
statuses s = map (λ entry. (entry.0, entry.1.status)) s.rows

abbrev fresh : RunState ℕ
fresh = new_run four.nodes 0

abbrev result_of : Services ℕ → Except RunError RunOutcome × List (String × StepStatus)
result_of services =
    let ran = run_order services four ("login" ∷ "create" ∷ "cleanup" ∷ "read" ∷ []) fresh in
    (ran.0, statuses ran.1)

create_fails : result_of (failing_at "create") ≡ (
  returned (record { status = RunStatus.failed; error_code = some "RUN_FAILED" }),
  ("login", StepStatus.succeeded)
      ∷ ("create", StepStatus.failed)
      ∷ ("read", StepStatus.skipped)
      ∷ ("cleanup", StepStatus.succeeded)
      ∷ [],
)
unfolding run_order nodes_for_phase run_phases setup_loop test_phase test_loop teardown_loop
    outcome_of block_descendants execute_or_skip_blocked skip_blocked execute_teardown fail_blocked
    execute run_step conclude cancel_requested canceled_or_requested load_step mark_step_status
    persist_step mark_queued_nodes add_failed add_vars update_row assign failed_dependency
    get_descendants children_of push_at walk discover
create_fails = refl

canceled_in_tests : result_of (canceled_at 1) ≡ (
  returned (record { status = RunStatus.canceled; error_code = none }),
  ("login", StepStatus.succeeded)
      ∷ ("create", StepStatus.canceled)
      ∷ ("read", StepStatus.canceled)
      ∷ ("cleanup", StepStatus.succeeded)
      ∷ [],
)
unfolding run_order nodes_for_phase run_phases setup_loop test_phase test_loop teardown_loop
    outcome_of block_descendants execute_or_skip_blocked skip_blocked execute_teardown fail_blocked
    execute run_step conclude cancel_requested canceled_or_requested load_step mark_step_status
    persist_step mark_queued_nodes add_failed add_vars update_row assign failed_dependency
    get_descendants children_of push_at walk discover
canceled_in_tests = refl

execute_run-Settled_example :
    ((outcome : RunOutcome) × ((execute_run
          (returned (failing_at "create"))
          (some (v2 four))
          fresh).0
        ≡ returned outcome)
      × Settled four.nodes (execute_run (returned (failing_at "create")) (some (v2 four)) fresh).1)
    × ((e : RunError) → execute_run {W = ℕ} (thrown e) (some (v2 four)) fresh ≡ (thrown e, fresh))
execute_run-Settled_example =
    execute_run-Settled (failing_at "create") (v2 four) four four_accepted fresh
      (new_run-Ready {W = ℕ} four.nodes 0)

abbrev queued_run : RunRow
queued_run = record {
  status = RunStatus.queued;
  started = false;
  finished = false;
  error_code = none;
}

process-terminal_example :
    (is_terminal_run
        (process (returned (failing_at "create")) (some (v2 four)) queued_run fresh).0.status
      ≡ true)
    × ((is_terminal_run queued_run.status ≡ false)
        ⊎ (process (returned (failing_at "create")) (some (v2 four)) queued_run fresh
            ≡ (queued_run, fresh)))
process-terminal_example =
    process-terminal (returned (failing_at "create")) (some (v2 four)) queued_run fresh

-- A client that answers every request with the secret.
abbrev leaking : Json → ℕ → Except Failure TryItOutResponse × ℕ
leaking body sent =
    (returned (record { status = 200; headers = ("x", "s3cret") ∷ []; body = "s3cret" }), suc sent)

abbrev secret_environment : RunEnvironment
secret_environment = run_environment (
    context_of_variables (λ value. some value)
      (record {
        id = 1;
        environment_id = 0;
        key = "token";
        encrypted_value = some "s3cret";
        secret = true;
      }
        ∷ [])
      (record { values = []; secret_keys = [] }))

secret_found : secret_environment.secret_values ≡ secrets
unfolding context_of_variables
secret_found = refl

process-NoSecret_example :
    RowsHold
      (NoSecret whole secrets)
      (process
        (returned (step_services whole (λ n. n) leaking secret_environment [] (λ n. false)))
        (some (v2 four))
        queued_run
        fresh).1.rows
unfolding context_of_variables
process-NoSecret_example =
    process-NoSecret whole (λ n. n) leaking secret_environment [] (λ n. false) (some (v2 four))
      queued_run fresh whole-Removable (tt, (tt, (tt, (tt, tt))))
