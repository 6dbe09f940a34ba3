-- ===== src/Workflow/Runner/Run.antt =====
-- `executeRun` and `process` of runner/test-workflow-runner.service.ts: the three phases of a run and
-- its outcome. Error messages are left out; error codes are not.
use bumd.Prelude.{
  String, Bool, true, false, ◌||◌, Option, none, some, List, [], ◌∷◌, ◌++◌, map, if◌then◌else◌,
  contains, add, Dict, lookup, Except, returned, thrown,
}
use bumd.Workflow.Types.{
  RunStatus, StepStatus, is_terminal_run, NodePhase, setup, test, teardown, WorkflowNode,
  WorkflowDefinition,
}
use bumd.Workflow.Graph.{build_topological_order, get_descendants}
use bumd.Workflow.Graph.Errors.{Result, ok, err, out_of_fuel}
use bumd.Workflow.Definition.{
  DefinitionInput, DefinitionError, ends, by_id, parse_and_validate_definition,
}
use bumd.Workflow.Runner.Actions.{
  StepRow, Services, RunState, RunError, graph, definition, invalid_snapshot, workflow_error, M,
  pure, raise, ◌>>=◌, ◌>>◌,
}
use bumd.Workflow.Runner.{
  NodeOutcome, is_failed, cancel_requested, canceled_or_requested, mark_step_status,
  mark_queued_nodes, execute_or_skip_blocked, execute_teardown,
}

abbrev pub same_phase : NodePhase → NodePhase → Bool
same_phase setup setup = true
same_phase test test = true
same_phase teardown teardown = true
same_phase _ _ = false

abbrev pub in_phase : NodePhase → Option WorkflowNode → List WorkflowNode → List WorkflowNode
in_phase phase none rest = rest
in_phase phase (some node) rest = if same_phase node.phase phase then node ∷ rest else rest

-- `nodesForPhase`
unfoldable pub nodes_for_phase : List String → Dict WorkflowNode → NodePhase → List WorkflowNode
nodes_for_phase [] nodes_by_id phase = []
nodes_for_phase (id ∷ order) nodes_by_id phase =
    in_phase phase (lookup id nodes_by_id) (nodes_for_phase order nodes_by_id phase)

-- `for (const descendant of getDescendants(…)) blockedTests.add(descendant)`
abbrev pub block : List String → List String → List String
block blocked [] = blocked
block blocked (id ∷ ids) = block (add blocked id) ids

-- The outcome's `status` and `errorCode`.
pub record RunOutcome : Type 0 where
  pub status : RunStatus
  pub error_code : Option String

-- What the loops of `executeRun` found.
pub record Flags : Type 0 where
  pub canceled : Bool
  pub setup_failed : Bool
  pub test_failed : Bool

-- The end of `executeRun`.
unfoldable pub outcome_of : Flags → Bool → RunOutcome
outcome_of flags teardown_failed =
    if flags.canceled
    then record { status = RunStatus.canceled; error_code = none }
    else (if flags.setup_failed || flags.test_failed
        then record { status = RunStatus.failed; error_code = some "RUN_FAILED" }
        else (if teardown_failed
            then record { status = RunStatus.failed; error_code = some "TEARDOWN_FAILED" }
            else record { status = RunStatus.succeeded; error_code = none }))

module _ {W : Type 0} (services : Services W) (def : WorkflowDefinition) where
  -- The loop over the setup nodes: whether the run was canceled, and whether a node failed.
  unfoldable pub setup_loop : List WorkflowNode → Bool → M W (Bool × Bool)
  unfolding cancel_requested execute_or_skip_blocked
  setup_loop [] setup_failed = pure (false, setup_failed)
  setup_loop (node ∷ nodes) setup_failed = do
    canceled ← cancel_requested services
    if canceled then pure (true, setup_failed) else (do
      result ← execute_or_skip_blocked services def node
      setup_loop nodes (setup_failed || is_failed result))

  -- The nodes that a failed test blocks.
  unfoldable pub block_descendants : WorkflowNode → NodeOutcome → List String → M W (List String)
  block_descendants node NodeOutcome.failed blocked =
      elim (get_descendants node.id (map ends def.edges)) [
        | none ↦ raise (graph out_of_fuel)
        | some descendants ↦ pure (block blocked descendants)
      ]
  block_descendants node _ blocked = pure blocked

  -- The loop over the test nodes, with the set `blockedTests`.
  unfoldable pub test_loop : List WorkflowNode → List String → Bool → M W (Bool × Bool)
  unfolding cancel_requested execute_or_skip_blocked mark_step_status block_descendants
  test_loop [] blocked test_failed = pure (false, test_failed)
  test_loop (node ∷ nodes) blocked test_failed = do
    canceled ← cancel_requested services
    if canceled
        then pure (true, test_failed)
        else (if contains blocked node.id
            then (do mark_step_status node StepStatus.skipped; test_loop nodes blocked test_failed)
            else (do
              result ← execute_or_skip_blocked services def node
              blocked' ← block_descendants node result blocked
              test_loop nodes blocked' (test_failed || is_failed result)))

  -- The branches after the setup loop.
  unfoldable pub test_phase : List WorkflowNode → List WorkflowNode → Bool × Bool → M W Flags
  unfolding mark_queued_nodes test_loop
  test_phase setups tests (true, setup_failed) = do
    mark_queued_nodes (setups ++ tests) StepStatus.canceled
    pure (record { canceled = true; setup_failed = setup_failed; test_failed = false })
  test_phase setups tests (false, true) = do
    mark_queued_nodes tests StepStatus.skipped
    pure (record { canceled = false; setup_failed = true; test_failed = false })
  test_phase setups tests (false, false) = do
    tested ← test_loop tests [] false
    if tested.0 then mark_queued_nodes tests StepStatus.canceled else pure tt
    pure (record { canceled = tested.0; setup_failed = false; test_failed = tested.1 })

  -- The loop over the teardown nodes: `canceled` and `teardownFailed`.
  unfoldable pub teardown_loop : List WorkflowNode → Bool → Bool → M W (Bool × Bool)
  unfolding canceled_or_requested execute_teardown
  teardown_loop [] canceled teardown_failed = pure (canceled, teardown_failed)
  teardown_loop (node ∷ nodes) canceled teardown_failed = do
    result ← execute_teardown services def node
    canceled' ← canceled_or_requested services canceled
    teardown_loop nodes canceled' (teardown_failed || is_failed result)

  -- The loops of `executeRun` over the nodes of each phase, and its outcome.
  unfoldable pub run_phases :
      List WorkflowNode → List WorkflowNode → List WorkflowNode → M W RunOutcome
  unfolding setup_loop test_phase teardown_loop canceled_or_requested
  run_phases setups tests teardowns = do
    after_setup ← setup_loop setups false
    flags ← test_phase setups tests after_setup
    canceled ← canceled_or_requested services flags.canceled
    after_teardown ← teardown_loop teardowns canceled false
    pure (outcome_of (record flags { canceled = after_teardown.0 }) after_teardown.1)

  -- The phases of an order of the nodes.
  unfoldable pub run_order : List String → M W RunOutcome
  unfolding run_phases
  run_order order =
      run_phases (nodes_for_phase order (by_id def.nodes) setup)
        (nodes_for_phase order (by_id def.nodes) test)
        (nodes_for_phase order (by_id def.nodes) teardown)

module _ {W : Type 0} where
  -- The steps of `executeRun` before its loops: what the environment service throws, it throws.
  unfoldable pub run_definition :
      Except RunError (Services W) → WorkflowDefinition → Result (List String) → M W RunOutcome
  unfolding run_order
  run_definition environment def (err e) = raise (graph e)
  run_definition (thrown e) def (ok order) = raise e
  run_definition (returned services) def (ok order) = run_order services def order

  unfoldable pub run_parsed :
      Except RunError (Services W) → Except DefinitionError WorkflowDefinition → M W RunOutcome
  unfolding run_definition
  run_parsed environment (thrown e) = raise (definition e)
  run_parsed environment (returned def) =
      run_definition environment def
        (build_topological_order (map (λ node. node.id) def.nodes) (map ends def.edges))

  -- `executeRun`; `none` stands for a snapshot that the zod schema rejects.
  unfoldable pub execute_run :
      Except RunError (Services W) → Option DefinitionInput → M W RunOutcome
  unfolding run_parsed
  execute_run environment none = raise invalid_snapshot
  execute_run environment (some input) =
      run_parsed environment (parse_and_validate_definition input)

-- `classifyWorkflowRunError`, the code.
abbrev pub classify_run_error : RunError → String
classify_run_error (workflow_error code) = code
classify_run_error _ = "INTERNAL_ERROR"

-- The columns of "TestWorkflowRun" that `process` reads and writes.
pub record RunRow : Type 0 where
  pub status : RunStatus
  pub started : Bool
  pub finished : Bool
  pub error_code : Option String

abbrev pub mark_run_running : RunRow → RunRow
mark_run_running row = record row { status = RunStatus.running; started = true }

abbrev pub finalize_run : RunOutcome → RunRow → RunRow
finalize_run outcome row = record row {
  status = outcome.status;
  finished = true;
  error_code = outcome.error_code;
}

-- The outcome that is written: that of the run, or the failure that was caught.
abbrev pub caught : Except RunError RunOutcome → RunOutcome
caught (returned outcome) = outcome
caught (thrown e) = record { status = RunStatus.failed; error_code = some (classify_run_error e) }

-- `process`: a run that has ended is left alone.
unfoldable pub process :
    {W : Type 0}
    → Except RunError (Services W)
    → Option DefinitionInput
    → RunRow
    → RunState W
    → RunRow × RunState W
unfolding execute_run
process environment snapshot row s =
    if is_terminal_run row.status
    then (row, s)
    else (let ran = execute_run environment snapshot s in
        (finalize_run (caught ran.0) (mark_run_running row), ran.1))

-- The rows that `persistRun` inserts for the nodes of a definition.
abbrev pub persisted_rows : List WorkflowNode → Dict StepRow
persisted_rows [] = []
persisted_rows (node ∷ nodes) =
    (
      node.id,
      record {
        status = StepStatus.queued;
        phase = node.phase;
        started = false;
        finished = false;
        result = none;
      },
    )
    ∷ persisted_rows nodes

-- The state in which a worker picks the run up for the first time.
abbrev pub new_run : {W : Type 0} → List WorkflowNode → W → RunState W
new_run nodes world = record {
  rows = persisted_rows nodes;
  failed_nodes = [];
  vars = [];
  polls = 0;
  world = world;
}
