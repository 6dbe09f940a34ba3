-- ===== src/Workflow/Runner.antt =====
-- The runner of test workflows: runner/test-workflow-run-store.ts (the rows of the steps of one run),
-- runner/test-workflow-node-runner.ts (one node) and `executeRun` of
-- runner/test-workflow-runner.service.ts (the three phases). Each method is an action on the state of
-- the run, which may throw. The request that a step sends, and what other processes write to the
-- run's row between two reads, are a parameter: `Services`. Timestamps are modelled by whether they
-- are set.
pub mod Actions
pub mod Rows
pub mod Nodes
pub mod Phases
pub mod Split
pub mod Settled
pub mod Run
pub mod Finish
pub mod Keeps
pub mod KeepsRun
pub mod Secrets
mod Examples
use bumd.Prelude.{
  ℕ, zero, suc, String, Bool, true, false, not, ◌&&◌, ◌||◌, Option, none, some, List, [], ◌∷◌, ◌++◌,
  map, ◌==◌, if◌then◌else◌, contains, add, any, Dict, lookup, insert, from_entries, Except,
  returned, thrown,
}
use bumd.Json.{Json, null}
use bumd.Workflow.Types.{
  RunStatus, StepStatus, is_terminal_step, NodePhase, setup, test, teardown, WorkflowNode,
  WorkflowEdge, WorkflowDefinition,
}
use bumd.Workflow.Graph.{build_topological_order, get_descendants}
use bumd.Workflow.Graph.Errors.{GraphError, Result, ok, err, out_of_fuel}
use bumd.Workflow.Definition.{ends, by_id}
use Actions.{
  PersistedStepResult, StepResult, StepRow, Services, RunState, RunError, missing_step, graph, M,
  pure, raise, ◌>>=◌, ◌>>◌,
}

-- `requestJson: null` and so on: the result of a step that was never sent.
abbrev pub dependency_failed : PersistedStepResult
dependency_failed = record {
  request_json = null;
  response_json = null;
  assertions_json = null;
  exports_json = null;
  inputs_json = null;
  duration_ms = 0;
  error_code = some "RUN_FAILED";
  error_message = some "A teardown dependency failed";
}

pub data NodeOutcome : Type 0 where
  succeeded failed skipped : NodeOutcome

-- `step.status === Failed ? "failed" : "skipped"`
abbrev pub settled_outcome : StepStatus → NodeOutcome
settled_outcome StepStatus.failed = failed
settled_outcome _ = skipped

-- `result === "failed"`
abbrev pub is_failed : NodeOutcome → Bool
is_failed failed = true
is_failed _ = false

abbrev pub is_running : StepStatus → Bool
is_running StepStatus.running = true
is_running _ = false

abbrev pub is_queued : StepStatus → Bool
is_queued StepStatus.queued = true
is_queued _ = false

-- `UPDATE … WHERE "nodeId" = $1`: the row of one step, if there is one.
unfoldable pub update_row : String → (StepRow → StepRow) → Dict StepRow → Dict StepRow
update_row node_id change [] = []
update_row node_id change ((id, row) ∷ rows) =
    (id, if id == node_id then change row else row) ∷ update_row node_id change rows

-- `Object.assign(target, values)`
unfoldable pub assign : Dict Json → Dict Json → Dict Json
assign target [] = target
assign target ((k, v) ∷ values) = assign (insert k v target) values

-- What `markQueuedNodes` does to the row of a node: a row that is not queued stays as it is.
abbrev pub set_queued : WorkflowNode → StepStatus → StepRow → StepRow
set_queued node status row =
    if is_queued row.status then record row { status = status; phase = node.phase } else row

-- `UPDATE … SET status = $1, phase = $2, "startedAt" = …` of `markStepStatus`.
abbrev pub set_status : WorkflowNode → StepStatus → StepRow → StepRow
set_status node status row = record row {
  status = status;
  phase = node.phase;
  started = row.started || is_running status;
}

-- The `UPDATE` of `persistStep`.
abbrev pub set_result : WorkflowNode → StepStatus → PersistedStepResult → StepRow → StepRow
set_result node status result row = record row {
  status = status;
  phase = node.phase;
  result = some result;
  started = true;
  finished = true;
}

-- Some direct dependency of the node has failed.
unfoldable pub failed_dependency : WorkflowDefinition → WorkflowNode → List String → Bool
failed_dependency definition node failed_nodes =
    any (λ edge. edge.target == node.id && contains failed_nodes edge.source) definition.edges

module _ {W : Type 0} where
  unfoldable pub load_step : String → M W StepRow
  load_step node_id s = elim (lookup node_id s.rows) [
    | none ↦ (thrown (missing_step node_id), s)
    | some row ↦ (returned row, s)
  ]

  unfoldable pub mark_step_status : WorkflowNode → StepStatus → M W (Unit {0})
  mark_step_status node status s =
      (returned tt, record s { rows = update_row node.id (set_status node status) s.rows })

  -- `persistStep` with the status that `stepStatus` computes.
  unfoldable pub persist_step : WorkflowNode → StepStatus → PersistedStepResult → M W (Unit {0})
  persist_step node status result s =
      (returned tt, record s { rows = update_row node.id (set_result node status result) s.rows })

  -- `markQueuedNodes`: only rows that are still queued change.
  unfoldable pub mark_queued_nodes : List WorkflowNode → StepStatus → M W (Unit {0})
  mark_queued_nodes [] status s = (returned tt, s)
  mark_queued_nodes (node ∷ nodes) status s =
      mark_queued_nodes nodes status
        (record s { rows = update_row node.id (set_queued node status) s.rows })

  -- `input.state.failedNodes.add(input.node.id)`
  unfoldable pub add_failed : String → M W (Unit {0})
  add_failed node_id s = (returned tt, record s { failed_nodes = add s.failed_nodes node_id })

  unfoldable pub add_vars : Dict Json → M W (Unit {0})
  add_vars exports s = (returned tt, record s { vars = assign s.vars exports })

  -- The `switch` on the result's kind, after the row was written.
  unfoldable pub conclude : WorkflowNode → StepResult → M W NodeOutcome
  unfolding persist_step add_failed add_vars
  conclude node (StepResult.failed result) = do
    persist_step node StepStatus.failed result
    add_failed node.id
    pure failed
  conclude node (StepResult.succeeded result exports) = do
    persist_step node StepStatus.succeeded result
    add_vars exports
    pure succeeded

module _ {W : Type 0} (services : Services W) where
  -- `cancelRequested`: the run's row is read once more.
  unfoldable pub cancel_requested : M W Bool
  cancel_requested s = (returned (services.cancel_at s.polls), record s { polls = suc s.polls })

  -- `canceled || await this.cancelRequested(run.id)`
  unfoldable pub canceled_or_requested : Bool → M W Bool
  unfolding cancel_requested
  canceled_or_requested true = pure true
  canceled_or_requested false = cancel_requested

  -- The call of `executeWorkflowStep`, which catches what it throws itself.
  unfoldable pub run_step : WorkflowNode → M W StepResult
  run_step node s =
      let (result, world) = services.execute_step node s.vars s.world in
      (returned result, record s { world = world })

  unfoldable pub execute : WorkflowNode → M W NodeOutcome
  unfolding mark_step_status run_step conclude
  execute node = do
    mark_step_status node StepStatus.running
    result ← run_step node
    conclude node result

  unfoldable pub skip_blocked : WorkflowDefinition → WorkflowNode → M W NodeOutcome
  unfolding mark_step_status execute failed_dependency
  skip_blocked definition node s =
      if failed_dependency definition node s.failed_nodes
      then (do mark_step_status node StepStatus.skipped; pure skipped) s
      else execute node s

  unfoldable pub execute_or_skip_blocked : WorkflowDefinition → WorkflowNode → M W NodeOutcome
  unfolding load_step skip_blocked
  execute_or_skip_blocked definition node = do
    step ← load_step node.id
    if is_terminal_step step.status
        then pure (settled_outcome step.status)
        else skip_blocked definition node

  unfoldable pub fail_blocked : WorkflowDefinition → WorkflowNode → M W NodeOutcome
  unfolding persist_step add_failed execute failed_dependency
  fail_blocked definition node s =
      if failed_dependency definition node s.failed_nodes
      then (do
        persist_step node StepStatus.failed dependency_failed
        add_failed node.id
        pure failed)
          s
      else execute node s

  unfoldable pub execute_teardown : WorkflowDefinition → WorkflowNode → M W NodeOutcome
  unfolding load_step fail_blocked
  execute_teardown definition node = do
    step ← load_step node.id
    if is_terminal_step step.status
        then pure (settled_outcome step.status)
        else fail_blocked definition node
