-- ===== src/Workflow/Runner/KeepsRun.antt =====
-- A run keeps what every result of its steps has in common (runner/test-workflow-runner.service.ts).
use bumd.Prelude.{
  String, Bool, true, false, Option, none, some, List, [], ◌∷◌, ◌++◌, ◌||◌, if◌then◌else◌, map,
  contains, Dict, Except, returned, thrown, lookup,
}
use bumd.Json.{Json}
use bumd.Workflow.Types.{StepStatus, is_terminal_step, WorkflowNode, WorkflowDefinition}
use bumd.Workflow.Graph.{get_descendants}
use bumd.Workflow.Graph.Errors.{out_of_fuel}
use bumd.Workflow.Definition.{ends}
use bumd.Workflow.Runner.Actions.{
  PersistedStepResult, stored, StepRow, Services, RunState, RunError, missing_step, graph, raise, M,
  pure, ◌>>=◌,
}
use bumd.Workflow.Runner.{
  NodeOutcome, is_failed, dependency_failed, failed_dependency, load_step, mark_step_status,
  persist_step, mark_queued_nodes, cancel_requested, canceled_or_requested, run_step, execute,
  skip_blocked, execute_or_skip_blocked, fail_blocked, execute_teardown,
}
use bumd.Workflow.Runner.Run.{
  block, Flags, outcome_of, setup_loop, block_descendants, test_loop, test_phase, teardown_loop,
  run_phases,
}
use bumd.Workflow.Runner.Keeps.{
  RowsHold, Keeps, Keeps-continue, Keeps->>=, Keeps-if, RowsHold-if, Keeps-mark_step_status,
  Keeps-persist_step, Keeps-mark_queued_nodes, Keeps-conclude,
}

module _ (P : PersistedStepResult → Type 0) (blocked_holds : P dependency_failed) {W : Type 0}
    (services : Services W)
    (executed_holds : (node : WorkflowNode) (vars : Dict Json) (world : W)
      → P (stored (services.execute_step node vars world).0)) where
  Keeps-execute : (node : WorkflowNode) → Keeps P (execute services node)
  unfolding execute run_step
  Keeps-execute node s h =
      Keeps-conclude P node _ (executed_holds node s.vars s.world) _
        (Keeps-mark_step_status P node StepStatus.running s h)

  Keeps-skip_blocked :
      (def : WorkflowDefinition) (node : WorkflowNode) → Keeps P (skip_blocked services def node)
  unfolding skip_blocked
  Keeps-skip_blocked def node s h =
      RowsHold-if P (failed_dependency def node s.failed_nodes) _ (execute services node s)
        (Keeps-mark_step_status P node StepStatus.skipped s h) (Keeps-execute node s h)

  Keeps-load_step : (id : String) → Keeps P {W = W} (load_step id)
  unfolding load_step
  Keeps-load_step id s h = by_row (lookup id s.rows)
    where
      by_row :
          (o : Option StepRow)
          → RowsHold P
              (elim o as (λ x. Except RunError StepRow × RunState W) [
                | none ↦ (thrown (missing_step id), s)
                | some row ↦ (returned row, s)
              ]).1.rows
      by_row none = h
      by_row (some row) = h

  Keeps-execute_or_skip_blocked :
      (def : WorkflowDefinition) (node : WorkflowNode)
      → Keeps P (execute_or_skip_blocked services def node)
  unfolding execute_or_skip_blocked
  Keeps-execute_or_skip_blocked def node =
      Keeps->>= P (load_step node.id) _ (Keeps-load_step node.id) (λ step.
        Keeps-if P (is_terminal_step step.status) _ (skip_blocked services def node) (λ s h. h)
          (Keeps-skip_blocked def node))

  Keeps-fail_blocked :
      (def : WorkflowDefinition) (node : WorkflowNode) → Keeps P (fail_blocked services def node)
  unfolding fail_blocked persist_step
  Keeps-fail_blocked def node s h =
      RowsHold-if P (failed_dependency def node s.failed_nodes) _ (execute services node s)
        (Keeps-persist_step P node StepStatus.failed dependency_failed blocked_holds s h)
        (Keeps-execute node s h)

  Keeps-execute_teardown :
      (def : WorkflowDefinition) (node : WorkflowNode)
      → Keeps P (execute_teardown services def node)
  unfolding execute_teardown
  Keeps-execute_teardown def node =
      Keeps->>= P (load_step node.id) _ (Keeps-load_step node.id) (λ step.
        Keeps-if P (is_terminal_step step.status) _ (fail_blocked services def node) (λ s h. h)
          (Keeps-fail_blocked def node))

  Keeps-canceled_or_requested : (b : Bool) → Keeps P (canceled_or_requested services b)
  unfolding canceled_or_requested
  Keeps-canceled_or_requested true s h = h
  Keeps-canceled_or_requested false s h = h

  Keeps-cancel_requested : Keeps P (cancel_requested services)
  unfolding cancel_requested
  Keeps-cancel_requested s h = h

  Keeps-setup_loop :
      (def : WorkflowDefinition) (nodes : List WorkflowNode) (failed : Bool)
      → Keeps P (setup_loop services def nodes failed)
  unfolding setup_loop
  Keeps-setup_loop def [] failed = λ s h. h
  Keeps-setup_loop def (node ∷ nodes) failed =
      let next =
        λ (result : NodeOutcome). setup_loop services def nodes (failed || is_failed result) in
      let run = execute_or_skip_blocked services def node >>= next in
      let ended = pure {W = W} (true, failed) in
      Keeps->>= P (cancel_requested services) (λ canceled. if canceled then ended else run)
        Keeps-cancel_requested
        (λ canceled.
          Keeps-if P canceled ended run (λ s h. h)
            (Keeps->>= P (execute_or_skip_blocked services def node) next
              (Keeps-execute_or_skip_blocked def node)
              (λ result. Keeps-setup_loop def nodes (failed || is_failed result))))

  Keeps-block_descendants :
      (def : WorkflowDefinition) (node : WorkflowNode) (outcome : NodeOutcome)
      (blocked : List String)
      → Keeps P {W = W} (block_descendants services def node outcome blocked)
  unfolding block_descendants
  Keeps-block_descendants def node NodeOutcome.failed blocked s h =
      by_found (get_descendants node.id (map ends def.edges))
    where
      by_found :
          (o : Option (List String))
          → RowsHold P
              ((elim o as (λ x. M W (List String)) [
                | none ↦ raise (graph out_of_fuel)
                | some descendants ↦ pure (block blocked descendants)
              ])
                s).1.rows
      by_found none = h
      by_found (some descendants) = h
  Keeps-block_descendants def node NodeOutcome.succeeded blocked s h = h
  Keeps-block_descendants def node NodeOutcome.skipped blocked s h = h

  Keeps-test_loop :
      (def : WorkflowDefinition) (nodes : List WorkflowNode) (blocked : List String) (failed : Bool)
      → Keeps P (test_loop services def nodes blocked failed)
  unfolding test_loop
  Keeps-test_loop def [] blocked failed = λ s h. h
  Keeps-test_loop def (node ∷ nodes) blocked failed =
      let after = λ (result : NodeOutcome) (blocked' : List String).
        test_loop services def nodes blocked' (failed || is_failed result) in
      let next = λ (result : NodeOutcome).
        block_descendants services def node result blocked >>= after result in
      let run = execute_or_skip_blocked services def node >>= next in
      let rest = λ (done : Unit {0}). test_loop services def nodes blocked failed in
      let skip = mark_step_status node StepStatus.skipped >>= rest in
      let ended = pure {W = W} (true, failed) in
      Keeps->>= P (cancel_requested services)
        (λ canceled. if canceled then ended else (if contains blocked node.id then skip else run))
        Keeps-cancel_requested
        (λ canceled.
          Keeps-if P canceled ended (if contains blocked node.id then skip else run) (λ s h. h)
            (Keeps-if P (contains blocked node.id) skip run
              (Keeps->>= P (mark_step_status node StepStatus.skipped) rest
                (Keeps-mark_step_status P node StepStatus.skipped)
                (λ done. Keeps-test_loop def nodes blocked failed))
              (Keeps->>= P (execute_or_skip_blocked services def node) next
                (Keeps-execute_or_skip_blocked def node)
                (λ result.
                  Keeps->>= P (block_descendants services def node result blocked) (after result)
                    (Keeps-block_descendants def node result blocked)
                    (λ blocked'.
                      Keeps-test_loop def nodes blocked' (failed || is_failed result))))))

  Keeps-test_phase :
      (def : WorkflowDefinition) (setups tests : List WorkflowNode) (after : Bool × Bool)
      → Keeps P (test_phase services def setups tests after)
  unfolding test_phase
  Keeps-test_phase def setups tests (true, setup_failed) s h =
      Keeps-continue P (mark_queued_nodes (setups ++ tests) StepStatus.canceled s)
        (λ done.
          pure (record { canceled = true; setup_failed = setup_failed; test_failed = false }))
        (Keeps-mark_queued_nodes P (setups ++ tests) StepStatus.canceled s h) (λ done t k. k)
  Keeps-test_phase def setups tests (false, true) s h =
      Keeps-continue P (mark_queued_nodes tests StepStatus.skipped s)
        (λ done. pure (record { canceled = false; setup_failed = true; test_failed = false }))
        (Keeps-mark_queued_nodes P tests StepStatus.skipped s h) (λ done t k. k)
  Keeps-test_phase def setups tests (false, false) s h =
      let mark = λ (tested : Bool × Bool).
        if tested.0 then mark_queued_nodes {W = W} tests StepStatus.canceled else pure tt in
      let flags = λ (tested : Bool × Bool) (done : Unit {0}).
        pure {W = W} {A = Flags}
          (record { canceled = tested.0; setup_failed = false; test_failed = tested.1 }) in
      Keeps->>= P (test_loop services def tests [] false) (λ tested. mark tested >>= flags tested)
        (Keeps-test_loop def tests [] false)
        (λ tested.
          Keeps->>= P (mark tested) (flags tested)
            (Keeps-if P tested.0 (mark_queued_nodes {W = W} tests StepStatus.canceled) (pure tt)
              (Keeps-mark_queued_nodes P tests StepStatus.canceled) (λ t k. k))
            (λ done t k. k))
        s h

  Keeps-teardown_loop :
      (def : WorkflowDefinition) (nodes : List WorkflowNode) (canceled failed : Bool)
      → Keeps P (teardown_loop services def nodes canceled failed)
  unfolding teardown_loop
  Keeps-teardown_loop def [] canceled failed = λ s h. h
  Keeps-teardown_loop def (node ∷ nodes) canceled failed =
      let next = λ (result : NodeOutcome) (canceled' : Bool).
        teardown_loop services def nodes canceled' (failed || is_failed result) in
      let run = λ (result : NodeOutcome). canceled_or_requested services canceled >>= next result in
      Keeps->>= P (execute_teardown services def node) run (Keeps-execute_teardown def node)
        (λ result.
          Keeps->>= P (canceled_or_requested services canceled) (next result)
            (Keeps-canceled_or_requested canceled)
            (λ canceled'. Keeps-teardown_loop def nodes canceled' (failed || is_failed result)))

  pub Keeps-run_phases :
      (def : WorkflowDefinition) (setups tests teardowns : List WorkflowNode)
      → Keeps P (run_phases services def setups tests teardowns)
  unfolding run_phases
  Keeps-run_phases def setups tests teardowns =
      let ended = λ (flags : Flags) (after : Bool × Bool).
        pure {W = W} (outcome_of (record flags { canceled = after.0 }) after.1) in
      let teardowns_of = λ (flags : Flags) (canceled : Bool).
        teardown_loop services def teardowns canceled false >>= ended flags in
      let asked =
        λ (flags : Flags). canceled_or_requested services flags.canceled >>= teardowns_of flags in
      let tested =
        λ (after_setup : Bool × Bool). test_phase services def setups tests after_setup >>= asked in
      Keeps->>= P (setup_loop services def setups false) tested (Keeps-setup_loop def setups false)
        (λ after_setup.
          Keeps->>= P (test_phase services def setups tests after_setup) asked
            (Keeps-test_phase def setups tests after_setup)
            (λ flags.
              Keeps->>= P (canceled_or_requested services flags.canceled) (teardowns_of flags)
                (Keeps-canceled_or_requested flags.canceled)
                (λ canceled.
                  Keeps->>= P (teardown_loop services def teardowns canceled false) (ended flags)
                    (Keeps-teardown_loop def teardowns canceled false) (λ after s h. h))))
