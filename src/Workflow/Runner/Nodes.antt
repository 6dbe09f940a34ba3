-- ===== src/Workflow/Runner/Nodes.antt =====
-- What the runner's work on one node does to the state of the run
-- (runner/test-workflow-node-runner.ts).
use bumd.Prelude.{
  String, Bool, true, false, ◌&&◌, some, List, [], ◌∷◌, ◌==◌, if◌then◌else◌, contains, any, lookup,
  Except, returned, ◌≡◌, refl, ap, arith, eq_self, Bool-cases, if_true, if_false, subst, sym, inl,
  inr,
}
use bumd.Workflow.Types.{StepStatus, is_terminal_step, WorkflowNode, WorkflowDefinition}
use bumd.Workflow.Runner.Actions.{
  StepResult, StepRow, Services, RunState, RunError, M, pure, continue,
}
use bumd.Workflow.Runner.{
  NodeOutcome, settled_outcome, is_failed, set_status, set_result, update_row, load_step, conclude,
  execute, failed_dependency, skip_blocked, execute_or_skip_blocked, fail_blocked, execute_teardown,
  dependency_failed,
}
use bumd.Workflow.Runner.Rows.{lookup-update_row}

abbrev pub is_failed_status : StepStatus → Bool
is_failed_status StepStatus.failed = true
is_failed_status _ = false

-- The row of the node ends terminal, a row that was terminal stays as it is, and no other row changes.
-- The outcome is "failed" exactly if the row's status is; without failure no node is recorded as
-- failed, and if none was recorded before, a node that had not ended has succeeded.
pub record NodeEffect {W : Type 0} (node : WorkflowNode) (before : StepRow) (s : RunState W)
    (result : NodeOutcome) (t : RunState W) : Type 0 where
  pub after : StepRow
  pub found : lookup node.id t.rows ≡ some after
  pub settled : is_terminal_step after.status ≡ true
  pub kept : is_terminal_step before.status ≡ true → after ≡ before
  pub others : (j : String) → (node.id == j) ≡ false → lookup j t.rows ≡ lookup j s.rows
  pub outcome : is_failed result ≡ is_failed_status after.status
  pub failures : is_failed result ≡ false → t.failed_nodes ≡ s.failed_nodes
  pub success :
      s.failed_nodes ≡ []
      → is_terminal_step before.status ≡ false
      → is_failed result ≡ false
      → after.status ≡ StepStatus.succeeded

-- The action returns an outcome, with the effect that goes with it.
abbrev pub Effect :
    {W : Type 0}
    → WorkflowNode
    → StepRow
    → RunState W
    → Except RunError NodeOutcome × RunState W
    → Type 0
Effect node before s m = (r : NodeOutcome) × (m.0 ≡ returned r) × NodeEffect node before s r m.1

no_failed_dependency :
    (def : WorkflowDefinition) (node : WorkflowNode) → failed_dependency def node [] ≡ false
unfolding failed_dependency
no_failed_dependency def node = none_fails def.edges
  where
    none_fails :
        (es : List bumd.Workflow.Types.WorkflowEdge)
        → any (λ edge. edge.target == node.id && contains [] edge.source) es ≡ false
    none_fails [] = refl
    none_fails (e ∷ es) = ground (arith, none_fails es)

module _ {W : Type 0} where
  conclude-Effect :
      (node : WorkflowNode) (row before : StepRow) (s t : RunState W) (result : StepResult)
      → lookup node.id t.rows ≡ some row
      → is_terminal_step before.status ≡ false
      → ((j : String) → (node.id == j) ≡ false → lookup j t.rows ≡ lookup j s.rows)
      → t.failed_nodes ≡ s.failed_nodes
      → (r : NodeOutcome) × ((conclude node result t).0 ≡ returned r)
        × NodeEffect node before s r (conclude node result t).1
  unfolding conclude
  conclude-Effect node row before s t (StepResult.succeeded result exports) found fresh others
        same =
      let at = λ (j : String).
        lookup-update_row node.id j (set_result node StepStatus.succeeded result) t.rows in
      (
        NodeOutcome.succeeded,
        refl,
        record {
          after = set_result node StepStatus.succeeded result row;
          found = ground (arith, at node.id, eq_self node.id);
          settled = refl;
          kept = λ h. absurd (cc);
          others = λ j ne. ground (arith, at j, others j ne);
          outcome = refl;
          failures = λ h. same;
          success = λ a b c. refl;
        },
      )
  conclude-Effect node row before s t (StepResult.failed result) found fresh others same =
      let at = λ (j : String).
        lookup-update_row node.id j (set_result node StepStatus.failed result) t.rows in
      (
        NodeOutcome.failed,
        refl,
        record {
          after = set_result node StepStatus.failed result row;
          found = ground (arith, at node.id, eq_self node.id);
          settled = refl;
          kept = λ h. absurd (cc);
          others = λ j ne. ground (arith, at j, others j ne);
          outcome = refl;
          failures = λ h. absurd (cc);
          success = λ a b c. absurd (cc);
        },
      )

module _ {W : Type 0} (services : Services W) where
  execute-Effect :
      (node : WorkflowNode) (before : StepRow) (s : RunState W)
      → lookup node.id s.rows ≡ some before
      → is_terminal_step before.status ≡ false
      → (r : NodeOutcome) × ((execute services node s).0 ≡ returned r)
        × NodeEffect node before s r (execute services node s).1
  unfolding execute
  execute-Effect node before s found fresh =
      let at =
        λ (j : String). lookup-update_row node.id j (set_status node StepStatus.running) s.rows in
      let rows = update_row node.id (set_status node StepStatus.running) s.rows in
      let step = services.execute_step node s.vars s.world in
      conclude-Effect node (set_status node StepStatus.running before) before s
        (record s { rows = rows; world = step.1 }) step.0
        (ground (arith, at node.id, eq_self node.id)) fresh (λ j ne. ground (arith, at j)) refl

  -- A node whose row is terminal: nothing is done.
  settled-Effect :
      (node : WorkflowNode) (before : StepRow) (s : RunState W)
      → lookup node.id s.rows ≡ some before
      → is_terminal_step before.status ≡ true
      → NodeEffect node before s (settled_outcome before.status) s
  settled-Effect node before s found terminal = record {
    after = before;
    found = found;
    settled = terminal;
    kept = λ h. refl;
    others = λ j ne. refl;
    outcome = ground arith;
    failures = λ h. refl;
    success = λ a b c. absurd (cc);
  }

  module _ (def : WorkflowDefinition) (node : WorkflowNode) (before : StepRow) (s : RunState W)
      (found : lookup node.id s.rows ≡ some before) where
    unblocked : s.failed_nodes ≡ [] → failed_dependency def node s.failed_nodes ≡ true → ⊥
    unblocked none_failed blocked = cc (no_failed_dependency def node, rw none_failed at blocked)

    skip_blocked-Effect :
        is_terminal_step before.status ≡ false
        → Effect node before s (skip_blocked services def node s)
    unfolding skip_blocked
    skip_blocked-Effect fresh = elim (Bool-cases (failed_dependency def node s.failed_nodes)) [
      | inr free ↦
          subst (Effect node before s) (sym (if_false _ _ free))
            (execute-Effect node before s found fresh)
      | inl blocked ↦
          let at = λ (j : String).
            lookup-update_row node.id j (set_status node StepStatus.skipped) s.rows in
          subst (Effect node before s) (sym (if_true _ _ blocked)) (
            NodeOutcome.skipped,
            refl,
            record {
              after = set_status node StepStatus.skipped before;
              found = ground (arith, at node.id, eq_self node.id);
              settled = refl;
              kept = λ h. absurd (cc);
              others = λ j ne. ground (arith, at j);
              outcome = refl;
              failures = λ h. refl;
              success = λ a b c. absurd (unblocked a blocked);
            },
          )
    ]

    fail_blocked-Effect :
        is_terminal_step before.status ≡ false
        → Effect node before s (fail_blocked services def node s)
    unfolding fail_blocked
    fail_blocked-Effect fresh = elim (Bool-cases (failed_dependency def node s.failed_nodes)) [
      | inr free ↦
          subst (Effect node before s) (sym (if_false _ _ free))
            (execute-Effect node before s found fresh)
      | inl blocked ↦
          let at = λ (j : String).
            lookup-update_row node.id j (set_result node StepStatus.failed dependency_failed)
              s.rows in
          subst (Effect node before s) (sym (if_true _ _ blocked)) (
            NodeOutcome.failed,
            refl,
            record {
              after = set_result node StepStatus.failed dependency_failed before;
              found = ground (arith, at node.id, eq_self node.id);
              settled = refl;
              kept = λ h. absurd (cc);
              others = λ j ne. ground (arith, at j);
              outcome = refl;
              failures = λ h. absurd (cc);
              success = λ a b c. absurd (unblocked a blocked);
            },
          )
    ]

    -- The rest of both methods after the row was read.
    resume : M W NodeOutcome → Except RunError NodeOutcome × RunState W
    resume rest =
        (if is_terminal_step before.status then pure (settled_outcome before.status) else rest) s

    resume-Effect :
        (rest : M W NodeOutcome)
        → (is_terminal_step before.status ≡ false → Effect node before s (rest s))
        → Effect node before s (resume rest)
    unfolding resume
    resume-Effect rest fresh = elim (Bool-cases (is_terminal_step before.status)) [
      | inl ended ↦
          subst (Effect node before s) (sym (ap (λ (m : M W NodeOutcome). m s) (if_true _ _ ended)))
            (settled_outcome before.status, refl, settled-Effect node before s found ended)
      | inr going ↦
          subst (Effect node before s)
            (sym (ap (λ (m : M W NodeOutcome). m s) (if_false _ _ going))) (fresh going)
    ]

    load_step-found : load_step node.id s ≡ (returned before, s)
    unfolding load_step
    load_step-found = rw (load_step, found)

    -- What `executeOrSkipBlocked` does to the node's row, whatever the row holds.
    pub execute_or_skip_blocked-Effect :
        Effect node before s (execute_or_skip_blocked services def node s)
    unfolding execute_or_skip_blocked resume
    execute_or_skip_blocked-Effect =
        subst
          (λ loaded. Effect node before s (
            continue loaded (λ step.
              if is_terminal_step step.status
              then pure (settled_outcome step.status)
              else skip_blocked services def node)))
          (sym load_step-found) (resume-Effect (skip_blocked services def node) skip_blocked-Effect)

    -- The same of `executeTeardown`.
    pub execute_teardown-Effect : Effect node before s (execute_teardown services def node s)
    unfolding execute_teardown resume
    execute_teardown-Effect =
        subst
          (λ loaded. Effect node before s (
            continue loaded (λ step.
              if is_terminal_step step.status
              then pure (settled_outcome step.status)
              else fail_blocked services def node)))
          (sym load_step-found) (resume-Effect (fail_blocked services def node) fail_blocked-Effect)
