-- ===== src/Workflow/Runner/Settled.antt =====
-- Every run ends with a terminal row for each of its nodes
-- (runner/test-workflow-runner.service.ts).
use bumd.Prelude.{
  String, Bool, true, false, ◌||◌, List, [], ◌∷◌, ◌++◌, map, contains, lookup, Except, returned,
  ◌≡◌, refl, sym, subst, arith, Bool-cases, inl, inr,
}
use bumd.Workflow.Types.{StepStatus, WorkflowNode, WorkflowDefinition}
use bumd.Workflow.Runner.Actions.{
  Services, RunState, RunError, M, pure, branch, continue, continue-returned,
}
use bumd.Workflow.Runner.{mark_queued_nodes}
use bumd.Workflow.Runner.Run.{
  RunOutcome, Flags, outcome_of, setup_loop, test_phase, test_loop, teardown_loop, run_phases,
}
use bumd.Workflow.Runner.Rows.{ready_row, settled_row, mark_queued_nodes-keeps}
use bumd.Workflow.Runner.Phases.{
  Progress, Progress-trans, Ready, Settled, mark_queued_nodes-Progress, mark_queued_nodes-Settled,
  poll-rest, setup_loop-Ends, test_loop-Ends, teardown_loop-Ends,
}

module _ {W : Type 0} (services : Services W) (def : WorkflowDefinition)
    (setups tests : List WorkflowNode) where
  -- The test phase returns its flags, and afterwards each setup and test node has ended.
  abbrev Tested : RunState W → Except RunError Flags × RunState W → Type 0
  Tested s m =
      (flags : Flags) × (m.0 ≡ returned flags)
      × Progress s m.1
      × Settled setups m.1
      × Settled tests m.1

  contains-append-left :
      (xs ys : List WorkflowNode) (j : String)
      → contains (map (λ n. n.id) (xs ++ ys)) j
        ≡ (contains (map (λ n. n.id) xs) j || contains (map (λ n. n.id) ys) j)
  contains-append-left [] ys j = refl
  contains-append-left (x ∷ xs) ys j = ground (arith, contains-append-left xs ys j)

  Settled-append :
      (s : RunState W) → Settled (setups ++ tests) s → Settled setups s × Settled tests s
  Settled-append s h = (
    λ j m. h j (ground (arith, contains-append-left setups tests j)),
    λ j m. h j (ground (arith, contains-append-left setups tests j)),
  )

  Ready-append : (s : RunState W) → Ready setups s → Ready tests s → Ready (setups ++ tests) s
  Ready-append s rs rt j m = elim (Bool-cases (contains (map (λ n. n.id) setups) j)) [
    | inl listed ↦ rs j listed
    | inr other ↦ rt j (ground (arith, contains-append-left setups tests j))
  ]

  -- What follows the marking of nodes runs.
  marked :
      (nodes : List WorkflowNode) (status : StepStatus) (s u : RunState W) (k : M W Flags)
      → Tested u (k (mark_queued_nodes nodes status s).1)
      → Tested u (continue (mark_queued_nodes nodes status s) (λ _. k))
  marked nodes status s u k h =
      subst (Tested u)
        (sym (
          continue-returned (mark_queued_nodes nodes status s) (λ _. k)
            (mark_queued_nodes-keeps nodes status s "").0))
        h

  test_phase-Tested :
      (after_setup : Bool × Bool) (s : RunState W)
      → Ready setups s
      → Ready tests s
      → (after_setup.0 ≡ false → Settled setups s)
      → Tested s (test_phase services def setups tests after_setup s)
  unfolding test_phase
  test_phase-Tested (true, failed) s rs rt done =
      let all = setups ++ tests in
      let p = mark_queued_nodes-Progress all StepStatus.canceled s refl in
      let ended =
        Settled-append (mark_queued_nodes all StepStatus.canceled s).1
          (mark_queued_nodes-Settled all StepStatus.canceled s refl (Ready-append s rs rt)) in
      marked all StepStatus.canceled s s _ (_, refl, p, ended.0, ended.1)
  test_phase-Tested (false, true) s rs rt done =
      let p = mark_queued_nodes-Progress tests StepStatus.skipped s refl in
      marked tests StepStatus.skipped s s _ (
        _,
        refl,
        p,
        λ j m. p.settled j (done refl j m),
        mark_queued_nodes-Settled tests StepStatus.skipped s refl rt,
      )
  test_phase-Tested (false, false) s rs rt done =
      let (tested, e, p, ended) = test_loop-Ends services def tests [] false s rt in
      let t = (test_loop services def tests [] false s).1 in
      let still : Settled setups t = λ j m. p.settled j (done refl j m) in
      subst (Tested s) (sym (continue-returned (test_loop services def tests [] false s) _ e)) (
        branch
          (λ m. Tested s (
            continue m (λ _.
              pure {A = Flags}
                (record { canceled = tested.0; setup_failed = false; test_failed = tested.1 }))))
          tested.0 (mark_queued_nodes tests StepStatus.canceled) (pure tt) t
          (λ c.
            let q = mark_queued_nodes-Progress tests StepStatus.canceled t refl in
            let flags : Flags = record {
              canceled = tested.0;
              setup_failed = false;
              test_failed = tested.1;
            } in
            marked tests StepStatus.canceled t s (pure flags) (
              flags,
              refl,
              Progress-trans p q,
              λ j m. q.settled j (still j m),
              mark_queued_nodes-Settled tests StepStatus.canceled t refl
                  (λ j m. p.ready j (rt j m)),
            ))
          (λ c. (_, refl, p, still, ended c)))

-- The action returns an outcome, and each node has a terminal row in the end.
abbrev pub Finishes :
    {W : Type 0} → List WorkflowNode → Except RunError RunOutcome × RunState W → Type 0
Finishes nodes m = (outcome : RunOutcome) × (m.0 ≡ returned outcome) × Settled nodes m.1

module _ {W : Type 0} (services : Services W) (def : WorkflowDefinition) where
  -- From rows that are queued or terminal, the loops of `executeRun` return an outcome and leave a
  -- terminal row for each node of each phase, however steps end and whenever the run is canceled.
  pub run_phases-Settled :
      (setups tests teardowns : List WorkflowNode) (s : RunState W)
      → Ready setups s
      → Ready tests s
      → Ready teardowns s
      → (outcome : RunOutcome) × ((run_phases services def setups tests teardowns s).0
          ≡ returned outcome)
        × Settled setups (run_phases services def setups tests teardowns s).1
        × Settled tests (run_phases services def setups tests teardowns s).1
        × Settled teardowns (run_phases services def setups tests teardowns s).1
  unfolding run_phases
  run_phases-Settled setups tests teardowns s rs rt rd =
      let first = setup_loop services def setups false s in
      let (after_setup, e, p, ended) = setup_loop-Ends services def setups false s rs in
      let second = test_phase services def setups tests after_setup first.1 in
      let (flags, e', q, setups_done, tests_done) =
        test_phase-Tested services def setups tests after_setup first.1 (λ j m. p.ready j (rs j m))
          (λ j m. p.ready j (rt j m)) ended in
      let All = λ (m : Except RunError RunOutcome × RunState W).
        (outcome : RunOutcome) × (m.0 ≡ returned outcome)
        × Settled setups m.1
        × Settled tests m.1
        × Settled teardowns m.1 in
      subst All (sym (continue-returned first _ e)) (
        subst All (sym (continue-returned second _ e')) (
          poll-rest services def flags.canceled second.1 All _ (λ b t same.
            let keep = λ (j : String) (h : settled_row (lookup j second.1.rows) ≡ true).
              subst (λ rows. settled_row (lookup j rows) ≡ true) (sym same) h in
            let third = teardown_loop services def teardowns b false t in
            let (torn, e'', r, done) = teardown_loop-Ends services def teardowns b false t (λ j m.
              subst (λ rows. ready_row (lookup j rows) ≡ true) (sym same)
                (q.ready j (p.ready j (rd j m)))) in
            subst All (sym (continue-returned third _ e'')) (
              outcome_of (record flags { canceled = torn.0 }) torn.1,
              refl,
              λ j m. r.settled j (keep j (setups_done j m)),
              λ j m. r.settled j (keep j (tests_done j m)),
              done tt,
            ))))
