-- ===== src/Workflow/Runner/Finish.antt =====
-- `executeRun` and `process` as a whole (runner/test-workflow-runner.service.ts): a run of an
-- accepted definition, and the row of a run after its job.
use bumd.Prelude.{
  ◌⊎◌, inl, inr, String, Bool, true, false, Option, none, some, List, [], ◌∷◌, map, contains,
  lookup, Except, returned, thrown, ◌≡◌, refl, sym, ap, ◌∙◌, subst, arith, eq_iff, Bool-cases, inl,
  inr,
}
use bumd.Workflow.Types.{
  is_terminal_run, NodePhase, setup, test, teardown, WorkflowNode, WorkflowDefinition,
}
use bumd.Workflow.Graph.{build_topological_order}
use bumd.Workflow.Graph.Errors.{ok, Result-cases}
use bumd.Workflow.Graph.Order.{build_topological_order-IsTopologicalOrder}
use bumd.Workflow.Definition.{
  DefinitionInput, DefinitionError, ends, by_id, parse_and_validate_definition,
}
use bumd.Workflow.Definition.Validity.{
  parse_and_validate_definition_iff, parse_and_validate_definition-build_topological_order,
}
use bumd.Workflow.Runner.Actions.{Services, RunState, RunError, M, continue}
use bumd.Workflow.Runner.{canceled_or_requested}
use bumd.Workflow.Runner.Run.{
  RunOutcome, Flags, outcome_of, setup_loop, test_phase, teardown_loop, run_phases, run_order,
  run_definition, run_parsed, execute_run, nodes_for_phase, RunRow, caught, process, persisted_rows,
  new_run,
}
use bumd.Workflow.Runner.Rows.{ready_row, settled_row}
use bumd.Workflow.Runner.Phases.{Ready, Settled}
use bumd.Workflow.Runner.Settled.{run_phases-Settled}
use bumd.Workflow.Runner.Split.{nodes_for_phase-Within, nodes_for_phase-cases}

module _ {W : Type 0} (services : Services W) (input : DefinitionInput) (def : WorkflowDefinition)
    (accepted : parse_and_validate_definition input ≡ returned def) where
  execute_run-order :
      (order : List String)
      → build_topological_order (map (λ n. n.id) def.nodes) (map ends def.edges) ≡ ok order
      → (s : RunState W)
      → execute_run (returned services) (some input) s ≡ run_order services def order s
  unfolding execute_run run_parsed run_definition
  execute_run-order order sorted s =
      ap (λ parsed. run_parsed (returned services) parsed s) accepted
      ∙ ap (λ found. run_definition (returned services) def found s) sorted

  execute_run-unloaded :
      (order : List String)
      → build_topological_order (map (λ n. n.id) def.nodes) (map ends def.edges) ≡ ok order
      → (e : RunError) (s : RunState W)
      → execute_run {W = W} (thrown e) (some input) s ≡ (thrown e, s)
  unfolding execute_run run_parsed run_definition
  execute_run-unloaded order sorted e s =
      ap (λ parsed. run_parsed {W = W} (thrown e) parsed s) accepted
      ∙ ap (λ found. run_definition {W = W} (thrown e) def found s) sorted

  -- A run of an accepted definition whose rows are queued or terminal returns an outcome, and leaves
  -- a terminal row for every node, whatever the steps return and whenever the run is canceled, where
  -- its environment was loaded. Where loading it throws, the run throws the same error, and its rows
  -- stay as they are.
  pub execute_run-Settled :
      (s : RunState W)
      → Ready def.nodes s
      → ((outcome : RunOutcome) × ((execute_run (returned services) (some input) s).0
            ≡ returned outcome)
          × Settled def.nodes (execute_run (returned services) (some input) s).1)
        × ((e : RunError) → execute_run {W = W} (thrown e) (some input) s ≡ (thrown e, s))
  unfolding run_order
  execute_run-Settled s ready =
      let (order, sorted) =
        parse_and_validate_definition-build_topological_order input def accepted in
      let ids = map (λ n. n.id) def.nodes in
      let w = ((parse_and_validate_definition_iff input def).0 accepted).1 in
      let topological =
        build_topological_order-IsTopologicalOrder ids (map ends def.edges) order sorted in
      let same = topological.same_members in
      let part = λ (phase : NodePhase). nodes_for_phase order (by_id def.nodes) phase in
      let ready_part : (phase : NodePhase) → Ready (part phase) s = λ phase j m.
        ready j (ground (arith, same j, nodes_for_phase-Within order def.nodes phase j)) in
      let (outcome, e, setups, tests, teardowns) =
        run_phases-Settled services def (part setup) (part test) (part teardown) s
          (ready_part setup) (ready_part test) (ready_part teardown) in
      let ended = execute_run-order order sorted s in
      let after = (run_order services def order s).1 in
      let settled_part : (phase : NodePhase) → Settled (part phase) after = λ phase.
        elim phase as (λ p. Settled (part p) after) [
          | setup ↦ setups
          | test ↦ tests
          | teardown ↦ teardowns
        ] in
      (
        (
          outcome,
          ap (λ m. m.0) ended ∙ e,
          λ j m.
              let (phase, listed) =
                nodes_for_phase-cases order def.nodes j (ground (arith, same j)) m in
              subst (λ r. settled_row (lookup j r.1.rows) ≡ true) (sym ended)
                (settled_part phase j listed),
        ),
        λ error. execute_run-unloaded order sorted error s,
      )

-- The rows of a new run are queued.
persisted_rows-ready :
    (nodes : List WorkflowNode) (j : String)
    → contains (map (λ n. n.id) nodes) j ≡ true
    → ready_row (lookup j (persisted_rows nodes)) ≡ true
persisted_rows-ready [] j m = absurd (cc)
persisted_rows-ready (n ∷ nodes) j m = ground (arith, persisted_rows-ready nodes j, eq_iff n.id j)

pub new_run-Ready :
    {W : Type 0} (nodes : List WorkflowNode) (world : W) → Ready nodes (new_run nodes world)
new_run-Ready nodes world j m = persisted_rows-ready nodes j m

-- What a run returns, if it does not throw, is terminal.
abbrev EndsTerminal : {W : Type 0} → Except RunError RunOutcome × RunState W → Type 0
EndsTerminal m =
    (outcome : RunOutcome) → m.0 ≡ returned outcome → is_terminal_run outcome.status ≡ true

outcome_of-terminal :
    (flags : Flags) (failed : Bool) → is_terminal_run (outcome_of flags failed).status ≡ true
unfolding outcome_of
outcome_of-terminal flags failed = ground arith

EndsTerminal-continue :
    {W A : Type 0} (m : Except RunError A × RunState W) (k : A → M W RunOutcome)
    → ((a : A) (t : RunState W) → EndsTerminal (k a t))
    → EndsTerminal (continue m k)
EndsTerminal-continue (returned a, t) k h = h a t
EndsTerminal-continue (thrown e, t) k h = λ outcome same. absurd (cc)

module _ {W : Type 0} where
  run_phases-EndsTerminal :
      (services : Services W) (def : WorkflowDefinition)
      (setups tests teardowns : List WorkflowNode) (s : RunState W)
      → EndsTerminal (run_phases services def setups tests teardowns s)
  unfolding run_phases
  run_phases-EndsTerminal services def setups tests teardowns s =
      EndsTerminal-continue (setup_loop services def setups false s) _ (λ a t.
        EndsTerminal-continue (test_phase services def setups tests a t) _ (λ flags t'.
          EndsTerminal-continue (canceled_or_requested services flags.canceled t') _
            (λ canceled t''.
              EndsTerminal-continue (teardown_loop services def teardowns canceled false t'') _
                (λ torn u outcome same.
                  let made = outcome_of-terminal (record flags { canceled = torn.0 }) torn.1 in
                  cc))))

  run_parsed-EndsTerminal :
      (environment : Except RunError (Services W)) (r : Except DefinitionError WorkflowDefinition)
      (s : RunState W)
      → EndsTerminal (run_parsed environment r s)
  unfolding run_parsed run_definition run_order
  run_parsed-EndsTerminal environment (thrown e) s = λ outcome same. absurd (cc)
  run_parsed-EndsTerminal environment (returned def) s =
      elim (Result-cases
        (build_topological_order (map (λ node. node.id) def.nodes) (map ends def.edges))) [
          | inl (order, sorted) ↦
              subst (λ o. EndsTerminal (run_definition environment def o s)) (sym sorted)
                (sorted_run environment order)
          | inr (e, refused) ↦
              subst (λ o. EndsTerminal (run_definition environment def o s)) (sym refused)
                (λ outcome same. absurd (cc))
        ]
    where
      sorted_run :
          (env : Except RunError (Services W)) (order : List String)
          → EndsTerminal (run_definition env def (ok order) s)
      sorted_run (thrown e) order = λ outcome same. absurd (cc)
      sorted_run (returned services) order = run_phases-EndsTerminal services def _ _ _ s

  execute_run-EndsTerminal :
      (environment : Except RunError (Services W)) (snapshot : Option DefinitionInput)
      (s : RunState W)
      → EndsTerminal (execute_run environment snapshot s)
  unfolding execute_run
  execute_run-EndsTerminal environment none s = λ outcome same. absurd (cc)
  execute_run-EndsTerminal environment (some input) s =
      run_parsed-EndsTerminal environment (parse_and_validate_definition input) s

  caught-terminal :
      (m : Except RunError RunOutcome × RunState W)
      → EndsTerminal m
      → is_terminal_run (caught m.0).status ≡ true
  caught-terminal (returned outcome, t) h = h outcome refl
  caught-terminal (thrown e, t) h = refl

  -- A job leaves the row of its run terminal, whatever was stored and whatever was thrown. The row of
  -- a run that has ended, and the state of its steps, it leaves alone.
  pub process-terminal :
      (environment : Except RunError (Services W)) (snapshot : Option DefinitionInput)
      (row : RunRow) (s : RunState W)
      → (is_terminal_run (process environment snapshot row s).0.status ≡ true)
        × ((is_terminal_run row.status ≡ false) ⊎ (process environment snapshot row s ≡ (row, s)))
  unfolding process
  process-terminal environment snapshot row s = elim (Bool-cases (is_terminal_run row.status)) [
    | inl ended ↦ (rw ended ended, inr (rw ended))
    | inr going ↦ (
      rw going (
          caught-terminal (execute_run environment snapshot s)
            (execute_run-EndsTerminal environment snapshot s)),
      inl going,
    )
  ]
