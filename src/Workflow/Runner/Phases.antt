-- ===== src/Workflow/Runner/Phases.antt =====
-- What the loops of `executeRun` do to the rows of a run (runner/test-workflow-runner.service.ts):
-- no row falls back, and each loop that runs to its end leaves a terminal row for each of its nodes.
use bumd.Prelude.{
  suc, String, Bool, true, false, ◌||◌, Option, none, some, List, [], ◌∷◌, map, ◌==◌, if◌then◌else◌,
  contains, lookup, Except, returned, ◌≡◌, refl, sym, ap, subst, arith, eq_iff, eq_self, Bool-cases,
  Option-cases, inl, inr,
}
use bumd.Workflow.Types.{StepStatus, is_terminal_step, WorkflowNode, WorkflowDefinition}
use bumd.Workflow.Graph.Paths.{get_descendants_iff}
use bumd.Workflow.Definition.{ends}
use bumd.Workflow.Runner.Actions.{
  StepRow, Services, RunState, RunError, M, continue, continue-returned, branch,
}
use bumd.Workflow.Runner.{
  NodeOutcome, is_failed, canceled_or_requested, set_status, update_row, mark_queued_nodes,
  execute_or_skip_blocked, execute_teardown,
}
use bumd.Workflow.Runner.Run.{setup_loop, block_descendants, test_loop, teardown_loop, block}
use bumd.Workflow.Runner.Rows.{
  map_row, lookup-update_row, ready_row, settled_row, mark_queued_nodes-ready,
  mark_queued_nodes-keeps, mark_queued_nodes-settles,
}
use bumd.Workflow.Runner.Nodes.{
  NodeEffect, Effect, execute_or_skip_blocked-Effect, execute_teardown-Effect,
}

-- Rows that are ready or terminal stay so.
pub record Progress {W : Type 0} (s t : RunState W) : Type 0 where
  pub ready : (j : String) → ready_row (lookup j s.rows) ≡ true → ready_row (lookup j t.rows) ≡ true
  pub settled :
      (j : String) → settled_row (lookup j s.rows) ≡ true → settled_row (lookup j t.rows) ≡ true

-- All of the nodes have rows that are queued or terminal.
abbrev pub Ready : {W : Type 0} → List WorkflowNode → RunState W → Type 0
Ready nodes s =
    (j : String) → contains (map (λ n. n.id) nodes) j ≡ true → ready_row (lookup j s.rows) ≡ true

-- All of the nodes have terminal rows.
abbrev pub Settled : {W : Type 0} → List WorkflowNode → RunState W → Type 0
Settled nodes s =
    (j : String) → contains (map (λ n. n.id) nodes) j ≡ true → settled_row (lookup j s.rows) ≡ true

module _ {W : Type 0} where
  pub Progress-refl : (s : RunState W) → Progress s s
  Progress-refl s = record { ready = λ j h. h; settled = λ j h. h }

  pub Progress-trans : {s t u : RunState W} → Progress s t → Progress t u → Progress s u
  Progress-trans p q = record {
    ready = λ j h. q.ready j (p.ready j h);
    settled = λ j h. q.settled j (p.settled j h);
  }

  NodeEffect-Progress :
      (node : WorkflowNode) (before : StepRow) (s t : RunState W) (r : NodeOutcome)
      → lookup node.id s.rows ≡ some before
      → NodeEffect node before s r t
      → Progress s t
  NodeEffect-Progress node before s t r found e = record {
    ready = λ j h.
        ground (arith, e.others j, e.found, e.settled, eq_iff node.id j, Bool-cases (node.id == j));
    settled = λ j h.
        ground (arith, e.others j, e.found, e.settled, eq_iff node.id j, Bool-cases (node.id == j));
  }

  NodeEffect-settled :
      (node : WorkflowNode) (before : StepRow) (s t : RunState W) (r : NodeOutcome)
      → NodeEffect node before s r t
      → settled_row (lookup node.id t.rows) ≡ true
  NodeEffect-settled node before s t r e = ground (arith, e.found, e.settled)

  pub mark_queued_nodes-Progress :
      (nodes : List WorkflowNode) (status : StepStatus) (s : RunState W)
      → is_terminal_step status ≡ true
      → Progress s (mark_queued_nodes nodes status s).1
  mark_queued_nodes-Progress nodes status s terminal = record {
    ready = λ j h. mark_queued_nodes-ready nodes status s j terminal h;
    settled = λ j h. ground (arith, (mark_queued_nodes-keeps nodes status s j).2 h);
  }

  -- Marking settles the listed nodes.
  pub mark_queued_nodes-Settled :
      (nodes : List WorkflowNode) (status : StepStatus) (s : RunState W)
      → is_terminal_step status ≡ true
      → Ready nodes s
      → Settled nodes (mark_queued_nodes nodes status s).1
  mark_queued_nodes-Settled nodes status s terminal ready j m =
      elim (Option-cases (lookup j s.rows)) [
        | inl missing ↦ absurd (cc (ready j m, ap ready_row missing))
        | inr (row, found) ↦
            mark_queued_nodes-settles nodes status s j terminal m row found
              (ground (arith, ready j m))
      ]

  -- A loop that ends with two flags: where they are such that it went through all of the nodes, each
  -- of them has ended.
  abbrev pub Ends :
      (Bool × Bool → Type 0)
      → List WorkflowNode
      → RunState W
      → Except RunError (Bool × Bool) × RunState W
      → Type 0
  Ends Through nodes s m =
      (flags : Bool × Bool) × (m.0 ≡ returned flags)
      × Progress s m.1
      × (Through flags → Settled nodes m.1)

  -- The first node has ended, and the rest of the loop settles the other nodes.
  pub Ends-cons :
      (Through : Bool × Bool → Type 0) (node : WorkflowNode) (nodes : List WorkflowNode)
      (s t : RunState W) (m : Except RunError (Bool × Bool) × RunState W)
      → Progress s t
      → settled_row (lookup node.id t.rows) ≡ true
      → Ends Through nodes t m
      → Ends Through (node ∷ nodes) s m
  Ends-cons Through node nodes s t m p h (flags, e, q, rest) = (
    flags,
    e,
    Progress-trans p q,
    λ go j listed. elim (Bool-cases (node.id == j)) [
      | inl same ↦
          q.settled j (subst (λ k. settled_row (lookup k t.rows) ≡ true) ((eq_iff _ _).0 same) h)
      | inr other ↦ rest go j (ground arith)
    ],
  )

-- The loop was not left at a cancellation.
abbrev pub Uncanceled : Bool × Bool → Type 0
Uncanceled flags = flags.0 ≡ false

-- A loop that nothing leaves early.
abbrev pub Always : Bool × Bool → Type 0
Always flags = Unit

-- A node whose row is ready has a row.
pub row_of : (o : Option StepRow) → ready_row o ≡ true → (row : StepRow) × (o ≡ some row)
row_of none h = absurd (cc)
row_of (some row) h = (row, refl)

-- The same end, seen from a state with the same rows.
pub Ends-rows :
    {W : Type 0} (Through : Bool × Bool → Type 0) (nodes : List WorkflowNode) (s s' : RunState W)
    (m : Except RunError (Bool × Bool) × RunState W)
    → s'.rows ≡ s.rows
    → Ends Through nodes s' m
    → Ends Through nodes s m
Ends-rows Through nodes s s' m same (flags, e, p, done) = (
  flags,
  e,
  record {
    ready = λ j h. p.ready j (subst (λ rows. ready_row (lookup j rows) ≡ true) (sym same) h);
    settled = λ j h. p.settled j (subst (λ rows. settled_row (lookup j rows) ≡ true) (sym same) h);
  },
  done,
)

-- Work on the first node, and then the rest of the loop.
pub Ends-node :
    {W : Type 0} (Through : Bool × Bool → Type 0) (node : WorkflowNode) (nodes : List WorkflowNode)
    (s s' : RunState W) (before : StepRow) (m : Except RunError NodeOutcome × RunState W)
    (k : NodeOutcome → M W (Bool × Bool))
    → Ready (node ∷ nodes) s
    → s'.rows ≡ s.rows
    → lookup node.id s'.rows ≡ some before
    → Effect node before s' m
    → ((r : NodeOutcome) (t : RunState W) → Ready nodes t → Ends Through nodes t (k r t))
    → Ends Through (node ∷ nodes) s (continue m k)
Ends-node Through node nodes s s' before m k ready same found (r, e, effect) rest =
    let p = NodeEffect-Progress node before s' m.1 r found effect in
    let p' : Progress s m.1 = record {
      ready = λ j h. p.ready j (subst (λ rows. ready_row (lookup j rows) ≡ true) (sym same) h);
      settled =
          λ j h. p.settled j (subst (λ rows. settled_row (lookup j rows) ≡ true) (sym same) h);
    } in
    let later = rest r m.1 (λ j listed. p'.ready j (ready j (ground arith))) in
    subst (Ends Through (node ∷ nodes) s) (sym (continue-returned m k e)) (
      Ends-cons Through node nodes s m.1 (k r m.1) p'
        (NodeEffect-settled node before s' m.1 r effect) later)

-- A test node that a failed test blocks: its row becomes skipped.
module _ {W : Type 0} (node : WorkflowNode) (s t : RunState W)
    (e : t.rows ≡ update_row node.id (set_status node StepStatus.skipped) s.rows) where
  skipped_at :
      (j : String)
      → lookup j t.rows ≡ (
          if node.id == j
          then map_row (set_status node StepStatus.skipped) (lookup j s.rows)
          else lookup j s.rows)
  skipped_at j = rw e (lookup-update_row node.id j (set_status node StepStatus.skipped) s.rows)

  skipped-Progress : Progress s t
  skipped-Progress = record {
    ready = λ j h. ground (arith, skipped_at j);
    settled = λ j h. ground (arith, skipped_at j);
  }

module _ {W : Type 0} (services : Services W) (def : WorkflowDefinition) where
  pub setup_loop-Ends :
      (nodes : List WorkflowNode) (failed : Bool) (s : RunState W)
      → Ready nodes s
      → Ends Uncanceled nodes s (setup_loop services def nodes failed s)
  unfolding setup_loop
  setup_loop-Ends [] failed s ready =
      ((false, failed), refl, Progress-refl s, λ go j m. absurd (cc))
  setup_loop-Ends (node ∷ nodes) failed s ready =
      let (before, found) =
        row_of (lookup node.id s.rows) (ready node.id (ground (arith, eq_self node.id))) in
      let s' = record s { polls = suc s.polls } in
      branch (Ends Uncanceled (node ∷ nodes) s) (services.cancel_at s.polls) _ _ s'
        (λ c. (
          (true, failed),
          refl,
          record { ready = λ j h. h; settled = λ j h. h },
          λ go. absurd (cc),
        ))
        (λ c.
          Ends-node Uncanceled node nodes s s' before (execute_or_skip_blocked services def node s')
            _ ready refl found (execute_or_skip_blocked-Effect services def node before s' found)
            (λ r t ready'. setup_loop-Ends nodes (failed || is_failed r) t ready'))

  -- The read of the run's row changes no step's row.
  pub poll-rest {ℓ} :
      {A : Type 0} (canceled : Bool) (s : RunState W) (P : Except RunError A × RunState W → Type ℓ)
      (k : Bool → M W A)
      → ((b : Bool) (t : RunState W) → t.rows ≡ s.rows → P (k b t))
      → P (continue (canceled_or_requested services canceled s) k)
  unfolding canceled_or_requested
  poll-rest true s P k h = h true s refl
  poll-rest false s P k h = h (services.cancel_at s.polls) (record s { polls = suc s.polls }) refl

  block_descendants-total :
      (node : WorkflowNode) (r : NodeOutcome) (blocked : List String) (s : RunState W)
      → (blocked' : List String) × (block_descendants services def node r blocked s
          ≡ (returned blocked', s))
  unfolding block_descendants
  block_descendants-total node NodeOutcome.failed blocked s =
      let (found, e, iff) = get_descendants_iff node.id (map ends def.edges) in
      (block blocked found, rw (block_descendants, e))
  block_descendants-total node NodeOutcome.succeeded blocked s = (blocked, refl)
  block_descendants-total node NodeOutcome.skipped blocked s = (blocked, refl)

  pub test_loop-Ends :
      (nodes : List WorkflowNode) (blocked : List String) (failed : Bool) (s : RunState W)
      → Ready nodes s
      → Ends Uncanceled nodes s (test_loop services def nodes blocked failed s)
  unfolding test_loop
  test_loop-Ends [] blocked failed s ready =
      ((false, failed), refl, Progress-refl s, λ go j m. absurd (cc))
  test_loop-Ends (node ∷ nodes) blocked failed s ready =
      let (before, found) =
        row_of (lookup node.id s.rows) (ready node.id (ground (arith, eq_self node.id))) in
      let s' = record s { polls = suc s.polls } in
      let all = Ends Uncanceled (node ∷ nodes) s in
      branch all (services.cancel_at s.polls) _ _ s'
        (λ c. (
          (true, failed),
          refl,
          record { ready = λ j h. h; settled = λ j h. h },
          λ go. absurd (cc),
        ))
        (λ c.
          branch all (contains blocked node.id) _ _ s'
            (λ b.
              let t = record s' {
                rows = update_row node.id (set_status node StepStatus.skipped) s.rows;
              } in
              let p = skipped-Progress node s t refl in
              Ends-cons Uncanceled node nodes s t (test_loop services def nodes blocked failed t) p
                (ground (arith, skipped_at node s t refl node.id, found, eq_self node.id))
                (test_loop-Ends nodes blocked failed t (λ j m. p.ready j (ready j (ground arith)))))
            (λ b.
              Ends-node Uncanceled node nodes s s' before
                (execute_or_skip_blocked services def node s') _ ready refl found
                (execute_or_skip_blocked-Effect services def node before s' found)
                (λ r t ready'.
                  let (blocked', e) = block_descendants-total node r blocked t in
                  subst (Ends Uncanceled nodes t)
                    (sym (
                      ap
                        (λ m.
                          continue m
                            (λ names. test_loop services def nodes names (failed || is_failed r)))
                        e))
                    (test_loop-Ends nodes blocked' (failed || is_failed r) t ready'))))

  pub teardown_loop-Ends :
      (nodes : List WorkflowNode) (canceled failed : Bool) (s : RunState W)
      → Ready nodes s
      → Ends Always nodes s (teardown_loop services def nodes canceled failed s)
  unfolding teardown_loop
  teardown_loop-Ends [] canceled failed s ready =
      ((canceled, failed), refl, Progress-refl s, λ go j m. absurd (cc))
  teardown_loop-Ends (node ∷ nodes) canceled failed s ready =
      let (before, found) =
        row_of (lookup node.id s.rows) (ready node.id (ground (arith, eq_self node.id))) in
      Ends-node Always node nodes s s before (execute_teardown services def node s) _ ready refl
        found (execute_teardown-Effect services def node before s found)
        (λ r t ready'. poll-rest canceled t (Ends Always nodes t) _ (λ b t' same.
          Ends-rows Always nodes t t' _ same (
            teardown_loop-Ends nodes b (failed || is_failed r) t'
              (λ j m. subst (λ rows. ready_row (lookup j rows) ≡ true) (sym same) (ready' j m)))))
