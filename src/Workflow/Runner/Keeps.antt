-- ===== src/Workflow/Runner/Keeps.antt =====
-- What every result that a run writes to its rows has in common (runner/test-workflow-runner.service.ts
-- and runner/test-workflow-node-runner.ts).
use bumd.Prelude.{
  String, Bool, true, false, Option, none, some, List, [], ◌∷◌, ◌==◌, if◌then◌else◌, All, Dict,
  Except, returned, thrown,
}
use bumd.Workflow.Types.{StepStatus, WorkflowNode}
use bumd.Workflow.Runner.Actions.{
  PersistedStepResult, StepResult, stored, StepRow, RunState, RunError, M, continue, ◌>>=◌,
}
use bumd.Workflow.Runner.{
  is_queued, set_queued, set_status, set_result, update_row, mark_step_status, persist_step,
  mark_queued_nodes, add_failed, conclude,
}

module _ (P : PersistedStepResult → Type 0) where
  abbrev pub ResultHolds : Option PersistedStepResult → Type 0
  ResultHolds none = Unit {0}
  ResultHolds (some result) = P result

  -- The property holds of every result in the rows.
  abbrev pub RowsHold : Dict StepRow → Type 0
  RowsHold rows = All (λ entry. ResultHolds entry.1.result) rows

  module _ {W : Type 0} where
    -- The action keeps it.
    abbrev pub Keeps : {A : Type 0} → M W A → Type 0
    Keeps m = (s : RunState W) → RowsHold s.rows → RowsHold (m s).1.rows

    pub Keeps-continue :
        {A B : Type 0} (m : Except RunError A × RunState W) (f : A → M W B)
        → RowsHold m.1.rows
        → ((a : A) → Keeps (f a))
        → RowsHold (continue m f).1.rows
    Keeps-continue (returned a, s) f h k = k a s h
    Keeps-continue (thrown e, s) f h k = h

    pub Keeps->>= :
        {A B : Type 0} (m : M W A) (f : A → M W B)
        → Keeps m
        → ((a : A) → Keeps (f a))
        → Keeps (m >>= f)
    Keeps->>= m f k l s h = Keeps-continue (m s) f (k s h) l

    pub Keeps-if :
        {A : Type 0} (b : Bool) (x y : M W A) → Keeps x → Keeps y → Keeps (if b then x else y)
    Keeps-if true x y k l = k
    Keeps-if false x y k l = l

    pub RowsHold-if :
        {A : Type 0} (b : Bool) (x y : Except RunError A × RunState W)
        → RowsHold x.1.rows
        → RowsHold y.1.rows
        → RowsHold (if b then x else y).1.rows
    RowsHold-if true x y h k = h
    RowsHold-if false x y h k = k

  RowsHold-update_row :
      (id : String) (change : StepRow → StepRow) (rows : Dict StepRow)
      → ((row : StepRow) → ResultHolds row.result → ResultHolds (change row).result)
      → RowsHold rows
      → RowsHold (update_row id change rows)
  unfolding update_row
  RowsHold-update_row id change [] keep h = tt
  RowsHold-update_row id change ((k, row) ∷ rows) keep (h, hs) =
      (changed_if (k == id), RowsHold-update_row id change rows keep hs)
    where
      changed_if : (b : Bool) → ResultHolds (if b then change row else row).result
      changed_if true = keep row h
      changed_if false = h

  queued_if :
      (node : WorkflowNode) (status : StepStatus) (row : StepRow)
      → ResultHolds row.result
      → ResultHolds (set_queued node status row).result
  queued_if node status row h = by_status (is_queued row.status)
    where
      by_status :
          (b : Bool)
          → ResultHolds
              (if b then record row { status = status; phase = node.phase } else row).result
      by_status true = h
      by_status false = h

  module _ {W : Type 0} where
    pub Keeps-mark_step_status :
        (node : WorkflowNode) (status : StepStatus) → Keeps {W = W} (mark_step_status node status)
    unfolding mark_step_status
    Keeps-mark_step_status node status s h =
        RowsHold-update_row node.id (set_status node status) s.rows (λ row k. k) h

    pub Keeps-persist_step :
        (node : WorkflowNode) (status : StepStatus) (result : PersistedStepResult)
        → P result
        → Keeps {W = W} (persist_step node status result)
    unfolding persist_step
    Keeps-persist_step node status result p s h =
        RowsHold-update_row node.id (set_result node status result) s.rows (λ row k. p) h

    pub Keeps-mark_queued_nodes :
        (nodes : List WorkflowNode) (status : StepStatus)
        → Keeps {W = W} (mark_queued_nodes nodes status)
    unfolding mark_queued_nodes
    Keeps-mark_queued_nodes [] status s h = h
    Keeps-mark_queued_nodes (node ∷ nodes) status s h =
        Keeps-mark_queued_nodes nodes status
          (record s { rows = update_row node.id (set_queued node status) s.rows })
          (RowsHold-update_row node.id (set_queued node status) s.rows (queued_if node status) h)

    pub Keeps-add_failed : (id : String) → Keeps {W = W} (add_failed id)
    unfolding add_failed
    Keeps-add_failed id s h = h

    pub Keeps-conclude :
        (node : WorkflowNode) (result : StepResult)
        → P (stored result)
        → Keeps {W = W} (conclude node result)
    unfolding conclude persist_step
    Keeps-conclude node (StepResult.failed result) p s h =
        Keeps-persist_step node StepStatus.failed result p s h
    Keeps-conclude node (StepResult.succeeded result exports) p s h =
        Keeps-persist_step node StepStatus.succeeded result p s h
