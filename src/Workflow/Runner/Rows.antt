-- ===== src/Workflow/Runner/Rows.antt =====
-- What a write to one row does to the rows of a run (runner/test-workflow-run-store.ts).
use bumd.Prelude.{
  String, Bool, true, false, ◌||◌, Option, none, some, List, [], ◌∷◌, ◌==◌, if◌then◌else◌, contains,
  map, Dict, lookup, returned, ◌≡◌, refl, arith, eq_iff, Bool-cases, inl, inr,
}
use bumd.Workflow.Types.{StepStatus, is_terminal_step, WorkflowNode}
use bumd.Workflow.Runner.Actions.{StepRow, RunState}
use bumd.Workflow.Runner.{update_row, is_queued, set_queued, mark_queued_nodes}

abbrev pub map_row : (StepRow → StepRow) → Option StepRow → Option StepRow
map_row f none = none
map_row f (some row) = some (f row)

pub lookup-update_row :
    (k j : String) (f : StepRow → StepRow) (rows : Dict StepRow)
    → lookup j (update_row k f rows) ≡ (if k == j then map_row f (lookup j rows) else lookup j rows)
unfolding update_row
lookup-update_row k j f [] = ground arith
lookup-update_row k j f ((i, row) ∷ rows) =
    ground (arith, lookup-update_row k j f rows, eq_iff i k, eq_iff i j, eq_iff k j)

-- The step of this node has a row with a terminal status.
abbrev pub settled_row : Option StepRow → Bool
settled_row none = false
settled_row (some row) = is_terminal_step row.status

-- The step of this node has a row.
abbrev pub present : Option StepRow → Bool
present none = false
present (some row) = true

-- The step has a row, and it is queued or terminal.
abbrev pub ready_row : Option StepRow → Bool
ready_row none = false
ready_row (some row) = is_queued row.status || is_terminal_step row.status

ready_kept :
    (node : WorkflowNode) (status : StepStatus) (row : Option StepRow)
    → is_terminal_step status ≡ true
    → ready_row row ≡ true
    → ready_row (map_row (set_queued node status) row) ≡ true
ready_kept node status none t h = h
ready_kept node status (some row) t h = ground arith

settled_kept :
    (node : WorkflowNode) (status : StepStatus) (row : Option StepRow)
    → settled_row row ≡ true
    → map_row (set_queued node status) row ≡ row
settled_kept node status none h = refl
settled_kept node status (some row) h = ground arith

settled_now :
    (node : WorkflowNode) (status : StepStatus) (row : StepRow)
    → is_terminal_step status ≡ true
    → (is_queued row.status || is_terminal_step row.status) ≡ true
    → is_terminal_step (set_queued node status row).status ≡ true
settled_now node status row t h = ground arith

module _ {W : Type 0} where
  -- Nothing but rows changes, no row appears or goes, and terminal rows stay as they are.
  pub mark_queued_nodes-keeps :
      (nodes : List WorkflowNode) (status : StepStatus) (s : RunState W) (j : String)
      → ((mark_queued_nodes nodes status s).0 ≡ returned tt)
        × (present (lookup j (mark_queued_nodes nodes status s).1.rows) ≡ present (lookup j s.rows))
        × (settled_row (lookup j s.rows) ≡ true
            → lookup j (mark_queued_nodes nodes status s).1.rows ≡ lookup j s.rows)
  unfolding mark_queued_nodes
  mark_queued_nodes-keeps [] status s j = (refl, refl, λ h. refl)
  mark_queued_nodes-keeps (node ∷ nodes) status s j =
      let s' = record s { rows = update_row node.id (set_queued node status) s.rows } in
      let (done, same, kept) = mark_queued_nodes-keeps nodes status s' j in
      let at_j = lookup-update_row node.id j (set_queued node status) s.rows in
      (
        done,
        ground (arith, same, at_j),
        λ h. ground (arith, kept, at_j, settled_kept node status (lookup j s.rows) h),
      )

  -- A listed node whose row is queued or terminal gets a terminal row.
  pub mark_queued_nodes-settles :
      (nodes : List WorkflowNode) (status : StepStatus) (s : RunState W) (j : String)
      → is_terminal_step status ≡ true
      → contains (map (λ n. n.id) nodes) j ≡ true
      → (row : StepRow) → lookup j s.rows ≡ some row
      → (is_queued row.status || is_terminal_step row.status) ≡ true
      → settled_row (lookup j (mark_queued_nodes nodes status s).1.rows) ≡ true
  unfolding mark_queued_nodes
  mark_queued_nodes-settles [] status s j terminal m row found h = absurd (cc)
  mark_queued_nodes-settles (node ∷ nodes) status s j terminal m row found h =
      let s' = record s { rows = update_row node.id (set_queued node status) s.rows } in
      let at_j = lookup-update_row node.id j (set_queued node status) s.rows in
      elim (Bool-cases (node.id == j)) [
        | inl same ↦
            let now : settled_row (lookup j s'.rows) ≡ true =
              ground (arith, at_j, settled_now node status row terminal h) in
            ground (arith, (mark_queued_nodes-keeps nodes status s' j).2 now)
        | inr other ↦
            mark_queued_nodes-settles nodes status s' j terminal (ground arith) row
              (ground (arith, at_j)) h
      ]

  pub mark_queued_nodes-ready :
      (nodes : List WorkflowNode) (status : StepStatus) (s : RunState W) (j : String)
      → is_terminal_step status ≡ true
      → ready_row (lookup j s.rows) ≡ true
      → ready_row (lookup j (mark_queued_nodes nodes status s).1.rows) ≡ true
  unfolding mark_queued_nodes
  mark_queued_nodes-ready [] status s j terminal h = h
  mark_queued_nodes-ready (node ∷ nodes) status s j terminal h =
      let s' = record s { rows = update_row node.id (set_queued node status) s.rows } in
      let at_j = lookup-update_row node.id j (set_queued node status) s.rows in
      let kept = ready_kept node status (lookup j s.rows) terminal h in
      mark_queued_nodes-ready nodes status s' j terminal (ground arith)
