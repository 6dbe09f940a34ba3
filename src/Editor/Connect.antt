-- ===== src/Editor/Connect.antt =====
-- widgets/test-workflow-canvas/ui/test-workflow-canvas.tsx: `onConnect`, which draws an edge, with
-- `hasCycle`. What it shows and dispatches is its result.
pub mod Cycles
pub mod Allowed
pub mod Acyclic
mod Examples
use bumd.Prelude.{
  ℕ, zero, suc, String, Bool, true, false, ◌||◌, Option, none, some, List, [], ◌∷◌, map, ◌==◌,
  if◌then◌else◌, contains, add, length,
}
use bumd.Workflow.Graph.{Edge}
use bumd.Editor.Types.{EditorNode, EditorEdge, EditorDefinition, EditorAction, add_edge}
use bumd.Editor.Phases.{PhaseNode, ConnectionError, get_phase_connection_error}

-- `edges.filter((e) => e.source === curr)`, the targets pushed one after the other; the head of the
-- list is the top of the stack.
unfoldable pub push_children : List Edge → String → List String → List String
push_children [] curr stack = stack
push_children (e ∷ edges) curr stack =
    push_children edges curr (if e.source == curr then e.target ∷ stack else stack)

-- The `while` loop of `hasCycle`; each round takes one unit of fuel, and `none` means it ran out.
unfoldable pub cycle_loop : ℕ → List Edge → String → List String → List String → Option Bool
cycle_loop fuel edges source visited [] = some false
cycle_loop zero edges source visited (curr ∷ stack) = none
cycle_loop (suc fuel) edges source visited (curr ∷ stack) =
    let seen = contains visited curr in
    let rest =
      cycle_loop fuel edges source (if seen then visited else add visited curr)
        (if seen then stack else push_children edges curr stack) in
    if curr == source then some true else rest

-- A round pops one entry, and one is pushed for each edge at most once.
unfoldable pub has_cycle : List Edge → String → String → Option Bool
unfolding cycle_loop
has_cycle edges source target =
    if source == target
    then some true
    else cycle_loop (suc (length edges)) edges source [] (target ∷ [])

pub data Connected : Type 0 where
  ignored : Connected
  would_cycle : Connected
  phase_refused : ConnectionError → Connected
  dispatched : EditorAction → Connected

abbrev pub edge_ends : EditorEdge → Edge
edge_ends edge = record { source = edge.source; target = edge.target }

abbrev pub phase_node : EditorNode → PhaseNode
phase_node node = record { id = node.id; phase = node.phase }

-- After the test for a cycle.
abbrev pub checked_phase : EditorEdge → Option ConnectionError → Connected
checked_phase edge (some error) = phase_refused error
checked_phase edge none = dispatched (add_edge edge)

abbrev pub checked_cycle : EditorDefinition → EditorEdge → Option Bool → Option Connected
checked_cycle definition edge none = none
checked_cycle definition edge (some true) = some would_cycle
checked_cycle definition edge (some false) = some (
    checked_phase edge
      (get_phase_connection_error (map phase_node definition.nodes) edge.source edge.target))

-- The edge is the one that would be added; its id is generated.
unfoldable pub on_connect : EditorDefinition → EditorEdge → Option Connected
unfolding has_cycle
on_connect definition edge =
    if edge.source == "" || edge.target == ""
    then some ignored
    else checked_cycle definition edge
        (has_cycle (map edge_ends definition.edges) edge.source edge.target)
