-- ===== src/Workflow/Graph.antt =====
-- runner/test-workflow-graph.ts of the test workflows: the topological order of a workflow's nodes
-- by Kahn's algorithm, and the transitive ancestors and descendants of a node. A `Map` is an
-- association list in insertion order, a `Set` a list in insertion order. The stack of a walk has
-- its top at the head.
pub mod Errors
pub mod Degrees
pub mod Sweep
pub mod Loop
pub mod Setup
pub mod Order
pub mod Failure
pub mod Walk
pub mod Paths
mod Examples
use bumd.Prelude.{
  ℕ, zero, suc, ◌+◌, String, Bool, true, false, not, Option, none, some, List, [], ◌∷◌, ◌++◌, map,
  ◌==◌, if◌then◌else◌, eqb, length, contains, add, Dict, lookup, insert, from_entries, ℤ, pos,
  suc_ℤ, pred_ℤ, is_zero,
}
use Errors.{
  Result, ok, err, GraphError, invalid_source, invalid_target, missing_source, cycle, out_of_fuel,
  ◌>>=◌, ◌>>◌,
}

-- What the graph functions read of an edge.
pub record Edge : Type 0 where
  pub source : String
  pub target : String

-- The validation of the edge references at the head of `buildTopologicalOrder`.
unfoldable pub check_refs : List String → List Edge → Result (Unit {0})
check_refs node_set [] = ok tt
check_refs node_set (edge ∷ edges) =
    let rest = check_refs node_set edges in
    if not (contains node_set edge.source)
    then err (invalid_source edge.source)
    else (if not (contains node_set edge.target) then err (invalid_target edge.target) else rest)

-- `new Map(nodeIds.map((id) => [id, 0]))`
unfoldable pub zero_degrees : List String → Dict ℤ
zero_degrees node_ids = from_entries [] (map (λ id. (id, pos 0)) node_ids)

-- `new Map(nodeIds.map((id) => [id, []]))`
unfoldable pub no_neighbors : List String → Dict (List String)
no_neighbors node_ids = from_entries [] (map (λ id. (id, [])) node_ids)

-- `map.get(k) ?? 0`
abbrev pub degree_or_zero : Option ℤ → ℤ
degree_or_zero none = pos 0
degree_or_zero (some n) = n

-- `map.get(k) ?? []`
abbrev pub or_empty : Option (List String) → List String
or_empty none = []
or_empty (some names) = names

-- `inDegree.set(target, (inDegree.get(target) ?? 0) + 1)`
unfoldable pub count_in : String → Dict ℤ → Dict ℤ
count_in target in_degree =
    insert target (suc_ℤ (degree_or_zero (lookup target in_degree))) in_degree

-- The loop that fills `adj` and `inDegree`. A source with no list of neighbours is an exception:
-- a TypeError in `buildTopologicalOrder`, an Error in `detectCycle`.
unfoldable pub count_edges :
    Dict ℤ → Dict (List String) → List Edge → Result (Dict ℤ × Dict (List String))
unfolding count_in
count_edges in_degree adj [] = ok (in_degree, adj)
count_edges in_degree adj (edge ∷ edges) = elim (lookup edge.source adj) [
  | none ↦ err (missing_source edge.source)
  | some neighbors ↦
      count_edges (count_in edge.target in_degree)
        (insert edge.source (neighbors ++ edge.target ∷ []) adj) edges
]

-- `for (const [id, deg] of inDegree) if (deg === 0) queue.push(id)`
unfoldable pub ready_ids : Dict ℤ → List String
ready_ids [] = []
ready_ids ((id, deg) ∷ rest) = if is_zero deg then id ∷ ready_ids rest else ready_ids rest

-- The loop over the neighbours of the current node: each loses one incoming edge, and a node that
-- has none left enters the queue.
unfoldable pub release : Dict ℤ → List String → List String → Dict ℤ × List String
release in_degree queue [] = (in_degree, queue)
release in_degree queue (neighbor ∷ rest) =
    let new_deg = pred_ℤ (degree_or_zero (lookup neighbor in_degree)) in
    release (insert neighbor new_deg in_degree)
      (if is_zero new_deg then queue ++ neighbor ∷ [] else queue) rest

-- The `while` loop of `buildTopologicalOrder`; each round takes one unit of fuel.
unfoldable pub kahn_loop :
    ℕ → Dict (List String) → Dict ℤ → List String → List String → Result (List String)
kahn_loop fuel adj in_degree [] order = ok order
kahn_loop zero adj in_degree (current ∷ queue) order = err out_of_fuel
kahn_loop (suc fuel) adj in_degree (current ∷ queue) order =
    let released = release in_degree queue (or_empty (lookup current adj)) in
    kahn_loop fuel adj released.0 released.1 (order ++ current ∷ [])

-- `if (order.length !== nodeIds.length) throw new Error("WORKFLOW_CYCLE")`
unfoldable pub require_all : List String → List String → Result (List String)
require_all node_ids order = if eqb (length order) (length node_ids) then ok order else err cycle

-- The queue, and the order found so far, hold different nodes, so as many rounds as nodes suffice.
unfoldable pub build_topological_order : List String → List Edge → Result (List String)
build_topological_order node_ids edges = do
  check_refs node_ids edges
  counted ← count_edges (zero_degrees node_ids) (no_neighbors node_ids) edges
  order ← kahn_loop (length node_ids) counted.1 counted.0 (ready_ids counted.0) []
  require_all node_ids order

-- `const list = map.get(k) ?? []; list.push(v); map.set(k, list)`
unfoldable pub push_at : String → String → Dict (List String) → Dict (List String)
push_at k v lists = insert k (or_empty (lookup k lists) ++ v ∷ []) lists

-- The map of each node's parents that `getAncestors` builds.
unfoldable pub parents_of : Dict (List String) → List Edge → Dict (List String)
unfolding push_at
parents_of parents [] = parents
parents_of parents (edge ∷ edges) = parents_of (push_at edge.target edge.source parents) edges

-- The map of each node's children that `getDescendants` builds.
unfoldable pub children_of : Dict (List String) → List Edge → Dict (List String)
unfolding push_at
children_of children [] = children
children_of children (edge ∷ edges) = children_of (push_at edge.source edge.target children) edges

-- The inner loop of both walks: a node that was not found before is found, and goes on the stack.
unfoldable pub discover : List String → List String → List String → List String × List String
discover found stack [] = (found, stack)
discover found stack (next ∷ rest) =
    let seen = contains found next in
    discover (if seen then found else add found next) (if seen then stack else next ∷ stack) rest

-- The `while` loop of both walks; each round takes one unit of fuel, and `none` means it ran out.
unfoldable pub walk : ℕ → Dict (List String) → List String → List String → Option (List String)
walk fuel nexts found [] = some found
walk zero nexts found (current ∷ stack) = none
walk (suc fuel) nexts found (current ∷ stack) =
    let step = discover found stack (or_empty (lookup current nexts)) in
    walk fuel nexts step.0 step.1

-- A round pops one entry, and at most one is pushed for each edge.
unfoldable pub get_ancestors : String → List Edge → Option (List String)
get_ancestors node_id edges = walk (suc (length edges)) (parents_of [] edges) [] (node_id ∷ [])

unfoldable pub get_descendants : String → List Edge → Option (List String)
get_descendants node_id edges = walk (suc (length edges)) (children_of [] edges) [] (node_id ∷ [])
