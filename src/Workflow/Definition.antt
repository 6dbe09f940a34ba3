-- ===== src/Workflow/Definition.antt =====
-- test-workflow-definition.schema.ts: the structural validation of a definition that has passed the
-- zod schema, and the upgrade of a version 1 definition. The shape checks of zod are a library's.
pub mod WellFormed
pub mod Phases
pub mod Validity
mod Examples
use bumd.Prelude.{
  ℕ, zero, suc, ◌+◌, String, Bool, true, false, not, Option, none, some, List, [], ◌∷◌, ◌++◌, map,
  ◌==◌, if◌then◌else◌, ltb, eqb, length, contains, add, Dict, lookup, insert, from_entries, ℤ,
  Except, returned, thrown, throw_if, ◌>>=◌, ◌>>◌,
}
use bumd.Json.{Json}
use bumd.Workflow.Types.{
  NodePhase, setup, test, teardown, WorkflowExport, WorkflowAssertion, WorkflowNode, WorkflowEdge,
  WorkflowDefinition,
}
use bumd.Workflow.Graph
use bumd.Workflow.Graph.{
  Edge, release, or_empty, zero_degrees, no_neighbors, count_edges, ready_ids,
}
use bumd.Workflow.Graph.Errors.{Result, GraphError, ok, err, cycle, out_of_fuel}

pub data DefinitionError : Type 0 where
  duplicate_node duplicate_edge duplicate_export : String → DefinitionError
  edge_source edge_target : String → String → DefinitionError
  phase_edge : String → String → DefinitionError
  graph : GraphError → DefinitionError

-- A node of a version 1 definition has no phase.
pub record NodeV1 : Type 0 where
  pub id : String
  pub operation_id : String
  pub method : String
  pub path : String
  pub label : String
  pub request_template : Json
  pub exports : List WorkflowExport
  pub assertions : List WorkflowAssertion

pub data DefinitionInput : Type 0 where
  v1 : List NodeV1 → List WorkflowEdge → DefinitionInput
  v2 : WorkflowDefinition → DefinitionInput

-- `{ ...node, phase: "test" }`
abbrev pub with_phase : NodeV1 → WorkflowNode
with_phase n = record {
  id = n.id;
  operation_id = n.operation_id;
  method = n.method;
  path = n.path;
  label = n.label;
  phase = test;
  request_template = n.request_template;
  exports = n.exports;
  assertions = n.assertions;
}

-- The transform of `WorkflowDefinitionSchema`.
unfoldable pub to_definition : DefinitionInput → WorkflowDefinition
to_definition (v1 nodes edges) = record {
  test_data = [];
  nodes = map with_phase nodes;
  edges = edges;
}
to_definition (v2 definition) = definition

abbrev pub phase_order : NodePhase → ℕ
phase_order setup = 0
phase_order test = 1
phase_order teardown = 2

-- The loop over the nodes: the set of their ids.
unfoldable pub collect_node_ids :
    List String → List WorkflowNode → Except DefinitionError (List String)
collect_node_ids node_ids [] = returned node_ids
collect_node_ids node_ids (node ∷ nodes) =
    let rest = collect_node_ids (add node_ids node.id) nodes in
    if contains node_ids node.id then thrown (duplicate_node node.id) else rest

-- The loop over the edges: distinct ids, and both ends known.
unfoldable pub check_edges :
    List String → List String → List WorkflowEdge → Except DefinitionError (Unit {0})
check_edges node_ids edge_ids [] = returned tt
check_edges node_ids edge_ids (edge ∷ edges) = do
  throw_if (contains edge_ids edge.id) (duplicate_edge edge.id)
  throw_if (not (contains node_ids edge.source)) (edge_source edge.id edge.source)
  throw_if (not (contains node_ids edge.target)) (edge_target edge.id edge.target)
  check_edges node_ids (add edge_ids edge.id) edges

-- `new Map(nodes.map((node) => [node.id, node]))`
abbrev pub by_id : List WorkflowNode → Dict WorkflowNode
by_id nodes = from_entries [] (map (λ node. (node.id, node)) nodes)

-- The test of one edge, `continue` where an end is unknown.
unfoldable pub phase_ok : Option WorkflowNode → Option WorkflowNode → Bool
phase_ok none target = true
phase_ok (some source) none = true
phase_ok (some source) (some target) =
    not (ltb (phase_order target.phase) (phase_order source.phase))

-- The loop over the edges that keeps a later phase from feeding an earlier one.
unfoldable pub check_phases :
    Dict WorkflowNode → List WorkflowEdge → Except DefinitionError (Unit {0})
check_phases nodes_by_id [] = returned tt
check_phases nodes_by_id (edge ∷ edges) = do
  throw_if (not (phase_ok (lookup edge.source nodes_by_id) (lookup edge.target nodes_by_id)))
      (phase_edge edge.source edge.target)
  check_phases nodes_by_id edges

-- The inner loop over one node's exports.
unfoldable pub check_exports :
    List String → List WorkflowExport → Except DefinitionError (List String)
check_exports names [] = returned names
check_exports names (exp ∷ exports) = do
  throw_if (contains names exp.name) (duplicate_export exp.name)
  check_exports (add names exp.name) exports

-- The loop over all nodes' exports.
unfoldable pub check_all_exports :
    List String → List WorkflowNode → Except DefinitionError (Unit {0})
check_all_exports names [] = returned tt
check_all_exports names (node ∷ nodes) = do
  names' ← check_exports names node.exports
  check_all_exports names' nodes

-- The `while` loop of `detectCycle`, which counts the nodes it processes.
unfoldable pub detect_loop : ℕ → Dict (List String) → Dict ℤ → List String → ℕ → Result ℕ
detect_loop fuel adj in_degree [] processed = ok processed
detect_loop zero adj in_degree (current ∷ queue) processed = err out_of_fuel
detect_loop (suc fuel) adj in_degree (current ∷ queue) processed =
    let released = release in_degree queue (or_empty (lookup current adj)) in
    detect_loop fuel adj released.0 released.1 (suc processed)

unfoldable pub detect_cycle : List String → List Edge → Result (Unit {0})
detect_cycle node_ids edges =
    Graph.Errors.◌>>=◌ (count_edges (zero_degrees node_ids) (no_neighbors node_ids) edges)
      (λ counted.
        Graph.Errors.◌>>=◌
          (detect_loop (length node_ids) counted.1 counted.0 (ready_ids counted.0) 0)
          (λ processed. if eqb processed (length node_ids) then ok tt else err cycle))

-- What the graph functions read of an edge.
abbrev pub ends : WorkflowEdge → Edge
ends edge = record { source = edge.source; target = edge.target }

-- An exception of the graph functions passes through.
abbrev pub lift : Result (Unit {0}) → Except DefinitionError (Unit {0})
lift (ok a) = returned a
lift (err e) = thrown (graph e)

unfoldable pub parse_and_validate_definition :
    DefinitionInput → Except DefinitionError WorkflowDefinition
parse_and_validate_definition input = do
  let def = to_definition input
  node_ids ← collect_node_ids [] def.nodes
  check_edges node_ids [] def.edges
  check_phases (by_id def.nodes) def.edges
  check_all_exports [] def.nodes
  lift (detect_cycle (map (λ node. node.id) def.nodes) (map ends def.edges))
  returned def
