-- ===== src/Workflow/Definition/Examples.antt =====
-- Definitions that test-workflow-definition.schema.ts accepts and refuses.
use bumd.Prelude.{String, [], ◌∷◌, returned, thrown, ◌≡◌, ◌↔◌, refl}
use bumd.Json.{null}
use bumd.Workflow.Types.{NodePhase, setup, test, WorkflowNode, WorkflowEdge, WorkflowDefinition}
use bumd.Workflow.Graph.{zero_degrees, no_neighbors, count_in, count_edges, ready_ids, release}
use bumd.Workflow.Definition.{
  v2, phase_edge, to_definition, collect_node_ids, check_edges, phase_ok, check_phases,
  check_exports, check_all_exports, detect_loop, detect_cycle, parse_and_validate_definition,
}
use bumd.Workflow.Definition.WellFormed.{IsWellFormed}
use bumd.Workflow.Definition.Validity.{parse_and_validate_definition_iff}

abbrev node : String → NodePhase → WorkflowNode
node id phase = record {
  id = id;
  operation_id = "op";
  method = "GET";
  path = "/";
  label = id;
  phase = phase;
  request_template = null;
  exports = [];
  assertions = [];
}

abbrev edge : String → String → String → WorkflowEdge
edge id a b = record { id = id; source = a; target = b }

abbrev login_first : WorkflowDefinition
login_first = record {
  test_data = [];
  nodes = node "check" test ∷ node "login" setup ∷ [];
  edges = edge "e1" "login" "check" ∷ [];
}

-- The same with the edge turned around.
abbrev login_last : WorkflowDefinition
login_last = record login_first { edges = edge "e1" "check" "login" ∷ [] }

login_first_accepted : parse_and_validate_definition (v2 login_first) ≡ returned login_first
unfolding parse_and_validate_definition to_definition collect_node_ids check_edges check_phases
    phase_ok check_exports check_all_exports detect_cycle detect_loop zero_degrees no_neighbors
    count_edges count_in ready_ids release
login_first_accepted = refl

login_last_refused :
    parse_and_validate_definition (v2 login_last) ≡ thrown (phase_edge "check" "login")
unfolding parse_and_validate_definition to_definition collect_node_ids check_edges check_phases
    phase_ok check_exports check_all_exports detect_cycle detect_loop zero_degrees no_neighbors
    count_edges count_in ready_ids release
login_last_refused = refl

parse_and_validate_definition_iff_example :
    (parse_and_validate_definition (v2 login_first) ≡ returned login_first)
    ↔ ((to_definition (v2 login_first) ≡ login_first) × IsWellFormed login_first)
parse_and_validate_definition_iff_example =
    parse_and_validate_definition_iff (v2 login_first) login_first
