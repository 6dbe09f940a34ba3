-- ===== src/Workflow/Graph/Examples.antt =====
-- Runs of runner/test-workflow-graph.ts on small graphs.
use bumd.Prelude.{ℕ, String, true, Option, List, [], ◌∷◌, contains, Distinct, ◌≡◌, ◌↔◌, refl}
use bumd.Workflow.Graph.{
  Edge, check_refs, zero_degrees, no_neighbors, count_in, count_edges, ready_ids, release,
  kahn_loop, require_all, build_topological_order, push_at, parents_of, children_of, discover, walk,
  get_ancestors, get_descendants,
}
use bumd.Workflow.Graph.Errors.{ok, err, invalid_target, cycle}
use bumd.Workflow.Graph.Degrees.{Refs}
use bumd.Workflow.Graph.Order.{
  IsTopologicalOrder, Grows, build_topological_order-IsTopologicalOrder,
  build_topological_order_iff,
}
use bumd.Workflow.Graph.Failure.{ErrorMeans, build_topological_order-err}
use bumd.Workflow.Graph.Walk.{Reaches, Step}
use bumd.Workflow.Graph.Paths.{get_ancestors_iff}

abbrev letters : List String
letters = "c" ∷ "b" ∷ "a" ∷ []

abbrev to : String → String → Edge
to a b = record { source = a; target = b }

-- a → b → c, and a → c.
abbrev chain : List Edge
chain = to "a" "b" ∷ to "b" "c" ∷ to "a" "c" ∷ []

abbrev sorted : List String
sorted = "a" ∷ "b" ∷ "c" ∷ []

order_found : build_topological_order letters chain ≡ ok sorted
unfolding build_topological_order check_refs zero_degrees no_neighbors count_edges count_in
    ready_ids release kahn_loop require_all
order_found = refl

letters-Distinct : Distinct letters
letters-Distinct = (refl, (refl, (refl, tt)))

build_topological_order-IsTopologicalOrder_example : IsTopologicalOrder letters chain sorted
build_topological_order-IsTopologicalOrder_example =
    build_topological_order-IsTopologicalOrder letters chain sorted order_found

build_topological_order_iff_example :
    ((order : List String) × (build_topological_order letters chain ≡ ok order))
    ↔ (Refs letters chain × ((rank : String → ℕ) × Grows rank chain))
build_topological_order_iff_example = build_topological_order_iff letters chain letters-Distinct

-- a → b → a.
abbrev loop : List Edge
loop = to "a" "b" ∷ to "b" "a" ∷ []

loop_refused : build_topological_order letters loop ≡ err cycle
unfolding build_topological_order check_refs zero_degrees no_neighbors count_edges count_in
    ready_ids release kahn_loop require_all
loop_refused = refl

build_topological_order-err_example : ErrorMeans letters loop cycle
build_topological_order-err_example = build_topological_order-err letters loop cycle loop_refused

unknown_target : build_topological_order letters (to "a" "z" ∷ []) ≡ err (invalid_target "z")
unfolding build_topological_order check_refs zero_degrees no_neighbors count_edges count_in
    ready_ids release kahn_loop require_all
unknown_target = refl

descendants_of_a : get_descendants "a" chain ≡ Option.some ("b" ∷ "c" ∷ [])
unfolding get_descendants children_of push_at walk discover
descendants_of_a = refl

ancestors_of_c : get_ancestors "c" chain ≡ Option.some ("b" ∷ "a" ∷ [])
unfolding get_ancestors parents_of push_at walk discover
ancestors_of_c = refl

get_ancestors_iff_example :
    (result : List String) × (get_ancestors "c" chain ≡ Option.some result)
    × ((b : String) → (contains result b ≡ true) ↔ Reaches (Step chain) b "c")
get_ancestors_iff_example = get_ancestors_iff "c" chain
