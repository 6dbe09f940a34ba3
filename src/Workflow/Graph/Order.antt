-- ===== src/Workflow/Graph/Order.antt =====
-- What `buildTopologicalOrder` promises (runner/test-workflow-graph.ts).
use bumd.Prelude.{
  ℕ, zero, suc, ◌<◌, String, true, false, not, ◌&&◌, List, [], ◌∷◌, ◌==◌, if◌then◌else◌, length,
  contains, Distinct, Within, Dict, ℤ, ◌≡◌, ◌≢◌, ◌↔◌, refl, sym, ◌∙◌, arith, eq_iff,
  length-le_of_Within, contains-append, Distinct-parts, subst, All, Bool-cases, inl, inr,
}
use bumd.Workflow.Graph.{Edge, require_all, build_topological_order}
use bumd.Workflow.Graph.Errors.{ok}
use bumd.Workflow.Graph.Degrees.{Refs, check_refs-Refs}
use bumd.Workflow.Graph.Loop.{Inv, Before, pending}
use bumd.Workflow.Graph.Setup.{loop_result}

-- Each node once, and the source of every edge before its target.
pub record IsTopologicalOrder (nodes : List String) (edges : List Edge) (order : List String)
    : Type 0 where
  pub distinct : Distinct order
  pub same_length : length order ≡ length nodes
  pub same_members : (v : String) → contains order v ≡ contains nodes v
  pub edges_forward : All (λ e. Before order e.source e.target) edges

-- Distinct members of a list, as many as its entries, are all of its members.
members_of_length :
    (order nodes : List String)
    → Distinct order
    → Within order nodes
    → length order ≡ length nodes
    → Within nodes order
members_of_length order nodes d w same v m = elim (Bool-cases (contains order v)) [
  | inl found ↦ found
  | inr missing ↦ absurd (
      omega (
        arith,
        length-le_of_Within (v ∷ order) nodes (missing, d) (λ a h. ground (arith, w a, eq_iff v a)),
      ))
]

forward_edges :
    (nodes order : List String) (es : List Edge)
    → Refs nodes es
    → Within nodes order
    → All (λ e. contains order e.target ≡ true → Before order e.source e.target) es
    → All (λ e. Before order e.source e.target) es
forward_edges nodes order [] refs w h = tt
forward_edges nodes order (e ∷ es) refs w h =
    (h.0 (w e.target refs.0.1), forward_edges nodes order es refs.1 w h.1)

-- The order that the loop ends with, if it is as long as the list of nodes.
Inv-IsTopologicalOrder :
    (nodes : List String) (edges : List Edge) (last : Dict ℤ) (order : List String)
    → Refs nodes edges
    → Inv nodes edges last [] order
    → length order ≡ length nodes
    → IsTopologicalOrder nodes edges order
Inv-IsTopologicalOrder nodes edges last order refs inv full =
    let distinct : Distinct order = (Distinct-parts order [] inv.distinct).0 in
    let within : Within order nodes =
      λ a m. inv.within a (ground (arith, contains-append order [] a)) in
    let covers = members_of_length order nodes distinct within full in
    record {
      distinct = distinct;
      same_length = full;
      same_members = λ v. ground (arith, within v, covers v);
      edges_forward = forward_edges nodes order edges refs covers inv.ordered;
    }

build-Refs :
    (nodes : List String) (edges : List Edge) (order : List String)
    → build_topological_order nodes edges ≡ ok order
    → Refs nodes edges
unfolding build_topological_order
build-Refs nodes edges order h = check_refs-Refs nodes edges (ground arith)

-- If an order is returned, it holds exactly the nodes, each of them once, and the source of every
-- edge stands before its target.
pub build_topological_order-IsTopologicalOrder :
    (nodes : List String) (edges : List Edge) (order : List String)
    → build_topological_order nodes edges ≡ ok order
    → IsTopologicalOrder nodes edges order
unfolding require_all
build_topological_order-IsTopologicalOrder nodes edges order h =
    let refs = build-Refs nodes edges order h in
    let (found, last, inv, computed) = loop_result nodes edges refs in
    let passed : require_all nodes found ≡ ok order = sym computed ∙ h in
    let same : found ≡ order = ground arith in
    let full : length found ≡ length nodes = ground arith in
    subst (IsTopologicalOrder nodes edges) same
      (Inv-IsTopologicalOrder nodes edges last found refs inv full)

-- A numbering of the nodes that grows along every edge: what it means that there is no cycle.
abbrev pub Grows : (String → ℕ) → List Edge → Type 0
Grows rank edges = All (λ e. rank e.source < rank e.target) edges

-- A node with something pending has a smaller source that the order does not hold.
pending_source :
    (rank : String → ℕ) (nodes order : List String) (v : String) (es : List Edge)
    → Refs nodes es
    → Grows rank es
    → pending order v es ≢ 0
    → (a : String) × (contains nodes a ≡ true) × (contains order a ≡ false) × (rank a < rank v)
pending_source rank nodes order v [] refs grows h = absurd (h refl)
pending_source rank nodes order v (e ∷ es) refs grows h =
    elim (Bool-cases (e.target == v && not (contains order e.source))) [
      | inl this ↦
          let same : e.target ≡ v = (eq_iff _ _).0 (ground arith) in
          (e.source, refs.0.0, ground arith, rw (← same) grows.0)
      | inr other ↦ pending_source rank nodes order v es refs.1 grows.1 (λ z. h (ground arith))
    ]

module _ (rank : String → ℕ) (nodes : List String) (edges : List Edge) (last : Dict ℤ)
    (order : List String) (refs : Refs nodes edges) (grows : Grows rank edges)
    (inv : Inv nodes edges last [] order) where
  -- By induction on a bound of the rank.
  all_ordered :
      (bound : ℕ) (v : String) → rank v < bound → contains nodes v ≡ true → contains order v ≡ true
  all_ordered zero v h m = absurd (omega arith)
  all_ordered (suc bound) v h m = elim (Bool-cases (contains order v)) [
    | inl found ↦ found
    | inr missing ↦
        let (a, in_nodes, not_found, smaller) =
          pending_source rank nodes order v edges refs grows (λ z. ground (arith, inv.ready v m)) in
        absurd (cc (all_ordered bound a (omega arith) in_nodes))
  ]

  full_order : Distinct nodes → length order ≡ length nodes
  full_order distinct =
      let covers : Within nodes order = λ v m. all_ordered (suc (rank v)) v (omega arith) m in
      omega (
        arith,
        length-le_of_Within nodes order distinct covers,
        length-le_of_Within order nodes (Distinct-parts order [] inv.distinct).0
            (λ a m. inv.within a (ground (arith, contains-append order [] a))),
      )

-- How many entries stand before the first `v`.
abbrev pub position : List String → String → ℕ
position [] v = 0
position (x ∷ xs) v = if x == v then 0 else suc (position xs v)

Before-contains : (order : List String) (a b : String) → Before order a b → contains order b ≡ true
Before-contains [] a b h = elim h [ ]
Before-contains (x ∷ xs) a b (inl h) = ground arith
Before-contains (x ∷ xs) a b (inr h) = ground (arith, Before-contains xs a b h)

position-Before :
    (order : List String) (a b : String)
    → Distinct order
    → Before order a b
    → position order a < position order b
position-Before [] a b d h = elim h [ ]
position-Before (x ∷ xs) a b d (inl h) = ground (arith, eq_iff x a, eq_iff x b, d.0, h.0, h.1)
position-Before (x ∷ xs) a b d (inr h) =
    ground (arith, position-Before xs a b d.1 h, Before-contains xs a b h, d.0, eq_iff x b)

Grows-position :
    (order : List String) (es : List Edge)
    → Distinct order
    → All (λ e. Before order e.source e.target) es
    → Grows (position order) es
Grows-position order [] d h = tt
Grows-position order (e ∷ es) d h =
    (position-Before order e.source e.target d h.0, Grows-position order es d h.1)

-- For distinct nodes an order is returned exactly if both ends of every edge are nodes and some
-- numbering of the nodes grows along every edge, which is to say that the graph has no cycle.
pub build_topological_order_iff :
    (nodes : List String) (edges : List Edge)
    → Distinct nodes
    → ((order : List String) × (build_topological_order nodes edges ≡ ok order))
      ↔ (Refs nodes edges × ((rank : String → ℕ) × Grows rank edges))
unfolding require_all
build_topological_order_iff nodes edges distinct = (
  λ found.
      let t = build_topological_order-IsTopologicalOrder nodes edges found.0 found.1 in
      (
        build-Refs nodes edges found.0 found.1,
        (position found.0, Grows-position found.0 edges t.distinct t.edges_forward),
      ),
  λ h.
      let (order, last, inv, computed) = loop_result nodes edges h.0 in
      let full = full_order h.1.0 nodes edges last order h.0 h.1.1 inv distinct in
      (order, computed ∙ ground arith),
)
