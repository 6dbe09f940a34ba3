-- ===== src/Workflow/Graph/Loop.antt =====
-- The invariant of Kahn's loop, and that the loop ends (runner/test-workflow-graph.ts).
use bumd.Prelude.{
  ℕ, zero, suc, ◌+◌, String, true, false, not, ◌&&◌, ◌||◌, some, List, [], ◌∷◌, ◌++◌, ◌==◌,
  if◌then◌else◌, eqb, length, contains, count, Distinct, Distinct-append, Distinct-parts, ◌≢◌,
  Within, Dict, lookup, ℤ, pos, ◌≡◌, refl, ap, arith, eq_iff, eq_self, contains-append,
  length-append, length-le_of_Within, All, Bool-cases, ◌⊎◌, inl, inr, sym, subst,
}
use bumd.Workflow.Graph.{Edge, or_empty, release, kahn_loop}
use bumd.Workflow.Graph.Errors.{ok}
use bumd.Workflow.Graph.Degrees.{targets, in_count, Refs}
use bumd.Workflow.Graph.Sweep.{
  DegreesBefore, release-degrees, contains-release, release-Distinct, count-contains,
  contains-of-count,
}

-- How many edges lead to `v` from a node that the order does not hold yet.
abbrev pub pending : List String → String → List Edge → ℕ
pending order v [] = 0
pending order v (e ∷ es) =
    (if e.target == v && not (contains order e.source) then 1 else 0) + pending order v es

-- `a` stands in the list, and `b` stands after it.
abbrev pub Before : List String → String → String → Type 0
Before [] a b = ⊥
Before (x ∷ xs) a b = (x ≡ a) × (contains xs b ≡ true) ⊎ Before xs a b

pub pending-nil : (v : String) (es : List Edge) → pending [] v es ≡ in_count v es
pending-nil v [] = refl
pending-nil v (e ∷ es) = ground (arith, pending-nil v es)

pending-append :
    (order : List String) (u v : String) (es : List Edge)
    → contains order u ≡ false
    → pending order v es ≡ pending (order ++ u ∷ []) v es + count v (targets u es)
pending-append order u v [] h = omega arith
pending-append order u v (e ∷ es) h = ground (
  arith,
  pending-append order u v es h,
  contains-append order (u ∷ []) e.source,
  eq_iff e.source u,
  eq_iff u e.source,
  eq_iff e.target v,
)

-- A node with nothing pending has all its sources in the order.
sources_of_pending :
    (order : List String) (v : String) (es : List Edge)
    → pending order v es ≡ 0
    → All (λ e. e.target ≡ v → contains order e.source ≡ true) es
sources_of_pending order v [] h = tt
sources_of_pending order v (e ∷ es) h =
    (λ same. ground (arith, eq_iff e.target v), sources_of_pending order v es (omega arith))

Before-append : (xs ys : List String) (a b : String) → Before xs a b → Before (xs ++ ys) a b
Before-append [] ys a b h = elim h [ ]
Before-append (x ∷ xs) ys a b (inl h) = inl (h.0, ground (arith, contains-append xs ys b))
Before-append (x ∷ xs) ys a b (inr h) = inr (Before-append xs ys a b h)

Before-last : (xs : List String) (a b : String) → contains xs a ≡ true → Before (xs ++ b ∷ []) a b
Before-last [] a b h = absurd (cc)
Before-last (x ∷ xs) a b h = elim (Bool-cases (x == a)) [
  | inl same ↦ inl ((eq_iff _ _).0 same, ground (arith, contains-append xs (b ∷ []) b, eq_self b))
  | inr other ↦ inr (Before-last xs a b (ground arith))
]

-- The source of each edge whose target is in the order stands before it.
abbrev pub OrderedBy : List String → List Edge → Type 0
OrderedBy order es = All (λ e. contains order e.target ≡ true → Before order e.source e.target) es

OrderedBy-append :
    (order : List String) (u : String) (es : List Edge)
    → OrderedBy order es
    → All (λ e. e.target ≡ u → contains order e.source ≡ true) es
    → OrderedBy (order ++ u ∷ []) es
OrderedBy-append order u [] h k = tt
OrderedBy-append order u (e ∷ es) h k = (
  λ m. elim (Bool-cases (contains order e.target)) [
    | inl old ↦ Before-append order (u ∷ []) e.source e.target (h.0 old)
    | inr new ↦
        let same : e.target ≡ u =
          ground (arith, contains-append order (u ∷ []) e.target, eq_iff u e.target) in
        rw same (Before-last order e.source u (k.0 same))
  ],
  OrderedBy-append order u es h.1 k.1,
)

Within-targets :
    (nodes : List String) (u : String) (es : List Edge)
    → Refs nodes es
    → Within (targets u es) nodes
Within-targets nodes u [] refs a m = absurd (cc)
Within-targets nodes u (e ∷ es) refs a m =
    ground (arith, Within-targets nodes u es refs.1 a, eq_iff e.target a)

module _ (nodes : List String) (edges : List Edge) where
  pub record Inv (deg : Dict ℤ) (queue order : List String) : Type 0 where
    pub degrees :
        (v : String) → contains nodes v ≡ true → lookup v deg ≡ some (pos (pending order v edges))
    pub ready :
        (v : String)
        → contains nodes v ≡ true
        → (contains order v || contains queue v) ≡ eqb (pending order v edges) 0
    pub distinct : Distinct (order ++ queue)
    pub within : Within (order ++ queue) nodes
    pub ordered : OrderedBy order edges

  module _ (deg : Dict ℤ) (queue order : List String) (u : String) (refs : Refs nodes edges)
      (inv : Inv deg (u ∷ queue) order) where
    abbrev after : String → ℕ
    after v = pending (order ++ u ∷ []) v edges

    in_nodes : contains nodes u ≡ true
    in_nodes = inv.within u (ground (arith, contains-append order (u ∷ queue) u, eq_self u))

    not_in_order : contains order u ≡ false
    not_in_order =
        let (left, right, apart) = Distinct-parts order (u ∷ queue) inv.distinct in
        ground (arith, apart u, eq_self u)

    count_split : (v : String) → pending order v edges ≡ after v + count v (targets u edges)
    count_split v = pending-append order u v edges not_in_order

    before : DegreesBefore nodes after (targets u edges) deg
    before v m = rw (← count_split v) (inv.degrees v m)

    -- A neighbour of `u` was not ready before the round.
    not_ready :
        (v : String)
        → contains (targets u edges) v ≡ true
        → (contains order v ≡ false) × ((u == v) ≡ false) × (contains queue v ≡ false)
    not_ready v m =
        let counted : count v (targets u edges) ≢ 0 =
          λ z. cc (contains-of-count v (targets u edges) z) in
        let ready = inv.ready v (Within-targets nodes u edges refs v m) in
        ground (arith, count_split v)

    abbrev released : Dict ℤ × List String
    released = release deg queue (targets u edges)

    contains-queue :
        (v : String)
        → contains released.1 v
          ≡ (contains queue v || contains (targets u edges) v && eqb (after v) 0)
    contains-queue =
        contains-release nodes after deg queue (targets u edges) before
          (Within-targets nodes u edges refs)

    round-Inv : Inv released.0 released.1 (order ++ u ∷ [])
    round-Inv =
        let (left, right, apart) = Distinct-parts order (u ∷ queue) inv.distinct in
        let within_targets = Within-targets nodes u edges refs in
        record {
          degrees = release-degrees nodes after deg queue (targets u edges) before within_targets;
          ready = λ v m. ground (
            arith,
            inv.ready v m,
            count_split v,
            contains-queue v,
            contains-append order (u ∷ []) v,
            count-contains v (targets u edges),
            not_ready v,
          );
          distinct =
              Distinct-append (order ++ u ∷ []) released.1
                (Distinct-append order (u ∷ []) left (refl, tt) (λ a m. ground (arith, apart a m)))
                (release-Distinct nodes after deg queue (targets u edges) before within_targets
                  right.1 (λ v m z. (not_ready v m).2))
                (λ a m. ground (
                  arith,
                  contains-queue a,
                  contains-append order (u ∷ []) a,
                  not_ready a,
                  apart a,
                  right.0,
                  eq_iff u a,
                ));
          within = λ a m. ground (
            arith,
            contains-append (order ++ u ∷ []) released.1 a,
            contains-append order (u ∷ []) a,
            contains-queue a,
            within_targets a,
            inv.within a,
            contains-append order (u ∷ queue) a,
          );
          ordered =
              OrderedBy-append order u edges inv.ordered (
                sources_of_pending order u edges (ground (arith, inv.ready u in_nodes, eq_self u)));
        }

-- `adj` lists the targets of the edges out of each node.
abbrev pub Adjacent : List String → List Edge → Dict (List String) → Type 0
Adjacent nodes edges adj =
    (u : String) → contains nodes u ≡ true → lookup u adj ≡ some (targets u edges)

-- With one unit of fuel for each node that is not ordered yet, the loop ends with an empty queue.
pub kahn_loop_ends :
    (nodes : List String) (edges : List Edge) (adj : Dict (List String)) (fuel : ℕ) (deg : Dict ℤ)
    (queue order : List String)
    → Refs nodes edges
    → Adjacent nodes edges adj
    → Inv nodes edges deg queue order
    → fuel + length order ≡ length nodes
    → (result : List String) × (kahn_loop fuel adj deg queue order ≡ ok result)
      × (last : Dict ℤ) × Inv nodes edges last [] result
unfolding kahn_loop
kahn_loop_ends nodes edges adj fuel deg [] order refs lists inv room = (order, refl, deg, inv)
kahn_loop_ends nodes edges adj zero deg (u ∷ queue) order refs lists inv room = absurd (
    omega (
      arith,
      length-le_of_Within (order ++ u ∷ queue) nodes inv.distinct inv.within,
      length-append order (u ∷ queue),
    ))
kahn_loop_ends nodes edges adj (suc fuel) deg (u ∷ queue) order refs lists inv room =
    let open_round = λ (ts : List String).
      (result : List String) × (kahn_loop fuel adj (release deg queue ts).0 (release deg queue ts).1
          (order ++ u ∷ [])
        ≡ ok result)
      × (last : Dict ℤ) × Inv nodes edges last [] result in
    let found = lists u (in_nodes nodes edges deg queue order u refs inv) in
    subst open_round (sym (ap or_empty found)) (
      kahn_loop_ends nodes edges adj fuel (released nodes edges deg queue order u refs inv).0
        (released nodes edges deg queue order u refs inv).1 (order ++ u ∷ []) refs lists
        (round-Inv nodes edges deg queue order u refs inv)
        (omega (arith, length-append order (u ∷ []))))
