-- ===== src/Workflow/Graph/Degrees.antt =====
-- What the maps of Kahn's algorithm hold (runner/test-workflow-graph.ts): `inDegree` counts the
-- incoming edges of each node, and `adj` lists the targets of its outgoing edges.
use bumd.Prelude.{
  ℕ, zero, suc, ◌+◌, String, true, false, ◌||◌, some, List, [], ◌∷◌, ◌++◌, map, ◌==◌, if◌then◌else◌,
  eqb, contains, Distinct, Dict, lookup, insert, from_entries, keys, ℤ, pos, suc_ℤ, pred_ℤ, is_zero,
  ◌≡◌, refl, arith, subst, eq_iff, lookup-insert, contains-keys-insert, Distinct-keys-insert, All,
  Option-cases, Bool-cases, inl, inr,
}
use mathlib.Core.List.{append_assoc}
use bumd.Workflow.Graph.{Edge, check_refs, degree_or_zero, count_in, count_edges, ready_ids}
use bumd.Workflow.Graph.Errors.{ok, ok-injective}

-- How many edges lead to `v`.
abbrev pub in_count : String → List Edge → ℕ
in_count v [] = 0
in_count v (e ∷ es) = (if e.target == v then 1 else 0) + in_count v es

-- The targets of the edges out of `u`, in the order of the edges.
abbrev pub targets : String → List Edge → List String
targets u [] = []
targets u (e ∷ es) = let rest = targets u es in if e.source == u then e.target ∷ rest else rest

-- Both ends of every edge are nodes.
abbrev pub Refs : List String → List Edge → Type 0
Refs nodes es = All (λ e. (contains nodes e.source ≡ true) × (contains nodes e.target ≡ true)) es

pub pred_ℤ-pos : {m n : ℕ} → m ≡ suc n → pred_ℤ (pos m) ≡ pos n
pred_ℤ-pos e = rw e

pub is_zero-pos : (n : ℕ) → is_zero (pos n) ≡ eqb n 0
is_zero-pos zero = refl
is_zero-pos (suc n) = ground arith

module _ {ℓ} {V : Type ℓ} where
  pub lookup-from_entries :
      (x : V) (d : Dict V) (ns : List String) (v : String)
      → lookup v (from_entries d (map (λ id. (id, x)) ns))
        ≡ (if contains ns v then some x else lookup v d)
  lookup-from_entries x d [] v = refl
  lookup-from_entries x d (n ∷ ns) v =
      ground (arith, lookup-from_entries x (insert n x d) ns v, lookup-insert n v x d, eq_iff n v)

  pub contains-keys-from_entries :
      (x : V) (d : Dict V) (ns : List String) (v : String)
      → contains (keys (from_entries d (map (λ id. (id, x)) ns))) v
        ≡ (contains ns v || contains (keys d) v)
  contains-keys-from_entries x d [] v = refl
  contains-keys-from_entries x d (n ∷ ns) v =
      ground (arith, contains-keys-from_entries x (insert n x d) ns v, contains-keys-insert n v x d)

  pub Distinct-keys-from_entries :
      (x : V) (d : Dict V) (ns : List String)
      → Distinct (keys d)
      → Distinct (keys (from_entries d (map (λ id. (id, x)) ns)))
  Distinct-keys-from_entries x d [] h = h
  Distinct-keys-from_entries x d (n ∷ ns) h =
      Distinct-keys-from_entries x (insert n x d) ns (Distinct-keys-insert n x d h)

pub check_refs-Refs :
    (nodes : List String) (es : List Edge) → check_refs nodes es ≡ ok tt → Refs nodes es
unfolding check_refs
check_refs-Refs nodes [] h = tt
check_refs-Refs nodes (e ∷ es) h = ground (arith, check_refs-Refs nodes es)

pub Refs-check_refs :
    (nodes : List String) (es : List Edge) → Refs nodes es → check_refs nodes es ≡ ok tt
unfolding check_refs
Refs-check_refs nodes [] h = refl
Refs-check_refs nodes (e ∷ es) h = ground (arith, Refs-check_refs nodes es h.1)

-- The list of neighbours of `u` grows by the targets of its edges.
pub count_edges_adj :
    (deg : Dict ℤ) (adj : Dict (List String)) (es : List Edge) (r : Dict ℤ × Dict (List String))
    (u : String) (ts : List String)
    → count_edges deg adj es ≡ ok r
    → lookup u adj ≡ some ts
    → lookup u r.1 ≡ some (ts ++ targets u es)
unfolding count_edges
count_edges_adj deg adj [] r u ts h l = ground (arith, mathlib.Core.List.append-nil ts)
count_edges_adj deg adj (e ∷ es) r u ts h l = elim (Option-cases (lookup e.source adj)) [
  | inl missing ↦ ground arith
  | inr (ns, found) ↦ elim (Bool-cases (e.source == u)) [
    | inl same ↦
        let same' : e.source ≡ u = (eq_iff _ _).0 same in
        let joined = append_assoc ts (e.target ∷ []) (targets u es) in
        let ih =
          count_edges_adj (count_in e.target deg) (insert e.source (ns ++ e.target ∷ []) adj) es r u
            (ts ++ e.target ∷ []) in
        ground (arith, ih, lookup-insert e.source u (ns ++ e.target ∷ []) adj, joined)
    | inr other ↦ ground (
      arith,
      count_edges_adj (count_in e.target deg) (insert e.source (ns ++ e.target ∷ []) adj) es r u ts,
      lookup-insert e.source u (ns ++ e.target ∷ []) adj,
    )
  ]
]

-- One more edge to `target`.
lookup-count_in :
    (target v : String) (deg : Dict ℤ) (n : ℕ)
    → lookup v deg ≡ some (pos n)
    → lookup v (count_in target deg) ≡ some (pos ((if target == v then 1 else 0) + n))
unfolding count_in
lookup-count_in target v deg n l = elim (Bool-cases (target == v)) [
  | inl same ↦
      let e : target ≡ v = (eq_iff _ _).0 same in
      let one : 1 + n ≡ suc n = omega arith in
      ground (arith, lookup-insert target v (suc_ℤ (degree_or_zero (lookup target deg))) deg, one)
  | inr other ↦
      let none' : 0 + n ≡ n = omega arith in
      ground (arith, lookup-insert target v (suc_ℤ (degree_or_zero (lookup target deg))) deg, none')
]

-- The degree of `v` grows by the number of edges to it.
pub count_edges_degree :
    (deg : Dict ℤ) (adj : Dict (List String)) (es : List Edge) (r : Dict ℤ × Dict (List String))
    (v : String) (n : ℕ)
    → count_edges deg adj es ≡ ok r
    → lookup v deg ≡ some (pos n)
    → lookup v r.0 ≡ some (pos (n + in_count v es))
unfolding count_edges
count_edges_degree deg adj [] r v n h l = let e : n + 0 ≡ n = omega arith in rw e (ground arith)
count_edges_degree deg adj (e ∷ es) r v n h l =
    let deg' = count_in e.target deg in
    let added : ℕ = if e.target == v then 1 else 0 in
    let regroup : added + n + in_count v es ≡ n + (added + in_count v es) = omega arith in
    rw (← regroup) (elim (Option-cases (lookup e.source adj)) [
      | inl missing ↦ ground arith
      | inr (ns, found) ↦
          count_edges_degree deg' (insert e.source (ns ++ e.target ∷ []) adj) es r v (added + n)
            (rw (found, count_edges) at h) (lookup-count_in e.target v deg n l)
    ])

-- Edges between nodes add no key, and keep the keys distinct.
pub count_edges-keys :
    (deg : Dict ℤ) (adj : Dict (List String)) (es : List Edge) (r : Dict ℤ × Dict (List String))
    (nodes : List String)
    → count_edges deg adj es ≡ ok r
    → Refs nodes es
    → ((v : String) → contains (keys deg) v ≡ contains nodes v)
    → Distinct (keys deg)
    → ((v : String) → contains (keys r.0) v ≡ contains nodes v) × Distinct (keys r.0)
unfolding count_edges count_in
count_edges-keys deg adj [] r nodes h refs same d =
    subst
      (λ (p : Dict ℤ × Dict (List String)).
        ((v : String) → contains (keys p.0) v ≡ contains nodes v) × Distinct (keys p.0))
      (ok-injective h) (same, d)
count_edges-keys deg adj (e ∷ es) r nodes h refs same d =
    elim (Option-cases (lookup e.source adj)) [
      | inl missing ↦ absurd (cc (rw (missing, count_edges) at h))
      | inr (ns, found) ↦
          let more = suc_ℤ (degree_or_zero (lookup e.target deg)) in
          count_edges-keys (insert e.target more deg) (insert e.source (ns ++ e.target ∷ []) adj) es
            r nodes (rw (found, count_edges) at h) refs.1
            (λ v.
              ground (arith, contains-keys-insert e.target v more deg, same v, eq_iff e.target v))
            (Distinct-keys-insert e.target more deg d)
    ]

-- Every node has a list of neighbours.
abbrev pub Lists : List String → Dict (List String) → Type 0
Lists nodes adj =
    (u : String) → contains nodes u ≡ true → (ts : List String) × (lookup u adj ≡ some ts)

Lists-insert :
    (nodes : List String) (k : String) (ns : List String) (adj : Dict (List String))
    → Lists nodes adj
    → Lists nodes (insert k ns adj)
Lists-insert nodes k ns adj lists u m = elim (Bool-cases (k == u)) [
  | inl same ↦ (ns, ground (arith, lookup-insert k u ns adj))
  | inr other ↦ let (ts, found) = lists u m in (ts, ground (arith, lookup-insert k u ns adj))
]

-- Whenever every source has a list, the loop ends without an exception.
pub count_edges_total :
    (deg : Dict ℤ) (adj : Dict (List String)) (nodes : List String) (es : List Edge)
    → Lists nodes adj
    → Refs nodes es
    → (r : Dict ℤ × Dict (List String)) × (count_edges deg adj es ≡ ok r)
unfolding count_edges
count_edges_total deg adj nodes [] lists refs = ((deg, adj), refl)
count_edges_total deg adj nodes (e ∷ es) lists refs =
    let (ns, found) = lists e.source refs.0.0 in
    let adj' = insert e.source (ns ++ e.target ∷ []) adj in
    rw (found, count_edges)
      (count_edges_total (count_in e.target deg) adj' nodes es
        (Lists-insert nodes e.source (ns ++ e.target ∷ []) adj lists) refs.1)

pub ready_ids-key :
    (deg : Dict ℤ) (v : String) → contains (keys deg) v ≡ false → contains (ready_ids deg) v ≡ false
unfolding ready_ids
ready_ids-key [] v h = refl
ready_ids-key ((id, m) ∷ deg) v h = ground (arith, ready_ids-key deg v)

-- The first queue holds exactly the nodes with degree 0.
pub contains-ready_ids :
    (deg : Dict ℤ) (v : String) (n : ℕ)
    → Distinct (keys deg)
    → lookup v deg ≡ some (pos n)
    → contains (ready_ids deg) v ≡ eqb n 0
unfolding ready_ids
contains-ready_ids [] v n d l = ground arith
contains-ready_ids ((id, m) ∷ deg) v n d l =
    ground (arith, contains-ready_ids deg v n d.1, ready_ids-key deg v, is_zero-pos n, eq_iff id v)

pub ready_ids-Distinct : (deg : Dict ℤ) → Distinct (keys deg) → Distinct (ready_ids deg)
unfolding ready_ids
ready_ids-Distinct [] d = tt
ready_ids-Distinct ((id, m) ∷ deg) d =
    ground (arith, ready_ids-Distinct deg d.1, ready_ids-key deg id d.0)
