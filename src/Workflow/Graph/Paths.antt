-- ===== src/Workflow/Graph/Paths.antt =====
-- `getAncestors` and `getDescendants` (runner/test-workflow-graph.ts) against paths of edges.
use bumd.Prelude.{
  suc, String, true, ◌&&◌, ◌||◌, some, List, [], ◌∷◌, ◌++◌, map, ◌==◌, length, contains, any, Dict,
  lookup, ◌≡◌, ◌↔◌, refl, ap, arith, eq_iff, contains-append, lookup-insert,
}
use bumd.Workflow.Graph.{
  Edge, or_empty, push_at, parents_of, children_of, get_ancestors, get_descendants,
}
use bumd.Workflow.Graph.Walk.{Reaches, one, more, Step, Next, walk_finds}

contains-push_at :
    (k v a b : String) (lists : Dict (List String))
    → contains (or_empty (lookup a (push_at k v lists))) b
      ≡ (contains (or_empty (lookup a lists)) b || k == a && v == b)
unfolding push_at
contains-push_at k v a b lists = ground (
  arith,
  lookup-insert k a (or_empty (lookup k lists) ++ v ∷ []) lists,
  eq_iff k a,
  contains-append (or_empty (lookup k lists)) (v ∷ []) b,
)

children_of-Step :
    (lists : Dict (List String)) (es : List Edge) (a b : String)
    → contains (or_empty (lookup a (children_of lists es))) b
      ≡ (contains (or_empty (lookup a lists)) b || any (λ e. e.source == a && e.target == b) es)
unfolding children_of
children_of-Step lists [] a b = ground arith
children_of-Step lists (e ∷ es) a b = ground (
  arith,
  children_of-Step (push_at e.source e.target lists) es a b,
  contains-push_at e.source e.target a b lists,
)

parents_of-Step :
    (lists : Dict (List String)) (es : List Edge) (a b : String)
    → contains (or_empty (lookup a (parents_of lists es))) b
      ≡ (contains (or_empty (lookup a lists)) b || any (λ e. e.source == b && e.target == a) es)
unfolding parents_of
parents_of-Step lists [] a b = ground arith
parents_of-Step lists (e ∷ es) a b = ground (
  arith,
  parents_of-Step (push_at e.target e.source lists) es a b,
  contains-push_at e.target e.source a b lists,
)

any-target :
    (es : List Edge) (a b : String)
    → any (λ e. e.source == a && e.target == b) es ≡ true
    → contains (map (λ e. e.target) es) b ≡ true
any-target [] a b h = cc
any-target (e ∷ es) a b h = ground (arith, any-target es a b)

any-source :
    (es : List Edge) (a b : String)
    → any (λ e. e.source == a && e.target == b) es ≡ true
    → contains (map (λ e. e.source) es) a ≡ true
any-source [] a b h = cc
any-source (e ∷ es) a b h = ground (arith, any-source es a b)

length-map {ℓ} : {A : Type ℓ} (f : A → String) (xs : List A) → length (map f xs) ≡ length xs
length-map f [] = refl
length-map f (x ∷ xs) = ap suc (length-map f xs)

-- The same path under a relation with the same steps.
Reaches-map :
    (step step' : String → String → Type 0) (a : String)
    → ((x y : String) → step x y → step' x y)
    → {b : String} → Reaches step a b
    → Reaches step' a b
Reaches-map step step' a f (one s) = one (f _ _ s)
Reaches-map step step' a f (more path s) = more (Reaches-map step step' a f path) (f _ _ s)

-- A step in front of a path.
Reaches-cons :
    (step : String → String → Type 0) (a b : String)
    → step a b
    → {c : String} → Reaches step b c
    → Reaches step a c
Reaches-cons step a b s (one t) = more (one s) t
Reaches-cons step a b s (more path t) = more (Reaches-cons step a b s path) t

Reaches-flip :
    (step : String → String → Type 0) (a : String) {b : String}
    → Reaches (λ x y. step y x) a b
    → Reaches step b a
Reaches-flip step a (one s) = one s
Reaches-flip step a (more {b} {c} path s) = Reaches-cons step c b s (Reaches-flip step a path)

-- `getDescendants` ends, and returns exactly the nodes that a path of one or more edges leads to
-- from the node.
pub get_descendants_iff :
    (node_id : String) (edges : List Edge)
    → (result : List String) × (get_descendants node_id edges ≡ some result)
      × ((b : String) → (contains result b ≡ true) ↔ Reaches (Step edges) node_id b)
unfolding get_descendants
get_descendants_iff node_id edges =
    let nexts = children_of [] edges in
    let names = map (λ (e : Edge). e.target) edges in
    let (result, ends, iff) =
      walk_finds nexts names node_id (suc (length edges))
        (λ a b m. any-target edges a b (ground (arith, children_of-Step [] edges a b)))
        (omega (arith, length-map (λ (e : Edge). e.target) edges)) in
    (
      result,
      ends,
      λ b. (
        λ m.
            Reaches-map (Next nexts) (Step edges) node_id
              (λ x y s. ground (arith, children_of-Step [] edges x y)) ((iff b).0 m),
        λ path. (iff b).1 (
            Reaches-map (Step edges) (Next nexts) node_id
              (λ x y s. ground (arith, children_of-Step [] edges x y)) path),
      ),
    )

-- `getAncestors` ends, and returns exactly the nodes from which a path of one or more edges leads to
-- the node.
pub get_ancestors_iff :
    (node_id : String) (edges : List Edge)
    → (result : List String) × (get_ancestors node_id edges ≡ some result)
      × ((b : String) → (contains result b ≡ true) ↔ Reaches (Step edges) b node_id)
unfolding get_ancestors
get_ancestors_iff node_id edges =
    let nexts = parents_of [] edges in
    let names = map (λ (e : Edge). e.source) edges in
    let back = λ (x y : String). Step edges y x in
    let (result, ends, iff) =
      walk_finds nexts names node_id (suc (length edges))
        (λ a b m. any-source edges b a (ground (arith, parents_of-Step [] edges a b)))
        (omega (arith, length-map (λ (e : Edge). e.source) edges)) in
    (
      result,
      ends,
      λ b. (
        λ m. Reaches-flip (Step edges) node_id (
            Reaches-map (Next nexts) back node_id
              (λ x y s. ground (arith, parents_of-Step [] edges x y)) ((iff b).0 m)),
        λ path. (iff b).1 (
            Reaches-map back (Next nexts) node_id
              (λ x y s. ground (arith, parents_of-Step [] edges x y)) (Reaches-flip back b path)),
      ),
    )
