-- ===== src/Workflow/Graph/Walk.antt =====
-- `getAncestors` and `getDescendants` find exactly the nodes that a path of edges leads to, and end
-- (runner/test-workflow-graph.ts). First the loop that both share, over any map of next nodes.
use bumd.Prelude.{
  ℕ, zero, suc, ◌+◌, ◌≤◌, String, true, false, not, ◌&&◌, ◌||◌, some, List, [], ◌∷◌, ◌++◌, ◌==◌,
  if◌then◌else◌, length, contains, add, any, Within, Dict, lookup, ◌≡◌, ◌↔◌, refl, subst, arith,
  eq_iff, eq_self, contains-append, contains-add, Bool-cases, if_false, ◌⊎◌, inl, inr,
}
use mathlib.Core.Option.{some-injective}
use bumd.Workflow.Graph.{Edge, or_empty, discover, walk}

-- A path of one or more steps.
pub data Reaches (step : String → String → Type 0) (a : String) : String → Type 0 where
  one : {b : String} → step a b → Reaches step a b
  more : {b c : String} → Reaches step a b → step b c → Reaches step a c

-- Some edge leads from `a` to `b`.
abbrev pub Step : List Edge → String → String → Type 0
Step edges a b = any (λ e. e.source == a && e.target == b) edges ≡ true

-- The map lists `b` among the next nodes of `a`.
abbrev pub Next : Dict (List String) → String → String → Type 0
Next nexts a b = contains (or_empty (lookup a nexts)) b ≡ true

contains-discover_found :
    (found stack ts : List String) (b : String)
    → contains (discover found stack ts).0 b ≡ (contains found b || contains ts b)
unfolding discover
contains-discover_found found stack [] b = ground arith
contains-discover_found found stack (t ∷ ts) b = elim (Bool-cases (contains found t)) [
  | inl seen ↦
      rw (seen, discover) (ground (arith, contains-discover_found found stack ts b, eq_iff t b))
  | inr new ↦
      rw (new, discover)
        (ground (
          arith,
          contains-discover_found (found ++ t ∷ []) (t ∷ stack) ts b,
          contains-append found (t ∷ []) b,
        ))
]

-- The stack keeps what it held and gains exactly what was found now.
contains-discover_stack :
    (found stack ts : List String) (b : String)
    → contains (discover found stack ts).1 b
      ≡ (contains stack b || contains ts b && not (contains found b))
unfolding discover
contains-discover_stack found stack [] b = ground arith
contains-discover_stack found stack (t ∷ ts) b = elim (Bool-cases (contains found t)) [
  | inl seen ↦
      rw (seen, discover) (ground (arith, contains-discover_stack found stack ts b, eq_iff t b))
  | inr new ↦
      rw (new, discover)
        (ground (
          arith,
          contains-discover_stack (found ++ t ∷ []) (t ∷ stack) ts b,
          contains-append found (t ∷ []) b,
          eq_iff t b,
        ))
]

-- How many entries of `names` are not found yet.
abbrev unfound : List String → List String → ℕ
unfound found [] = 0
unfound found (u ∷ names) = (if contains found u then 0 else 1) + unfound found names

-- Each round of the inner loop pushes only what it finds.
unfound-add-le :
    (found names : List String) (t : String) → unfound (add found t) names ≤ unfound found names
unfound-add-le found [] t = omega arith
unfound-add-le found (u ∷ names) t =
    ground (arith, unfound-add-le found names t, contains-add found t u)

unfound-add :
    (found names : List String) (t : String)
    → contains names t ≡ true
    → contains found t ≡ false
    → suc (unfound (add found t) names) ≤ unfound found names
unfound-add found [] t m new = absurd (cc)
unfound-add found (u ∷ names) t m new = ground (
  arith,
  unfound-add found names t,
  unfound-add-le found names t,
  contains-add found t u,
  eq_iff u t,
  eq_iff t u,
)

-- What is pushed was not found before, so the stack grows by no more than `unfound` falls.
discover-work :
    (names found stack ts : List String)
    → Within ts names
    → length (discover found stack ts).1 + unfound (discover found stack ts).0 names
      ≤ length stack + unfound found names
unfolding discover
discover-work names found stack [] w = omega arith
discover-work names found stack (t ∷ ts) w = elim (Bool-cases (contains found t)) [
  | inl seen ↦ rw (seen, discover) (discover-work names found stack ts (λ a m. w a (ground arith)))
  | inr new ↦
      let here = w t (ground (arith, eq_self t)) in
      let falls : suc (unfound (found ++ t ∷ []) names) ≤ unfound found names =
        subst (λ f. suc (unfound f names) ≤ unfound found names) (if_false _ _ new)
          (unfound-add found names t here new) in
      rw (new, discover)
        (omega (
          arith,
          discover-work names (found ++ t ∷ []) (t ∷ stack) ts (λ a m. w a (ground arith)),
          falls,
        ))
]

module _ (nexts : Dict (List String)) (names : List String)
    (listed : (a : String) → Within (or_empty (lookup a nexts)) names) where
  -- The loop ends when the fuel is not less than the stack and what is left to find.
  walk_ends :
      (fuel : ℕ) (found stack : List String)
      → length stack + unfound found names ≤ fuel
      → (result : List String) × (walk fuel nexts found stack ≡ some result)
  unfolding walk
  walk_ends fuel found [] h = (found, refl)
  walk_ends zero found (a ∷ stack) h = absurd (omega arith)
  walk_ends (suc fuel) found (a ∷ stack) h =
      walk_ends fuel (discover found stack (or_empty (lookup a nexts))).0
        (discover found stack (or_empty (lookup a nexts))).1
        (omega (arith, discover-work names found stack (or_empty (lookup a nexts)) (listed a)))

module _ (nexts : Dict (List String)) (start : String) where
  record Inv (found stack : List String) : Type 0 where
    sound : (b : String) → contains found b ≡ true → Reaches (Next nexts) start b
    stacked : (a : String) → contains stack a ≡ true → (a ≡ start) ⊎ (contains found a ≡ true)
    closed :
        (a b : String)
        → (a ≡ start) ⊎ (contains found a ≡ true)
        → Next nexts a b
        → (contains stack a ≡ true) ⊎ (contains found b ≡ true)

  -- A step from a node on the stack is a path from the start.
  extend :
      (found stack : List String) (a b : String)
      → Inv found stack
      → (a ≡ start) ⊎ (contains found a ≡ true)
      → Next nexts a b
      → Reaches (Next nexts) start b
  extend found stack a b inv (inl same) next = one (subst (λ x. Next nexts x b) same next)
  extend found stack a b inv (inr known) next = more (inv.sound a known) next

  round-Inv :
      (found stack : List String) (a : String)
      → Inv found (a ∷ stack)
      → Inv
          (discover found stack (or_empty (lookup a nexts))).0
          (discover found stack (or_empty (lookup a nexts))).1
  round-Inv found stack a inv =
      let ts = or_empty (lookup a nexts) in
      let f = contains-discover_found found stack ts in
      let k = contains-discover_stack found stack ts in
      record {
        sound = λ b m. elim (Bool-cases (contains found b)) [
          | inl old ↦ inv.sound b old
          | inr new ↦
              extend found (a ∷ stack) a b inv (inv.stacked a (ground (arith, eq_self a)))
                (ground (arith, f b))
        ];
        stacked = λ b m. ground (arith, f b, k b, inv.stacked b);
        closed = λ x b known next. ground (arith, f b, f x, k x, inv.closed x b, eq_iff a x);
      }

  walk-Inv :
      (fuel : ℕ) (found stack result : List String)
      → Inv found stack
      → walk fuel nexts found stack ≡ some result
      → Inv result []
  unfolding walk
  walk-Inv fuel found [] result inv h = subst (λ f. Inv f []) (some-injective _ _ h) inv
  walk-Inv zero found (a ∷ stack) result inv h = absurd (cc)
  walk-Inv (suc fuel) found (a ∷ stack) result inv h =
      walk-Inv fuel (discover found stack (or_empty (lookup a nexts))).0
        (discover found stack (or_empty (lookup a nexts))).1 result (round-Inv found stack a inv) h

  start-Inv : Inv [] (start ∷ [])
  start-Inv = record {
    sound = λ b m. absurd (cc);
    stacked = λ a m. ground (arith, eq_iff start a);
    closed = λ a b known next. ground (arith, eq_iff start a);
  }

  complete :
      (result : List String)
      → Inv result []
      → (b : String) → Reaches (Next nexts) start b
      → contains result b ≡ true
  complete result inv b (one step) = ground (arith, inv.closed start b (inl refl) step)
  complete result inv b (more {b = a} path step) =
      ground (arith, inv.closed a b (inr (complete result inv a path)) step)

unfound-le : (names : List String) → unfound [] names ≤ length names
unfound-le [] = omega arith
unfound-le (u ∷ names) = omega (arith, unfound-le names)

-- With fuel for the start and for each name, the walk ends, and has found exactly what a path of
-- one or more steps leads to.
pub walk_finds :
    (nexts : Dict (List String)) (names : List String) (start : String) (fuel : ℕ)
    → ((a : String) → Within (or_empty (lookup a nexts)) names)
    → suc (length names) ≤ fuel
    → (result : List String) × (walk fuel nexts [] (start ∷ []) ≡ some result)
      × ((b : String) → (contains result b ≡ true) ↔ Reaches (Next nexts) start b)
walk_finds nexts names start fuel listed room =
    let (result, ends) =
      walk_ends nexts names listed fuel [] (start ∷ []) (omega (arith, unfound-le names)) in
    let inv = walk-Inv nexts start fuel [] (start ∷ []) result (start-Inv nexts start) ends in
    (result, ends, λ b. (inv.sound b, complete nexts start result inv b))
