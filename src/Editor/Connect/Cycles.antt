-- ===== src/Editor/Connect/Cycles.antt =====
-- `hasCycle` ends, and finds whether a path of edges leads back (test-workflow-canvas.tsx).
use bumd.Prelude.{
  ℕ, zero, suc, ◌+◌, ◌≤◌, String, Bool, true, false, ◌&&◌, ◌||◌, Option, some, List, [], ◌∷◌, ◌==◌,
  if◌then◌else◌, contains, contains-add, add, any, length, ◌≡◌, ◌⊎◌, refl, sym, ap, ◌∙◌, subst,
  arith, eq_iff, eq_self, Bool-cases, inl, inr,
}
use bumd.Workflow.Graph.{Edge}
use bumd.Workflow.Graph.Walk.{Reaches, one, more, Step}
use bumd.Editor.Connect.{push_children, cycle_loop, has_cycle}

contains-push_children :
    (edges : List Edge) (curr w : String) (stack : List String)
    → contains (push_children edges curr stack) w
      ≡ (contains stack w || any (λ e. e.source == curr && e.target == w) edges)
unfolding push_children
contains-push_children [] curr w stack = ground arith
contains-push_children (e ∷ edges) curr w stack = elim (Bool-cases (e.source == curr)) [
  | inl own ↦ rw own (ground (arith, contains-push_children edges curr w (e.target ∷ stack)))
  | inr other ↦ rw other (ground (arith, contains-push_children edges curr w stack))
]

-- How many edges leave the node, and how many leave nodes that were not visited.
abbrev leaving : List Edge → String → ℕ
leaving [] curr = 0
leaving (e ∷ edges) curr = (if e.source == curr then 1 else 0) + leaving edges curr

abbrev unvisited : List Edge → List String → ℕ
unvisited [] visited = 0
unvisited (e ∷ edges) visited =
    (if contains visited e.source then 0 else 1) + unvisited edges visited

length-push_children :
    (edges : List Edge) (curr : String) (stack : List String)
    → length (push_children edges curr stack) ≡ length stack + leaving edges curr
unfolding push_children
length-push_children [] curr stack = omega arith
length-push_children (e ∷ edges) curr stack = elim (Bool-cases (e.source == curr)) [
  | inl own ↦
      rw own (let rest = length-push_children edges curr (e.target ∷ stack) in omega (arith, rest))
  | inr other ↦ rw other (let rest = length-push_children edges curr stack in omega (arith, rest))
]

unvisited-add :
    (edges : List Edge) (visited : List String) (curr : String)
    → contains visited curr ≡ false
    → unvisited edges (add visited curr) + leaving edges curr ≡ unvisited edges visited
unvisited-add [] visited curr new = refl
unvisited-add (e ∷ edges) visited curr new =
    let rest = unvisited-add edges visited curr new in
    let here = contains-add visited curr e.source in
    elim (Bool-cases (e.source == curr)) [
      | inl own ↦
          let same = (eq_iff e.source curr).0 own in
          let found : contains (add visited curr) e.source ≡ true =
            here ∙ ground (arith, same, eq_self curr) in
          let absent : contains visited e.source ≡ false = ap (contains visited) same ∙ new in
          rw (own, found, absent) (omega (arith, rest))
      | inr other ↦
          let kept : contains (add visited curr) e.source ≡ contains visited e.source =
            here ∙ ground (arith, other, eq_iff curr e.source, eq_iff e.source curr) in
          rw (other, kept) (omega (arith, rest))
    ]

unvisited-nil : (edges : List Edge) → unvisited edges [] ≡ length edges
unvisited-nil [] = refl
unvisited-nil (e ∷ edges) = let rest = unvisited-nil edges in omega (arith, rest)

-- The node is the target of the connection, or a path leads to it from there.
abbrev From : List Edge → String → String → Type 0
From edges target v = (target ≡ v) ⊎ Reaches (Step edges) target v

From-Step :
    (edges : List Edge) (target v w : String)
    → From edges target v
    → Step edges v w
    → From edges target w
From-Step edges target v w (inl same) s = inr (one (subst (λ x. Step edges x w) (sym same) s))
From-Step edges target v w (inr path) s = inr (more path s)

-- The nodes of the list, with all that edges lead to, and without the source.
pub record IsClosed (edges : List Edge) (source target : String) (seen : List String) : Type 0 where
  pub start : contains seen target ≡ true
  pub closed : (v w : String) → contains seen v ≡ true → Step edges v w → contains seen w ≡ true
  pub without : contains seen source ≡ false

-- What holds between the rounds.
record Invariant (edges : List Edge) (source target : String) (visited stack : List String)
    : Type 0 where
  from : (v : String) → contains stack v ≡ true → From edges target v
  start : (contains visited target || contains stack target) ≡ true
  closed :
      (v w : String)
      → contains visited v ≡ true
      → Step edges v w
      → (contains visited w || contains stack w) ≡ true
  without : contains visited source ≡ false

Ends : List Edge → String → String → Option Bool → Type 0
Ends edges source target result =
    ((result ≡ some true) × From edges target source)
    ⊎ ((result ≡ some false) × ((seen : List String) × IsClosed edges source target seen))

or-false : (b : Bool) → (b || false) ≡ true → b ≡ true
or-false true h = refl
or-false false h = cc

module _ (edges : List Edge) (source target : String) where
  Invariant-again :
      (visited stack : List String) (curr : String)
      → contains visited curr ≡ true
      → Invariant edges source target visited (curr ∷ stack)
      → Invariant edges source target visited stack
  Invariant-again visited stack curr seen inv =
      let moved : (w : String)
          → (contains visited w || contains (curr ∷ stack) w) ≡ true
          → (contains visited w || contains stack w) ≡ true =
        λ w h. elim (Bool-cases (curr == w)) [
          | inl same ↦
              let e = (eq_iff curr w).0 same in
              let there = subst (λ x. contains visited x ≡ true) e seen in simp there
          | inr other ↦ simp other at h
        ] in
      record {
        from = λ v m. inv.from v (ground (arith, m));
        start = moved target inv.start;
        closed = λ v w m s. moved w (inv.closed v w m s);
        without = inv.without;
      }

  Invariant-new :
      (visited stack : List String) (curr : String)
      → (curr == source) ≡ false
      → Invariant edges source target visited (curr ∷ stack)
      → Invariant edges source target (add visited curr) (push_children edges curr stack)
  Invariant-new visited stack curr differs inv =
      let moved : (w : String)
          → (contains visited w || contains (curr ∷ stack) w) ≡ true
          → (contains (add visited curr) w || contains (push_children edges curr stack) w) ≡ true =
        λ w h.
          let a = contains-add visited curr w in
          let p = contains-push_children edges curr w stack in
          rw (a, p)
            (grouped (contains visited w) (curr == w) (contains stack w)
              (any (λ e. e.source == curr && e.target == w) edges) h) in
      record {
        from = λ v m. elim (Bool-cases (contains stack v)) [
          | inl old ↦ inv.from v (behind (curr == v) (contains stack v) old)
          | inr new ↦ From-Step edges target curr v (inv.from curr (ground (arith, eq_self curr))) (
              only_new (contains stack v) _ (sym (contains-push_children edges curr v stack) ∙ m)
                new)
        ];
        start = moved target inv.start;
        closed = λ v w m s. elim (Bool-cases (curr == v)) [
          | inl same ↦
              let e = (eq_iff curr v).0 same in
              let step = subst (λ x. Step edges x w) (sym e) s in
              let p = contains-push_children edges curr w stack in rw p (last_of _ _ _ step)
          | inr other ↦ moved w (
              inv.closed v w (only_new (curr == v) _ (sym (contains-add visited curr v) ∙ m) other)
                s)
        ];
        without = contains-add visited curr source ∙ both_false _ _ differs inv.without;
      }
    where
      grouped : (a b c d : Bool) → (a || (b || c)) ≡ true → ((b || a) || (c || d)) ≡ true
      grouped true true c d h = refl
      grouped true false c d h = refl
      grouped false true c d h = refl
      grouped false false true d h = refl
      grouped false false false d h = cc

      behind : (a b : Bool) → b ≡ true → (a || b) ≡ true
      behind true b h = refl
      behind false b h = h

      only_new : (a b : Bool) → (a || b) ≡ true → a ≡ false → b ≡ true
      only_new true b h e = cc
      only_new false b h e = h

      last_of : (a b c : Bool) → c ≡ true → (a || (b || c)) ≡ true
      last_of true b c h = refl
      last_of false true c h = refl
      last_of false false c h = h

      both_false : (a b : Bool) → a ≡ false → b ≡ false → (a || b) ≡ false
      both_false true b h k = cc
      both_false false b h k = k

  cycle_loop-Ends :
      (fuel : ℕ) (visited stack : List String)
      → length stack + unvisited edges visited ≤ fuel
      → Invariant edges source target visited stack
      → Ends edges source target (cycle_loop fuel edges source visited stack)
  unfolding cycle_loop Ends
  cycle_loop-Ends fuel visited [] enough inv = inr (
    refl,
    (
      visited,
      record {
        start = or-false _ inv.start;
        closed = λ v w m s. or-false _ (inv.closed v w m s);
        without = inv.without;
      },
    ),
  )
  cycle_loop-Ends zero visited (curr ∷ stack) enough inv = absurd (omega (arith, enough))
  cycle_loop-Ends (suc fuel) visited (curr ∷ stack) enough inv =
      elim (Bool-cases (curr == source)) [
        | inl back ↦ rw back (
            inl (
              refl,
              subst (From edges target) ((eq_iff curr source).0 back)
                  (inv.from curr (ground (arith, eq_self curr))),
            ))
        | inr differs ↦ elim (Bool-cases (contains visited curr)) [
          | inl seen ↦
              rw (differs, seen)
                (cycle_loop-Ends fuel visited stack (omega (arith, enough))
                  (Invariant-again visited stack curr seen inv))
          | inr new ↦
              let fewer = unvisited-add edges visited curr new in
              let pushed = length-push_children edges curr stack in
              let rest =
                cycle_loop-Ends fuel (add visited curr) (push_children edges curr stack)
                  (omega (arith, enough, fewer, pushed))
                  (Invariant-new visited stack curr differs inv) in
              rw (differs, new) (rw new at rest)
        ]
      ]

-- A path from a node of a closed list stays in it.
IsClosed-Reaches :
    (edges : List Edge) (source target : String) (seen : List String)
    → IsClosed edges source target seen
    → (v : String) → contains seen v ≡ true
    → {w : String} → Reaches (Step edges) v w
    → contains seen w ≡ true
IsClosed-Reaches edges source target seen c v m (one s) = c.closed v _ m s
IsClosed-Reaches edges source target seen c v m (more path s) =
    c.closed _ _ (IsClosed-Reaches edges source target seen c v m path) s

-- The source is the target, or a path leads from the target to it.
abbrev pub LeadsBack : List Edge → String → String → Type 0
LeadsBack edges source target = (target ≡ source) ⊎ Reaches (Step edges) target source

-- `hasCycle` ends, and says whether the target of the connection is its source or a path of edges leads
-- from it to the source.
pub has_cycle_lem :
    (edges : List Edge) (source target : String)
    → ((has_cycle edges source target ≡ some true) × LeadsBack edges source target)
      ⊎ ((has_cycle edges source target ≡ some false) × (LeadsBack edges source target → ⊥))
unfolding has_cycle Ends
has_cycle_lem edges source target = elim (Bool-cases (source == target)) [
  | inl same ↦ rw same (inl (refl, inl (sym ((eq_iff source target).0 same))))
  | inr differs ↦
      let all = unvisited-nil edges in
      let ended =
        cycle_loop-Ends edges source target (suc (length edges)) [] (target ∷ [])
          (omega (arith, all))
          (record {
            from = λ v m. inl ((eq_iff target v).0 (or-false _ m));
            start = ground (arith, eq_self target);
            closed = λ v w m s. absurd (false_true m);
            without = refl;
          }) in
      rw differs (elim ended [
        | inl (e, back) ↦ inl (e, back)
        | inr (e, (seen, c)) ↦ inr (
          e,
          λ back.
              apart (contains seen source)
                (elim back [
                  | inl same ↦ subst (λ x. contains seen x ≡ true) same c.start
                  | inr path ↦ IsClosed-Reaches edges source target seen c target c.start path
                ])
                c.without,
        )
      ])
]
  where
    false_true : ◌≡◌ {A = Bool} false true → ⊥
    false_true h = cc

    apart : (b : Bool) → b ≡ true → b ≡ false → ⊥
    apart b p q = cc
