-- ===== src/Workflow/Graph/Sweep.antt =====
-- What one round of Kahn's loop does to the degrees and to the queue (runner/test-workflow-graph.ts).
use bumd.Prelude.{
  ℕ, ◌+◌, String, true, false, ◌&&◌, ◌||◌, some, List, [], ◌∷◌, ◌++◌, if◌then◌else◌, eqb, contains,
  count, Distinct, Distinct-append, Dict, lookup, insert, ℤ, pos, pred_ℤ, is_zero, ◌≡◌, refl, arith,
  eq_iff, eq_self, lookup-insert, contains-append, Bool-cases, inl, inr, Within, subst, sym,
  if_true, if_false,
}
use bumd.Workflow.Graph.{degree_or_zero, release}
use bumd.Workflow.Graph.Degrees.{pred_ℤ-pos, is_zero-pos}

pub count-contains : (v : String) (xs : List String) → contains xs v ≡ false → count v xs ≡ 0
count-contains v [] h = refl
count-contains v (x ∷ xs) h = ground (arith, count-contains v xs)

pub contains-of-count : (v : String) (xs : List String) → count v xs ≡ 0 → contains xs v ≡ false
contains-of-count v [] h = refl
contains-of-count v (x ∷ xs) h = ground (arith, contains-of-count v xs)

-- Each node has the degree that it will have after the round, and one for each entry of `ts`.
abbrev pub DegreesBefore : List String → (String → ℕ) → List String → Dict ℤ → Type 0
DegreesBefore nodes after ts deg =
    (v : String) → contains nodes v ≡ true → lookup v deg ≡ some (pos (after v + count v ts))

module _ (nodes : List String) (after : String → ℕ) where
  -- The degree that the first neighbour gets.
  lowered :
      (deg : Dict ℤ) (t : String) (ts : List String)
      → DegreesBefore nodes after (t ∷ ts) deg
      → contains nodes t ≡ true
      → pred_ℤ (degree_or_zero (lookup t deg)) ≡ pos (after t + count t ts)
  lowered deg t ts before m = rw (before t m, eq_self t) (pred_ℤ-pos (omega arith))

  DegreesBefore-insert :
      (deg : Dict ℤ) (t : String) (ts : List String)
      → DegreesBefore nodes after (t ∷ ts) deg
      → contains nodes t ≡ true
      → DegreesBefore nodes after ts (insert t (pred_ℤ (degree_or_zero (lookup t deg))) deg)
  DegreesBefore-insert deg t ts before m v mv = ground (
    arith,
    lookup-insert t v (pred_ℤ (degree_or_zero (lookup t deg))) deg,
    lowered deg t ts before m,
    before v mv,
    eq_iff t v,
  )

  -- After the round every node has its new degree.
  pub release-degrees :
      (deg : Dict ℤ) (queue ts : List String)
      → DegreesBefore nodes after ts deg
      → Within ts nodes
      → (v : String) → contains nodes v ≡ true
      → lookup v (release deg queue ts).0 ≡ some (pos (after v))
  unfolding release
  release-degrees deg queue [] before within v m =
      let e : after v + 0 ≡ after v = omega arith in rw (← e) (before v m)
  release-degrees deg queue (t ∷ ts) before within v m =
      let here = within t (ground (arith, eq_self t)) in
      let new_deg = pred_ℤ (degree_or_zero (lookup t deg)) in
      release-degrees (insert t new_deg deg) (if is_zero new_deg then queue ++ t ∷ [] else queue) ts
        (DegreesBefore-insert deg t ts before here) (λ a h. within a (ground arith)) v m

  -- The queue gains exactly the neighbours that have no incoming edge left.
  pub contains-release :
      (deg : Dict ℤ) (queue ts : List String)
      → DegreesBefore nodes after ts deg
      → Within ts nodes
      → (v : String)
      → contains (release deg queue ts).1 v ≡ (contains queue v || contains ts v && eqb (after v) 0)
  unfolding release
  contains-release deg queue [] before within v = ground arith
  contains-release deg queue (t ∷ ts) before within v =
      let here = within t (ground (arith, eq_self t)) in
      let new_deg = pred_ℤ (degree_or_zero (lookup t deg)) in
      let queue' = (if is_zero new_deg then queue ++ t ∷ [] else queue) in
      ground (
        arith,
        contains-release (insert t new_deg deg) queue' ts
            (DegreesBefore-insert deg t ts before here) (λ a h. within a (ground arith)) v,
        lowered deg t ts before here,
        is_zero-pos (after t + count t ts),
        contains-append queue (t ∷ []) v,
        eq_iff t v,
        count-contains t ts,
      )

  -- No node enters the queue twice.
  pub release-Distinct :
      (deg : Dict ℤ) (queue ts : List String)
      → DegreesBefore nodes after ts deg
      → Within ts nodes
      → Distinct queue
      → ((v : String) → contains ts v ≡ true → after v ≡ 0 → contains queue v ≡ false)
      → Distinct (release deg queue ts).1
  unfolding release
  release-Distinct deg queue [] before within d fresh = d
  release-Distinct deg queue (t ∷ ts) before within d fresh =
      let here = within t (ground (arith, eq_self t)) in
      let new_deg = pred_ℤ (degree_or_zero (lookup t deg)) in
      let before' = DegreesBefore-insert deg t ts before here in
      let low = lowered deg t ts before here in
      let rounds = λ (q : List String). Distinct (release (insert t new_deg deg) q ts).1 in
      elim (Bool-cases (is_zero new_deg)) [
        | inl zero_now ↦
            let gone : after t + count t ts ≡ 0 =
              ground (arith, low, is_zero-pos (after t + count t ts)) in
            let last = contains-of-count t ts (omega arith) in
            subst rounds (sym (if_true _ _ zero_now)) (
              release-Distinct (insert t new_deg deg) (queue ++ t ∷ []) ts before'
                (λ a h. within a (ground arith))
                (Distinct-append queue (t ∷ []) d (refl, tt)
                  (λ a m.
                    ground (arith, fresh t (ground (arith, eq_self t)) (omega arith), eq_iff t a)))
                (λ v m z.
                  ground (arith, fresh v, contains-append queue (t ∷ []) v, last, eq_iff t v)))
        | inr more ↦ subst rounds (sym (if_false _ _ more)) (
            release-Distinct (insert t new_deg deg) queue ts before'
              (λ a h. within a (ground arith)) d (λ v m z. ground (arith, fresh v)))
      ]
