-- ===== src/Editor/Connect/Acyclic.antt =====
-- What the editor draws keeps the workflow acyclic (test-workflow-canvas.tsx, with the reducer of
-- workflow-editor-state.ts).
use bumd.Prelude.{
  String, Bool, true, false, ◌&&◌, some, List, [], ◌∷◌, ◌++◌, map, ◌==◌, ◌≡◌, ◌⊎◌, refl, sym, ap,
  subst, arith, eq_iff, Bool-cases, inl, inr,
}
use bumd.Workflow.Graph.{Edge}
use bumd.Workflow.Graph.Walk.{Reaches, one, more, Step}
use bumd.Editor.Types.{EditorEdge, EditorState, EditorAction}
use bumd.Editor.{workflow_editor_reducer}
use bumd.Editor.Connect.{dispatched, edge_ends, on_connect}
use bumd.Editor.Connect.Cycles.{LeadsBack}
use bumd.Editor.Connect.Allowed.{edges_of, on_connect_iff}

-- No path of edges leads from a node back to it.
abbrev pub IsAcyclic : List Edge → Type 0
IsAcyclic edges = (v : String) → Reaches (Step edges) v v → ⊥

and-parts : (a b : Bool) → (a && b) ≡ true → (a ≡ true) × (b ≡ true)
and-parts true b h = (refl, h)
and-parts false b h = cc

-- A step of the new graph is one of the old, or the new edge.
Step-cases :
    (edges : List Edge) (e : Edge) (v w : String)
    → Step (edges ++ e ∷ []) v w
    → Step edges v w ⊎ ((e.source ≡ v) × (e.target ≡ w))
Step-cases [] e v w h = elim (Bool-cases (e.source == v && e.target == w)) [
  | inl here ↦
      let (a, b) = and-parts _ _ here in inr ((eq_iff e.source v).0 a, (eq_iff e.target w).0 b)
  | inr other ↦ absurd (cc (rw other at h))
]
Step-cases (d ∷ edges) e v w h = elim (Bool-cases (d.source == v && d.target == w)) [
  | inl here ↦ inl (simp here)
  | inr other ↦ elim (Step-cases edges e v w (rw other at h)) [
    | inl old ↦ inl (ground (arith, old))
    | inr new ↦ inr new
  ]
]

-- The two nodes are one, or a path joins them.
abbrev Joined : List Edge → String → String → Type 0
Joined edges v w = (v ≡ w) ⊎ Reaches (Step edges) v w

Reaches-append :
    (edges : List Edge) (a b : String)
    → Reaches (Step edges) a b
    → {c : String} → Reaches (Step edges) b c
    → Reaches (Step edges) a c
Reaches-append edges a b p (one s) = more p s
Reaches-append edges a b p (more q s) = more (Reaches-append edges a b p q) s

Joined-Reaches :
    (edges : List Edge) (a b c : String) → Joined edges a b → Joined edges b c → Joined edges a c
Joined-Reaches edges a b c (inl e) q = subst (λ x. Joined edges x c) (sym e) q
Joined-Reaches edges a b c (inr p) (inl e) = inr (subst (λ x. Reaches (Step edges) a x) e p)
Joined-Reaches edges a b c (inr p) (inr q) = inr (Reaches-append edges a b p q)

Joined-Step :
    (edges : List Edge) (a b c : String) → Joined edges a b → Step edges b c → Joined edges a c
Joined-Step edges a b c (inl e) s = inr (one (subst (λ x. Step edges x c) (sym e) s))
Joined-Step edges a b c (inr p) s = inr (more p s)

-- A path of the new graph is one of the old, or takes the new edge.
Reaches-cases :
    (edges : List Edge) (e : Edge) (v : String) {w : String}
    → Reaches (Step (edges ++ e ∷ [])) v w
    → Reaches (Step edges) v w ⊎ (Joined edges v e.source × Joined edges e.target w)
Reaches-cases edges e v (one {b} s) = elim (Step-cases edges e v b s) [
  | inl old ↦ inl (one old)
  | inr (from, to) ↦ inr (inl (sym from), inl to)
]
Reaches-cases edges e v (more {b} {c} p s) = elim (Reaches-cases edges e v p) [
  | inl old ↦ elim (Step-cases edges e b c s) [
    | inl same ↦ inl (more old same)
    | inr (from, to) ↦ inr (inr (subst (λ x. Reaches (Step edges) v x) (sym from) old), inl to)
  ]
  | inr (before, after) ↦ elim (Step-cases edges e b c s) [
    | inl same ↦ inr (before, Joined-Step edges e.target b c after same)
    | inr (from, to) ↦ inr (before, inl to)
  ]
]

IsAcyclic-append :
    (edges : List Edge) (e : Edge)
    → (LeadsBack edges e.source e.target → ⊥)
    → IsAcyclic edges
    → IsAcyclic (edges ++ e ∷ [])
IsAcyclic-append edges e no_way_back acyclic v path = elim (Reaches-cases edges e v path) [
  | inl old ↦ acyclic v old
  | inr (before, after) ↦ no_way_back (Joined-Reaches edges e.target v e.source after before)
]

map-append-one :
    (edges : List EditorEdge) (edge : EditorEdge)
    → map edge_ends (edges ++ edge ∷ []) ≡ map edge_ends edges ++ edge_ends edge ∷ []
map-append-one [] edge = refl
map-append-one (e ∷ edges) edge = ap (λ rest. edge_ends e ∷ rest) (map-append-one edges edge)

-- If no path of edges leads from a node back to it, then that is still so after the reducer has taken
-- the action that drawing an edge dispatches.
pub on_connect-IsAcyclic :
    (now : String) (state : EditorState) (edge : EditorEdge) (action : EditorAction)
    → IsAcyclic (edges_of state.definition)
    → on_connect state.definition edge ≡ some (dispatched action)
    → IsAcyclic (edges_of (workflow_editor_reducer now state action).definition)
unfolding workflow_editor_reducer
on_connect-IsAcyclic now state edge action acyclic h =
    let (allowed, same) = (on_connect_iff state.definition edge action).0 h in
    let drawn : IsAcyclic (edges_of state.definition ++ edge_ends edge ∷ []) =
      IsAcyclic-append (edges_of state.definition) (edge_ends edge) allowed.no_way_back acyclic in
    subst (λ a. IsAcyclic (edges_of (workflow_editor_reducer now state a).definition)) (sym same)
      (subst IsAcyclic (sym (map-append-one state.definition.edges edge)) drawn)
