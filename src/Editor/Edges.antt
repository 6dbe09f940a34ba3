-- ===== src/Editor/Edges.antt =====
-- The nodes that edges name, and the selection, through an action (workflow-editor-state.ts).
use bumd.Prelude.{
  String, Bool, true, false, not, Option, none, List, [], ◌∷◌, ◌++◌, map, ◌==◌, if◌then◌else◌, eqb,
  filter, contains, All, contains-append, ◌≡◌, refl, sym, ap, ◌∙◌, subst, arith, eq_iff, Bool-cases,
  ◌⊎◌, inl, inr,
}
use bumd.Editor.Types.{
  RequestTemplate, EditorNode, EditorEdge, WorkflowDto, EditorState, EditorAction, load_workflow,
  set_nodes, set_edges, add_edge, save_success,
}
use bumd.Editor.{
  as_test, with_server, normalized_nodes, apply_default, load, at_node, with_template, cleared,
  touches,
}

abbrev pub ids : List EditorNode → List String
ids nodes = map (λ node. node.id) nodes

-- Both ends of the edge are among the nodes.
abbrev pub Connects : List EditorNode → EditorEdge → Type 0
Connects nodes edge =
    (contains (ids nodes) edge.source ≡ true) × (contains (ids nodes) edge.target ≡ true)

abbrev pub AllConnect : List EditorNode → List EditorEdge → Type 0
AllConnect nodes edges = All (Connects nodes) edges

-- No edge hangs in the air, and a node and an edge are not selected at once.
pub record IsValid (state : EditorState) : Type 0 where
  pub edges : AllConnect state.definition.nodes state.definition.edges
  pub selection : (state.selected_node_id ≡ none) ⊎ (state.selected_edge_id ≡ none)

-- What the reducer leaves to its callers: the nodes and edges that an action brings fit together.
abbrev pub Fits : EditorState → EditorAction → Type 0
Fits state (load_workflow workflow default_server_url) = AllConnect workflow.nodes workflow.edges
Fits state (save_success workflow) = AllConnect workflow.nodes workflow.edges
Fits state (set_nodes nodes) = AllConnect nodes state.definition.edges
Fits state (set_edges edges) = AllConnect state.definition.nodes edges
Fits state (add_edge edge) = Connects state.definition.nodes edge
Fits state _ = Unit

pub ids-map :
    (f : EditorNode → EditorNode) (nodes : List EditorNode)
    → ((node : EditorNode) → (f node).id ≡ node.id)
    → ids (map f nodes) ≡ ids nodes
ids-map f [] keeps = refl
ids-map f (node ∷ nodes) keeps = let here = keeps node in let rest = ids-map f nodes keeps in cc

pub AllConnect-ids :
    (nodes others : List EditorNode) (edges : List EditorEdge)
    → ids others ≡ ids nodes
    → AllConnect nodes edges
    → AllConnect others edges
AllConnect-ids nodes others edges same h =
    subst
      (λ xs.
        All (λ edge. (contains xs edge.source ≡ true) × (contains xs edge.target ≡ true)) edges)
      (sym same) h

pub at_node-id :
    (node_id : String) (change : EditorNode → EditorNode)
    → ((node : EditorNode) → (change node).id ≡ node.id)
    → (node : EditorNode) → (at_node node_id change node).id ≡ node.id
at_node-id node_id change keeps node = elim (Bool-cases (node.id == node_id)) [
  | inl same ↦ simp same (keeps node)
  | inr other ↦ simp other
]

pub with_template-id :
    (node_id : String) (template : RequestTemplate) (node : EditorNode)
    → (with_template node_id template node).id ≡ node.id
with_template-id node_id template node = elim (Bool-cases (node.id == node_id)) [
  | inl same ↦ simp same
  | inr other ↦ simp other
]

ids-normalized_nodes :
    (workflow : WorkflowDto) → ids (normalized_nodes workflow) ≡ ids workflow.nodes
unfolding normalized_nodes
ids-normalized_nodes workflow = elim (Bool-cases (eqb workflow.schema_version 1)) [
  | inl old ↦ simp old (ids-map as_test workflow.nodes (λ node. refl))
  | inr new ↦ simp new
]

pub ids-load :
    (state : EditorState) (workflow : WorkflowDto) (default_server_url : Option String)
    → ids (load state workflow default_server_url).definition.nodes ≡ ids workflow.nodes
unfolding load
ids-load state workflow default_server_url =
    let nodes = normalized_nodes workflow in
    either (apply_default nodes default_server_url) nodes ∙ ids-normalized_nodes workflow
  where
    either :
        (applies : Bool) (nodes : List EditorNode)
        → ids (if applies then map (with_server default_server_url) nodes else nodes) ≡ ids nodes
    either true nodes = ids-map (with_server default_server_url) nodes (λ node. refl)
    either false nodes = refl

pub AllConnect-append :
    (nodes : List EditorNode) (node : EditorNode) (edges : List EditorEdge)
    → AllConnect nodes edges
    → AllConnect (nodes ++ node ∷ []) edges
AllConnect-append nodes node [] h = tt
AllConnect-append nodes node (edge ∷ edges) h =
    ((more edge.source h.0.0, more edge.target h.0.1), AllConnect-append nodes node edges h.1)
  where
    ids-append : (xs : List EditorNode) → ids (xs ++ node ∷ []) ≡ ids xs ++ node.id ∷ []
    ids-append [] = refl
    ids-append (x ∷ xs) = ap (λ rest. x.id ∷ rest) (ids-append xs)

    more :
        (k : String) → contains (ids nodes) k ≡ true → contains (ids (nodes ++ node ∷ [])) k ≡ true
    more k listed =
        ap (λ xs. contains xs k) (ids-append nodes)
        ∙ contains-append (ids nodes) (node.id ∷ []) k
        ∙ simp listed

pub edges_append :
    (nodes : List EditorNode) (edges : List EditorEdge) (edge : EditorEdge)
    → AllConnect nodes edges
    → Connects nodes edge
    → AllConnect nodes (edges ++ edge ∷ [])
edges_append nodes [] edge h fits = (fits, tt)
edges_append nodes (first ∷ edges) edge h fits = (h.0, edges_append nodes edges edge h.1 fits)

pub AllConnect-filter :
    (nodes : List EditorNode) (test : EditorEdge → Bool) (edges : List EditorEdge)
    → AllConnect nodes edges
    → AllConnect nodes (filter test edges)
AllConnect-filter nodes test [] h = tt
AllConnect-filter nodes test (edge ∷ edges) h = elim (Bool-cases (test edge)) [
  | inl kept ↦ simp kept ((h.0, AllConnect-filter nodes test edges h.1))
  | inr dropped ↦ simp dropped (AllConnect-filter nodes test edges h.1)
]

-- Removing a node takes its edges along.
contains-removed :
    (nodes : List EditorNode) (node_id k : String)
    → contains (ids nodes) k ≡ true
    → (k == node_id) ≡ false
    → contains (ids (filter (λ node. not (node.id == node_id)) nodes)) k ≡ true
contains-removed [] node_id k listed other = listed
contains-removed (node ∷ nodes) node_id k listed other = ground (
  arith,
  contains-removed nodes node_id k,
  eq_iff node.id node_id,
  eq_iff node.id k,
  eq_iff k node_id,
)

pub AllConnect-removed :
    (nodes : List EditorNode) (edges : List EditorEdge) (node_id : String)
    → AllConnect nodes edges
    → AllConnect
        (filter (λ node. not (node.id == node_id)) nodes)
        (filter (λ edge. not (touches node_id edge)) edges)
AllConnect-removed nodes [] node_id h = tt
AllConnect-removed nodes (edge ∷ edges) node_id h = elim (Bool-cases (touches node_id edge)) [
  | inl gone ↦ simp gone (AllConnect-removed nodes edges node_id h.1)
  | inr kept ↦ simp kept (
      (
        (
          contains-removed nodes node_id edge.source h.0.0 (ground (arith, kept)),
          contains-removed nodes node_id edge.target h.0.1 (ground (arith, kept)),
        ),
        AllConnect-removed nodes edges node_id h.1,
      ))
]

pub selection-cleared :
    (chosen edge : Option String) (node_id edge_id : String)
    → (chosen ≡ none) ⊎ (edge ≡ none)
    → ((cleared chosen node_id ≡ none) ⊎ (edge ≡ none))
      × ((chosen ≡ none) ⊎ (cleared edge edge_id ≡ none))
selection-cleared chosen edge node_id edge_id (inl h) = (inl (ap (λ o. cleared o node_id) h), inl h)
selection-cleared chosen edge node_id edge_id (inr h) = (inr h, inr (ap (λ o. cleared o edge_id) h))
