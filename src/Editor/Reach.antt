-- ===== src/Editor/Reach.antt =====
-- What holds of the editor after any sequence of actions (workflow-editor-state.ts).
use bumd.Prelude.{String, Bool, true, false, not, ◌==◌, map, ◌≡◌, refl, ◌∙◌, ◌⊎◌, inl, inr}
use bumd.Editor.Types.{
  EditorState, EditorAction, load_workflow, update_settings, set_nodes, set_edges, select_node,
  select_edge, deselect, update_node_template, update_node_exports, update_node_assertions,
  add_node, remove_node, add_edge, remove_edge, save_start, save_success, save_failure,
  save_conflict, run_start, run_update, run_finish,
}
use bumd.Editor.{initial_editor_state, at_node, with_template, added_node, workflow_editor_reducer}
use bumd.Editor.Edges.{
  IsValid, Fits, ids-map, AllConnect-ids, at_node-id, with_template-id, ids-load, AllConnect-append,
  edges_append, AllConnect-filter, AllConnect-removed, selection-cleared,
}

-- One action keeps the editor valid.
workflow_editor_reducer-IsValid :
    (now : String) (state : EditorState) (action : EditorAction)
    → IsValid state
    → Fits state action
    → IsValid (workflow_editor_reducer now state action)
unfolding workflow_editor_reducer
workflow_editor_reducer-IsValid now state (load_workflow workflow default_server_url) valid fits =
    record {
      edges =
          AllConnect-ids workflow.nodes _ workflow.edges
            (ids-load state workflow default_server_url) fits;
      selection = inl refl;
    }
workflow_editor_reducer-IsValid now state (update_settings settings) valid fits = record {
  edges = valid.edges;
  selection = valid.selection;
}
workflow_editor_reducer-IsValid now state (set_nodes nodes) valid fits = record {
  edges = fits;
  selection = valid.selection;
}
workflow_editor_reducer-IsValid now state (set_edges edges) valid fits = record {
  edges = fits;
  selection = valid.selection;
}
workflow_editor_reducer-IsValid now state (select_node node_id) valid fits = record {
  edges = valid.edges;
  selection = inr refl;
}
workflow_editor_reducer-IsValid now state (select_edge edge_id) valid fits = record {
  edges = valid.edges;
  selection = inl refl;
}
workflow_editor_reducer-IsValid now state deselect valid fits = record {
  edges = valid.edges;
  selection = inl refl;
}
workflow_editor_reducer-IsValid now state (update_node_template node_id template) valid fits =
    record {
      edges =
          AllConnect-ids state.definition.nodes
            (map (with_template node_id template) state.definition.nodes) state.definition.edges
            (ids-map (with_template node_id template) state.definition.nodes
              (with_template-id node_id template))
            valid.edges;
      selection = valid.selection;
    }
workflow_editor_reducer-IsValid now state (update_node_exports node_id exports) valid fits =
    record {
      edges =
          AllConnect-ids state.definition.nodes
            (map (at_node node_id (λ n. record n { exports = exports })) state.definition.nodes)
            state.definition.edges
            (ids-map (at_node node_id (λ n. record n { exports = exports })) state.definition.nodes
              (at_node-id node_id (λ n. record n { exports = exports }) (λ n. refl)))
            valid.edges;
      selection = valid.selection;
    }
workflow_editor_reducer-IsValid now state (update_node_assertions node_id assertions) valid fits =
    record {
      edges =
          AllConnect-ids state.definition.nodes
            (map (at_node node_id (λ n. record n { assertions = assertions }))
              state.definition.nodes)
            state.definition.edges
            (ids-map (at_node node_id (λ n. record n { assertions = assertions }))
              state.definition.nodes
              (at_node-id node_id (λ n. record n { assertions = assertions }) (λ n. refl)))
            valid.edges;
      selection = valid.selection;
    }
workflow_editor_reducer-IsValid now state (add_node new) valid fits = record {
  edges =
      AllConnect-append state.definition.nodes (added_node state new) state.definition.edges
        valid.edges;
  selection = valid.selection;
}
workflow_editor_reducer-IsValid now state (remove_node node_id) valid fits = record {
  edges = AllConnect-removed state.definition.nodes state.definition.edges node_id valid.edges;
  selection =
      (selection-cleared state.selected_node_id state.selected_edge_id node_id ""
        valid.selection).0;
}
workflow_editor_reducer-IsValid now state (add_edge edge) valid fits = record {
  edges = edges_append state.definition.nodes state.definition.edges edge valid.edges fits;
  selection = valid.selection;
}
workflow_editor_reducer-IsValid now state (remove_edge edge_id) valid fits = record {
  edges =
      AllConnect-filter state.definition.nodes (λ e. not (e.id == edge_id)) state.definition.edges
        valid.edges;
  selection =
      (selection-cleared state.selected_node_id state.selected_edge_id "" edge_id
        valid.selection).1;
}
workflow_editor_reducer-IsValid now state save_start valid fits = record {
  edges = valid.edges;
  selection = valid.selection;
}
workflow_editor_reducer-IsValid now state (save_success workflow) valid fits = record {
  edges =
      AllConnect-ids workflow.nodes _ workflow.edges
        (ids-load state workflow state.default_server_url) fits;
  selection = inl refl;
}
workflow_editor_reducer-IsValid now state (save_failure error) valid fits = record {
  edges = valid.edges;
  selection = valid.selection;
}
workflow_editor_reducer-IsValid now state (save_conflict current) valid fits = record {
  edges = valid.edges;
  selection = valid.selection;
}
workflow_editor_reducer-IsValid now state (run_start run_id) valid fits = record {
  edges = valid.edges;
  selection = valid.selection;
}
workflow_editor_reducer-IsValid now state (run_update run_status) valid fits = record {
  edges = valid.edges;
  selection = valid.selection;
}
workflow_editor_reducer-IsValid now state run_finish valid fits = record {
  edges = valid.edges;
  selection = valid.selection;
}

-- A sequence of actions, each of which fits.
pub data Reaches : EditorState → EditorState → Type 0 where
  done : {s : EditorState} → Reaches s s
  step :
      {s t : EditorState} (now : String) (action : EditorAction)
      → Fits s action
      → Reaches (workflow_editor_reducer now s action) t
      → Reaches s t

Reaches-IsValid : {s t : EditorState} → Reaches s t → IsValid s → IsValid t
Reaches-IsValid done valid = valid
Reaches-IsValid (step {s} now action fits rest) valid =
    Reaches-IsValid rest (workflow_editor_reducer-IsValid now s action valid fits)

-- However the editor is used, as long as the nodes and edges that are loaded, set and added fit
-- together, every edge joins two nodes of the definition, and a node and an edge are never selected at
-- once.
pub initial_editor_state-IsValid :
    (state : EditorState) → Reaches initial_editor_state state → IsValid state
initial_editor_state-IsValid state reached =
    Reaches-IsValid reached (record { edges = tt; selection = inl refl })

-- The actions that load a workflow from the server.
abbrev pub loads : EditorAction → Bool
loads (load_workflow workflow default_server_url) = true
loads (save_success workflow) = true
loads _ = false

-- What a save sends.
pub record SameContent (s t : EditorState) : Type 0 where
  pub name : t.name ≡ s.name
  pub description : t.description ≡ s.description
  pub metadata : t.metadata ≡ s.metadata
  pub definition : t.definition ≡ s.definition

-- Actions that load nothing.
pub data Edits : EditorState → EditorState → Type 0 where
  done : {s : EditorState} → Edits s s
  step :
      {s t : EditorState} (now : String) (action : EditorAction)
      → loads action ≡ false
      → Edits (workflow_editor_reducer now s action) t
      → Edits s t

-- An action marks the state as dirty, or leaves its mark and its content.
tracked :
    (now : String) (s : EditorState) (action : EditorAction)
    → loads action ≡ false
    → ((workflow_editor_reducer now s action).dirty ≡ true)
      ⊎ (((workflow_editor_reducer now s action).dirty ≡ s.dirty)
          × SameContent s (workflow_editor_reducer now s action))
unfolding workflow_editor_reducer
tracked now s (load_workflow workflow default_server_url) edits = absurd (cc edits)
tracked now s (update_settings settings) edits = inl refl
tracked now s (set_nodes nodes) edits = inl refl
tracked now s (set_edges edges) edits = inl refl
tracked now s (select_node node_id) edits =
    inr (refl, record { name = refl; description = refl; metadata = refl; definition = refl })
tracked now s (select_edge edge_id) edits =
    inr (refl, record { name = refl; description = refl; metadata = refl; definition = refl })
tracked now s deselect edits =
    inr (refl, record { name = refl; description = refl; metadata = refl; definition = refl })
tracked now s (update_node_template node_id template) edits = inl refl
tracked now s (update_node_exports node_id exports) edits = inl refl
tracked now s (update_node_assertions node_id assertions) edits = inl refl
tracked now s (add_node new) edits = inl refl
tracked now s (remove_node node_id) edits = inl refl
tracked now s (add_edge edge) edits = inl refl
tracked now s (remove_edge edge_id) edits = inl refl
tracked now s save_start edits =
    inr (refl, record { name = refl; description = refl; metadata = refl; definition = refl })
tracked now s (save_success workflow) edits = absurd (cc edits)
tracked now s (save_failure error) edits =
    inr (refl, record { name = refl; description = refl; metadata = refl; definition = refl })
tracked now s (save_conflict current) edits =
    inr (refl, record { name = refl; description = refl; metadata = refl; definition = refl })
tracked now s (run_start run_id) edits =
    inr (refl, record { name = refl; description = refl; metadata = refl; definition = refl })
tracked now s (run_update run_status) edits =
    inr (refl, record { name = refl; description = refl; metadata = refl; definition = refl })
tracked now s run_finish edits =
    inr (refl, record { name = refl; description = refl; metadata = refl; definition = refl })

Edits-dirty : {s t : EditorState} → Edits s t → s.dirty ≡ true → t.dirty ≡ true
Edits-dirty done h = h
Edits-dirty (step {s} now action edits rest) h = elim (tracked now s action edits) [
  | inl marked ↦ Edits-dirty rest marked
  | inr (same, content) ↦ Edits-dirty rest (same ∙ h)
]

-- As long as nothing is loaded, an editor that is not dirty has the content that it had at first: no
-- sequence of actions changes what a save would send, and hides it.
pub Edits-SameContent : {s t : EditorState} → Edits s t → t.dirty ≡ false → SameContent s t
Edits-SameContent done clean = record {
  name = refl;
  description = refl;
  metadata = refl;
  definition = refl;
}
Edits-SameContent (step {s} {t} now action edits rest) clean = elim (tracked now s action edits) [
  | inl marked ↦ absurd (cc (Edits-dirty rest marked, clean))
  | inr (same, first) ↦
      let later = Edits-SameContent rest clean in
      record {
        name = later.name ∙ first.name;
        description = later.description ∙ first.description;
        metadata = later.metadata ∙ first.metadata;
        definition = later.definition ∙ first.definition;
      }
]
