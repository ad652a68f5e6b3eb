-- ===== src/Workflow/Keeps.antt =====
-- Creating and updating a workflow: the saves and removals of nodes, edges and variables keep what
-- holds of the table of workflows.
use social_listening_backend.Base.{ℕ, List, Option, none, some}
use social_listening_backend.Schema.{Workflow, WorkflowBlock, WorkflowEdgeDto, WorkflowVariable}
use social_listening_backend.Exec.{pure}
use social_listening_backend.Exec.Runs.{Runs, Runs-bind, Runs-pure, Runs-then}
use social_listening_backend.Async.Rules.{Runs-promise_all, Runs-technical, Runs-detached}
use social_listening_backend.Store.{
  Store, Client, tick, workflow_node_model, workflow_edge_model, workflow_variable_model,
}
use social_listening_backend.Store.Rules.{Runs-delete_many, Runs-find_first, Runs-upsert}
use social_listening_backend.Workflow.Graph.{
  remove_all_variable, remove_all_edge, remove_all_node, save_workflow_node, save_workflow_edge,
  save_workflow_variable, find_variable,
}
use social_listening_backend.Workflow.Records.{
  update_workflow, WorkflowDto, save_workflow_data, save_node, save_edge, save_new_variable,
  save_variable, create_workflow, variable_of,
}

-- The saves and removals of nodes, edges and variables keep what holds of the workflows.
module _ (prisma : Client) (P : List Workflow → Type 0) where
  abbrev pub Holds : Store → Type 0
  Holds t = P t.workflows

  save_node-keeps :
      (flow : ℕ) (b : WorkflowBlock) (t : Store)
      → Holds t
      → Runs (λ _ u. Holds u) (λ _ u. Holds u) (save_node prisma flow b t)
  unfolding save_node save_workflow_node
  save_node-keeps flow b t h = Runs-bind _ _ t (
      Runs-technical _ t (
        Runs-upsert (workflow_node_model prisma) t _ _ _ (λ _. Runs-pure _ _ h)
          (λ _ _. Runs-pure _ _ h) (λ _. h)))

  save_edge-keeps :
      (flow : ℕ) (e : WorkflowEdgeDto) (t : Store)
      → Holds t
      → Runs (λ _ u. Holds u) (λ _ u. Holds u) (save_edge prisma flow e t)
  unfolding save_edge save_workflow_edge
  save_edge-keeps flow e t h = Runs-bind _ _ t (
      Runs-technical _ t (
        Runs-upsert (workflow_edge_model prisma) t _ _ _ (λ _. Runs-pure _ _ h)
          (λ _ _. Runs-pure _ _ h) (λ _. h)))

  save_new_variable-keeps :
      (flow name : ℕ) (t : Store)
      → Holds t
      → Runs (λ _ u. Holds u) (λ _ u. Holds u) (save_new_variable prisma flow name t)
  unfolding save_new_variable save_workflow_variable
  save_new_variable-keeps flow name t h = Runs-bind _ _ t (
      Runs-technical _ t (
        Runs-upsert (workflow_variable_model prisma) t _ _ _ (λ _. Runs-pure _ _ h)
          (λ _ _. Runs-pure _ _ h) (λ _. h)))

  put_variable-keeps :
      (flow name : ℕ) (o : Option WorkflowVariable) (t : Store)
      → Holds t
      → Runs
          (λ _ u. Runs (λ _ v. Holds v) (λ _ v. Holds v) (pure tt u))
          (λ _ u. Holds u)
          (save_workflow_variable prisma (variable_of flow name o) t)
  unfolding save_workflow_variable
  put_variable-keeps flow name o t h = Runs-technical _ t (
      Runs-upsert (workflow_variable_model prisma) t _ _ _ (λ _. Runs-pure _ _ h)
        (λ _ _. Runs-pure _ _ h) (λ _. h))

  save_variable-keeps :
      (flow name : ℕ) (t : Store)
      → Holds t
      → Runs (λ _ u. Holds u) (λ _ u. Holds u) (save_variable prisma flow name t)
  unfolding save_variable find_variable
  save_variable-keeps flow name t h = Runs-bind _ _ t (
      Runs-technical _ t (
        Runs-find_first (workflow_variable_model prisma) t _
          (λ _. Runs-bind _ _ _ (put_variable-keeps flow name none (tick t) h))
          (λ v _ _. Runs-bind _ _ _ (put_variable-keeps flow name (some v) (tick t) h)) (λ _. h)))

  remove_all_node-keeps :
      (flow : ℕ) (t : Store)
      → Holds t
      → Runs (λ _ u. Holds u) (λ _ u. Holds u) (remove_all_node prisma flow t)
  unfolding remove_all_node
  remove_all_node-keeps flow t h =
      Runs-technical _ t (Runs-delete_many (workflow_node_model prisma) t _ h (λ _. h))

  remove_all_edge-keeps :
      (flow : ℕ) (t : Store)
      → Holds t
      → Runs (λ _ u. Holds u) (λ _ u. Holds u) (remove_all_edge prisma flow t)
  unfolding remove_all_edge
  remove_all_edge-keeps flow t h =
      Runs-technical _ t (Runs-delete_many (workflow_edge_model prisma) t _ h (λ _. h))

  remove_all_variable-keeps :
      (flow : ℕ) (t : Store)
      → Holds t
      → Runs (λ _ u. Holds u) (λ _ u. Holds u) (remove_all_variable prisma flow t)
  unfolding remove_all_variable
  remove_all_variable-keeps flow t h =
      Runs-technical _ t (Runs-delete_many (workflow_variable_model prisma) t _ h (λ _. h))

  pub create_workflow-keeps :
      (dto : WorkflowDto) (t : Store)
      → Runs (λ _ u. Holds u) (λ _ u. Holds u) (save_workflow_data prisma none dto t)
      → Runs (λ _ u. Holds u) (λ _ u. Holds u) (create_workflow prisma dto t)
  unfolding create_workflow
  create_workflow-keeps dto t r = Runs-technical _ t (
      Runs-then _ _ t r λ w u h.
        Runs-then _ _ u (Runs-detached _ dto.graph.nodes u (save_node-keeps w.id) h) λ _ u h.
          Runs-then _ _ u (Runs-detached _ dto.graph.edges u (save_edge-keeps w.id) h) λ _ u h.
            Runs-then _ _ u (Runs-detached _ dto.graph.variables u (save_new_variable-keeps w.id) h)
              λ _ u h. Runs-pure w u h)

  pub update_workflow-keeps :
      (id : ℕ) (dto : WorkflowDto) (t : Store)
      → Runs (λ _ u. Holds u) (λ _ u. Holds u) (save_workflow_data prisma (some id) dto t)
      → Runs (λ _ u. Holds u) (λ _ u. Holds u) (update_workflow prisma id dto t)
  unfolding update_workflow
  update_workflow-keeps id dto t r = Runs-technical _ t (
      Runs-then _ _ t r λ w u h. Runs-then _ _ u (remove_all_node-keeps id u h) λ _ u h.
        Runs-then _ _ u (remove_all_edge-keeps id u h) λ _ u h.
          Runs-then _ _ u (remove_all_variable-keeps id u h) λ _ u h.
            Runs-then _ _ u (Runs-promise_all _ dto.graph.nodes u (save_node-keeps w.id) h) λ _ u h.
              Runs-then _ _ u (Runs-promise_all _ dto.graph.edges u (save_edge-keeps w.id) h)
                λ _ u h.
                  Runs-then _ _ u
                    (Runs-promise_all _ dto.graph.variables u (save_variable-keeps w.id) h)
                    λ _ u h. Runs-pure w u h)
