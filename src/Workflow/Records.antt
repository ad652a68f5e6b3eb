-- ===== src/Workflow/Records.antt =====
-- The workflows themselves, in src/modules/workflows/services/workflow.service.ts: creating,
-- updating, activating and removing them.
use social_listening_backend.Base.{
  ℕ, String, ◌==◌, ◌&&◌, not, str_eq, Bool, true, false, Option, none, some, is_some,
}
use social_listening_backend.Schema.{
  Workflow, WorkflowGraph, WorkflowBlock, WorkflowEdgeDto, WorkflowNode, WorkflowEdge,
  WorkflowVariable,
}
use social_listening_backend.Exec.{Exec, pure, ◌>>=◌, ◌>>◌}
use social_listening_backend.Async.{technical, promise_all, detached}
use social_listening_backend.Store.{
  Store, Client, find_first, create, update, update_many, workflow_model,
}
use social_listening_backend.Workflow.Graph.{
  save_workflow_node, save_workflow_edge, save_workflow_variable, remove_all_node, remove_all_edge,
  remove_all_variable, find_variable, find_receive_node,
}

-- WorkflowDTO
pub record WorkflowDto : Type 0 where
  pub name : String
  pub tab_id : ℕ
  pub type : String
  pub graph : WorkflowGraph

abbrev pub node_of : ℕ → WorkflowBlock → WorkflowNode
node_of flow b = record {
  id = b.id;
  flow_id = flow;
  type = b.type;
  position_x = b.position.x;
  position_y = b.position.y;
  node_data = b.block_data;
}

abbrev pub edge_of : ℕ → WorkflowEdgeDto → WorkflowEdge
edge_of flow e = record {
  id = e.id;
  flow_id = flow;
  source_id = e.source;
  source_name = e.source_handle;
  target_id = e.target;
  target_name = e.target_handle;
}

-- A variable is saved under its own name as the identifier, unless it was saved before.
abbrev pub variable_of : ℕ → ℕ → Option WorkflowVariable → WorkflowVariable
variable_of flow name none = record { id = name; flow_id = flow; variable_name = name }
variable_of flow name (some v) = record { id = v.id; flow_id = flow; variable_name = name }

-- `prisma.workflow.create`: a new workflow is neither active nor deleted.
abbrev pub new_workflow : WorkflowDto → ℕ → Workflow
new_workflow dto k = record {
  id = k;
  tab_id = dto.tab_id;
  name = dto.name;
  type = dto.type;
  deleted = false;
  is_active = false;
  extend_data = some dto.graph;
}

abbrev pub edited : WorkflowDto → Workflow → Workflow
edited dto w = record w {
  tab_id = dto.tab_id;
  name = dto.name;
  type = dto.type;
  extend_data = some dto.graph;
}

abbrev pub set_active : Bool → Workflow → Workflow
set_active b w = record w { is_active = b }

abbrev pub removed : Workflow → Workflow
removed w = record w { deleted = true }

module _ (prisma : Client) where
  -- `saveWorkflowData`, which is called with an identifier to update and without one to create.
  unfoldable pub save_workflow_data : Option ℕ → WorkflowDto → Exec Store Workflow
  save_workflow_data none dto = technical (create (workflow_model prisma) (new_workflow dto))
  save_workflow_data (some id) dto = technical (update (workflow_model prisma) id (edited dto))

  unfoldable pub save_node : ℕ → WorkflowBlock → Exec Store (Unit {0})
  save_node flow b = do save_workflow_node prisma (node_of flow b); pure tt

  unfoldable pub save_edge : ℕ → WorkflowEdgeDto → Exec Store (Unit {0})
  save_edge flow e = do save_workflow_edge prisma (edge_of flow e); pure tt

  unfoldable pub save_new_variable : ℕ → ℕ → Exec Store (Unit {0})
  save_new_variable flow name = do
    save_workflow_variable prisma (variable_of flow name none)
    pure tt

  unfoldable pub save_variable : ℕ → ℕ → Exec Store (Unit {0})
  save_variable flow name = do
    existed ← find_variable prisma flow name
    save_workflow_variable prisma (variable_of flow name existed)
    pure tt

  -- The three lists of promises stand in a list of lists, so `Promise.all` waits for none of them.
  unfoldable pub create_workflow : WorkflowDto → Exec Store Workflow
  create_workflow dto = technical do
    workflow ← save_workflow_data none dto
    detached (save_node workflow.id) dto.graph.nodes
    detached (save_edge workflow.id) dto.graph.edges
    detached (save_new_variable workflow.id) dto.graph.variables
    pure workflow

  unfoldable pub update_workflow : ℕ → WorkflowDto → Exec Store Workflow
  update_workflow id dto = technical do
    workflow ← save_workflow_data (some id) dto
    remove_all_node prisma id
    remove_all_edge prisma id
    remove_all_variable prisma id
    promise_all (save_node workflow.id) dto.graph.nodes
    promise_all (save_edge workflow.id) dto.graph.edges
    promise_all (save_variable workflow.id) dto.graph.variables
    pure workflow

  unfoldable pub deactivate_all_workflow : String → Exec Store (Unit {0})
  deactivate_all_workflow type =
      technical (update_many (workflow_model prisma) (λ w. str_eq w.type type) (set_active false))

  unfoldable pub update_activation : ℕ → Bool → Exec Store Workflow
  update_activation id activate =
      technical (update (workflow_model prisma) id (set_active activate))

  unfoldable pub delete_workflow : ℕ → Exec Store Workflow
  delete_workflow id = technical (update (workflow_model prisma) id removed)

  unfoldable pub receives : Option Workflow → Exec Store Bool
  receives none = pure false
  receives (some w) = do node ← find_receive_node prisma w.id; pure (is_some node)

  unfoldable pub have_receive_message_node : ℕ → String → Exec Store Bool
  have_receive_message_node tab type = technical do
    active ←
        find_first (workflow_model prisma)
          (λ w. w.tab_id == tab && not w.deleted && w.is_active && str_eq w.type type)
    receives active
