-- ===== src/Workflow/Graph.antt =====
-- src/modules/workflows/services/workflowNode.service.ts, workflowEdge.service.ts and
-- workflowVariable.service.ts: the nodes, edges and variables of a workflow.
pub mod Next
use social_listening_backend.Base.{
  ℕ, String, ◌==◌, ◌&&◌, Bool, true, str_eq, Option, none, some, if◌then◌else◌,
}
use social_listening_backend.Schema.{WorkflowNode, WorkflowEdge, WorkflowVariable}
use social_listening_backend.Exec.{Exec, pure, ◌>>=◌}
use social_listening_backend.Async.{technical}
use social_listening_backend.Store.{
  Store, Client, workflow_node_model, workflow_edge_model, workflow_variable_model, find_first,
  upsert, delete_many,
}

-- `!name` of a string that may be null: null and the empty string pass.
abbrev pub is_blank : Option String → Bool
is_blank none = true
is_blank (some s) = str_eq s ""

-- The filter of `findNextWorkflowNode`, with and without a name of the edge's start.
abbrev pub leaves_node : ℕ → ℕ → Option String → WorkflowEdge → Bool
leaves_node flow node none e = e.flow_id == flow && e.source_id == node
leaves_node flow node (some name) e =
    e.flow_id == flow && e.source_id == node && str_eq e.source_name name

module _ (prisma : Client) where
  unfoldable pub save_workflow_node : WorkflowNode → Exec Store WorkflowNode
  save_workflow_node n = technical (upsert (workflow_node_model prisma) n.id n (λ _. n))

  unfoldable pub remove_all_node : ℕ → Exec Store (Unit {0})
  remove_all_node flow =
      technical (delete_many (workflow_node_model prisma) (λ n. n.flow_id == flow))

  unfoldable pub find_receive_node : ℕ → Exec Store (Option WorkflowNode)
  find_receive_node flow =
      technical (
        find_first (workflow_node_model prisma) (λ n. n.flow_id == flow && str_eq n.type "Receive"))

  unfoldable pub find_node_by_flow_id : ℕ → String → Exec Store (Option WorkflowNode)
  find_node_by_flow_id flow type =
      technical
        (find_first (workflow_node_model prisma) (λ n. n.flow_id == flow && str_eq n.type type))

  unfoldable pub find_node_by_id : ℕ → ℕ → Exec Store (Option WorkflowNode)
  find_node_by_id flow node =
      technical (find_first (workflow_node_model prisma) (λ n. n.flow_id == flow && n.id == node))

  unfoldable pub save_workflow_edge : WorkflowEdge → Exec Store WorkflowEdge
  save_workflow_edge e = technical (upsert (workflow_edge_model prisma) e.id e (λ _. e))

  unfoldable pub remove_all_edge : ℕ → Exec Store (Unit {0})
  remove_all_edge flow =
      technical (delete_many (workflow_edge_model prisma) (λ e. e.flow_id == flow))

  unfoldable pub node_of_edge : ℕ → Option WorkflowEdge → Exec Store (Option WorkflowNode)
  node_of_edge flow none = pure none
  node_of_edge flow (some e) = find_node_by_id flow e.target_id

  unfoldable pub find_next_workflow_node : ℕ → ℕ → Option String → Exec Store (Option WorkflowNode)
  find_next_workflow_node flow node name = technical do
    edge ←
        find_first (workflow_edge_model prisma)
          (if is_blank name then leaves_node flow node none else leaves_node flow node name)
    node_of_edge flow edge

  unfoldable pub save_workflow_variable : WorkflowVariable → Exec Store WorkflowVariable
  save_workflow_variable v = technical (upsert (workflow_variable_model prisma) v.id v (λ _. v))

  unfoldable pub remove_all_variable : ℕ → Exec Store (Unit {0})
  remove_all_variable flow =
      technical (delete_many (workflow_variable_model prisma) (λ v. v.flow_id == flow))

  unfoldable pub find_variable : ℕ → ℕ → Exec Store (Option WorkflowVariable)
  find_variable flow name = technical (
      find_first (workflow_variable_model prisma)
        (λ v. v.flow_id == flow && v.variable_name == name))
