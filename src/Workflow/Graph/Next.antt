-- ===== src/Workflow/Graph/Next.antt =====
-- Where the walk on the graph of a workflow goes next.
use social_listening_backend.Base.{
  ℕ, String, ◌≡◌, refl, Bool, true, Option, none, some, ◌⊎◌, inl, inr, ◌==◌, ◌&&◌, if◌then◌else◌,
}
use social_listening_backend.Lists.{find, Has}
use social_listening_backend.Exec.Runs.{Runs, Runs-bind, Runs-pure}
use social_listening_backend.Async.Rules.{Runs-technical}
use social_listening_backend.Schema.{WorkflowNode, WorkflowEdge}
use social_listening_backend.Social.Pages.{OnlyRead, Failed}
use social_listening_backend.Store.{Store, Client, workflow_node_model, workflow_edge_model}
use social_listening_backend.Store.Rules.{Runs-find_first}
use social_listening_backend.Workflow.Graph.{
  is_blank, leaves_node, find_node_by_id, node_of_edge, find_next_workflow_node,
}

-- The edges that are asked for: by their start alone, where no name is given.
abbrev pub asked : ℕ → ℕ → Option String → WorkflowEdge → Bool
asked flow node name =
    if is_blank name then leaves_node flow node none else leaves_node flow node name

abbrev pub is_node : ℕ → ℕ → WorkflowNode → Bool
is_node flow id n = n.flow_id == flow && n.id == id

-- The node that an edge of those leads to, or null where there is no such edge or no such node.
abbrev pub Next : Store → ℕ → ℕ → Option String → Option WorkflowNode → Type 0
Next s flow node name none =
    (find (asked flow node name) s.workflow_edges ≡ none)
    ⊎ ((e : WorkflowEdge) × Has e s.workflow_edges
        × (asked flow node name e ≡ true)
        × (find (is_node flow e.target_id) s.workflow_nodes ≡ none))
Next s flow node name (some n) =
    (e : WorkflowEdge) × Has e s.workflow_edges
    × (asked flow node name e ≡ true)
    × Has n s.workflow_nodes
    × (is_node flow e.target_id n ≡ true)

-- The next node of a workflow is the node of the same workflow that an edge of it leads to, one that
-- starts in the given node, with the given name if there is one; it is null only where no such edge
-- is stored, or one that leads to no stored node. Nothing changes, and a failure is the technical
-- error.
pub find_next_workflow_node-Next :
    (prisma : Client) (flow node : ℕ) (name : Option String) (s : Store)
    → Runs
        (λ o t. OnlyRead s t × Next s flow node name o)
        (λ e t. Failed s e t)
        (find_next_workflow_node prisma flow node name s)
unfolding find_next_workflow_node node_of_edge find_node_by_id
find_next_workflow_node-Next prisma flow node name s = Runs-technical _ s (
    Runs-bind _ _ s (
      Runs-find_first (workflow_edge_model prisma) s _
        (λ no_edge. Runs-pure none _ (refl, inl no_edge))
        (λ e has at. Runs-technical _ _ (
          Runs-find_first (workflow_node_model prisma) _ _
            (λ no_node. (refl, inr (e, has, at, no_node)))
            (λ n there is. (refl, (e, has, at, there, is))) (λ _. (refl, refl))))
        (λ _. (refl, refl))))
