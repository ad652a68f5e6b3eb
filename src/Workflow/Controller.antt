-- ===== src/Workflow/Controller.antt =====
-- src/modules/workflows/controllers/workflow.controller.ts: the requests that change workflows,
-- each with the checks that stand before the change. A handler never throws: what fails is told by
-- the message of its `ReturnResult`.
use social_listening_backend.Reply.{replying, Reply, or_throw}
use social_listening_backend.Users.InTab.{check_user_in_tab}
use social_listening_backend.Base.{ℕ, Bool, true, if◌then◌else◌}
use social_listening_backend.Schema.{Workflow}
use social_listening_backend.Exec.{Exec, Error, thrown, pure, ◌>>=◌, ◌>>◌}
use social_listening_backend.Store.{Store, Client}
use social_listening_backend.Workflow.Data.{get_workflow_by_id}
use social_listening_backend.Workflow.Records.{
  WorkflowDto, create_workflow, update_workflow, deactivate_all_workflow, update_activation,
  delete_workflow,
}

abbrev pub not_allowed : Error
not_allowed = thrown "You are not allowed to view this page"

abbrev pub does_not_exist : Error
does_not_exist = thrown "Workflow does not exist"

module _ (prisma : Client) where
  -- The workflow that a request names, if the user may see it.
  unfoldable pub allowed_workflow : ℕ → ℕ → Exec Store Workflow
  allowed_workflow user id = do
    found ← get_workflow_by_id prisma id
    workflow ← or_throw found does_not_exist
    member ← check_user_in_tab prisma user workflow.tab_id
    or_throw member not_allowed
    pure workflow

  unfoldable pub update_workflow_activation : ℕ → ℕ → Bool → Exec Store (Reply Bool)
  update_workflow_activation user id activate = replying do
    workflow ← allowed_workflow user id
    if activate then deactivate_all_workflow prisma workflow.type else pure tt
    update_activation prisma id activate
    pure true

  unfoldable pub on_delete_workflow : ℕ → ℕ → Exec Store (Reply Bool)
  on_delete_workflow user id =
      replying do allowed_workflow user id; delete_workflow prisma id; pure true

  unfoldable pub on_create_workflow : ℕ → WorkflowDto → Exec Store (Reply Workflow)
  on_create_workflow user dto = replying do
    member ← check_user_in_tab prisma user dto.tab_id
    or_throw member not_allowed
    create_workflow prisma dto

  unfoldable pub on_update_workflow : ℕ → ℕ → WorkflowDto → Exec Store (Reply Workflow)
  on_update_workflow user id dto = replying do
    found ← get_workflow_by_id prisma id
    member ← check_user_in_tab prisma user dto.tab_id
    or_throw member not_allowed
    or_throw found does_not_exist
    update_workflow prisma id dto
