-- ===== src/Workflow/Data.antt =====
-- src/modules/workflows/services/workflowData.service.ts: the object that a workflow keeps for each
-- message. `getWorkflowById` and `getWorkflowData` stand here because both services call them.
use social_listening_backend.Base.{
  ℕ, String, ◌==◌, ◌&&◌, not, str_eq, Bool, false, Option, none, some, if◌then◌else◌,
}
use social_listening_backend.Schema.{HookData, WorkflowDataRow, Workflow, SocialSender, PageInfo}
use social_listening_backend.Exec.{Exec, pure, non_null, ◌>>=◌}
use social_listening_backend.Async.{technical}
use social_listening_backend.Social.Lookups.{
  get_social_tab_info, page_info, find_sender_by_id, find_message_by_id, find_comment_by_id,
  get_root_message, get_social_post_by_id,
}
use social_listening_backend.Store.{
  Store, Client, find_first, create, update, workflow_data_model, workflow_model,
}

-- One field of `{ ...old, ...new }`.
abbrev pub or_old {ℓ} : {A : Type ℓ} → Option A → Option A → Option A
or_old old none = old
or_old old (some a) = some a

-- `{ ...old, ...new }`
unfoldable pub spread : HookData → HookData → HookData
spread old new = record {
  message_id = or_old old.message_id new.message_id;
  message_type = or_old old.message_type new.message_type;
  tab_id = or_old old.tab_id new.tab_id;
  message = or_old old.message new.message;
  sentiment = or_old old.sentiment new.sentiment;
  exact_sentiment = or_old old.exact_sentiment new.exact_sentiment;
  notify_agent_message = or_old old.notify_agent_message new.notify_agent_message;
  reply_info = or_old old.reply_info new.reply_info;
  flow_id = or_old old.flow_id new.flow_id;
  post_id = or_old old.post_id new.post_id;
  fb_message_id = or_old old.fb_message_id new.fb_message_id;
  page_id = or_old old.page_id new.page_id;
  page_name = or_old old.page_name new.page_name;
  avatar_url = or_old old.avatar_url new.avatar_url;
  token = or_old old.token new.token;
  sender = or_old old.sender new.sender;
  recipient = or_old old.recipient new.recipient;
}

abbrev pub no_data : HookData
no_data = record {
  message_id = none;
  message_type = none;
  tab_id = none;
  message = none;
  sentiment = none;
  exact_sentiment = none;
  notify_agent_message = none;
  reply_info = none;
  flow_id = none;
  post_id = none;
  fb_message_id = none;
  page_id = none;
  page_name = none;
  avatar_url = none;
  token = none;
  sender = none;
  recipient = none;
}

abbrev pub flow_row : ℕ → ℕ → HookData → ℕ → WorkflowDataRow
flow_row flow message d k = record { id = k; flow_id = flow; message_id = message; row_data = d }

-- `optionData` and `optData` of `updateData`.
abbrev pub comment_data : ℕ → PageInfo → ℕ → ℕ → HookData → HookData
comment_data flow page post fb_message d = record d {
  flow_id = some flow;
  post_id = some post;
  fb_message_id = some fb_message;
  page_id = some page.id;
  page_name = some page.name;
  avatar_url = some page.picture_url;
  token = some page.access_token;
}

abbrev pub message_data :
    ℕ → PageInfo → Option SocialSender → Option SocialSender → HookData → HookData
message_data flow page sender recipient d = record d {
  flow_id = some flow;
  sender = sender;
  recipient = recipient;
  page_id = some page.id;
  token = some page.access_token;
}

-- `data.messageType === type`
abbrev pub has_type : HookData → String → Bool
has_type d type = elim d.message_type [ none ↦ false | some t ↦ str_eq t type ]

module _ (prisma : Client) where
  unfoldable pub get_workflow_by_id : ℕ → Exec Store (Option Workflow)
  get_workflow_by_id flow =
      technical (find_first (workflow_model prisma) (λ w. w.id == flow && not w.deleted))

  unfoldable pub get_workflow_data : ℕ → ℕ → Exec Store (Option WorkflowDataRow)
  get_workflow_data flow message =
      technical (
        find_first (workflow_data_model prisma) (λ d. d.flow_id == flow && d.message_id == message))

  unfoldable pub add_comment_data : ℕ → ℕ → HookData → Exec Store WorkflowDataRow
  add_comment_data flow message d = do
    comment ← find_comment_by_id prisma message
    root ← get_root_message prisma message
    found ← get_workflow_by_id flow
    workflow ← non_null found
    info ← get_social_tab_info prisma workflow.tab_id
    root_comment ← non_null root
    found_post ← get_social_post_by_id prisma root_comment.parent_id
    page ← page_info info
    post ← non_null found_post
    own ← non_null comment
    create (workflow_data_model prisma)
        (flow_row flow message (comment_data flow page post.post_id own.message_id d))

  unfoldable pub add_message_data : ℕ → ℕ → HookData → Exec Store WorkflowDataRow
  add_message_data flow message d = do
    found ← get_workflow_by_id flow
    workflow ← non_null found
    info ← get_social_tab_info prisma workflow.tab_id
    page ← page_info info
    found_message ← find_message_by_id prisma message
    own ← non_null found_message
    sender ← find_sender_by_id prisma own.sender_id
    recipient ← find_sender_by_id prisma own.recipient_id
    create (workflow_data_model prisma)
        (flow_row flow message (message_data flow page sender recipient d))

  -- The branches of `updateData`; it returns undefined where no branch is taken.
  unfoldable pub renew_data :
      ℕ → ℕ → HookData → Option WorkflowDataRow → Exec Store (Option WorkflowDataRow)
  renew_data flow message d (some row) = do
    row' ←
        update (workflow_data_model prisma) row.id
          (λ r. record r { row_data = spread row.row_data d })
    pure (some row')
  renew_data flow message d none =
      if has_type d "Comment"
      then (do row ← add_comment_data flow message d; pure (some row))
      else if has_type d "Message"
      then (do row ← add_message_data flow message d; pure (some row))
      else pure none

  unfoldable pub update_data : ℕ → ℕ → HookData → Exec Store (Option WorkflowDataRow)
  update_data flow message d =
      technical do row ← get_workflow_data flow message; renew_data flow message d row
