-- ===== src/Workflow/Call.antt =====
-- `callService`, `notifyAgent` and `getSentimentType` of
-- src/modules/workflows/services/workflow.service.ts: what a workflow sends to the bot, and how it
-- puts a sender into the hot queue.
pub mod Sentiment
use social_listening_backend.Base.{
  ℕ, String, ◌&&◌, str_eq, Bool, Option, none, some, List, [], ◌∷◌, if◌then◌else◌,
}
use social_listening_backend.Int.{ℤ, ltb_ℤ, leb_ℤ}
use social_listening_backend.Schema.{HookData, SocialSender}
use social_listening_backend.Exec.{Exec, pure, non_null, ◌>>=◌, ◌>>◌}
use social_listening_backend.Async.{required}
use social_listening_backend.Social.Lookups.{
  find_sender, find_sender_by_id, find_message_by_id, find_comment_by_id,
  get_setting_by_key_and_group,
}
use social_listening_backend.Store.{emit, Store, Client, Event}
use social_listening_backend.Workflow.HotQueue.{
  HotQueueDto, add_to_hot_queue, check_then_save_message,
}
use social_listening_backend.Workflow.Data.{
  spread, no_data, has_type, get_workflow_by_id, get_workflow_data,
}

pub record Range : Type 0 where
  pub min : ℤ
  pub max : ℤ

-- The key of the last range that holds the value: a later key overwrites an earlier one.
unfoldable pub get_sentiment_type : List (String × Range) → ℤ → Option String → Option String
get_sentiment_type [] v found = found
get_sentiment_type ((key, range) ∷ rest) v found =
    get_sentiment_type rest v (if leb_ℤ range.min v && ltb_ℤ v range.max then some key else found)

abbrev pub or_workflow : Option String → String
or_workflow none = "Workflow"
or_workflow (some reason) = reason

module _ (prisma : Client) where
  abbrev pub waiting : HookData → ℕ → ℕ → String → HotQueueDto
  waiting d tab sender type = record {
    type = "Not Supported";
    tab_id = tab;
    user_id = none;
    sender_id = sender;
    message_type = type;
    reason = some (or_workflow d.notify_agent_message);
  }

  unfoldable pub save_message : HookData → Exec Store (Unit {0})
  save_message d = do
    tab ← required d.tab_id
    sender ← non_null d.sender
    recipient ← non_null d.recipient
    text ← required d.message
    check_then_save_message prisma (record {
      tab_id = tab;
      message = text;
      message_type = "Message";
      sender_id = sender.id;
      recipient_id = recipient.id;
      message_id = d.message_id;
    })

  unfoldable pub save_comment : HookData → ℕ → Exec Store (Unit {0})
  save_comment d sender = do
    page ← required d.page_id
    found ← find_sender prisma page
    recipient ← non_null found
    tab ← required d.tab_id
    text ← required d.message
    check_then_save_message prisma (record {
      tab_id = tab;
      message = text;
      message_type = "Comment";
      sender_id = sender;
      recipient_id = recipient.id;
      message_id = d.message_id;
    })

  -- The two branches of `case WorkflowNodeType.NotifyAgent`, and none for another type of message.
  unfoldable pub queue_sender : HookData → Bool → Exec Store (Option ℕ)
  queue_sender d save =
      if has_type d "Message"
      then (do
        message ← required d.message_id
        found ← find_message_by_id prisma message
        info ← non_null found
        tab ← required d.tab_id
        add_to_hot_queue prisma (waiting d tab info.sender_id "Message")
        if save then save_message d else pure tt
        pure (some info.sender_id))
      else if has_type d "Comment"
      then (do
        message ← required d.message_id
        found ← find_comment_by_id prisma message
        info ← non_null found
        tab ← required d.tab_id
        add_to_hot_queue prisma (waiting d tab info.sender_id "Comment")
        if save then save_comment d info.sender_id else pure tt
        pure (some info.sender_id))
      else pure none

  -- `findFirst` with `id: null` finds nothing.
  unfoldable pub sender_of : Option ℕ → Exec Store (Option SocialSender)
  sender_of none = pure none
  sender_of (some id) = find_sender_by_id prisma id

  -- `case WorkflowNodeType.NotifyAgent`, with `notifyAgent`.
  unfoldable pub notify_agent : ℕ → HookData → Bool → Exec Store (Unit {0})
  notify_agent flow d save = do
    workflow ← get_workflow_by_id prisma flow
    queued ← queue_sender d save
    sender ← sender_of queued
    found ← non_null workflow
    emit (
        Event.emit_notify_agent found.tab_id (record no_data {
          message_id = d.message_id;
          tab_id = d.tab_id;
          message_type = d.message_type;
          notify_agent_message = some (or_workflow d.notify_agent_message);
          sender = sender;
        }))

  unfoldable pub call_service : ℕ → ℕ → String → HookData → Bool → Exec Store (Unit {0})
  call_service flow message node_type opt save = do
    found ← get_workflow_data prisma flow message
    row ← non_null found
    uri ← get_setting_by_key_and_group prisma "DOMAIN_BOT" "DOMAIN"
    let d = spread row.row_data opt
    if str_eq node_type "Receive"
        then pure tt
        else if str_eq node_type "SentimentAnalysis"
        then (do domain ← non_null uri; emit (Event.http_post domain.value "/sentiment" d))
        else if str_eq node_type "Respond"
        then (do domain ← non_null uri; emit (Event.http_post domain.value "/reply-message" d))
        else if str_eq node_type "NotifyAgent"
        then notify_agent flow d save
        else pure tt
