-- ===== src/Workflow/Hook.antt =====
-- `tryCallHook` of src/modules/workflows/services/workflow.service.ts, and
-- `Helper.getSentimentRange` of src/utils/hepler.ts: what a workflow does when a message arrives,
-- when its sentiment is known and when an agent is called for.
pub mod Queued
use social_listening_backend.Base.{
  ℕ, String, ◌==◌, ◌&&◌, str_eq, Bool, true, false, Option, none, some, List, [], ◌∷◌, map,
  if◌then◌else◌, is_some,
}
use social_listening_backend.Int.{ℤ, pos, ltb_ℤ, leb_ℤ}
use social_listening_backend.Schema.{HookData, NodeData, Workflow, WorkflowNode}
use social_listening_backend.Exec.{Exec, pure, non_null, ◌>>=◌, ◌>>◌}
use social_listening_backend.Async.{technical, required}
use social_listening_backend.Social.Lookups.{find_message_by_id, find_comment_by_id}
use social_listening_backend.Store.{Store, Client, find_first, workflow_model}
use social_listening_backend.Workflow.Graph.{find_node_by_flow_id, find_next_workflow_node}
use social_listening_backend.Workflow.HotQueue.{find_user_in_hot_queue}
use social_listening_backend.Workflow.Data.{no_data, update_data}
use social_listening_backend.Workflow.Call.{Range, get_sentiment_type, call_service}

-- A property of an object, or undefined.
unfoldable pub lookup : String → List (String × String) → Option String
lookup k [] = none
lookup k ((j, v) ∷ rest) = if str_eq j k then some v else lookup k rest

-- The test `maxSentimentAlert > 0` and `numberSentiment >= maxSentimentAlert`.
unfoldable pub is_alert : Option ℤ → Option ℤ → Bool
is_alert none v = false
is_alert (some limit) none = false
is_alert (some limit) (some v) = ltb_ℤ (pos 0) limit && leb_ℤ limit v

-- The key under which `nodeData.handle` is read; `null` is read as the text "null".
abbrev pub handle_key : Option String → String
handle_key none = "null"
handle_key (some key) = key

abbrev pub with_reply : Option NodeData → Option String → HookData
with_reply reply agent = record no_data { reply_info = reply; notify_agent_message = agent }

unfoldable pub agent_reason : Option String → String
agent_reason none = "Workflow"
agent_reason (some reason) = if str_eq reason "Intent" then "Intent" else "Workflow"

module _ (prisma : Client) where
  unfoldable pub find_workflow_by_tab_id : ℕ → String → Exec Store (Option Workflow)
  find_workflow_by_tab_id tab type = technical (
      find_first (workflow_model prisma)
        (λ w. w.tab_id == tab && str_eq w.type type && w.is_active))

  -- `userSend.senderId`
  unfoldable pub sender_of_message : String → ℕ → Exec Store ℕ
  sender_of_message type message =
      if str_eq type "Message"
      then (do
        found ← find_message_by_id prisma message
        info ← non_null found
        pure info.sender_id)
      else (do
        found ← find_comment_by_id prisma message
        info ← non_null found
        pure info.sender_id)

  unfoldable pub call_next :
      ℕ → ℕ → Option WorkflowNode → Option String → Bool → Exec Store (Unit {0})
  call_next flow message none agent save = pure tt
  call_next flow message (some next) agent save =
      call_service prisma flow message next.type (with_reply (some next.node_data) agent) save

  unfoldable pub on_receive : ℕ → ℕ → Option WorkflowNode → Exec Store (Unit {0})
  on_receive flow message current = do
    node ← non_null current
    next ← find_next_workflow_node prisma flow node.id none
    call_next flow message next (some "Workflow") false

  module _ (read_range : String → Range) where
    -- The split of "min - max" and `parseFloat` of both halves are the standard library's.
    unfoldable pub get_sentiment_range : List (String × String) → List (String × Range)
    get_sentiment_range = map (λ e. (e.0, read_range e.1))

    -- The type of a value that may be undefined: no comparison with undefined holds.
    unfoldable pub sentiment_type : List (String × String) → Option ℤ → Option String
    sentiment_type ranges none = none
    sentiment_type ranges (some v) = get_sentiment_type (get_sentiment_range ranges) v none

    unfoldable pub on_sentiment : ℕ → ℕ → HookData → Option WorkflowNode → Exec Store (Unit {0})
    on_sentiment flow message d current = do
      node ← non_null current
      ranges ← non_null node.node_data.sentiment
      if is_alert node.node_data.condition_notify_agent d.sentiment
          then call_service prisma flow message "NotifyAgent" (with_reply none (some "Sentiment"))
              true
          else (do
            next ← find_next_workflow_node prisma flow node.id (
                lookup (handle_key (sentiment_type ranges d.exact_sentiment)) node.node_data.handle)
            call_next flow message next none true)

    unfoldable pub dispatch :
        ℕ → ℕ → String → HookData → Option WorkflowNode → Exec Store (Unit {0})
    dispatch flow message node_type d current =
        if str_eq node_type "Receive"
        then on_receive flow message current
        else if str_eq node_type "SentimentAnalysis"
        then on_sentiment flow message d current
        else if str_eq node_type "Respond"
        then pure tt
        else if str_eq node_type "NotifyAgent"
        then call_service prisma flow message "NotifyAgent"
            (with_reply none (some (agent_reason d.notify_agent_message))) true
        else pure tt

    -- What the hook does for a sender that waits for no agent.
    unfoldable pub run_workflow : ℕ → String → String → ℕ → HookData → Exec Store (Unit {0})
    run_workflow tab type node_type message d = do
      found ← find_workflow_by_tab_id tab type
      workflow ← non_null found
      update_data prisma workflow.id message d
      current ← find_node_by_flow_id prisma workflow.id node_type
      dispatch workflow.id message node_type d current

    unfoldable pub try_call_hook : ℕ → String → String → HookData → Exec Store (Unit {0})
    try_call_hook tab type node_type d = technical do
      message ← required d.message_id
      sender ← sender_of_message type message
      queued ← find_user_in_hot_queue prisma sender tab type
      if is_some queued then pure tt else run_workflow tab type node_type message d
