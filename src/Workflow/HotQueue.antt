-- ===== src/Workflow/HotQueue.antt =====
-- src/modules/workflows/services/hotQueue.service.ts, hotQueueMessage.service.ts (the messages that
-- are kept for an agent) and gateways/workflow.gateway.ts: the senders that wait for an agent.
pub mod Save
pub mod Stop
use social_listening_backend.Base.{
  ℕ, String, Bool, true, false, not, ◌==◌, ◌&&◌, ◌||◌, str_eq, Option, none, some, [], ◌∷◌, ◌++◌,
  if◌then◌else◌,
}
use social_listening_backend.Schema.{UserInHotQueue, HotQueueMessage}
use social_listening_backend.Exec.{Exec, pure, non_null, modify, try_catch, ◌>>=◌, ◌>>◌}
use social_listening_backend.Async.{technical}
use social_listening_backend.Social.Lookups.{page_sender}
use social_listening_backend.Store.{
  emit, Store, Client, Event, find_first, create, update, update_many, user_in_hot_queue_model,
  hot_queue_message_model,
}

-- HotQueueDTO
pub record HotQueueDto : Type 0 where
  pub type : String
  pub tab_id : ℕ
  pub user_id : Option ℕ
  pub sender_id : ℕ
  pub message_type : String
  pub reason : Option String

-- HotQueueMessageDTO
pub record HotQueueMessageDto : Type 0 where
  pub tab_id : ℕ
  pub message : String
  pub message_type : String
  pub sender_id : ℕ
  pub recipient_id : ℕ
  pub message_id : Option ℕ

-- A live entry of a sender, for one tab and one type of message.
abbrev pub waits : ℕ → ℕ → String → UserInHotQueue → Bool
waits sender tab type e =
    e.sender_id == sender && e.tab_id == tab && str_eq e.message_type type && not e.deleted

-- A live message of a sender's conversation, for one tab and one type of message.
abbrev pub in_conversation : ℕ → ℕ → String → HotQueueMessage → Bool
in_conversation sender tab type m =
    (m.sender_id == sender || m.recipient_id == sender)
    && str_eq m.message_type type
    && m.tab_id == tab
    && not m.deleted

abbrev pub queue_entry : HotQueueDto → ℕ → UserInHotQueue
queue_entry dto k = record {
  id = k;
  sender_id = dto.sender_id;
  type = dto.type;
  user_id = dto.user_id;
  tab_id = dto.tab_id;
  message_type = dto.message_type;
  deleted = false;
  reason = dto.reason;
}

abbrev pub queue_message : HotQueueMessageDto → ℕ → HotQueueMessage
queue_message dto k = record {
  id = k;
  tab_id = dto.tab_id;
  message_type = dto.message_type;
  message = dto.message;
  sender_id = dto.sender_id;
  recipient_id = dto.recipient_id;
  message_id = dto.message_id;
  deleted = false;
}

abbrev pub closed : UserInHotQueue → UserInHotQueue
closed e = record e { deleted = true }

abbrev pub closed_message : HotQueueMessage → HotQueueMessage
closed_message m = record m { deleted = true }

-- `update` writes no field that the DTO leaves undefined.
abbrev pub supported : HotQueueDto → UserInHotQueue → UserInHotQueue
supported dto e = record e {
  user_id = elim dto.user_id [ none ↦ e.user_id | some u ↦ some u ];
  type = dto.type;
}

-- The page's counterpart in a message.
abbrev pub counterpart : ℕ → HotQueueMessageDto → ℕ
counterpart page dto = if page == dto.sender_id then dto.recipient_id else dto.sender_id

module _ (prisma : Client) where
  unfoldable pub find_user_in_hot_queue : ℕ → ℕ → String → Exec Store (Option UserInHotQueue)
  find_user_in_hot_queue sender tab type =
      technical (find_first (user_in_hot_queue_model prisma) (waits sender tab type))

  unfoldable pub add_to_hot_queue : HotQueueDto → Exec Store UserInHotQueue
  add_to_hot_queue dto = technical (create (user_in_hot_queue_model prisma) (queue_entry dto))

  -- `startHotQueue`, with `WorkflowGateway.messageSupport`.
  unfoldable pub start_hot_queue : HotQueueDto → Exec Store UserInHotQueue
  start_hot_queue dto = technical do
    found ←
        find_first (user_in_hot_queue_model prisma)
          (waits dto.sender_id dto.tab_id dto.message_type)
    entry ← non_null found
    updated ← update (user_in_hot_queue_model prisma) entry.id (supported dto)
    emit (Event.emit_message_support dto.tab_id dto.sender_id)
    pure updated

  unfoldable pub stop_hot_queue : HotQueueDto → Exec Store UserInHotQueue
  stop_hot_queue dto = technical do
    found ← find_user_in_hot_queue dto.sender_id dto.tab_id dto.message_type
    user ← non_null found
    deleted ← update (user_in_hot_queue_model prisma) user.id closed
    update_many (hot_queue_message_model prisma)
        (in_conversation user.sender_id dto.tab_id dto.message_type) closed_message
    pure deleted

  -- The handlers of the gateway: a failure is only logged.
  unfoldable pub on_start_hot_queue : HotQueueDto → Exec Store (Unit {0})
  on_start_hot_queue dto = try_catch (start_hot_queue dto >>= λ _. pure tt) (λ _. pure tt)

  unfoldable pub on_stop_hot_queue : HotQueueDto → Exec Store (Unit {0})
  on_stop_hot_queue dto = try_catch (stop_hot_queue dto >>= λ _. pure tt) (λ _. pure tt)

  unfoldable pub save_hot_queue_message : HotQueueMessageDto → Exec Store HotQueueMessage
  save_hot_queue_message dto =
      technical (create (hot_queue_message_model prisma) (queue_message dto))

  unfoldable pub save_if_queued : Option UserInHotQueue → HotQueueMessageDto → Exec Store (Unit {0})
  save_if_queued none dto = pure tt
  save_if_queued (some e) dto = do save_hot_queue_message dto; pure tt

  unfoldable pub check_then_save_message : HotQueueMessageDto → Exec Store (Unit {0})
  check_then_save_message dto = technical do
    found ← page_sender prisma dto.tab_id
    sender ← non_null found
    queued ← find_user_in_hot_queue (counterpart sender.id dto) dto.tab_id dto.message_type
    save_if_queued queued dto
