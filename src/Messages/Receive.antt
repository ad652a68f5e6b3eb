-- ===== src/Messages/Receive.antt =====
-- A message that comes in from a network: `createMessage` of
-- src/modules/message/controllers/message.controller.ts and of services/message.service.ts, with
-- createSender of socialSender.service.ts and getTabByNetworkId of socialTab.service.ts.
pub mod Paused
pub mod Stored
use social_listening_backend.Workflow.Hook.{try_call_hook}
use social_listening_backend.Reply.{throw_if, replying, Reply}
use social_listening_backend.Social.Lookups.{pause, in_state, find_sender}
use social_listening_backend.Async.{technical}
use social_listening_backend.Lists.{any}
use social_listening_backend.Workflow.HotQueue.{check_then_save_message, HotQueueMessageDto}
use social_listening_backend.Workflow.Call.{Range}
use social_listening_backend.Schema.Accounts.{MessageReplied}
use social_listening_backend.Store.{
  Event, message_replied_model, emit, insert, social_sender_model, message_model, create,
  social_tab_model, find_first, Store, Client,
}
use social_listening_backend.Exec.{non_null, ◌>>◌, ◌>>=◌, pure, Exec, thrown, Error}
use social_listening_backend.Schema.{
  HookData, SocialNetwork, PageInfo, SocialSender, Message, SocialTab,
}
use social_listening_backend.Base.{
  ◌&&◌, if◌then◌else◌, false, ◌==◌, Bool, Option, List, ℕ, String, none, some,
}

-- MessageDTO; of its sender and its recipient the identifiers.
pub record MessageDto : Type 0 where
  pub message : String
  pub sender : ℕ
  pub recipient : ℕ
  pub message_id : ℕ
  pub network_id : ℕ
  pub replied_message_id : Option ℕ

-- CreateMessageDTO
pub record CreateMessageDto : Type 0 where
  pub message : String
  pub sender_id : ℕ
  pub recipient_id : ℕ
  pub message_id : ℕ
  pub tab_id : ℕ
  pub replied_message_id : Option ℕ

abbrev pub new_message : CreateMessageDto → ℕ → Message
new_message dto k = record {
  id = k;
  tab_id = dto.tab_id;
  sender_id = dto.sender_id;
  recipient_id = dto.recipient_id;
  message = dto.message;
  message_id = dto.message_id;
}

abbrev pub new_sender : ℕ → ℕ → SocialSender
new_sender sender k = record { id = k; sender_id = sender }

abbrev pub reply_row : ℕ → ℕ → MessageReplied
reply_row message replied = record { message_id = message; message_replied_id = replied }

abbrev same_reply : ℕ → ℕ → MessageReplied → Bool
same_reply message replied r = r.message_id == message && r.message_replied_id == replied

-- The page of the network, by the text of its data.
abbrev is_page : ℕ → Option PageInfo → Bool
is_page network none = false
is_page network (some page) = page.id == network

-- A tab of the network.
abbrev pub tab_of_network : List SocialNetwork → ℕ → SocialTab → Bool
tab_of_network networks network t =
    any (λ (n : SocialNetwork). n.id == t.social_id && is_page network n.extend_data) networks

-- What the hook is told.
abbrev pub received_data : String → ℕ → ℕ → String → HookData
received_data type tab id message = record {
  message_id = some id;
  message_type = some type;
  tab_id = some tab;
  message = some message;
  sentiment = none;
  exact_sentiment = none;
  notify_agent_message = none;
  reply_info = none;
  flow_id = none;
  post_id = none;
  fb_message_id = none;
  page_id = none;
  page_name = none;
  avatar_url = none;
  token = none;
  sender = none;
  recipient = none;
}

-- `if (!repliedMessage) message.repliedMessageId = null`
abbrev replied : Option ℕ → Option Message → Option ℕ
replied id none = none
replied id (some m) = id

abbrev created_as :
    SocialTab → MessageDto → SocialSender → SocialSender → Option Message → CreateMessageDto
created_as tab dto sender recipient found = record {
  message = dto.message;
  sender_id = sender.id;
  recipient_id = recipient.id;
  message_id = dto.message_id;
  tab_id = tab.id;
  replied_message_id = replied dto.replied_message_id found;
}

-- What the hot queue is given: the identifier of the network's message.
abbrev queue_dto : SocialTab → CreateMessageDto → Message → HotQueueMessageDto
queue_dto tab new m = record {
  tab_id = tab.id;
  message = m.message;
  message_type = "Message";
  sender_id = new.sender_id;
  recipient_id = new.recipient_id;
  message_id = some new.message_id;
}

abbrev pub tab_is_stopping : Error
tab_is_stopping = thrown "SocialTab is stopping"

module _ (prisma : Client) where
  unfoldable pub get_tab_by_network_id : ℕ → Exec Store (Option SocialTab)
  get_tab_by_network_id network s =
      find_first (social_tab_model prisma) (tab_of_network s.social_networks network) s

  unfoldable pub create_sender : ℕ → Exec Store SocialSender
  create_sender sender = technical (create (social_sender_model prisma) (new_sender sender))

  -- `if (!sender) sender = await createSender(…)`
  unfoldable pub sender_or_new : ℕ → Option SocialSender → Exec Store SocialSender
  sender_or_new sender none = create_sender sender
  sender_or_new sender (some found) = pure found

  unfoldable pub find_or_create_sender : ℕ → Exec Store SocialSender
  find_or_create_sender sender = find_sender prisma sender >>= sender_or_new sender

  unfoldable pub find_message_by_message_id : Option ℕ → Exec Store (Option Message)
  find_message_by_message_id none = pure none
  find_message_by_message_id (some id) =
      technical (find_first (message_model prisma) (λ m. m.message_id == id))

  unfoldable pub save_reply : ℕ → Option ℕ → Exec Store (Unit {0})
  save_reply message none = pure tt
  save_reply message (some replied) = do
    insert (message_replied_model prisma) (same_reply message replied) (reply_row message replied)
    pure tt

  unfoldable pub create_message : CreateMessageDto → Exec Store Message
  create_message dto = technical do
    message ← create (message_model prisma) (new_message dto)
    save_reply message.id dto.replied_message_id
    emit (Event.emit_message dto.tab_id message.id)
    pure message

  unfoldable pub store_message : SocialTab → MessageDto → Exec Store (Message × CreateMessageDto)
  store_message tab dto = do
    sender ← find_or_create_sender dto.sender
    recipient ← find_or_create_sender dto.recipient
    found ← find_message_by_message_id dto.replied_message_id
    message ← create_message (created_as tab dto sender recipient found)
    pure (message, created_as tab dto sender recipient found)

module _ (prisma : Client) (read_range : String → Range) where
  -- The hook is called for a message to the page.
  unfoldable pub call_hook : SocialTab → MessageDto → Message → Exec Store (Unit {0})
  call_hook tab dto message =
      if dto.recipient == dto.network_id
      then try_call_hook prisma read_range tab.id "Message" "Receive"
          (received_data "Message" tab.id message.id message.message)
      else pure tt

  unfoldable pub on_create_message : MessageDto → Exec Store (Reply Message)
  on_create_message dto = replying do
    found ← get_tab_by_network_id prisma dto.network_id
    tab ← non_null found
    throw_if (in_state pause tab) tab_is_stopping
    (message, new) ← store_message prisma tab dto
    call_hook tab dto message
    check_then_save_message prisma (queue_dto tab new message)
    pure message
