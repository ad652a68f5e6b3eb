-- ===== src/Comments.antt =====
-- A comment that comes in from a network: `saveMessage` of
-- src/modules/socialMessage/controllers/socialMessage.controller.ts, with
-- services/socialMessage.service.ts and services/socialPost.service.ts.
pub mod Posts
use social_listening_backend.Social.Lookups.{pause, in_state, find_sender}
use social_listening_backend.Workflow.Hook.{try_call_hook}
use social_listening_backend.Messages.Receive.{
  received_data, find_or_create_sender, tab_is_stopping, get_tab_by_network_id,
}
use social_listening_backend.Reply.{throw_if, replying, Reply}
use social_listening_backend.Workflow.Call.{Range}
use social_listening_backend.Workflow.HotQueue.{check_then_save_message, HotQueueMessageDto}
use social_listening_backend.Exec.{◌>>◌, non_null, ◌>>=◌, pure, Exec}
use social_listening_backend.Schema.{SocialTab, SocialSender, SocialMessage, SocialPost}
use social_listening_backend.Store.{
  Event, emit, social_message_model, social_post_model, find_first, create, Store, Client,
}
use social_listening_backend.Text.{text_eq, Text}
use social_listening_backend.Base.{
  true, false, not, [], ◌∷◌, ◌==◌, if◌then◌else◌, Option, Bool, String, ℕ, none, some,
}

-- SocialMessageInfoDTO; of its sender and of its post (`parent`) the identifiers.
pub record SocialMessageInfoDto : Type 0 where
  pub network_id : ℕ
  pub message : String
  pub sender : ℕ
  pub type : Text
  pub parent : ℕ
  pub post_id : ℕ
  pub comment_id : ℕ
  pub parent_id : ℕ

-- `remakePostData`
abbrev pub remake_post_data : ℕ → ℕ → ℕ → SocialPost
remake_post_data post tab k = record { id = k; post_id = post; tab_id = tab }

-- `remakeMessageData`: a comment on the post itself is given the row of the post.
abbrev pub remake_message_data : SocialMessageInfoDto → ℕ → ℕ → ℕ → ℕ → SocialMessage
remake_message_data dto tab post sender k = record {
  id = k;
  tab_id = tab;
  type = dto.type;
  sender_id = sender;
  message_id = dto.comment_id;
  parent_id = if dto.parent_id == dto.post_id then post else dto.parent_id;
  message = dto.message;
}

-- `savedMessage.type === 'Comment'`
abbrev pub is_comment_type : Text → Bool
is_comment_type = text_eq (b'C' ∷ b'o' ∷ b'm' ∷ b'm' ∷ b'e' ∷ b'n' ∷ b't' ∷ [])

abbrev comment_queue_dto : ℕ → ℕ → SocialMessage → HotQueueMessageDto
comment_queue_dto tab recipient m = record {
  tab_id = tab;
  message = m.message;
  message_type = "Comment";
  sender_id = m.sender_id;
  recipient_id = recipient;
  message_id = some m.id;
}

-- The page for a comment, and the sender of the parent for an answer.
unfoldable pub recipient_of : Bool → Option SocialSender → Option SocialMessage → Exec Store ℕ
recipient_of true page root = non_null page >>= λ p. pure p.id
recipient_of false page root = non_null root >>= λ m. pure m.sender_id

module _ (prisma : Client) where
  unfoldable pub save_post : ℕ → ℕ → Exec Store SocialPost
  save_post post tab = create (social_post_model prisma) (remake_post_data post tab)

  unfoldable pub find_post : ℕ → Exec Store (Option SocialPost)
  find_post post = find_first (social_post_model prisma) (λ p. p.post_id == post)

  unfoldable pub post_or_new : ℕ → ℕ → Option SocialPost → Exec Store SocialPost
  post_or_new post tab none = save_post post tab
  post_or_new post tab (some found) = pure found

  -- Both branches of the controller do this.
  unfoldable pub find_or_save_post : ℕ → ℕ → Exec Store SocialPost
  find_or_save_post post tab = find_post post >>= post_or_new post tab

  -- `saveMessage` of the service: the room is told of the network's comment.
  unfoldable pub save_social_message : SocialMessageInfoDto → ℕ → ℕ → ℕ → Exec Store SocialMessage
  save_social_message dto tab post sender = do
    saved ← create (social_message_model prisma) (remake_message_data dto tab post sender)
    emit (Event.emit_comment tab dto.comment_id)
    pure saved

  unfoldable pub find_comment_by_comment_id : ℕ → Exec Store (Option SocialMessage)
  find_comment_by_comment_id id = find_first (social_message_model prisma) (λ m. m.message_id == id)

module _ (prisma : Client) (read_range : String → Range) where
  unfoldable pub call_comment_hook : SocialTab → SocialPost → SocialMessage → Exec Store (Unit {0})
  call_comment_hook tab post saved = do
    emit (Event.emit_post_log tab.id post.id)
    try_call_hook prisma read_range tab.id "Comment" "Receive"
        (received_data "Comment" tab.id saved.id saved.message)

  unfoldable pub on_save_message : SocialMessageInfoDto → Exec Store (Reply SocialMessage)
  on_save_message dto = replying do
    found ← get_tab_by_network_id prisma dto.network_id
    tab ← non_null found
    throw_if (in_state pause tab) tab_is_stopping
    post ← find_or_save_post prisma dto.parent tab.id
    sender ← find_or_create_sender prisma dto.sender
    saved ← save_social_message prisma dto tab.id post.id sender.id
    if is_comment_type saved.type then call_comment_hook tab post saved else pure tt
    page ← find_sender prisma dto.network_id
    root ← find_comment_by_comment_id prisma dto.parent_id
    recipient ← recipient_of (is_comment_type saved.type) page root
    check_then_save_message prisma (comment_queue_dto tab.id recipient saved)
    pure saved
