-- ===== src/Notifications.antt =====
-- src/modules/notifications: services/notification.service.ts and gateways/notification.gateway.ts;
-- src/modules/sockets/services/socket.service.ts; the queue of
-- src/modules/queue/services/notification.queue.service.ts and its worker,
-- workers/notification.worker.ts.
pub mod Attempts
pub mod Read
use social_listening_backend.Auth.Sessions.{get_user_from_auth_token}
use social_listening_backend.Async.{technical}
use social_listening_backend.Lists.{any}
use social_listening_backend.Platform.{Jwt}
use social_listening_backend.Exec.{non_null, for_each, pure, ◌>>◌, ◌>>=◌, Exec}
use social_listening_backend.Schema.{UserInTab, SocialTab}
use social_listening_backend.Store.{
  social_tab_model, update_many, user_in_tab_model, delete, socket_connection_model,
  notification_model, update, find_first, create, Event, find_many, insert, count_rows, emit, Store,
  Client,
}
use social_listening_backend.Schema.Accounts.{SocketConnection, ImportResult, Notification}
use social_listening_backend.Base.{
  suc, zero, [], ◌∷◌, not, ◌&&◌, ◌==◌, ltb, str_eq, if◌then◌else◌, ◌-◌, Bool, true, false, List,
  Option, ℕ, String, none, some,
}

-- NotificationDTO
pub record NotificationDto : Type 0 where
  pub type : String
  pub title : Option String
  pub body : Option String
  pub extend_data : Option ImportResult

-- A new row, with the defaults of the schema.
abbrev pub new_notification : NotificationDto → ℕ → ℕ → Notification
new_notification dto user k = record {
  id = k;
  title = dto.title;
  body = dto.body;
  max_attempt = 5;
  user_id = user;
  type = dto.type;
  status = "Sent";
  is_click = false;
  extend_data = dto.extend_data;
}

abbrev pub received : Notification → Notification
received n = record n { status = "Received" }

abbrev pub clicked : Notification → Notification
clicked n = record n { is_click = true }

abbrev pub connection : ℕ → String → SocketConnection
connection user token = record { user_id = user; socket_token = token }

-- `notification?.status`, `socketToken?.socketToken`
abbrev status_of : Option Notification → Option String
status_of none = none
status_of (some n) = some n.status

abbrev token_of : Option SocketConnection → Option String
token_of none = none
token_of (some c) = some c.socket_token

-- `received === 'Sent'`
abbrev pub is_sent : Option String → Bool
is_sent none = false
is_sent (some status) = str_eq status "Sent"

-- A socket as the server knows it: its own token and the token of the user, if one came with it.
pub record Socket : Type 0 where
  pub id : String
  pub auth_token : Option String

abbrev open_tab : List SocialTab → UserInTab → Bool
open_tab tabs m = any (λ (t : SocialTab). t.id == m.tab_id && not t.deleted) tabs

-- The job as it is queued again.
abbrev pub retried : Notification → Notification
retried n = record n { max_attempt = n.max_attempt - 1 }

-- It is queued again while attempts are left and the user has not received it.
unfoldable pub next_job : Notification → Option String → Option Notification
next_job n status = if ltb 0 (n.max_attempt - 1) && is_sent status then some (retried n) else none

module _ (prisma : Client) where
  -- `addNotificationToQueue` with a delay in seconds
  unfoldable pub add_to_queue : Notification → ℕ → Exec Store (Unit {0})
  add_to_queue n delay = emit (Event.queue_notification n delay)

  unfoldable pub create_notification : NotificationDto → ℕ → Exec Store Notification
  create_notification dto user = do
    notification ← create (notification_model prisma) (new_notification dto user)
    add_to_queue notification 0
    pure notification

  unfoldable pub received_status : ℕ → Exec Store (Option String)
  received_status id = do
    found ← find_first (notification_model prisma) (λ n. n.id == id)
    pure (status_of found)

  unfoldable pub receive_notification : ℕ → Exec Store (Unit {0})
  receive_notification id = do update (notification_model prisma) id received; pure tt

  unfoldable pub click_notification : ℕ → Exec Store (Unit {0})
  click_notification id = do update (notification_model prisma) id clicked; pure tt

  unfoldable pub count_notification : ℕ → Exec Store ℕ
  count_notification user = count_rows (notification_model prisma) (λ n. n.user_id == user)

  unfoldable pub read_all_notification : ℕ → Exec Store Bool
  read_all_notification user = technical do
    found ← find_many (notification_model prisma) (λ n. n.user_id == user)
    update_many (notification_model prisma) (λ n. any (λ (x : Notification). x.id == n.id) found)
        clicked
    pure true

  -- `SocketService.connect`: the user is the key.
  unfoldable pub connect : ℕ → String → Exec Store SocketConnection
  connect user token =
      insert (socket_connection_model prisma) (λ c. c.user_id == user) (connection user token)

  unfoldable pub get_connection : ℕ → Exec Store (Option String)
  get_connection user = do
    found ← find_first (socket_connection_model prisma) (λ c. c.user_id == user)
    pure (token_of found)

  unfoldable pub drop_connection : ℕ → Option String → Exec Store (Unit {0})
  drop_connection user none = pure tt
  drop_connection user (some token) =
      if str_eq token ""
      then pure tt
      else delete (socket_connection_model prisma) (λ c. c.user_id == user)

  unfoldable pub disconnect : ℕ → Exec Store (Unit {0})
  disconnect user = do token ← get_connection user; drop_connection user token

  -- `pushNotification` of the service, where the socket of the user is known.
  unfoldable pub push_to : Notification → Option String → Option String → Exec Store (Unit {0})
  push_to n none status = pure tt
  push_to n (some token) status =
      if is_sent status && not (str_eq token "")
      then emit (Event.emit_notification token n.id)
      else pure tt

  unfoldable pub queue_next : Option Notification → Exec Store (Unit {0})
  queue_next none = pure tt
  queue_next (some n) = add_to_queue n 5

  -- The worker: it returns true, here the job that it has queued.
  unfoldable pub push_notification : Notification → Exec Store (Option Notification)
  push_notification n = do
    token ← get_connection n.user_id
    status ← received_status n.id
    push_to n token status
    queue_next (next_job n status)
    pure (next_job n status)

  -- The job and those that it leads to, as many as the fuel allows; the job that is left.
  unfoldable pub deliver : ℕ → Notification → Exec Store (Option Notification)
  deliver zero n = pure (some n)
  deliver (suc fuel) n =
      let rest = deliver fuel in
      push_notification n >>= λ next. elim next [ none ↦ pure none | some job ↦ rest job ]

  -- `getAllSocialTab`
  unfoldable pub tabs_of : List UserInTab → Exec Store (List SocialTab)
  tabs_of [] = pure []
  tabs_of (m ∷ ms) =
      let rest = tabs_of ms in
      find_first (social_tab_model prisma) (λ t. t.id == m.tab_id) >>= λ found.
      non_null found >>= λ tab. rest >>= λ tabs. pure (tab ∷ tabs)

  unfoldable pub get_all_social_tab : ℕ → Exec Store (List SocialTab)
  get_all_social_tab user s =
      (find_many (user_in_tab_model prisma)
            (λ m. m.user_id == user && not m.deleted && open_tab s.social_tabs m)
          >>= tabs_of)
        s

module _ (prisma : Client) (jwt : Jwt) (now : ℕ) where
  -- `getUserFromSocket`; none stands for the text 'Invalid credentials'.
  unfoldable pub get_user_from_socket : Socket → Exec Store (Option ℕ)
  get_user_from_socket socket = elim socket.auth_token [
    | none ↦ pure none
    | some token ↦ get_user_from_auth_token prisma jwt now token >>= λ user. elim user [
      | none ↦ emit (Event.disconnect_socket socket.id) >>= λ _. pure none
      | some id ↦ pure (some id)
    ]
  ]

  unfoldable pub handle_connection : Socket → Exec Store (Unit {0})
  handle_connection socket = get_user_from_socket socket >>= λ user. elim user [
    | none ↦ emit (Event.disconnect_socket socket.id)
    | some id ↦ do
      tabs ← get_all_social_tab prisma id
      for_each (λ (tab : SocialTab). emit (Event.join_room socket.id tab.id)) tabs
      connect prisma id socket.id
      pure tt
  ]

  unfoldable pub handle_disconnect : Socket → Exec Store (Unit {0})
  handle_disconnect socket = get_user_from_socket socket >>= λ user. elim user [
    | none ↦ emit (Event.disconnect_socket socket.id)
    | some id ↦ disconnect prisma id
  ]

-- The messages of the gateway: the number that the text is read as, if it is one.
module _ (prisma : Client) where
  abbrev numbered : (ℕ → Exec Store (Unit {0})) → Option ℕ → Exec Store (Unit {0})
  numbered act none = pure tt
  numbered act (some id) = act id

  unfoldable pub on_receive_notification : Option ℕ → Exec Store (Unit {0})
  on_receive_notification number = numbered (receive_notification prisma) number

  unfoldable pub on_click_notification : Option ℕ → Exec Store (Unit {0})
  on_click_notification number = numbered (click_notification prisma) number
