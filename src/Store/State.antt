-- ===== src/Store/State.antt =====
-- The state of the services, and the models of the database client.
use social_listening_backend.Base.{ℕ, suc, String, List}
use social_listening_backend.Schema.{
  Role, User, UserInTab, SocialTab, SocialNetwork, SocialTabLog, SocialSender, SocialPost,
  SocialMessage, Message, Setting, Workflow, WorkflowNode, WorkflowEdge, WorkflowVariable,
  WorkflowDataRow, UserInHotQueue, HotQueueMessage, HookData,
}
use social_listening_backend.Schema.Accounts.{
  Permission, RolePermission, Token, SocialGroup, UserInGroup, FileRow, Notification,
  SocketConnection, SocialTabSetting, MessageReplied, ActivityLog,
}

-- What leaves the process: an HTTP POST to a path of the bot's domain, and messages that the socket
-- server emits to a room.
pub data Event : Type 0 where
  http_post : String → String → HookData → Event
  emit_notify_agent : ℕ → HookData → Event
  emit_message_support : ℕ → ℕ → Event
  queue_email : String → String → ℕ → Event
  queue_notification : Notification → ℕ → Event
  emit_notification : String → ℕ → Event
  emit_comment emit_message : ℕ → ℕ → Event
  emit_social_log emit_post_log : ℕ → ℕ → Event
  join_room : String → ℕ → Event
  disconnect_socket : String → Event
  queue_import : String → ℕ → Event

pub record Store : Type 0 where
  pub calls : ℕ
  pub sent : List Event
  pub roles : List Role
  pub users : List User
  pub users_in_tab : List UserInTab
  pub social_tabs : List SocialTab
  pub social_networks : List SocialNetwork
  pub social_tab_logs : List SocialTabLog
  pub social_senders : List SocialSender
  pub social_posts : List SocialPost
  pub social_messages : List SocialMessage
  pub messages : List Message
  pub settings : List Setting
  pub workflows : List Workflow
  pub workflow_nodes : List WorkflowNode
  pub workflow_edges : List WorkflowEdge
  pub workflow_variables : List WorkflowVariable
  pub workflow_data : List WorkflowDataRow
  pub hot_queue : List UserInHotQueue
  pub hot_queue_messages : List HotQueueMessage
  pub permissions : List Permission
  pub role_permissions : List RolePermission
  pub tokens : List Token
  pub social_groups : List SocialGroup
  pub users_in_group : List UserInGroup
  pub files : List FileRow
  pub notifications : List Notification
  pub socket_connections : List SocketConnection
  pub social_tab_settings : List SocialTabSetting
  pub message_replied : List MessageReplied
  pub activity_logs : List ActivityLog

-- One more call of the database.
abbrev pub tick : Store → Store
tick s = record s { calls = suc s.calls }
