-- ===== src/Store/Models.antt =====
-- The models of the database client: each a delegate with the place of its table in the state.
use social_listening_backend.Base.{ℕ, List}
use social_listening_backend.Schema.{
  Role, User, UserInTab, SocialTab, SocialNetwork, SocialTabLog, SocialSender, SocialPost,
  SocialMessage, Message, Setting, Workflow, WorkflowNode, WorkflowEdge, WorkflowVariable,
  WorkflowDataRow, UserInHotQueue, HotQueueMessage,
}
use social_listening_backend.Schema.Accounts.{
  Permission, RolePermission, Token, SocialGroup, UserInGroup, FileRow, Notification,
  SocketConnection, SocialTabSetting, MessageReplied, ActivityLog,
}
use social_listening_backend.Prisma.{Delegate}
use social_listening_backend.Store.State.{Store}

-- A delegate of the client, with the place of its table.
pub record Model {R : Type 0} (id : R → ℕ) : Type 0 where
  pub delegate : Delegate id
  pub rows : Store → List R
  pub write : List R → Store → Store

pub record Client : Type 0 where
  pub role : Delegate Role.id
  pub user : Delegate User.id
  pub user_in_tab : Delegate UserInTab.id
  pub social_tab : Delegate SocialTab.id
  pub social_network : Delegate SocialNetwork.id
  pub social_tab_log : Delegate SocialTabLog.id
  pub social_sender : Delegate SocialSender.id
  pub social_post : Delegate SocialPost.id
  pub social_message : Delegate SocialMessage.id
  pub message : Delegate Message.id
  pub setting : Delegate Setting.id
  pub workflow : Delegate Workflow.id
  pub workflow_node : Delegate WorkflowNode.id
  pub workflow_edge : Delegate WorkflowEdge.id
  pub workflow_variable : Delegate WorkflowVariable.id
  pub workflow_data : Delegate WorkflowDataRow.id
  pub user_in_hot_queue : Delegate UserInHotQueue.id
  pub hot_queue_message : Delegate HotQueueMessage.id
  pub permission : Delegate Permission.id
  pub role_permission : Delegate RolePermission.role_id
  pub token : Delegate Token.id
  pub social_group : Delegate SocialGroup.id
  pub user_in_group : Delegate UserInGroup.id
  pub file : Delegate FileRow.id
  pub notification : Delegate Notification.id
  pub socket_connection : Delegate SocketConnection.user_id
  pub social_tab_setting : Delegate SocialTabSetting.id
  pub message_replied : Delegate MessageReplied.message_id
  pub activity_log : Delegate ActivityLog.id

-- `prismaService.role`, and so on for each model.
module _ (prisma : Client) where
  abbrev pub role_model : Model Role.id
  role_model = record {
    delegate = prisma.role;
    rows = λ s. s.roles;
    write = λ t s. record s { roles = t };
  }

  abbrev pub user_model : Model User.id
  user_model = record {
    delegate = prisma.user;
    rows = λ s. s.users;
    write = λ t s. record s { users = t };
  }

  abbrev pub user_in_tab_model : Model UserInTab.id
  user_in_tab_model = record {
    delegate = prisma.user_in_tab;
    rows = λ s. s.users_in_tab;
    write = λ t s. record s { users_in_tab = t };
  }

  abbrev pub social_tab_model : Model SocialTab.id
  social_tab_model = record {
    delegate = prisma.social_tab;
    rows = λ s. s.social_tabs;
    write = λ t s. record s { social_tabs = t };
  }

  abbrev pub social_network_model : Model SocialNetwork.id
  social_network_model = record {
    delegate = prisma.social_network;
    rows = λ s. s.social_networks;
    write = λ t s. record s { social_networks = t };
  }

  abbrev pub social_tab_log_model : Model SocialTabLog.id
  social_tab_log_model = record {
    delegate = prisma.social_tab_log;
    rows = λ s. s.social_tab_logs;
    write = λ t s. record s { social_tab_logs = t };
  }

  abbrev pub social_sender_model : Model SocialSender.id
  social_sender_model = record {
    delegate = prisma.social_sender;
    rows = λ s. s.social_senders;
    write = λ t s. record s { social_senders = t };
  }

  abbrev pub social_post_model : Model SocialPost.id
  social_post_model = record {
    delegate = prisma.social_post;
    rows = λ s. s.social_posts;
    write = λ t s. record s { social_posts = t };
  }

  abbrev pub social_message_model : Model SocialMessage.id
  social_message_model = record {
    delegate = prisma.social_message;
    rows = λ s. s.social_messages;
    write = λ t s. record s { social_messages = t };
  }

  abbrev pub message_model : Model Message.id
  message_model = record {
    delegate = prisma.message;
    rows = λ s. s.messages;
    write = λ t s. record s { messages = t };
  }

  abbrev pub setting_model : Model Setting.id
  setting_model = record {
    delegate = prisma.setting;
    rows = λ s. s.settings;
    write = λ t s. record s { settings = t };
  }

  abbrev pub workflow_model : Model Workflow.id
  workflow_model = record {
    delegate = prisma.workflow;
    rows = λ s. s.workflows;
    write = λ t s. record s { workflows = t };
  }

  abbrev pub workflow_node_model : Model WorkflowNode.id
  workflow_node_model = record {
    delegate = prisma.workflow_node;
    rows = λ s. s.workflow_nodes;
    write = λ t s. record s { workflow_nodes = t };
  }

  abbrev pub workflow_edge_model : Model WorkflowEdge.id
  workflow_edge_model = record {
    delegate = prisma.workflow_edge;
    rows = λ s. s.workflow_edges;
    write = λ t s. record s { workflow_edges = t };
  }

  abbrev pub workflow_variable_model : Model WorkflowVariable.id
  workflow_variable_model = record {
    delegate = prisma.workflow_variable;
    rows = λ s. s.workflow_variables;
    write = λ t s. record s { workflow_variables = t };
  }

  abbrev pub workflow_data_model : Model WorkflowDataRow.id
  workflow_data_model = record {
    delegate = prisma.workflow_data;
    rows = λ s. s.workflow_data;
    write = λ t s. record s { workflow_data = t };
  }

  abbrev pub user_in_hot_queue_model : Model UserInHotQueue.id
  user_in_hot_queue_model = record {
    delegate = prisma.user_in_hot_queue;
    rows = λ s. s.hot_queue;
    write = λ t s. record s { hot_queue = t };
  }

  abbrev pub hot_queue_message_model : Model HotQueueMessage.id
  hot_queue_message_model = record {
    delegate = prisma.hot_queue_message;
    rows = λ s. s.hot_queue_messages;
    write = λ t s. record s { hot_queue_messages = t };
  }

  abbrev pub permission_model : Model Permission.id
  permission_model = record {
    delegate = prisma.permission;
    rows = λ s. s.permissions;
    write = λ t s. record s { permissions = t };
  }

  abbrev pub role_permission_model : Model RolePermission.role_id
  role_permission_model = record {
    delegate = prisma.role_permission;
    rows = λ s. s.role_permissions;
    write = λ t s. record s { role_permissions = t };
  }

  abbrev pub token_model : Model Token.id
  token_model = record {
    delegate = prisma.token;
    rows = λ s. s.tokens;
    write = λ t s. record s { tokens = t };
  }

  abbrev pub social_group_model : Model SocialGroup.id
  social_group_model = record {
    delegate = prisma.social_group;
    rows = λ s. s.social_groups;
    write = λ t s. record s { social_groups = t };
  }

  abbrev pub user_in_group_model : Model UserInGroup.id
  user_in_group_model = record {
    delegate = prisma.user_in_group;
    rows = λ s. s.users_in_group;
    write = λ t s. record s { users_in_group = t };
  }

  abbrev pub file_model : Model FileRow.id
  file_model = record {
    delegate = prisma.file;
    rows = λ s. s.files;
    write = λ t s. record s { files = t };
  }

  abbrev pub notification_model : Model Notification.id
  notification_model = record {
    delegate = prisma.notification;
    rows = λ s. s.notifications;
    write = λ t s. record s { notifications = t };
  }

  abbrev pub socket_connection_model : Model SocketConnection.user_id
  socket_connection_model = record {
    delegate = prisma.socket_connection;
    rows = λ s. s.socket_connections;
    write = λ t s. record s { socket_connections = t };
  }

  abbrev pub social_tab_setting_model : Model SocialTabSetting.id
  social_tab_setting_model = record {
    delegate = prisma.social_tab_setting;
    rows = λ s. s.social_tab_settings;
    write = λ t s. record s { social_tab_settings = t };
  }

  abbrev pub message_replied_model : Model MessageReplied.message_id
  message_replied_model = record {
    delegate = prisma.message_replied;
    rows = λ s. s.message_replied;
    write = λ t s. record s { message_replied = t };
  }

  abbrev pub activity_log_model : Model ActivityLog.id
  activity_log_model = record {
    delegate = prisma.activity_log;
    rows = λ s. s.activity_logs;
    write = λ t s. record s { activity_logs = t };
  }
