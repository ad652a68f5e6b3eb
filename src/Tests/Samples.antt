-- ===== src/Tests/Samples.antt =====
-- The tables and the requests of the tests.
use social_listening_backend.Base.{ℕ, String, Bool, true, false, none, some, List, [], ◌∷◌}
use social_listening_backend.Schema.{
  User, Role, UserInTab, Message, Workflow, HookData, UserInHotQueue, HotQueueMessage,
}
use social_listening_backend.Store.{Store}
use social_listening_backend.Users.InTab.{membership, left_tab, AssignUserDto, UpdateRoleUserDto}
use social_listening_backend.Workflow.HotQueue.{HotQueueDto}

abbrev pub nothing_stored : Store
nothing_stored = record {
  calls = 0;
  sent = [];
  roles = [];
  users = [];
  users_in_tab = [];
  social_tabs = [];
  social_networks = [];
  social_tab_logs = [];
  social_senders = [];
  social_posts = [];
  social_messages = [];
  messages = [];
  settings = [];
  workflows = [];
  workflow_nodes = [];
  workflow_edges = [];
  workflow_variables = [];
  workflow_data = [];
  hot_queue = [];
  hot_queue_messages = [];
  permissions = [];
  role_permissions = [];
  tokens = [];
  social_groups = [];
  users_in_group = [];
  files = [];
  notifications = [];
  socket_connections = [];
  social_tab_settings = [];
  message_replied = [];
  activity_logs = [];
}

-- Two workflows for messages, in two tabs; the second is active.
abbrev pub flow : ℕ → ℕ → Bool → Workflow
flow id tab active = record {
  id = id;
  tab_id = tab;
  name = "Flow";
  type = "Message";
  deleted = false;
  is_active = active;
  extend_data = none;
}

-- The manager, a supporter and a user that has left, of tab 10.
abbrev pub members : List UserInTab
members = membership 5 10 1 1 ∷ membership 6 10 2 2 ∷ left_tab (membership 7 10 2 3) ∷ []

abbrev pub waiting : UserInHotQueue
waiting = record {
  id = 4;
  sender_id = 70;
  type = "Agent";
  user_id = none;
  tab_id = 10;
  message_type = "Message";
  deleted = false;
  reason = none;
}

abbrev pub private_message : Message
private_message = record {
  id = 30;
  tab_id = 10;
  sender_id = 70;
  recipient_id = 80;
  message = "Hello";
  message_id = 300;
}

abbrev pub kept_message : HotQueueMessage
kept_message = record {
  id = 9;
  tab_id = 10;
  message_type = "Message";
  message = "Hello";
  sender_id = 70;
  recipient_id = 80;
  message_id = some 30;
  deleted = false;
}

-- A user whose e-mail is the name, too.
abbrev pub person : ℕ → String → ℕ → User
person id name role = record {
  id = id;
  email = name;
  user_name = name;
  full_name = name;
  phone_number = none;
  refresh_token = none;
  password = "";
  role_id = role;
  deleted = false;
  is_active = true;
  gender = "Other";
}

abbrev pub sample : Store
sample = record nothing_stored {
  workflows = flow 1 10 false ∷ flow 2 20 true ∷ [];
  users_in_tab = members;
  users = person 5 "An" 1 ∷ person 6 "Binh" 2 ∷ [];
  social_tabs =
      record {
        id = 10;
        name = "Shop";
        group_id = 3;
        deleted = false;
        is_worked = false;
        social_id = 1;
      }
      ∷ [];
  messages = private_message ∷ [];
  social_networks =
      record {
        id = 1;
        extend_data =
            some (record { id = 800; name = "Shop"; picture_url = ""; access_token = "token" });
      }
      ∷ [];
  social_senders = record { id = 80; sender_id = 800 } ∷ record { id = 70; sender_id = 700 } ∷ [];
  social_messages =
      record {
        id = 40;
        tab_id = 10;
        type = [];
        sender_id = 70;
        message_id = 400;
        parent_id = 500;
        message = "Nice";
      }
      ∷ [];
  workflow_nodes =
      record {
        id = 4;
        flow_id = 1;
        type = "ResponseMessage";
        position_x = 0;
        position_y = 0;
        node_data = record {
          sentiment = none;
          condition_notify_agent = none;
          handle = [];
          reply = "Hi";
        };
      }
      ∷ [];
  workflow_edges =
      record {
        id = 1;
        flow_id = 1;
        source_id = 3;
        source_name = "ok";
        target_id = 4;
        target_name = "in";
      }
      ∷ [];
  hot_queue = waiting ∷ [];
  hot_queue_messages = kept_message ∷ [];
}

abbrev pub manager : Role
manager = record { id = 1; role_name = "MANAGER"; level = 2 }

abbrev pub supporter : Role
supporter = record { id = 2; role_name = "SUPPORTER"; level = 1 }

-- Users 6 and 7 are to support tab 10.
abbrev pub assignment : AssignUserDto
assignment = record { users = 6 ∷ 7 ∷ []; tabs = 10 ∷ [] }

abbrev pub promotion : UpdateRoleUserDto
promotion = record { user_id = 6; tab_id = 10; role_id = 1 }

abbrev pub support : HotQueueDto
support = record {
  type = "Agent";
  tab_id = 10;
  user_id = none;
  sender_id = 70;
  message_type = "Message";
  reason = none;
}

abbrev pub hook_data : HookData
hook_data = record {
  message_id = some 30;
  message_type = none;
  tab_id = none;
  message = none;
  sentiment = none;
  exact_sentiment = none;
  notify_agent_message = none;
  reply_info = none;
  flow_id = none;
  post_id = none;
  fb_message_id = none;
  page_id = none;
  page_name = none;
  avatar_url = none;
  token = none;
  sender = none;
  recipient = none;
}
