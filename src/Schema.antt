-- ===== src/Schema.antt =====
-- prisma/schema.prisma: the rows of the tables that the modelled services read and write, and the
-- state that those services share. Identifiers (uuids, platform ids, names of workflow variables)
-- are only compared by the code, so they are numbers; texts that the code compares with constants
-- are strings. A JSON text is represented by the value that `JSON.parse` gives for it.
pub mod Accounts
use social_listening_backend.Base.{ℕ, String, Bool, Option, List}
use social_listening_backend.Int.{ℤ}
use social_listening_backend.Text.{Text}

pub record Role : Type 0 where
  pub id : ℕ
  pub role_name : String
  pub level : ℕ

pub record User : Type 0 where
  pub id : ℕ
  pub email : String
  pub user_name : String
  pub full_name : String
  pub phone_number : Option String
  pub refresh_token : Option String
  pub password : String
  pub role_id : ℕ
  pub deleted : Bool
  pub is_active : Bool
  pub gender : String

pub record UserInTab : Type 0 where
  pub id : ℕ
  pub user_id : ℕ
  pub tab_id : ℕ
  pub role_id : ℕ
  pub deleted : Bool

pub record SocialTab : Type 0 where
  pub id : ℕ
  pub name : String
  pub group_id : ℕ
  pub deleted : Bool
  pub is_worked : Bool
  pub social_id : ℕ

-- The fields of `SocialNetwork.extendData`, the page that a tab is connected to.
pub record PageInfo : Type 0 where
  pub id : ℕ
  pub name : String
  pub picture_url : String
  pub access_token : String

pub record SocialNetwork : Type 0 where
  pub id : ℕ
  pub extend_data : Option PageInfo

pub record SocialTabLog : Type 0 where
  pub id : ℕ
  pub tab_id : ℕ
  pub title : String
  pub body : List String
  pub activity : String

pub record SocialSender : Type 0 where
  pub id : ℕ
  pub sender_id : ℕ

pub record SocialPost : Type 0 where
  pub id : ℕ
  pub post_id : ℕ
  pub tab_id : ℕ

-- A comment on a post.
pub record SocialMessage : Type 0 where
  pub id : ℕ
  pub tab_id : ℕ
  pub type : Text
  pub sender_id : ℕ
  pub message_id : ℕ
  pub parent_id : ℕ
  pub message : String

-- A private message.
pub record Message : Type 0 where
  pub id : ℕ
  pub tab_id : ℕ
  pub sender_id : ℕ
  pub recipient_id : ℕ
  pub message : String
  pub message_id : ℕ

pub record Setting : Type 0 where
  pub id : ℕ
  pub group : String
  pub key : String
  pub value : String

-- The data of a workflow node; the fields are those of a node for sentiment analysis.
pub record NodeData : Type 0 where
  pub sentiment : Option (List (String × String))
  pub condition_notify_agent : Option ℤ
  pub handle : List (String × String)
  pub reply : String

pub record WorkflowPosition : Type 0 where
  pub x : ℕ
  pub y : ℕ

pub record WorkflowBlock : Type 0 where
  pub id : ℕ
  pub type : String
  pub position : WorkflowPosition
  pub block_data : NodeData

pub record WorkflowEdgeDto : Type 0 where
  pub id : ℕ
  pub source : ℕ
  pub source_handle : String
  pub target : ℕ
  pub target_handle : String

-- `WorkflowData` of workflow.dto.ts: the graph that the client sends.
pub record WorkflowGraph : Type 0 where
  pub nodes : List WorkflowBlock
  pub edges : List WorkflowEdgeDto
  pub variables : List ℕ

pub record Workflow : Type 0 where
  pub id : ℕ
  pub tab_id : ℕ
  pub name : String
  pub type : String
  pub deleted : Bool
  pub is_active : Bool
  pub extend_data : Option WorkflowGraph

pub record WorkflowNode : Type 0 where
  pub id : ℕ
  pub flow_id : ℕ
  pub type : String
  pub position_x : ℕ
  pub position_y : ℕ
  pub node_data : NodeData

pub record WorkflowEdge : Type 0 where
  pub id : ℕ
  pub flow_id : ℕ
  pub source_id : ℕ
  pub source_name : String
  pub target_id : ℕ
  pub target_name : String

pub record WorkflowVariable : Type 0 where
  pub id : ℕ
  pub flow_id : ℕ
  pub variable_name : ℕ

-- The object that a hook is called with and that a workflow keeps for each message. A field that
-- the object lacks is `none`.
pub record HookData : Type 0 where
  pub message_id : Option ℕ
  pub message_type : Option String
  pub tab_id : Option ℕ
  pub message : Option String
  pub sentiment : Option ℤ
  pub exact_sentiment : Option ℤ
  pub notify_agent_message : Option String
  pub reply_info : Option NodeData
  pub flow_id : Option ℕ
  pub post_id : Option ℕ
  pub fb_message_id : Option ℕ
  pub page_id : Option ℕ
  pub page_name : Option String
  pub avatar_url : Option String
  pub token : Option String
  pub sender : Option SocialSender
  pub recipient : Option SocialSender

pub record WorkflowDataRow : Type 0 where
  pub id : ℕ
  pub flow_id : ℕ
  pub message_id : ℕ
  pub row_data : HookData

pub record UserInHotQueue : Type 0 where
  pub id : ℕ
  pub sender_id : ℕ
  pub type : String
  pub user_id : Option ℕ
  pub tab_id : ℕ
  pub message_type : String
  pub deleted : Bool
  pub reason : Option String

pub record HotQueueMessage : Type 0 where
  pub id : ℕ
  pub tab_id : ℕ
  pub message_type : String
  pub message : String
  pub sender_id : ℕ
  pub recipient_id : ℕ
  pub message_id : Option ℕ
  pub deleted : Bool
