-- ===== src/Schema/Accounts.antt =====
-- prisma/schema.prisma: permissions, tokens, groups of users, notifications and settings of tabs.
use social_listening_backend.Base.{ℕ, String, Bool, Option}
use social_listening_backend.Text.{Text}

pub record Permission : Type 0 where
  pub id : ℕ
  pub display_name : String
  pub permission : String
  pub screen : String
  pub deleted : Bool

-- Its key is the pair of its columns.
pub record RolePermission : Type 0 where
  pub role_id : ℕ
  pub permission_id : ℕ

pub record Token : Type 0 where
  pub id : ℕ
  pub token : String
  pub date_expires : ℕ
  pub deleted : Bool

pub record SocialGroup : Type 0 where
  pub id : ℕ
  pub name : String
  pub manager_id : ℕ

pub record UserInGroup : Type 0 where
  pub id : ℕ
  pub user_id : ℕ
  pub group_id : ℕ
  pub deleted : Bool
  pub is_active : Bool

pub record FileRow : Type 0 where
  pub id : ℕ
  pub file_name : Text
  pub file_ext : Text
  pub path : String
  pub owner_id : ℕ
  pub group_id : ℕ
  pub minetype : String

-- ResultImportDTO, which the text of a notification holds.
pub record ImportResult : Type 0 where
  pub total_import : ℕ
  pub import_success : ℕ
  pub import_failure : ℕ

pub record Notification : Type 0 where
  pub id : ℕ
  pub title : Option String
  pub body : Option String
  pub max_attempt : ℕ
  pub user_id : ℕ
  pub type : String
  pub status : String
  pub is_click : Bool
  pub extend_data : Option ImportResult

-- Its key is the user.
pub record SocketConnection : Type 0 where
  pub user_id : ℕ
  pub socket_token : String

pub record SocialTabSetting : Type 0 where
  pub id : ℕ
  pub tab_id : ℕ
  pub group : String
  pub key : String
  pub value : String

-- Its key is the pair of its columns.
pub record MessageReplied : Type 0 where
  pub message_id : ℕ
  pub message_replied_id : ℕ

pub record ActivityLog : Type 0 where
  pub id : ℕ
  pub activity_type : Option String
  pub user_name : String
