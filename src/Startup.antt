-- ===== src/Startup.antt =====
-- src/startup.service.ts: what the server creates when it starts. The list of permissions, which the
-- constructor collects from the enums of the modules, is an argument.
pub mod Settings
use social_listening_backend.Schema.Accounts.{Permission}
use social_listening_backend.Social.Lookups.{get_role_by_role_name, get_setting_by_key_and_group}
use social_listening_backend.Platform.{Bcrypt}
use social_listening_backend.Permissions.{
  assign_permission_to_role, create_permission, get_permission_by_name, PermissionDto,
}
use social_listening_backend.Async.{required, promise_all}
use social_listening_backend.Reply.{message, result, Reply}
use social_listening_backend.Schema.{User, Setting, Role}
use social_listening_backend.Users.Accounts.{
  active_account, create_user, get_user_by_email, PublicUser, CreateUserDto,
}
use social_listening_backend.Exec.{type_error, modify, throw, ◌>>=◌, ◌>>◌, pure, Exec}
use social_listening_backend.Store.{role_model, setting_model, create, Client, Store}
use social_listening_backend.Base.{
  true, str_eq, [], if◌then◌else◌, ◌∷◌, Option, ℕ, List, String, none, some,
}

-- CreateSettingDTO, CreateRoleDTO
pub record SettingDto : Type 0 where
  pub group : String
  pub key : String
  pub value : String

pub record RoleDto : Type 0 where
  pub role_name : String
  pub level : ℕ

-- The state of `AppService`: the database, and the identifiers of two roles once they are known.
pub record App : Type 0 where
  pub store : Store
  pub admin_id : Option ℕ
  pub owner_id : Option ℕ

-- A call of another service.
unfoldable pub on_store : {A : Type 0} → Exec Store A → Exec App A
on_store m app = let (r, s) = m app.store in (r, record app { store = s })

abbrev setting : String → String → String → SettingDto
setting group key value = record { group = group; key = key; value = value }

abbrev pub list_setting : List SettingDto
list_setting =
    setting "EMAIL" "SENDGRID_API_KEY" ""
    ∷ setting "DOMAIN" "EMAIL_CONFIRMATION_URL" ""
    ∷ setting "DOMAIN" "RECOVERY_PASSWORD_URL" ""
    ∷ setting "ACTIVATE_ACCOUNT" "TOKEN_EXPIRATION_TIME" "43200"
    ∷ setting "ACTIVATE_ACCOUNT" "REFRESH_TOKEN_EXPIRATION_TIME" "43200"
    ∷ setting "ACTIVATE_ACCOUNT" "TOKEN_SECRET" "@N0tH3r_Pa55"
    ∷ setting "FILE" "UPLOADED_FILE_DESTINATION" "./upload"
    ∷ setting "CONNECTOR" "FACEBOOK_APP_ID" ""
    ∷ setting "CONNECTOR" "FACEBOOK_APP_SECRET" ""
    ∷ setting "CONNECTOR" "FACEBOOK_APP_VERSION" ""
    ∷ setting "CONNECTOR" "FACEBOOK_APP_CONFIG_ID" ""
    ∷ setting "AUTH" "APIKEY" ""
    ∷ setting "GOOGLE_API" "DIALOGFLOW_KEY" ""
    ∷ setting "GOOGLE_API" "DIALOGFLOW_LOCATION" ""
    ∷ setting "DOMAIN" "DOMAIN_BOT_CONNECTOR" ""
    ∷ setting "DOMAIN" "DOMAIN_BOT" ""
    ∷ setting "DOMAIN" "DOMAIN_BACKEND" ""
    ∷ setting "DOMAIN" "DOMAIN_FRONTEND" ""
    ∷ []

abbrev default_role : String → ℕ → RoleDto
default_role name level = record { role_name = name; level = level }

abbrev pub list_default_role : List RoleDto
list_default_role =
    default_role "ADMIN" 5
    ∷ default_role "OWNER" 4
    ∷ default_role "MANAGER" 3
    ∷ default_role "SUPPORTER" 2
    ∷ []

abbrev pub admin_info : CreateUserDto
admin_info = record { email = "admin@social-listening.com"; password = "@N0tH3r_Pa55" }

abbrev pub new_setting : SettingDto → ℕ → Setting
new_setting dto k = record { id = k; group = dto.group; key = dto.key; value = dto.value }

abbrev pub new_role : RoleDto → ℕ → Role
new_role dto k = record { id = k; role_name = dto.role_name; level = dto.level }

-- `if (role.roleName === 'ADMIN') this.adminId = … else if …`
abbrev pub noted : Role → App → App
noted role app =
    if str_eq role.role_name "ADMIN"
    then record app { admin_id = some role.id }
    else if str_eq role.role_name "OWNER"
    then record app { owner_id = some role.id }
    else app

-- `newUser.result.id`, where the result may be null
abbrev new_user : Reply PublicUser → Exec Store PublicUser
new_user (result user) = pure user
new_user (message e) = throw type_error

module _ (prisma : Client) where
  unfoldable pub create_setting : SettingDto → Exec Store Setting
  create_setting dto = create (setting_model prisma) (new_setting dto)

  unfoldable pub create_role : RoleDto → Exec Store Role
  create_role dto = create (role_model prisma) (new_role dto)

  -- `if (!existSetting) await createSetting(setting)`
  unfoldable pub missing_setting : SettingDto → Option Setting → Exec Store (Unit {0})
  missing_setting dto (some found) = pure tt
  missing_setting dto none = create_setting dto >>= λ _. pure tt

  unfoldable pub create_default_setting : List SettingDto → Exec Store (Unit {0})
  create_default_setting settings =
      promise_all
        (λ (dto : SettingDto).
          get_setting_by_key_and_group prisma dto.key dto.group >>= missing_setting dto)
        settings

  -- The role that was found or created.
  unfoldable pub found_or_new : RoleDto → Option Role → Exec Store Role
  found_or_new dto (some role) = pure role
  found_or_new dto none = create_role dto

  unfoldable pub create_default_role : List RoleDto → Exec App (Unit {0})
  create_default_role roles =
      promise_all
        (λ (dto : RoleDto).
          on_store (get_role_by_role_name prisma dto.role_name >>= found_or_new dto) >>= λ role.
          modify tt (noted role))
        roles

  unfoldable pub missing_permission :
      Option ℕ → PermissionDto → Option Permission → Exec Store (Unit {0})
  missing_permission admin dto (some found) = pure tt
  missing_permission admin dto none = create_permission prisma dto >>= λ permission.
      required admin >>= λ id. assign_permission_to_role prisma id permission.id >>= λ _. pure tt

  unfoldable pub create_default_permission : List PermissionDto → Exec App (Unit {0})
  create_default_permission permissions app =
      on_store
        (promise_all
          (λ (dto : PermissionDto).
            get_permission_by_name prisma dto.permission >>= missing_permission app.admin_id dto)
          permissions)
        app

module _ (prisma : Client) (crypt : Bcrypt) where
  unfoldable pub missing_admin : Option User → Exec Store (Unit {0})
  missing_admin (some found) = pure tt
  missing_admin none = do
    reply ← create_user prisma crypt admin_info true
    user ← new_user reply
    active_account prisma user.id
    pure tt

  unfoldable pub create_default_admin : Exec Store (Unit {0})
  create_default_admin = get_user_by_email prisma admin_info.email >>= missing_admin

  unfoldable pub on_module_init : List PermissionDto → Exec App (Unit {0})
  on_module_init permissions = do
    on_store (create_default_setting prisma list_setting)
    create_default_role prisma list_default_role
    on_store create_default_admin
    create_default_permission prisma permissions
