-- ===== src/Users/Accounts.antt =====
-- src/modules/users/services/user.service.ts: the accounts, less the listings with pages.
-- bcrypt and the methods of strings are parameters; the salt of a hash is taken from the number of
-- database calls made before it.
mod Rows
unfoldable pub use Rows.*
use social_listening_backend.Permissions.{get_all_permission_of_role}
use social_listening_backend.Social.Lookups.{get_role_by_role_name, get_user_by_id}
use social_listening_backend.Reply.{replying_with, Reply}
use social_listening_backend.Async.{technical_issue, technical}
use social_listening_backend.Store.{
  user_in_tab_model, find_many, create, role_model, user_model, update, find_first, Store, Client,
}
use social_listening_backend.Platform.{Bcrypt, Strings}
use social_listening_backend.Exec.{
  record_does_not_exist, try_catch, throw, non_null, pure, gets, ◌>>=◌, ◌>>◌, Exec, thrown, Error,
}
use social_listening_backend.Schema.{UserInTab, Role, User}
use social_listening_backend.Base.{
  [], ◌∷◌, ltb, ◌==◌, not, ◌&&◌, str_eq, false, if◌then◌else◌, true, none, some, List, Bool, Option,
  String, ℕ,
}

module _ (prisma : Client) where
  unfoldable pub get_user_by_email : String → Exec Store (Option User)
  get_user_by_email email = find_first (user_model prisma) (has_email email)

  unfoldable pub active_account : ℕ → Exec Store Bool
  active_account user =
      try_catch (do update (user_model prisma) user confirmed; pure true) (λ e. throw (explained e))

  -- `include: { role: true }`
  unfoldable pub user_with_role : ℕ → Exec Store (User × Role)
  user_with_role user = do
    found ← get_user_by_id prisma user
    u ← non_null found
    loaded ← find_first (role_model prisma) (λ r. r.id == u.role_id)
    role ← non_null loaded
    pure (u, role)

  unfoldable pub get_user_info : ℕ → Exec Store UserInfo
  get_user_info user = do
    (u, role) ← user_with_role user
    permissions ← get_all_permission_of_role prisma role.id
    pure (record { user = exclude_data u; role = role.role_name; permissions = permissions })

  unfoldable pub get_role_and_permission : ℕ → String → Exec Store UserInfo
  get_role_and_permission user role_name = technical do
    (u, _) ← user_with_role user
    found ← get_role_by_role_name prisma role_name
    role ← non_null found
    permissions ← get_all_permission_of_role prisma role.id
    pure (record { user = exclude_data u; role = role_name; permissions = permissions })

  -- `include: { role: true }` for each membership
  unfoldable pub levels : List UserInTab → Exec Store (List ℕ)
  levels [] = pure []
  levels (m ∷ ms) =
      let rest = levels ms in
      find_first (role_model prisma) (λ r. r.id == m.role_id) >>= λ found.
      non_null found >>= λ role. rest >>= λ others. pure (role.level ∷ others)

  -- The role with the highest level in a tab, and the role of the account where there is no tab.
  unfoldable pub role_of_level : ℕ → Option ℕ → Exec Store String
  role_of_level user none = get_user_info user >>= λ info. pure info.role
  role_of_level user (some level) = pure (level_name level)

  unfoldable pub get_role_of_user : ℕ → Exec Store String
  get_role_of_user user = technical do
    members ← find_many (user_in_tab_model prisma) (λ m. m.user_id == user && not m.deleted)
    list_role ← levels members
    role_of_level user (max_level list_role)

  unfoldable pub remove_token : ℕ → Exec Store (Reply Bool)
  remove_token user =
      replying_with technical_issue
        do update (user_model prisma) user (with_refresh_token none); pure true

  unfoldable pub remove_account : ℕ → Exec Store User
  remove_account user = update (user_model prisma) user removed_user

module _ (prisma : Client) (strings : Strings) where
  unfoldable pub update_account : ℕ → UpdateAccountDto → Exec Store (Reply PublicUser)
  update_account user dto = replying_with technical_issue do
    update (user_model prisma) user (edited_account strings dto)
    found ← get_user_by_id prisma user
    u ← non_null found
    pure (exclude_data u)

  unfoldable pub edit_employee : EditEmployeeDto → Exec Store (Reply PublicUser)
  edit_employee dto =
      replying_with technical_issue do
        u ← update (user_model prisma) dto.id (edited_employee strings dto)
        pure (exclude_data u)

module _ (prisma : Client) (crypt : Bcrypt) where
  unfoldable pub hashed_password : String → Exec Store String
  hashed_password password = gets (λ s. crypt.hash s.calls password)

  unfoldable pub create_user : CreateUserDto → Bool → Exec Store (Reply PublicUser)
  create_user dto from_startup = replying_with technical_issue do
    found ← get_role_by_role_name prisma (if from_startup then "ADMIN" else "OWNER")
    hashed ← hashed_password dto.password
    role ← non_null found
    u ← create (user_model prisma) (registered dto.email hashed role.id)
    pure (exclude_data u)

  unfoldable pub create_employee : Strings → CreateEmployeeDto → Exec Store (Reply PublicUser)
  create_employee strings dto = replying_with technical_issue do
    hashed ← hashed_password dto.password
    u ← create (user_model prisma) (employee strings dto hashed)
    pure (exclude_data u)

  unfoldable pub set_refresh_token : String → ℕ → Exec Store (Unit {0})
  set_refresh_token token user = do
    hashed ← hashed_password token
    update (user_model prisma) user (with_refresh_token (some hashed))
    pure tt

  -- Comparing with a token that is null throws, as reading a field of null does.
  unfoldable pub get_user_by_token : String → ℕ → Exec Store (Option User)
  get_user_by_token token user = do
    found ← get_user_by_id prisma user
    u ← non_null found
    hashed ← non_null u.refresh_token
    if crypt.compare token hashed then pure (some u) else pure none

  unfoldable pub update_password : ℕ → UpdatePasswordDto → Exec Store (Reply Bool)
  update_password user dto = replying_with old_password_mismatch do
    found ← get_user_by_id prisma user
    u ← non_null found
    if crypt.compare dto.old_password u.password then pure tt else throw old_password_mismatch
    hashed ← hashed_password dto.new_password
    update (user_model prisma) user (with_password hashed)
    pure true

  unfoldable pub reset_password : ℕ → String → Exec Store (Reply Bool)
  reset_password user password = replying_with technical_issue do
    hashed ← hashed_password password
    update (user_model prisma) user (with_password hashed)
    pure true
