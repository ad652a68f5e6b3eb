-- ===== src/Users/InTab.antt =====
-- src/modules/users/services/userInTab.service.ts, with `saveSocialLog` of
-- src/modules/socialLogs/services/socialLog.service.ts: the memberships of users in tabs.
-- A text made from a template is kept as the list of its pieces.
pub mod Left
pub mod Manager
pub mod Once
use social_listening_backend.Social.Lookups.{
  get_user_by_id, get_social_tab_by_id, get_role_by_role_name,
}
use social_listening_backend.Async.{technical}
use social_listening_backend.Exec.{◌>>◌, for_each, non_null, ◌>>=◌, try_catch, pure, Exec}
use social_listening_backend.Store.{
  update, find_many, find_first, create, Event, emit, social_tab_log_model, user_in_tab_model,
  Store, Client,
}
use social_listening_backend.Schema.{SocialTab, SocialTabLog, Role, User, UserInTab}
use social_listening_backend.Base.{
  map, not, some, if◌then◌else◌, [], ◌&&◌, ◌∷◌, ◌==◌, none, true, false, Bool, Option, List, ℕ,
}

-- A live membership of a user in a tab.
abbrev pub is_member : ℕ → ℕ → UserInTab → Bool
is_member user tab u = u.tab_id == tab && u.user_id == user && not u.deleted

-- A live membership in a tab with a role.
abbrev pub has_role_in : ℕ → ℕ → UserInTab → Bool
has_role_in tab role u = u.tab_id == tab && u.role_id == role && not u.deleted

abbrev pub membership : ℕ → ℕ → ℕ → ℕ → UserInTab
membership user tab role k = record {
  id = k;
  user_id = user;
  tab_id = tab;
  role_id = role;
  deleted = false;
}

abbrev pub set_role : ℕ → UserInTab → UserInTab
set_role role u = record u { role_id = role }

abbrev pub left_tab : UserInTab → UserInTab
left_tab u = record u { deleted = true }

abbrev pub added_log : ℕ → User → SocialTab → ℕ → SocialTabLog
added_log tab_id user tab k = record {
  id = k;
  tab_id = tab_id;
  title = "Add User to Tab";
  body = "User #" ∷ user.user_name ∷ " is added to tab #" ∷ tab.name ∷ [];
  activity = "Add User";
}

abbrev pub role_log : ℕ → User → Role → ℕ → SocialTabLog
role_log tab_id user role k = record {
  id = k;
  tab_id = tab_id;
  title = "Update Role of User";
  body = "User #" ∷ user.user_name ∷ " is assigned the " ∷ role.role_name ∷ " role" ∷ [];
  activity = "Update Role";
}

-- UpdateRoleUserDTO
pub record UpdateRoleUserDto : Type 0 where
  pub user_id : ℕ
  pub tab_id : ℕ
  pub role_id : ℕ

-- AssignUserDTO
pub record AssignUserDto : Type 0 where
  pub users : List ℕ
  pub tabs : List ℕ

-- The fields `managerRole` and `supporterRole`: null until `initRole` has run.
pub record InitRoles : Type 0 where
  pub manager_role : Option Role
  pub supporter_role : Option Role

-- What was loaded for an identifier, or undefined.
unfoldable pub loaded {ℓ} : {A : Type ℓ} → ℕ → List (ℕ × Option A) → Option A
loaded k [] = none
loaded k ((j, a) ∷ rest) = if j == k then a else loaded k rest

-- `fakeDB[id] = …` for each identifier.
unfoldable pub load :
    {A : Type 0} → (ℕ → Exec Store (Option A)) → List ℕ → Exec Store (List (ℕ × Option A))
load get [] = pure []
load get (k ∷ ks) = do a ← get k; rest ← load get ks; pure ((k, a) ∷ rest)

module _ (prisma : Client) where
  unfoldable pub save_social_log : (ℕ → SocialTabLog) → Exec Store (Unit {0})
  save_social_log log = do
    created ← create (social_tab_log_model prisma) log
    emit (Event.emit_social_log created.tab_id created.id)

  unfoldable pub init_role : Exec Store InitRoles
  init_role = do
    manager ← get_role_by_role_name prisma "MANAGER"
    supporter ← get_role_by_role_name prisma "SUPPORTER"
    pure (record { manager_role = manager; supporter_role = supporter })

  unfoldable pub check_user_in_tab : ℕ → ℕ → Exec Store (Option UserInTab)
  check_user_in_tab user tab = find_first (user_in_tab_model prisma) (is_member user tab)

  unfoldable pub add_user_to_tab : ℕ → ℕ → ℕ → Exec Store UserInTab
  add_user_to_tab user tab role = do
    found_tab ← get_social_tab_by_id prisma tab
    found_user ← get_user_by_id prisma user
    created ← create (user_in_tab_model prisma) (membership user tab role)
    u ← non_null found_user
    t ← non_null found_tab
    save_social_log (added_log tab u t)
    pure created

  unfoldable pub remove_user_from_tab : ℕ → Exec Store Bool
  remove_user_from_tab id = technical do update (user_in_tab_model prisma) id left_tab; pure true

  -- The body of the `try` in `assignUsers`; the role may be null.
  unfoldable pub assign :
      List (ℕ × Option User)
      → List (ℕ × Option SocialTab)
      → Option Role
      → ℕ
      → ℕ
      → Exec Store (Unit {0})
  assign users tabs role user tab = do
    r ← non_null role
    add_user_to_tab user tab r.id
    u ← non_null (loaded user users)
    t ← non_null (loaded tab tabs)
    save_social_log (added_log tab u t)

  unfoldable pub assign_new :
      List (ℕ × Option User)
      → List (ℕ × Option SocialTab)
      → Option Role
      → ℕ
      → ℕ
      → Option UserInTab
      → Exec Store (Unit {0})
  assign_new users tabs role user tab (some member) = pure tt
  assign_new users tabs role user tab none =
      try_catch (assign users tabs role user tab) (λ _. pure tt)

  unfoldable pub assign_users : AssignUserDto → Exec Store (Unit {0})
  assign_users dto = do
    role ← get_role_by_role_name prisma "SUPPORTER"
    users ← load (get_user_by_id prisma) dto.users
    tabs ← load (get_social_tab_by_id prisma) dto.tabs
    for_each
        (λ user.
          for_each
            (λ tab. do
              member ← check_user_in_tab user tab
              assign_new users tabs role user tab member)
            dto.tabs)
        dto.users

  unfoldable pub unassign : Option UserInTab → Exec Store (Unit {0})
  unassign none = pure tt
  unassign (some member) =
      try_catch (remove_user_from_tab member.id >>= λ _. pure tt) (λ _. pure tt)

  unfoldable pub unassign_users : AssignUserDto → Exec Store (Unit {0})
  unassign_users dto = do
    load (get_user_by_id prisma) dto.users
    load (get_social_tab_by_id prisma) dto.tabs
    for_each
        (λ user. for_each (λ tab. do member ← check_user_in_tab user tab; unassign member) dto.tabs)
        dto.users

  unfoldable pub get_manager_of_tab : ℕ → Role → Exec Store (Option UserInTab)
  get_manager_of_tab tab manager =
      find_first (user_in_tab_model prisma) (has_role_in tab manager.id)

  -- The manager that the tab has becomes a supporter.
  unfoldable pub demote : InitRoles → ℕ → Option UserInTab → Exec Store (Unit {0})
  demote roles tab none = pure tt
  demote roles tab (some manager) = do
    supporter ← non_null roles.supporter_role
    update (user_in_tab_model prisma) manager.id (set_role supporter.id)
    found ← get_user_by_id prisma manager.user_id
    user ← non_null found
    save_social_log (role_log tab user supporter)

  unfoldable pub update_role_user : InitRoles → UpdateRoleUserDto → Exec Store (Unit {0})
  update_role_user roles dto = do
    manager ← non_null roles.manager_role
    if dto.role_id == manager.id
        then (do current ← get_manager_of_tab dto.tab_id manager; demote roles dto.tab_id current)
        else pure tt
    found ← find_first (user_in_tab_model prisma) (is_member dto.user_id dto.tab_id)
    member ← non_null found
    update (user_in_tab_model prisma) member.id (set_role dto.role_id)
    found_user ← get_user_by_id prisma member.user_id
    user ← non_null found_user
    save_social_log (role_log dto.tab_id user manager)

  unfoldable pub get_all_tab_with_user : ℕ → Exec Store (List ℕ)
  get_all_tab_with_user user = do
    tabs ← find_many (user_in_tab_model prisma) (λ u. u.user_id == user && not u.deleted)
    pure (map (λ (u : UserInTab). u.tab_id) tabs)
