-- ===== src/Users/Requests.antt =====
-- src/modules/users/controllers/user.controller.ts: the requests that change accounts,
-- memberships of groups and of tabs. The user of the request comes from the token.
use social_listening_backend.Schema.Accounts.{UserInGroup}
use social_listening_backend.Async.{technical_issue}
use social_listening_backend.Users.Groups.{
  set_active_account, add_user_to_group, get_user_with_group, remove_user_from_group, get_all_user,
  get_social_group_by_manager_id,
}
use social_listening_backend.Social.Lookups.{get_role_by_role_name, get_user_by_id, get_role_by_id}
use social_listening_backend.Users.InTab.{
  InitRoles, update_role_user, unassign_users, assign_users, UpdateRoleUserDto, AssignUserDto,
}
use social_listening_backend.Platform.{Strings, Bcrypt}
use social_listening_backend.Schema.{Role, User}
use social_listening_backend.Users.Accounts.{
  remove_account, edit_employee, create_employee, get_user_by_email, PublicUser, EditEmployeeDto,
  CreateEmployeeDto,
}
use social_listening_backend.Store.{Store, Client}
use social_listening_backend.Reply.{
  result_of, throw_if, throw_if_some, or_throw, replying_with, replying, Reply,
}
use social_listening_backend.Exec.{◌>>◌, non_null, throw, ◌>>=◌, pure, Exec, thrown, Error}
use social_listening_backend.Base.{
  none, some, true, ltb, ◌&&◌, ◌==◌, str_eq, not, List, some, if◌then◌else◌, false, String, Option,
  Bool, ℕ,
}

-- `request.user`
pub record Requester : Type 0 where
  pub id : ℕ
  pub role : String

abbrev pub email_exists : Error
email_exists = thrown "User with email already exists"

abbrev pub user_not_exist : Error
user_not_exist = thrown "User does not exist"

abbrev pub cannot_edit : Error
cannot_edit = thrown "Cannot edit this account"

abbrev pub remove_yourself : Error
remove_yourself = thrown "Can not remove yourself from group"

abbrev pub switch_yourself : Bool → Error
switch_yourself true = thrown "Can not activate yourself from group"
switch_yourself false = thrown "Can not deactivate yourself from group"

abbrev pub not_in_group : Error
not_in_group = thrown "User not in group"

abbrev pub cannot_create : Error
cannot_create = thrown "You cannot create account"

abbrev pub no_permission : Error
no_permission = thrown "You don't have permission to assign users"

abbrev pub own_role : Error
own_role = thrown "You cannot edit your role"

abbrev with_role : ℕ → CreateEmployeeDto → CreateEmployeeDto
with_role role dto = record dto { role_id = role }

-- Another user than the one that is edited.
abbrev pub other_user : ℕ → Option User → Bool
other_user user none = false
other_user user (some u) = not (u.id == user)

module _ (prisma : Client) (crypt : Bcrypt) (strings : Strings) where
  unfoldable pub on_create_employee : Requester → CreateEmployeeDto → Exec Store (Reply PublicUser)
  on_create_employee user dto = replying do
    exist ← get_user_by_email prisma dto.email
    throw_if_some exist email_exists
    group ← get_social_group_by_manager_id prisma user.id
    found ← get_role_by_role_name prisma "SUPPORTER"
    role ← non_null found
    created ← create_employee prisma crypt strings (with_role role.id dto)
    employee ← result_of created
    own ← non_null group
    add_user_to_group prisma employee.id own.id
    pure employee

  unfoldable pub on_create_admin_account : CreateEmployeeDto → Exec Store (Reply PublicUser)
  on_create_admin_account dto = replying do
    found ← get_role_by_id prisma dto.role_id
    role ← non_null found
    throw_if (not (str_eq role.role_name "ADMIN")) cannot_create
    exist ← get_user_by_email prisma dto.email
    throw_if_some exist cannot_create
    created ← create_employee prisma crypt strings dto
    result_of created

module _ (prisma : Client) (strings : Strings) where
  unfoldable pub edit_as_owner :
      Requester → EditEmployeeDto → Role → Option Role → Exec Store PublicUser
  edit_as_owner user dto role owner = do
    own ← non_null owner
    throw_if (not (ltb role.level own.level)) cannot_edit
    found ← get_social_group_by_manager_id prisma user.id
    group ← non_null found
    member ← get_user_with_group prisma dto.id group.id
    or_throw member cannot_edit
    edited ← edit_employee prisma strings dto
    result_of edited

  -- An admin edits an admin, an owner a user of the own group with a lower role.
  unfoldable pub edit_as : Requester → EditEmployeeDto → Role → Option Role → Exec Store PublicUser
  edit_as user dto role owner =
      if str_eq role.role_name "ADMIN" && str_eq user.role "ADMIN"
      then (edit_employee prisma strings dto >>= result_of)
      else if str_eq user.role "OWNER"
      then edit_as_owner user dto role owner
      else throw cannot_edit

  unfoldable pub on_edit_employee : Requester → EditEmployeeDto → Exec Store (Reply PublicUser)
  on_edit_employee user dto = replying do
    found ← get_user_by_id prisma dto.id
    change ← or_throw found user_not_exist
    exist ← get_user_by_email prisma dto.email
    throw_if (other_user dto.id exist) email_exists
    loaded ← get_role_by_id prisma change.role_id
    owner ← get_role_by_role_name prisma user.role
    role ← non_null loaded
    edit_as user dto role owner

module _ (prisma : Client) where
  unfoldable pub leave_group : Requester → User → Exec Store (Unit {0})
  leave_group user employee = do
    found ← get_social_group_by_manager_id prisma user.id
    group ← non_null found
    throw_if (group.manager_id == employee.id) remove_yourself
    remove_user_from_group prisma employee.id group.id

  unfoldable pub on_remove_employee : Requester → ℕ → Exec Store (Reply Bool)
  on_remove_employee user id = replying do
    found ← get_user_by_id prisma id
    employee ← or_throw found user_not_exist
    loaded ← get_role_by_id prisma employee.role_id
    role ← non_null loaded
    if str_eq role.role_name "ADMIN" then pure tt else leave_group user employee
    remove_account prisma employee.id
    pure true

  -- `activateAccount` and `deactivateAccount`
  unfoldable pub on_set_active : Bool → Requester → ℕ → Exec Store (Reply Bool)
  on_set_active active user id = replying do
    exist ← get_user_by_id prisma id
    employee ← or_throw exist user_not_exist
    found ← get_social_group_by_manager_id prisma user.id
    group ← non_null found
    throw_if (group.manager_id == employee.id) (switch_yourself active)
    member ← get_user_with_group prisma id group.id
    or_throw member not_in_group
    set_active_account prisma active employee.id group.id
    pure true

  unfoldable pub on_assign_user : Requester → AssignUserDto → Exec Store (Reply Bool)
  on_assign_user user dto = replying do
    group ← get_social_group_by_manager_id prisma user.id
    or_throw group no_permission
    assign_users prisma dto
    pure true

  unfoldable pub on_unassign_user : Requester → AssignUserDto → Exec Store (Reply Bool)
  on_unassign_user user dto = replying do
    group ← get_social_group_by_manager_id prisma user.id
    or_throw group no_permission
    unassign_users prisma dto
    pure true

  unfoldable pub on_update_role_user :
      InitRoles → Requester → UpdateRoleUserDto → Exec Store (Reply Bool)
  on_update_role_user roles user dto = replying do
    group ← get_social_group_by_manager_id prisma user.id
    or_throw group no_permission
    throw_if (user.id == dto.user_id) own_role
    update_role_user prisma roles dto
    pure true

  unfoldable pub get_user_name_by_id : ℕ → Exec Store (Reply String)
  get_user_name_by_id user =
      replying_with technical_issue
        do found ← get_user_by_id prisma user; info ← non_null found; pure info.user_name

  unfoldable pub on_get_all_user : Exec Store (Reply (List UserInGroup))
  on_get_all_user = replying (get_all_user prisma)
