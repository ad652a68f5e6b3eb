-- ===== src/Permissions.antt =====
-- src/modules/permission: services/permission.service.ts, services/rolePermission.service.ts and
-- controllers/rolePermission.controller.ts, less the listings with pages.
pub mod Assigned
pub mod Removed
pub mod Sets
use social_listening_backend.Reply.{replying_with, message}
use social_listening_backend.Async.{detached, promise_all, technical}
use social_listening_backend.Lists.{any}
use social_listening_backend.Store.{delete, insert}
use social_listening_backend.Reply.{result, or_throw, replying, Reply}
use social_listening_backend.Store.{
  role_permission_model, update, permission_model, find_many, find_first, create, Store, Client,
}
use social_listening_backend.Schema.Accounts.{RolePermission, Permission}
use social_listening_backend.Base.{
  none, true, map, str_eq, ◌&&◌, ◌==◌, some, Bool, Option, false, List, ℕ, String,
}
use social_listening_backend.Exec.{
  Exec, Error, thrown, record_does_not_exist, pure, try_catch, ◌>>=◌, ◌>>◌,
}

-- CreatePermissionDTO and UpdatePermissionDTO; an identifier is given only to the second.
pub record PermissionDto : Type 0 where
  pub display_name : String
  pub permission : String
  pub screen : String

-- RolePermissionDTO and RemoveRolePermissionDTO
pub record RolePermissionDto : Type 0 where
  pub role_id : ℕ
  pub list_permission : List ℕ

abbrev pub new_permission : PermissionDto → ℕ → Permission
new_permission dto k = record {
  id = k;
  display_name = dto.display_name;
  permission = dto.permission;
  screen = dto.screen;
  deleted = false;
}

abbrev pub edited_permission : PermissionDto → Permission → Permission
edited_permission dto p = record p {
  display_name = dto.display_name;
  permission = dto.permission;
  screen = dto.screen;
}

-- The row of a role and a permission, its key.
abbrev pub grants : ℕ → ℕ → RolePermission → Bool
grants role permission r = r.role_id == role && r.permission_id == permission

abbrev pub grant : ℕ → ℕ → RolePermission
grant role permission = record { role_id = role; permission_id = permission }

-- A permission that the role has; `some: { roleId }` on the relation.
abbrev pub granted : ℕ → List RolePermission → Permission → Bool
granted role rows p = any (grants role p.id) rows

abbrev pub not_existed : Error
not_existed = thrown "The role permission is not existed or deleted."

abbrev role_permission_existed : Error
role_permission_existed = thrown "The RolePermission is already exist."

abbrev something_wrong : Error
something_wrong = thrown "Something went wrong. Please try again!"

module _ (prisma : Client) where
  unfoldable pub create_permission : PermissionDto → Exec Store Permission
  create_permission dto = create (permission_model prisma) (new_permission dto)

  -- Another failure than a missing record leaves both fields of the result null.
  unfoldable pub edit_permission : ℕ → PermissionDto → Exec Store (Option (Reply Permission))
  edit_permission id dto =
      try_catch
        (update (permission_model prisma) id (edited_permission dto) >>= λ p.
          pure (some (result p)))
        (λ e. elim e [
          | record_does_not_exist ↦ pure (some (message record_does_not_exist))
          | _ ↦ pure none
        ])

  unfoldable pub get_permission_by_name : String → Exec Store (Option Permission)
  get_permission_by_name name = find_first (permission_model prisma) (λ p. str_eq p.permission name)

  unfoldable pub get_role_permission : ℕ → ℕ → Exec Store (Option RolePermission)
  get_role_permission role permission =
      find_first (role_permission_model prisma) (grants role permission)

  unfoldable pub assign_permission_to_role : ℕ → ℕ → Exec Store RolePermission
  assign_permission_to_role role permission =
      insert (role_permission_model prisma) (grants role permission) (grant role permission)

  -- A failure is only logged.
  unfoldable pub remove_permission_from_role : ℕ → ℕ → Exec Store (Unit {0})
  remove_permission_from_role role permission =
      try_catch (delete (role_permission_model prisma) (grants role permission)) (λ _. pure tt)

  unfoldable pub get_all_permission_of_role : ℕ → Exec Store (List String)
  get_all_permission_of_role role s =
      (find_many (permission_model prisma) (granted role s.role_permissions) >>= λ permissions.
      pure (map (λ (p : Permission). p.permission) permissions))
        s

  unfoldable pub remove_existing : ℕ → ℕ → Option RolePermission → Exec Store (Unit {0})
  remove_existing role permission none = pure tt
  remove_existing role permission (some r) = remove_permission_from_role role permission

  unfoldable pub remove_list_role_permission : List (ℕ × ℕ) → Exec Store Bool
  remove_list_role_permission pairs = technical do
    promise_all
        (λ (p : ℕ × ℕ).
          try_catch (get_role_permission p.0 p.1 >>= λ found. remove_existing p.0 p.1 found)
            (λ _. pure tt))
        pairs
    pure true

  unfoldable pub assign_missing : ℕ → ℕ → Option RolePermission → Exec Store (Unit {0})
  assign_missing role permission (some r) = pure tt
  assign_missing role permission none = do assign_permission_to_role role permission; pure tt

  -- Nobody waits for the promises.
  unfoldable pub on_assign_permission : RolePermissionDto → Exec Store (Reply Bool)
  on_assign_permission dto = replying_with role_permission_existed do
    detached
        (λ permission.
          try_catch
            (get_role_permission dto.role_id permission >>= λ found.
              assign_missing dto.role_id permission found)
            (λ _. pure tt))
        dto.list_permission
    pure true

  unfoldable pub on_remove_permission : ℕ → ℕ → Exec Store (Reply Bool)
  on_remove_permission role permission =
      try_catch
        (do
          found ← get_role_permission role permission
          existing ← or_throw found not_existed
          remove_permission_from_role role permission
          pure (result true))
        (λ _. pure (message not_existed))

  unfoldable pub on_remove_list_role_permission : List (ℕ × ℕ) → Exec Store (Reply Bool)
  on_remove_list_role_permission pairs =
      replying_with something_wrong (remove_list_role_permission pairs)
