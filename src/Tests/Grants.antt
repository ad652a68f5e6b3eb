-- ===== src/Tests/Grants.antt =====
-- The theorems on permissions of roles, with the database that never fails.
use social_listening_backend.Schema.Accounts.{RolePermission}
use social_listening_backend.Permissions.Sets.{view}
use social_listening_backend.Reply.{result}
use social_listening_backend.Tests.Reliable.{in_order-Reliable, memory}
use social_listening_backend.Base.{true, [], ◌≡◌, ◌∷◌}
use social_listening_backend.Tests.Samples.{nothing_stored}
use social_listening_backend.Permissions.Removed.{
  on_remove_list_role_permission-without_grants, without_grants, on_remove_permission-Removes,
  Removes,
}
use social_listening_backend.Exec.Runs.{Runs}
use social_listening_backend.Permissions.Assigned.{on_assign_permission-with_grants, with_grants}
use social_listening_backend.Permissions.{
  on_remove_list_role_permission, on_remove_permission, grant, on_assign_permission,
  RolePermissionDto,
}
use social_listening_backend.Store.{Store}

-- Role 1 has the permissions 1 and 2, role 2 the permission 2.
granted_sample : Store
granted_sample = record nothing_stored { role_permissions = grant 1 1 ∷ grant 1 2 ∷ grant 2 2 ∷ [] }

-- Role 2 gets the permissions 2 and 3.
more_permissions : RolePermissionDto
more_permissions = record { role_id = 2; list_permission = 2 ∷ 3 ∷ [] }

on_assign_permission-with_grants_example :
    Runs
      (λ r t. (r ≡ result true) × (view t ≡ with_grants 2 (2 ∷ 3 ∷ []) (view granted_sample)))
      (λ _ _. ⊥)
      (on_assign_permission memory more_permissions granted_sample)
unfolding more_permissions
on_assign_permission-with_grants_example =
    on_assign_permission-with_grants memory (in_order-Reliable RolePermission.role_id)
      more_permissions granted_sample

on_remove_permission-Removes_example :
    Runs (Removes 1 2 granted_sample) (λ _ _. ⊥) (on_remove_permission memory 1 2 granted_sample)
on_remove_permission-Removes_example = on_remove_permission-Removes memory 1 2 granted_sample

on_remove_list_role_permission-without_grants_example :
    Runs
      (λ r t.
        (r ≡ result true) × (view t ≡ without_grants ((1, 2) ∷ (3, 1) ∷ []) (view granted_sample)))
      (λ _ _. ⊥)
      (on_remove_list_role_permission memory ((1, 2) ∷ (3, 1) ∷ []) granted_sample)
on_remove_list_role_permission-without_grants_example =
    on_remove_list_role_permission-without_grants memory (in_order-Reliable RolePermission.role_id)
      ((1, 2) ∷ (3, 1) ∷ []) granted_sample
