-- ===== src/Permissions/Assigned.antt =====
-- Assigning permissions to a role implements the insertion of pairs into a set.
use social_listening_backend.Prisma.{Reliable}
use social_listening_backend.Store.Total.{Runs-insert_ok, Runs-find_first_ok}
use social_listening_backend.Reply.Rules.{Runs-replying_with}
use social_listening_backend.Reply.{result}
use social_listening_backend.Exec.Runs.{Runs-pure, Runs-bind, Runs-try_catch, Runs}
use social_listening_backend.Async.Rules.{Runs-detached-view, in_turn}
use social_listening_backend.Exec.{pure, ◌>>=◌, try_catch}
use social_listening_backend.Permissions.Sets.{
  with_grant_old, grants_of-append, view, with_grant, Grants,
}
use social_listening_backend.Permissions.{
  grant, grants, assign_permission_to_role, RolePermissionDto, assign_missing, on_assign_permission,
  get_role_permission,
}
use social_listening_backend.Base.{refl, true, ◌≡◌, List, ℕ}
use social_listening_backend.Store.{role_permission_model, Store, Client}

-- Each pair of the request is added, one after the other.
abbrev pub with_grants : ℕ → List ℕ → Grants → Grants
with_grants role = in_turn (with_grant role)

module _ (prisma : Client) (reliable : Reliable prisma.role_permission) where
  assign_missing-view :
      (role permission : ℕ) (s : Store)
      → Runs
          (λ _ t. view t ≡ with_grant role permission (view s))
          (λ _ t. view t ≡ with_grant role permission (view s))
          (try_catch
            (get_role_permission prisma role permission >>= λ found.
              assign_missing prisma role permission found)
            (λ _. pure tt)
            s)
  unfolding get_role_permission assign_missing assign_permission_to_role
  assign_missing-view role permission s =
      Runs-try_catch {E' = λ _ _. ⊥} _ _ s
        (Runs-bind _ _ s (
          Runs-find_first_ok (role_permission_model prisma) reliable s (grants role permission)
            (λ free. Runs-bind _ _ _ (
              Runs-insert_ok (role_permission_model prisma) reliable _ (grants role permission)
                (grant role permission) free
                (Runs-pure tt _ (grants_of-append role permission s.role_permissions))))
            (λ x has at.
              Runs-pure tt _ (with_grant_old role permission s.role_permissions x has at))))
        (λ _ _ h. absurd h)

  -- The request to assign permissions to a role always answers true, and, once the promises that it
  -- does not wait for have run, the roles have the permissions that they had and the role of the
  -- request has those of the request, where the database's calls on the table do not fail.
  pub on_assign_permission-with_grants :
      (dto : RolePermissionDto) (s : Store)
      → Runs
          (λ r t.
            (r ≡ result true) × (view t ≡ with_grants dto.role_id dto.list_permission (view s)))
          (λ _ _. ⊥)
          (on_assign_permission prisma dto s)
  unfolding on_assign_permission
  on_assign_permission-with_grants dto s = Runs-replying_with _ _ s (
      Runs-bind _ _ s (
        Runs-detached-view view (with_grant dto.role_id) _ dto.list_permission s
          (assign_missing-view dto.role_id) (λ t e. Runs-pure true t (refl, e))))
