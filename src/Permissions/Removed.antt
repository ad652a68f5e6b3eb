-- ===== src/Permissions/Removed.antt =====
-- Removing permissions from roles.
use social_listening_backend.Async.Rules.{
  in_turn, Runs-promise_all-nil, Runs-promise_all-cons, Runs-technical,
}
use social_listening_backend.Lists.Count.{find-eq-none, any-false-find, All-Has, any-Has}
use social_listening_backend.Reply.Rules.{
  Runs-replying_with, Runs-or_throw-some, Runs-or_throw-none,
}
use social_listening_backend.Prisma.{Reliable}
use social_listening_backend.Store.Total.{Runs-find_first_ok, Runs-delete_ok}
use social_listening_backend.Store.Rules.{Runs-find_first, Runs-delete}
use social_listening_backend.Exec.{pure, ◌>>=◌, try_catch}
use social_listening_backend.Permissions.Sets.{
  Grants, grants_of, grants_of-keep, without_grant, view,
}
use social_listening_backend.Exec.Runs.{Runs-mono, Runs-pure, Runs-bind, Runs-try_catch, Runs}
use social_listening_backend.Reply.{message, result, Reply}
use social_listening_backend.Lists.{find}
use social_listening_backend.Async.{promise_all}
use social_listening_backend.Schema.Accounts.{RolePermission}
use social_listening_backend.Permissions.{
  not_existed, remove_list_role_permission, on_remove_list_role_permission, remove_existing, grants,
  remove_permission_from_role, get_role_permission, on_remove_permission,
}
use social_listening_backend.Base.{
  false, fun_ext, none, ap, ◌∙◌, ◌&&◌, ◌==◌, refl, Bool-cases, inl, [], ◌∷◌, inr, arith, List, true,
  Bool, ◌⊎◌, ◌≡◌, ℕ,
}
use social_listening_backend.Store.{role_permission_model, Client, Store}

-- The table is as it was, or the pair is gone from it; nothing else has changed.
abbrev pub MaybeRemoved : ℕ → ℕ → Store → Store → Type 0
MaybeRemoved role permission s t =
    (t ≡ record s { calls = t.calls })
    ⊎ ((t ≡ record s { calls = t.calls; role_permissions = t.role_permissions })
        × (view t ≡ without_grant role permission (view s)))

-- What the answer to the request says: true only where the role had the permission.
abbrev pub Removes : ℕ → ℕ → Store → Reply Bool → Store → Type 0
Removes role permission s (result b) t =
    (view s role permission ≡ true) × MaybeRemoved role permission s t
Removes role permission s (message e) t = (e ≡ not_existed) × (t ≡ record s { calls = t.calls })

-- The request to remove a permission from a role answers true only if the role had it; then it is
-- removed, and no other, or the deletion has failed and nothing has changed. With the message that
-- the pair does not exist nothing has changed.
pub on_remove_permission-Removes :
    (prisma : Client) (role permission : ℕ) (s : Store)
    → Runs (Removes role permission s) (λ _ _. ⊥) (on_remove_permission prisma role permission s)
unfolding on_remove_permission get_role_permission remove_permission_from_role
on_remove_permission-Removes prisma role permission s =
    Runs-try_catch {E' = λ _ t. t ≡ record s { calls = t.calls }} _ _ s
      (Runs-bind _ _ s (
        Runs-find_first (role_permission_model prisma) s (grants role permission)
          (λ free. Runs-bind _ _ _ (Runs-or_throw-none _ _ refl))
          (λ x has at. Runs-bind _ _ _ (
            Runs-or_throw-some _ _ x (
              Runs-bind _ _ _ (
                Runs-try_catch {E' = λ _ t. t ≡ record s { calls = t.calls }} _ _ _
                  (Runs-delete (role_permission_model prisma) _ (grants role permission)
                    (λ _. Runs-pure _ _ (
                      any-Has (grants role permission) x s.role_permissions has at,
                      inr (refl, grants_of-keep role permission s.role_permissions),
                    ))
                    (λ _. refl))
                  (λ _ t same. Runs-pure tt t (
                    Runs-pure _ t
                      (any-Has (grants role permission) x s.role_permissions has at, inl same)))))))
          (λ _. refl)))
      (λ _ t same. Runs-pure _ t (refl, same))

-- Each pair of the request is taken away, one after the other.
abbrev pub without_grants : List (ℕ × ℕ) → Grants → Grants
without_grants = in_turn (λ (p : ℕ × ℕ). without_grant p.0 p.1)

-- A pair that is not in the set may be taken away.
without_grant_old :
    (role permission : ℕ) (rows : List RolePermission)
    → find (grants role permission) rows ≡ none
    → grants_of rows ≡ without_grant role permission (grants_of rows)
without_grant_old role permission rows free = fun_ext λ r. fun_ext λ p.
    elim (Bool-cases (r == role && p == permission)) [
      | inl same ↦
          let er : r ≡ role = ground arith in
          let ep : p ≡ permission = ground arith in
          rw (same, er, ep) (any-false-find (grants role permission) rows free)
      | inr other ↦ rw other refl
    ]

module _ (prisma : Client) (reliable : Reliable prisma.role_permission) where
  remove_existing-view :
      (p : ℕ × ℕ) (s : Store)
      → Runs
          (λ _ t. view t ≡ without_grant p.0 p.1 (view s))
          (λ _ _. ⊥)
          (try_catch
            (get_role_permission prisma p.0 p.1 >>= λ found. remove_existing prisma p.0 p.1 found)
            (λ _. pure tt)
            s)
  unfolding get_role_permission remove_existing remove_permission_from_role
  remove_existing-view p s =
      Runs-try_catch {E' = λ _ _. ⊥} _ _ s
        (Runs-bind _ _ s (
          Runs-find_first_ok (role_permission_model prisma) reliable s (grants p.0 p.1)
            (λ free. Runs-pure tt _ (without_grant_old p.0 p.1 s.role_permissions free))
            (λ x has at.
              Runs-try_catch {E' = λ _ _. ⊥} _ _ _
                (Runs-delete_ok (role_permission_model prisma) reliable _ (grants p.0 p.1)
                  (λ gone. absurd (
                    ground (
                      arith,
                      All-Has (λ y. grants p.0 p.1 y ≡ false) x s.role_permissions
                          (find-eq-none (grants p.0 p.1) s.role_permissions gone) has,
                    )))
                  (grants_of-keep p.0 p.1 s.role_permissions))
                (λ _ _ h. absurd h))))
        (λ _ _ h. absurd h)

  pairs-view :
      (pairs : List (ℕ × ℕ)) (s : Store)
      → Runs
          (λ _ t. view t ≡ without_grants pairs (view s))
          (λ _ _. ⊥)
          (promise_all
            (λ (p : ℕ × ℕ).
              try_catch
                (get_role_permission prisma p.0 p.1 >>= λ found.
                  remove_existing prisma p.0 p.1 found)
                (λ _. pure tt))
            pairs
            s)
  pairs-view [] s = Runs-promise_all-nil _ s refl
  pairs-view (p ∷ pairs) s = Runs-promise_all-cons _ p pairs s (
      Runs-mono (remove_existing-view p s)
        (λ _ t e.
          Runs-mono (pairs-view pairs t) (λ _ u h. h ∙ ap (without_grants pairs) e) (λ _ _ h. h))
        (λ _ _ h. h))

  -- Where the database's calls on the table do not fail, the request to remove a list of pairs
  -- answers true, and the roles have the permissions that they had but for the pairs of the list.
  pub on_remove_list_role_permission-without_grants :
      (pairs : List (ℕ × ℕ)) (s : Store)
      → Runs
          (λ r t. (r ≡ result true) × (view t ≡ without_grants pairs (view s)))
          (λ _ _. ⊥)
          (on_remove_list_role_permission prisma pairs s)
  unfolding on_remove_list_role_permission remove_list_role_permission
  on_remove_list_role_permission-without_grants pairs s = Runs-replying_with _ _ s (
      Runs-technical _ s (
        Runs-bind _ _ s (
          Runs-mono (pairs-view pairs s) (λ _ t e. Runs-pure true t (refl, e))
            (λ _ _ h. absurd h))))
