-- ===== src/Users/Info.antt =====
-- Rules of `Exec.Runs` for the look-ups of an account: they change nothing.
use social_listening_backend.Store.Rules.{Runs-find_many, Runs-find_first}
use social_listening_backend.Exec.Runs.{
  Runs-non_null-some, Runs-pure, Runs-non_null-none, Runs-bind, Runs,
}
use social_listening_backend.Lists.{Has}
use social_listening_backend.Schema.{Role, User}
use social_listening_backend.Permissions.{granted, get_all_permission_of_role}
use social_listening_backend.Social.Lookups.{get_user_by_id}
use social_listening_backend.Users.Accounts.{UserInfo, get_user_info, user_with_role}
use social_listening_backend.Exec.{Error}
use social_listening_backend.Store.{role_model, permission_model, user_model, Store, Client}
use social_listening_backend.Base.{==_iff, refl, ◌==◌, ◌≡◌, ℕ}

module _ (prisma : Client) {E : Error → Store → Type 0} (user : ℕ) (s : Store)
    (fails : (e : Error) (n : ℕ) → E e (record s { calls = n })) where
  pub Runs-user_with_role :
      {Q : User × Role → Store → Type 0}
      → ((v : User) (r : Role) (n : ℕ)
          → Has v s.users
          → v.id ≡ user
          → Has r s.roles
          → r.id ≡ v.role_id
          → Q (v, r) (record s { calls = n }))
      → Runs Q E (user_with_role prisma user s)
  unfolding user_with_role get_user_by_id
  Runs-user_with_role h = Runs-bind _ _ s (
      Runs-find_first (user_model prisma) s (λ u. u.id == user)
        (λ _. Runs-bind _ _ _ (Runs-non_null-none _ (fails _ _)))
        (λ v has at. Runs-bind _ _ _ (
          Runs-non_null-some v _ (
            Runs-bind _ _ _ (
              Runs-find_first (role_model prisma) _ (λ r. r.id == v.role_id)
                (λ _. Runs-bind _ _ _ (Runs-non_null-none _ (fails _ _)))
                (λ r has_r at_r. Runs-bind _ _ _ (
                  Runs-non_null-some r _ (
                    Runs-pure _ _ (
                      h v r _ has ((==_iff v.id user).0 at) has_r
                        ((==_iff r.id v.role_id).0 at_r)))))
                (λ e. fails e _)))))
        (λ e. fails e _))

  pub Runs-get_user_info :
      {Q : UserInfo → Store → Type 0}
      → ((v : User) (r : Role) (info : UserInfo) (n : ℕ)
          → Has v s.users
          → v.id ≡ user
          → Has r s.roles
          → r.id ≡ v.role_id
          → info.role ≡ r.role_name
          → Q info (record s { calls = n }))
      → Runs Q E (get_user_info prisma user s)
  unfolding get_user_info get_all_permission_of_role
  Runs-get_user_info h = Runs-bind _ _ s (
      Runs-user_with_role (λ v r n has at has_r at_r. Runs-bind _ _ _ (
        Runs-bind _ _ _ (
          Runs-find_many (permission_model prisma) _ (granted r.id s.role_permissions)
            (λ l _. Runs-pure _ _ (Runs-pure _ _ (h v r _ _ has at has_r at_r refl)))
            (λ e. fails e _)))))
