-- ===== src/Auth/Login.antt =====
-- Who may log in.
use social_listening_backend.Reply.Rules.{Runs-throw_if}
use social_listening_backend.Users.Info.{Runs-get_user_info}
use social_listening_backend.Async.{technical_issue}
use social_listening_backend.Store.Rules.{Runs-find_first}
use social_listening_backend.Async.Rules.{Runs-technical}
use social_listening_backend.Exec.Runs.{
  Runs-non_null-some, Runs-non_null-none, Runs-pure, Runs-bind, Runs,
}
use social_listening_backend.Users.Accounts.{exclude_data, has_email, get_user_by_email, PublicUser}
use social_listening_backend.Lists.{Has}
use social_listening_backend.Auth.Sessions.{get_authenticated_user}
use social_listening_backend.Users.Groups.{check_activate}
use social_listening_backend.Schema.{Role, User}
use social_listening_backend.Schema.Accounts.{UserInGroup}
use social_listening_backend.Exec.{Error}
use social_listening_backend.Platform.{Bcrypt}
use social_listening_backend.Store.{user_model, user_in_group_model, Client, Store}
use social_listening_backend.Base.{
  refl, not, arith, ◌&&◌, ◌==◌, ◌⊎◌, false, str_eq, true, ◌≡◌, Option, String, ℕ, inl, inr, none,
  some,
}

-- A membership of the account that is active; it may have ended.
abbrev pub ActiveMember : Store → ℕ → Type 0
ActiveMember s user =
    (m : UserInGroup) × Has m s.users_in_group × (m.user_id ≡ user) × (m.is_active ≡ true)

abbrev pub Admin : Store → ℕ → Type 0
Admin s user =
    (v : User) × (r : Role) × Has v s.users
    × (v.id ≡ user)
    × Has r s.roles
    × (r.id ≡ v.role_id)
    × (str_eq r.role_name "ADMIN" ≡ true)

-- An account that is not removed, with the e-mail and the password, and what is shown of it.
abbrev pub Authenticated : Store → Bcrypt → String → String → PublicUser → Type 0
Authenticated s crypt email password u =
    (row : User) × Has row s.users
    × (has_email email row ≡ true)
    × (crypt.compare password row.password ≡ true)
    × (u ≡ exclude_data row)
    × (ActiveMember s row.id ⊎ Admin s row.id)

module _ (prisma : Client) {E : Error → Store → Type 0} (s : Store) where
  pub Runs-check_activate :
      {Q : Option UserInGroup → Store → Type 0} (user : ℕ)
      → ((n : ℕ) → Q none (record s { calls = n }))
      → ((m : UserInGroup) (n : ℕ)
          → Has m s.users_in_group
          → (m.user_id ≡ user) × (m.is_active ≡ true)
          → Q (some m) (record s { calls = n }))
      → ((e : Error) (n : ℕ) → E e (record s { calls = n }))
      → Runs Q E (check_activate prisma user s)
  unfolding check_activate
  Runs-check_activate user absent present fails = Runs-technical _ s (
      Runs-find_first (user_in_group_model prisma) s (λ u. u.user_id == user && u.is_active)
        (λ _. absent _) (λ m has at. present m _ has (ground arith, ground arith))
        (λ _. fails technical_issue _))

module _ (prisma : Client) (crypt : Bcrypt) where
  -- Logging in succeeds only for an account that is not removed, with the e-mail and a hash that the
  -- password compares with, and only if it has an active membership of a group or the role of an
  -- admin; it answers with the account without its password and changes nothing, nor does a failure.
  pub get_authenticated_user-Authenticated :
      (email password : String) (s : Store)
      → Runs
          (λ u t. (t ≡ record s { calls = t.calls }) × Authenticated s crypt email password u)
          (λ _ t. t ≡ record s { calls = t.calls })
          (get_authenticated_user prisma crypt email password s)
  unfolding get_authenticated_user get_user_by_email
  get_authenticated_user-Authenticated email password s = Runs-bind _ _ s (
      Runs-find_first (user_model prisma) s (has_email email)
        (λ _. Runs-bind _ _ _ (Runs-non_null-none _ refl))
        (λ row has at. Runs-bind _ _ _ (
          Runs-non_null-some row _ (
            Runs-bind _ _ _ (
              Runs-throw_if (not (crypt.compare password row.password)) _ _ (λ _. refl)
                (λ right. Runs-bind _ _ _ (
                  Runs-get_user_info prisma row.id _ (λ _ _. refl)
                    (λ v r info n has_v at_v has_r at_r named. Runs-bind _ _ _ (
                      Runs-check_activate prisma _ row.id
                        (λ n. Runs-bind _ _ _ (
                          Runs-throw_if (not (str_eq info.role "ADMIN")) _ _ (λ _. refl)
                            (λ admin. Runs-pure _ _ (
                              refl,
                              (
                                row,
                                has,
                                at,
                                ground arith,
                                refl,
                                inr (v, r, has_v, at_v, has_r, at_r, rw (← named) (ground arith)),
                              ),
                            ))))
                        (λ m n has_m (of_row, active). Runs-bind _ _ _ (
                          Runs-throw_if false _ _ (λ t. absurd (ground arith))
                            (λ _. Runs-pure _ _ (
                              refl,
                              (row, has, at, ground arith, refl, inl (m, has_m, of_row, active)),
                            ))))
                        (λ _ _. refl)))))))))
        (λ _. refl))
