-- ===== src/Users/Emails/Kept.antt =====
-- The operations of the service of users keep identifiers and e-mails unique.
use social_listening_backend.Store.Rules.{Runs-any_first, Runs-update, Runs-create}
use social_listening_backend.Reply.Rules.{Runs-replying_with}
use social_listening_backend.Social.Lookups.{get_role_by_role_name}
use social_listening_backend.Exec.Runs.{
  Runs-throw, Runs-non_null, Runs-pure, Runs-gets, Runs-bind, Runs-then, Runs-try_catch, Runs,
}
use social_listening_backend.Platform.{Bcrypt, Strings}
use social_listening_backend.Lists.{find, All}
use social_listening_backend.Users.Accounts.{
  registered, employee, edited_employee, confirmed, CreateUserDto, CreateEmployeeDto, removed_user,
  EditEmployeeDto, has_email, hashed_password, active_account, remove_account, create_user,
  create_employee, edit_employee,
}
use social_listening_backend.Schema.{User}
use social_listening_backend.Users.Emails.{
  update_where-UniqueUsers, append-UniqueUsers, UniqueUsers,
}
use social_listening_backend.Store.{tick, role_model, update, user_model, create, Client, Store}
use social_listening_backend.Base.{
  str_eq_iff, str_eq, Bool-cases, refl, Bool, arith, true, ◌≡◌, String, ℕ, inl, inr, none,
}

abbrev pub Unique : Store → Type 0
Unique t = UniqueUsers t.users

module _ (prisma : Client) (s : Store) (h : Unique s) where
  pub create-Unique :
      (make : ℕ → User) (email : String)
      → ((k : ℕ) → (make k).id ≡ k)
      → ((k : ℕ) → (make k).email ≡ email)
      → find (has_email email) s.users ≡ none
      → Runs (λ _ t. Unique t) (λ _ t. Unique t) (create (user_model prisma) make s)
  create-Unique make email id_of email_of free =
      Runs-create (user_model prisma) s make
        (λ k fresh.
          append-UniqueUsers s.users (make k) (rw (id_of k) fresh) (rw (email_of k) free) h)
        (λ _. h)

  -- A change that keeps the identifier and the e-mail, or removes the account.
  pub update-Unique :
      (user : ℕ) (f : User → User)
      → ((u : User) → (f u).id ≡ u.id)
      → ((email : String) (u : User) → has_email email (f u) ≡ true → has_email email u ≡ true)
      → Runs (λ _ t. Unique t) (λ _ t. Unique t) (update (user_model prisma) user f s)
  update-Unique user f same old =
      Runs-update (user_model prisma) s user f
        (λ _ _ _. update_where-UniqueUsers user f s.users same (λ email. inl (old email)) h)
        (λ _. h)

-- The accounts with the e-mail are the user's own.
abbrev pub OwnEmail : ℕ → String → Store → Type 0
OwnEmail user email t = All (λ u. has_email email u ≡ true → u.id ≡ user) t.users

module _ (prisma : Client) (s : Store) (h : Unique s) where
  pub edit_employee-Unique :
      (strings : Strings) (dto : EditEmployeeDto)
      → OwnEmail dto.id dto.email s
      → Runs (λ _ t. Unique t) (λ _ t. Unique t) (edit_employee prisma strings dto s)
  unfolding edit_employee
  edit_employee-Unique strings dto own = Runs-replying_with _ _ s (
      Runs-bind _ _ s (
        Runs-update (user_model prisma) s dto.id (edited_employee strings dto)
          (λ _ _ _. Runs-pure _ _ (
            update_where-UniqueUsers dto.id (edited_employee strings dto) s.users (λ _. refl)
              (λ email. elim (Bool-cases (str_eq dto.email email)) [
                | inl at ↦ inr (rw (← (str_eq_iff dto.email email).0 at) own)
                | inr off ↦ inl (λ u at. absurd (ground arith))
              ])
              h))
          (λ _. h)))

  pub create_employee-Unique :
      (crypt : Bcrypt) (strings : Strings) (dto : CreateEmployeeDto)
      → find (has_email dto.email) s.users ≡ none
      → Runs (λ _ t. Unique t) (λ _ t. Unique t) (create_employee prisma crypt strings dto s)
  unfolding create_employee hashed_password
  create_employee-Unique crypt strings dto free = Runs-replying_with _ _ s (
      Runs-bind _ _ s (
        Runs-gets _ s (
          Runs-then _ _ s
            (create-Unique prisma s h (employee strings dto (crypt.hash s.calls dto.password))
              dto.email (λ _. refl) (λ _. refl) free)
            (λ u t i. Runs-pure _ t i))))

  pub create_user-Unique :
      (crypt : Bcrypt) (dto : CreateUserDto) (from_startup : Bool)
      → find (has_email dto.email) s.users ≡ none
      → Runs (λ _ t. Unique t) (λ _ t. Unique t) (create_user prisma crypt dto from_startup s)
  unfolding create_user hashed_password get_role_by_role_name
  create_user-Unique crypt dto from_startup free = Runs-replying_with _ _ s (
      Runs-bind _ _ s (
        Runs-any_first (role_model prisma) s _
          (λ found. Runs-bind _ _ _ (
            Runs-gets _ _ (
              Runs-bind _ _ _ (
                Runs-non_null found _
                  (λ role _.
                    Runs-then _ _ _
                      (create-Unique prisma _ h
                        (registered dto.email (crypt.hash (tick s).calls dto.password) role.id)
                        dto.email (λ _. refl) (λ _. refl) free)
                      (λ u t i. Runs-pure _ t i))
                  (λ _. h)))))
          (λ _. h)))

  pub remove_account-Unique :
      (user : ℕ) → Runs (λ _ t. Unique t) (λ _ t. Unique t) (remove_account prisma user s)
  unfolding remove_account
  remove_account-Unique user =
      update-Unique prisma s h user removed_user (λ _. refl) (λ email u at. absurd (ground arith))

  pub active_account-Unique :
      (user : ℕ) → Runs (λ _ t. Unique t) (λ _ t. Unique t) (active_account prisma user s)
  unfolding active_account
  active_account-Unique user =
      Runs-try_catch {E' = λ _ t. Unique t} _ _ s
        (Runs-then _ _ s (update-Unique prisma s h user confirmed (λ _. refl) (λ email u at. at))
          (λ _ t i. Runs-pure true t i))
        (λ e t i. Runs-throw _ t i)
