-- ===== src/Users/Emails/Reach.antt =====
-- Sequences of requests that change accounts.
use social_listening_backend.Reply.{result, message, Reply}
use social_listening_backend.Store.Rules.{
  Runs-emit, Runs-update, Runs-create, Runs-find_first, Runs-any_first,
}
use social_listening_backend.Reply.Rules.{
  Runs-throw_if_some, Runs-or_throw, Runs-throw_if, Runs-replying_with, Runs-replying,
}
use social_listening_backend.Exec.Runs.{
  Runs-if, Runs-pure, Runs-then, Runs-non_null, Runs-gets, Runs-try_catch, Runs-bind,
}
use social_listening_backend.Async.Rules.{step-Runs}
use social_listening_backend.Users.Emails.Requests.{
  on_edit_employee-Unique, on_create_admin_account-Unique, on_create_employee-Unique, Stays,
}
use social_listening_backend.Schema.{Setting, User}
use social_listening_backend.Users.Emails.Kept.{
  remove_account-Unique, create_user-Unique, active_account-Unique, update-Unique, Unique,
}
use social_listening_backend.Auth.Sessions.{
  create_token, setting_value, send_verification_link, register, open_group, link_token,
}
use social_listening_backend.Users.Accounts.{
  active_account, has_email, PublicUser, EditEmployeeDto, CreateEmployeeDto, get_user_by_email,
  CreateUserDto, hashed_password, set_refresh_token, reset_password,
}
use social_listening_backend.Social.Lookups.{
  get_setting_by_key_and_group, get_role_by_id, get_user_by_id,
}
use social_listening_backend.Users.Groups.{
  left_group, add_user_to_group, create_social_group, get_user_with_group, remove_user_from_group,
  get_social_group_by_manager_id,
}
use social_listening_backend.Platform.{of_email, Payload, Strings, Jwt, Bcrypt}
use social_listening_backend.Users.Requests.{
  on_edit_employee, on_create_admin_account, on_create_employee, Requester, on_remove_employee,
  leave_group,
}
use social_listening_backend.Store.{
  token_model, role_model, user_in_group_model, setting_model, user_model, social_group_model,
  Store, Client,
}
use social_listening_backend.Base.{arith, false, str_eq, refl, true, Option, String, ℕ, none, some}

module _ (prisma : Client) where
  leave_group-Unique :
      (user : Requester) (employee : User) (s : Store)
      → Unique s
      → Stays (leave_group prisma user employee s)
  unfolding leave_group get_social_group_by_manager_id remove_user_from_group get_user_with_group
  leave_group-Unique user employee s h = Runs-bind _ _ s (
      Runs-any_first (social_group_model prisma) s _
        (λ found. Runs-bind _ _ _ (
          Runs-non_null found _
            (λ group _. Runs-bind _ _ _ (
              Runs-throw_if _ _ _ (λ _. h)
                (λ _. Runs-bind _ _ _ (
                  Runs-any_first (user_in_group_model prisma) _ _
                    (λ member. Runs-bind _ _ _ (
                      Runs-non_null member _
                        (λ data_ _. Runs-bind _ _ _ (
                          Runs-update (user_in_group_model prisma) _ data_.id left_group
                            (λ _ _ _. Runs-pure tt _ h) (λ _. h)))
                        (λ _. h)))
                    (λ _. h)))))
            (λ _. h)))
        (λ _. h))

  on_remove_employee-Unique :
      (user : Requester) (id : ℕ) (s : Store)
      → Unique s
      → Stays (on_remove_employee prisma user id s)
  unfolding on_remove_employee get_user_by_id get_role_by_id
  on_remove_employee-Unique user id s h = Runs-replying _ s (
      Runs-bind _ _ s (
        Runs-any_first (user_model prisma) s _
          (λ found. Runs-bind _ _ _ (
            Runs-or_throw _ found _
              (λ employee _. Runs-bind _ _ _ (
                Runs-any_first (role_model prisma) _ _
                  (λ loaded. Runs-bind _ _ _ (
                    Runs-non_null loaded _
                      (λ role _.
                        Runs-then _ _ _
                          (Runs-if (str_eq role.role_name "ADMIN") _ _ _ (λ _. Runs-pure tt _ h)
                            (λ _. leave_group-Unique user employee _ h))
                          (λ _ t i.
                            Runs-then _ _ t (remove_account-Unique prisma t i employee.id)
                              (λ _ u j. Runs-pure true u j)))
                      (λ _. h)))
                  (λ _. h)))
              (λ _. h)))
          (λ _. h)))

  module _ (crypt : Bcrypt) where
    reset_password-Unique :
        (user : ℕ) (password : String) (s : Store)
        → Unique s
        → Stays (reset_password prisma crypt user password s)
    unfolding reset_password hashed_password
    reset_password-Unique user password s h = Runs-replying_with _ _ s (
        Runs-bind _ _ s (
          Runs-gets _ s (
            Runs-then _ _ s (update-Unique prisma s h user _ (λ _. refl) (λ email u at. at))
              (λ _ t i. Runs-pure true t i))))

    set_refresh_token-Unique :
        (token : String) (user : ℕ) (s : Store)
        → Unique s
        → Stays (set_refresh_token prisma crypt token user s)
    unfolding set_refresh_token hashed_password
    set_refresh_token-Unique token user s h = Runs-bind _ _ s (
        Runs-gets _ s (
          Runs-then _ _ s (update-Unique prisma s h user _ (λ _. refl) (λ email u at. at))
            (λ _ t i. Runs-pure tt t i)))

    module _ (jwt : Jwt) (now : ℕ) where
      setting_value-Unique :
          (found : Option Setting) (s : Store) → Unique s → Stays (setting_value found s)
      setting_value-Unique found s h =
          Runs-bind _ _ s (Runs-non_null found s (λ setting _. Runs-pure _ s h) (λ _. h))

      link_token-Unique :
          (url : String) (payload : Payload) (s : Store)
          → Unique s
          → Stays (link_token prisma jwt now url payload s)
      unfolding link_token get_setting_by_key_and_group create_token
      link_token-Unique url payload s h = Runs-bind _ _ s (
          Runs-any_first (setting_model prisma) s _
            (λ found. Runs-bind _ _ _ (
              Runs-any_first (setting_model prisma) _ _
                (λ expires. Runs-bind _ _ _ (
                  Runs-any_first (setting_model prisma) _ _
                    (λ domain. Runs-then _ _ _ (setting_value-Unique found _ h) (λ secret t i.
                      Runs-then _ _ t (setting_value-Unique expires t i) (λ seconds t i.
                        Runs-bind _ _ t (
                          Runs-create (token_model prisma) t _
                            (λ k _.
                              Runs-then _ _ _ (setting_value-Unique domain _ i)
                                (λ address u j. Runs-pure _ u j))
                            (λ _. i)))))
                    (λ _. h)))
                (λ _. h)))
            (λ _. h))

      open_group-Unique :
          (strings : Strings) (reply : Reply PublicUser) (s : Store)
          → Unique s
          → Stays (open_group prisma crypt strings jwt now reply s)
      unfolding open_group send_verification_link create_social_group add_user_to_group
      open_group-Unique strings (message e) s h = Runs-pure _ s h
      open_group-Unique strings (result user) s h =
          Runs-then _ _ s
            (Runs-then _ _ s (link_token-Unique "EMAIL_CONFIRMATION_URL" (of_email user.email) s h)
              (λ link t i. Runs-emit _ t i))
            (λ _ t i. Runs-bind _ _ t (
              Runs-create (social_group_model prisma) t _
                (λ k _.
                  Runs-bind _ _ _ (
                    Runs-create (user_in_group_model prisma) _ _ (λ k _. Runs-pure _ _ i) (λ _. i)))
                (λ _. i)))

      register-Unique :
          (strings : Strings) (dto : CreateUserDto) (s : Store)
          → Unique s
          → Stays (register prisma crypt strings jwt now dto s)
      unfolding register get_user_by_email
      register-Unique strings dto s h =
          Runs-try_catch {E' = λ _ t. Unique t} _ _ s
            (Runs-bind _ _ s (
              Runs-find_first (user_model prisma) s (has_email (strings.lower_case dto.email))
                (λ free. Runs-bind _ _ _ (
                  Runs-throw_if_some _ none _ (λ _ _. h)
                    (λ _.
                      Runs-then _ _ _
                        (create_user-Unique prisma _ h crypt
                          (record dto { email = strings.lower_case dto.email }) false free)
                        (λ reply t i. open_group-Unique strings reply t i))))
                (λ u _ _.
                  Runs-bind _ _ _
                    (Runs-throw_if_some _ (some u) _ (λ _ _. h) (λ e. absurd (ground arith))))
                (λ _. h)))
            (λ e t i. Runs-pure _ t i)

module _ (prisma : Client) (crypt : Bcrypt) (strings : Strings) (jwt : Jwt) where
  -- A request, or a step of a service, and the state that it leaves.
  pub data Step : Store → Store → Type 0 where
    registers :
        {s : Store} (now : ℕ) (dto : CreateUserDto)
        → Step s (register prisma crypt strings jwt now dto s).1
    creates_employee :
        {s : Store} (user : Requester) (dto : CreateEmployeeDto)
        → Step s (on_create_employee prisma crypt strings user dto s).1
    creates_admin :
        {s : Store} (dto : CreateEmployeeDto)
        → Step s (on_create_admin_account prisma crypt strings dto s).1
    edits :
        {s : Store} (user : Requester) (dto : EditEmployeeDto)
        → Step s (on_edit_employee prisma strings user dto s).1
    removes :
        {s : Store} (user : Requester) (id : ℕ) → Step s (on_remove_employee prisma user id s).1
    resets_password :
        {s : Store} (user : ℕ) (password : String)
        → Step s (reset_password prisma crypt user password s).1
    keeps_token :
        {s : Store} (token : String) (user : ℕ)
        → Step s (set_refresh_token prisma crypt token user s).1
    activates : {s : Store} (user : ℕ) → Step s (active_account prisma user s).1

  pub data Reach : Store → Store → Type 0 where
    here : {s : Store} → Reach s s
    next : {s t u : Store} → Reach s t → Step t u → Reach s u

  Step-Unique : {s t : Store} → Unique s → Step s t → Unique t
  Step-Unique h (Step.registers now dto) =
      step-Runs _ (register-Unique prisma crypt jwt now strings dto _ h)
  Step-Unique h (Step.creates_employee user dto) =
      step-Runs _ (on_create_employee-Unique prisma crypt strings user dto _ h)
  Step-Unique h (Step.creates_admin dto) =
      step-Runs _ (on_create_admin_account-Unique prisma crypt strings dto _ h)
  Step-Unique h (Step.edits user dto) =
      step-Runs _ (on_edit_employee-Unique prisma strings user dto _ h)
  Step-Unique h (Step.removes user id) = step-Runs _ (on_remove_employee-Unique prisma user id _ h)
  Step-Unique h (Step.resets_password user password) =
      step-Runs _ (reset_password-Unique prisma crypt user password _ h)
  Step-Unique h (Step.keeps_token token user) =
      step-Runs _ (set_refresh_token-Unique prisma crypt token user _ h)
  Step-Unique h (Step.activates user) = step-Runs _ (active_account-Unique prisma _ h user)

  -- From accounts with unique identifiers and, of those that are not removed, unique e-mails, every
  -- sequence of registrations, of requests to create, edit and remove employees and admins, of
  -- resets of passwords, new refresh tokens and activations leads to such accounts, whatever calls
  -- of the database fail.
  pub Reach-Unique : {s t : Store} → Unique s → Reach s t → Unique t
  Reach-Unique h Reach.here = h
  Reach-Unique h (Reach.next r step) = Step-Unique (Reach-Unique h r) step
