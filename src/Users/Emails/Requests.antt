-- ===== src/Users/Emails/Requests.antt =====
-- The requests keep identifiers and e-mails of accounts unique.
use social_listening_backend.Lists.Count.{unique_of_count, find-eq-none, All-mono}
use social_listening_backend.Reply.{result_of}
use social_listening_backend.Reply.Rules.{
  Runs-throw_if, Runs-or_throw, Runs-result_of, Runs-throw_if_some, Runs-replying,
}
use social_listening_backend.Lists.{Has, find}
use social_listening_backend.Schema.{Role, User}
use social_listening_backend.Store.Rules.{Runs-any_first, Runs-find_first, Runs-create}
use social_listening_backend.Users.Accounts.{
  has_email, edit_employee, CreateEmployeeDto, EditEmployeeDto, get_user_by_email,
}
use social_listening_backend.Users.Emails.Kept.{
  create_employee-Unique, edit_employee-Unique, OwnEmail, Unique,
}
use social_listening_backend.Exec.Runs.{
  Runs-pure, Runs-throw, Runs-non_null, Runs-if, Runs-then, Runs-bind, Runs,
}
use social_listening_backend.Social.Lookups.{get_user_by_id, get_role_by_role_name, get_role_by_id}
use social_listening_backend.Platform.{Bcrypt, Strings}
use social_listening_backend.Users.Requests.{
  other_user, Requester, edit_as_owner, on_edit_employee, edit_as, on_create_admin_account,
  on_create_employee,
}
use social_listening_backend.Users.Groups.{
  get_user_with_group, get_social_group_by_manager_id, add_user_to_group,
}
use social_listening_backend.Store.{
  social_group_model, role_model, user_model, user_in_group_model, Store, Client,
}
use social_listening_backend.Exec.{non_null, ◌>>=◌, Result}
use social_listening_backend.Base.{
  ==_iff, ◌&&◌, false, str_eq, arith, true, Option, ◌≡◌, String, ℕ, none, some,
}

-- After a request, whatever it answers.
abbrev pub Stays : {A : Type 0} → Result A × Store → Type 0
Stays o = Runs (λ _ t. Unique t) (λ _ t. Unique t) o

module _ (prisma : Client) where
  add_user_to_group-Unique :
      (user group : ℕ) (s : Store) → Unique s → Stays (add_user_to_group prisma user group s)
  unfolding add_user_to_group
  add_user_to_group-Unique user group s h =
      Runs-create (user_in_group_model prisma) s _ (λ _ _. h) (λ _. h)

  pub on_create_employee-Unique :
      (crypt : Bcrypt) (strings : Strings) (user : Requester) (dto : CreateEmployeeDto) (s : Store)
      → Unique s
      → Stays (on_create_employee prisma crypt strings user dto s)
  unfolding on_create_employee get_user_by_email get_social_group_by_manager_id
      get_role_by_role_name
  on_create_employee-Unique crypt strings user dto s h = Runs-replying _ s (
      Runs-bind _ _ s (
        Runs-find_first (user_model prisma) s (has_email dto.email)
          (λ free. Runs-bind _ _ _ (
            Runs-throw_if_some _ none _ (λ _ _. h)
              (λ _. Runs-bind _ _ _ (
                Runs-any_first (social_group_model prisma) _ _
                  (λ group. Runs-bind _ _ _ (
                    Runs-any_first (role_model prisma) _ _
                      (λ found. Runs-bind _ _ _ (
                        Runs-non_null found _
                          (λ role _.
                            Runs-then _ _ _ (create_employee-Unique prisma _ h crypt strings _ free)
                              (λ created t i. Runs-bind _ _ t (
                                Runs-result_of t created
                                  (λ employee _. Runs-bind _ _ t (
                                    Runs-non_null group t
                                      (λ own _.
                                        Runs-then _ _ t
                                          (add_user_to_group-Unique employee.id own.id t i)
                                          (λ _ t i. Runs-pure _ t i))
                                      (λ _. i)))
                                  (λ _ _. i))))
                          (λ _. h)))
                      (λ _. h)))
                  (λ _. h)))))
          (λ u _ _.
            Runs-bind _ _ _
              (Runs-throw_if_some _ (some u) _ (λ _ _. h) (λ e. absurd (ground arith))))
          (λ _. h)))

  pub on_create_admin_account-Unique :
      (crypt : Bcrypt) (strings : Strings) (dto : CreateEmployeeDto) (s : Store)
      → Unique s
      → Stays (on_create_admin_account prisma crypt strings dto s)
  unfolding on_create_admin_account get_user_by_email get_role_by_id
  on_create_admin_account-Unique crypt strings dto s h = Runs-replying _ s (
      Runs-bind _ _ s (
        Runs-any_first (role_model prisma) s _
          (λ found. Runs-bind _ _ _ (
            Runs-non_null found _
              (λ role _. Runs-bind _ _ _ (
                Runs-throw_if _ _ _ (λ _. h)
                  (λ _. Runs-bind _ _ _ (
                    Runs-find_first (user_model prisma) _ (has_email dto.email)
                      (λ free. Runs-bind _ _ _ (
                        Runs-throw_if_some _ none _ (λ _ _. h)
                          (λ _.
                            Runs-then _ _ _
                              (create_employee-Unique prisma _ h crypt strings dto free)
                              (λ created t i. Runs-result_of t created (λ _ _. i) (λ _ _. i)))))
                      (λ u _ _.
                        Runs-bind _ _ _
                          (Runs-throw_if_some _ (some u) _ (λ _ _. h) (λ e. absurd (ground arith))))
                      (λ _. h)))))
              (λ _. h)))
          (λ _. h)))

  edited-Unique :
      (strings : Strings) (dto : EditEmployeeDto) (s : Store)
      → Unique s
      → OwnEmail dto.id dto.email s
      → Stays ((edit_employee prisma strings dto >>= result_of) s)
  edited-Unique strings dto s h own =
      Runs-then _ _ s (edit_employee-Unique prisma s h strings dto own)
        (λ edited t i. Runs-result_of t edited (λ _ _. i) (λ _ _. i))

  edit_as-Unique :
      (strings : Strings) (user : Requester) (dto : EditEmployeeDto) (role : Role)
      (owner : Option Role) (s : Store)
      → Unique s
      → OwnEmail dto.id dto.email s
      → Stays (edit_as prisma strings user dto role owner s)
  unfolding edit_as edit_as_owner get_social_group_by_manager_id get_user_with_group
  edit_as-Unique strings user dto role owner s h own =
      Runs-if (str_eq role.role_name "ADMIN" && str_eq user.role "ADMIN") _ _ s
        (λ _. edited-Unique strings dto s h own)
        (λ _.
          Runs-if (str_eq user.role "OWNER") _ _ s
            (λ _. Runs-bind _ _ s (
              Runs-non_null owner s
                (λ above _. Runs-bind _ _ s (
                  Runs-throw_if _ _ s (λ _. h)
                    (λ _. Runs-bind _ _ s (
                      Runs-any_first (social_group_model prisma) s _
                        (λ found. Runs-bind _ _ _ (
                          Runs-non_null found _
                            (λ group _. Runs-bind _ _ _ (
                              Runs-any_first (user_in_group_model prisma) _ _
                                (λ member. Runs-bind _ _ _ (
                                  Runs-or_throw _ member _
                                    (λ _ _. edited-Unique strings dto _ h own) (λ _. h)))
                                (λ _. h)))
                            (λ _. h)))
                        (λ _. h)))))
                (λ _. h)))
            (λ _. Runs-throw _ s h))

  -- The account that was found is the user's own.
  found-OwnEmail :
      (user : ℕ) (email : String) (s : Store) (u : User)
      → Unique s
      → Has u s.users
      → has_email email u ≡ true
      → other_user user (some u) ≡ false
      → OwnEmail user email s
  found-OwnEmail user email s u h has at own =
      All-mono _ _ s.users
        (λ x (same : has_email email x ≡ true → x ≡ u) at_x.
          rw (same at_x) ((==_iff u.id user).0 (ground arith)))
        (unique_of_count (has_email email) u s.users has at (h.emails email))

  free-OwnEmail :
      (user : ℕ) (email : String) (s : Store)
      → find (has_email email) s.users ≡ none
      → OwnEmail user email s
  free-OwnEmail user email s free =
      All-mono _ _ s.users (λ x no at. absurd (ground arith))
        (find-eq-none (has_email email) s.users free)

  on_edit-rest :
      (strings : Strings) (user : Requester) (dto : EditEmployeeDto) (change : User) (s : Store)
      → Unique s
      → OwnEmail dto.id dto.email s
      → Stays (
          (get_role_by_id prisma change.role_id >>= λ loaded.
          get_role_by_role_name prisma user.role >>= λ owner.
          non_null loaded >>= λ role. edit_as prisma strings user dto role owner)
            s)
  unfolding get_role_by_id get_role_by_role_name
  on_edit-rest strings user dto change s h own = Runs-bind _ _ s (
      Runs-any_first (role_model prisma) s _
        (λ loaded. Runs-bind _ _ _ (
          Runs-any_first (role_model prisma) _ _
            (λ owner. Runs-bind _ _ _ (
              Runs-non_null loaded _ (λ role _. edit_as-Unique strings user dto role owner _ h own)
                (λ _. h)))
            (λ _. h)))
        (λ _. h))

  pub on_edit_employee-Unique :
      (strings : Strings) (user : Requester) (dto : EditEmployeeDto) (s : Store)
      → Unique s
      → Stays (on_edit_employee prisma strings user dto s)
  unfolding on_edit_employee get_user_by_email get_user_by_id
  on_edit_employee-Unique strings user dto s h = Runs-replying _ s (
      Runs-bind _ _ s (
        Runs-any_first (user_model prisma) s _
          (λ found. Runs-bind _ _ _ (
            Runs-or_throw _ found _
              (λ change _. Runs-bind _ _ _ (
                Runs-find_first (user_model prisma) _ (has_email dto.email)
                  (λ free. Runs-bind _ _ _ (
                    Runs-throw_if false _ _ (λ t. absurd (ground arith))
                      (λ _.
                        on_edit-rest strings user dto change _ h
                          (free-OwnEmail dto.id dto.email s free))))
                  (λ u has at. Runs-bind _ _ _ (
                    Runs-throw_if (other_user dto.id (some u)) _ _ (λ _. h)
                      (λ own.
                        on_edit-rest strings user dto change _ h
                          (found-OwnEmail dto.id dto.email s u h has at own))))
                  (λ _. h)))
              (λ _. h)))
          (λ _. h)))
