-- ===== src/Users/Import/Counts.antt =====
-- What an import counts.
use social_listening_backend.Lists.Count.{length-append}
use social_listening_backend.Store.Rules.{Runs-any_first, Runs-create}
use social_listening_backend.Exec.{pure, ◌>>=◌, non_null}
use social_listening_backend.Reply.Rules.{Runs-throw_if, Runs-replying_with}
use social_listening_backend.Schema.{Role}
use social_listening_backend.Social.Lookups.{get_role_by_role_name}
use social_listening_backend.Exec.Runs.{
  Runs-try_catch, Runs-mono, Runs-non_null, Runs-gets, Runs-bind, Runs-throw, Runs-pure, Runs,
}
use social_listening_backend.Schema.Accounts.{SocialGroup, ImportResult}
use social_listening_backend.Users.Import.{
  plain_to_class_custom, employee_of, Row, Column, ImportEmployeeDto, counted, import_rows,
  import_row,
}
use social_listening_backend.Users.Groups.{group_member, add_user_to_group}
use social_listening_backend.Users.Accounts.{
  employee, CreateEmployeeDto, hashed_password, create_employee, PublicUser,
}
use social_listening_backend.Platform.{Strings, Bcrypt}
use social_listening_backend.Reply.{message, result_of, result, Reply}
use social_listening_backend.Lists.{length}
use social_listening_backend.Store.{
  tick, role_model, user_in_group_model, user_model, Client, Store,
}
use social_listening_backend.Base.{
  false, true, ◌∷◌, [], ◌∙◌, refl, List, arith, if◌then◌else◌, Option, suc, ◌≤◌, Bool, ◌+◌, ◌≡◌, ℕ,
}

-- So many memberships more, at least as many accounts more, and the same notifications.
abbrev pub Grown : ℕ → Store → Store → Type 0
Grown k s t =
    (length t.users_in_group ≡ length s.users_in_group + k)
    × (length s.users + k ≤ length t.users)
    × (t.notifications ≡ s.notifications)

abbrev Created : Store → Reply PublicUser → Store → Type 0
Created s (result u) t =
    (length t.users_in_group ≡ length s.users_in_group)
    × (length t.users ≡ suc (length s.users))
    × (t.notifications ≡ s.notifications)
Created s (message e) t = Grown 0 s t

-- How many rows were imported.
abbrev pub Tallied : ℕ → ImportResult → Store → ImportResult → Store → Type 0
Tallied rows r s r' t =
    (k : ℕ) × (r'.total_import ≡ r.total_import)
    × (r'.import_success ≡ r.import_success + k)
    × (r'.import_success + r'.import_failure ≡ r.import_success + r.import_failure + rows)
    × Grown k s t

module _ (prisma : Client) (crypt : Bcrypt) (strings : Strings) where
  create_employee-Created :
      (dto : CreateEmployeeDto) (s : Store)
      → Runs (Created s) (λ _ _. ⊥) (create_employee prisma crypt strings dto s)
  unfolding create_employee hashed_password
  create_employee-Created dto s = Runs-replying_with _ _ s (
      Runs-bind _ _ s (
        Runs-gets _ s (
          Runs-bind _ _ s (
            Runs-create (user_model prisma) s
              (employee strings dto (crypt.hash s.calls dto.password))
              (λ k _. Runs-pure _ _ (
                refl,
                omega (
                  arith,
                  length-append s.users
                      (employee strings dto (crypt.hash s.calls dto.password) k ∷ []),
                ),
                refl,
              ))
              (λ _. (omega arith, omega arith, refl))))))

  result_of-Grown :
      (s : Store) (created : Reply PublicUser) (t : Store)
      → Created s created t
      → Runs
          (λ u t'. (t' ≡ t) × Created s (result u) t)
          (λ _ t'. Grown 0 s t')
          (result_of created t)
  unfolding result_of
  result_of-Grown s (result u) t h = Runs-pure u t (refl, h)
  result_of-Grown s (message e) t h = Runs-throw e t h

  member-Grown :
      (s t : Store) (group : Option SocialGroup) (u : PublicUser)
      → Created s (result u) t
      → Runs
          (λ _ t'. Grown 1 s t')
          (λ _ t'. Grown 0 s t')
          ((non_null group >>= λ own. add_user_to_group prisma u.id own.id >>= λ _. pure (tt {0}))
            t)
  unfolding add_user_to_group
  member-Grown s t group u (members, users, same) = Runs-bind _ _ t (
      Runs-non_null group t
        (λ own _. Runs-bind _ _ t (
          Runs-create (user_in_group_model prisma) t (group_member u.id own.id)
            (λ k _. Runs-pure tt _ (
              omega (
                arith,
                members,
                length-append t.users_in_group (group_member u.id own.id k ∷ []),
              ),
              omega (arith, users),
              same,
            ))
            (λ _. (omega (arith, members), omega (arith, users), same))))
        (λ _. (omega (arith, members), omega (arith, users), same)))

  -- A row that is imported brings a membership; another one none, but maybe an account.
  import_row-Grown :
      (owner : Option Role) (group : Option SocialGroup) (user : ImportEmployeeDto) (s : Store)
      → Runs
          (λ _ t. Grown 1 s t)
          (λ _ t. Grown 0 s t)
          (import_row prisma crypt strings owner group user s)
  unfolding import_row get_role_by_role_name
  import_row-Grown owner group user s =
      let kept : Grown 0 s s = (omega arith, omega arith, refl) in
      Runs-bind _ _ s (
        Runs-non_null user.email s
          (λ email _. Runs-bind _ _ s (
            Runs-non_null user.password s
              (λ password _. Runs-bind _ _ s (
                Runs-throw_if _ _ s (λ _. kept)
                  (λ _. Runs-bind _ _ s (
                    Runs-any_first (role_model prisma) s _
                      (λ found. Runs-bind _ _ _ (
                        Runs-non_null found _
                          (λ role _. Runs-bind _ _ _ (
                            Runs-non_null owner _
                              (λ above _. Runs-bind _ _ _ (
                                Runs-throw_if _ _ _ (λ _. kept)
                                  (λ _. Runs-bind _ _ _ (
                                    Runs-mono
                                      (create_employee-Created
                                        (employee_of strings user email password role.id) (tick s))
                                      (λ created t made. Runs-bind _ _ t (
                                        Runs-mono (result_of-Grown (tick s) created t made)
                                          (λ u t' (e, grown).
                                            rw e (member-Grown (tick s) t group u grown))
                                          (λ _ t' h. h)))
                                      (λ _ _ h. absurd h)))))
                              (λ _. kept)))
                          (λ _. kept)))
                      (λ _. kept)))))
              (λ _. kept)))
          (λ _. kept))

  tally :
      (rows n : ℕ) (b : Bool) (r r' : ImportResult) (s t u : Store)
      → n ≡ (if b then 1 else 0)
      → Grown n s t
      → Tallied rows (counted b r) t r' u
      → Tallied (suc rows) r s r' u
  tally rows n true r r' s t u at (members, users, same)
        (k, total, success, sum, (members', users', same')) =
      (suc k, total, omega arith, omega arith, (omega arith, omega arith, same' ∙ same))
  tally rows n false r r' s t u at (members, users, same)
        (k, total, success, sum, (members', users', same')) =
      (k, total, omega arith, omega arith, (omega arith, omega arith, same' ∙ same))

  pub import_rows-Tallied :
      (owner : Option Role) (group : Option SocialGroup) (mapping : List Column) (rows : List Row)
      (r : ImportResult) (s : Store)
      → Runs
          (λ r' t. Tallied (length rows) r s r' t)
          (λ _ _. ⊥)
          (import_rows prisma crypt strings owner group mapping rows r s)
  unfolding import_rows
  import_rows-Tallied owner group mapping [] r s =
      Runs-pure r s (0, refl, omega arith, omega arith, (omega arith, omega arith, refl))
  import_rows-Tallied owner group mapping (row ∷ rows) r s = Runs-bind _ _ s (
      Runs-mono
        (Runs-try_catch {Q = λ (b : Bool) t. Grown (if b then 1 else 0) s t}
          {E' = λ _ t. Grown 0 s t} _ _ s
          (Runs-bind _ _ s (
            Runs-mono (import_row-Grown owner group (plain_to_class_custom mapping row) s)
              (λ _ t g. Runs-pure true t g) (λ _ t g. g)))
          (λ _ t g. Runs-pure false t g))
        (λ b t g.
          Runs-mono (import_rows-Tallied owner group mapping rows (counted b r) t)
            (λ r' u tallied. tally (length rows) _ b r r' s t u refl g tallied) (λ _ _ h. h))
        (λ _ _ h. h))
