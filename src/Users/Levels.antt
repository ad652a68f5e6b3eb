-- ===== src/Users/Levels.antt =====
-- The role that a user works in.
use social_listening_backend.Lists.Count.{count-keep-and}
use social_listening_backend.Users.Info.{Runs-get_user_info}
use social_listening_backend.Store.Rules.{Runs-find_many, Runs-find_first}
use social_listening_backend.Async.Rules.{Runs-technical}
use social_listening_backend.Async.{technical_issue}
use social_listening_backend.Exec.Runs.{
  Runs-non_null-some, Runs-non_null-none, Runs-bind, Runs-pure, Runs,
}
use social_listening_backend.Exec.{Error}
use social_listening_backend.Lists.{keep, count, Has}
use social_listening_backend.Schema.{User, Role, UserInTab}
use social_listening_backend.Users.Accounts.{
  higher, level_name, get_role_of_user, role_of_level, levels, max_level,
}
use social_listening_backend.Store.{user_in_tab_model, role_model, Client, Store}
use social_listening_backend.Base.{
  [], ltb, refl, ==_iff, sym, ◌∙◌, Bool-cases, arith, not, ◌⊎◌, ◌&&◌, ◌∷◌, ◌==◌, Option, ◌≡◌, Bool,
  String, ◌≤◌, List, ℕ, inl, inr, none, some,
}

-- A live membership of the user in a tab, with a role.
abbrev pub works_as : ℕ → ℕ → UserInTab → Bool
works_as user role m = m.role_id == role && (m.user_id == user && not m.deleted)

abbrev pub HasRole : List Role → ℕ → ℕ → Type 0
HasRole roles id level = (r : Role) × Has r roles × (r.id ≡ id) × (r.level ≡ level)

-- The level of a role that the user works in, and no other such role has only higher levels.
abbrev pub Highest : Store → ℕ → ℕ → Type 0
Highest s user level =
    ((id : ℕ) × (1 ≤ count (works_as user id) s.users_in_tab) × HasRole s.roles id level)
    × ((id : ℕ)
        → 1 ≤ count (works_as user id) s.users_in_tab
        → (other : ℕ) × HasRole s.roles id other × (other ≤ level))

-- The name of the highest level, or the role of the account of a user that works in no tab.
abbrev pub RoleOf : Store → ℕ → String → Type 0
RoleOf s user name =
    ((level : ℕ) × (name ≡ level_name level) × Highest s user level)
    ⊎ (((id : ℕ) → count (works_as user id) s.users_in_tab ≡ 0)
        × ((v : User) × (r : Role) × Has v s.users
            × (v.id ≡ user)
            × Has r s.roles
            × (r.id ≡ v.role_id)
            × (name ≡ r.role_name)))

abbrev as_role : ℕ → UserInTab → Bool
as_role id m = m.role_id == id

-- The levels that were loaded for memberships.
abbrev LevelsOf : List Role → List UserInTab → List ℕ → Type 0
LevelsOf roles [] [] = Unit
LevelsOf roles [] (l ∷ ls) = ⊥
LevelsOf roles (m ∷ ms) [] = ⊥
LevelsOf roles (m ∷ ms) (l ∷ ls) = HasRole roles m.role_id l × LevelsOf roles ms ls

abbrev MaxOf : List Role → List UserInTab → Option ℕ → Type 0
MaxOf roles ms none = (id : ℕ) → count (as_role id) ms ≡ 0
MaxOf roles ms (some level) =
    ((id : ℕ) × (1 ≤ count (as_role id) ms) × HasRole roles id level)
    × ((id : ℕ)
        → 1 ≤ count (as_role id) ms
        → (other : ℕ) × HasRole roles id other × (other ≤ level))

-- One membership more.
MaxOf-cons :
    (roles : List Role) (m : UserInTab) (ms : List UserInTab) (l : ℕ) (o : Option ℕ)
    → HasRole roles m.role_id l
    → MaxOf roles ms o
    → MaxOf roles (m ∷ ms) (some (higher l o))
MaxOf-cons roles m ms l none role empty = (
  (m.role_id, ground arith, role),
  λ id some_. elim (Bool-cases (m.role_id == id)) [
    | inl at ↦ (l, rw (← (==_iff m.role_id id).0 at) role, omega arith)
    | inr off ↦ absurd (ground (arith, empty id))
  ],
)
MaxOf-cons roles m ms l (some k) role ((id, there, has), above) = elim (Bool-cases (ltb l k)) [
  | inl less ↦ rw less (
    (id, ground arith, has),
    λ i some_. elim (Bool-cases (m.role_id == i)) [
      | inl at ↦ (l, rw (← (==_iff m.role_id i).0 at) role, ground arith)
      | inr off ↦ above i (ground arith)
    ],
  )
  | inr more ↦ rw more (
    (m.role_id, ground arith, role),
    λ i some_. elim (Bool-cases (m.role_id == i)) [
      | inl at ↦ (l, rw (← (==_iff m.role_id i).0 at) role, omega arith)
      | inr off ↦
          let (other, has_other, below) = above i (ground arith) in (other, has_other, ground arith)
    ],
  )
]

max_level-MaxOf :
    (roles : List Role) (ms : List UserInTab) (ls : List ℕ)
    → LevelsOf roles ms ls
    → MaxOf roles ms (max_level ls)
unfolding max_level
max_level-MaxOf roles [] [] h = λ id. refl
max_level-MaxOf roles [] (l ∷ ls) h = absurd h
max_level-MaxOf roles (m ∷ ms) [] h = absurd h
max_level-MaxOf roles (m ∷ ms) (l ∷ ls) (role, rest) =
    MaxOf-cons roles m ms l (max_level ls) role (max_level-MaxOf roles ms ls rest)

module _ (prisma : Client) where
  Runs-levels :
      (ms : List UserInTab) (s : Store) {Q : List ℕ → Store → Type 0} {E : Error → Store → Type 0}
      → ((ls : List ℕ) (n : ℕ) → LevelsOf s.roles ms ls → Q ls (record s { calls = n }))
      → ((e : Error) (n : ℕ) → E e (record s { calls = n }))
      → Runs Q E (levels prisma ms s)
  unfolding levels
  Runs-levels [] s h fails = Runs-pure [] s (h [] s.calls tt)
  Runs-levels (m ∷ ms) s h fails = Runs-bind _ _ s (
      Runs-find_first (role_model prisma) s (λ r. r.id == m.role_id)
        (λ _. Runs-bind _ _ _ (Runs-non_null-none _ (fails _ _)))
        (λ r has at. Runs-bind _ _ _ (
          Runs-non_null-some r _ (
            Runs-bind _ _ _ (
              Runs-levels ms _
                (λ ls n rest.
                  Runs-pure _ _
                    (h (r.level ∷ ls) n ((r, has, (==_iff r.id m.role_id).0 at, refl), rest)))
                (λ e n. fails e n)))))
        (λ e. fails e _))

  found-works_as :
      (user : ℕ) (s : Store) (ms : List UserInTab)
      → ((q : UserInTab → Bool)
          → count q ms ≡ count q (keep (λ m. m.user_id == user && not m.deleted) s.users_in_tab))
      → (id : ℕ) → count (as_role id) ms ≡ count (works_as user id) s.users_in_tab
  found-works_as user s ms same id =
      same (as_role id)
      ∙ count-keep-and (as_role id) (λ m. m.user_id == user && not m.deleted) s.users_in_tab

  role_of_level-RoleOf :
      (user : ℕ) (s : Store) (ms : List UserInTab)
      → ((id : ℕ) → count (as_role id) ms ≡ count (works_as user id) s.users_in_tab)
      → (n : ℕ) (level : Option ℕ) → MaxOf s.roles ms level
      → Runs
          (λ name t. (t ≡ record s { calls = t.calls }) × RoleOf s user name)
          (λ _ t. (technical_issue ≡ technical_issue) × (t ≡ record s { calls = t.calls }))
          (role_of_level prisma user level (record s { calls = n }))
  unfolding role_of_level
  role_of_level-RoleOf user s ms same n none empty = Runs-bind _ _ _ (
      Runs-get_user_info prisma user _ (λ _ _. (refl, refl))
        (λ v r info k has at has_r at_r named.
          Runs-pure _ _
            (refl, inr ((λ id. sym (same id) ∙ empty id), (v, r, has, at, has_r, at_r, named)))))
  role_of_level-RoleOf user s ms same n (some level) ((id, there, role), above) = Runs-pure _ _ (
    refl,
    inl (
      level,
      refl,
      (
        (id, omega (arith, there, same id), role),
        λ i works. above i (omega (arith, works, same i)),
      ),
    ),
  )

  -- The role of a user is named by the highest level of the roles that the user works in, over the
  -- live memberships in tabs, and is the role of the account where there is no such membership; the
  -- look-up changes nothing, and a failure is the technical error and changes nothing.
  pub get_role_of_user-RoleOf :
      (user : ℕ) (s : Store)
      → Runs
          (λ name t. (t ≡ record s { calls = t.calls }) × RoleOf s user name)
          (λ e t. (e ≡ technical_issue) × (t ≡ record s { calls = t.calls }))
          (get_role_of_user prisma user s)
  unfolding get_role_of_user
  get_role_of_user-RoleOf user s = Runs-technical _ s (
      Runs-bind _ _ s (
        Runs-find_many (user_in_tab_model prisma) s (λ m. m.user_id == user && not m.deleted)
          (λ ms same. Runs-bind _ _ _ (
            Runs-levels ms _
              (λ ls n of_.
                role_of_level-RoleOf user s ms (found-works_as user s ms same) n (max_level ls)
                  (max_level-MaxOf s.roles ms ls of_))
              (λ _ _. (refl, refl))))
          (λ _. (refl, refl))))
