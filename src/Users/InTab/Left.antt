-- ===== src/Users/InTab/Left.antt =====
-- Taking users off tabs leaves none of them a member, and every other membership as it was.
use social_listening_backend.Base.{
  suc, ℕ, ◌+◌, ◌==◌, ◌≡◌, ◌≤◌, Bool, true, false, not, ◌&&◌, ◌||◌, none, List, [], ◌∷◌,
  if◌then◌else◌, refl, ap, arith, ==_iff, Bool-cases, inl, inr,
}
use social_listening_backend.Lists.{any, count, find, update_where, Has}
use social_listening_backend.Lists.Count.{
  count-zero, count-pos_of_Has, find-eq-none, unique_of_count, All-mono, All-Has,
}
use social_listening_backend.Prisma.{Reliable}
use social_listening_backend.Exec.{◌>>=◌, for_each}
use social_listening_backend.Exec.Runs.{
  Runs, Runs-pure, Runs-bind, Runs-mono, Runs-try_catch, Runs-then, Runs-for_each-nil,
  Runs-for_each-cons,
}
use social_listening_backend.Async.Rules.{Runs-technical}
use social_listening_backend.Schema.{UserInTab}
use social_listening_backend.Store.{
  Store, Client, tick, user_in_tab_model, user_model, social_tab_model,
}
use social_listening_backend.Store.Rules.{Runs-any_first}
use social_listening_backend.Store.Total.{Runs-find_first_ok, Runs-update_ok}
use social_listening_backend.Social.Lookups.{get_user_by_id, get_social_tab_by_id}
use social_listening_backend.Social.Pages.{OnlyRead}
use social_listening_backend.Users.InTab.{
  AssignUserDto, is_member, left_tab, check_user_in_tab, unassign, remove_user_from_tab,
  unassign_users,
}
use social_listening_backend.Users.InTab.Once.{Once, load-keeps}

-- How many live memberships a user has in a tab.
abbrev pub members : ℕ → ℕ → Store → ℕ
members user tab s = count (is_member user tab) s.users_in_tab

-- The identifier is the key of the memberships.
abbrev pub UniqueMemberships : Store → Type 0
UniqueMemberships s = (k : ℕ) → count (λ (u : UserInTab). u.id == k) s.users_in_tab ≤ 1

-- The chosen users have left the chosen tabs, and each other pair has the memberships it had.
abbrev pub Taken : (ℕ → ℕ → Bool) → Store → Store → Type 0
Taken p s t = (user tab : ℕ) → members user tab t ≡ (if p user tab then 0 else members user tab s)

-- A user of the request in a tab of the request.
abbrev pub listed : AssignUserDto → ℕ → ℕ → Bool
listed dto user tab = any (λ u. u == user) dto.users && any (λ t. t == tab) dto.tabs

count-left :
    (user tab id : ℕ) (xs : List UserInTab)
    → count (is_member user tab) (update_where (λ u. u.id == id) left_tab xs)
      ≡ count (λ u. is_member user tab u && not (u.id == id)) xs
count-left user tab id [] = refl
count-left user tab id (x ∷ xs) = ground (arith, count-left user tab id xs)

count-ids :
    (k id : ℕ) (xs : List UserInTab)
    → count (λ (u : UserInTab). u.id == k) (update_where (λ u. u.id == id) left_tab xs)
      ≡ count (λ (u : UserInTab). u.id == k) xs
count-ids k id [] = refl
count-ids k id (x ∷ xs) = ground (arith, count-ids k id xs)

count-split :
    {A : Type 0} (p q : A → Bool) (xs : List A)
    → count p xs ≡ count (λ x. p x && q x) xs + count (λ x. p x && not (q x)) xs
count-split p q [] = omega arith
count-split p q (x ∷ xs) = ground (arith, count-split p q xs)

-- The one row that passes is left out.
count-gone :
    {A : Type 0} (p q : A → Bool) (m : A) (xs : List A)
    → Has m xs
    → p m ≡ true
    → q m ≡ true
    → count p xs ≤ 1
    → count (λ x. p x && not (q x)) xs ≡ 0
count-gone p q m xs has pm qm once =
    omega
      (arith, count-split p q xs, count-pos_of_Has (λ x. p x && q x) m xs has (ground arith), once)

-- The one row that is left out does not pass.
count-other :
    {A : Type 0} (p q : A → Bool) (m : A) (xs : List A)
    → Has m xs
    → p m ≡ false
    → q m ≡ true
    → count q xs ≤ 1
    → count (λ x. p x && not (q x)) xs ≡ count p xs
count-other p q m xs has pm qm once = omega (
  arith,
  count-split p q xs,
  count-zero (λ x. p x && q x) xs
      (All-mono (λ x. q x ≡ true → x ≡ m) _ xs
        (λ x only. elim (Bool-cases (q x)) [
          | inl is ↦ rw (only is, pm) refl
          | inr is_not ↦ ground arith
        ])
        (unique_of_count q m xs has qm once)),
)

abbrev Sound : Store → Type 0
Sound t = UniqueMemberships t × Once t

module _ (user tab : ℕ) where
  abbrev this : ℕ → ℕ → Bool
  this u t = u == user && t == tab

  none-Taken : (s : Store) → find (is_member user tab) s.users_in_tab ≡ none → Taken this s s
  none-Taken s free u t = elim (Bool-cases (this u t)) [
    | inl same ↦
        let eu : u ≡ user = ground arith in
        let et : t ≡ tab = ground arith in
        rw (same, eu, et)
          (count-zero (is_member user tab) s.users_in_tab
            (find-eq-none (is_member user tab) s.users_in_tab free))
    | inr other ↦ rw other refl
  ]

  left-Taken :
      (m : UserInTab) (s t : Store)
      → Sound s
      → Has m s.users_in_tab
      → is_member user tab m ≡ true
      → t.users_in_tab ≡ update_where (λ u. u.id == m.id) left_tab s.users_in_tab
      → Sound t × Taken this s t
  left-Taken m s t (ids, once) has at e =
      let taken : Taken this s t = λ u v. elim (Bool-cases (this u v)) [
        | inl same ↦
            let eu : u ≡ user = ground arith in
            let et : v ≡ tab = ground arith in
            rw (same, eu, et, e, count-left user tab m.id s.users_in_tab)
              (count-gone (is_member user tab) (λ x. x.id == m.id) m s.users_in_tab has at
                (ground arith) (once user tab))
        | inr other ↦
            rw (other, e, count-left u v m.id s.users_in_tab)
              (count-other (is_member u v) (λ x. x.id == m.id) m s.users_in_tab has (ground arith)
                (ground arith) (ids m.id))
      ] in
      (
        (
          λ k. rw (e, count-ids k m.id s.users_in_tab) (ids k),
          λ u v. ground (arith, taken u v, once u v),
        ),
        taken,
      )

Taken-then :
    (p q r : ℕ → ℕ → Bool) (s t v : Store)
    → Taken p s t
    → Taken q t v
    → ((u w : ℕ) → r u w ≡ (p u w || q u w))
    → Taken r s v
Taken-then p q r s t v h k same u w = ground (arith, same u w, h u w, k u w)

-- A state reached by taking the chosen pairs off.
abbrev Reached : (ℕ → ℕ → Bool) → Store → Store → Type 0
Reached p s t = Sound t × Taken p s t

-- The state after two calls, of which the second takes a membership off.
abbrev after_left : UserInTab → Store → Store
after_left m s = record s {
  calls = suc (suc s.calls);
  users_in_tab = update_where (λ u. u.id == m.id) left_tab s.users_in_tab;
}

module _ (prisma : Client) (reliable : Reliable prisma.user_in_tab) where
  unassign-Reached :
      (user tab : ℕ) (s : Store)
      → Sound s
      → Runs
          (λ _ t. Reached (this user tab) s t)
          (λ _ _. ⊥)
          ((check_user_in_tab prisma user tab >>= λ member. unassign prisma member) s)
  unfolding check_user_in_tab unassign remove_user_from_tab
  unassign-Reached user tab s sound = Runs-bind _ _ s (
      Runs-find_first_ok (user_in_tab_model prisma) reliable s (is_member user tab)
        (λ free. Runs-pure tt _ (sound, none-Taken user tab s free))
        (λ m has at.
          Runs-try_catch {E' = λ _ _. ⊥} _ _ _
            (Runs-bind _ _ _ (
              Runs-technical _ _ (
                Runs-bind _ _ _ (
                  Runs-update_ok (user_in_tab_model prisma) reliable (tick s) m.id left_tab
                    (λ gone. absurd (
                      ground (
                        arith,
                        All-Has (λ y. (y.id == m.id) ≡ false) m s.users_in_tab
                            (find-eq-none (λ y. y.id == m.id) s.users_in_tab gone) has,
                      )))
                    (λ x _ _. Runs-pure true _ (
                      Runs-pure tt _
                        (left-Taken user tab m s (after_left m s) sound has at refl)))))))
            (λ _ _ h. absurd h)))

  tabs-Reached :
      (user : ℕ) (tabs : List ℕ) (s : Store)
      → Sound s
      → Runs
          (λ _ t. Reached (λ u v. u == user && any (λ k. k == v) tabs) s t)
          (λ _ _. ⊥)
          (for_each
            (λ tab. check_user_in_tab prisma user tab >>= λ member. unassign prisma member)
            tabs
            s)
  tabs-Reached user [] s sound = Runs-for_each-nil _ s (sound, λ u v. ground arith)
  tabs-Reached user (tab ∷ tabs) s sound = Runs-for_each-cons _ tab tabs s (
      Runs-mono (unassign-Reached user tab s sound)
        (λ _ t h.
          Runs-mono (tabs-Reached user tabs t h.0)
            (λ _ v k. (
              k.0,
              Taken-then (this user tab) (λ u v. u == user && any (λ k. k == v) tabs)
                  (λ u v. u == user && any (λ k. k == v) (tab ∷ tabs)) s t v h.1 k.1
                  (λ u w. ground (arith, ==_iff w tab, ==_iff tab w)),
            ))
            (λ _ _ k. k))
        (λ _ _ h. h))

  users-Reached :
      (tabs users : List ℕ) (s : Store)
      → Sound s
      → Runs
          (λ _ t. Reached (λ u v. any (λ k. k == u) users && any (λ k. k == v) tabs) s t)
          (λ _ _. ⊥)
          (for_each
            (λ user.
              for_each
                (λ tab. check_user_in_tab prisma user tab >>= λ member. unassign prisma member)
                tabs)
            users
            s)
  users-Reached tabs [] s sound = Runs-for_each-nil _ s (sound, λ u v. refl)
  users-Reached tabs (user ∷ users) s sound = Runs-for_each-cons _ user users s (
      Runs-mono (tabs-Reached user tabs s sound)
        (λ _ t h.
          Runs-mono (users-Reached tabs users t h.0)
            (λ _ v k. (
              k.0,
              Taken-then (λ u v. u == user && any (λ k. k == v) tabs)
                  (λ u v. any (λ k. k == u) users && any (λ k. k == v) tabs)
                  (λ u v. any (λ k. k == u) (user ∷ users) && any (λ k. k == v) tabs) s t v h.1 k.1
                  (λ u w. ground (arith, ==_iff u user, ==_iff user u)),
            ))
            (λ _ _ k. k))
        (λ _ _ h. h))

  -- Where identifiers are unique, a user has at most one live membership in a tab and the
  -- database's calls on the memberships do not fail, taking users off tabs leaves no user of the
  -- request a member of a tab of the request and each other pair of a user and a tab with the
  -- memberships that it had; where the request throws nothing has changed.
  pub unassign_users-Taken :
      (dto : AssignUserDto) (s : Store)
      → UniqueMemberships s
      → Once s
      → Runs
          (λ _ t. Taken (listed dto) s t)
          (λ _ t. t ≡ record s { calls = t.calls })
          (unassign_users prisma dto s)
  unfolding unassign_users get_user_by_id get_social_tab_by_id
  unassign_users-Taken dto s ids once =
      Runs-then _ _ s
        (load-keeps (OnlyRead s) _ dto.users s
          (λ k u i. Runs-any_first (user_model prisma) u _ (λ _. ap tick i) (λ _. ap tick i)) refl)
        λ users u i.
          Runs-then _ _ u
            (load-keeps (OnlyRead s) _ dto.tabs u
              (λ k u i.
                Runs-any_first (social_tab_model prisma) u _ (λ _. ap tick i) (λ _. ap tick i))
              i)
            λ tabs v j.
              let same : v.users_in_tab ≡ s.users_in_tab = ap (λ (x : Store). x.users_in_tab) j in
              Runs-mono
                (users-Reached dto.tabs dto.users v
                  ((λ k. rw same (ids k)), (λ user tab. rw same (once user tab))))
                (λ _ t h user tab. rw (h.1 user tab, same) refl) (λ _ _ h. absurd h)
