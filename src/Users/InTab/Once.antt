-- ===== src/Users/InTab/Once.antt =====
-- Assigning users to tabs never makes a second live membership.
use social_listening_backend.Exec.{pure, ◌>>◌, ◌>>=◌, non_null, Exec}
use mathlib.Core.List.{append-nil, append_assoc}
use social_listening_backend.Store.Rules.{Runs-find_first, Runs-any_first, Runs-create}
use social_listening_backend.Lists.Count.{find-eq-none, count-zero, count-append}
use social_listening_backend.Exec.Runs.{
  Runs-for_each, Runs-try_catch, Runs-non_null, Runs-pure, Runs-modify, Runs-then, Runs-bind, Runs,
}
use social_listening_backend.Social.Lookups.{
  get_role_by_role_name, get_user_by_id, get_social_tab_by_id,
}
use social_listening_backend.Schema.{Role, SocialTab, User, SocialTabLog, UserInTab}
use social_listening_backend.Users.InTab.{
  loaded, added_log, AssignUserDto, assign_new, assign_users, load, check_user_in_tab, assign,
  membership, is_member, add_user_to_tab, save_social_log,
}
use social_listening_backend.Lists.{find, count}
use social_listening_backend.Base.{
  suc, sym, Option, inr, arith, inl, Bool-cases, [], ◌∷◌, none, ◌≤◌, ◌++◌, ◌≡◌, List, ℕ,
}
use social_listening_backend.Store.{
  tick, user_in_tab_model, social_tab_model, role_model, user_model, social_tab_log_model, Client,
  Store,
}

-- Each user has at most one live membership in each tab.
abbrev pub Once : Store → Type 0
Once t = (user tab : ℕ) → count (is_member user tab) t.users_in_tab ≤ 1

-- The memberships of the first state are all there, in front of new ones.
abbrev pub Extends : Store → Store → Type 0
Extends s t = (added : List UserInTab) × (t.users_in_tab ≡ s.users_in_tab ++ added)

Once-membership :
    (user tab role k : ℕ) (s : Store)
    → Once s
    → find (is_member user tab) s.users_in_tab ≡ none
    → (u t : ℕ) → count (is_member u t) (s.users_in_tab ++ membership user tab role k ∷ []) ≤ 1
Once-membership user tab role k s once free u t =
    rw (count-append (is_member u t) s.users_in_tab (membership user tab role k ∷ []))
      (elim (Bool-cases (is_member u t (membership user tab role k))) [
        | inl new ↦
            let eu : user ≡ u = ground arith in
            let et : tab ≡ t = ground arith in
            rw new (
              rw (← eu, ← et)
                (omega (
                  arith,
                  count-zero (is_member user tab) s.users_in_tab
                      (find-eq-none (is_member user tab) s.users_in_tab free),
                )))
        | inr old ↦ rw old (omega (arith, once u t))
      ])

module _ (prisma : Client) (s : Store) where
  abbrev Kept : Store → Type 0
  Kept t = Once t × Extends s t

  log-Kept :
      (log : ℕ → SocialTabLog) (t : Store)
      → Kept t
      → Runs (λ _ u. Kept u) (λ _ u. Kept u) (save_social_log prisma log t)
  unfolding save_social_log
  log-Kept log t h =
      Runs-bind _ _ t
        (Runs-create (social_tab_log_model prisma) t log (λ _ _. Runs-modify _ _ _ h) (λ _. h))

  Extends-more :
      (t : Store) (u : UserInTab)
      → Extends s t
      → (added : List UserInTab) × (t.users_in_tab ++ u ∷ [] ≡ s.users_in_tab ++ added)
  Extends-more t u (added, e) = (added ++ u ∷ [], rw e (append_assoc s.users_in_tab added (u ∷ [])))

  add-Kept :
      (user tab role : ℕ) (t : Store)
      → Kept t
      → find (is_member user tab) t.users_in_tab ≡ none
      → Runs (λ _ u. Kept u) (λ _ u. Kept u) (add_user_to_tab prisma user tab role t)
  unfolding add_user_to_tab get_social_tab_by_id get_user_by_id
  add-Kept user tab role t h free = Runs-bind _ _ t (
      Runs-any_first (social_tab_model prisma) t _
        (λ found_tab. Runs-bind _ _ _ (
          Runs-any_first (user_model prisma) _ _
            (λ found_user. Runs-bind _ _ _ (
              Runs-create (user_in_tab_model prisma) _ _ (λ k _. logged found_user found_tab k)
                (λ _. h)))
            (λ _. h)))
        (λ _. h))
    where
      grown :
          (k : ℕ)
          → Kept (record t { users_in_tab = t.users_in_tab ++ membership user tab role k ∷ [] })
      grown k = (
        Once-membership user tab role k t h.0 free,
        Extends-more t (membership user tab role k) h.1,
      )

      logged :
          (found_user : Option User) (found_tab : Option SocialTab) (k : ℕ)
          → Runs
              (λ _ u. Kept u)
              (λ _ u. Kept u)
              ((non_null found_user >>= λ u. non_null found_tab >>= λ v.
                  save_social_log prisma (added_log tab u v) >> pure (membership user tab role k))
                (record t {
                  calls = suc (suc (suc t.calls));
                  users_in_tab = t.users_in_tab ++ membership user tab role k ∷ [];
                }))
      logged found_user found_tab k = Runs-bind _ _ _ (
          Runs-non_null found_user _
            (λ u _. Runs-bind _ _ _ (
              Runs-non_null found_tab _
                (λ v _.
                  Runs-then _ _ _ (log-Kept (added_log tab u v) _ (grown k))
                    (λ _ w i. Runs-pure _ w i))
                (λ _. grown k)))
            (λ _. grown k))

  assign-Kept :
      (users : List (ℕ × Option User)) (tabs : List (ℕ × Option SocialTab)) (role : Option Role)
      (user tab : ℕ) (t : Store)
      → Kept t
      → find (is_member user tab) t.users_in_tab ≡ none
      → Runs (λ _ u. Kept u) (λ _ u. Kept u) (assign prisma users tabs role user tab t)
  unfolding assign
  assign-Kept users tabs role user tab t h free = Runs-bind _ _ t (
      Runs-non_null role t
        (λ r _. Runs-then _ _ t (add-Kept user tab r.id t h free) λ _ u i. Runs-bind _ _ u (
          Runs-non_null (loaded user users) u
            (λ a _. Runs-bind _ _ u (
              Runs-non_null (loaded tab tabs) u (λ b _. log-Kept (added_log tab a b) u i) (λ _. i)))
            (λ _. i)))
        (λ _. h))

  round-Kept :
      (users : List (ℕ × Option User)) (tabs : List (ℕ × Option SocialTab)) (role : Option Role)
      (user tab : ℕ) (t : Store)
      → Kept t
      → Runs
          (λ _ u. Kept u)
          (λ _ u. Kept u)
          ((check_user_in_tab prisma user tab >>= λ member.
              assign_new prisma users tabs role user tab member)
            t)
  unfolding check_user_in_tab assign_new
  round-Kept users tabs role user tab t h = Runs-bind _ _ t (
      Runs-find_first (user_in_tab_model prisma) t _
        (λ free.
          Runs-try_catch _ _ _ (assign-Kept users tabs role user tab (tick t) h free)
            (λ _ u i. Runs-pure tt u i))
        (λ m _ _. Runs-pure tt _ h) (λ _. h))

pub load-keeps :
    {A : Type 0} (I : Store → Type 0) (get : ℕ → Exec Store (Option A)) (ks : List ℕ) (t : Store)
    → ((k : ℕ) (u : Store) → I u → Runs (λ _ v. I v) (λ _ v. I v) (get k u))
    → I t
    → Runs (λ _ u. I u) (λ _ u. I u) (load get ks t)
unfolding load
load-keeps I get [] t step h = Runs-pure [] t h
load-keeps I get (k ∷ ks) t step h =
    Runs-then _ _ t (step k t h)
      λ a u i. Runs-then _ _ u (load-keeps I get ks u step i) λ rest v j. Runs-pure _ v j

-- Assigning users to tabs keeps every membership that there was, and leaves each user at most one
-- live membership in a tab if that was so before, whether the request returns or throws.
pub assign_users-Once :
    (prisma : Client) (dto : AssignUserDto) (s : Store)
    → Once s
    → Runs (λ _ t. Once t × Extends s t) (λ _ t. Once t × Extends s t) (assign_users prisma dto s)
unfolding assign_users get_role_by_role_name get_user_by_id get_social_tab_by_id
assign_users-Once prisma dto s once =
    Runs-then _ _ s (Runs-any_first (role_model prisma) s _ (λ _. start) (λ _. start)) λ role t h.
      Runs-then _ _ t
        (load-keeps (Kept prisma s) _ dto.users t
          (λ k u i. Runs-any_first (user_model prisma) u _ (λ _. i) (λ _. i)) h)
        λ users u i.
          Runs-then _ _ u
            (load-keeps (Kept prisma s) _ dto.tabs u
              (λ k u i. Runs-any_first (social_tab_model prisma) u _ (λ _. i) (λ _. i)) i)
            λ tabs v j.
              Runs-for_each _ dto.users v
                (λ user w k.
                  Runs-for_each _ dto.tabs w
                    (λ tab x l. round-Kept prisma s users tabs role user tab x l) k)
                j
  where
    start : Kept prisma s s
    start = (once, ([], sym (append-nil s.users_in_tab)))
