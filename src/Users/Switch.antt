-- ===== src/Users/Switch.antt =====
-- Activating and deactivating a member of the own group.
use social_listening_backend.Store.Rules.{Runs-any_first, Runs-update, Runs-find_first}
use social_listening_backend.Reply.Rules.{
  Runs-or_throw, Runs-throw_if, Runs-or_throw-some, Runs-or_throw-none, Runs-replying,
}
use social_listening_backend.Exec.Runs.{
  Runs-pure, Runs-mono, Runs-non_null-some, Runs-non_null-none, Runs-bind, Runs,
}
use social_listening_backend.Lists.{update_where, Has}
use social_listening_backend.Reply.{message, result, Reply}
use social_listening_backend.Schema.Accounts.{UserInGroup, SocialGroup}
use social_listening_backend.Social.Lookups.{get_user_by_id}
use social_listening_backend.Users.Groups.{
  set_member_active, in_group, get_social_group_by_manager_id, get_user_with_group,
  set_active_account,
}
use social_listening_backend.Users.Requests.{on_set_active, Requester}
use social_listening_backend.Store.{
  social_group_model, user_model, user_in_group_model, Store, Client,
}
use social_listening_backend.Base.{arith, refl, ==_iff, ◌==◌, true, ◌≢◌, ◌≡◌, ℕ, Bool}

-- A membership of the user in the group of the requester, who is another user, is switched.
abbrev pub Switched : Bool → Requester → ℕ → Store → Reply Bool → Store → Type 0
Switched active user id s (result b) t =
    (g : SocialGroup) × (m : UserInGroup) × Has g s.social_groups
    × (g.manager_id ≡ user.id)
    × (user.id ≢ id)
    × Has m s.users_in_group
    × (in_group id g.id m ≡ true)
    × (t ≡ record s {
      calls = t.calls;
      users_in_group = update_where (λ u. u.id == m.id) (set_member_active active) s.users_in_group;
    })
Switched active user id s (message e) t = t ≡ record s { calls = t.calls }

module _ (prisma : Client) (active : Bool) where
  switch-rest :
      (user : Requester) (id : ℕ) (g : SocialGroup) (s : Store) (n : ℕ)
      → Has g s.social_groups
      → g.manager_id ≡ user.id
      → user.id ≢ id
      → Runs
          (λ _ t. Switched active user id s (result true) t)
          (λ _ t. t ≡ record s { calls = t.calls })
          (set_active_account prisma active id g.id (record s { calls = n }))
  unfolding set_active_account get_user_with_group
  switch-rest user id g s n has own other = Runs-bind _ _ _ (
      Runs-find_first (user_in_group_model prisma) _ (in_group id g.id)
        (λ _. Runs-bind _ _ _ (Runs-non_null-none _ refl))
        (λ m has_m at_m. Runs-bind _ _ _ (
          Runs-non_null-some m _ (
            Runs-update (user_in_group_model prisma) _ m.id (set_member_active active)
              (λ _ _ _. (g, m, has, own, other, has_m, at_m, refl)) (λ _. refl))))
        (λ _. refl))

  -- The request to activate or deactivate an account answers with a result only to the manager of a
  -- group and for another user; then a membership of that user in the group, one that has not ended,
  -- is switched and nothing else has changed. With a message nothing has changed.
  pub on_set_active-Switched :
      (user : Requester) (id : ℕ) (s : Store)
      → Runs (Switched active user id s) (λ _ _. ⊥) (on_set_active prisma active user id s)
  unfolding on_set_active get_user_by_id get_social_group_by_manager_id get_user_with_group
  on_set_active-Switched user id s = Runs-replying _ s (
      Runs-bind _ _ s (
        Runs-find_first (user_model prisma) s (λ u. u.id == id)
          (λ _. Runs-bind _ _ _ (Runs-or_throw-none _ _ refl))
          (λ employee _ at.
            let e : employee.id ≡ id = (==_iff employee.id id).0 at in
            Runs-bind _ _ _ (
              Runs-or_throw-some _ _ employee (
                Runs-bind _ _ _ (
                  Runs-find_first (social_group_model prisma) _ (λ g. g.manager_id == user.id)
                    (λ _. Runs-bind _ _ _ (Runs-non_null-none _ refl))
                    (λ g has own. Runs-bind _ _ _ (
                      Runs-non_null-some g _ (
                        Runs-bind _ _ _ (
                          Runs-throw_if (g.manager_id == employee.id) _ _ (λ _. refl)
                            (λ other. Runs-bind _ _ _ (
                              Runs-any_first (user_in_group_model prisma) _ _
                                (λ member. Runs-bind _ _ _ (
                                  Runs-or_throw _ member _
                                    (λ _ _. Runs-bind _ _ _ (
                                      rw e (
                                        Runs-mono
                                          (switch-rest user id g s _ has
                                            ((==_iff g.manager_id user.id).0 own)
                                            (λ same. ground arith))
                                          (λ _ t h. Runs-pure true t h) (λ _ _ h. h))))
                                    (λ _. refl)))
                                (λ _. refl)))))))
                    (λ _. refl)))))
          (λ _. refl)))
