-- ===== src/Social/Tabs/Working.antt =====
-- Starting and stopping a tab.
use social_listening_backend.Store.Rules.{Runs-find_first, Runs-update}
use social_listening_backend.Lists.{update_where, Has}
use social_listening_backend.Reply.Rules.{
  Runs-throw_if, Runs-or_throw-some, Runs-or_throw-none, Runs-replying,
}
use social_listening_backend.Exec.{Error}
use social_listening_backend.Exec.Runs.{Runs-pure, Runs-bind, Runs}
use social_listening_backend.Schema.{SocialTab}
use social_listening_backend.Social.Lookups.{get_social_tab_by_id}
use social_listening_backend.Reply.{message, result, Reply}
use social_listening_backend.Social.Tabs.{
  set_worked, update_working_state_by_id, on_update_working_state, live_tab,
}
use social_listening_backend.Store.{tick, social_tab_model, Store, Client}
use social_listening_backend.Base.{ap, Bool, true, ==_iff, refl, not, ◌==◌, false, ◌≡◌, ℕ}

-- A live tab has been switched, and no other one; the answer is a row of the identifier, with the
-- tab's isWorked of before.
abbrev pub Toggled : ℕ → Store → Reply SocialTab → Store → Type 0
Toggled id s (result r) t =
    (tab : SocialTab) × Has tab s.social_tabs
    × (tab.id ≡ id)
    × (tab.deleted ≡ false)
    × ((row : SocialTab) × Has row s.social_tabs
        × (row.id ≡ id)
        × (r ≡ set_worked tab.is_worked row))
    × (t ≡ record s {
      calls = t.calls;
      social_tabs = update_where (λ y. y.id == id) (set_worked (not tab.is_worked)) s.social_tabs;
    })
Toggled id s (message e) t = t ≡ record s { calls = t.calls }

not-not : (b : Bool) → not (not b) ≡ b
not-not true = refl
not-not false = refl

answered-before :
    (tab row : SocialTab) → set_worked (not (not tab.is_worked)) row ≡ set_worked tab.is_worked row
answered-before tab row = ap (λ b. set_worked b row) (not-not tab.is_worked)

module _ (prisma : Client) where
  Runs-live_tab :
      {Q : SocialTab → Store → Type 0} {E : Error → Store → Type 0} (id : ℕ) (s : Store)
      → ((tab : SocialTab)
          → Has tab s.social_tabs
          → (tab.id ≡ id) × (tab.deleted ≡ false)
          → Q tab (tick s))
      → ((e : Error) → E e (tick s))
      → Runs Q E (live_tab prisma id s)
  unfolding live_tab get_social_tab_by_id
  Runs-live_tab id s h fails = Runs-bind _ _ s (
      Runs-find_first (social_tab_model prisma) s (λ t. t.id == id)
        (λ _. Runs-bind _ _ _ (Runs-or_throw-none _ _ (fails _)))
        (λ tab has at. Runs-bind _ _ _ (
          Runs-or_throw-some _ _ tab (
            Runs-bind _ _ _ (
              Runs-throw_if _ _ _ (λ _. fails _)
                (λ live. Runs-pure tab _ (h tab has ((==_iff tab.id id).0 at, live)))))))
        (λ e. fails e))

  -- The request to switch the work of a tab answers with a result only for a tab that is not
  -- removed; then the stored isWorked of the tab is the negation of what it was, no other tab and
  -- nothing else has changed, and the answer is a row of the identifier with the isWorked from
  -- before, the opposite of what is stored. With a message nothing has changed.
  pub on_update_working_state-Toggled :
      (id : ℕ) (s : Store) → Runs (Toggled id s) (λ _ _. ⊥) (on_update_working_state prisma id s)
  unfolding on_update_working_state update_working_state_by_id
  on_update_working_state-Toggled id s = Runs-replying _ s (
      Runs-bind _ _ s (
        Runs-live_tab id s
          (λ tab has (at, live). Runs-bind _ _ _ (
            Runs-update (social_tab_model prisma) _ id (set_worked (not tab.is_worked))
              (λ row row_has row_at.
                Runs-pure _ _
                  (tab, has, at, live, (row, row_has, row_at, answered-before tab row), refl))
              (λ _. refl)))
          (λ _. refl)))
