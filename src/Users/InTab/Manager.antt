-- ===== src/Users/InTab/Manager.antt =====
-- A tab keeps at most one manager when roles are given out.
mod Rows
use social_listening_backend.Users.InTab.Manager.Rows.{
  ids-set_role, managers-other, managers-demoted, managers-elsewhere,
}
use social_listening_backend.Exec.{◌>>◌, non_null, ◌>>=◌}
use social_listening_backend.Store.Rules.{Runs-any_first, Runs-find_first, Runs-update, Runs-create}
use social_listening_backend.Social.Lookups.{get_user_by_id}
use social_listening_backend.Exec.Runs.{
  Runs-non_null, Runs-non_null-none, Runs-if, Runs-mono, Runs-pure, Runs-non_null-some, Runs-modify,
  Runs-bind, Runs,
}
use social_listening_backend.Lists.Count.{
  find-eq-none, Has-update_where, unique_of_count, All-map, All-mono, count-zero,
  count-update_where, All-of_All, count_mono, count-map,
}
use social_listening_backend.Lists.{find, update_where, Has, count}
use social_listening_backend.Schema.{SocialTabLog, Role, UserInTab}
use social_listening_backend.Store.{
  user_model, update, user_in_tab_model, social_tab_log_model, find_first, tick, Store, Client,
}
use social_listening_backend.Users.InTab.{
  role_log, get_manager_of_tab, update_role_user, demote, save_social_log, set_role, is_member,
  has_role_in, InitRoles, UpdateRoleUserDto,
}
use social_listening_backend.Base.{
  some, none, refl, inr, ==_iff, ap, inl, false, Bool-cases, arith, if◌then◌else◌, true, ◌≤◌, ◌≡◌,
  ◌==◌, ◌≢◌, List, ℕ,
}

-- Each tab has at most one live membership with the manager's role, and no identifier stands twice.
pub record OneManager (manager : ℕ) (rows : List UserInTab) : Type 0 where
  pub managers : (tab : ℕ) → count (has_role_in tab manager) rows ≤ 1
  pub ids : (k : ℕ) → count (λ u. u.id == k) rows ≤ 1

-- The service after `initRole` has found both roles.
abbrev pub both_roles : Role → Role → InitRoles
both_roles manager supporter = record {
  manager_role = some manager;
  supporter_role = some supporter;
}

-- The user has a live membership in the tab with the role.
abbrev pub HasRole : UpdateRoleUserDto → List UserInTab → Type 0
HasRole dto rows =
    (u : UserInTab) × Has u rows
    × (is_member dto.user_id dto.tab_id u ≡ true)
    × (u.role_id ≡ dto.role_id)

module _ (prisma : Client) (manager supporter : Role) (differ : supporter.id ≢ manager.id)
    (dto : UpdateRoleUserDto) where
  -- Ready for the new role: no manager is left where a manager is to be made.
  abbrev Ready : List UserInTab → Type 0
  Ready rows =
      OneManager manager.id rows
      × (dto.role_id ≡ manager.id → count (has_role_in dto.tab_id manager.id) rows ≡ 0)

  demoted-Ready :
      (m : UserInTab) (rows : List UserInTab)
      → OneManager manager.id rows
      → Has m rows
      → has_role_in dto.tab_id manager.id m ≡ true
      → Ready (update_where (λ u. u.id == m.id) (set_role supporter.id) rows)
  demoted-Ready m rows h has at = (
    record {
      managers = λ tab.
          omega
            (arith, h.managers tab, managers-other manager.id m.id supporter.id rows tab differ);
      ids = λ k. ids-set_role m.id supporter.id rows k (h.ids k);
    },
    λ _.
        managers-demoted manager.id supporter.id dto.tab_id m rows differ has at
          (h.managers dto.tab_id),
  )

  promoted-OneManager :
      (m : UserInTab) (rows : List UserInTab)
      → Ready rows
      → Has m rows
      → m.tab_id ≡ dto.tab_id
      → OneManager manager.id (update_where (λ u. u.id == m.id) (set_role dto.role_id) rows)
  promoted-OneManager m rows h has at = record {
    managers = λ tab. elim (Bool-cases (dto.role_id == manager.id)) [
      | inl same ↦ elim (Bool-cases (tab == dto.tab_id)) [
        | inl here ↦ rw ((==_iff tab dto.tab_id).0 here) (
            omega (
              arith,
              h.1 ((==_iff dto.role_id manager.id).0 same),
              h.0.ids m.id,
              count-update_where (has_role_in dto.tab_id manager.id) (λ u. u.id == m.id)
                  (set_role dto.role_id) rows,
            ))
        | inr there ↦ omega (
          arith,
          h.0.managers tab,
          managers-elsewhere manager.id dto.role_id dto.tab_id tab m rows (ground arith) has at
              (h.0.ids m.id),
        )
      ]
      | inr other ↦ omega (
        arith,
        h.0.managers tab,
        managers-other manager.id m.id dto.role_id rows tab (ground arith),
      )
    ];
    ids = λ k. ids-set_role m.id dto.role_id rows k (h.0.ids k);
  }

  log-keeps :
      (P : List UserInTab → Type 0) (log : ℕ → SocialTabLog) (t : Store)
      → P t.users_in_tab
      → Runs (λ _ u. P u.users_in_tab) (λ _ u. P u.users_in_tab) (save_social_log prisma log t)
  unfolding save_social_log
  log-keeps P log t h =
      Runs-bind _ _ t
        (Runs-create (social_tab_log_model prisma) t log (λ _ _. Runs-modify _ _ _ h) (λ _. h))

  demote-none-Ready :
      (t : Store)
      → OneManager manager.id t.users_in_tab
      → find (has_role_in dto.tab_id manager.id) t.users_in_tab ≡ none
      → Runs
          (λ _ u. Ready u.users_in_tab)
          (λ _ u. OneManager manager.id u.users_in_tab)
          (demote prisma (both_roles manager supporter) dto.tab_id none t)
  unfolding demote
  demote-none-Ready t h free = Runs-pure tt t (
    h,
    λ _.
        count-zero _ t.users_in_tab
          (find-eq-none (has_role_in dto.tab_id manager.id) t.users_in_tab free),
  )

  demote-some-Ready :
      (m : UserInTab) (t : Store)
      → OneManager manager.id t.users_in_tab
      → Has m t.users_in_tab
      → has_role_in dto.tab_id manager.id m ≡ true
      → Runs
          (λ _ u. Ready u.users_in_tab)
          (λ _ u. OneManager manager.id u.users_in_tab)
          (demote prisma (both_roles manager supporter) dto.tab_id (some m) t)
  unfolding demote get_user_by_id
  demote-some-Ready m t h has at = Runs-bind _ _ t (
      Runs-non_null-some supporter t (
        Runs-bind _ _ t (
          Runs-update (user_in_tab_model prisma) t m.id (set_role supporter.id)
            (λ _ _ _. Runs-bind _ _ _ (
              Runs-any_first (user_model prisma) _ _
                (λ found. Runs-bind _ _ _ (
                  Runs-non_null found _
                    (λ user _.
                      Runs-mono (log-keeps Ready (role_log dto.tab_id user supporter) _ ready)
                        (λ _ _ i. i) (λ _ _ i. i.0))
                    (λ _. ready.0)))
                (λ _. ready.0)))
            (λ _. h))))
    where
      ready : Ready (update_where (λ u. u.id == m.id) (set_role supporter.id) t.users_in_tab)
      ready = demoted-Ready m t.users_in_tab h has at

  given :
      (m : UserInTab) (rows : List UserInTab)
      → Has m rows
      → is_member dto.user_id dto.tab_id m ≡ true
      → HasRole dto (update_where (λ u. u.id == m.id) (set_role dto.role_id) rows)
  given m rows has at = (
    set_role dto.role_id m,
    Has-update_where (λ u. u.id == m.id) (set_role dto.role_id) m rows has (ground arith),
    at,
    refl,
  )

  -- After the role of the manager is free, the user gets the new role.
  give-HasRole :
      (t : Store)
      → Ready t.users_in_tab
      → Runs
          (λ _ u. OneManager manager.id u.users_in_tab × HasRole dto u.users_in_tab)
          (λ _ u. OneManager manager.id u.users_in_tab)
          ((find_first (user_in_tab_model prisma) (is_member dto.user_id dto.tab_id) >>= λ found.
              non_null found >>= λ member.
              update (user_in_tab_model prisma) member.id (set_role dto.role_id)
              >> (get_user_by_id prisma member.user_id >>= λ found_user.
                  non_null found_user >>= λ user.
                  save_social_log prisma (role_log dto.tab_id user manager)))
            t)
  unfolding get_user_by_id
  give-HasRole t h = Runs-bind _ _ t (
      Runs-find_first (user_in_tab_model prisma) t _
        (λ _. Runs-bind _ _ _ (Runs-non_null-none _ h.0))
        (λ m has at. Runs-bind _ _ _ (
          Runs-non_null-some m _ (
            Runs-bind _ _ _ (
              Runs-update (user_in_tab_model prisma) _ m.id (set_role dto.role_id)
                (λ _ _ _.
                  let one = promoted-OneManager m t.users_in_tab h has (ground arith) in
                  let role = given m t.users_in_tab has at in
                  Runs-bind _ _ _ (
                    Runs-any_first (user_model prisma) _ _
                      (λ found. Runs-bind _ _ _ (
                        Runs-non_null found _
                          (λ user _.
                            Runs-mono
                              (log-keeps (λ rows. OneManager manager.id rows × HasRole dto rows)
                                (role_log dto.tab_id user manager) _ (one, role))
                              (λ _ _ i. i) (λ _ _ i. i.0))
                          (λ _. one)))
                      (λ _. one)))
                (λ _. h.0)))))
        (λ _. h.0))

  -- Changing a role in a tab keeps at most one manager in each tab, whether the request returns or
  -- throws, if the two roles that the service has loaded differ; when it returns, the user has a
  -- live membership in the tab with the new role.
  pub update_role_user-OneManager :
      (s : Store)
      → OneManager manager.id s.users_in_tab
      → Runs
          (λ _ t. OneManager manager.id t.users_in_tab × HasRole dto t.users_in_tab)
          (λ _ t. OneManager manager.id t.users_in_tab)
          (update_role_user prisma (both_roles manager supporter) dto s)
  unfolding update_role_user get_manager_of_tab
  update_role_user-OneManager s h = Runs-bind _ _ s (
      Runs-non_null-some manager s (
        Runs-bind _ _ s (
          Runs-mono
            (Runs-if (dto.role_id == manager.id) _ _ s
              (λ same. Runs-bind _ _ s (
                Runs-find_first (user_in_tab_model prisma) s _
                  (λ free. demote-none-Ready (tick s) h free)
                  (λ m has at. demote-some-Ready m (tick s) h has at) (λ _. h)))
              (λ other. Runs-pure tt s (h, λ e. absurd (ground arith))))
            (λ _ t ready. give-HasRole t ready) (λ _ _ i. i))))
