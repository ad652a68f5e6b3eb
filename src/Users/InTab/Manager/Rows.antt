-- ===== src/Users/InTab/Manager/Rows.antt =====
-- How a change of one member's role changes the number of managers in the rows of memberships.
use social_listening_backend.Lists.Count.{
  unique_of_count, All-map, All-mono, count-zero, All-of_All, count_mono, count-map,
}
use social_listening_backend.Lists.{update_where, Has, count}
use social_listening_backend.Schema.{UserInTab}
use social_listening_backend.Users.InTab.{set_role, has_role_in}
use social_listening_backend.Base.{
  inr, ap, inl, false, Bool-cases, arith, if◌then◌else◌, true, ◌≤◌, ◌≡◌, ◌==◌, ◌≢◌, List, ℕ,
}

pub ids-set_role :
    (id role : ℕ) (rows : List UserInTab) (k : ℕ)
    → count (λ u. u.id == k) rows ≤ 1
    → count (λ u. u.id == k) (update_where (λ u. u.id == id) (set_role role) rows) ≤ 1
ids-set_role id role rows k h =
    rw
      (count-map (λ (u : UserInTab). u.id == k) (λ u. if u.id == id then set_role role u else u)
        rows)
      (omega (
        arith,
        h,
        count_mono (λ (u : UserInTab). (if u.id == id then set_role role u else u).id == k)
            (λ u. u.id == k) rows (All-of_All _ rows (λ u e. ground arith)),
      ))

-- A role that is not the manager's makes no new manager.
pub managers-other :
    (manager id role : ℕ) (rows : List UserInTab) (tab : ℕ)
    → role ≢ manager
    → count (has_role_in tab manager) (update_where (λ u. u.id == id) (set_role role) rows)
      ≤ count (has_role_in tab manager) rows
managers-other manager id role rows tab ne =
    rw (count-map (has_role_in tab manager) (λ u. if u.id == id then set_role role u else u) rows) (
      count_mono (λ u. has_role_in tab manager (if u.id == id then set_role role u else u))
        (has_role_in tab manager) rows (All-of_All _ rows (λ u e. ground arith)))

-- The one manager of a tab that becomes something else leaves the tab without a manager.
pub managers-demoted :
    (manager role tab : ℕ) (m : UserInTab) (rows : List UserInTab)
    → role ≢ manager
    → Has m rows
    → has_role_in tab manager m ≡ true
    → count (has_role_in tab manager) rows ≤ 1
    → count (has_role_in tab manager) (update_where (λ u. u.id == m.id) (set_role role) rows) ≡ 0
managers-demoted manager role tab m rows ne has at one = count-zero (has_role_in tab manager) _ (
    All-map (λ u. has_role_in tab manager u ≡ false)
      (λ u. if u.id == m.id then set_role role u else u) rows
      (All-mono _ _ rows off (unique_of_count (has_role_in tab manager) m rows has at one)))
  where
    off :
        (u : UserInTab)
        → (has_role_in tab manager u ≡ true → u ≡ m)
        → has_role_in tab manager (if u.id == m.id then set_role role u else u) ≡ false
    off u one = elim (Bool-cases (has_role_in tab manager u)) [
      | inl w ↦ ground (arith, ap (λ (y : UserInTab). y.id) (one w))
      | inr o ↦ ground arith
    ]

-- A member of one tab that becomes manager changes nothing for another tab.
pub managers-elsewhere :
    (manager role tab other : ℕ) (m : UserInTab) (rows : List UserInTab)
    → other ≢ tab
    → Has m rows
    → m.tab_id ≡ tab
    → count (λ u. u.id == m.id) rows ≤ 1
    → count (has_role_in other manager) (update_where (λ u. u.id == m.id) (set_role role) rows)
      ≤ count (has_role_in other manager) rows
managers-elsewhere manager role tab other m rows ne has at one =
    rw
      (count-map (has_role_in other manager) (λ u. if u.id == m.id then set_role role u else u)
        rows)
      (count_mono (λ u. has_role_in other manager (if u.id == m.id then set_role role u else u))
        (has_role_in other manager) rows
        (All-mono _ _ rows same
          (unique_of_count (λ u. u.id == m.id) m rows has (ground arith) one)))
  where
    same :
        (u : UserInTab)
        → ((u.id == m.id) ≡ true → u ≡ m)
        → has_role_in other manager (if u.id == m.id then set_role role u else u) ≡ true
        → has_role_in other manager u ≡ true
    same u one e = elim (Bool-cases (u.id == m.id)) [
      | inl w ↦ absurd (ground (arith, ap (λ (y : UserInTab). y.tab_id) (one w)))
      | inr o ↦ ground arith
    ]
