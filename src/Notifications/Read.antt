-- ===== src/Notifications/Read.antt =====
-- Reading all notifications of a user.
use social_listening_backend.Lists.Count.{
  unique_of_count, All-mono, All-of_Has, count-zero, update_where-ext, count-pos_of_Has,
  count-keep-and, any-count,
}
use social_listening_backend.Store.Rules.{Runs-update_many, Runs-find_many}
use social_listening_backend.Async.Rules.{Runs-technical}
use social_listening_backend.Async.{technical_issue}
use social_listening_backend.Exec.Runs.{Runs-pure, Runs-bind, Runs}
use social_listening_backend.Lists.{any, Has, keep, count, update_where}
use social_listening_backend.Notifications.{clicked, read_all_notification}
use social_listening_backend.Schema.Accounts.{Notification}
use social_listening_backend.Store.{notification_model, Store, Client}
use social_listening_backend.Base.{
  false, refl, ◌&&◌, true, arith, Bool-cases, ◌≤◌, ◌≡◌, ◌==◌, Bool, List, ℕ, inl, inr,
}

-- Every notification of the user is clicked, and the others stay as they are.
abbrev pub all_read : ℕ → List Notification → List Notification
all_read user = update_where (λ n. n.user_id == user) clicked

abbrev pub UniqueIds : List Notification → Type 0
UniqueIds t = (k : ℕ) → count (λ (n : Notification). n.id == k) t ≤ 1

-- A row is among those that were found by their user exactly if its user is that user.
found-user :
    (user : ℕ) (t found : List Notification) (n : Notification)
    → UniqueIds t
    → ((q : Notification → Bool) → count q found ≡ count q (keep (λ m. m.user_id == user) t))
    → Has n t
    → any (λ (x : Notification). x.id == n.id) found ≡ (n.user_id == user)
found-user user t found n unique same has = elim (Bool-cases (n.user_id == user)) [
  | inl own ↦ rw own (
      ground (
        arith,
        any-count (λ (x : Notification). x.id == n.id) found,
        same (λ x. x.id == n.id),
        count-keep-and (λ (x : Notification). x.id == n.id) (λ m. m.user_id == user) t,
        count-pos_of_Has (λ (x : Notification). x.id == n.id && x.user_id == user) n t has
            (ground arith),
      ))
  | inr other ↦ rw other (
      ground (
        arith,
        any-count (λ (x : Notification). x.id == n.id) found,
        same (λ x. x.id == n.id),
        count-keep-and (λ (x : Notification). x.id == n.id) (λ m. m.user_id == user) t,
        count-zero (λ (x : Notification). x.id == n.id && x.user_id == user) t
            (All-mono _ (λ (x : Notification). (x.id == n.id && x.user_id == user) ≡ false) t
              (λ x it. elim (Bool-cases (x.id == n.id)) [
                | inl at ↦ rw (it at) (ground arith)
                | inr off ↦ rw off refl
              ])
              (unique_of_count (λ (x : Notification). x.id == n.id) n t has (ground arith)
                (unique n.id))),
      ))
]

module _ (prisma : Client) where
  -- Where identifiers are unique, reading all notifications clicks those of the user and changes
  -- nothing else; a failure is the technical error and changes nothing.
  pub read_all_notification-all_read :
      (user : ℕ) (s : Store)
      → UniqueIds s.notifications
      → Runs
          (λ _ t. t ≡ record s { calls = t.calls; notifications = all_read user s.notifications })
          (λ e t. (e ≡ technical_issue) × (t ≡ record s { calls = t.calls }))
          (read_all_notification prisma user s)
  unfolding read_all_notification
  read_all_notification-all_read user s unique = Runs-technical _ s (
      Runs-bind _ _ s (
        Runs-find_many (notification_model prisma) s (λ n. n.user_id == user)
          (λ found same. Runs-bind _ _ _ (
            Runs-update_many (notification_model prisma) _
              (λ n. any (λ (x : Notification). x.id == n.id) found) clicked
              (Runs-pure true _ (
                rw
                  (update_where-ext (λ n. any (λ (x : Notification). x.id == n.id) found)
                    (λ n. n.user_id == user) clicked s.notifications
                    (All-of_Has _ s.notifications
                      (λ n has. found-user user s.notifications found n unique same has)))
                  refl))
              (λ _. (refl, refl))))
          (λ _. (refl, refl))))
