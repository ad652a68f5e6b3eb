-- ===== src/Notifications/Attempts.antt =====
-- A notification is queued again at most as often as it has attempts.
use social_listening_backend.Exec.{pure}
use social_listening_backend.Lists.Count.{count-append}
use social_listening_backend.Store.Rules.{Runs-emit, Runs-any_first}
use social_listening_backend.Exec.Runs.{Runs-mono, Runs-if, Runs-bind, Runs-pure, Runs}
use social_listening_backend.Schema.Accounts.{Notification}
use social_listening_backend.Lists.{count}
use social_listening_backend.Notifications.{
  received_status, is_sent, retried, get_connection, add_to_queue, deliver, next_job,
  push_notification, queue_next, push_to,
}
use social_listening_backend.Store.{
  emit, notification_model, socket_connection_model, Client, Store, Event,
}
use social_listening_backend.Base.{
  str_eq, not, zero, ◌&&◌, ◌-◌, refl, [], ltb, ◌==◌, ◌∷◌, Bool-cases, arith, ◌+◌, ◌⊎◌, ◌≡◌, suc,
  String, ◌≤◌, Option, false, true, ℕ, Bool, inl, inr, none, some,
}

abbrev is_push : Event → Bool
is_push (Event.emit_notification token id) = true
is_push _ = false

-- How often the socket server has been told of a notification.
abbrev pub pushes : Store → ℕ
pushes s = count is_push s.sent

module _ (prisma : Client) where
  push_to-pushes :
      (n : Notification) (token status : Option String) (s : Store)
      → Runs (λ _ t. pushes t ≤ suc (pushes s)) (λ _ _. ⊥) (push_to prisma n token status s)
  unfolding push_to
  push_to-pushes n none status s = Runs-pure tt s (omega arith)
  push_to-pushes n (some token) status s =
      Runs-if (is_sent status && not (str_eq token "")) (emit (Event.emit_notification token n.id))
        (pure tt) s
        (λ _.
          Runs-emit (Event.emit_notification token n.id) s
            (omega (arith, count-append is_push s.sent (Event.emit_notification token n.id ∷ []))))
        (λ _. Runs-pure tt s (omega arith))

  queue_next-pushes :
      (next : Option Notification) (s : Store)
      → Runs (λ _ t. pushes t ≡ pushes s) (λ _ _. ⊥) (queue_next prisma next s)
  unfolding queue_next add_to_queue
  queue_next-pushes none s = Runs-pure tt s refl
  queue_next-pushes (some n) s =
      Runs-emit (Event.queue_notification n 5) s
        (omega (arith, count-append is_push s.sent (Event.queue_notification n 5 ∷ [])))

  get_connection-pushes :
      (user : ℕ) (s : Store)
      → Runs
          (λ _ t. pushes t ≡ pushes s)
          (λ _ t. pushes t ≡ pushes s)
          (get_connection prisma user s)
  unfolding get_connection
  get_connection-pushes user s = Runs-bind _ _ s (
      Runs-any_first (socket_connection_model prisma) s (λ c. c.user_id == user)
        (λ c. Runs-pure _ _ refl) (λ _. refl))

  received_status-pushes :
      (id : ℕ) (s : Store)
      → Runs (λ _ t. pushes t ≡ pushes s) (λ _ t. pushes t ≡ pushes s) (received_status prisma id s)
  unfolding received_status
  received_status-pushes id s = Runs-bind _ _ s (
      Runs-any_first (notification_model prisma) s (λ n. n.id == id) (λ n. Runs-pure _ _ refl)
        (λ _. refl))

  push_notification-next_job :
      (n : Notification) (s : Store)
      → Runs
          (λ o t.
            (pushes t ≤ suc (pushes s)) × ((status : Option String) × (o ≡ next_job n status)))
          (λ _ t. pushes t ≤ suc (pushes s))
          (push_notification prisma n s)
  unfolding push_notification
  push_notification-next_job n s = Runs-bind _ _ s (
      Runs-mono (get_connection-pushes n.user_id s)
        (λ token t at_t. Runs-bind _ _ t (
          Runs-mono (received_status-pushes n.id t)
            (λ status u at_u. Runs-bind _ _ u (
              Runs-mono (push_to-pushes n token status u)
                (λ _ v few. Runs-bind _ _ v (
                  Runs-mono (queue_next-pushes (next_job n status) v)
                    (λ _ w same. Runs-pure _ w (omega arith, (status, refl))) (λ _ _ h. absurd h)))
                (λ _ _ h. absurd h)))
            (λ _ u at_u. omega arith)))
        (λ _ t at_t. omega arith))

  next_job-cases :
      (n : Notification) (status : Option String)
      → (next_job n status ≡ none) ⊎ ((next_job n status ≡ some (retried n)) × (2 ≤ n.max_attempt))
  unfolding next_job
  next_job-cases n status = elim (Bool-cases (ltb 0 (n.max_attempt - 1) && is_sent status)) [
    | inl again ↦ rw again (inr (refl, ground arith))
    | inr over ↦ rw over (inl refl)
  ]

  -- Where the fuel is at least the number of attempts and at least one, nothing is left of a job and
  -- of those that it leads to, and the socket server is told at most as often as the fuel says; it
  -- is not told more often where a call of the database fails, which ends the job.
  pub deliver-none :
      (fuel : ℕ) (n : Notification) (s : Store)
      → n.max_attempt ≤ fuel
      → 1 ≤ fuel
      → Runs
          (λ o t. (o ≡ none) × (pushes t ≤ fuel + pushes s))
          (λ _ t. pushes t ≤ fuel + pushes s)
          (deliver prisma fuel n s)
  unfolding deliver
  deliver-none zero n s few one = absurd (omega arith)
  deliver-none (suc fuel) n s few one = Runs-bind _ _ s (
      Runs-mono (push_notification-next_job n s)
        (λ o t (told, (status, e)). elim (next_job-cases n status) [
          | inl over ↦ rw (e, over) (Runs-pure none t (refl, omega arith))
          | inr (again, more) ↦
              rw (e, again)
                (Runs-mono (deliver-none fuel (retried n) t (omega arith) (omega arith))
                  (λ o u (left, many). (left, omega arith)) (λ _ u many. omega arith))
        ])
        (λ _ t told. omega arith))
