-- ===== src/Workflow/HotQueue/Stop.antt =====
-- What stopping and starting the support of a sender does to the hot queue and its messages.
use social_listening_backend.Lists.Count.{unique_of_count, All-mono, All-map, find-none}
use social_listening_backend.Exec.{ok}
use social_listening_backend.Store.Rules.{Runs-update_many, Runs-update, Runs-find_first}
use social_listening_backend.Async.Rules.{Runs-technical}
use social_listening_backend.Async.{technical_issue}
use social_listening_backend.Exec.Runs.{
  Runs-pure, Runs-ok, Runs-non_null-some, Runs-non_null-none, Runs-bind, Runs,
}
use social_listening_backend.Lists.{find, count, Has, update_where}
use social_listening_backend.Schema.{HotQueueMessage, UserInHotQueue}
use social_listening_backend.Workflow.HotQueue.{
  closed_message, in_conversation, closed, find_user_in_hot_queue, waits, stop_hot_queue,
  HotQueueDto,
}
use social_listening_backend.Base.{
  [], refl, inr, ◌∷◌, ap, Bool-cases, none, false, if◌then◌else◌, ◌==◌, inl, ◌≤◌, arith, true, List,
  ◌⊎◌, ◌≡◌, String, ℕ,
}
use social_listening_backend.Store.{hot_queue_message_model, user_in_hot_queue_model, Client, Store}

-- The state after the entry has been closed and the conversation's messages with it; nothing else
-- changes but the count of calls.
abbrev pub Stopped : Store → HotQueueDto → UserInHotQueue → Store → Type 0
Stopped s dto e t = t ≡ record s {
  calls = t.calls;
  hot_queue = update_where (λ x. x.id == e.id) closed s.hot_queue;
  hot_queue_messages =
      update_where (in_conversation dto.sender_id dto.tab_id dto.message_type) closed_message
        s.hot_queue_messages;
}

-- A failure leaves the messages, and the queue too unless the failing call is the last one.
abbrev pub NotStopped : Store → HotQueueDto → Store → Type 0
NotStopped s dto t =
    (t ≡ record s { calls = t.calls })
    ⊎ ((e : UserInHotQueue) × Has e s.hot_queue
        × (waits dto.sender_id dto.tab_id dto.message_type e ≡ true)
        × (t ≡ record s {
          calls = t.calls;
          hot_queue = update_where (λ x. x.id == e.id) closed s.hot_queue;
        }))

sender-waits :
    (sender tab : ℕ) (type : String) (e : UserInHotQueue)
    → waits sender tab type e ≡ true
    → e.sender_id ≡ sender
sender-waits sender tab type e h = ground arith

module _ (prisma : Client) (dto : HotQueueDto) (s : Store) where
  -- Stopping the support of a sender succeeds only where a live entry of that sender, tab and type
  -- is found; it closes that entry and the live messages of the conversation, and changes nothing
  -- else. Where it fails, the error is the technical one and no message has been closed.
  pub stop_hot_queue-Stopped :
      Runs
        (λ _ t.
          (e : UserInHotQueue) × Has e s.hot_queue
          × (waits dto.sender_id dto.tab_id dto.message_type e ≡ true)
          × Stopped s dto e t)
        (λ e t. (e ≡ technical_issue) × NotStopped s dto t)
        (stop_hot_queue prisma dto s)
  unfolding stop_hot_queue find_user_in_hot_queue
  stop_hot_queue-Stopped = Runs-technical _ s (
      Runs-bind _ _ s (
        Runs-technical _ s (
          Runs-find_first (user_in_hot_queue_model prisma) s _
            (λ _. Runs-bind _ _ _ (Runs-non_null-none _ (refl, inl refl)))
            (λ e has w. Runs-bind _ _ _ (
              Runs-non_null-some e _ (
                Runs-bind _ _ _ (
                  Runs-update (user_in_hot_queue_model prisma) _ e.id closed
                    (λ x at same. Runs-bind _ _ _ (
                      Runs-update_many (hot_queue_message_model prisma) _ _ closed_message
                        (Runs-pure _ _ (
                          e,
                          has,
                          w,
                          rw (sender-waits dto.sender_id dto.tab_id dto.message_type e w) refl,
                        ))
                        (λ _. (refl, inr (e, has, w, refl)))))
                    (λ _. (refl, inl refl))))))
            (λ _. (refl, inl refl)))))

closed_off :
    (sender tab : ℕ) (type : String) (e x : UserInHotQueue)
    → (waits sender tab type x ≡ true → x ≡ e)
    → waits sender tab type (if x.id == e.id then closed x else x) ≡ false
closed_off sender tab type e x one = elim (Bool-cases (waits sender tab type x)) [
  | inl w ↦ ground (arith, one w, ap (λ (y : UserInHotQueue). y.id) (one w))
  | inr off ↦ ground arith
]

-- Closing the one live entry leaves none.
closed-find :
    (sender tab : ℕ) (type : String) (e : UserInHotQueue) (q : List UserInHotQueue)
    → Has e q
    → waits sender tab type e ≡ true
    → count (waits sender tab type) q ≤ 1
    → find (waits sender tab type) (update_where (λ x. x.id == e.id) closed q) ≡ none
closed-find sender tab type e q has w one = find-none (waits sender tab type) _ (
    All-map (λ x. waits sender tab type x ≡ false) _ q
      (All-mono _ _ q (closed_off sender tab type e)
        (unique_of_count (waits sender tab type) e q has w one)))

closed-conversation :
    (sender tab : ℕ) (type : String) (ms : List HotQueueMessage)
    → find
        (in_conversation sender tab type)
        (update_where (in_conversation sender tab type) closed_message ms)
      ≡ none
closed-conversation sender tab type [] = refl
closed-conversation sender tab type (m ∷ ms) =
    ground (arith, closed-conversation sender tab type ms)

-- Where a sender has at most one live entry for a tab and a type, it has none after its support was
-- stopped with success.
pub stop_hot_queue-find :
    (prisma : Client) (dto : HotQueueDto) (s : Store) {r : UserInHotQueue} {t : Store}
    → count (waits dto.sender_id dto.tab_id dto.message_type) s.hot_queue ≤ 1
    → stop_hot_queue prisma dto s ≡ (ok r, t)
    → (find (waits dto.sender_id dto.tab_id dto.message_type) t.hot_queue ≡ none)
      × (find (in_conversation dto.sender_id dto.tab_id dto.message_type) t.hot_queue_messages
          ≡ none)
stop_hot_queue-find prisma dto s one run =
    let (e, has, w, stopped) = Runs-ok (stop_hot_queue-Stopped prisma dto s) run in
    (
      rw stopped (closed-find dto.sender_id dto.tab_id dto.message_type e s.hot_queue has w one),
      rw stopped
          (closed-conversation dto.sender_id dto.tab_id dto.message_type s.hot_queue_messages),
    )
