-- ===== src/Workflow/Hook/Queued.antt =====
-- A sender that waits for an agent is left alone by the workflows.
use mathlib.Core.Path.{subst}
use social_listening_backend.Lists.Count.{All-Has}
use social_listening_backend.Store.Rules.{Runs-find_first}
use social_listening_backend.Async.Rules.{Runs-required, Runs-technical}
use social_listening_backend.Social.Lookups.{find_comment_by_id, find_message_by_id}
use social_listening_backend.Exec.Runs.{
  Runs-non_null-some, Runs-non_null-none, Runs-pure, Runs-if, Runs-bind, Runs,
}
use social_listening_backend.Schema.{SocialMessage, Message, HookData}
use social_listening_backend.Workflow.Call.{Range}
use social_listening_backend.Lists.{All, find}
use social_listening_backend.Workflow.Hook.{run_workflow, sender_of_message, try_call_hook}
use social_listening_backend.Exec.{pure, ◌>>=◌, Exec}
use social_listening_backend.Workflow.HotQueue.{waits, find_user_in_hot_queue}
use social_listening_backend.Base.{
  arith, refl, is_some, none, some, ◌≢◌, str_eq, if◌then◌else◌, String, ◌≡◌, ℕ,
}
use social_listening_backend.Store.{
  social_message_model, message_model, user_in_hot_queue_model, tick, Client, Store,
}

-- Nothing but the count of calls has changed: no table, and nothing has been sent.
abbrev pub Unchanged : Store → Store → Type 0
Unchanged s t = t ≡ record s { calls = t.calls }

-- Whoever sent the message has a live entry in the hot queue.
abbrev pub SenderWaits : Store → ℕ → String → ℕ → Type 0
SenderWaits s tab type message =
    if str_eq type "Message"
    then All
        (λ (m : Message). m.id ≡ message → find (waits m.sender_id tab type) s.hot_queue ≢ none)
        s.messages
    else All
        (λ (m : SocialMessage).
          m.id ≡ message → find (waits m.sender_id tab type) s.hot_queue ≢ none)
        s.social_messages

module _ (prisma : Client) (tab : ℕ) (type : String) where
  -- The hook after its look-up of the sender.
  queued-Unchanged :
      (read_range : String → Range) (node_type : String) (d : HookData) (message sender : ℕ)
      (s : Store)
      → find (waits sender tab type) s.hot_queue ≢ none
      → Runs
          (λ _ t. Unchanged s t)
          (λ _ t. Unchanged s t)
          ((find_user_in_hot_queue prisma sender tab type >>= λ queued.
              if is_some queued
              then pure tt
              else run_workflow prisma read_range tab type node_type message d)
            (tick s))
  unfolding find_user_in_hot_queue
  queued-Unchanged read_range node_type d message sender s waiting = Runs-bind _ _ _ (
      Runs-technical _ _ (
        Runs-find_first (user_in_hot_queue_model prisma) _ _
          (λ none_waits. absurd (waiting none_waits)) (λ e _ _. Runs-pure tt _ refl) (λ _. refl)))

  -- The two look-ups of the sender, in the messages or in the comments.
  sender-Unchanged :
      (message : ℕ) (s : Store) (rest : ℕ → Exec Store (Unit {0}))
      → SenderWaits s tab type message
      → ((sender : ℕ)
          → find (waits sender tab type) s.hot_queue ≢ none
          → Runs (λ _ u. Unchanged s u) (λ _ u. Unchanged s u) (rest sender (tick s)))
      → Runs
          (λ sender t. Runs (λ _ u. Unchanged s u) (λ _ u. Unchanged s u) (rest sender t))
          (λ _ t. Unchanged s t)
          (sender_of_message prisma type message s)
  unfolding sender_of_message find_message_by_id find_comment_by_id
  sender-Unchanged message s rest w k =
      Runs-if (str_eq type "Message") _ _ s
        (λ private_message. Runs-bind _ _ s (
          Runs-technical _ s (
            Runs-find_first (message_model prisma) s _
              (λ _. Runs-bind _ _ _ (Runs-non_null-none _ refl))
              (λ m has p. Runs-bind _ _ _ (
                Runs-non_null-some m _ (
                  Runs-pure _ _ (
                    k m.sender_id
                      (All-Has _ m s.messages (rw private_message at w) has (ground arith))))))
              (λ _. refl))))
        (λ comment. Runs-bind _ _ s (
          Runs-find_first (social_message_model prisma) s _
            (λ _. Runs-bind _ _ _ (Runs-non_null-none _ refl))
            (λ m has p. Runs-bind _ _ _ (
              Runs-non_null-some m _ (
                Runs-pure _ _ (
                  k m.sender_id
                    (All-Has _ m s.social_messages (rw comment at w) has (ground arith))))))
            (λ _. refl)))

  -- While the sender of a message waits for an agent, the hook called with the message changes no
  -- table and sends nothing, whether it returns or throws.
  pub try_call_hook-Unchanged :
      (read_range : String → Range) (node_type : String) (d : HookData) (s : Store) (message : ℕ)
      → d.message_id ≡ some message
      → SenderWaits s tab type message
      → Runs
          (λ _ t. Unchanged s t)
          (λ _ t. Unchanged s t)
          (try_call_hook prisma read_range tab type node_type d s)
  unfolding try_call_hook
  try_call_hook-Unchanged read_range node_type d s message given w = Runs-technical _ s (
      Runs-bind _ _ s (
        Runs-required d.message_id s
          (λ found e.
            let same : message ≡ found = cc in
            Runs-bind _ _ s (
              sender-Unchanged found s _ (subst (SenderWaits s tab type) same w)
                (λ sender. queued-Unchanged read_range node_type d found sender s)))
          refl))
