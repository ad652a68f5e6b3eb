-- ===== src/Messages/Receive/Stored.antt =====
-- What storing a message leaves.
use social_listening_backend.Async.Rules.{Runs-technical}
use social_listening_backend.Async.{technical_issue}
use social_listening_backend.Store.Rules.{Runs-emit, Runs-create, Runs-insert}
use social_listening_backend.Exec.Runs.{Runs-mono, Runs-bind, Runs-pure, Runs}
use social_listening_backend.Schema.Accounts.{MessageReplied}
use social_listening_backend.Messages.Receive.{
  new_message, reply_row, CreateMessageDto, create_message, save_reply,
}
use social_listening_backend.Store.{message_model, Event, message_replied_model, Store, Client}
use social_listening_backend.Base.{
  ap, ◌⊎◌, refl, [], ◌∷◌, ◌≡◌, ◌++◌, List, Option, ℕ, inl, inr, none, some,
}

-- The row of a reply, where the message is one.
abbrev pub with_reply_row : ℕ → Option ℕ → List MessageReplied → List MessageReplied
with_reply_row message none rows = rows
with_reply_row message (some replied) rows = rows ++ reply_row message replied ∷ []

module _ (prisma : Client) where
  save_reply-with_reply_row :
      (message : ℕ) (replied : Option ℕ) (s : Store)
      → Runs
          (λ _ t. t ≡ record s {
            calls = t.calls;
            message_replied = with_reply_row message replied s.message_replied;
          })
          (λ _ t. t ≡ record s { calls = t.calls })
          (save_reply prisma message replied s)
  unfolding save_reply
  save_reply-with_reply_row message none s = Runs-pure tt s refl
  save_reply-with_reply_row message (some replied) s = Runs-bind _ _ s (
      Runs-insert (message_replied_model prisma) s _ (reply_row message replied)
        (λ _. Runs-pure tt _ refl) (λ _. refl))

  -- Where a message is stored, it is the one new row of its table, the row of a reply is added
  -- exactly if the message is one, the room of its tab is told of it once, and nothing else has
  -- changed. A failure is the technical error; then nobody is told and nothing has changed, but that
  -- the message itself may be stored without its reply.
  pub create_message-stored :
      (dto : CreateMessageDto) (s : Store)
      → Runs
          (λ m t.
            (k : ℕ) × (m ≡ new_message dto k)
            × (t ≡ record s {
              calls = t.calls;
              messages = s.messages ++ new_message dto k ∷ [];
              message_replied = with_reply_row k dto.replied_message_id s.message_replied;
              sent = s.sent ++ Event.emit_message dto.tab_id k ∷ [];
            }))
          (λ e t.
            (e ≡ technical_issue)
            × ((t ≡ record s { calls = t.calls })
                ⊎ ((k : ℕ) × (t ≡ record s {
                  calls = t.calls;
                  messages = s.messages ++ new_message dto k ∷ [];
                }))))
          (create_message prisma dto s)
  unfolding create_message
  create_message-stored dto s = Runs-technical _ s (
      Runs-bind _ _ s (
        Runs-create (message_model prisma) s (new_message dto)
          (λ k _. Runs-bind _ _ _ (
            Runs-mono (save_reply-with_reply_row k dto.replied_message_id _)
              (λ _ t same. Runs-bind _ _ t (
                Runs-emit (Event.emit_message dto.tab_id k) t (
                  Runs-pure _ _ (
                    k,
                    refl,
                    ap
                        (λ (x : Store). record x {
                          sent = x.sent ++ Event.emit_message dto.tab_id k ∷ [];
                        })
                        same,
                  ))))
              (λ _ t same. (refl, inr (k, same)))))
          (λ _. (refl, inl refl))))
