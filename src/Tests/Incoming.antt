-- ===== src/Tests/Incoming.antt =====
-- The theorems on messages and comments that come in and on tabs, with the database that never
-- fails.
use social_listening_backend.Comments.{find_or_save_post}
use social_listening_backend.Comments.Posts.{find_or_save_post-once, rows_of}
use social_listening_backend.Social.Tabs.{on_update_working_state}
use social_listening_backend.Messages.Receive.Stored.{create_message-stored, with_reply_row}
use social_listening_backend.Social.Tabs.Working.{on_update_working_state-Toggled, Toggled}
use social_listening_backend.Messages.Receive.Paused.{on_create_message-Refused, Refused, AllPaused}
use social_listening_backend.Messages.Receive.{
  create_message, on_create_message, new_message, CreateMessageDto, MessageDto,
}
use social_listening_backend.Int.{pos}
use social_listening_backend.Async.{technical_issue}
use social_listening_backend.Tests.Samples.{sample}
use social_listening_backend.Exec.Runs.{Runs}
use social_listening_backend.Tests.Reliable.{memory}
use social_listening_backend.Store.{Event, Store}
use social_listening_backend.Base.{
  true, ◌⊎◌, ℕ, [], false, ◌++◌, ◌∷◌, ◌≡◌, arith, refl, ◌≢◌, inl, inr, some,
}

-- The page 800 is of the network 1, whose tab is paused.
abbrev paused : Store
paused = record sample {
  social_tabs =
      record {
        id = 10;
        name = "Shop";
        group_id = 3;
        deleted = false;
        is_worked = true;
        social_id = 1;
      }
      ∷ [];
}

abbrev incoming : MessageDto
incoming = record {
  message = "Hello";
  sender = 700;
  recipient = 800;
  message_id = 301;
  network_id = 800;
  replied_message_id = some 300;
}

paused-AllPaused : AllPaused paused 800
paused-AllPaused t (inl e) at = rw e refl
paused-AllPaused t (inr h) at = absurd h

on_create_message-Refused_example :
    Runs
      (Refused paused)
      (λ _ _. ⊥)
      (on_create_message memory (λ _. record { min = pos 0; max = pos 1 }) incoming paused)
on_create_message-Refused_example =
    on_create_message-Refused memory (λ _. record { min = pos 0; max = pos 1 }) incoming paused
      paused-AllPaused

abbrev reply_message : CreateMessageDto
reply_message = record {
  message = "Hello";
  sender_id = 70;
  recipient_id = 80;
  message_id = 301;
  tab_id = 10;
  replied_message_id = some 300;
}

create_message-stored_example :
    Runs
      (λ m t.
        (k : ℕ) × (m ≡ new_message reply_message k)
        × (t ≡ record sample {
          calls = t.calls;
          messages = sample.messages ++ new_message reply_message k ∷ [];
          message_replied = with_reply_row k (some 300) sample.message_replied;
          sent = sample.sent ++ Event.emit_message 10 k ∷ [];
        }))
      (λ e t.
        (e ≡ technical_issue)
        × ((t ≡ record sample { calls = t.calls })
            ⊎ ((k : ℕ) × (t ≡ record sample {
              calls = t.calls;
              messages = sample.messages ++ new_message reply_message k ∷ [];
            }))))
      (create_message memory reply_message sample)
create_message-stored_example = create_message-stored memory reply_message sample

on_update_working_state-Toggled_example :
    Runs (Toggled 10 sample) (λ _ _. ⊥) (on_update_working_state memory 10 sample)
on_update_working_state-Toggled_example = on_update_working_state-Toggled memory 10 sample

find_or_save_post-once_example :
    Runs
      (λ p t.
        (p.post_id ≡ 500)
        × (rows_of 500 t ≡ 1)
        × ((other : ℕ) → other ≢ 500 → rows_of other t ≡ rows_of other sample))
      (λ _ t. t ≡ record sample { calls = t.calls })
      (find_or_save_post memory 500 10 sample)
find_or_save_post-once_example = find_or_save_post-once memory 500 10 sample (omega arith)
