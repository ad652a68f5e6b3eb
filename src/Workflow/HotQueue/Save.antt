-- ===== src/Workflow/HotQueue/Save.antt =====
-- Which messages are kept for an agent.
use social_listening_backend.Base.{
  ℕ, ◌≡◌, refl, true, none, some, Option, [], ◌∷◌, ◌++◌, ◌⊎◌, inl, inr,
}
use social_listening_backend.Lists.{find, Has}
use social_listening_backend.Exec.{◌>>=◌, non_null}
use social_listening_backend.Exec.Runs.{
  Runs, Runs-bind, Runs-pure, Runs-mono, Runs-non_null-none, Runs-non_null-some,
}
use social_listening_backend.Async.Rules.{Runs-technical}
use social_listening_backend.Schema.{UserInHotQueue, SocialSender}
use social_listening_backend.Social.Pages.{OnlyRead, Failed, PageSender, page_sender-PageSender}
use social_listening_backend.Store.{Store, Client, user_in_hot_queue_model, hot_queue_message_model}
use social_listening_backend.Store.Rules.{Runs-find_first, Runs-create}
use social_listening_backend.Workflow.HotQueue.{
  HotQueueMessageDto, waits, counterpart, queue_message, find_user_in_hot_queue,
  save_hot_queue_message, save_if_queued, check_then_save_message,
}

-- The other side of the message, where the page has this sender, waits for an agent.
abbrev pub Waits : Store → HotQueueMessageDto → SocialSender → Type 0
Waits s dto page =
    (e : UserInHotQueue) × Has e s.hot_queue
    × (waits (counterpart page.id dto) dto.tab_id dto.message_type e ≡ true)

abbrev pub NobodyWaits : Store → HotQueueMessageDto → SocialSender → Type 0
NobodyWaits s dto page =
    find (waits (counterpart page.id dto) dto.tab_id dto.message_type) s.hot_queue ≡ none

-- The message is stored as a new live row, and nothing else changes.
abbrev pub Saved : Store → HotQueueMessageDto → Store → Type 0
Saved s dto t =
    (k : ℕ) × (t ≡ record s {
      calls = t.calls;
      hot_queue_messages = s.hot_queue_messages ++ queue_message dto k ∷ [];
    })

module _ (prisma : Client) (dto : HotQueueMessageDto) (s : Store) where
  abbrev Checked : Unit {0} → Store → Type 0
  Checked _ t =
      (page : SocialSender) × PageSender s dto.tab_id (some page)
      × ((Waits s dto page × Saved s dto t) ⊎ (NobodyWaits s dto page × OnlyRead s t))

  queued-Checked :
      (page : SocialSender) (calls : ℕ)
      → PageSender s dto.tab_id (some page)
      → Runs Checked
          (λ _ t. OnlyRead s t)
          ((find_user_in_hot_queue prisma (counterpart page.id dto) dto.tab_id dto.message_type
              >>= λ queued. save_if_queued prisma queued dto)
            (record s { calls = calls }))
  unfolding find_user_in_hot_queue save_if_queued save_hot_queue_message
  queued-Checked page calls p = Runs-bind _ _ _ (
      Runs-technical _ _ (
        Runs-find_first (user_in_hot_queue_model prisma) _ _
          (λ free. Runs-pure tt _ (page, p, inr (free, refl)))
          (λ e has w. Runs-bind _ _ _ (
            Runs-technical _ _ (
              Runs-create (hot_queue_message_model prisma) _ (queue_message dto)
                (λ k _. Runs-pure tt _ (page, p, inl ((e, has, w), (k, refl)))) (λ _. refl))))
          (λ _. refl)))

  -- A message is kept for an agent exactly if the other side of it, not the sender of the page, has
  -- a live entry in the hot queue for the tab and the type; then it is stored as a new live row.
  -- Nothing else changes, and a failure is the technical error and changes nothing.
  pub check_then_save_message-Saved :
      Runs
        (λ _ t.
          (page : SocialSender) × PageSender s dto.tab_id (some page)
          × ((Waits s dto page × Saved s dto t) ⊎ (NobodyWaits s dto page × OnlyRead s t)))
        (λ e t. Failed s e t)
        (check_then_save_message prisma dto s)
  unfolding check_then_save_message
  check_then_save_message-Saved = Runs-technical _ s (
      Runs-mono (page_sender-PageSender prisma s dto.tab_id _ (λ o t p r. found-Checked o t p r))
        (λ _ _ h. h) (λ _ _ h. (refl, h)))
    where
      found-Checked :
          (o : Option SocialSender) (t : Store)
          → PageSender s dto.tab_id o
          → OnlyRead s t
          → Runs Checked
              (λ _ t. OnlyRead s t)
              ((non_null o >>= λ sender.
                  find_user_in_hot_queue prisma
                    (counterpart sender.id dto)
                    dto.tab_id
                    dto.message_type
                  >>= λ queued. save_if_queued prisma queued dto)
                t)
      found-Checked none t p r = Runs-bind _ _ t (Runs-non_null-none t r)
      found-Checked (some page) t p r =
          Runs-bind _ _ t (Runs-non_null-some page t (rw r (queued-Checked page t.calls p)))
