-- ===== src/Messages/Receive/Paused.antt =====
-- A tab that is paused takes no messages.
use social_listening_backend.Social.Lookups.{pause}
use social_listening_backend.Store.Rules.{Runs-find_first}
use social_listening_backend.Reply.Rules.{Runs-throw_if, Runs-replying}
use social_listening_backend.Exec.Runs.{Runs-non_null-some, Runs-non_null-none, Runs-bind, Runs}
use social_listening_backend.Messages.Receive.{
  MessageDto, get_tab_by_network_id, tab_of_network, on_create_message,
}
use social_listening_backend.Lists.{Has}
use social_listening_backend.Workflow.Call.{Range}
use social_listening_backend.Schema.{Message, SocialTab}
use social_listening_backend.Reply.{message, result, Reply}
use social_listening_backend.Store.{social_tab_model, Client, Store}
use social_listening_backend.Base.{refl, arith, true, ◌≡◌, String, ℕ}

-- Every tab of the network is paused: its isWorked is `WorkingState.Pause`.
abbrev pub AllPaused : Store → ℕ → Type 0
AllPaused s network =
    (t : SocialTab)
    → Has t s.social_tabs
    → tab_of_network s.social_networks network t ≡ true
    → t.is_worked ≡ pause

abbrev pub Refused : Store → Reply Message → Store → Type 0
Refused s (result m) t = ⊥
Refused s (message e) t = t ≡ record s { calls = t.calls }

module _ (prisma : Client) (read_range : String → Range) where
  -- A message for a network all of whose tabs are paused is answered with a message of an error, and
  -- nothing is stored or sent.
  pub on_create_message-Refused :
      (dto : MessageDto) (s : Store)
      → AllPaused s dto.network_id
      → Runs (Refused s) (λ _ _. ⊥) (on_create_message prisma read_range dto s)
  unfolding on_create_message get_tab_by_network_id
  on_create_message-Refused dto s paused = Runs-replying _ s (
      Runs-bind _ _ s (
        Runs-find_first (social_tab_model prisma) s
          (tab_of_network s.social_networks dto.network_id)
          (λ _. Runs-bind _ _ _ (Runs-non_null-none _ refl))
          (λ tab has at. Runs-bind _ _ _ (
            Runs-non_null-some tab _ (
              Runs-bind _ _ _ (
                Runs-throw_if _ _ _ (λ _. refl)
                  (λ works. absurd (ground (arith, paused tab has at)))))))
          (λ _. refl)))
