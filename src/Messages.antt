-- ===== src/Messages.antt =====
-- src/modules/message/services/message.service.ts: the conversations of a tab, grouped by the other
-- side, and their filter by dates.
pub mod Receive
pub mod Days
pub mod Groups
use social_listening_backend.Base.{
  ℕ, ◌+◌, String, Bool, true, false, ◌==◌, ◌&&◌, str_eq, ltb, leb, List, [], ◌∷◌, ◌++◌,
  if◌then◌else◌, Option, none, some,
}
use social_listening_backend.Lists.{any, keep}
use social_listening_backend.Schema.{Message}
use social_listening_backend.Filtering.{Dates, FilterValue, single, array, start_of, next_day}

-- The object pushed to `result`; the sender or recipient that it holds is represented by its
-- identifier, and `last_sent` by the message whose `createdAt` it is.
pub record Conversation : Type 0 where
  pub sender : ℕ
  pub message : String
  pub from : ℕ
  pub last_sent : Message

-- The side of a message that is not the network.
abbrev pub other_side : ℕ → Message → ℕ
other_side network m = if m.sender_id == network then m.recipient_id else m.sender_id

abbrev pub conversation_of : ℕ → Message → Conversation
conversation_of network m = record {
  sender = other_side network m;
  message = m.message;
  from = m.sender_id;
  last_sent = m;
}

-- `conversations.forEach(…)`, with the keys of `listConversation` and with `result`.
unfoldable pub group : ℕ → List ℕ → List Conversation → List Message → List Conversation
group network seen result [] = result
group network seen result (m ∷ ms) =
    let skipped = group network seen result ms in
    let added =
      group network (other_side network m ∷ seen) (result ++ conversation_of network m ∷ []) ms in
    if any (λ k. k == other_side network m) seen then skipped else added

unfoldable pub conversations : ℕ → List Message → List Conversation
conversations network ms = group network [] [] ms

-- The bounds before the filter runs: now, for a value that is an array.
abbrev pub start_date : Dates → ℕ → FilterValue → Option ℕ
start_date dates now (single v) = start_of dates (dates.date_of (single v))
start_date dates now (array vs) = some now

abbrev pub end_date : Dates → ℕ → FilterValue → Option ℕ
end_date dates now (single v) = next_day (start_of dates (dates.date_of (single v)))
end_date dates now (array vs) = some now

-- `date <= sent` and `sent < date`, which are false for the Invalid Date.
abbrev pub from_date : Option ℕ → ℕ → Bool
from_date none sent = false
from_date (some date) sent = leb date sent

abbrev pub before_date : Option ℕ → ℕ → Bool
before_date none sent = false
before_date (some date) sent = ltb sent date

-- The test of `filterDate` on the date of a conversation; another operator keeps nothing.
unfoldable pub is_kept : Dates → ℕ → String → FilterValue → ℕ → Bool
is_kept dates now op value sent =
    if str_eq op "Is Equal To"
    then from_date (start_date dates now value) sent && before_date (end_date dates now value) sent
    else if str_eq op "Is Before Or Equal To"
    then before_date (end_date dates now value) sent
    else if str_eq op "Is Before"
    then before_date (start_date dates now value) sent
    else if str_eq op "Is After Or Equal To"
    then from_date (start_date dates now value) sent
    else if str_eq op "Is After"
    then from_date (end_date dates now value) sent
    else if str_eq op "Between"
    then from_date (start_of dates (dates.first_date value)) sent
      && before_date (next_day (start_of dates (dates.second_date value))) sent
    else false

unfoldable pub filter_date :
    Dates → ℕ → String → FilterValue → (Conversation → ℕ) → List Conversation → List Conversation
filter_date dates now op value sent = keep (λ c. is_kept dates now op value (sent c))
