-- ===== src/Tests/Keys.antt =====
-- The theorems on API keys and on conversations at concrete values.
use social_listening_backend.Base.{
  refl, String, ◌+◌, ℕ, ◌*◌, ◌/◌, ◌≡◌, ◌≢◌, ◌↔◌, ◌≤◌, ◌<◌, ◌==◌, true, List, [], ◌∷◌,
}
use social_listening_backend.Lists.{Has, find, count}
use social_listening_backend.Text.{Text, split}
use social_listening_backend.Schema.{Message}
use social_listening_backend.Filtering.Calendar.{Takes24Hours}
use social_listening_backend.Filtering.{FilterValue, single, null, day}
use social_listening_backend.Auth.{validate, valid_key, answers, accepted, unauthorized}
use social_listening_backend.Auth.ApiKey.{validate_lem, answers-validate}
use social_listening_backend.Messages.{conversations, is_kept}
use social_listening_backend.Messages.Groups.{first_of, conversations-first_of}
use social_listening_backend.Messages.Days.{is_kept_days, is_kept_after, is_kept_between}
use social_listening_backend.Tests.Filters.{dates, dates-IsCalendar, dates-Takes24Hours}

-- `a,bc`
abbrev keys : Text
keys = b'a' ∷ b',' ∷ b'b' ∷ b'c' ∷ []

abbrev key : Text
key = b'b' ∷ b'c' ∷ []

keys-some : keys ≢ []
keys-some e = cc

validate_lem_example : (validate keys key ≡ valid_key key) ↔ Has key (split b',' keys)
validate_lem_example = validate_lem keys key keys-some

answers-validate_example :
    (keys ≡ [] → answers (validate keys (b'x' ∷ [])) ≡ unauthorized ∷ [])
    × (keys ≢ [] → answers (validate keys (b'x' ∷ [])) ≡ accepted ∷ unauthorized ∷ [])
answers-validate_example = answers-validate keys (b'x' ∷ [])

-- Messages of the network 80 with the users 70 and 71, the newest one first.
abbrev chat : ℕ → ℕ → Message
chat from to = record {
  id = from;
  tab_id = 10;
  sender_id = from;
  recipient_id = to;
  message = "Hi";
  message_id = 0;
}

abbrev chats : List Message
chats = chat 80 70 ∷ chat 71 80 ∷ chat 70 80 ∷ []

conversations-first_of_example :
    (find (λ c. c.sender == 70) (conversations 80 chats) ≡ first_of 80 70 chats)
    × (count (λ c. c.sender == 70) (conversations 80 chats) ≤ 1)
conversations-first_of_example = conversations-first_of 80 chats 70

abbrev Keeps : String → FilterValue → ℕ → Type 0
Keeps op value x = is_kept dates 0 op value x ≡ true

abbrev midnight : ℕ → ℕ
midnight t = t / day * day

is_kept_days_example :
    ((x : ℕ) → Keeps "Is Before" (single null) x ↔ (midnight x < midnight (3 * day + 5)))
    × ((x : ℕ)
        → Keeps "Is After Or Equal To" (single null) x ↔ (midnight (3 * day + 5) ≤ midnight x))
    × (((x : ℕ) → Keeps "Is Equal To" (single null) x ↔ (midnight x ≡ midnight (3 * day + 5)))
        ↔ Takes24Hours midnight (3 * day + 5))
is_kept_days_example = is_kept_days dates dates-IsCalendar 0 null (3 * day + 5) refl

is_kept_after_example :
    (Keeps "Is Before Or Equal To" (single null) 300000000
      ↔ (midnight 300000000 ≤ midnight (3 * day + 5)))
    × (Keeps "Is After" (single null) 300000000 ↔ (midnight (3 * day + 5) < midnight 300000000))
is_kept_after_example =
    is_kept_after dates dates-IsCalendar 0 null (3 * day + 5) refl
      (dates-Takes24Hours (3 * day + 5)) 300000000

is_kept_between_example :
    Keeps "Between" (single null) 100000000
    ↔ ((midnight day ≤ midnight 100000000) × (midnight 100000000 ≤ midnight (2 * day + 7)))
is_kept_between_example =
    is_kept_between dates dates-IsCalendar 0 (single null) day (2 * day + 7) refl refl
      (dates-Takes24Hours (2 * day + 7)) 100000000
