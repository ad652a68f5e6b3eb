-- ===== src/Dashboard.antt =====
-- src/modules/dashboard/service/dashboard.service.ts: how many comments and messages came in, by
-- hour or by day. An object whose properties are computed is an association list; the order of its
-- properties is not modelled.
pub mod Merge
pub mod Charts
pub mod Percents
pub mod Sums
use social_listening_backend.Base.{
  ℕ, suc, ◌+◌, String, Bool, true, false, not, ◌&&◌, ◌==◌, str_eq, ltb, leb, Option, none, some,
  List, [], ◌∷◌, ◌++◌, map, if◌then◌else◌,
}
use social_listening_backend.Text.{text_eq, starts_with}
use social_listening_backend.Schema.{SocialMessage, Message, HotQueueMessage, SocialSender}
use social_listening_backend.Exec.{Exec, pure, ◌>>=◌}
use social_listening_backend.Async.{technical}
use social_listening_backend.Filtering.{day}
use social_listening_backend.Social.Lookups.{
  page_sender, get_social_tab_info, page_info, find_sender,
}
use social_listening_backend.Store.{
  Store, Client, find_many, count_rows, social_message_model, message_model,
  hot_queue_message_model,
}

-- Dates of the standard library, in the time zone of the server: midnight of a date's day, the day
-- of `toISOString()` up to the `T`, and `getHours()`.
pub record Clock : Type 0 where
  pub midnight : ℕ → ℕ
  pub iso_day : ℕ → ℕ
  pub hours : ℕ → ℕ

-- The columns `createdAt` and `dateCreated`.
pub record Times : Type 0 where
  pub commented_at : SocialMessage → ℕ
  pub messaged_at : Message → ℕ
  pub queued_at : HotQueueMessage → ℕ

pub record Point : Type 0 where
  pub comment_count : ℕ
  pub message_count : ℕ

-- A count for a day or an hour, marked with the type that `mergeData` adds.
pub data Item : Type 0 where
  comment_item message_item : ℕ → ℕ → Item

abbrev pub Chart : Type 0
Chart = List (ℕ × Point)

abbrev pub item_key : Item → ℕ
item_key (comment_item k n) = k
item_key (message_item k n) = k

-- `commentCount += item.count` or `messageCount += item.count`
abbrev pub add_item : Item → Point → Point
add_item (comment_item k n) p = record p { comment_count = p.comment_count + n }
add_item (message_item k n) p = record p { message_count = p.message_count + n }

abbrev pub no_point : Point
no_point = record { comment_count = 0; message_count = 0 }

-- One round of the `reduce` in `mergeData`.
unfoldable pub merge_item : Item → Chart → Chart
merge_item i [] = (item_key i, add_item i no_point) ∷ []
merge_item i ((k, p) ∷ rest) =
    let rest' = merge_item i rest in
    if k == item_key i then (k, add_item i p) ∷ rest else (k, p) ∷ rest'

unfoldable pub merge_items : List Item → Chart → Chart
merge_items [] arr = arr
merge_items (i ∷ is) arr = merge_items is (merge_item i arr)

unfoldable pub merge_data : List (ℕ × ℕ) → List (ℕ × ℕ) → Chart
merge_data comments messages =
    merge_items
      (map (λ (c : ℕ × ℕ). comment_item c.0 c.1) comments
        ++ map (λ (m : ℕ × ℕ). message_item m.0 m.1) messages)
      []

-- `if (!arr[date]) arr[date] = 0; arr[date]++`
unfoldable pub increment : ℕ → List (ℕ × ℕ) → List (ℕ × ℕ)
increment k [] = (k, 1) ∷ []
increment k ((j, n) ∷ rest) =
    let rest' = increment k rest in if j == k then (j, suc n) ∷ rest else (j, n) ∷ rest'

-- `rows.reduce(…, {})` by a key of the rows.
unfoldable pub tally : {R : Type 0} → (R → ℕ) → List R → List (ℕ × ℕ) → List (ℕ × ℕ)
tally key [] arr = arr
tally key (r ∷ rs) arr = tally key rs (increment (key r) arr)

-- The comments of a tab in a time that no bot and no agent wrote.
abbrev pub is_comment : Times → ℕ → ℕ → ℕ → SocialMessage → Bool
is_comment times tab start end_ c =
    not (text_eq c.type (b'B' ∷ b'o' ∷ b't' ∷ []))
    && not (starts_with (b'A' ∷ b'g' ∷ b'e' ∷ b'n' ∷ b't' ∷ []) c.type)
    && c.tab_id == tab
    && leb start (times.commented_at c)
    && ltb (times.commented_at c) end_

-- The messages in a time that the page did not send, in every tab.
abbrev pub is_received : Times → ℕ → ℕ → ℕ → Message → Bool
is_received times sender start end_ m =
    not (m.sender_id == sender) && leb start (times.messaged_at m) && ltb (times.messaged_at m) end_

abbrev pub is_message : Times → ℕ → ℕ → ℕ → ℕ → Message → Bool
is_message times tab sender start end_ m = m.tab_id == tab && is_received times sender start end_ m

abbrev pub is_queued : Times → ℕ → ℕ → String → ℕ → ℕ → HotQueueMessage → Bool
is_queued times sender tab type start end_ m =
    m.tab_id == tab
    && str_eq m.message_type type
    && not (m.sender_id == sender)
    && leb start (times.queued_at m)
    && ltb (times.queued_at m) end_

-- DashboardStatisticPercentDTO
pub record Percent : Type 0 where
  pub total_comment : ℕ
  pub total_message : ℕ
  pub hot_queue_comment : ℕ
  pub hot_queue_message : ℕ

-- `sender ? await count(sender.id) : otherwise`
unfoldable pub if_sender :
    {A : Type 0} → Option SocialSender → A → (SocialSender → Exec Store A) → Exec Store A
if_sender none otherwise f = pure otherwise
if_sender (some sender) otherwise f = f sender

module _ (prisma : Client) (clock : Clock) (times : Times) where
  unfoldable pub count_comment_per : (ℕ → ℕ) → ℕ → ℕ → ℕ → Exec Store (List (ℕ × ℕ))
  count_comment_per key tab start end_ = do
    comments ← find_many (social_message_model prisma) (is_comment times tab start end_)
    pure (tally (λ (c : SocialMessage). key (times.commented_at c)) comments [])

  unfoldable pub count_message_per_day : ℕ → ℕ → ℕ → ℕ → Exec Store (List (ℕ × ℕ))
  count_message_per_day tab sender start end_ = do
    messages ← find_many (message_model prisma) (is_message times tab sender start end_)
    pure (tally (λ (m : Message). clock.iso_day (times.messaged_at m)) messages [])

  -- The tab is not asked for.
  unfoldable pub count_message_per_hour : ℕ → ℕ → ℕ → ℕ → Exec Store (List (ℕ × ℕ))
  count_message_per_hour tab sender start end_ = do
    messages ← find_many (message_model prisma) (is_received times sender start end_)
    pure (tally (λ (m : Message). clock.hours (times.messaged_at m)) messages [])

  unfoldable pub hour_chart : ℕ → Option SocialSender → ℕ → ℕ → Exec Store Chart
  hour_chart tab sender start end_ = do
    comments ← count_comment_per clock.hours tab start end_
    messages ← if_sender sender [] (λ x. count_message_per_hour tab x.id start end_)
    pure (merge_data comments messages)

  unfoldable pub day_chart : ℕ → Option SocialSender → ℕ → ℕ → Exec Store Chart
  day_chart tab sender start end_ = do
    comments ← count_comment_per clock.iso_day tab start end_
    messages ← if_sender sender [] (λ x. count_message_per_day tab x.id start end_)
    pure (merge_data comments messages)

  unfoldable pub get_line_chart : ℕ → ℕ → ℕ → Exec Store Chart
  get_line_chart tab date_start date_end = technical do
    sender ← page_sender prisma tab
    if clock.midnight date_start == clock.midnight date_end
        then hour_chart tab sender (clock.midnight date_start) (clock.midnight date_end + day)
        else day_chart tab sender (clock.midnight date_start) (clock.midnight date_end + day)

  unfoldable pub count_comment : ℕ → ℕ → ℕ → Exec Store ℕ
  count_comment tab start end_ =
      technical (count_rows (social_message_model prisma) (is_comment times tab start end_))

  unfoldable pub count_message : ℕ → ℕ → ℕ → ℕ → Exec Store ℕ
  count_message sender tab start end_ =
      technical (count_rows (message_model prisma) (is_message times tab sender start end_))

  unfoldable pub count_hot_queue : ℕ → ℕ → String → ℕ → ℕ → Exec Store ℕ
  count_hot_queue sender tab type start end_ =
      technical
        (count_rows (hot_queue_message_model prisma) (is_queued times sender tab type start end_))

  -- The counts for the days from `start`, up to `end_` without it.
  unfoldable pub percent : ℕ → Option SocialSender → ℕ → ℕ → Exec Store Percent
  percent tab sender start end_ = do
    comments ← count_comment tab start end_
    messages ← if_sender sender 0 (λ x. count_message x.id tab start end_)
    queued_comments ← if_sender sender 0 (λ x. count_hot_queue x.id tab "Comment" start end_)
    queued_messages ← if_sender sender 0 (λ x. count_hot_queue x.id tab "Message" start end_)
    pure (record {
      total_comment = comments;
      total_message = messages;
      hot_queue_comment = queued_comments;
      hot_queue_message = queued_messages;
    })

  unfoldable pub get_pie_chart : ℕ → ℕ → ℕ → Exec Store Percent
  get_pie_chart tab date_start date_end = technical do
    sender ← page_sender prisma tab
    percent tab sender (clock.midnight date_start) (clock.midnight date_end + day)
