-- ===== src/Dashboard/Merge.antt =====
-- Merging the counts of comments and messages: what a chart shows for a day or an hour.
use social_listening_backend.Base.{
  ℕ, ◌+◌, ◌≡◌, refl, ◌==◌, List, [], ◌∷◌, ◌++◌, map, arith, if◌then◌else◌,
}
use social_listening_backend.Lists.{count}
use social_listening_backend.Dashboard.{
  Point, Item, comment_item, message_item, Chart, no_point, merge_item, merge_items, merge_data,
  increment, tally,
}

-- The point of a key; where there is none, nothing was counted.
unfoldable pub at : ℕ → Chart → Point
at k [] = no_point
at k ((j, p) ∷ rest) = if j == k then p else at k rest

-- What the items of a key add up to.
abbrev comments_of : ℕ → Item → ℕ
comments_of k (comment_item j n) = if j == k then n else 0
comments_of k (message_item j n) = 0

abbrev messages_of : ℕ → Item → ℕ
messages_of k (comment_item j n) = 0
messages_of k (message_item j n) = if j == k then n else 0

abbrev sum : (Item → ℕ) → List Item → ℕ
sum f [] = 0
sum f (i ∷ is) = f i + sum f is

abbrev pub total : ℕ → List (ℕ × ℕ) → ℕ
total k [] = 0
total k ((j, n) ∷ rest) = (if j == k then n else 0) + total k rest

comments-merge_item :
    (k : ℕ) (i : Item) (arr : Chart)
    → (at k (merge_item i arr)).comment_count ≡ (at k arr).comment_count + comments_of k i
unfolding at merge_item
comments-merge_item k (comment_item j n) [] = ground arith
comments-merge_item k (message_item j n) [] = ground arith
comments-merge_item k (comment_item j n) ((l, p) ∷ rest) =
    ground (arith, comments-merge_item k (comment_item j n) rest)
comments-merge_item k (message_item j n) ((l, p) ∷ rest) =
    ground (arith, comments-merge_item k (message_item j n) rest)

messages-merge_item :
    (k : ℕ) (i : Item) (arr : Chart)
    → (at k (merge_item i arr)).message_count ≡ (at k arr).message_count + messages_of k i
unfolding at merge_item
messages-merge_item k (comment_item j n) [] = ground arith
messages-merge_item k (message_item j n) [] = ground arith
messages-merge_item k (comment_item j n) ((l, p) ∷ rest) =
    ground (arith, messages-merge_item k (comment_item j n) rest)
messages-merge_item k (message_item j n) ((l, p) ∷ rest) =
    ground (arith, messages-merge_item k (message_item j n) rest)

comments-merge_items :
    (k : ℕ) (is : List Item) (arr : Chart)
    → (at k (merge_items is arr)).comment_count ≡ (at k arr).comment_count + sum (comments_of k) is
unfolding merge_items
comments-merge_items k [] arr = omega arith
comments-merge_items k (i ∷ is) arr =
    omega (arith, comments-merge_items k is (merge_item i arr), comments-merge_item k i arr)

messages-merge_items :
    (k : ℕ) (is : List Item) (arr : Chart)
    → (at k (merge_items is arr)).message_count ≡ (at k arr).message_count + sum (messages_of k) is
unfolding merge_items
messages-merge_items k [] arr = omega arith
messages-merge_items k (i ∷ is) arr =
    omega (arith, messages-merge_items k is (merge_item i arr), messages-merge_item k i arr)

sum-append : (f : Item → ℕ) (is js : List Item) → sum f (is ++ js) ≡ sum f is + sum f js
sum-append f [] js = omega arith
sum-append f (i ∷ is) js = omega (arith, sum-append f is js)

-- The two kinds of items, one after the other.
abbrev items : List (ℕ × ℕ) → List (ℕ × ℕ) → List Item
items comments messages =
    map (λ (c : ℕ × ℕ). comment_item c.0 c.1) comments
    ++ map (λ (m : ℕ × ℕ). message_item m.0 m.1) messages

sum-comments :
    (k : ℕ) (cs : List (ℕ × ℕ))
    → sum (comments_of k) (map (λ (c : ℕ × ℕ). comment_item c.0 c.1) cs) ≡ total k cs
sum-comments k [] = refl
sum-comments k ((j, n) ∷ cs) = omega (arith, sum-comments k cs)

sum-other_comments :
    (k : ℕ) (ms : List (ℕ × ℕ))
    → sum (comments_of k) (map (λ (m : ℕ × ℕ). message_item m.0 m.1) ms) ≡ 0
sum-other_comments k [] = refl
sum-other_comments k (m ∷ ms) = omega (arith, sum-other_comments k ms)

sum-messages :
    (k : ℕ) (ms : List (ℕ × ℕ))
    → sum (messages_of k) (map (λ (m : ℕ × ℕ). message_item m.0 m.1) ms) ≡ total k ms
sum-messages k [] = refl
sum-messages k ((j, n) ∷ ms) = omega (arith, sum-messages k ms)

sum-other_messages :
    (k : ℕ) (cs : List (ℕ × ℕ))
    → sum (messages_of k) (map (λ (c : ℕ × ℕ). comment_item c.0 c.1) cs) ≡ 0
sum-other_messages k [] = refl
sum-other_messages k (c ∷ cs) = omega (arith, sum-other_messages k cs)

-- A chart shows for each key what the comments and the messages of that key add up to.
pub merge_data-total :
    (k : ℕ) (comments messages : List (ℕ × ℕ))
    → ((at k (merge_data comments messages)).comment_count ≡ total k comments)
      × ((at k (merge_data comments messages)).message_count ≡ total k messages)
unfolding merge_data at
merge_data-total k cs ms = (
  omega (
    arith,
    comments-merge_items k (items cs ms) [],
    sum-append (comments_of k) (map (λ (c : ℕ × ℕ). comment_item c.0 c.1) cs)
        (map (λ (m : ℕ × ℕ). message_item m.0 m.1) ms),
    sum-comments k cs,
    sum-other_comments k ms,
  ),
  omega (
    arith,
    messages-merge_items k (items cs ms) [],
    sum-append (messages_of k) (map (λ (c : ℕ × ℕ). comment_item c.0 c.1) cs)
        (map (λ (m : ℕ × ℕ). message_item m.0 m.1) ms),
    sum-messages k ms,
    sum-other_messages k cs,
  ),
)

total-increment :
    (k j : ℕ) (arr : List (ℕ × ℕ))
    → total k (increment j arr) ≡ (if j == k then 1 else 0) + total k arr
unfolding increment
total-increment k j [] = omega arith
total-increment k j ((l, n) ∷ rest) = ground (arith, total-increment k j rest)

-- Counting rows by a key gives each key as many rows as have it.
pub total-tally :
    {R : Type 0} (k : ℕ) (key : R → ℕ) (rows : List R) (arr : List (ℕ × ℕ))
    → total k (tally key rows arr) ≡ total k arr + count (λ r. key r == k) rows
unfolding tally
total-tally k key [] arr = omega arith
total-tally k key (r ∷ rs) arr =
    omega (arith, total-tally k key rs (increment (key r) arr), total-increment k (key r) arr)
