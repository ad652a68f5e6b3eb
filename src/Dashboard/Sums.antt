-- ===== src/Dashboard/Sums.antt =====
-- The points of a line chart add up to the counts of the pie chart.
use social_listening_backend.Dashboard.Percents.{percent-percent_of}
use social_listening_backend.Store.Rules.{Runs-find_many}
use social_listening_backend.Social.Pages.{OnlyRead}
use social_listening_backend.Dashboard.Charts.{with_sender}
use social_listening_backend.Exec.Runs.{Runs-mono, Runs-bind, Runs-pure, Runs}
use social_listening_backend.Exec.{pure, ◌>>=◌, Exec}
use social_listening_backend.Schema.{SocialMessage, SocialSender, Message}
use social_listening_backend.Store.{
  tick, social_message_model, message_model, find_many, Store, Client,
}
use social_listening_backend.Base.{
  ap, some, ◌≤◌, ◌∙◌, Option, ℕ, ◌+◌, ◌≡◌, refl, true, Bool, List, [], ◌∷◌, ◌++◌, map, arith, none,
}
use social_listening_backend.Lists.{count, keep}
use social_listening_backend.Lists.Count.{All-of_All, count_mono, count-keep-and}
use social_listening_backend.Dashboard.{
  percent, is_received, is_message, is_comment, count_message_per_hour, count_message_per_day,
  hour_chart, day_chart, if_sender, count_comment_per, Times, Clock, Point, Item, comment_item,
  message_item, Chart, no_point, add_item, merge_item, merge_items, merge_data, increment, tally,
}

abbrev pub sum_of : (Point → ℕ) → Chart → ℕ
sum_of f [] = 0
sum_of f ((k, p) ∷ rest) = f p + sum_of f rest

-- The comments and the messages that the points of a chart add up to.
abbrev pub comments_in : Chart → ℕ
comments_in = sum_of (λ p. p.comment_count)

abbrev pub messages_in : Chart → ℕ
messages_in = sum_of (λ p. p.message_count)

abbrev weight : (Item → ℕ) → List Item → ℕ
weight w [] = 0
weight w (i ∷ is) = w i + weight w is

-- What the counts of a tally add up to.
abbrev amount : List (ℕ × ℕ) → ℕ
amount [] = 0
amount ((k, n) ∷ rest) = n + amount rest

module _ (f : Point → ℕ) (w : Item → ℕ) (zero_point : f no_point ≡ 0)
    (adds : (i : Item) (p : Point) → f (add_item i p) ≡ f p + w i) where
  sum-merge_item : (i : Item) (arr : Chart) → sum_of f (merge_item i arr) ≡ sum_of f arr + w i
  unfolding merge_item
  sum-merge_item i [] = omega (arith, adds i no_point, zero_point)
  sum-merge_item i ((k, p) ∷ rest) = ground (arith, sum-merge_item i rest, adds i p)

  sum-merge_items :
      (is : List Item) (arr : Chart) → sum_of f (merge_items is arr) ≡ sum_of f arr + weight w is
  unfolding merge_items
  sum-merge_items [] arr = omega arith
  sum-merge_items (i ∷ is) arr =
      omega (arith, sum-merge_items is (merge_item i arr), sum-merge_item i arr)

weight-append : (w : Item → ℕ) (is js : List Item) → weight w (is ++ js) ≡ weight w is + weight w js
weight-append w [] js = omega arith
weight-append w (i ∷ is) js = omega (arith, weight-append w is js)

abbrev comment_weight : Item → ℕ
comment_weight (comment_item k n) = n
comment_weight (message_item k n) = 0

abbrev message_weight : Item → ℕ
message_weight (comment_item k n) = 0
message_weight (message_item k n) = n

adds_comments :
    (i : Item) (p : Point) → (add_item i p).comment_count ≡ p.comment_count + comment_weight i
adds_comments (comment_item k n) p = omega arith
adds_comments (message_item k n) p = omega arith

adds_messages :
    (i : Item) (p : Point) → (add_item i p).message_count ≡ p.message_count + message_weight i
adds_messages (comment_item k n) p = omega arith
adds_messages (message_item k n) p = omega arith

weights-comments :
    (cs : List (ℕ × ℕ))
    → (weight comment_weight (map (λ (c : ℕ × ℕ). comment_item c.0 c.1) cs) ≡ amount cs)
      × (weight message_weight (map (λ (c : ℕ × ℕ). comment_item c.0 c.1) cs) ≡ 0)
weights-comments [] = (refl, refl)
weights-comments ((k, n) ∷ cs) =
    let h = weights-comments cs in (omega (arith, h.0), omega (arith, h.1))

weights-messages :
    (ms : List (ℕ × ℕ))
    → (weight comment_weight (map (λ (m : ℕ × ℕ). message_item m.0 m.1) ms) ≡ 0)
      × (weight message_weight (map (λ (m : ℕ × ℕ). message_item m.0 m.1) ms) ≡ amount ms)
weights-messages [] = (refl, refl)
weights-messages ((k, n) ∷ ms) =
    let h = weights-messages ms in (omega (arith, h.0), omega (arith, h.1))

-- Merging loses no count.
merge_data-amount :
    (cs ms : List (ℕ × ℕ))
    → (comments_in (merge_data cs ms) ≡ amount cs) × (messages_in (merge_data cs ms) ≡ amount ms)
unfolding merge_data
merge_data-amount cs ms =
    let is = map (λ (c : ℕ × ℕ). comment_item c.0 c.1) cs in
    let js = map (λ (m : ℕ × ℕ). message_item m.0 m.1) ms in
    let c = weights-comments cs in
    let m = weights-messages ms in
    (
      omega (
        arith,
        sum-merge_items (λ p. p.comment_count) comment_weight refl adds_comments (is ++ js) [],
        weight-append comment_weight is js,
        c.0,
        m.0,
      ),
      omega (
        arith,
        sum-merge_items (λ p. p.message_count) message_weight refl adds_messages (is ++ js) [],
        weight-append message_weight is js,
        c.1,
        m.1,
      ),
    )

amount-increment : (k : ℕ) (arr : List (ℕ × ℕ)) → amount (increment k arr) ≡ 1 + amount arr
unfolding increment
amount-increment k [] = omega arith
amount-increment k ((j, n) ∷ rest) = ground (arith, amount-increment k rest)

amount-tally :
    {R : Type 0} (key : R → ℕ) (rows : List R) (arr : List (ℕ × ℕ))
    → amount (tally key rows arr) ≡ amount arr + count (λ _. true) rows
unfolding tally
amount-tally key [] arr = omega arith
amount-tally key (r ∷ rs) arr =
    omega (arith, amount-tally key rs (increment (key r) arr), amount-increment (key r) arr)

-- A tally of the rows that a query found adds up to their number.
amount-found :
    {R : Type 0} (key : R → ℕ) (p : R → Bool) (xs l : List R)
    → count (λ _. true) l ≡ count (λ _. true) (keep p xs)
    → amount (tally key l []) ≡ count p xs
amount-found key p xs l h = omega (arith, amount-tally key l [], h, count-keep-and (λ _. true) p xs)

module _ (prisma : Client) (clock : Clock) (times : Times) where
  comments-amount :
      (s t : Store) (key : ℕ → ℕ) (tab start end_ : ℕ) {A : Type 0} {Q : A → Store → Type 0}
      (g : List (ℕ × ℕ) → Exec Store A)
      → OnlyRead s t
      → ((l : List (ℕ × ℕ)) (u : Store)
          → OnlyRead s u
          → amount l ≡ count (is_comment times tab start end_) s.social_messages
          → Runs Q (λ _ t. OnlyRead s t) (g l u))
      → Runs Q
          (λ _ t. OnlyRead s t)
          ((count_comment_per prisma clock times key tab start end_ >>= g) t)
  unfolding count_comment_per
  comments-amount s t key tab start end_ g r k = Runs-bind _ _ t (
      Runs-bind _ _ t (
        Runs-find_many (social_message_model prisma) t (is_comment times tab start end_)
          (λ l c. Runs-pure _ _ (
            k _ _ (ap tick r) (
              amount-found (λ (c : SocialMessage). key (times.commented_at c))
                (is_comment times tab start end_) t.social_messages l (c (λ _. true))
              ∙ ap (λ (u : Store). count (is_comment times tab start end_) u.social_messages) r)))
          (λ _. ap tick r)))

  messages-amount :
      (s t : Store) (key : ℕ → ℕ) (test : ℕ → Message → Bool) (o : Option SocialSender)
      (f : SocialSender → Exec Store (List (ℕ × ℕ))) {A : Type 0} {Q : A → Store → Type 0}
      (g : List (ℕ × ℕ) → Exec Store A)
      → OnlyRead s t
      → ((x : SocialSender)
          → f x ≡ (
              find_many (message_model prisma) (test x.id) >>= λ messages.
              pure (tally (λ (m : Message). key (times.messaged_at m)) messages [])))
      → ((l : List (ℕ × ℕ)) (u : Store)
          → OnlyRead s u
          → amount l ≡ with_sender o (λ x. count (test x) s.messages)
          → Runs Q (λ _ t. OnlyRead s t) (g l u))
      → Runs Q (λ _ t. OnlyRead s t) ((if_sender o [] f >>= g) t)
  unfolding if_sender
  messages-amount s t key test none f g r e k = Runs-bind _ _ t (Runs-pure _ t (k [] t r refl))
  messages-amount s t key test (some x) f g r e k = Runs-bind _ _ t (
      rw (e x) (
        Runs-bind _ _ t (
          Runs-find_many (message_model prisma) t (test x.id)
            (λ l c. Runs-pure _ _ (
              k _ _ (ap tick r) (
                amount-found (λ (m : Message). key (times.messaged_at m)) (test x.id) t.messages l
                  (c (λ _. true))
                ∙ ap (λ (u : Store). count (test x.id) u.messages) r)))
            (λ _. ap tick r))))

  -- What a chart adds up to.
  abbrev AddsUp : (ℕ → Message → Bool) → ℕ → ℕ → ℕ → Option SocialSender → Store → Chart → Type 0
  AddsUp test tab start end_ o s chart =
      (comments_in chart ≡ count (is_comment times tab start end_) s.social_messages)
      × (messages_in chart ≡ with_sender o (λ x. count (test x) s.messages))

  merged :
      (test : ℕ → Message → Bool) (tab start end_ : ℕ) (o : Option SocialSender) (s : Store)
      (cs ms : List (ℕ × ℕ))
      → amount cs ≡ count (is_comment times tab start end_) s.social_messages
      → amount ms ≡ with_sender o (λ x. count (test x) s.messages)
      → AddsUp test tab start end_ o s (merge_data cs ms)
  merged test tab start end_ o s cs ms h i =
      let both = merge_data-amount cs ms in (both.0 ∙ h, both.1 ∙ i)

  day_chart-AddsUp :
      (tab : ℕ) (o : Option SocialSender) (start end_ : ℕ) (s : Store)
      → Runs
          (λ chart t.
            OnlyRead s t × AddsUp (λ x. is_message times tab x start end_) tab start end_ o s chart)
          (λ _ t. OnlyRead s t)
          (day_chart prisma clock times tab o start end_ s)
  unfolding day_chart count_message_per_day
  day_chart-AddsUp tab o start end_ s =
      comments-amount s s clock.iso_day tab start end_ _ refl (λ cs u r h.
        messages-amount s u clock.iso_day (λ x. is_message times tab x start end_) o _ _ r
          (λ x. refl) (λ ms v r' i. Runs-pure _ v (r', merged _ tab start end_ o s cs ms h i)))

  hour_chart-AddsUp :
      (tab : ℕ) (o : Option SocialSender) (start end_ : ℕ) (s : Store)
      → Runs
          (λ chart t.
            OnlyRead s t × AddsUp (λ x. is_received times x start end_) tab start end_ o s chart)
          (λ _ t. OnlyRead s t)
          (hour_chart prisma clock times tab o start end_ s)
  unfolding hour_chart count_message_per_hour
  hour_chart-AddsUp tab o start end_ s =
      comments-amount s s clock.hours tab start end_ _ refl (λ cs u r h.
        messages-amount s u clock.hours (λ x. is_received times x start end_) o _ _ r (λ x. refl)
          (λ ms v r' i. Runs-pure _ v (r', merged _ tab start end_ o s cs ms h i)))

  received_more :
      (tab start end_ : ℕ) (o : Option SocialSender) (ms : List Message)
      → with_sender o (λ x. count (is_message times tab x start end_) ms)
        ≤ with_sender o (λ x. count (is_received times x start end_) ms)
  received_more tab start end_ none ms = omega arith
  received_more tab start end_ (some x) ms =
      count_mono (is_message times tab x.id start end_) (is_received times x.id start end_) ms
        (All-of_All _ ms (λ m h. ground arith))

  -- For the same tab, page's sender and time, the comments of all points of the line chart, by day
  -- or by hour, add up to the number of comments that the pie chart shows. So do the messages of
  -- the line chart by day; by hour, where the tab is not asked for, they are at least as many as the
  -- pie chart shows. No request changes anything, whether it returns or throws.
  pub charts-percent :
      (tab : ℕ) (o : Option SocialSender) (start end_ : ℕ) (s : Store)
      → Runs
          (λ (chart, p) t.
            OnlyRead s t
            × (comments_in chart ≡ p.total_comment)
            × (messages_in chart ≡ p.total_message))
          (λ _ t. OnlyRead s t)
          ((day_chart prisma clock times tab o start end_ >>= λ chart.
              percent prisma clock times tab o start end_ >>= λ p. pure (chart, p))
            s)
        × Runs
            (λ (chart, p) t.
              OnlyRead s t
              × (comments_in chart ≡ p.total_comment)
              × (p.total_message ≤ messages_in chart))
            (λ _ t. OnlyRead s t)
            ((hour_chart prisma clock times tab o start end_ >>= λ chart.
                percent prisma clock times tab o start end_ >>= λ p. pure (chart, p))
              s)
  charts-percent tab o start end_ s = (
    Runs-bind _ _ s (
        Runs-mono (day_chart-AddsUp tab o start end_ s)
          (λ chart t (r, sums). Runs-bind _ _ t (
            Runs-mono (percent-percent_of prisma clock times tab o start end_ s t r)
              (λ p u (r', e). Runs-pure _ u (rw e (r', sums.0, sums.1))) (λ _ _ h. h)))
          (λ _ _ h. h)),
    Runs-bind _ _ s (
        Runs-mono (hour_chart-AddsUp tab o start end_ s)
          (λ chart t (r, sums). Runs-bind _ _ t (
            Runs-mono (percent-percent_of prisma clock times tab o start end_ s t r)
              (λ p u (r', e). Runs-pure _ u (
                rw e
                  (r', sums.0, omega (arith, sums.1, received_more tab start end_ o s.messages))))
              (λ _ _ h. h)))
          (λ _ _ h. h)),
  )
