-- ===== src/Dashboard/Charts.antt =====
-- What the charts of the dashboard show, in terms of the rows of the tables.
use social_listening_backend.Social.Pages.{OnlyRead, Failed, PageSender, page_sender-PageSender}
use social_listening_backend.Filtering.{day}
use social_listening_backend.Base.{
  ◌∙◌, ◌+◌, ap, ℕ, ◌≡◌, ◌≢◌, refl, ◌==◌, Bool, Option, none, some, List, [], arith,
}
use social_listening_backend.Lists.{count, keep}
use social_listening_backend.Exec.{Exec, pure, ◌>>=◌}
use social_listening_backend.Exec.Runs.{Runs-if, Runs-mono, Runs, Runs-bind, Runs-pure}
use social_listening_backend.Async.Rules.{Runs-technical}
use social_listening_backend.Schema.{SocialSender, SocialMessage, Message}
use social_listening_backend.Store.{
  find_many, Store, Client, tick, social_message_model, message_model,
}
use social_listening_backend.Store.Rules.{Runs-find_many}
use social_listening_backend.Dashboard.{
  is_received, is_message, count_message_per_hour, count_message_per_day, get_line_chart,
  hour_chart, day_chart, merge_data, Clock, Times, Chart, if_sender, is_comment, tally,
  count_comment_per,
}
use social_listening_backend.Dashboard.Merge.{merge_data-total, at, total, total-tally}

-- As many as there are with a sender, and none without.
abbrev pub with_sender : Option SocialSender → (ℕ → ℕ) → ℕ
with_sender none f = 0
with_sender (some x) f = f x.id

-- The chart shows for each key the comments of the tab and the messages that pass the test.
abbrev pub Shows :
    Times
    → (ℕ → ℕ)
    → (ℕ → Message → Bool)
    → ℕ
    → ℕ
    → ℕ
    → Option SocialSender
    → Store
    → Chart
    → Type 0
Shows times key test tab start end_ o s chart =
    (k : ℕ)
    → ((at k chart).comment_count
        ≡ count (λ c. key (times.commented_at c) == k)
            (keep (is_comment times tab start end_) s.social_messages))
      × ((at k chart).message_count
          ≡ with_sender o
              (λ x. count (λ m. key (times.messaged_at m) == k) (keep (test x) s.messages)))

-- What the line chart of a time shows.
abbrev pub LineChart : Clock → Times → ℕ → ℕ → ℕ → Option SocialSender → Store → Chart → Type 0
LineChart clock times tab date_start date_end o s chart =
    let start = clock.midnight date_start in
    let end_ = clock.midnight date_end + day in
    (clock.midnight date_start ≡ clock.midnight date_end
      → Shows times clock.hours (λ x. is_received times x start end_) tab start end_ o s chart)
    × (clock.midnight date_start ≢ clock.midnight date_end
        → Shows times clock.iso_day (λ x. is_message times tab x start end_) tab start end_ o s
            chart)

module _ (prisma : Client) (clock : Clock) (times : Times) where
  comments-Runs :
      (s t : Store) (key : ℕ → ℕ) (tab start end_ : ℕ) {A : Type 0} {Q : A → Store → Type 0}
      (g : List (ℕ × ℕ) → Exec Store A)
      → OnlyRead s t
      → ((l : List (ℕ × ℕ)) (u : Store)
          → OnlyRead s u
          → ((k : ℕ)
              → total k l
                ≡ count
                    (λ c. key (times.commented_at c) == k)
                    (keep (is_comment times tab start end_) s.social_messages))
          → Runs Q (λ _ t. OnlyRead s t) (g l u))
      → Runs Q
          (λ _ t. OnlyRead s t)
          ((count_comment_per prisma clock times key tab start end_ >>= g) t)
  unfolding count_comment_per
  comments-Runs s t key tab start end_ g r k = Runs-bind _ _ t (
      Runs-bind _ _ t (
        Runs-find_many (social_message_model prisma) t (is_comment times tab start end_)
          (λ l c. Runs-pure _ _ (
            k _ _ (ap tick r) (λ key'. omega (
              arith,
              total-tally key' (λ (c : SocialMessage). key (times.commented_at c)) l [],
              c (λ c. key (times.commented_at c) == key'),
              ap
                  (λ (u : Store).
                    count (λ c. key (times.commented_at c) == key')
                      (keep (is_comment times tab start end_) u.social_messages))
                  r,
            ))))
          (λ _. ap tick r)))

  if_sender-Runs :
      (s t : Store) (key : ℕ → ℕ) (test : ℕ → Message → Bool) (o : Option SocialSender)
      (f : SocialSender → Exec Store (List (ℕ × ℕ))) {A : Type 0} {Q : A → Store → Type 0}
      (g : List (ℕ × ℕ) → Exec Store A)
      → OnlyRead s t
      → ((x : SocialSender)
          → f x ≡ (
              find_many (message_model prisma) (test x.id) >>= λ messages.
              pure (tally (λ (m : Message). key (times.messaged_at m)) messages [])))
      → ((l : List (ℕ × ℕ)) (u : Store)
          → OnlyRead s u
          → ((k : ℕ)
              → total k l
                ≡ with_sender o
                    (λ x. count (λ m. key (times.messaged_at m) == k) (keep (test x) s.messages)))
          → Runs Q (λ _ t. OnlyRead s t) (g l u))
      → Runs Q (λ _ t. OnlyRead s t) ((if_sender o [] f >>= g) t)
  unfolding if_sender
  if_sender-Runs s t key test none f g r e k =
      Runs-bind _ _ t (Runs-pure _ t (k [] t r (λ _. refl)))
  if_sender-Runs s t key test (some x) f g r e k = Runs-bind _ _ t (
      rw (e x) (
        Runs-bind _ _ t (
          Runs-find_many (message_model prisma) t (test x.id)
            (λ l c. Runs-pure _ _ (
              k _ _ (ap tick r) (λ key'. omega (
                arith,
                total-tally key' (λ (m : Message). key (times.messaged_at m)) l [],
                c (λ m. key (times.messaged_at m) == key'),
                ap
                    (λ (u : Store).
                      count (λ m. key (times.messaged_at m) == key') (keep (test x.id) u.messages))
                    r,
              ))))
            (λ _. ap tick r))))

  shown :
      (s : Store) (key : ℕ → ℕ) (test : ℕ → Message → Bool) (tab start end_ : ℕ)
      (o : Option SocialSender) (cs ms : List (ℕ × ℕ))
      → ((k : ℕ)
          → total k cs
            ≡ count
                (λ c. key (times.commented_at c) == k)
                (keep (is_comment times tab start end_) s.social_messages))
      → ((k : ℕ)
          → total k ms
            ≡ with_sender o
                (λ x. count (λ m. key (times.messaged_at m) == k) (keep (test x) s.messages)))
      → Shows times key test tab start end_ o s (merge_data cs ms)
  shown s key test tab start end_ o cs ms h i k =
      ((merge_data-total k cs ms).0 ∙ h k, (merge_data-total k cs ms).1 ∙ i k)

  day_chart-Shows :
      (s t : Store) (tab start end_ : ℕ) (o : Option SocialSender)
      → OnlyRead s t
      → Runs
          (λ chart u.
            OnlyRead s u
            × Shows times clock.iso_day
                (λ x. is_message times tab x start end_)
                tab
                start
                end_
                o
                s
                chart)
          (λ _ u. OnlyRead s u)
          (day_chart prisma clock times tab o start end_ t)
  unfolding day_chart count_message_per_day
  day_chart-Shows s t tab start end_ o r =
      comments-Runs s t clock.iso_day tab start end_ _ r (λ cs u r' h.
        if_sender-Runs s u clock.iso_day (λ x. is_message times tab x start end_) o _ _ r'
          (λ x. refl)
          (λ ms v r'' i. Runs-pure _ v (r'', shown s clock.iso_day _ tab start end_ o cs ms h i)))

  hour_chart-Shows :
      (s t : Store) (tab start end_ : ℕ) (o : Option SocialSender)
      → OnlyRead s t
      → Runs
          (λ chart u.
            OnlyRead s u
            × Shows times clock.hours
                (λ x. is_received times x start end_)
                tab
                start
                end_
                o
                s
                chart)
          (λ _ u. OnlyRead s u)
          (hour_chart prisma clock times tab o start end_ t)
  unfolding hour_chart count_message_per_hour
  hour_chart-Shows s t tab start end_ o r =
      comments-Runs s t clock.hours tab start end_ _ r (λ cs u r' h.
        if_sender-Runs s u clock.hours (λ x. is_received times x start end_) o _ _ r' (λ x. refl)
          (λ ms v r'' i. Runs-pure _ v (r'', shown s clock.hours _ tab start end_ o cs ms h i)))

  -- The line chart changes nothing. Where it succeeds, it shows for each day, or for each hour when
  -- the time is one day, how many comments of the tab that no bot or agent wrote came in, and how
  -- many messages that the page's sender did not send: of the tab by day, of all tabs by hour, none
  -- if the page has no sender. A failure is the technical error.
  pub get_line_chart-LineChart :
      (tab date_start date_end : ℕ) (s : Store)
      → Runs
          (λ chart t.
            OnlyRead s t
            × ((o : Option SocialSender) × PageSender s tab o
                × LineChart clock times tab date_start date_end o s chart))
          (λ e t. Failed s e t)
          (get_line_chart prisma clock times tab date_start date_end s)
  unfolding get_line_chart
  get_line_chart-LineChart tab date_start date_end s = Runs-technical _ s (
      Runs-mono
        (page_sender-PageSender prisma s tab _ (λ o t p r.
          Runs-if (clock.midnight date_start == clock.midnight date_end) _ _ t
            (λ same.
              Runs-mono (hour_chart-Shows s t tab _ _ o r)
                (λ chart u h. (h.0, (o, p, ((λ _. h.1), (λ ne. absurd (ne (ground arith)))))))
                (λ _ _ h. h))
            (λ other.
              Runs-mono (day_chart-Shows s t tab _ _ o r)
                (λ chart u h. (h.0, (o, p, ((λ e. absurd (ground arith)), (λ _. h.1)))))
                (λ _ _ h. h))))
        (λ _ _ h. h) (λ _ _ h. (refl, h)))
