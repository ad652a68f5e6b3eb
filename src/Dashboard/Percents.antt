-- ===== src/Dashboard/Percents.antt =====
-- What the counts of the pie chart are, in terms of the rows of the tables.
use mathlib.Core.Path.{subst}
use social_listening_backend.Base.{ℕ, ◌≡◌, refl, sym, ap, Bool, Option, none, some}
use social_listening_backend.Lists.{count}
use social_listening_backend.Exec.{Exec, ◌>>=◌}
use social_listening_backend.Exec.Runs.{Runs, Runs-bind, Runs-pure}
use social_listening_backend.Async.{technical}
use social_listening_backend.Async.Rules.{Runs-technical}
use social_listening_backend.Schema.{SocialSender}
use social_listening_backend.Store.{
  Store, Client, Model, tick, count_rows, social_message_model, message_model,
  hot_queue_message_model,
}
use social_listening_backend.Store.Rules.{Runs-count_rows}
use social_listening_backend.Dashboard.{
  Clock, Times, Percent, if_sender, is_comment, is_message, is_queued, count_comment, count_message,
  count_hot_queue, percent,
}
use social_listening_backend.Social.Pages.{OnlyRead}
use social_listening_backend.Dashboard.Charts.{with_sender}

-- The counts for a tab and the page's sender, from `start`, up to `end_` without it.
abbrev pub percent_of : Times → ℕ → Option SocialSender → ℕ → ℕ → Store → Percent
percent_of times tab o start end_ s = record {
  total_comment = count (is_comment times tab start end_) s.social_messages;
  total_message = with_sender o (λ x. count (is_message times tab x start end_) s.messages);
  hot_queue_comment =
      with_sender o (λ x. count (is_queued times x tab "Comment" start end_) s.hot_queue_messages);
  hot_queue_message =
      with_sender o (λ x. count (is_queued times x tab "Message" start end_) s.hot_queue_messages);
}

-- A count of rows, and the rest of the block with the number of rows in the first state.
technical-Runs :
    {R : Type 0} {id : R → ℕ} (m : Model id) (p : R → Bool) (s t : Store) {A : Type 0}
    {Q : A → Store → Type 0} (g : ℕ → Exec Store A)
    → OnlyRead s t
    → m.rows t ≡ m.rows s
    → ((u : Store) → OnlyRead s u → Runs Q (λ _ u. OnlyRead s u) (g (count p (m.rows s)) u))
    → Runs Q (λ _ u. OnlyRead s u) ((technical (count_rows m p) >>= g) t)
technical-Runs m p s t {Q = Q} g r same k = Runs-bind _ _ t (
    Runs-technical _ t (
      Runs-count_rows m t p
        (subst (λ n. Runs Q (λ _ u. OnlyRead s u) (g n (tick t))) (ap (count p) (sym same))
          (k (tick t) (ap tick r)))
        (λ _. ap tick r)))

if_sender-technical :
    {R : Type 0} {id : R → ℕ} (m : Model id) (p : ℕ → R → Bool) (s t : Store) {A : Type 0}
    {Q : A → Store → Type 0} (o : Option SocialSender) (g : ℕ → Exec Store A)
    → OnlyRead s t
    → m.rows t ≡ m.rows s
    → ((u : Store)
        → OnlyRead s u
        → Runs Q (λ _ u. OnlyRead s u) (g (with_sender o (λ x. count (p x) (m.rows s))) u))
    → Runs Q
        (λ _ u. OnlyRead s u)
        ((if_sender o 0 (λ x. technical (count_rows m (p x.id))) >>= g) t)
unfolding if_sender
if_sender-technical m p s t none g r same k = Runs-bind _ _ t (Runs-pure 0 t (k t r))
if_sender-technical m p s t (some x) g r same k = technical-Runs m (p x.id) s t g r same k

-- The counts of the pie chart change nothing and are those of the rows of the first state.
pub percent-percent_of :
    (prisma : Client) (clock : Clock) (times : Times) (tab : ℕ) (o : Option SocialSender)
    (start end_ : ℕ) (s t : Store)
    → OnlyRead s t
    → Runs
        (λ p u. OnlyRead s u × (p ≡ percent_of times tab o start end_ s))
        (λ _ u. OnlyRead s u)
        (percent prisma clock times tab o start end_ t)
unfolding percent count_comment count_message count_hot_queue
percent-percent_of prisma clock times tab o start end_ s t r =
    technical-Runs (social_message_model prisma) (is_comment times tab start end_) s t _ r
      (ap (λ (u : Store). u.social_messages) r)
      λ u r.
        if_sender-technical (message_model prisma) (λ x. is_message times tab x start end_) s u o _
          r (ap (λ (u : Store). u.messages) r)
          λ u r.
            if_sender-technical (hot_queue_message_model prisma)
              (λ x. is_queued times x tab "Comment" start end_) s u o _ r
              (ap (λ (u : Store). u.hot_queue_messages) r)
              λ u r.
                if_sender-technical (hot_queue_message_model prisma)
                  (λ x. is_queued times x tab "Message" start end_) s u o _ r
                  (ap (λ (u : Store). u.hot_queue_messages) r) λ u r. Runs-pure _ u (r, refl)
