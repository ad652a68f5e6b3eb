-- ===== src/Reply/Rules.antt =====
-- Rules of `Exec.Runs` for handlers and their checks.
use social_listening_backend.Base.{false, refl, true, ◌≡◌, Bool, Option, none, some}
use social_listening_backend.Exec.{Exec, Error}
use social_listening_backend.Exec.Runs.{
  Runs-if, Runs, Runs-bind, Runs-pure, Runs-throw, Runs-try_catch, Runs-mono,
}
use social_listening_backend.Store.{Store}
use social_listening_backend.Reply.{
  result_of, throw_if_some, throw_if, replying_with, Reply, result, message, replying, or_throw,
}

module _ {A : Type 0} {Q : Reply A → Store → Type 0} {E : Error → Store → Type 0} where
  -- A handler never throws.
  pub Runs-replying :
      (m : Exec Store A) (s : Store)
      → Runs (λ a t. Q (result a) t) (λ e t. Q (message e) t) (m s)
      → Runs Q E (replying m s)
  Runs-replying m s r =
      Runs-try_catch _ _ s (Runs-bind m _ s (Runs-mono r (λ a t h. Runs-pure _ t h) (λ e t h. h)))
        (λ e t h. Runs-pure _ t h)

  pub Runs-replying_with :
      (e : Error) (m : Exec Store A) (s : Store)
      → Runs (λ a t. Q (result a) t) (λ _ t. Q (message e) t) (m s)
      → Runs Q E (replying_with e m s)
  Runs-replying_with e m s r =
      Runs-try_catch _ _ s (Runs-bind m _ s (Runs-mono r (λ a t h. Runs-pure _ t h) (λ e t h. h)))
        (λ _ t h. Runs-pure _ t h)

module _ {A : Type 0} {Q : A → Store → Type 0} {E : Error → Store → Type 0} (e : Error)
    (s : Store) where
  pub Runs-or_throw-some : (a : A) → Q a s → Runs Q E (or_throw (some a) e s)
  unfolding or_throw
  Runs-or_throw-some a h = Runs-pure a s h

  pub Runs-or_throw-none : E e s → Runs Q E (or_throw none e s)
  unfolding or_throw
  Runs-or_throw-none h = Runs-throw e s h

pub Runs-throw_if :
    {Q : Unit {0} → Store → Type 0} {E : Error → Store → Type 0} (b : Bool) (e : Error) (s : Store)
    → (b ≡ true → E e s)
    → (b ≡ false → Q tt s)
    → Runs Q E (throw_if b e s)
unfolding throw_if
Runs-throw_if b e s h k = Runs-if b _ _ s (λ t. Runs-throw e s (h t)) (λ f. Runs-pure tt s (k f))

module _ {A : Type 0} {E : Error → Store → Type 0} (s : Store) where
  pub Runs-throw_if_some :
      {Q : Unit {0} → Store → Type 0} (o : Option A) (e : Error)
      → ((a : A) → o ≡ some a → E e s)
      → (o ≡ none → Q tt s)
      → Runs Q E (throw_if_some o e s)
  unfolding throw_if_some
  Runs-throw_if_some none e h k = Runs-pure tt s (k refl)
  Runs-throw_if_some (some a) e h k = Runs-throw e s (h a refl)

  pub Runs-result_of :
      {Q : A → Store → Type 0} (r : Reply A)
      → ((a : A) → r ≡ result a → Q a s)
      → ((e : Error) → r ≡ message e → E e s)
      → Runs Q E (result_of r s)
  unfolding result_of
  Runs-result_of (result a) h k = Runs-pure a s (h a refl)
  Runs-result_of (message e) h k = Runs-throw e s (k e refl)

  pub Runs-or_throw :
      {Q : A → Store → Type 0} (o : Option A) (e : Error)
      → ((a : A) → o ≡ some a → Q a s)
      → (o ≡ none → E e s)
      → Runs Q E (or_throw o e s)
  unfolding or_throw
  Runs-or_throw none e h k = Runs-throw e s (k refl)
  Runs-or_throw (some a) e h k = Runs-pure a s (h a refl)
