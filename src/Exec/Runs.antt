-- ===== src/Exec/Runs.antt =====
-- What a run ends in: a postcondition for a return and one for a throw, with a rule for each way
-- to build an action.
use mathlib.Core.Path.{subst}
use social_listening_backend.Base.{
  List, [], ◌∷◌, Bool, true, false, Option, none, some, ◌≡◌, refl, if◌then◌else◌,
}
use social_listening_backend.Exec.{
  Exec, Result, ok, err, Error, type_error, pure, throw, gets, non_null, modify, try_catch, ◌>>=◌,
  for_each,
}

abbrev pub Post : {S A : Type 0} → (A → S → Type 0) → (Error → S → Type 0) → Result A × S → Type 0
Post Q E (ok a, s) = Q a s
Post Q E (err e, s) = E e s

pub record Runs {S A : Type 0} (Q : A → S → Type 0) (E : Error → S → Type 0) (o : Result A × S)
    : Type 0 where
  pub ends : Post Q E o

module _ {S A : Type 0} {Q : A → S → Type 0} {E : Error → S → Type 0} where
  pub Runs-pure : (a : A) (s : S) → Q a s → Runs Q E (pure a s)
  unfolding pure
  Runs-pure a s h = record { ends = h }

  pub Runs-throw : (e : Error) (s : S) → E e s → Runs Q E (throw {A = A} e s)
  unfolding throw
  Runs-throw e s h = record { ends = h }

  pub Runs-gets : (f : S → A) (s : S) → Q (f s) s → Runs Q E (gets f s)
  unfolding gets
  Runs-gets f s h = record { ends = h }

  pub Runs-modify : (a : A) (f : S → S) (s : S) → Q a (f s) → Runs Q E (modify a f s)
  unfolding modify
  Runs-modify a f s h = record { ends = h }

  pub Runs-non_null :
      (o : Option A) (s : S)
      → ((a : A) → o ≡ some a → Q a s)
      → (o ≡ none → E type_error s)
      → Runs Q E (non_null o s)
  unfolding non_null
  Runs-non_null none s h k = record { ends = k refl }
  Runs-non_null (some a) s h k = record { ends = h a refl }

  pub Runs-non_null-some : (a : A) (s : S) → Q a s → Runs Q E (non_null (some a) s)
  unfolding non_null
  Runs-non_null-some a s h = record { ends = h }

  pub Runs-non_null-none : (s : S) → E type_error s → Runs Q E (non_null none s)
  unfolding non_null
  Runs-non_null-none s h = record { ends = h }

  pub Runs-if :
      (b : Bool) (m n : Exec S A) (s : S)
      → (b ≡ true → Runs Q E (m s))
      → (b ≡ false → Runs Q E (n s))
      → Runs Q E ((if b then m else n) s)
  Runs-if true m n s h k = h refl
  Runs-if false m n s h k = k refl

  try-Runs :
      {E' : Error → S → Type 0} (o : Result A × S) (h : Error → Exec S A)
      → Runs Q E' o
      → ((e : Error) (s : S) → E' e s → Runs Q E (h e s))
      → Runs Q E (try_catch (λ _. o) h o.1)
  unfolding try_catch
  try-Runs (ok a, s) h r k = record { ends = r.ends }
  try-Runs (err e, s) h r k = k e s r.ends

  pub Runs-try_catch :
      {E' : Error → S → Type 0} (m : Exec S A) (h : Error → Exec S A) (s : S)
      → Runs Q E' (m s)
      → ((e : Error) (s : S) → E' e s → Runs Q E (h e s))
      → Runs Q E (try_catch m h s)
  unfolding try_catch
  Runs-try_catch m h s r k = try-Runs (m s) h r k

  -- A weaker postcondition.
  pub Runs-mono :
      {Q' : A → S → Type 0} {E' : Error → S → Type 0} {o : Result A × S}
      → Runs Q' E' o
      → ((a : A) (s : S) → Q' a s → Q a s)
      → ((e : Error) (s : S) → E' e s → E e s)
      → Runs Q E o
  Runs-mono {o = (ok a, s)} r h k = record { ends = h a s r.ends }
  Runs-mono {o = (err e, s)} r h k = record { ends = k e s r.ends }

  -- What a run ends in, with the equation of its outcome.
  pub Runs-outcome :
      (o : Result A × S)
      → Runs Q E o
      → Runs (λ a s. (o ≡ (ok a, s)) × Q a s) (λ e s. (o ≡ (err e, s)) × E e s) o
  Runs-outcome (ok a, s) r = record { ends = (refl, r.ends) }
  Runs-outcome (err e, s) r = record { ends = (refl, r.ends) }

  -- A run that returned has the postcondition of a return.
  pub Runs-ok : {o : Result A × S} {a : A} {s : S} → Runs Q E o → o ≡ (ok a, s) → Q a s
  Runs-ok r e = subst (Post Q E) e r.ends

module _ {S A B : Type 0} {Q : B → S → Type 0} {E : Error → S → Type 0} where
  continue-Runs :
      (o : Result A × S) (f : A → Exec S B)
      → Runs (λ a s. Runs Q E (f a s)) E o
      → Runs Q E (((λ _. o) >>= f) o.1)
  unfolding ◌>>=◌
  continue-Runs (ok a, s) f r = r.ends
  continue-Runs (err e, s) f r = record { ends = r.ends }

  -- A step is run so that what follows runs.
  pub Runs-bind :
      (m : Exec S A) (f : A → Exec S B) (s : S)
      → Runs (λ a s'. Runs Q E (f a s')) E (m s)
      → Runs Q E ((m >>= f) s)
  unfolding ◌>>=◌
  Runs-bind m f s r = continue-Runs (m s) f r

-- A loop keeps what each round keeps.
module _ {S A : Type 0} {I : S → Type 0} {E : Error → S → Type 0} where
  pub Runs-for_each :
      (body : A → Exec S (Unit {0})) (xs : List A) (s : S)
      → ((x : A) (s' : S) → I s' → Runs (λ _ t. I t) E (body x s'))
      → I s
      → Runs (λ _ t. I t) E (for_each body xs s)
  unfolding for_each
  Runs-for_each body [] s step h = record { ends = h }
  Runs-for_each body (x ∷ xs) s step h =
      Runs-bind (body x) (λ _. for_each body xs) s
        (Runs-mono (step x s h) (λ _ t h'. Runs-for_each body xs t step h') (λ e t h'. h'))

-- A loop, one round at a time.
module _ {S A : Type 0} {Q : Unit {0} → S → Type 0} {E : Error → S → Type 0}
    (body : A → Exec S (Unit {0})) where
  pub Runs-for_each-nil : (s : S) → Q tt s → Runs Q E (for_each body [] s)
  unfolding for_each
  Runs-for_each-nil s h = record { ends = h }

  pub Runs-for_each-cons :
      (x : A) (xs : List A) (s : S)
      → Runs (λ _ t. Runs Q E (for_each body xs t)) E (body x s)
      → Runs Q E (for_each body (x ∷ xs) s)
  unfolding for_each
  Runs-for_each-cons x xs s h = Runs-bind (body x) (λ _. for_each body xs) s h

-- A step that keeps an invariant, whether it returns or throws, and the rest from there.
module _ {S A B : Type 0} {I : S → Type 0} {Q : B → S → Type 0} where
  pub Runs-then :
      (m : Exec S A) (f : A → Exec S B) (s : S)
      → Runs (λ _ t. I t) (λ _ t. I t) (m s)
      → ((a : A) (t : S) → I t → Runs Q (λ _ t. I t) (f a t))
      → Runs Q (λ _ t. I t) ((m >>= f) s)
  Runs-then m f s r k = Runs-bind m f s (Runs-mono r k (λ e t h. h))
