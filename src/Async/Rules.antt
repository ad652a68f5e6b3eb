-- ===== src/Async/Rules.antt =====
-- Rules of `Exec.Runs` for the idioms of the services.
use social_listening_backend.Base.{ap, ◌∙◌, ◌≡◌, refl, Option, none, some, List, [], ◌∷◌}
use social_listening_backend.Exec.{Exec, Result, ok, err, Error, call_failed, throw}
use social_listening_backend.Exec.Runs.{Runs, Runs-try_catch, Runs-throw}
use social_listening_backend.Async.{
  first_error, technical_issue, technical, required, promise_all, detached,
}

module _ {S A : Type 0} {Q : A → S → Type 0} {E : Error → S → Type 0} where
  pub Runs-technical :
      (m : Exec S A) (s : S) → Runs Q (λ _ t. E technical_issue t) (m s) → Runs Q E (technical m s)
  Runs-technical m s r =
      Runs-try_catch m (λ _. throw technical_issue) s r (λ e t h. Runs-throw _ t h)

  pub Runs-required :
      (o : Option A) (s : S)
      → ((a : A) → o ≡ some a → Q a s)
      → E call_failed s
      → Runs Q E (required o s)
  unfolding required
  Runs-required none s h k = record { ends = k }
  Runs-required (some a) s h k = record { ends = h a refl }

module _ {S A : Type 0} {I : S → Type 0} where
  pub step-Runs : (o : Result A × S) → Runs (λ _ t. I t) (λ _ t. I t) o → I o.1
  step-Runs (ok a, s) r = r.ends
  step-Runs (err e, s) r = r.ends

module _ {S : Type 0} {I : S → Type 0} where
  either-Runs : (o : Result (Unit {0}) × S) → I o.1 → Runs (λ _ t. I t) (λ _ t. I t) o
  either-Runs (ok a, s) h = record { ends = h }
  either-Runs (err e, s) h = record { ends = h }

module _ {S A : Type 0} {I : S → Type 0} where
  promise_all-keeps :
      (body : A → Exec S (Unit {0})) (xs : List A) (s : S)
      → ((x : A) (t : S) → I t → Runs (λ _ u. I u) (λ _ u. I u) (body x t))
      → I s
      → I (promise_all body xs s).1
  unfolding promise_all
  promise_all-keeps body [] s step h = h
  promise_all-keeps body (x ∷ xs) s step h =
      promise_all-keeps body xs (body x s).1 step (step-Runs (body x s) (step x s h))

  -- What every promise of a list keeps, the list keeps.
  pub Runs-promise_all :
      (body : A → Exec S (Unit {0})) (xs : List A) (s : S)
      → ((x : A) (t : S) → I t → Runs (λ _ u. I u) (λ _ u. I u) (body x t))
      → I s
      → Runs (λ _ t. I t) (λ _ t. I t) (promise_all body xs s)
  Runs-promise_all body xs s step h =
      either-Runs (promise_all body xs s) (promise_all-keeps body xs s step h)

  pub Runs-detached :
      {E : Error → S → Type 0} (body : A → Exec S (Unit {0})) (xs : List A) (s : S)
      → ((x : A) (t : S) → I t → Runs (λ _ u. I u) (λ _ u. I u) (body x t))
      → I s
      → Runs (λ _ t. I t) E (detached body xs s)
  unfolding detached
  Runs-detached body xs s step h = record { ends = promise_all-keeps body xs s step h }

-- What each promise of a list does to a view of the state, in the order of the list.
abbrev pub in_turn {ℓ} : {A : Type 0} {V : Type ℓ} → (A → V → V) → List A → V → V
in_turn f [] v = v
in_turn f (x ∷ xs) v = in_turn f xs (f x v)

module _ {S A V : Type 0} (view : S → V) (f : A → V → V) (body : A → Exec S (Unit {0})) where
  pub promise_all-view :
      (xs : List A) (s : S)
      → ((x : A) (t : S)
          → Runs (λ _ u. view u ≡ f x (view t)) (λ _ u. view u ≡ f x (view t)) (body x t))
      → view (promise_all body xs s).1 ≡ in_turn f xs (view s)
  unfolding promise_all
  promise_all-view [] s step = refl
  promise_all-view (x ∷ xs) s step =
      promise_all-view xs (body x s).1 step
      ∙ ap (in_turn f xs) (step-Runs {I = λ u. view u ≡ f x (view s)} (body x s) (step x s))

  -- The promises that nobody waits for, seen through the view once they have all run.
  pub Runs-detached-view :
      {Q : Unit {0} → S → Type 0} {E : Error → S → Type 0} (xs : List A) (s : S)
      → ((x : A) (t : S)
          → Runs (λ _ u. view u ≡ f x (view t)) (λ _ u. view u ≡ f x (view t)) (body x t))
      → ((t : S) → view t ≡ in_turn f xs (view s) → Q tt t)
      → Runs Q E (detached body xs s)
  unfolding detached
  Runs-detached-view xs s step k = record {
    ends = k (promise_all body xs s).1 (promise_all-view xs s step);
  }

-- A list of promises that are not rejected, one promise at a time.
module _ {S A : Type 0} {Q : Unit {0} → S → Type 0} (body : A → Exec S (Unit {0})) where
  pub Runs-promise_all-nil : (s : S) → Q tt s → Runs Q (λ _ _. ⊥) (promise_all body [] s)
  unfolding promise_all
  Runs-promise_all-nil s h = record { ends = h }

  rest-Runs :
      (xs : List A) (o : Result (Unit {0}) × S)
      → Runs (λ _ t. Runs Q (λ _ _. ⊥) (promise_all body xs t)) (λ _ _. ⊥) o
      → Runs Q
          (λ _ _. ⊥)
          (let (r, s') = o in let (r', s'') = promise_all body xs s' in (first_error r r', s''))
  rest-Runs xs (ok tt, s) r = r.ends
  rest-Runs xs (err e, s) r = absurd r.ends

  pub Runs-promise_all-cons :
      (x : A) (xs : List A) (s : S)
      → Runs (λ _ t. Runs Q (λ _ _. ⊥) (promise_all body xs t)) (λ _ _. ⊥) (body x s)
      → Runs Q (λ _ _. ⊥) (promise_all body (x ∷ xs) s)
  unfolding promise_all
  Runs-promise_all-cons x xs s r = rest-Runs xs (body x s) r
