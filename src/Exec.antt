-- ===== src/Exec.antt =====
-- An asynchronous method: it reads and writes a state and returns or throws. What was written
-- before a throw stays written, so the state comes back beside the error too.
pub mod Runs
use social_listening_backend.Base.{Option, none, some, List, [], ◌∷◌, String}

-- What a `catch` receives: the message of an `Error` thrown by the code, the error P2025 of the
-- database client for a record that does not exist, another failure of a call outside the code,
-- or the TypeError of reading a field of null.
pub data Error : Type 0 where
  thrown : String → Error
  record_does_not_exist call_failed type_error : Error

pub data Result {ℓ} (A : Type ℓ) : Type ℓ where
  ok : A → Result A
  err : Error → Result A

abbrev pub Exec {ℓ} : Type ℓ → Type ℓ → Type ℓ
Exec S A = S → Result A × S

module _ {ℓ} {S A : Type ℓ} where
  pub pure : A → Exec S A
  pure a s = (ok a, s)

  pub throw : Error → Exec S A
  throw e s = (err e, s)

  pub gets : (S → A) → Exec S A
  gets f s = (ok (f s), s)

  -- `x.field` where `x` may be null
  pub non_null : Option A → Exec S A
  non_null none s = (err type_error, s)
  non_null (some a) s = (ok a, s)

  -- An action with no failure.
  pub modify : A → (S → S) → Exec S A
  modify a f s = (ok a, f s)

  abbrev recover : Result A → (Error → Exec S A) → Exec S A
  recover (ok a) h s = (ok a, s)
  recover (err e) h s = h e s

  -- `try { m } catch (error) { handle }`
  unfoldable pub try_catch : Exec S A → (Error → Exec S A) → Exec S A
  unfolding pure throw gets non_null modify
  try_catch m h s = let (r, s') = m s in recover r h s'

module _ {ℓ} {S A B : Type ℓ} where
  abbrev continue : Result A → (A → Exec S B) → Exec S B
  continue (ok a) f s = f a s
  continue (err e) f s = (err e, s)

  infixl 5 ◌>>=◌ ◌>>◌
  -- Opening this opens the actions above too.
  unfoldable pub ◌>>=◌ : Exec S A → (A → Exec S B) → Exec S B
  unfolding try_catch pure throw gets non_null modify
  ◌>>=◌ m f s = let (r, s') = m s in continue r f s'

  abbrev pub ◌>>◌ : Exec S A → Exec S B → Exec S B
  m >> k = m >>= λ _. k

-- `for (const x of list) { body(x) }`
unfoldable pub for_each {ℓ} : {S A : Type ℓ} → (A → Exec S (Unit {ℓ})) → List A → Exec S (Unit {ℓ})
unfolding ◌>>=◌
for_each body [] = pure tt
for_each body (x ∷ xs) = let rest = for_each body xs in body x >> rest
