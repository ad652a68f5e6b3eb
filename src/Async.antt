-- ===== src/Async.antt =====
-- Idioms of the services: the catch that hides every failure behind one message, and lists of
-- promises. The promises of a list are run one after another, in the order of the list.
pub mod Rules
use social_listening_backend.Base.{String, Option, none, some, List, [], ◌∷◌}
use social_listening_backend.Exec.{
  Exec, Result, ok, err, Error, thrown, call_failed, pure, throw, try_catch,
}

-- ResponseMessage.MESSAGE_TECHNICAL_ISSUE
abbrev pub technical_issue : Error
technical_issue = thrown "Sorry, the system has an unexpected technical issue."

module _ {S A : Type 0} where
  -- `try { … } catch (error) { throw new Error(ResponseMessage.MESSAGE_TECHNICAL_ISSUE); }`
  abbrev pub technical : Exec S A → Exec S A
  technical m = try_catch m (λ _. throw technical_issue)

  -- A field of a hook's data that a call needs. Where it is missing the model fails; the client
  -- refuses an undefined value of a new row, but drops an undefined condition of a look-up.
  unfoldable pub required : Option A → Exec S A
  required none s = (err call_failed, s)
  required (some a) s = (ok a, s)

-- The first rejection decides.
abbrev first_error : Result (Unit {0}) → Result (Unit {0}) → Result (Unit {0})
first_error (ok _) r = r
first_error (err e) r = err e

module _ {S A : Type 0} where
  -- `await Promise.all(list.map(async (x) => { … }))`: every promise runs, also after a rejection.
  unfoldable pub promise_all : (A → Exec S (Unit {0})) → List A → Exec S (Unit {0})
  promise_all body [] s = (ok tt, s)
  promise_all body (x ∷ xs) s =
      let (r, s') = body x s in let (r', s'') = promise_all body xs s' in (first_error r r', s'')

  -- Promises that nobody waits for: a rejection is lost.
  unfoldable pub detached : (A → Exec S (Unit {0})) → List A → Exec S (Unit {0})
  unfolding promise_all
  detached body xs s = (ok tt, (promise_all body xs s).1)
