-- ===== src/Reply.antt =====
-- src/common/models/dto/returnResult.ts: what a handler of a controller answers.
pub mod Rules
use social_listening_backend.Base.{if◌then◌else◌, Bool, Option, none, some}
use social_listening_backend.Exec.{Exec, Error, pure, throw, try_catch, ◌>>=◌}
use social_listening_backend.Store.{Store}

-- `ReturnResult`: a result, or a message; the message of a failure outside the code is not modelled.
pub data Reply (A : Type 0) : Type 0 where
  result : A → Reply A
  message : Error → Reply A

abbrev pub replying : {A : Type 0} → Exec Store A → Exec Store (Reply A)
replying m = try_catch (m >>= λ a. pure (result a)) (λ e. pure (message e))

-- A handler whose catch gives its own message.
abbrev pub replying_with : {A : Type 0} → Error → Exec Store A → Exec Store (Reply A)
replying_with e m = try_catch (m >>= λ a. pure (result a)) (λ _. pure (message e))

-- `if (!x) throw new Error(…)`
unfoldable pub or_throw : {A : Type 0} → Option A → Error → Exec Store A
or_throw none e = throw e
or_throw (some a) e = pure a

-- `if (condition) throw new Error(…)`
unfoldable pub throw_if : Bool → Error → Exec Store (Unit {0})
throw_if condition e = if condition then throw e else pure tt

-- `if (found) throw new Error(…)`
unfoldable pub throw_if_some : {A : Type 0} → Option A → Error → Exec Store (Unit {0})
throw_if_some none e = pure tt
throw_if_some (some a) e = throw e

-- `if (reply.result === null) throw new Error(reply.message)`
unfoldable pub result_of : {A : Type 0} → Reply A → Exec Store A
result_of (result a) = pure a
result_of (message e) = throw e
