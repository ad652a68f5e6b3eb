-- ===== src/Platform.antt =====
-- What the code takes from the standard library and from packages for passwords, tokens and texts:
-- parameters of the models that use them, with the documented behaviour that the proofs rely on.
use social_listening_backend.Base.{◌≢◌, List, ℕ, String, Bool, true, ◌≡◌}

-- bcrypt: the salt of a hash is chosen anew each time, here by a number; comparing a password with
-- a hash of it succeeds.
pub record Bcrypt : Type 0 where
  pub hash : ℕ → String → String
  pub compare : String → String → Bool
  pub compare-hash : (salt : ℕ) (password : String) → compare password (hash salt password) ≡ true

-- `toLowerCase`, `length`, and the match with the regular expression of `validateEmail`.
pub record Strings : Type 0 where
  pub lower_case : String → String
  pub code_units : String → ℕ
  pub is_email : String → Bool

-- What the code signs: an e-mail to confirm, the user of a password to recover, or the user of a
-- session with the role and the permissions.
pub data Payload : Type 0 where
  of_email : String → Payload
  of_id : ℕ → Payload
  of_user : ℕ → String → String → List String → Payload

-- What `verify` answers: the payload, or the error of an expired token, or another one.
pub data Verified : Type 0 where
  valid : Payload → Verified
  expired invalid : Verified

-- jsonwebtoken: `sign now secret seconds payload` and `verify now secret token`; a signed token is
-- verified under its secret unless it has expired.
pub record Jwt : Type 0 where
  pub sign : ℕ → String → String → Payload → String
  pub verify : ℕ → String → String → Verified
  pub verify-sign :
      (now then_ : ℕ) (secret seconds : String) (payload : Payload)
      → verify then_ secret (sign now secret seconds payload) ≢ expired
      → verify then_ secret (sign now secret seconds payload) ≡ valid payload
