-- ===== src/Auth/Requests.antt =====
-- src/modules/auth/controllers/auth.controller.ts, and the log of
-- src/modules/activityLogs/services/log.service.ts.
use social_listening_backend.Async.{technical_issue}
use social_listening_backend.Auth.Sessions.{
  confirm_email, validate_token, decode_token, invalid_token, decode_reset_token, get_jwt_token,
  get_token,
}
use social_listening_backend.Reply.{message, replying, or_throw, result, replying_with, Reply}
use social_listening_backend.Users.Accounts.{
  reset_password, set_refresh_token, remove_token, PublicUser,
}
use social_listening_backend.Platform.{Bcrypt, Jwt}
use social_listening_backend.Exec.{throw, pure, ◌>>◌, ◌>>=◌, try_catch, Exec}
use social_listening_backend.Schema.Accounts.{ActivityLog}
use social_listening_backend.Store.{activity_log_model, create, Store, Client}
use social_listening_backend.Base.{Bool, some, ℕ, String}

-- `Token` of dtos/token.dto.ts
pub record SessionTokens : Type 0 where
  pub access : String
  pub refresh : String

abbrev pub login_entry : String → ℕ → ActivityLog
login_entry name k = record { id = k; activity_type = some "LOGIN"; user_name = name }

-- `decodeData.message == null`
abbrev pub reset_with : (ℕ → Exec Store (Reply Bool)) → Reply ℕ → Exec Store (Reply Bool)
reset_with reset (result user) = reset user
reset_with reset (message e) = throw e

module _ (prisma : Client) where
  unfoldable pub create_log : (ℕ → ActivityLog) → Exec Store (Unit {0})
  create_log entry =
      try_catch (create (activity_log_model prisma) entry >>= λ _. pure tt) (λ _. pure tt)

  unfoldable pub log_out : ℕ → Exec Store (Reply Bool)
  log_out user = try_catch (remove_token prisma user) (λ _. pure (message technical_issue))

module _ (prisma : Client) (jwt : Jwt) (now : ℕ) where
  -- `getToken`, and the throw where there is none
  unfoldable pub stored_token : ℕ → Exec Store String
  stored_token id = do found ← get_token prisma now id; or_throw found invalid_token

  unfoldable pub on_confirm : ℕ → Exec Store (Reply Bool)
  on_confirm id = replying do
    token ← stored_token id
    email ← decode_token prisma jwt now token
    confirm_email prisma email

  unfoldable pub on_validate_token : ℕ → Exec Store (Reply Bool)
  on_validate_token id = replying (validate_token prisma now id)

module _ (prisma : Client) (crypt : Bcrypt) (jwt : Jwt) (now : ℕ) where
  -- What logging in and refreshing share: two tokens, of which the second is kept as a hash.
  unfoldable pub open_session : ℕ → Exec Store SessionTokens
  open_session user = do
    access ← get_jwt_token prisma jwt now user "ACCESS"
    refresh ← get_jwt_token prisma jwt now user "REFRESH"
    set_refresh_token prisma crypt refresh user
    pure (record { access = access; refresh = refresh })

  unfoldable pub log_in : PublicUser → Exec Store (Reply SessionTokens)
  log_in user =
      replying_with technical_issue do
        tokens ← open_session user.id
        create_log prisma (login_entry user.user_name)
        pure tokens

  unfoldable pub refresh_session : ℕ → Exec Store (Reply SessionTokens)
  refresh_session user = replying_with technical_issue (open_session user)

  unfoldable pub on_reset_password : ℕ → String → Exec Store (Reply Bool)
  on_reset_password id password =
      try_catch
        (do
          token ← stored_token prisma jwt now id
          decoded ← decode_reset_token prisma jwt now token
          reset_with (λ user. reset_password prisma crypt user password) decoded)
        (λ e. pure (message e))
