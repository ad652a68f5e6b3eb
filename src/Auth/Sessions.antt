-- ===== src/Auth/Sessions.antt =====
-- src/modules/token/services/token.service.ts, the accounts and sessions of
-- src/modules/auth/services/auth.service.ts, and the strategies of guards/jwt.stategy.ts,
-- refresh.stategy.ts and local.strategy.ts. The time is a number of milliseconds, an argument.
use social_listening_backend.Users.Groups.{add_user_to_group, check_activate, create_social_group}
use social_listening_backend.Social.Lookups.{get_user_by_id, get_setting_by_key_and_group}
use social_listening_backend.Reply.{
  throw_if_some, throw_if, result, message, replying_with, replying, or_throw, Reply,
}
use social_listening_backend.Schema.{User, Setting}
use social_listening_backend.Schema.Accounts.{Token}
use social_listening_backend.Users.Accounts.{
  exclude_data, get_role_and_permission, create_user, get_role_of_user, active_account,
  get_user_info, get_user_by_email, CreateUserDto, PublicUser, UserInfo,
}
use social_listening_backend.Platform.{
  expired, invalid, valid, of_email, of_id, of_user, invalid, of_id, Strings, Bcrypt, Jwt, of_user,
  valid, of_email, Verified, Payload,
}
use social_listening_backend.Store.{Event, emit, find_first, token_model, create, Store, Client}
use social_listening_backend.Exec.{
  ◌>>◌, pure, try_catch, throw, ◌>>=◌, non_null, Exec, thrown, Error,
}
use social_listening_backend.Base.{
  is_some, str_eq, true, if◌then◌else◌, not, ◌+◌, ◌&&◌, leb, ◌==◌, none, some, Bool, false, Option,
  String, ℕ,
}

-- 60 * 60 * 1000
abbrev pub one_hour : ℕ
one_hour = 3600000

abbrev pub new_token : String → ℕ → ℕ → Token
new_token token now k = record { id = k; token = token; date_expires = now; deleted = false }

abbrev pub live_token : ℕ → Token → Bool
live_token id t = t.id == id && not t.deleted

-- Whether the hour of the token is not over.
unfoldable pub in_time : ℕ → Option Token → Bool
in_time now none = false
in_time now (some t) = leb now (t.date_expires + one_hour)

-- `token?.token`
abbrev token_text : Option Token → Option String
token_text none = none
token_text (some t) = some t.token

abbrev pub setting_value : Option Setting → Exec Store String
setting_value found = non_null found >>= λ setting. pure setting.value

abbrev pub bad_token : Error
bad_token = thrown "Bad confirmation token"

abbrev pub token_expired : Error
token_expired = thrown "Email confirmation token expired"

abbrev pub wrong_reset_token : Error
wrong_reset_token = thrown "Wrong reset password token"

abbrev pub reset_token_expired : Error
reset_token_expired = thrown "Reset password token expired"

abbrev pub wrong_credentials : Error
wrong_credentials = thrown "Wrong credentials provided"

abbrev pub deactivated_account : Error
deactivated_account = thrown "Your account have been deactivated or deleted"

abbrev pub already_confirmed : Error
already_confirmed = thrown "Email already confirmed"

abbrev pub email_taken : Error
email_taken = thrown "Email exists. Try with another email"

abbrev pub email_not_found : Error
email_not_found = thrown "Email is not found"

abbrev pub invalid_token : Error
invalid_token = thrown "Invalid token"

module _ (prisma : Client) (now : ℕ) where
  unfoldable pub create_token : String → Exec Store Token
  create_token token = create (token_model prisma) (new_token token now)

  unfoldable pub validate_token : ℕ → Exec Store Bool
  validate_token id = do
    found ← find_first (token_model prisma) (live_token id)
    pure (in_time now found)

  unfoldable pub get_token : ℕ → Exec Store (Option String)
  get_token id = do
    checked ← validate_token id
    if checked
        then (do found ← find_first (token_model prisma) (live_token id); pure (token_text found))
        else pure none

module _ (prisma : Client) where
  unfoldable pub token_secret : Exec Store String
  token_secret = do
    found ← get_setting_by_key_and_group prisma "TOKEN_SECRET" "ACTIVATE_ACCOUNT"
    setting_value found

  unfoldable pub confirm_email : String → Exec Store Bool
  confirm_email email = do
    found ← get_user_by_email prisma email
    user ← non_null found
    throw_if user.is_active already_confirmed
    active_account prisma user.id

-- A payload that carries an e-mail, or an identifier: of the tokens that the code signs, those of
-- sessions carry both.
abbrev email_of : Payload → Option String
email_of (of_email email) = some email
email_of (of_id id) = none
email_of (of_user id email role permissions) = some email

abbrev id_of : Payload → Option ℕ
id_of (of_email email) = none
id_of (of_id id) = some id
id_of (of_user id email role permissions) = some id

-- `catch (error)` of `decodeToken`: the exception of a payload without an e-mail is one of them.
abbrev decoded_email : Verified → Exec Store String
decoded_email expired = throw token_expired
decoded_email invalid = throw bad_token
decoded_email (valid payload) = or_throw (email_of payload) bad_token

abbrev decoded_id : Verified → Exec Store ℕ
decoded_id expired = throw reset_token_expired
decoded_id invalid = throw wrong_reset_token
decoded_id (valid payload) = or_throw (id_of payload) wrong_reset_token

abbrev session_user : Verified → Option ℕ
session_user (valid payload) = id_of payload
session_user expired = none
session_user invalid = none

-- The setting of how long a token of the type lives.
abbrev lifetime_key : String → String
lifetime_key type =
    if str_eq type "ACCESS" then "TOKEN_EXPIRATION_TIME" else "REFRESH_TOKEN_EXPIRATION_TIME"

abbrev payload_of : UserInfo → Payload
payload_of info = of_user info.user.id info.user.email info.role info.permissions

module _ (prisma : Client) (jwt : Jwt) (now : ℕ) where
  -- `verify` under the secret of the settings
  unfoldable pub verified : String → Exec Store Verified
  verified token = do secret ← token_secret prisma; pure (jwt.verify now secret token)

  -- Every other failure is a bad token, also one of the database.
  unfoldable pub decode_token : String → Exec Store String
  decode_token token = do
    answer ← try_catch (verified token) (λ _. pure invalid)
    decoded_email answer

  unfoldable pub decode_reset_token : String → Exec Store (Reply ℕ)
  decode_reset_token token =
      replying do answer ← try_catch (verified token) (λ _. pure invalid); decoded_id answer

  unfoldable pub get_user_from_auth_token : String → Exec Store (Option ℕ)
  get_user_from_auth_token token =
      try_catch (verified token >>= λ answer. pure (session_user answer)) (λ _. pure none)

  -- What the links share: a token with a payload under the settings, kept in its table.
  unfoldable pub link_token : String → Payload → Exec Store (ℕ × String)
  link_token url payload = do
    found ← get_setting_by_key_and_group prisma "TOKEN_SECRET" "ACTIVATE_ACCOUNT"
    expires ← get_setting_by_key_and_group prisma "TOKEN_EXPIRATION_TIME" "ACTIVATE_ACCOUNT"
    domain ← get_setting_by_key_and_group prisma url "DOMAIN"
    secret ← setting_value found
    seconds ← setting_value expires
    kept ← create_token prisma now (jwt.sign now secret seconds payload)
    address ← setting_value domain
    pure (kept.id, address)

  unfoldable pub send_recovery_password_link : User → Exec Store (Unit {0})
  send_recovery_password_link user = do
    (token, url) ← link_token "RECOVERY_PASSWORD_URL" (of_id user.id)
    emit (Event.queue_email user.email url token)

  unfoldable pub send_verification_link : String → Exec Store (Unit {0})
  send_verification_link email = do
    (token, url) ← link_token "EMAIL_CONFIRMATION_URL" (of_email email)
    emit (Event.queue_email email url token)

  unfoldable pub resend_confirmation_link : ℕ → Exec Store (Reply Bool)
  resend_confirmation_link user = replying_with already_confirmed do
    found ← get_user_by_id prisma user
    u ← non_null found
    throw_if u.is_active already_confirmed
    send_verification_link u.email
    pure true

  unfoldable pub forgot_password : String → Exec Store (Reply Bool)
  forgot_password email = replying_with email_not_found do
    found ← get_user_by_email prisma email
    user ← or_throw found email_not_found
    send_recovery_password_link user
    pure true

  -- The user as the request will carry it: an admin with the role of the account, another one with
  -- the highest role in a tab.
  unfoldable pub session_info : ℕ → Exec Store UserInfo
  session_info user = do
    info ← get_user_info prisma user
    if str_eq info.role "ADMIN"
        then pure info
        else (get_role_of_user prisma user >>= get_role_and_permission prisma user)

  unfoldable pub get_jwt_token : ℕ → String → Exec Store String
  get_jwt_token user type = do
    found ← get_setting_by_key_and_group prisma "TOKEN_SECRET" "ACTIVATE_ACCOUNT"
    expires ← get_setting_by_key_and_group prisma (lifetime_key type) "ACTIVATE_ACCOUNT"
    info ← session_info user
    secret ← setting_value found
    seconds ← setting_value expires
    pure (jwt.sign now secret seconds (payload_of info))

module _ (prisma : Client) (crypt : Bcrypt) where
  -- The password that comes in is compared with the hash; the failure is thrown on with its message.
  unfoldable pub get_authenticated_user : String → String → Exec Store PublicUser
  get_authenticated_user email password = do
    found ← get_user_by_email prisma email
    user ← non_null found
    throw_if (not (crypt.compare password user.password)) wrong_credentials
    info ← get_user_info prisma user.id
    active ← check_activate prisma user.id
    throw_if (not (is_some active) && not (str_eq info.role "ADMIN")) deactivated_account
    pure (exclude_data user)

-- `if (user.result) { … }` of `register`
module _ (prisma : Client) (crypt : Bcrypt) (strings : Strings) (jwt : Jwt) (now : ℕ) where
  unfoldable pub open_group : Reply PublicUser → Exec Store (Reply PublicUser)
  open_group (message e) = pure (message e)
  open_group (result user) = do
    send_verification_link prisma jwt now user.email
    group ← create_social_group prisma user.email user.id
    add_user_to_group prisma user.id group.id
    pure (result user)

  unfoldable pub register : CreateUserDto → Exec Store (Reply PublicUser)
  register dto =
      try_catch
        (do
          exist ← get_user_by_email prisma (strings.lower_case dto.email)
          throw_if_some exist email_taken
          user ←
              create_user prisma crypt (record dto { email = strings.lower_case dto.email }) false
          open_group user)
        (λ e. pure (message e))
