-- ===== src/Auth.antt =====
-- src/modules/auth: the check of an API key, `validateAPIKey` of services/auth.service.ts and the
-- callback of guards/apiKey.strategy.ts; the guards of roles and permissions.
pub mod ApiKey
pub mod Login
pub mod Requests
pub mod Sessions
pub mod Tokens
use social_listening_backend.Base.{
  ℕ, String, Bool, true, false, ◌==◌, Option, none, some, List, [], ◌∷◌, if◌then◌else◌,
}
use social_listening_backend.Lists.{find, any}
use social_listening_backend.Text.{Text, split, text_eq}
use social_listening_backend.Schema.{Setting}
use social_listening_backend.Exec.{Exec, pure, ◌>>=◌}
use social_listening_backend.Social.Lookups.{get_setting_by_key_and_group}
use social_listening_backend.Store.{Store, Client}

-- What `validateAPIKey` returns: null, undefined, or a key.
pub data Validated : Type 0 where
  null_key undefined_key : Validated
  valid_key : Text → Validated

-- A call of `done`: with the answer true, or with an UnauthorizedException.
pub data Done : Type 0 where
  accepted unauthorized : Done

abbrev pub found_key : Option Text → Validated
found_key none = undefined_key
found_key (some key) = valid_key key

-- The keys are the pieces of the setting's value, between commas; an empty value has none.
unfoldable pub validate : Text → Text → Validated
validate [] api_key = null_key
validate (c ∷ cs) api_key = found_key (find (text_eq api_key) (split b',' (c ∷ cs)))

-- The calls of `done`: the second one is not in an else.
unfoldable pub answers : Validated → List Done
answers null_key = unauthorized ∷ []
answers undefined_key = accepted ∷ unauthorized ∷ []
answers (valid_key key) = accepted ∷ unauthorized ∷ []

-- The characters of a stored value are a parameter.
module _ (prisma : Client) (characters : String → Text) where
  abbrev pub validate_setting : Text → Option Setting → Validated
  validate_setting api_key none = null_key
  validate_setting api_key (some s) = validate (characters s.value) api_key

  unfoldable pub validate_api_key : Text → Exec Store Validated
  validate_api_key api_key = do
    setting ← get_setting_by_key_and_group prisma "APIKEY" "AUTH"
    pure (validate_setting api_key setting)

  unfoldable pub check_api_key : Text → Exec Store (List Done)
  check_api_key api_key = do validated ← validate_api_key api_key; pure (answers validated)

-- `RequestWithUser.user`, as the guards read it.
pub record RequestUser : Type 0 where
  pub role : Text
  pub permissions : Option (List Text)

-- PermissionGuard, after `super.canActivate`; the user may be missing.
unfoldable pub permission_guard : Text → Option RequestUser → Bool
permission_guard permission none = false
permission_guard permission (some user) = elim user.permissions [
  | none ↦ false
  | some permissions ↦ any (λ p. text_eq p permission) permissions
]

-- RoleGuard, likewise.
unfoldable pub role_guard : Text → Option RequestUser → Bool
role_guard role none = false
role_guard role (some user) = text_eq user.role role
