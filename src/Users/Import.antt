-- ===== src/Users/Import.antt =====
-- The import of accounts: `importData` and `checkData` of src/modules/users/services/user.service.ts,
-- `plainToClassCustom` of src/utils/hepler.ts, and `importUser` of user.controller.ts. A row of the
-- sheet is the list of its cells, each a header and a text.
pub mod Counts
pub mod Data
use social_listening_backend.Async.{required}
use social_listening_backend.Users.Groups.{add_user_to_group, get_social_group_by_manager_id}
use social_listening_backend.Social.Lookups.{get_role_by_role_name}
use social_listening_backend.Reply.{result_of, throw_if, result, message, Reply}
use social_listening_backend.Files.{save_file, Upload}
use social_listening_backend.Schema.{Role}
use social_listening_backend.Users.Accounts.{create_employee, get_gender, CreateEmployeeDto}
use social_listening_backend.Users.Requests.{Requester}
use social_listening_backend.Notifications.{create_notification, NotificationDto}
use social_listening_backend.Lists.{length, find}
use social_listening_backend.Store.{Event, emit, Store, Client}
use social_listening_backend.Platform.{Bcrypt, Strings}
use social_listening_backend.Schema.Accounts.{SocialGroup, ImportResult}
use social_listening_backend.Exec.{◌>>◌, try_catch, non_null, pure, ◌>>=◌, Exec, thrown, Error}
use social_listening_backend.Base.{
  not, true, [], ◌∷◌, leb, suc, str_eq, ◌&&◌, ℕ, if◌then◌else◌, false, Bool, List, Option, String,
  none, some,
}

-- A header of the sheet and the property that it stands for.
pub record Column : Type 0 where
  pub header : String
  pub props : String

pub record ImportEmployeeDto : Type 0 where
  pub user_name : Option String
  pub full_name : Option String
  pub password : Option String
  pub email : Option String
  pub gender : Option String

abbrev pub Row : Type 0
Row = List (String × String)

-- Whether the first column of the header is for the property.
abbrev is_props : String → Option Column → Bool
is_props props none = false
is_props props (some c) = str_eq c.props props

abbrev pub stands_for : List Column → String → String → Bool
stands_for mapping props header =
    is_props props (find (λ (c : Column). str_eq c.header header) mapping)

-- `Object.entries(input).forEach(([k, v]) => { … this[propertyKey] = v; })`, seen at one property:
-- its value before the loop, and after it.
unfoldable pub assigned : List Column → String → Option String → Row → Option String
assigned mapping props value [] = value
assigned mapping props value ((header, cell) ∷ rest) =
    assigned mapping props (if stands_for mapping props header then some cell else value) rest

unfoldable pub plain_to_class_custom : List Column → Row → ImportEmployeeDto
plain_to_class_custom mapping row = record {
  user_name = assigned mapping "userName" none row;
  full_name = assigned mapping "fullName" none row;
  password = assigned mapping "password" none row;
  email = assigned mapping "email" none row;
  gender = assigned mapping "gender" none row;
}

abbrev pub refused : Error
refused = thrown ""

abbrev pub not_allowed_to_import : Error
not_allowed_to_import = thrown "You cannot allow to import file"

abbrev pub no_import : ImportResult
no_import = record { total_import = 0; import_success = 0; import_failure = 0 }

-- One row more, imported or not.
abbrev pub counted : Bool → ImportResult → ImportResult
counted imported r =
    if imported
    then record r { import_success = suc r.import_success }
    else record r { import_failure = suc r.import_failure }

abbrev pub import_notice : ImportResult → NotificationDto
import_notice r = record {
  type = "External Success";
  title = some "Import Account Successfully";
  body = some "Click to view import result";
  extend_data = some r;
}

module _ (strings : Strings) where
  abbrev pub employee_of : ImportEmployeeDto → String → String → ℕ → CreateEmployeeDto
  employee_of user email password role = record {
    user_name = user.user_name;
    full_name = user.full_name;
    password = password;
    email = email;
    role_id = role;
    gender = some (get_gender strings user.gender);
  }

  -- `checkData`
  unfoldable pub check_data : String → String → Bool
  check_data email password =
      strings.is_email email
      && leb 8 (strings.code_units password)
      && leb (strings.code_units password) 50

module _ (prisma : Client) (crypt : Bcrypt) (strings : Strings) where
  unfoldable pub import_row :
      Option Role → Option SocialGroup → ImportEmployeeDto → Exec Store (Unit {0})
  import_row owner group user = do
    email ← non_null user.email
    password ← non_null user.password
    throw_if (not (check_data strings email password)) refused
    found ← get_role_by_role_name prisma "SUPPORTER"
    role ← non_null found
    above ← non_null owner
    throw_if (leb above.level role.level) refused
    created ← create_employee prisma crypt strings (employee_of strings user email password role.id)
    new_user ← result_of created
    own ← non_null group
    add_user_to_group prisma new_user.id own.id
    pure tt

  unfoldable pub import_rows :
      Option Role
      → Option SocialGroup
      → List Column
      → List Row
      → ImportResult
      → Exec Store ImportResult
  import_rows owner group mapping [] r = pure r
  import_rows owner group mapping (row ∷ rows) r =
      try_catch (import_row owner group (plain_to_class_custom mapping row) >>= λ _. pure true)
        (λ _. pure false)
      >>= λ imported. import_rows owner group mapping rows (counted imported r)

  -- The `try` of `importData`. The mapping is none where it does not parse.
  unfoldable pub import_sheet : List Row → ℕ → Option (List Column) → Exec Store ImportResult
  import_sheet rows owner mapping =
      try_catch
        (do
          role ← get_role_by_role_name prisma "OWNER"
          group ← get_social_group_by_manager_id prisma owner
          columns ← required mapping
          import_rows role group columns rows (record no_import { total_import = length rows }))
        (λ _. pure no_import)

  -- The result is what the notification shows.
  unfoldable pub import_data : List Row → ℕ → Option (List Column) → Exec Store ImportResult
  import_data rows owner mapping = do
    r ← import_sheet rows owner mapping
    create_notification prisma (import_notice r) owner
    pure r

module _ (prisma : Client) where
  unfoldable pub on_import_user : Requester → Upload → Exec Store (Reply Bool)
  on_import_user user file =
      if str_eq user.role "ADMIN" then pure (message not_allowed_to_import) else (do
        save_file prisma file user.id
        emit (Event.queue_import file.path user.id)
        pure (result true))
