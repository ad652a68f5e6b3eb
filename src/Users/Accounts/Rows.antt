-- ===== src/Users/Accounts/Rows.antt =====
-- The rows of accounts, what is shown of them, and what the services of src/modules/users change.
use social_listening_backend.Platform.{Strings}
use social_listening_backend.Exec.{record_does_not_exist, thrown, Error}
use social_listening_backend.Schema.{User}
use social_listening_backend.Base.{
  [], ◌∷◌, ltb, ◌==◌, not, ◌&&◌, str_eq, false, if◌then◌else◌, true, none, some, List, Bool, Option,
  String, ℕ,
}

-- The fields that `excludeData` leaves of a user.
pub record PublicUser : Type 0 where
  pub id : ℕ
  pub email : String
  pub user_name : String
  pub full_name : String
  pub phone_number : Option String
  pub is_active : Bool
  pub gender : String

abbrev pub exclude_data : User → PublicUser
exclude_data u = record {
  id = u.id;
  email = u.email;
  user_name = u.user_name;
  full_name = u.full_name;
  phone_number = u.phone_number;
  is_active = u.is_active;
  gender = u.gender;
}

pub record CreateUserDto : Type 0 where
  pub email : String
  pub password : String

-- The role is optional there; a caller sets it before it creates the employee. An import may leave
-- out the names.
pub record CreateEmployeeDto : Type 0 where
  pub user_name : Option String
  pub full_name : Option String
  pub password : String
  pub email : String
  pub role_id : ℕ
  pub gender : Option String

-- A telephone number that is undefined is none, and one that is null `some none`.
pub record EditEmployeeDto : Type 0 where
  pub id : ℕ
  pub user_name : String
  pub full_name : String
  pub email : String
  pub phone_number : Option (Option String)
  pub gender : Option String

pub record UpdateAccountDto : Type 0 where
  pub email : String
  pub user_name : String
  pub full_name : String
  pub phone_number : Option (Option String)
  pub gender : Option String

pub record UpdatePasswordDto : Type 0 where
  pub new_password : String
  pub old_password : String

-- What `getUserInfo` and `getRoleAndPermission` answer.
pub record UserInfo : Type 0 where
  pub user : PublicUser
  pub role : String
  pub permissions : List String

abbrev pub old_password_mismatch : Error
old_password_mismatch = thrown "Old Password does not match"

-- A column that an update is given no value for stays; a null is written.
abbrev given : Option (Option String) → Option String → Option String
given none old = old
given (some new) old = new

-- `a ?? b`
abbrev pub or_else : Option String → String → String
or_else none b = b
or_else (some a) b = a

module _ (strings : Strings) where
  -- `getGender`
  unfoldable pub get_gender : Option String → String
  get_gender none = "Other"
  get_gender (some gender) =
      if str_eq (strings.lower_case gender) (strings.lower_case "Male")
      then "Male"
      else if str_eq (strings.lower_case gender) (strings.lower_case "Female")
      then "Female"
      else "Other"

  abbrev pub edited_account : UpdateAccountDto → User → User
  unfolding get_gender
  edited_account dto u = record u {
    email = dto.email;
    user_name = dto.user_name;
    full_name = dto.full_name;
    phone_number = given dto.phone_number u.phone_number;
    gender = get_gender dto.gender;
  }

  abbrev pub edited_employee : EditEmployeeDto → User → User
  edited_employee dto u = record u {
    email = dto.email;
    user_name = dto.user_name;
    full_name = dto.full_name;
    phone_number = given dto.phone_number u.phone_number;
    gender = get_gender dto.gender;
  }

-- The row of `createUser`, with the defaults of the schema.
abbrev pub registered : String → String → ℕ → ℕ → User
registered email hashed role k = record {
  id = k;
  email = email;
  user_name = email;
  full_name = email;
  phone_number = none;
  refresh_token = none;
  password = hashed;
  role_id = role;
  deleted = false;
  is_active = false;
  gender = "Other";
}

abbrev pub employee : Strings → CreateEmployeeDto → String → ℕ → User
employee strings dto hashed k = record {
  id = k;
  email = dto.email;
  user_name = or_else dto.user_name dto.email;
  full_name = or_else dto.full_name dto.email;
  phone_number = none;
  refresh_token = none;
  password = hashed;
  role_id = dto.role_id;
  deleted = false;
  is_active = true;
  gender = get_gender strings dto.gender;
}

abbrev pub with_password : String → User → User
with_password hashed u = record u { password = hashed }

abbrev pub with_refresh_token : Option String → User → User
with_refresh_token token u = record u { refresh_token = token }

abbrev pub removed_user : User → User
removed_user u = record u { deleted = true }

abbrev pub confirmed : User → User
confirmed u = record u { is_active = true }

abbrev pub user_not_found : Error
user_not_found = thrown "Not found user with id"

-- An error P2025 becomes a NotFoundException.
abbrev pub explained : Error → Error
explained record_does_not_exist = user_not_found
explained e = e

-- A live account of the e-mail.
abbrev pub has_email : String → User → Bool
has_email email u = str_eq u.email email && not u.deleted

abbrev pub higher : ℕ → Option ℕ → ℕ
higher level none = level
higher level (some other) = if ltb level other then other else level

-- `maxRoleLevel`; the -1 of the code is none.
unfoldable pub max_level : List ℕ → Option ℕ
max_level [] = none
max_level (level ∷ rest) = some (higher level (max_level rest))

-- The `switch` of `getRoleOfUser`
unfoldable pub level_name : ℕ → String
level_name level =
    if level == 5
    then "ADMIN"
    else if level == 4
    then "OWNER"
    else if level == 3
    then "MANAGER"
    else "SUPPORTER"
