-- ===== src/Tests/People.antt =====
-- The theorems on accounts, sessions, files and notifications, with the database that never fails.
use social_listening_backend.Schema.{Setting}
use social_listening_backend.Startup.{create_default_setting, list_setting}
use social_listening_backend.Startup.Settings.{create_default_setting-Complete, Complete, Extended}
use social_listening_backend.Users.Groups.{group_member, new_group}
use social_listening_backend.Files.Names.{get_file_name-get_file_extension}
use social_listening_backend.Lists.{All}
use social_listening_backend.Auth.Sessions.{new_token, get_token, get_authenticated_user}
use social_listening_backend.Exec.{◌>>=◌}
use social_listening_backend.Async.{technical_issue}
use social_listening_backend.Notifications.Read.{read_all_notification-all_read, all_read}
use social_listening_backend.Notifications.Attempts.{deliver-none, pushes}
use social_listening_backend.Auth.Tokens.{get_token-TokenFor, TokenFor}
use social_listening_backend.Auth.Login.{get_authenticated_user-Authenticated, Authenticated}
use social_listening_backend.Users.Levels.{get_role_of_user-RoleOf, RoleOf}
use social_listening_backend.Users.Import.{Column, Row}
use social_listening_backend.Users.Secrets.{set_refresh_token-get_user_by_token, Keeps}
use social_listening_backend.Users.Switch.{on_set_active-Switched, Switched}
use social_listening_backend.Tests.Samples.{members, person, supporter, manager, nothing_stored}
use social_listening_backend.Notifications.{
  connection, deliver, read_all_notification, new_notification,
}
use social_listening_backend.Files.{get_file_extension, get_file_name}
use social_listening_backend.Text.{Text}
use social_listening_backend.Exec.Runs.{Runs}
use social_listening_backend.Tests.Reliable.{in_order-Reliable, memory}
use social_listening_backend.Users.Emails.{UniqueUsers}
use social_listening_backend.Users.Accounts.{
  get_user_by_token, get_role_of_user, set_refresh_token, CreateEmployeeDto,
}
use social_listening_backend.Users.Requests.{on_set_active, on_create_employee, Requester}
use social_listening_backend.Store.{Store}
use social_listening_backend.Schema.Accounts.{Notification}
use Prim.Native.String.{len}
use social_listening_backend.Base.{
  ◌+◌, ◌≤◌, [], false, ◌++◌, ◌∷◌, ◌≡◌, arith, String, refl, true, str_eq, List, ◌≢◌, inl, inr, none,
  some, str_eq_iff,
}
use social_listening_backend.Platform.{Jwt, Strings, Bcrypt, expired}
use social_listening_backend.Schema.{Setting, Role, User}
use social_listening_backend.Users.Emails.Reach.{Reach-Unique, Reach, Step}

-- Passwords in the clear, e-mails in any form, and tokens that expire at once.
abbrev clear : Bcrypt
clear = record {
  hash = λ salt password. password;
  compare = str_eq;
  compare-hash = λ salt password. (str_eq_iff password password).1 refl;
}

abbrev texts : Strings
texts = record { lower_case = λ s. s; code_units = len; is_email = λ s. true }

abbrev short_lived : Jwt
short_lived = record {
  sign = λ now secret seconds payload. secret;
  verify = λ now secret token. expired;
  verify-sign = λ now then_ secret seconds payload h. absurd (h refl);
}

abbrev owner : Role
owner = record { id = 3; role_name = "OWNER"; level = 4 }

abbrev notice : Notification
notice =
    new_notification
      (record { type = "External Success"; title = none; body = none; extend_data = none }) 5 1

-- User 5 owns the group 3, which user 6 belongs to.
abbrev office : Store
office = record nothing_stored {
  roles = owner ∷ manager ∷ supporter ∷ [];
  users = person 5 "An" 3 ∷ person 6 "Binh" 2 ∷ [];
  social_groups = new_group "An" 5 3 ∷ [];
  users_in_group = group_member 5 3 1 ∷ group_member 6 3 2 ∷ [];
  users_in_tab = members;
  tokens = new_token "token" 1000 7 ∷ [];
  notifications = notice ∷ [];
  socket_connections = connection 5 "socket" ∷ [];
}

abbrev boss : Requester
boss = record { id = 5; role = "OWNER" }

abbrev new_employee : CreateEmployeeDto
new_employee = record {
  user_name = none;
  full_name = some "Chi";
  password = "password";
  email = "Chi";
  role_id = 0;
  gender = none;
}

hired : Store
hired = (on_create_employee memory clear texts boss new_employee office).1

an_not_binh : ◌≢◌ {A = String} "An" "Binh"
an_not_binh = ground (arith, str_eq_iff "An" "Binh")

office-UniqueUsers : UniqueUsers office.users
office-UniqueUsers = record {
  ids = λ k. ground arith;
  emails = λ email. ground (arith, str_eq_iff "An" email, str_eq_iff "Binh" email, an_not_binh);
}

hired-Reach : Reach memory clear texts short_lived office hired
unfolding hired
hired-Reach = Reach.next Reach.here (Step.creates_employee boss new_employee)

Reach-Unique_example : UniqueUsers hired.users
Reach-Unique_example = Reach-Unique memory clear texts short_lived office-UniqueUsers hired-Reach

get_role_of_user-RoleOf_example :
    Runs
      (λ name t. (t ≡ record office { calls = t.calls }) × RoleOf office 6 name)
      (λ e t. (e ≡ technical_issue) × (t ≡ record office { calls = t.calls }))
      (get_role_of_user memory 6 office)
get_role_of_user-RoleOf_example = get_role_of_user-RoleOf memory 6 office

on_set_active-Switched_example :
    Runs (Switched false boss 6 office) (λ _ _. ⊥) (on_set_active memory false boss 6 office)
on_set_active-Switched_example = on_set_active-Switched memory false boss 6 office

set_refresh_token-get_user_by_token_example :
    Runs
      (λ o _. Keeps 6 o)
      (λ _ _. ⊥)
      ((set_refresh_token memory clear "refresh" 6 >>= λ _.
          get_user_by_token memory clear "refresh" 6)
        office)
set_refresh_token-get_user_by_token_example =
    set_refresh_token-get_user_by_token memory clear (in_order-Reliable User.id) "refresh" 6 office
      (λ e. cc)

get_authenticated_user-Authenticated_example :
    Runs
      (λ u t. (t ≡ record office { calls = t.calls }) × Authenticated office clear "An" "" u)
      (λ _ t. t ≡ record office { calls = t.calls })
      (get_authenticated_user memory clear "An" "" office)
get_authenticated_user-Authenticated_example =
    get_authenticated_user-Authenticated memory clear "An" "" office

get_token-TokenFor_example :
    Runs
      (λ o t. (t ≡ record office { calls = t.calls }) × TokenFor 3601000 7 office.tokens o)
      (λ _ t. t ≡ record office { calls = t.calls })
      (get_token memory 3601000 7 office)
get_token-TokenFor_example = get_token-TokenFor memory 3601000 7 office (omega arith)

-- One row of a sheet.
abbrev sheet : List Row
sheet = (("mail", "Chi") ∷ ("secret", "password") ∷ []) ∷ []

abbrev columns : List Column
columns =
    record { header = "mail"; props = "email" }
    ∷ record { header = "secret"; props = "password" }
    ∷ []

deliver-none_example :
    Runs
      (λ o t. (o ≡ none) × (pushes t ≤ 5 + pushes office))
      (λ _ t. pushes t ≤ 5 + pushes office)
      (deliver memory 5 notice office)
deliver-none_example = deliver-none memory 5 notice office (omega arith) (omega arith)

read_all_notification-all_read_example :
    Runs
      (λ _ t.
        t ≡ record office { calls = t.calls; notifications = all_read 5 office.notifications })
      (λ e t. (e ≡ technical_issue) × (t ≡ record office { calls = t.calls }))
      (read_all_notification memory 5 office)
read_all_notification-all_read_example =
    read_all_notification-all_read memory 5 office (λ k. ground arith)

-- `a.b.c`
abbrev file : Text
file = b'a' ∷ b'.' ∷ b'b' ∷ b'.' ∷ b'c' ∷ []

get_file_name-get_file_extension_example :
    (get_file_name file ++ (b'.' ∷ get_file_extension file) ≡ file)
    × All (λ c. c ≢ b'.') (get_file_extension file)
get_file_name-get_file_extension_example = get_file_name-get_file_extension file (inr (inl refl))

create_default_setting-Complete_example :
    Runs
      (λ _ t.
        Extended office t
        × Complete list_setting t
        × Runs
            (λ _ u. u ≡ record t { calls = u.calls })
            (λ _ _. ⊥)
            (create_default_setting memory list_setting t))
      (λ _ _. ⊥)
      (create_default_setting memory list_setting office)
create_default_setting-Complete_example =
    create_default_setting-Complete memory (in_order-Reliable Setting.id) list_setting office
