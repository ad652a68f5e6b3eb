-- ===== src/Users/Groups.antt =====
-- src/modules/users/services/userInGroup.service.ts: who belongs to which group, and the groups of
-- src/modules/socialGroups/services/socialGroup.service.ts.
use social_listening_backend.Async.{technical}
use social_listening_backend.Exec.{◌>>◌, non_null, pure, ◌>>=◌, Exec}
use social_listening_backend.Store.{
  update, find_many, social_group_model, user_in_group_model, find_first, create, Store, Client,
}
use social_listening_backend.Schema.Accounts.{SocialGroup, UserInGroup}
use social_listening_backend.Base.{
  none, some, List, not, some, ◌&&◌, true, false, ◌==◌, Option, String, Bool, ℕ,
}

abbrev pub in_group : ℕ → ℕ → UserInGroup → Bool
in_group user group u = u.user_id == user && u.group_id == group && not u.deleted

-- A new membership, with the defaults of the schema.
abbrev pub group_member : ℕ → ℕ → ℕ → UserInGroup
group_member user group k = record {
  id = k;
  user_id = user;
  group_id = group;
  deleted = false;
  is_active = true;
}

abbrev pub left_group : UserInGroup → UserInGroup
left_group u = record u { deleted = true }

abbrev pub set_member_active : Bool → UserInGroup → UserInGroup
set_member_active active u = record u { is_active = active }

-- CreateSocialGroupDTO
abbrev pub new_group : String → ℕ → ℕ → SocialGroup
new_group name manager k = record { id = k; name = name; manager_id = manager }

abbrev active_member : Option UserInGroup → Bool
active_member none = false
active_member (some u) = u.is_active

module _ (prisma : Client) where
  unfoldable pub add_user_to_group : ℕ → ℕ → Exec Store UserInGroup
  add_user_to_group user group = create (user_in_group_model prisma) (group_member user group)

  unfoldable pub get_user_with_group : ℕ → ℕ → Exec Store (Option UserInGroup)
  get_user_with_group user group = find_first (user_in_group_model prisma) (in_group user group)

  unfoldable pub remove_user_from_group : ℕ → ℕ → Exec Store (Unit {0})
  remove_user_from_group user group = do
    found ← get_user_with_group user group
    data_ ← non_null found
    update (user_in_group_model prisma) data_.id left_group
    pure tt

  -- `include: { group: true }`
  unfoldable pub group_of_member : Option UserInGroup → Exec Store (Option SocialGroup)
  group_of_member none = pure none
  group_of_member (some u) = find_first (social_group_model prisma) (λ g. g.id == u.group_id)

  unfoldable pub get_group_by_id : ℕ → Exec Store (Option SocialGroup)
  get_group_by_id user = do
    found ← find_first (user_in_group_model prisma) (λ u. u.user_id == user)
    group_of_member found

  -- `activateAccount` and `deactivateAccount`
  unfoldable pub set_active_account : Bool → ℕ → ℕ → Exec Store UserInGroup
  set_active_account active user group = do
    found ← get_user_with_group user group
    data_ ← non_null found
    update (user_in_group_model prisma) data_.id (set_member_active active)

  unfoldable pub check_activate : ℕ → Exec Store (Option UserInGroup)
  check_activate user =
      technical (find_first (user_in_group_model prisma) (λ u. u.user_id == user && u.is_active))

  unfoldable pub get_all_user : Exec Store (List UserInGroup)
  get_all_user = technical (find_many (user_in_group_model prisma) (λ _. true))

  unfoldable pub create_social_group : String → ℕ → Exec Store SocialGroup
  create_social_group name manager = create (social_group_model prisma) (new_group name manager)

  unfoldable pub get_social_group_by_manager_id : ℕ → Exec Store (Option SocialGroup)
  get_social_group_by_manager_id user =
      find_first (social_group_model prisma) (λ g. g.manager_id == user)

  unfoldable pub get_social_group_by_id : ℕ → Exec Store (Option SocialGroup)
  get_social_group_by_id group = find_first (social_group_model prisma) (λ g. g.id == group)

  -- `checkActivate` of the groups, which asks for a membership that has not ended.
  unfoldable pub is_activated : ℕ → Exec Store Bool
  is_activated user = do
    found ← find_first (user_in_group_model prisma) (λ u. u.user_id == user && not u.deleted)
    pure (active_member found)
