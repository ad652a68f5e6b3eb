-- ===== src/Social/Tabs.antt =====
-- src/modules/socialGroups: services/socialTab.service.ts and socialGroup.service.ts, and
-- controllers/socialTab.controller.ts and socialGroup.controller.ts; the settings of tabs of
-- src/modules/socialSetting/services/socialSetting.service.ts.
pub mod Working
use social_listening_backend.Notifications.{get_all_social_tab}
use social_listening_backend.Users.Groups.{
  is_activated, get_social_group_by_id, get_social_group_by_manager_id,
}
use social_listening_backend.Social.Lookups.{working, in_state, get_social_tab_by_id}
use social_listening_backend.Reply.{throw_if, or_throw, replying_with, replying, Reply}
use social_listening_backend.Async.{technical_issue, technical, detached}
use social_listening_backend.Store.{
  social_group_model, social_tab_model, find_first, social_tab_setting_model, update, find_many,
  create, Store, Client,
}
use social_listening_backend.Exec.{◌>>◌, pure, ◌>>=◌, Exec, thrown, Error}
use social_listening_backend.Schema.{SocialTab}
use social_listening_backend.Schema.Accounts.{SocialGroup, SocialTabSetting}
use social_listening_backend.Base.{
  map, str_eq, ◌&&◌, not, ◌==◌, Option, [], ◌∷◌, true, false, List, Bool, String, ℕ, none, some,
}

-- SocialSettingDTO, SocialTabDTO, EditSocialGroupDTO
pub record SocialSettingDto : Type 0 where
  pub tab_id : ℕ
  pub group : String
  pub key : String
  pub value : String

pub record SocialTabDto : Type 0 where
  pub name : String
  pub group_id : ℕ
  pub social_id : ℕ

pub record EditSocialGroupDto : Type 0 where
  pub name : String

abbrev pub tab_setting : SocialSettingDto → ℕ → SocialTabSetting
tab_setting dto k = record {
  id = k;
  tab_id = dto.tab_id;
  group = dto.group;
  key = dto.key;
  value = dto.value;
}

abbrev edited_setting : SocialSettingDto → SocialTabSetting → SocialTabSetting
edited_setting dto x = tab_setting dto x.id

-- `defaultSetting`, for a tab
abbrev pub default_setting : ℕ → List SocialSettingDto
default_setting tab =
    record { tab_id = tab; group = "FACEBOOK"; key = "Token"; value = "" }
    ∷ record { tab_id = tab; group = "FACEBOOK"; key = "MessengerToken"; value = "" }
    ∷ []

-- A new tab, with the defaults of the schema.
abbrev pub new_tab : SocialTabDto → ℕ → SocialTab
new_tab dto k = record {
  id = k;
  name = dto.name;
  group_id = dto.group_id;
  deleted = false;
  is_worked = false;
  social_id = dto.social_id;
}

abbrev pub set_worked : Bool → SocialTab → SocialTab
set_worked state t = record t { is_worked = state }

abbrev pub removed_tab : SocialTab → SocialTab
removed_tab t = record t { deleted = true }

abbrev edited_group : EditSocialGroupDto → SocialGroup → SocialGroup
edited_group dto g = record g { name = dto.name }

abbrev pub connection_not_found : Error
connection_not_found = thrown "Not found the connection"

abbrev pub group_not_found : Error
group_not_found = thrown "Not found social group"

abbrev pub not_manager : Error
not_manager = thrown "Something went wrong"

abbrev pub no_social_group : Error
no_social_group = thrown "No social group found"

module _ (prisma : Client) where
  unfoldable pub create_social_setting : SocialSettingDto → Exec Store SocialTabSetting
  create_social_setting dto = create (social_tab_setting_model prisma) (tab_setting dto)

  unfoldable pub find_social_setting : ℕ → String → String → Exec Store (Option SocialTabSetting)
  find_social_setting tab group key =
      find_first (social_tab_setting_model prisma)
        (λ x. x.tab_id == tab && str_eq x.group group && str_eq x.key key)

  unfoldable pub get_social_setting : ℕ → Exec Store (List SocialTabSetting)
  get_social_setting tab = find_many (social_tab_setting_model prisma) (λ x. x.tab_id == tab)

  unfoldable pub update_social_setting : ℕ → SocialSettingDto → Exec Store SocialTabSetting
  update_social_setting id dto = update (social_tab_setting_model prisma) id (edited_setting dto)

  unfoldable pub add_setting_to_tab : ℕ → Exec Store (Unit {0})
  add_setting_to_tab tab =
      detached (λ (dto : SocialSettingDto). create_social_setting dto >>= λ _. pure tt)
        (default_setting tab)

  -- Nobody waits for the settings.
  unfoldable pub create_new_tab : SocialTabDto → Exec Store SocialTab
  create_new_tab dto = do
    tab ← create (social_tab_model prisma) (new_tab dto)
    add_setting_to_tab tab.id
    pure tab

  unfoldable pub edit_social_group : ℕ → EditSocialGroupDto → Exec Store SocialGroup
  edit_social_group group dto = update (social_group_model prisma) group (edited_group dto)

  unfoldable pub update_working_state_by_id : ℕ → Bool → Exec Store SocialTab
  update_working_state_by_id tab state = update (social_tab_model prisma) tab (set_worked state)

  unfoldable pub remove_tab_by_id : ℕ → Exec Store SocialTab
  remove_tab_by_id tab = update (social_tab_model prisma) tab removed_tab

  unfoldable pub get_all_tab : Exec Store (List SocialTab)
  get_all_tab = technical (find_many (social_tab_model prisma) (λ _. true))

  -- The tab, if it is there and not removed.
  unfoldable pub live_tab : ℕ → Exec Store SocialTab
  live_tab id = do
    found ← get_social_tab_by_id prisma id
    tab ← or_throw found connection_not_found
    throw_if tab.deleted connection_not_found
    pure tab

  -- What is answered as isWorked is whether the tab works now, not what is stored.
  unfoldable pub on_update_working_state : ℕ → Exec Store (Reply SocialTab)
  on_update_working_state id = replying do
    found ← live_tab id
    tab ← update_working_state_by_id id (not found.is_worked)
    pure (set_worked (in_state working tab) tab)

  unfoldable pub on_remove_social_tab : ℕ → Exec Store (Reply SocialTab)
  on_remove_social_tab id = replying do live_tab id; remove_tab_by_id id

  unfoldable pub on_get_all_tab : Exec Store (Reply (List SocialTab))
  on_get_all_tab = replying get_all_tab

  unfoldable pub on_get_social_group : ℕ → Exec Store (Reply SocialGroup)
  on_get_social_group user =
      replying_with no_social_group
        do found ← get_social_group_by_manager_id prisma user; or_throw found no_social_group

  unfoldable pub on_update_social_group :
      ℕ → ℕ → EditSocialGroupDto → Exec Store (Reply SocialGroup)
  on_update_social_group user id dto = replying do
    found ← get_social_group_by_id prisma id
    group ← or_throw found group_not_found
    throw_if (not (group.manager_id == user)) not_manager
    edit_social_group group.id dto

  -- The tabs of the user, each with whether the user is active.
  unfoldable pub on_get_all_social_tab : ℕ → Exec Store (Reply (List (SocialTab × Bool)))
  on_get_all_social_tab user = replying_with technical_issue do
    active ← is_activated prisma user
    tabs ← get_all_social_tab prisma user
    pure (map (λ tab. (tab, active)) tabs)
