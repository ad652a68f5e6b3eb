-- ===== src/Social/Lookups.antt =====
-- The look-ups of src/modules/socialGroups/services/socialTab.service.ts,
-- src/modules/socialSender/services/socialSender.service.ts,
-- src/modules/message/services/message.service.ts,
-- src/modules/socialMessage/services/socialMessage.service.ts and socialPost.service.ts,
-- src/modules/setting/service/setting.service.ts and src/modules/roles/services/role.service.ts.
use social_listening_backend.Base.{
  Bool, true, false, not, ℕ, String, ◌==◌, ◌&&◌, str_eq, Option, none, some,
}
use social_listening_backend.Schema.{
  SocialTab, SocialNetwork, PageInfo, SocialSender, SocialPost, SocialMessage, Message, Setting,
  Role, User,
}
use social_listening_backend.Exec.{Exec, pure, non_null, ◌>>=◌}
use social_listening_backend.Async.{technical}
use social_listening_backend.Store.{
  Store, Client, find_first, social_tab_model, social_network_model, social_sender_model,
  social_post_model, social_message_model, message_model, setting_model, role_model, user_model,
}

-- `WorkingState` of src/common/enum/workingState.enum.ts: a tab whose isWorked is true is paused.
abbrev pub working : Bool
working = false

abbrev pub pause : Bool
pause = true

-- `tab.isWorked === state`
abbrev pub in_state : Bool → SocialTab → Bool
in_state true tab = tab.is_worked
in_state false tab = not tab.is_worked

-- `JSON.parse(tabInfo.SocialNetwork.extendData)`, where a field of the value is read next.
unfoldable pub page_info : Option (SocialTab × SocialNetwork) → Exec Store PageInfo
page_info info = do (tab, network) ← non_null info; non_null network.extend_data

module _ (prisma : Client) where
  unfoldable pub get_social_tab_by_id : ℕ → Exec Store (Option SocialTab)
  get_social_tab_by_id tab = find_first (social_tab_model prisma) (λ t. t.id == tab)

  -- `include: { SocialNetwork: true }`
  unfoldable pub with_network : Option SocialTab → Exec Store (Option (SocialTab × SocialNetwork))
  with_network none = pure none
  with_network (some t) = do
    found ← find_first (social_network_model prisma) (λ n. n.id == t.social_id)
    network ← non_null found
    pure (some (t, network))

  unfoldable pub get_social_tab_info : ℕ → Exec Store (Option (SocialTab × SocialNetwork))
  get_social_tab_info tab =
      technical
        do found ← find_first (social_tab_model prisma) (λ t. t.id == tab); with_network found

  unfoldable pub find_sender : ℕ → Exec Store (Option SocialSender)
  find_sender sender =
      technical (find_first (social_sender_model prisma) (λ s. s.sender_id == sender))

  -- The sender that stands for the page of a tab; it may be null.
  unfoldable pub page_sender : ℕ → Exec Store (Option SocialSender)
  page_sender tab = do info ← get_social_tab_info tab; page ← page_info info; find_sender page.id

  unfoldable pub find_sender_by_id : ℕ → Exec Store (Option SocialSender)
  find_sender_by_id id = technical (find_first (social_sender_model prisma) (λ s. s.id == id))

  unfoldable pub find_message_by_id : ℕ → Exec Store (Option Message)
  find_message_by_id id = technical (find_first (message_model prisma) (λ m. m.id == id))

  unfoldable pub find_comment_by_id : ℕ → Exec Store (Option SocialMessage)
  find_comment_by_id id = find_first (social_message_model prisma) (λ m. m.id == id)

  unfoldable pub root_of : SocialMessage → Option SocialMessage → Option SocialMessage
  root_of m none = some m
  root_of m (some root) = some root

  unfoldable pub root_message : Option SocialMessage → Exec Store (Option SocialMessage)
  root_message none = pure none
  root_message (some m) = do
    root ← find_first (social_message_model prisma) (λ x. x.message_id == m.parent_id)
    pure (root_of m root)

  unfoldable pub get_root_message : ℕ → Exec Store (Option SocialMessage)
  get_root_message id = do found ← find_comment_by_id id; root_message found

  unfoldable pub get_social_post_by_id : ℕ → Exec Store (Option SocialPost)
  get_social_post_by_id id = find_first (social_post_model prisma) (λ p. p.id == id)

  unfoldable pub get_setting_by_key_and_group : String → String → Exec Store (Option Setting)
  get_setting_by_key_and_group key group =
      find_first (setting_model prisma) (λ s. str_eq s.group group && str_eq s.key key)

  unfoldable pub get_role_by_role_name : String → Exec Store (Option Role)
  get_role_by_role_name name = find_first (role_model prisma) (λ r. str_eq r.role_name name)

  unfoldable pub get_role_by_id : ℕ → Exec Store (Option Role)
  get_role_by_id id = find_first (role_model prisma) (λ r. r.id == id)

  unfoldable pub get_user_by_id : ℕ → Exec Store (Option User)
  get_user_by_id id = find_first (user_model prisma) (λ u. u.id == id)
