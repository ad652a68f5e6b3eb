-- ===== src/Startup/Settings.antt =====
-- After the default settings have been created they are there, and a restart creates none.
use social_listening_backend.Lists.Count.{any-Has, any-append, any-false-find}
use social_listening_backend.Store.Total.{Runs-create_ok, Runs-find_first_ok}
use social_listening_backend.Exec.{◌>>=◌}
use social_listening_backend.Async.Rules.{Runs-promise_all-cons, Runs-promise_all-nil}
use social_listening_backend.Exec.Runs.{Runs-pure, Runs-bind, Runs-mono, Runs}
use social_listening_backend.Social.Lookups.{get_setting_by_key_and_group}
use social_listening_backend.Prisma.{Reliable}
use social_listening_backend.Lists.{any, All}
use social_listening_backend.Schema.{Setting}
use social_listening_backend.Store.{setting_model, Client, Store}
use social_listening_backend.Startup.{
  create_setting, missing_setting, create_default_setting, new_setting, SettingDto,
}
use social_listening_backend.Base.{
  ap, ◌∙◌, refl, [], str_eq_iff, arith, ◌∷◌, true, ◌&&◌, ◌≡◌, str_eq, Bool, ℕ, List,
}

-- The look-up of a setting.
abbrev pub is_setting : SettingDto → Setting → Bool
is_setting dto x = str_eq x.group dto.group && str_eq x.key dto.key

-- Each default is there.
abbrev pub Complete : List SettingDto → Store → Type 0
Complete settings t = All (λ dto. any (is_setting dto) t.settings ≡ true) settings

-- Rows may have been added.
abbrev pub Extended : Store → Store → Type 0
Extended s t = (p : Setting → Bool) → any p s.settings ≡ true → any p t.settings ≡ true

is_setting-new : (dto : SettingDto) (k : ℕ) → is_setting dto (new_setting dto k) ≡ true
is_setting-new dto k =
    ground (arith, (str_eq_iff dto.group dto.group).1 refl, (str_eq_iff dto.key dto.key).1 refl)

module _ (prisma : Client) (reliable : Reliable prisma.setting) where
  default_setting-Extended :
      (dto : SettingDto) (s : Store)
      → Runs
          (λ _ t. Extended s t × (any (is_setting dto) t.settings ≡ true))
          (λ _ _. ⊥)
          ((get_setting_by_key_and_group prisma dto.key dto.group >>= missing_setting prisma dto) s)
  unfolding get_setting_by_key_and_group missing_setting create_setting
  default_setting-Extended dto s = Runs-bind _ _ s (
      Runs-find_first_ok (setting_model prisma) reliable s (is_setting dto)
        (λ _. Runs-bind _ _ _ (
          Runs-create_ok (setting_model prisma) reliable _ (new_setting dto) (λ k _.
            Runs-pure tt _ (
              λ p h. ground (arith, any-append p s.settings (new_setting dto k ∷ [])),
              ground (
                arith,
                any-append (is_setting dto) s.settings (new_setting dto k ∷ []),
                is_setting-new dto k,
              ),
            ))))
        (λ x has at. Runs-pure tt _ (λ p h. h, any-Has (is_setting dto) x s.settings has at)))

  -- A restart finds every default and changes nothing.
  default_setting-again :
      (dto : SettingDto) (s : Store)
      → any (is_setting dto) s.settings ≡ true
      → Runs
          (λ _ t. t ≡ record s { calls = t.calls })
          (λ _ _. ⊥)
          ((get_setting_by_key_and_group prisma dto.key dto.group >>= missing_setting prisma dto) s)
  unfolding get_setting_by_key_and_group missing_setting
  default_setting-again dto s there = Runs-bind _ _ s (
      Runs-find_first_ok (setting_model prisma) reliable s (is_setting dto)
        (λ free. absurd (ground (arith, any-false-find (is_setting dto) s.settings free)))
        (λ x has at. Runs-pure tt _ refl))

  create_default_setting-Extended :
      (settings : List SettingDto) (s : Store)
      → Runs
          (λ _ t. Extended s t × Complete settings t)
          (λ _ _. ⊥)
          (create_default_setting prisma settings s)
  unfolding create_default_setting
  create_default_setting-Extended [] s = Runs-promise_all-nil _ s ((λ p h. h), tt)
  create_default_setting-Extended (dto ∷ settings) s = Runs-promise_all-cons _ dto settings s (
      Runs-mono (default_setting-Extended dto s)
        (λ _ t (more, there).
          Runs-mono (create_default_setting-Extended settings t)
            (λ _ u (later, complete).
              ((λ p h. later p (more p h)), (later (is_setting dto) there, complete)))
            (λ _ _ h. h))
        (λ _ _ h. h))

  create_default_setting-again :
      (settings : List SettingDto) (s : Store)
      → Complete settings s
      → Runs
          (λ _ t. t ≡ record s { calls = t.calls })
          (λ _ _. ⊥)
          (create_default_setting prisma settings s)
  unfolding create_default_setting
  create_default_setting-again [] s h = Runs-promise_all-nil _ s refl
  create_default_setting-again (dto ∷ settings) s h = Runs-promise_all-cons _ dto settings s (
      Runs-mono (default_setting-again dto s h.0)
        (λ _ t same.
          Runs-mono (create_default_setting-again settings t (rw same h.1))
            (λ _ u same'. same' ∙ ap (λ (x : Store). record x { calls = u.calls }) same)
            (λ _ _ h. h))
        (λ _ _ h. h))

  -- Where the database's calls on the table do not fail, the start of the server leaves every
  -- default setting stored and every setting that was stored before, and its next start changes
  -- nothing there: the settings are then those that it finds.
  pub create_default_setting-Complete :
      (settings : List SettingDto) (s : Store)
      → Runs
          (λ _ t.
            Extended s t
            × Complete settings t
            × Runs
                (λ _ u. u ≡ record t { calls = u.calls })
                (λ _ _. ⊥)
                (create_default_setting prisma settings t))
          (λ _ _. ⊥)
          (create_default_setting prisma settings s)
  create_default_setting-Complete settings s =
      Runs-mono (create_default_setting-Extended settings s)
        (λ _ t (more, complete). (more, complete, create_default_setting-again settings t complete))
        (λ _ _ h. h)
