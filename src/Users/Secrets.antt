-- ===== src/Users/Secrets.antt =====
-- What is stored of a secret is a hash that the secret compares with.
use social_listening_backend.Lists.Count.{Has-update_where, find-eq-none, All-Has}
use social_listening_backend.Store.Total.{Runs-find_first_ok, Runs-update_ok}
use social_listening_backend.Exec.{◌>>=◌}
use social_listening_backend.Exec.Runs.{Runs-non_null-some, Runs-pure, Runs-gets, Runs-bind, Runs}
use social_listening_backend.Social.Lookups.{get_user_by_id}
use social_listening_backend.Lists.{find, update_where, Has}
use social_listening_backend.Users.Accounts.{
  with_refresh_token, hashed_password, get_user_by_token, set_refresh_token,
}
use social_listening_backend.Prisma.{Reliable}
use social_listening_backend.Schema.{User}
use social_listening_backend.Store.{user_model, Store, Client}
use social_listening_backend.Platform.{Bcrypt}
use social_listening_backend.Base.{
  ==_iff, false, refl, [], arith, ◌∙◌, ◌≢◌, Bool-cases, ◌∷◌, ◌==◌, ◌≡◌, Option, List, String, ℕ,
  inl, inr, none, some,
}

-- A changed row with the identifier was there before, and has been changed.
Has-changed :
    (user : ℕ) (f : User → User) (t : List User) (v : User)
    → ((u : User) → (f u).id ≡ u.id)
    → Has v (update_where (λ u. u.id == user) f t)
    → v.id ≡ user
    → (u : User) × Has u t × (v ≡ f u)
Has-changed user f [] v same h e = absurd h
Has-changed user f (x ∷ xs) v same (inl at) e = elim (Bool-cases (x.id == user)) [
  | inl own ↦ (x, inl refl, at ∙ rw own refl)
  | inr other ↦
      let ev : v ≡ x = at ∙ rw other refl in
      let ex : x.id ≡ user = rw (← ev) e in absurd (ground arith)
]
Has-changed user f (x ∷ xs) v same (inr m) e =
    let (u, has, at) = Has-changed user f xs v same m e in (u, inr has, at)

-- A row of the user was returned.
abbrev pub Keeps : ℕ → Option User → Type 0
Keeps user none = ⊥
Keeps user (some v) = v.id ≡ user

module _ (prisma : Client) (crypt : Bcrypt) (reliable : Reliable prisma.user) where
  -- Where the account is there and the database's calls do not fail, a refresh token that was set
  -- is accepted for the user: the look-up by the token returns a row of the user.
  pub set_refresh_token-get_user_by_token :
      (token : String) (user : ℕ) (s : Store)
      → find (λ u. u.id == user) s.users ≢ none
      → Runs
          (λ o _. Keeps user o)
          (λ _ _. ⊥)
          ((set_refresh_token prisma crypt token user >>= λ _.
              get_user_by_token prisma crypt token user)
            s)
  unfolding set_refresh_token get_user_by_token hashed_password get_user_by_id
  set_refresh_token-get_user_by_token token user s there = Runs-bind _ _ s (
      Runs-bind _ _ s (
        Runs-gets _ s (
          Runs-bind _ _ s (
            Runs-update_ok (user_model prisma) reliable s user
              (with_refresh_token (some (crypt.hash s.calls token))) there
              (λ x has at. Runs-pure tt _ (
                Runs-bind _ _ _ (
                  Runs-find_first_ok (user_model prisma) reliable _ (λ u. u.id == user)
                    (λ free. absurd (
                      ground (
                        arith,
                        All-Has (λ y. (y.id == user) ≡ false)
                            (with_refresh_token (some (crypt.hash s.calls token)) x) _
                            (find-eq-none (λ u. u.id == user) _ free)
                            (Has-update_where (λ u. u.id == user)
                              (with_refresh_token (some (crypt.hash s.calls token))) x s.users has
                              (ground arith)),
                      )))
                    (λ v has_v at_v.
                      let (u, was, e) =
                        Has-changed user (with_refresh_token (some (crypt.hash s.calls token)))
                          s.users v (λ _. refl) has_v ((==_iff v.id user).0 at_v) in
                      Runs-bind _ _ _ (
                        Runs-non_null-some v _ (
                          Runs-bind _ _ _ (
                            rw e (
                              Runs-non_null-some (crypt.hash s.calls token) _ (
                                rw (crypt.compare-hash s.calls token) (
                                  Runs-pure _ _ (rw (← e) ((==_iff v.id user).0 at_v))))))))))))))))
