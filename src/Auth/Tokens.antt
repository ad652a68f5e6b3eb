-- ===== src/Auth/Tokens.antt =====
-- A stored token is given out for an hour.
use social_listening_backend.Store.Rules.{Runs-find_first}
use social_listening_backend.Lists.Count.{find-eq-none, unique_of_count, All-Has}
use social_listening_backend.Exec.Runs.{Runs-if, Runs-pure, Runs-bind, Runs}
use social_listening_backend.Lists.{Has, count}
use social_listening_backend.Schema.Accounts.{Token}
use social_listening_backend.Auth.Sessions.{
  one_hour, live_token, in_time, validate_token, get_token,
}
use social_listening_backend.Store.{token_model, Store, Client}
use social_listening_backend.Base.{
  refl, sym, ap, leb, arith, false, ◌<◌, ◌+◌, true, ◌≡◌, ◌≤◌, String, Option, List, ℕ, none, some,
}

-- The text of the live token with the identifier while its hour is not over, and none else.
abbrev pub TokenFor : ℕ → ℕ → List Token → Option String → Type 0
TokenFor now id tokens (some text) =
    (x : Token) × Has x tokens
    × (live_token id x ≡ true)
    × (x.token ≡ text)
    × (now ≤ x.date_expires + one_hour)
TokenFor now id tokens none =
    (x : Token) → Has x tokens → live_token id x ≡ true → x.date_expires + one_hour < now

only_token :
    (id : ℕ) (tokens : List Token) (x y : Token)
    → count (live_token id) tokens ≤ 1
    → Has x tokens
    → live_token id x ≡ true
    → Has y tokens
    → live_token id y ≡ true
    → y ≡ x
only_token id tokens x y once has at has_y at_y =
    All-Has (λ z. live_token id z ≡ true → z ≡ x) y tokens
      (unique_of_count (live_token id) x tokens has at once) has_y at_y

module _ (prisma : Client) (now : ℕ) where
  -- Where at most one live token has an identifier, its text is given out exactly while at most an
  -- hour has passed since it was created; giving it out changes nothing, nor does a failure.
  pub get_token-TokenFor :
      (id : ℕ) (s : Store)
      → count (live_token id) s.tokens ≤ 1
      → Runs
          (λ o t. (t ≡ record s { calls = t.calls }) × TokenFor now id s.tokens o)
          (λ _ t. t ≡ record s { calls = t.calls })
          (get_token prisma now id s)
  unfolding get_token validate_token in_time
  get_token-TokenFor id s once = Runs-bind _ _ s (
      Runs-bind _ _ s (
        Runs-find_first (token_model prisma) s (live_token id)
          (λ free. Runs-pure false _ (
            Runs-pure none _ (
              refl,
              λ x has at. absurd (
                  ground (
                    arith,
                    All-Has (λ y. live_token id y ≡ false) x s.tokens
                        (find-eq-none (live_token id) s.tokens free) has,
                    at,
                  )),
            )))
          (λ x has at. Runs-pure _ _ (
            Runs-if (leb now (x.date_expires + one_hour)) _ _ _
              (λ early. Runs-bind _ _ _ (
                Runs-find_first (token_model prisma) _ (live_token id)
                  (λ free. absurd (
                    ground (
                      arith,
                      All-Has (λ y. live_token id y ≡ false) x s.tokens
                          (find-eq-none (live_token id) s.tokens free) has,
                      at,
                    )))
                  (λ y has_y at_y.
                    let e : y ≡ x = only_token id s.tokens x y once has at has_y at_y in
                    Runs-pure _ _
                      (refl, (x, has, at, ap (λ (z : Token). z.token) (sym e), ground arith)))
                  (λ _. refl)))
              (λ late. Runs-pure none _ (
                refl,
                λ y has_y at_y.
                    rw (only_token id s.tokens x y once has at has_y at_y) (ground arith),
              ))))
          (λ _. refl)))
