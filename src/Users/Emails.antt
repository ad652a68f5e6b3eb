-- ===== src/Users/Emails.antt =====
-- No two accounts that are not removed have one e-mail: what the services do to the accounts.
pub mod Kept
pub mod Reach
pub mod Requests
use social_listening_backend.Lists.Count.{
  find-eq-none, All-of_All, count_mono, All-mono, count-zero, count-map, count-append,
}
use social_listening_backend.Users.Accounts.{has_email}
use social_listening_backend.Lists.{update_where, find, All, count}
use social_listening_backend.Schema.{User}
use social_listening_backend.Base.{
  str_eq_iff, false, if◌then◌else◌, arith, Bool-cases, [], ◌⊎◌, ◌∷◌, true, ◌++◌, String, ◌≢◌, ◌≤◌,
  ◌==◌, ◌≡◌, Bool, List, ℕ, inl, inr, none, some,
}

abbrev same_id : ℕ → User → Bool
same_id k u = u.id == k

-- Identifiers are unique, and so are the e-mails of the accounts that are not removed.
pub record UniqueUsers (users : List User) : Type 0 where
  pub ids : (k : ℕ) → count (same_id k) users ≤ 1
  pub emails : (email : String) → count (has_email email) users ≤ 1

-- A new account with an e-mail that no account has.
pub append-UniqueUsers :
    (users : List User) (u : User)
    → All (λ x. x.id ≢ u.id) users
    → find (has_email u.email) users ≡ none
    → UniqueUsers users
    → UniqueUsers (users ++ u ∷ [])
append-UniqueUsers users u fresh free h = record {
  ids = λ k. elim (Bool-cases (u.id == k)) [
    | inl at ↦ ground (
      arith,
      count-append (same_id k) users (u ∷ []),
      count-zero (same_id k) users
          (All-mono _ (λ x. same_id k x ≡ false) users (λ x other. ground arith) fresh),
    )
    | inr off ↦ ground (arith, count-append (same_id k) users (u ∷ []), h.ids k)
  ];
  emails = λ email. elim (Bool-cases (has_email email u)) [
    | inl at ↦
        let e : u.email ≡ email = (str_eq_iff u.email email).0 (ground arith) in
        ground (
          arith,
          count-append (has_email email) users (u ∷ []),
          count-zero (has_email email) users
              (rw (← e) (find-eq-none (has_email u.email) users free)),
        )
    | inr off ↦ ground (arith, count-append (has_email email) users (u ∷ []), h.emails email)
  ];
}

-- A change of one account that keeps its identifier and takes no e-mail of another one.
pub update_where-UniqueUsers :
    (user : ℕ) (f : User → User) (users : List User)
    → ((u : User) → (f u).id ≡ u.id)
    → ((email : String)
        → ((u : User) → has_email email (f u) ≡ true → has_email email u ≡ true)
          ⊎ All (λ u. has_email email u ≡ true → u.id ≡ user) users)
    → UniqueUsers users
    → UniqueUsers (update_where (same_id user) f users)
update_where-UniqueUsers user f users same safe h = record {
  ids = λ k. omega (
    arith,
    h.ids k,
    count-map (same_id k) (λ u. if same_id user u then f u else u) users,
    count_mono (λ u. same_id k (if same_id user u then f u else u)) (same_id k) users
        (All-of_All _ users (λ u at. elim (Bool-cases (same_id user u)) [
          | inl own ↦ let e : (f u).id ≡ u.id = same u in ground arith
          | inr other ↦ ground arith
        ])),
  );
  emails = λ email. elim (safe email) [
    | inl old ↦ omega (
      arith,
      h.emails email,
      count-map (has_email email) (λ u. if same_id user u then f u else u) users,
      count_mono (λ u. has_email email (if same_id user u then f u else u)) (has_email email) users
          (All-of_All _ users (λ u at. elim (Bool-cases (same_id user u)) [
            | inl own ↦ old u (ground arith)
            | inr other ↦ ground arith
          ])),
    )
    | inr own ↦ omega (
      arith,
      h.ids user,
      count-map (has_email email) (λ u. if same_id user u then f u else u) users,
      count_mono (λ u. has_email email (if same_id user u then f u else u)) (same_id user) users
          (All-mono _ _ users
            (λ u mine at. elim (Bool-cases (same_id user u)) [
              | inl it ↦ it
              | inr other ↦ let e : u.id ≡ user = mine (ground arith) in ground arith
            ])
            own),
    )
  ];
}
