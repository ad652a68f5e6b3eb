-- ===== src/Permissions/Sets.antt =====
-- The abstract view of the table of permissions of roles: a set of pairs, which forgets the order
-- of the rows and how often a row stands there.
use social_listening_backend.Lists.Count.{any-Has, any-keep, any-append}
use social_listening_backend.Permissions.{grant, grants}
use social_listening_backend.Lists.{keep, Has, any}
use social_listening_backend.Schema.Accounts.{RolePermission}
use social_listening_backend.Store.{Store}
use social_listening_backend.Base.{
  refl, inr, ◌∙◌, inl, Bool-cases, fun_ext, arith, true, [], ◌≡◌, ◌∷◌, ◌||◌, ◌++◌, ◌&&◌, not, ◌==◌,
  Bool, List, ℕ,
}

-- Whether a role has a permission.
abbrev pub Grants : Type 0
Grants = ℕ → ℕ → Bool

abbrev pub grants_of : List RolePermission → Grants
grants_of rows role permission = any (grants role permission) rows

abbrev pub view : Store → Grants
view s = grants_of s.role_permissions

-- The set with one pair more.
abbrev pub with_grant : ℕ → ℕ → Grants → Grants
with_grant role permission v r p = (r == role && p == permission) || v r p

-- The set without one pair.
abbrev pub without_grant : ℕ → ℕ → Grants → Grants
without_grant role permission v r p = not (r == role && p == permission) && v r p

pub grants_of-append :
    (role permission : ℕ) (rows : List RolePermission)
    → grants_of (rows ++ grant role permission ∷ []) ≡ with_grant role permission (grants_of rows)
grants_of-append role permission rows =
    fun_ext
      λ r. fun_ext λ p. ground (arith, any-append (grants r p) rows (grant role permission ∷ []))

-- A pair of the set may be added again.
pub with_grant_old :
    (role permission : ℕ) (rows : List RolePermission) (x : RolePermission)
    → Has x rows
    → grants role permission x ≡ true
    → grants_of rows ≡ with_grant role permission (grants_of rows)
with_grant_old role permission rows x has at = fun_ext λ r. fun_ext λ p.
    elim (Bool-cases (r == role && p == permission)) [
      | inl same ↦ rw same (any-Has (grants r p) x rows has (ground arith))
      | inr other ↦ rw other refl
    ]

other_grants :
    (role permission r p : ℕ) (rows : List RolePermission)
    → any (λ x. grants r p x && not (grants role permission x)) rows
      ≡ (not (r == role && p == permission) && any (grants r p) rows)
other_grants role permission r p [] = ground arith
other_grants role permission r p (x ∷ xs) = ground (arith, other_grants role permission r p xs)

pub grants_of-keep :
    (role permission : ℕ) (rows : List RolePermission)
    → grants_of (keep (λ x. not (grants role permission x)) rows)
      ≡ without_grant role permission (grants_of rows)
grants_of-keep role permission rows = fun_ext λ r. fun_ext λ p.
    any-keep (grants r p) (λ x. not (grants role permission x)) rows
    ∙ other_grants role permission r p rows
