-- ===== src/Users/Import/Data.antt =====
-- What the owner is told of an import.
use social_listening_backend.Exec.{ok}
use social_listening_backend.Exec.Runs.{Runs}
use social_listening_backend.Users.Import.{import_sheet, Column, Row, no_import}
use social_listening_backend.Lists.{length}
use social_listening_backend.Schema.Accounts.{ImportResult}
use social_listening_backend.Platform.{Strings, Bcrypt}
use social_listening_backend.Store.{Store, Client}
use social_listening_backend.Base.{Option, ◌⊎◌, ◌≤◌, List, ◌+◌, ◌≡◌, ℕ}

-- Nothing was imported, or every row is counted as imported or not; the imported rows are the new
-- memberships of groups, and each has a new account.
abbrev pub Imported : ℕ → Store → ImportResult → Store → Type 0
Imported rows s r t =
    (length t.users_in_group ≡ length s.users_in_group + r.import_success)
    × (length s.users + r.import_success ≤ length t.users)
    × ((r ≡ no_import) ⊎ ((r.total_import ≡ rows) × (r.import_success + r.import_failure ≡ rows)))

module _ (prisma : Client) (crypt : Bcrypt) (strings : Strings) where
  -- What the rows of the sheet leave, and the counts of them.
  abbrev pub Sheet : List Row → ℕ → Option (List Column) → Store → ImportResult → Store → Type 0
  Sheet rows owner mapping s r u =
      (import_sheet prisma crypt strings rows owner mapping s ≡ (ok r, u))
      × Imported (length rows) s r u
      × (u.notifications ≡ s.notifications)
