-- ===== src/Files.antt =====
-- `getFileName` and `getFileExtension` of src/utils/hepler.ts, and the rows of
-- src/modules/files/services/file.service.ts.
pub mod Names
use social_listening_backend.Async.{required}
use social_listening_backend.Users.Groups.{get_group_by_id}
use social_listening_backend.Exec.{pure, ◌>>◌, ◌>>=◌, Exec}
use social_listening_backend.Schema.Accounts.{FileRow}
use social_listening_backend.Store.{create, file_model, find_first, Store, Client}
use social_listening_backend.Text.{split, join, Text}
use social_listening_backend.Base.{◌==◌, Option, [], String, ◌∷◌, ℕ, List}

-- `Array.prototype.pop`: the last piece, and what is left.
unfoldable pub last_piece : List Text → Text
last_piece [] = []
last_piece (piece ∷ []) = piece
last_piece (piece ∷ next ∷ rest) = last_piece (next ∷ rest)

unfoldable pub without_last : List Text → List Text
without_last [] = []
without_last (piece ∷ []) = []
without_last (piece ∷ next ∷ rest) = piece ∷ without_last (next ∷ rest)

unfoldable pub get_file_name : Text → Text
get_file_name file = join b'.' (without_last (split b'.' file))

unfoldable pub get_file_extension : Text → Text
get_file_extension file = last_piece (split b'.' file)

-- What is read of an uploaded file.
pub record Upload : Type 0 where
  pub filename : Text
  pub path : String
  pub mimetype : String

abbrev pub file_row : Upload → ℕ → ℕ → ℕ → FileRow
unfolding get_file_name get_file_extension
file_row file owner group k = record {
  id = k;
  file_name = get_file_name file.filename;
  file_ext = get_file_extension file.filename;
  path = file.path;
  owner_id = owner;
  group_id = group;
  minetype = file.mimetype;
}

module _ (prisma : Client) where
  -- `saveFile` of `UserService`; the client refuses a file without a group.
  unfoldable pub save_file : Upload → ℕ → Exec Store (Unit {0})
  save_file file owner = do
    found ← get_group_by_id prisma owner
    group ← required found
    create (file_model prisma) (file_row file owner group.id)
    pure tt

  unfoldable pub get_file_by_id : ℕ → Exec Store (Option FileRow)
  get_file_by_id id = find_first (file_model prisma) (λ f. f.id == id)
