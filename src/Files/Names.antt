-- ===== src/Files/Names.antt =====
-- The name and the extension of a file are the file's name, taken apart at the last dot.
use social_listening_backend.Text.Laws.{join-split, split-ne-nil}
use social_listening_backend.Lists.{Has, All}
use social_listening_backend.Files.{get_file_extension, without_last, get_file_name, last_piece}
use social_listening_backend.Text.{prepend, Text, join, split}
use mathlib.Core.List.{append_assoc}
use social_listening_backend.Base.{
  ap, ◌∙◌, arith, ◌≡◌, ◌==◌, refl, ◌++◌, Bool-cases, ◌∷◌, [], ◌≢◌, List, ℕ, inl, inr,
}

-- Pieces without the separator.
abbrev Plain : ℕ → Text → Type 0
Plain sep t = All (λ c. c ≢ sep) t

prepend-Plain :
    (sep c : ℕ) (pieces : List Text)
    → c ≢ sep
    → All (Plain sep) pieces
    → All (Plain sep) (prepend c pieces)
prepend-Plain sep c [] h a = ((h, tt), tt)
prepend-Plain sep c (piece ∷ rest) h a = ((h, a.0), a.1)

split-Plain : (sep : ℕ) (t : Text) → All (Plain sep) (split sep t)
unfolding split
split-Plain sep [] = (tt, tt)
split-Plain sep (c ∷ cs) = elim (Bool-cases (c == sep)) [
  | inl at ↦ rw at (tt, split-Plain sep cs)
  | inr off ↦ rw off (prepend-Plain sep c (split sep cs) (ground arith) (split-Plain sep cs))
]

last_piece-All :
    (P : Text → Type 0) (pieces : List Text) → P [] → All P pieces → P (last_piece pieces)
unfolding last_piece
last_piece-All P [] none_ h = none_
last_piece-All P (piece ∷ []) none_ h = h.0
last_piece-All P (piece ∷ next ∷ rest) none_ h = last_piece-All P (next ∷ rest) none_ h.1

-- There is a piece before the last one.
abbrev Several : List Text → Type 0
Several [] = ⊥
Several (piece ∷ []) = ⊥
Several (piece ∷ next ∷ rest) = Unit

join-last_piece :
    (sep : ℕ) (pieces : List Text)
    → Several pieces
    → join sep (without_last pieces) ++ (sep ∷ last_piece pieces) ≡ join sep pieces
unfolding join without_last last_piece
join-last_piece sep [] h = absurd h
join-last_piece sep (piece ∷ []) h = absurd h
join-last_piece sep (piece ∷ next ∷ []) h = refl
join-last_piece sep (piece ∷ next ∷ third ∷ rest) h =
    append_assoc piece _ _
    ∙ ap (λ t. piece ++ (sep ∷ t)) (join-last_piece sep (next ∷ third ∷ rest) tt)

cons-Several : (piece : Text) (pieces : List Text) → pieces ≢ [] → Several (piece ∷ pieces)
cons-Several piece [] h = h refl
cons-Several piece (next ∷ rest) h = tt

prepend-Several : (c : ℕ) (pieces : List Text) → Several pieces → Several (prepend c pieces)
prepend-Several c [] h = absurd h
prepend-Several c (piece ∷ []) h = absurd h
prepend-Several c (piece ∷ next ∷ rest) h = tt

split-Several : (sep : ℕ) (t : Text) → Has sep t → Several (split sep t)
unfolding split
split-Several sep [] h = absurd h
split-Several sep (c ∷ cs) h = elim (Bool-cases (c == sep)) [
  | inl at ↦ rw at (cons-Several [] (split sep cs) (split-ne-nil sep cs))
  | inr off ↦ rw off (
      prepend-Several c (split sep cs)
        (elim h [ inl e ↦ absurd (ground arith) | inr m ↦ split-Several sep cs m ]))
]

-- The name of a file and its extension, with a dot between them, are the file's name if there is a
-- dot in it, and the extension has no dot.
pub get_file_name-get_file_extension :
    (file : Text)
    → Has b'.' file
    → (get_file_name file ++ (b'.' ∷ get_file_extension file) ≡ file)
      × All (λ c. c ≢ b'.') (get_file_extension file)
unfolding get_file_name get_file_extension
get_file_name-get_file_extension file h = (
  join-last_piece b'.' (split b'.' file) (split-Several b'.' file h) ∙ join-split b'.' file,
  last_piece-All (Plain b'.') (split b'.' file) tt (split-Plain b'.' file),
)
