-- ===== src/Text.antt =====
-- Texts that the code takes apart, as the list of their characters: `split` at one character,
-- `join`, and `includes`, of the standard library.
pub mod Laws
use social_listening_backend.Base.{
  ◌&&◌, ◌==◌, ◌||◌, false, ◌++◌, if◌then◌else◌, [], true, ◌∷◌, Bool, ℕ, List,
}

abbrev pub Text : Type 0
Text = List ℕ

-- The character in front of the first piece.
abbrev pub prepend : ℕ → List Text → List Text
prepend c [] = (c ∷ []) ∷ []
prepend c (piece ∷ rest) = (c ∷ piece) ∷ rest

-- `text.split(separator)` for a separator of one character: there is always a piece.
unfoldable pub split : ℕ → Text → List Text
split sep [] = [] ∷ []
split sep (c ∷ cs) = let rest = split sep cs in if c == sep then [] ∷ rest else prepend c rest

-- `pieces.join(separator)`
unfoldable pub join : ℕ → List Text → Text
join sep [] = []
join sep (piece ∷ []) = piece
join sep (piece ∷ next ∷ rest) = piece ++ (sep ∷ join sep (next ∷ rest))

abbrev pub text_eq : Text → Text → Bool
text_eq [] [] = true
text_eq (a ∷ xs) (b ∷ ys) = a == b && text_eq xs ys
text_eq _ _ = false

unfoldable pub starts_with : Text → Text → Bool
starts_with [] cs = true
starts_with (p ∷ ps) [] = false
starts_with (p ∷ ps) (c ∷ cs) = p == c && starts_with ps cs

-- `text.includes(part)`
unfoldable pub includes : Text → Text → Bool
includes part [] = starts_with part []
includes part (c ∷ cs) = starts_with part (c ∷ cs) || includes part cs
