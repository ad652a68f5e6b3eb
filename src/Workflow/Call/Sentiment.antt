-- ===== src/Workflow/Call/Sentiment.antt =====
-- Which range of sentiments a value falls into.
use mathlib.Core.Path.{subst}
use social_listening_backend.Base.{
  sym, String, ◌≡◌, refl, ap, Bool, Bool-cases, true, false, ◌&&◌, inl, inr, ◌⊎◌, Option, none,
  some, List, [], ◌∷◌, ◌++◌,
}
use social_listening_backend.Int.{ℤ, leb_ℤ, ltb_ℤ}
use social_listening_backend.Lists.{All}
use social_listening_backend.Workflow.Call.{Range, get_sentiment_type}

-- The value is in the range, its end left out.
abbrev pub is_in : ℤ → String × Range → Bool
is_in v r = leb_ℤ r.1.min v && ltb_ℤ v r.1.max

-- The key of the last range with the value, or none where no range has it.
abbrev pub LastIn : List (String × Range) → ℤ → Option String → Type 0
LastIn ranges v none = All (λ r. is_in v r ≡ false) ranges
LastIn ranges v (some key) =
    (before : List (String × Range)) × (range : Range) × (after : List (String × Range)) × (ranges
      ≡ before ++ (key, range) ∷ after)
    × (is_in v (key, range) ≡ true)
    × All (λ r. is_in v r ≡ false) after

-- Either no range has the value, and the key found before stays, or the last one that has it wins.
get_sentiment_type-LastIn :
    (ranges : List (String × Range)) (v : ℤ) (found : Option String)
    → (All (λ r. is_in v r ≡ false) ranges × (get_sentiment_type ranges v found ≡ found))
      ⊎ ((key : String) × (get_sentiment_type ranges v found ≡ some key)
          × LastIn ranges v (some key))
unfolding get_sentiment_type
get_sentiment_type-LastIn [] v found = inl (tt, refl)
get_sentiment_type-LastIn ((key, range) ∷ rest) v found = elim (Bool-cases (is_in v (key, range))) [
  | inl yes_in ↦ rw yes_in (elim (get_sentiment_type-LastIn rest v (some key)) [
    | inl (off, e) ↦ inr (key, e, ([], range, rest, refl, yes_in, off))
    | inr (k, e, (before, r, after, eq, at, off)) ↦
        inr (k, e, ((key, range) ∷ before, r, after, ap (λ l. (key, range) ∷ l) eq, at, off))
  ])
  | inr not_in ↦ rw not_in (elim (get_sentiment_type-LastIn rest v found) [
    | inl (off, e) ↦ inl ((refl, off), e)
    | inr (k, e, (before, r, after, eq, at, off)) ↦
        inr (k, e, ((key, range) ∷ before, r, after, ap (λ l. (key, range) ∷ l) eq, at, off))
  ])
]

-- The sentiment type of a value is the key of the last range that holds it, the end of the range
-- left out, and null exactly where no range holds it.
pub get_sentiment_type_lem :
    (ranges : List (String × Range)) (v : ℤ) → LastIn ranges v (get_sentiment_type ranges v none)
get_sentiment_type_lem ranges v = elim (get_sentiment_type-LastIn ranges v none) [
  | inl (off, e) ↦ subst (LastIn ranges v) (sym e) off
  | inr (k, e, last) ↦ subst (LastIn ranges v) (sym e) last
]
