-- ===== src/Text/Laws.antt =====
-- `join` puts back together what `split` took apart.
use social_listening_backend.Base.{
  ap, inr, ==_iff, sym, ap₂, ◌∙◌, inl, ◌==◌, Bool-cases, refl, arith, ◌∷◌, [], ◌≡◌, ◌≢◌, List, ℕ,
}
use social_listening_backend.Text.{prepend, Text, join, split}

pub split-ne-nil : (sep : ℕ) (t : Text) → split sep t ≢ []
unfolding split
split-ne-nil sep [] = λ e. cc
split-ne-nil sep (c ∷ cs) = ground (arith, split-ne-nil sep cs)

join-prepend : (sep c : ℕ) (pieces : List Text) → join sep (prepend c pieces) ≡ c ∷ join sep pieces
unfolding join
join-prepend sep c [] = refl
join-prepend sep c (p ∷ []) = refl
join-prepend sep c (p ∷ q ∷ rest) = refl

join-nil :
    (sep : ℕ) (pieces : List Text) → pieces ≢ [] → join sep ([] ∷ pieces) ≡ sep ∷ join sep pieces
unfolding join
join-nil sep [] h = absurd (h refl)
join-nil sep (p ∷ rest) h = refl

pub join-split : (sep : ℕ) (t : Text) → join sep (split sep t) ≡ t
unfolding split
join-split sep [] = unfold join in refl
join-split sep (c ∷ cs) = elim (Bool-cases (c == sep)) [
  | inl at ↦ rw at (
      join-nil sep (split sep cs) (split-ne-nil sep cs)
      ∙ ap₂ ◌∷◌ (sym ((==_iff c sep).0 at)) (join-split sep cs))
  | inr off ↦ rw off (join-prepend sep c (split sep cs) ∙ ap (λ t. c ∷ t) (join-split sep cs))
]
