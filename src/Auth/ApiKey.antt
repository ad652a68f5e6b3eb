-- ===== src/Auth/ApiKey.antt =====
-- Which API keys are known, and which the strategy accepts.
use social_listening_backend.Base.{
  ◌≡◌, ◌≢◌, ◌↔◌, refl, sym, ap, ap₂, ==_iff, Bool-cases, true, Option, none, some, List, [], ◌∷◌,
  inl, inr, arith,
}
use social_listening_backend.Lists.{find, Has}
use social_listening_backend.Text.{Text, split, text_eq}
use social_listening_backend.Auth.{valid_key, found_key, accepted, unauthorized, validate, answers}

text_eq-eq : (a b : Text) → text_eq a b ≡ true → a ≡ b
text_eq-eq [] [] h = refl
text_eq-eq [] (b ∷ ys) h = absurd (ground arith)
text_eq-eq (a ∷ xs) [] h = absurd (ground arith)
text_eq-eq (a ∷ xs) (b ∷ ys) h =
    ap₂ ◌∷◌ ((==_iff a b).0 (ground arith)) (text_eq-eq xs ys (ground arith))

text_eq_refl : (a : Text) → text_eq a a ≡ true
text_eq_refl [] = refl
text_eq_refl (a ∷ xs) = ground (arith, text_eq_refl xs)

-- The search for a key among keys.
found-Has :
    (key : Text) (keys : List Text)
    → Has key keys
    → found_key (find (text_eq key) keys) ≡ valid_key key
found-Has key [] h = elim h [ ]
found-Has key (k ∷ ks) (inl e) = rw (← e, text_eq_refl key) refl
found-Has key (k ∷ ks) (inr h) = elim (Bool-cases (text_eq key k)) [
  | inl at ↦ rw at (ap valid_key (sym (text_eq-eq key k at)))
  | inr off ↦ rw off (found-Has key ks h)
]

Has-found :
    (key other : Text) (keys : List Text)
    → found_key (find (text_eq key) keys) ≡ valid_key other
    → Has key keys
Has-found key other [] h = absurd (ground arith)
Has-found key other (k ∷ ks) h = elim (Bool-cases (text_eq key k)) [
  | inl at ↦ inl (text_eq-eq key k at)
  | inr off ↦ inr (Has-found key other ks (rw off at h))
]

-- A key is returned as valid exactly if it is one of the comma-separated keys of the setting, where
-- the setting has a value; it is returned as it was given.
pub validate_lem :
    (value key : Text)
    → value ≢ []
    → (validate value key ≡ valid_key key) ↔ Has key (split b',' value)
unfolding validate
validate_lem [] key ne = absurd (ne refl)
validate_lem (c ∷ cs) key ne =
    (λ h. Has-found key key (split b',' (c ∷ cs)) h, λ h. found-Has key (split b',' (c ∷ cs)) h)

any-known : (o : Option Text) → answers (found_key o) ≡ accepted ∷ unauthorized ∷ []
unfolding answers
any-known none = refl
any-known (some key) = refl

-- The strategy refuses every key where the setting has no value; where it has one, it first accepts
-- every key, also one that is none of the keys of the setting, and then refuses it too.
pub answers-validate :
    (value key : Text)
    → (value ≡ [] → answers (validate value key) ≡ unauthorized ∷ [])
      × (value ≢ [] → answers (validate value key) ≡ accepted ∷ unauthorized ∷ [])
unfolding validate
answers-validate [] key = (λ _. unfold answers in refl, λ ne. absurd (ne refl))
answers-validate (c ∷ cs) key =
    (λ e. absurd (ground arith), λ _. any-known (find (text_eq key) (split b',' (c ∷ cs))))
