-- ===== src/Lists/Count.antt =====
-- Laws of counting: how many rows of a table pass a test, after the table has been changed.
use social_listening_backend.Base.{
  ltb, ◌&&◌, ◌||◌, ◌+◌, ◌≤◌, ◌≡◌, refl, sym, ap, inl, inr, Bool, true, false, List, [], ◌∷◌, ◌++◌,
  map, arith, if◌then◌else◌, none,
}
use social_listening_backend.Lists.{length, keep, any, update_where, count, Has, All, find}

module _ {ℓ} {A : Type ℓ} where
  pub count-append : (p : A → Bool) (xs ys : List A) → count p (xs ++ ys) ≡ count p xs + count p ys
  count-append p [] ys = omega arith
  count-append p (x ∷ xs) ys = omega (arith, count-append p xs ys)

  -- A test that is stronger on the elements of the list counts no more.
  pub count_mono :
      (p q : A → Bool) (xs : List A)
      → All (λ x. p x ≡ true → q x ≡ true) xs
      → count p xs ≤ count q xs
  count_mono p q [] h = omega arith
  count_mono p q (x ∷ xs) h = ground (arith, count_mono p q xs h.1, h.0)

  pub count-zero : (p : A → Bool) (xs : List A) → All (λ x. p x ≡ false) xs → count p xs ≡ 0
  count-zero p [] h = refl
  count-zero p (x ∷ xs) h = ground (arith, count-zero p xs h.1, h.0)

  pub count-eq-zero : (p : A → Bool) (xs : List A) → count p xs ≡ 0 → All (λ x. p x ≡ false) xs
  count-eq-zero p [] h = tt
  count-eq-zero p (x ∷ xs) h = (ground arith, count-eq-zero p xs (ground arith))

  pub All-of_All {κ} : (P : A → Type κ) (xs : List A) → ((x : A) → P x) → All P xs
  All-of_All P [] h = tt
  All-of_All P (x ∷ xs) h = (h x, All-of_All P xs h)

  pub All-mono {κ κ'} :
      (P : A → Type κ) (Q : A → Type κ') (xs : List A) → ((x : A) → P x → Q x) → All P xs → All Q xs
  All-mono P Q [] h a = tt
  All-mono P Q (x ∷ xs) h a = (h x a.0, All-mono P Q xs h a.1)

  pub find-eq-none : (p : A → Bool) (xs : List A) → find p xs ≡ none → All (λ x. p x ≡ false) xs
  find-eq-none p [] h = tt
  find-eq-none p (x ∷ xs) h = (ground arith, find-eq-none p xs (ground arith))

  pub find-none : (p : A → Bool) (xs : List A) → All (λ x. p x ≡ false) xs → find p xs ≡ none
  find-none p [] h = refl
  find-none p (x ∷ xs) h = ground (arith, find-none p xs h.1, h.0)

pub All-map {ℓ κ} :
    {A B : Type ℓ} (P : B → Type κ) (f : A → B) (xs : List A)
    → All (λ x. P (f x)) xs
    → All P (map f xs)
All-map P f [] h = tt
All-map P f (x ∷ xs) h = (h.0, All-map P f xs h.1)

pub count-map {ℓ κ} :
    {A : Type ℓ} {B : Type κ} (p : B → Bool) (f : A → B) (xs : List A)
    → count p (map f xs) ≡ count (λ x. p (f x)) xs
count-map p f [] = refl
count-map p f (x ∷ xs) = ap (λ n. (if p (f x) then 1 else 0) + n) (count-map p f xs)

module _ {A : Type 0} where
  pub count-pos_of_Has :
      (p : A → Bool) (a : A) (xs : List A) → Has a xs → p a ≡ true → 1 ≤ count p xs
  count-pos_of_Has p a [] m h = elim m [ ]
  count-pos_of_Has p a (x ∷ xs) (inl e) h = ground arith
  count-pos_of_Has p a (x ∷ xs) (inr m) h = ground (arith, count-pos_of_Has p a xs m h)

  pub All-Has {κ} : (P : A → Type κ) (a : A) (xs : List A) → All P xs → Has a xs → P a
  All-Has P a [] h m = elim m [ ]
  All-Has P a (x ∷ xs) h (inl e) = rw e h.0
  All-Has P a (x ∷ xs) h (inr m) = All-Has P a xs h.1 m

  -- Where at most one element passes, every element that passes is the one that is known.
  pub unique_of_count :
      (p : A → Bool) (a : A) (xs : List A)
      → Has a xs
      → p a ≡ true
      → count p xs ≤ 1
      → All (λ x. p x ≡ true → x ≡ a) xs
  unique_of_count p a [] m h c = elim m [ ]
  unique_of_count p a (x ∷ xs) (inl e) h c = (
    λ _. sym e,
    All-mono (λ y. p y ≡ false) _ xs (λ y f t. cc) (count-eq-zero p xs (ground arith)),
  )
  unique_of_count p a (x ∷ xs) (inr m) h c = (
    λ t. absurd (ground (arith, count-pos_of_Has p a xs m h)),
    unique_of_count p a xs m h (ground arith),
  )

-- A row that passes the test stands changed in the changed table.
pub Has-update_where :
    {A : Type 0} (p : A → Bool) (f : A → A) (a : A) (xs : List A)
    → Has a xs
    → p a ≡ true
    → Has (f a) (update_where p f xs)
Has-update_where p f a [] m h = elim m [ ]
Has-update_where p f a (x ∷ xs) (inl e) h = inl (rw (← e, h) refl)
Has-update_where p f a (x ∷ xs) (inr m) h = inr (Has-update_where p f a xs m h)

-- A change of the rows that pass one test adds at most their number to another count.
pub count-update_where {ℓ} :
    {A : Type ℓ} (p q : A → Bool) (f : A → A) (xs : List A)
    → count p (update_where q f xs) ≤ count p xs + count q xs
count-update_where p q f [] = omega arith
count-update_where p q f (x ∷ xs) = ground (arith, count-update_where p q f xs)

module _ {ℓ} {A : Type ℓ} where
  pub any-append : (p : A → Bool) (xs ys : List A) → any p (xs ++ ys) ≡ (any p xs || any p ys)
  any-append p [] ys = refl
  any-append p (x ∷ xs) ys = ground (arith, any-append p xs ys)

  pub any-false-find : (p : A → Bool) (xs : List A) → find p xs ≡ none → any p xs ≡ false
  any-false-find p [] h = refl
  any-false-find p (x ∷ xs) h = ground (arith, any-false-find p xs)

  -- A removal by one test, seen by another.
  pub any-keep : (p q : A → Bool) (xs : List A) → any p (keep q xs) ≡ any (λ x. p x && q x) xs
  any-keep p q [] = refl
  any-keep p q (x ∷ xs) = ground (arith, any-keep p q xs)

  pub count-keep : (p q : A → Bool) (xs : List A) → count p (keep q xs) ≤ count p xs
  count-keep p q [] = omega arith
  count-keep p q (x ∷ xs) = ground (arith, count-keep p q xs)

pub any-Has :
    {A : Type 0} (p : A → Bool) (a : A) (xs : List A) → Has a xs → p a ≡ true → any p xs ≡ true
any-Has p a [] m h = elim m [ ]
any-Has p a (x ∷ xs) (inl e) h = ground arith
any-Has p a (x ∷ xs) (inr m) h = ground (arith, any-Has p a xs m h)

module _ {ℓ} {A : Type ℓ} where
  pub any-count : (p : A → Bool) (xs : List A) → any p xs ≡ ltb 0 (count p xs)
  any-count p [] = refl
  any-count p (x ∷ xs) = ground (arith, any-count p xs)

  pub count-keep-and :
      (p q : A → Bool) (xs : List A) → count p (keep q xs) ≡ count (λ x. p x && q x) xs
  count-keep-and p q [] = refl
  count-keep-and p q (x ∷ xs) = ground (arith, count-keep-and p q xs)

  pub update_where-ext :
      (p q : A → Bool) (f : A → A) (xs : List A)
      → All (λ x. p x ≡ q x) xs
      → update_where p f xs ≡ update_where q f xs
  update_where-ext p q f [] h = refl
  update_where-ext p q f (x ∷ xs) h =
      rw h.0 (ap (λ t. (if q x then f x else x) ∷ t) (update_where-ext p q f xs h.1))

pub All-of_Has {κ} :
    {A : Type 0} (P : A → Type κ) (xs : List A) → ((x : A) → Has x xs → P x) → All P xs
All-of_Has P [] h = tt
All-of_Has P (x ∷ xs) h = (h x (inl refl), All-of_Has P xs (λ y m. h y (inr m)))

pub length-append {ℓ} : {A : Type ℓ} (xs ys : List A) → length (xs ++ ys) ≡ length xs + length ys
length-append [] ys = omega arith
length-append (x ∷ xs) ys = omega (arith, length-append xs ys)
