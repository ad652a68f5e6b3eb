-- ===== src/Prisma.antt =====
-- The Prisma client, which is not part of the repository: the operations of one delegate
-- (`prismaService.workflow`, …) that the code calls, as a parameter, with the documented behaviour
-- of each as a law. Any call may fail, and which row `findFirst` picks among several is the
-- database's choice: both may differ from one call to the next, so an operation is also given the
-- number of calls made before it.
use social_listening_backend.Base.{
  ℕ, ◌==◌, ◌≡◌, ◌≢◌, Bool, true, not, Option, none, some, List, [], ◌∷◌, ◌++◌,
}
use social_listening_backend.Lists.{keep, count, find, update_where, Has, All}
use social_listening_backend.Exec.{Error, Result, ok, err}

module _ {R : Type 0} where
  -- `findFirst`: a row that passes the filter, or null if none does.
  abbrev pub FoundFirst : (R → Bool) → List R → Result (Option R) → Type 0
  FoundFirst p t (ok (some r)) = Has r t × (p r ≡ true)
  FoundFirst p t (ok none) = find p t ≡ none
  FoundFirst p t (err e) = Unit

  -- `findMany`: the rows that pass the filter, in some order.
  abbrev pub FoundMany : (R → Bool) → List R → Result (List R) → Type 0
  FoundMany p t (ok l) = (q : R → Bool) → count q l ≡ count q (keep p t)
  FoundMany p t (err e) = Unit

  -- `count`: how many rows pass the filter.
  abbrev pub Counted : (R → Bool) → List R → Result ℕ → Type 0
  Counted p t (ok n) = n ≡ count p t
  Counted p t (err e) = Unit

  -- `create`: a new row, made with an identifier that no row has.
  abbrev pub Created : (R → ℕ) → (ℕ → R) → List R → Result (R × List R) → Type 0
  Created id make t (ok (r, t')) =
      (k : ℕ) × (r ≡ make k) × (t' ≡ t ++ make k ∷ []) × All (λ x. id x ≢ k) t
  Created id make t (err e) = Unit

  -- `create` of a row whose key the code gives: no row has that key, by the test of the key.
  abbrev pub Inserted : (R → Bool) → R → List R → Result (R × List R) → Type 0
  Inserted same new t (ok (r, t')) = (r ≡ new) × (t' ≡ t ++ new ∷ []) × (find same t ≡ none)
  Inserted same new t (err e) = Unit

  -- `delete` by a key: there is a row with the key, and the rows with it are removed.
  abbrev pub Deleted : (R → Bool) → List R → Result (List R) → Type 0
  Deleted same t (ok t') = (t' ≡ keep (λ x. not (same x)) t) × (find same t ≢ none)
  Deleted same t (err e) = Unit

  -- `update` by identifier: the row with that identifier is changed, and there is one.
  abbrev pub Updated : (R → ℕ) → ℕ → (R → R) → List R → Result (R × List R) → Type 0
  Updated id k f t (ok (r, t')) =
      (x : R) × Has x t × (id x ≡ k) × (r ≡ f x) × (t' ≡ update_where (λ y. id y == k) f t)
  Updated id k f t (err e) = Unit

  -- `upsert` by identifier: the row that was found is changed, and a new row is added if none was.
  abbrev pub Placed : (R → ℕ) → ℕ → R → (R → R) → List R → Option R → R × List R → Type 0
  Placed id k new f t none (r, t') = (r ≡ new) × (t' ≡ t ++ new ∷ [])
  Placed id k new f t (some x) (r, t') = (r ≡ f x) × (t' ≡ update_where (λ y. id y == k) f t)

  abbrev pub Upserted : (R → ℕ) → ℕ → R → (R → R) → List R → Result (R × List R) → Type 0
  Upserted id k new f t (ok o) = Placed id k new f t (find (λ y. id y == k) t) o
  Upserted id k new f t (err e) = Unit

  -- `updateMany` and `deleteMany`, by the table that they leave.
  abbrev pub Leaves : List R → Result (List R) → Type 0
  Leaves t (ok t') = t' ≡ t
  Leaves t (err e) = Unit

pub record Delegate {R : Type 0} (id : R → ℕ) : Type 0 where
  pub find_first : ℕ → (R → Bool) → List R → Result (Option R)
  pub find_many : ℕ → (R → Bool) → List R → Result (List R)
  pub count_rows : ℕ → (R → Bool) → List R → Result ℕ
  pub create : ℕ → (ℕ → R) → List R → Result (R × List R)
  pub insert : ℕ → (R → Bool) → R → List R → Result (R × List R)
  pub delete : ℕ → (R → Bool) → List R → Result (List R)
  pub update : ℕ → ℕ → (R → R) → List R → Result (R × List R)
  pub upsert : ℕ → ℕ → R → (R → R) → List R → Result (R × List R)
  pub update_many : ℕ → (R → Bool) → (R → R) → List R → Result (List R)
  pub delete_many : ℕ → (R → Bool) → List R → Result (List R)
  pub find_first_lem : (n : ℕ) (p : R → Bool) (t : List R) → FoundFirst p t (find_first n p t)
  pub find_many_lem : (n : ℕ) (p : R → Bool) (t : List R) → FoundMany p t (find_many n p t)
  pub count_rows_lem : (n : ℕ) (p : R → Bool) (t : List R) → Counted p t (count_rows n p t)
  pub create_lem : (n : ℕ) (make : ℕ → R) (t : List R) → Created id make t (create n make t)
  pub insert_lem :
      (n : ℕ) (same : R → Bool) (new : R) (t : List R) → Inserted same new t (insert n same new t)
  pub delete_lem : (n : ℕ) (same : R → Bool) (t : List R) → Deleted same t (delete n same t)
  pub update_lem : (n k : ℕ) (f : R → R) (t : List R) → Updated id k f t (update n k f t)
  pub upsert_lem :
      (n k : ℕ) (new : R) (f : R → R) (t : List R) → Upserted id k new f t (upsert n k new f t)
  pub update_many_lem :
      (n : ℕ) (p : R → Bool) (f : R → R) (t : List R)
      → Leaves (update_where p f t) (update_many n p f t)
  pub delete_many_lem :
      (n : ℕ) (p : R → Bool) (t : List R) → Leaves (keep (λ x. not (p x)) t) (delete_many n p t)

-- A database whose calls do not fail, but for an update or a deletion without a row and an insertion
-- whose key is taken.
pub record Reliable {R : Type 0} {id : R → ℕ} (d : Delegate id) : Type 0 where
  pub finds : (n : ℕ) (p : R → Bool) (t : List R) (e : Error) → d.find_first n p t ≢ err e
  pub finds_many : (n : ℕ) (p : R → Bool) (t : List R) (e : Error) → d.find_many n p t ≢ err e
  pub creates : (n : ℕ) (make : ℕ → R) (t : List R) (e : Error) → d.create n make t ≢ err e
  pub inserts :
      (n : ℕ) (same : R → Bool) (new : R) (t : List R) (e : Error)
      → find same t ≡ none
      → d.insert n same new t ≢ err e
  pub updates :
      (n k : ℕ) (f : R → R) (t : List R) (e : Error)
      → find (λ y. id y == k) t ≢ none
      → d.update n k f t ≢ err e
  pub deletes :
      (n : ℕ) (same : R → Bool) (t : List R) (e : Error)
      → find same t ≢ none
      → d.delete n same t ≢ err e
