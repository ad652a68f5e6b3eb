-- ===== src/Store/Rules.antt =====
-- The rule of each database call, from the law of the client: what the rest of a block may assume
-- about the row that came back and about the table.
use mathlib.Core.Path.{subst, subst₂, sym}
use social_listening_backend.Base.{
  ℕ, ◌≡◌, ◌≢◌, ◌==◌, refl, Bool, true, not, Option, none, some, List, [], ◌∷◌, ◌++◌,
}
use social_listening_backend.Lists.{find, count, keep, update_where, Has, All}
use social_listening_backend.Exec.{Result, ok, err, Error}
use social_listening_backend.Exec.Runs.{Runs-modify, Runs}
use social_listening_backend.Prisma.{
  FoundFirst, FoundMany, Counted, Inserted, Deleted, Created, Updated, Placed, Upserted, Leaves,
}
use social_listening_backend.Store.{
  emit, Event, Store, Model, tick, saved, replaced, find_first, find_many, count_rows, create,
  insert, delete, update, upsert, update_many, delete_many,
}

module _ {R : Type 0} {id : R → ℕ} (m : Model id) (s : Store) (Q : R → Store → Type 0) where
  Placed-ends :
      (k : ℕ) (new : R) (g : R → R) (r : R) (t : List R) (o : Option R)
      → (o ≡ none → Q new (m.write (m.rows s ++ new ∷ []) (tick s)))
      → ((x : R)
          → o ≡ some x
          → Q (g x) (m.write (update_where (λ y. id y == k) g (m.rows s)) (tick s)))
      → Placed id k new g (m.rows s) o (r, t)
      → Q r (m.write t (tick s))
  Placed-ends k new g r t none h j (er, et) =
      subst₂ (λ r t. Q r (m.write t (tick s))) (sym er) (sym et) (h refl)
  Placed-ends k new g r t (some x) h j (er, et) =
      subst₂ (λ r t. Q r (m.write t (tick s))) (sym er) (sym et) (j x refl)

module _ {R : Type 0} {id : R → ℕ} (m : Model id) {E : Error → Store → Type 0} (s : Store) where
  found-Runs :
      {Q : Option R → Store → Type 0} (p : R → Bool) (o : Result (Option R))
      → FoundFirst p (m.rows s) o
      → (find p (m.rows s) ≡ none → Q none (tick s))
      → ((r : R) → Has r (m.rows s) → p r ≡ true → Q (some r) (tick s))
      → ((e : Error) → E e (tick s))
      → Runs Q E (o, tick s)
  found-Runs p (ok none) l h k f = record { ends = h l }
  found-Runs p (ok (some r)) l h k f = record { ends = k r l.0 l.1 }
  found-Runs p (err e) l h k f = record { ends = f e }

  pub Runs-find_first :
      {Q : Option R → Store → Type 0} (p : R → Bool)
      → (find p (m.rows s) ≡ none → Q none (tick s))
      → ((r : R) → Has r (m.rows s) → p r ≡ true → Q (some r) (tick s))
      → ((e : Error) → E e (tick s))
      → Runs Q E (find_first m p s)
  unfolding find_first
  Runs-find_first p h k f = found-Runs p _ (m.delegate.find_first_lem s.calls p (m.rows s)) h k f

  FoundMany-Runs :
      {Q : List R → Store → Type 0} (p : R → Bool) (o : Result (List R))
      → FoundMany p (m.rows s) o
      → ((l : List R) → ((q : R → Bool) → count q l ≡ count q (keep p (m.rows s))) → Q l (tick s))
      → ((e : Error) → E e (tick s))
      → Runs Q E (o, tick s)
  FoundMany-Runs p (ok l) c h f = record { ends = h l c }
  FoundMany-Runs p (err e) c h f = record { ends = f e }

  pub Runs-find_many :
      {Q : List R → Store → Type 0} (p : R → Bool)
      → ((l : List R) → ((q : R → Bool) → count q l ≡ count q (keep p (m.rows s))) → Q l (tick s))
      → ((e : Error) → E e (tick s))
      → Runs Q E (find_many m p s)
  unfolding find_many
  Runs-find_many p h f = FoundMany-Runs p _ (m.delegate.find_many_lem s.calls p (m.rows s)) h f

  Counted-Runs :
      {Q : ℕ → Store → Type 0} (p : R → Bool) (o : Result ℕ)
      → Counted p (m.rows s) o
      → Q (count p (m.rows s)) (tick s)
      → ((e : Error) → E e (tick s))
      → Runs Q E (o, tick s)
  Counted-Runs {Q} p (ok n) c h f = record { ends = subst (λ n. Q n (tick s)) (sym c) h }
  Counted-Runs p (err e) c h f = record { ends = f e }

  pub Runs-count_rows :
      {Q : ℕ → Store → Type 0} (p : R → Bool)
      → Q (count p (m.rows s)) (tick s)
      → ((e : Error) → E e (tick s))
      → Runs Q E (count_rows m p s)
  unfolding count_rows
  Runs-count_rows p h f = Counted-Runs p _ (m.delegate.count_rows_lem s.calls p (m.rows s)) h f

  saved-Runs :
      {Q : R → Store → Type 0} (o : Result (R × List R))
      → ((r : R) (t : List R) → o ≡ ok (r, t) → Q r (m.write t (tick s)))
      → ((e : Error) → E e (tick s))
      → Runs Q E (saved m o s)
  unfolding saved
  saved-Runs (ok (r, t)) h f = record { ends = h r t refl }
  saved-Runs (err e) h f = record { ends = f e }

  pub Runs-create :
      {Q : R → Store → Type 0} (make : ℕ → R)
      → ((k : ℕ)
          → All (λ x. id x ≢ k) (m.rows s)
          → Q (make k) (m.write (m.rows s ++ make k ∷ []) (tick s)))
      → ((e : Error) → E e (tick s))
      → Runs Q E (create m make s)
  unfolding create
  Runs-create {Q} make h f =
      saved-Runs _
        (λ r t e.
          let (k, er, et, fresh) =
            subst (Created id make (m.rows s)) e (m.delegate.create_lem s.calls make (m.rows s)) in
          subst₂ (λ r t. Q r (m.write t (tick s))) (sym er) (sym et) (h k fresh))
        f

  pub Runs-insert :
      {Q : R → Store → Type 0} (same : R → Bool) (new : R)
      → (find same (m.rows s) ≡ none → Q new (m.write (m.rows s ++ new ∷ []) (tick s)))
      → ((e : Error) → E e (tick s))
      → Runs Q E (insert m same new s)
  unfolding insert
  Runs-insert {Q} same new h f =
      saved-Runs _
        (λ r t e.
          let (er, et, free) =
            subst (Inserted same new (m.rows s)) e
              (m.delegate.insert_lem s.calls same new (m.rows s)) in
          subst₂ (λ r t. Q r (m.write t (tick s))) (sym er) (sym et) (h free))
        f

  Deleted-Runs :
      {Q : Unit {0} → Store → Type 0} (same : R → Bool) (o : Result (List R))
      → Deleted same (m.rows s) o
      → (find same (m.rows s) ≢ none
          → Q tt (m.write (keep (λ x. not (same x)) (m.rows s)) (tick s)))
      → ((e : Error) → E e (tick s))
      → Runs Q E (replaced m o s)
  unfolding replaced
  Deleted-Runs {Q} same (ok t') l h f = record {
    ends = subst (λ t. Q tt (m.write t (tick s))) (sym l.0) (h l.1);
  }
  Deleted-Runs same (err e) l h f = record { ends = f e }

  pub Runs-delete :
      {Q : Unit {0} → Store → Type 0} (same : R → Bool)
      → (find same (m.rows s) ≢ none
          → Q tt (m.write (keep (λ x. not (same x)) (m.rows s)) (tick s)))
      → ((e : Error) → E e (tick s))
      → Runs Q E (delete m same s)
  unfolding delete
  Runs-delete same h f = Deleted-Runs same _ (m.delegate.delete_lem s.calls same (m.rows s)) h f

  pub Runs-update :
      {Q : R → Store → Type 0} (k : ℕ) (g : R → R)
      → ((x : R)
          → Has x (m.rows s)
          → id x ≡ k
          → Q (g x) (m.write (update_where (λ y. id y == k) g (m.rows s)) (tick s)))
      → ((e : Error) → E e (tick s))
      → Runs Q E (update m k g s)
  unfolding update
  Runs-update {Q} k g h f =
      saved-Runs _
        (λ r t e.
          let (x, has, ex, er, et) =
            subst (Updated id k g (m.rows s)) e (m.delegate.update_lem s.calls k g (m.rows s)) in
          subst₂ (λ r t. Q r (m.write t (tick s))) (sym er) (sym et) (h x has ex))
        f

  pub Runs-upsert :
      {Q : R → Store → Type 0} (k : ℕ) (new : R) (g : R → R)
      → (find (λ y. id y == k) (m.rows s) ≡ none → Q new (m.write (m.rows s ++ new ∷ []) (tick s)))
      → ((x : R)
          → find (λ y. id y == k) (m.rows s) ≡ some x
          → Q (g x) (m.write (update_where (λ y. id y == k) g (m.rows s)) (tick s)))
      → ((e : Error) → E e (tick s))
      → Runs Q E (upsert m k new g s)
  unfolding upsert
  Runs-upsert {Q} k new g h j f =
      saved-Runs _
        (λ r t e. Placed-ends m s Q k new g r t _ h j (
          subst (Upserted id k new g (m.rows s)) e
            (m.delegate.upsert_lem s.calls k new g (m.rows s))))
        f

  replaced-Runs :
      {Q : Unit {0} → Store → Type 0} (t : List R) (o : Result (List R))
      → Leaves t o
      → Q tt (m.write t (tick s))
      → ((e : Error) → E e (tick s))
      → Runs Q E (replaced m o s)
  unfolding replaced
  replaced-Runs {Q} t (ok t') l h f = record {
    ends = subst (λ t. Q tt (m.write t (tick s))) (sym l) h;
  }
  replaced-Runs t (err e) l h f = record { ends = f e }

  pub Runs-update_many :
      {Q : Unit {0} → Store → Type 0} (p : R → Bool) (g : R → R)
      → Q tt (m.write (update_where p g (m.rows s)) (tick s))
      → ((e : Error) → E e (tick s))
      → Runs Q E (update_many m p g s)
  unfolding update_many
  Runs-update_many p g h f =
      replaced-Runs _ _ (m.delegate.update_many_lem s.calls p g (m.rows s)) h f

  pub Runs-delete_many :
      {Q : Unit {0} → Store → Type 0} (p : R → Bool)
      → Q tt (m.write (keep (λ x. not (p x)) (m.rows s)) (tick s))
      → ((e : Error) → E e (tick s))
      → Runs Q E (delete_many m p s)
  unfolding delete_many
  Runs-delete_many p h f = replaced-Runs _ _ (m.delegate.delete_many_lem s.calls p (m.rows s)) h f

  -- A look-up whose row does not matter.
  pub Runs-any_first :
      {Q : Option R → Store → Type 0} (p : R → Bool)
      → ((o : Option R) → Q o (tick s))
      → ((e : Error) → E e (tick s))
      → Runs Q E (find_first m p s)
  Runs-any_first p h f = Runs-find_first p (λ _. h none) (λ r _ _. h (some r)) f

pub Runs-emit :
    {Q : Unit {0} → Store → Type 0} {E : Error → Store → Type 0} (e : Event) (s : Store)
    → Q tt (record s { sent = s.sent ++ e ∷ [] })
    → Runs Q E (emit e s)
Runs-emit e s h = Runs-modify tt (λ s. record s { sent = s.sent ++ e ∷ [] }) s h
