-- ===== src/Store/Total.antt =====
-- The rules of the calls of a database that does not fail.
use social_listening_backend.Exec.Runs.{Runs}
use social_listening_backend.Lists.{keep, update_where, Has, find, All}
use social_listening_backend.Exec.{ok, err, Result, Error}
use social_listening_backend.Prisma.{Deleted, Updated, Created, Inserted, FoundFirst, Reliable}
use social_listening_backend.Store.{
  delete, replaced, saved, tick, update, create, insert, find_first, Store, Model,
}
use social_listening_backend.Base.{
  not, List, refl, some, [], true, ◌∷◌, ◌++◌, none, ◌==◌, ◌≢◌, ◌≡◌, Bool, Option, ℕ,
}
use mathlib.Core.Path.{subst, subst₂, sym}

module _ {R : Type 0} {id : R → ℕ} (m : Model id) (reliable : Reliable m.delegate)
    {E : Error → Store → Type 0} (s : Store) where
  FoundFirst-Runs :
      {Q : Option R → Store → Type 0} (p : R → Bool) (o : Result (Option R))
      → FoundFirst p (m.rows s) o
      → ((e : Error) → o ≢ err e)
      → (find p (m.rows s) ≡ none → Q none (tick s))
      → ((r : R) → Has r (m.rows s) → p r ≡ true → Q (some r) (tick s))
      → Runs Q E (o, tick s)
  FoundFirst-Runs p (ok none) l f h k = record { ends = h l }
  FoundFirst-Runs p (ok (some r)) l f h k = record { ends = k r l.0 l.1 }
  FoundFirst-Runs p (err e) l f h k = absurd (f e refl)

  pub Runs-find_first_ok :
      {Q : Option R → Store → Type 0} (p : R → Bool)
      → (find p (m.rows s) ≡ none → Q none (tick s))
      → ((r : R) → Has r (m.rows s) → p r ≡ true → Q (some r) (tick s))
      → Runs Q E (find_first m p s)
  unfolding find_first
  Runs-find_first_ok p h k =
      FoundFirst-Runs p _ (m.delegate.find_first_lem s.calls p (m.rows s))
        (reliable.finds s.calls p (m.rows s)) h k

  saved_ok-Runs :
      {Q : R → Store → Type 0} (o : Result (R × List R))
      → ((e : Error) → o ≢ err e)
      → ((r : R) (t : List R) → o ≡ ok (r, t) → Q r (m.write t (tick s)))
      → Runs Q E (saved m o s)
  unfolding saved
  saved_ok-Runs (ok (r, t)) f h = record { ends = h r t refl }
  saved_ok-Runs (err e) f h = absurd (f e refl)

  pub Runs-insert_ok :
      {Q : R → Store → Type 0} (same : R → Bool) (new : R)
      → find same (m.rows s) ≡ none
      → Q new (m.write (m.rows s ++ new ∷ []) (tick s))
      → Runs Q E (insert m same new s)
  unfolding insert
  Runs-insert_ok {Q} same new free h =
      saved_ok-Runs _ (λ e. reliable.inserts s.calls same new (m.rows s) e free)
        (λ r t e.
          let (er, et, _) =
            subst (Inserted same new (m.rows s)) e
              (m.delegate.insert_lem s.calls same new (m.rows s)) in
          subst₂ (λ r t. Q r (m.write t (tick s))) (sym er) (sym et) h)

  Deleted-Runs :
      {Q : Unit {0} → Store → Type 0} (same : R → Bool) (o : Result (List R))
      → Deleted same (m.rows s) o
      → ((e : Error) → o ≢ err e)
      → Q tt (m.write (keep (λ x. not (same x)) (m.rows s)) (tick s))
      → Runs Q E (replaced m o s)
  unfolding replaced
  Deleted-Runs {Q} same (ok t) l f h = record {
    ends = subst (λ t. Q tt (m.write t (tick s))) (sym l.0) h;
  }
  Deleted-Runs same (err e) l f h = absurd (f e refl)

  pub Runs-delete_ok :
      {Q : Unit {0} → Store → Type 0} (same : R → Bool)
      → find same (m.rows s) ≢ none
      → Q tt (m.write (keep (λ x. not (same x)) (m.rows s)) (tick s))
      → Runs Q E (delete m same s)
  unfolding delete
  Runs-delete_ok same there h =
      Deleted-Runs same _ (m.delegate.delete_lem s.calls same (m.rows s))
        (λ e. reliable.deletes s.calls same (m.rows s) e there) h

  pub Runs-create_ok :
      {Q : R → Store → Type 0} (make : ℕ → R)
      → ((k : ℕ)
          → All (λ x. id x ≢ k) (m.rows s)
          → Q (make k) (m.write (m.rows s ++ make k ∷ []) (tick s)))
      → Runs Q E (create m make s)
  unfolding create
  Runs-create_ok {Q} make h = saved_ok-Runs _ (reliable.creates s.calls make (m.rows s)) (λ r t e.
      let (k, er, et, fresh) =
        subst (Created id make (m.rows s)) e (m.delegate.create_lem s.calls make (m.rows s)) in
      subst₂ (λ r t. Q r (m.write t (tick s))) (sym er) (sym et) (h k fresh))

  pub Runs-update_ok :
      {Q : R → Store → Type 0} (k : ℕ) (g : R → R)
      → find (λ y. id y == k) (m.rows s) ≢ none
      → ((x : R)
          → Has x (m.rows s)
          → id x ≡ k
          → Q (g x) (m.write (update_where (λ y. id y == k) g (m.rows s)) (tick s)))
      → Runs Q E (update m k g s)
  unfolding update
  Runs-update_ok {Q} k g there h =
      saved_ok-Runs _ (λ e. reliable.updates s.calls k g (m.rows s) e there)
        (λ r t e.
          let (x, has, ex, er, et) =
            subst (Updated id k g (m.rows s)) e (m.delegate.update_lem s.calls k g (m.rows s)) in
          subst₂ (λ r t. Q r (m.write t (tick s))) (sym er) (sym et) (h x has ex))
