-- ===== src/Store.antt =====
-- The state that the services share: the tables of the database, the number of database calls made
-- so far, and what has been sent out (HTTP requests and socket messages). A model of the client
-- (`prismaService.workflow`, …) is a delegate with the place of its table in the state.
mod State
mod Models
pub mod Rules
pub mod Total
pub use State.*
pub use Models.*
use social_listening_backend.Base.{
  [], ◌∷◌, ◌++◌, ℕ, suc, ◌≡◌, Bool, Option, none, some, List, String,
}
use social_listening_backend.Exec.{
  modify, Exec, Result, ok, err, Error, thrown, ◌>>=◌, try_catch, throw,
}
use social_listening_backend.Prisma.{Delegate}

module _ {R : Type 0} {id : R → ℕ} (m : Model id) where
  unfoldable pub find_first : (R → Bool) → Exec Store (Option R)
  find_first p s = (m.delegate.find_first s.calls p (m.rows s), tick s)

  unfoldable pub find_many : (R → Bool) → Exec Store (List R)
  find_many p s = (m.delegate.find_many s.calls p (m.rows s), tick s)

  unfoldable pub count_rows : (R → Bool) → Exec Store ℕ
  count_rows p s = (m.delegate.count_rows s.calls p (m.rows s), tick s)

  -- The outcome of a write that returns a row.
  saved : Result (R × List R) → Exec Store R
  saved (ok (r, t)) s = (ok r, m.write t (tick s))
  saved (err e) s = (err e, tick s)

  -- The outcome of a write that returns nothing.
  replaced : Result (List R) → Exec Store (Unit {0})
  replaced (ok t) s = (ok tt, m.write t (tick s))
  replaced (err e) s = (err e, tick s)

  unfoldable pub create : (ℕ → R) → Exec Store R
  unfolding saved
  create make s = saved (m.delegate.create s.calls make (m.rows s)) s

  unfoldable pub insert : (R → Bool) → R → Exec Store R
  unfolding saved
  insert same new s = saved (m.delegate.insert s.calls same new (m.rows s)) s

  unfoldable pub delete : (R → Bool) → Exec Store (Unit {0})
  unfolding replaced
  delete same s = replaced (m.delegate.delete s.calls same (m.rows s)) s

  unfoldable pub update : ℕ → (R → R) → Exec Store R
  unfolding saved
  update k f s = saved (m.delegate.update s.calls k f (m.rows s)) s

  unfoldable pub upsert : ℕ → R → (R → R) → Exec Store R
  unfolding saved
  upsert k new f s = saved (m.delegate.upsert s.calls k new f (m.rows s)) s

  unfoldable pub update_many : (R → Bool) → (R → R) → Exec Store (Unit {0})
  unfolding replaced
  update_many p f s = replaced (m.delegate.update_many s.calls p f (m.rows s)) s

  unfoldable pub delete_many : (R → Bool) → Exec Store (Unit {0})
  unfolding replaced
  delete_many p s = replaced (m.delegate.delete_many s.calls p (m.rows s)) s

-- Something is sent out.
abbrev pub emit : Event → Exec Store (Unit {0})
emit e = modify tt (λ s. record s { sent = s.sent ++ e ∷ [] })
