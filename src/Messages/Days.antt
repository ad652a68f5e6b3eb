-- ===== src/Messages/Days.antt =====
-- What the date operators of the filter of conversations keep, in days of the calendar.
use social_listening_backend.Base.{ℕ, ◌≤◌, ◌<◌, ◌≡◌, ◌↔◌, String, true, arith, some}
use social_listening_backend.Filtering.{Dates, FilterValue, Value, single}
use social_listening_backend.Filtering.Calendar.{
  IsCalendar, Takes24Hours, hours_iff, lt_midnight_iff, lt_tomorrow_iff, midnight_le_iff,
  tomorrow_le_iff,
}
use social_listening_backend.Messages.{is_kept}

module _ (dates : Dates) (cal : IsCalendar dates.midnight) (now : ℕ) where
  abbrev Keeps : String → FilterValue → ℕ → Type 0
  Keeps op value x = is_kept dates now op value x ≡ true

  abbrev mid : ℕ → ℕ
  mid = dates.midnight

  -- Where the midnight of an instant is the first instant of its day and the days follow one
  -- another: for a value that is one date, "Is Before" keeps a conversation exactly if the day of
  -- its last message is before the day of the value, "Is After Or Equal To" exactly if it is not
  -- before it, and "Is Equal To" keeps exactly those of the value's day if, and only if, that day
  -- takes 24 hours.
  pub is_kept_days :
      (v : Value) (d : ℕ)
      → dates.date_of (single v) ≡ some d
      → ((x : ℕ) → Keeps "Is Before" (single v) x ↔ (mid x < mid d))
        × ((x : ℕ) → Keeps "Is After Or Equal To" (single v) x ↔ (mid d ≤ mid x))
        × (((x : ℕ) → Keeps "Is Equal To" (single v) x ↔ (mid x ≡ mid d)) ↔ Takes24Hours mid d)
  unfolding is_kept
  is_kept_days v d at = rw at (
    (λ x.
        let before = lt_midnight_iff mid cal x d in
        (λ h. before.0 (ground arith), λ h. ground (arith, before.1 h))),
    (λ x.
        let le = midnight_le_iff mid cal x d in
        (λ h. le.0 (ground arith), λ h. ground (arith, le.1 h))),
    (
      λ h. (hours_iff mid cal d).0 (λ x. (
        λ p. (h x).0 (ground (arith, p.0, p.1)),
        λ e. let kept = (h x).1 e in (ground arith, ground arith),
      )),
      λ hours x.
          let same = (hours_iff mid cal d).1 hours x in
          (
            λ h. same.0 (ground arith, ground arith),
            λ e. let p = same.1 e in ground (arith, p.0, p.1),
          ),
    ),
  )

  -- Where the midnight of an instant is the first instant of its day and the days follow one
  -- another: for a value that is one date, whose day takes 24 hours, "Is Before Or Equal To" keeps
  -- a conversation exactly if the day of its last message is not after the day of the value, and
  -- "Is After" exactly if it is after it.
  pub is_kept_after :
      (v : Value) (d : ℕ)
      → dates.date_of (single v) ≡ some d
      → Takes24Hours mid d
      → (x : ℕ)
      → (Keeps "Is Before Or Equal To" (single v) x ↔ (mid x ≤ mid d))
        × (Keeps "Is After" (single v) x ↔ (mid d < mid x))
  unfolding is_kept
  is_kept_after v d at hours x =
      let lt = lt_tomorrow_iff mid cal x d hours in
      let after = tomorrow_le_iff mid cal x d hours in
      rw at (
        (λ h. lt.0 (ground arith), λ h. ground (arith, lt.1 h)),
        (λ h. after.0 (ground arith), λ h. ground (arith, after.1 h)),
      )

  -- Where the midnight of an instant is the first instant of its day and the days follow one
  -- another: for two dates of which the day of the second takes 24 hours, "Between" keeps a
  -- conversation exactly if the day of its last message is between the days of the two, both
  -- included.
  pub is_kept_between :
      (value : FilterValue) (a b : ℕ)
      → dates.first_date value ≡ some a
      → dates.second_date value ≡ some b
      → Takes24Hours mid b
      → (x : ℕ) → Keeps "Between" value x ↔ ((mid a ≤ mid x) × (mid x ≤ mid b))
  unfolding is_kept
  is_kept_between value a b at_a at_b hours x =
      let le = midnight_le_iff mid cal x a in
      let lt = lt_tomorrow_iff mid cal x b hours in
      rw (at_a, at_b)
        (λ h. (le.0 (ground arith), lt.0 (ground arith)), λ h. ground (arith, le.1 h.0, lt.1 h.1))
