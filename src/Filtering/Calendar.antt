-- ===== src/Filtering/Calendar.antt =====
-- What the date operators of a filter select, in days of the calendar.
use social_listening_backend.Base.{◌≢◌, String, ◌+◌, true, arith, ◌≡◌, ◌↔◌, ◌<◌, ◌≤◌, Bool, ℕ, some}
use social_listening_backend.Filtering.{
  get_date_query, day, FilterValue, date_after, date_before, date_from_to, Dates, Condition,
}

-- The documented meaning of `gte`, `lt` and `gt` on dates, which the database evaluates.
pub record DateMeaning : Type 0 where
  pub holds : Condition → ℕ → Bool
  pub from_to :
      (a b x : ℕ) → (holds (date_from_to (some a) (some b)) x ≡ true) ↔ ((a ≤ x) × (x < b))
  pub before : (a x : ℕ) → (holds (date_before (some a)) x ≡ true) ↔ (x < a)
  pub after : (a x : ℕ) → (holds (date_after (some a)) x ≡ true) ↔ (a < x)

-- The date of year, month and day of an instant is the first instant of its local day, and a later
-- instant is not of an earlier day. How long a day takes is left open: with daylight saving there
-- are days of 23 and of 25 hours.
pub record IsCalendar (midnight : ℕ → ℕ) : Type 0 where
  pub starts : (x : ℕ) → midnight x ≤ x
  pub same : (x : ℕ) → midnight (midnight x) ≡ midnight x
  pub order : (x y : ℕ) → x ≤ y → midnight x ≤ midnight y

-- 24 hours less one millisecond
abbrev pub last : ℕ
last = 86399999

-- The day of the instant takes 24 hours: its last millisecond is of the day, and then a day starts.
abbrev pub Takes24Hours : (ℕ → ℕ) → ℕ → Type 0
Takes24Hours midnight d =
    (midnight (midnight d + last) ≡ midnight d) × (midnight (midnight d + day) ≡ midnight d + day)

module _ (midnight : ℕ → ℕ) (cal : IsCalendar midnight) (x d : ℕ) where
  pub midnight_le_iff : (midnight d ≤ x) ↔ (midnight d ≤ midnight x)
  midnight_le_iff =
      (λ h. omega (arith, cal.order (midnight d) x h, cal.same d), λ h. omega (arith, cal.starts x))

  pub lt_midnight_iff : (x < midnight d) ↔ (midnight x < midnight d)
  lt_midnight_iff = (λ h. omega (arith, cal.starts x), λ h. grind (arith, midnight_le_iff.0))

  pub lt_tomorrow_iff : Takes24Hours midnight d → (x < midnight d + day) ↔ (midnight x ≤ midnight d)
  lt_tomorrow_iff (lasts, next) = (
    λ h. omega (arith, cal.order x (midnight d + last) (omega arith), lasts),
    λ h. grind (arith, cal.order (midnight d + day) x, next),
  )

  pub tomorrow_le_iff : Takes24Hours midnight d → (midnight d + day ≤ x) ↔ (midnight d < midnight x)
  tomorrow_le_iff hours =
      (λ h. grind (arith, (lt_tomorrow_iff hours).1), λ h. grind (arith, (lt_tomorrow_iff hours).0))

module _ (midnight : ℕ → ℕ) (cal : IsCalendar midnight) (d : ℕ) where
  -- The 24 hours from midnight are the day exactly if the day takes 24 hours.
  abbrev AreDay : Type 0
  AreDay = (x : ℕ) → ((midnight d ≤ x) × (x < midnight d + day)) ↔ (midnight x ≡ midnight d)

  AreDay-Takes24Hours : AreDay → Takes24Hours midnight d
  AreDay-Takes24Hours h =
      let z = midnight (midnight d + day) in
      let later : midnight d ≤ z =
        (midnight_le_iff midnight cal (midnight d + day) d).0 (omega arith) in
      let unlike : z ≢ midnight d = λ e. omega (arith, ((h (midnight d + day)).1 e).1) in
      let inside : z < midnight d + day → midnight z ≡ midnight d = λ lt. (h z).0 (later, lt) in
      (
        (h (midnight d + last)).0 (omega arith, omega arith),
        grind (arith, cal.starts (midnight d + day), cal.same (midnight d + day)),
      )

  pub hours_iff : AreDay ↔ Takes24Hours midnight d
  hours_iff = (
    AreDay-Takes24Hours,
    λ hours x.
        let le = midnight_le_iff midnight cal x d in
        let lt = lt_tomorrow_iff midnight cal x d hours in
        (λ h. omega (arith, le.0 h.0, lt.0 h.1), λ e. (le.1 (omega arith), lt.1 (omega arith))),
  )

module _ (dates : Dates) (cal : IsCalendar dates.midnight) (meaning : DateMeaning)
    (value : FilterValue) where
  abbrev Selects : String → ℕ → Type 0
  Selects op x = meaning.holds (get_date_query dates op value) x ≡ true

  abbrev mid : ℕ → ℕ
  mid = dates.midnight

  -- Where the midnight of an instant is the first instant of its day and the days follow one
  -- another: for a value that is a date, "Is Before" selects an instant exactly if its day is
  -- before the day of the value; "Is After Or Equal To" exactly if its day is not before it and the
  -- instant is not the midnight of the value's day; and "Is Equal To" selects exactly the instants
  -- of the value's day if, and only if, that day takes 24 hours.
  pub date_query_days :
      (d : ℕ)
      → dates.date_of value ≡ some d
      → ((x : ℕ) → Selects "Is Before" x ↔ (mid x < mid d))
        × ((x : ℕ) → Selects "Is After Or Equal To" x ↔ ((mid d ≤ mid x) × (x ≢ mid d)))
        × (((x : ℕ) → Selects "Is Equal To" x ↔ (mid x ≡ mid d)) ↔ Takes24Hours mid d)
  unfolding get_date_query
  date_query_days d at = rw at (
    (λ x.
        let lt = lt_midnight_iff mid cal x d in
        (λ h. lt.0 ((meaning.before (mid d) x).0 h), λ h. (meaning.before (mid d) x).1 (lt.1 h))),
    (λ x.
        let le = midnight_le_iff mid cal x d in
        let means = meaning.after (mid d) x in
        (
          λ h. let p = means.0 h in (le.0 (omega arith), λ e. omega arith),
          λ h. let p = le.1 h.0 in means.1 (grind (arith, h.1)),
        )),
    (
      λ h. (hours_iff mid cal d).0 (λ x.
          let means = meaning.from_to (mid d) (mid d + day) x in
          (λ p. (h x).0 (means.1 p), λ e. means.0 ((h x).1 e))),
      λ hours x.
          let means = meaning.from_to (mid d) (mid d + day) x in
          let same = (hours_iff mid cal d).1 hours x in
          (λ p. same.0 (means.0 p), λ e. means.1 (same.1 e)),
    ),
  )

  -- Where the midnight of an instant is the first instant of its day and the days follow one
  -- another: for a value that is a date whose day takes 24 hours, "Is Before Or Equal To" selects
  -- an instant exactly if its day is not after the day of the value, and "Is After" exactly if its
  -- day is after it and the instant is not the midnight that follows the value's day.
  pub date_query_after :
      (d : ℕ)
      → dates.date_of value ≡ some d
      → Takes24Hours mid d
      → (x : ℕ)
      → (Selects "Is Before Or Equal To" x ↔ (mid x ≤ mid d))
        × (Selects "Is After" x ↔ ((mid d < mid x) × (x ≢ mid d + day)))
  unfolding get_date_query
  date_query_after d at hours x =
      let lt = lt_tomorrow_iff mid cal x d hours in
      let le = tomorrow_le_iff mid cal x d hours in
      let until = meaning.before (mid d + day) x in
      let means = meaning.after (mid d + day) x in
      rw at (
        (λ h. lt.0 (until.0 h), λ h. until.1 (lt.1 h)),
        (
          λ h. let p = means.0 h in (le.0 (omega arith), λ e. omega arith),
          λ h. let p = le.1 h.0 in means.1 (grind (arith, h.1)),
        ),
      )
