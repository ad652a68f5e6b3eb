-- ===== src/Tests/Filters.antt =====
-- The theorems on filters at concrete values: days of 24 hours, counted from the first instant.
use social_listening_backend.Base.{
  ℕ, ◌≡◌, ◌≢◌, ◌+◌, ◌*◌, ◌/◌, ◌≤◌, ◌<◌, ◌↔◌, Bool, true, String, refl, some, [], ◌∷◌, arith, leb,
  ltb, ◌&&◌,
}
use social_listening_backend.Text.{Text, split, join}
use social_listening_backend.Filtering.{
  Condition, not_null, date_from_to, date_before, date_after, single, null, Dates, day, leaf,
  build_query, get_date_query,
}
use social_listening_backend.Filtering.Calendar.{
  DateMeaning, IsCalendar, Takes24Hours, date_query_days, date_query_after,
}
use social_listening_backend.Filtering.Columns.{at_path, build_query-at_path}

-- `a.bc`
abbrev path : Text
path = b'a' ∷ b'.' ∷ b'b' ∷ b'c' ∷ []

build_query-at_path_example :
    (at_path (split b'.' path) (build_query path (leaf not_null true)) ≡ some (leaf not_null true))
    × (join b'.' (split b'.' path) ≡ path)
build_query-at_path_example = build_query-at_path path (leaf not_null true)

path-split : split b'.' path ≡ (b'a' ∷ []) ∷ (b'b' ∷ b'c' ∷ []) ∷ []
unfolding split
path-split = refl

abbrev pub dates : Dates
dates = record {
  date_of = λ v. some (3 * day + 5);
  first_date = λ v. some day;
  second_date = λ v. some (2 * day + 7);
  midnight = λ t. t / day * day;
}

pub dates-IsCalendar : IsCalendar dates.midnight
dates-IsCalendar = record {
  starts = λ x. omega arith;
  same = λ x. omega arith;
  order = λ x y h. omega arith;
}

pub dates-Takes24Hours : (d : ℕ) → Takes24Hours dates.midnight d
dates-Takes24Hours d = (omega arith, omega arith)

abbrev holds : Condition → ℕ → Bool
holds (date_from_to (some a) (some b)) x = leb a x && ltb x b
holds (date_before (some a)) x = ltb x a
holds (date_after (some a)) x = ltb a x
holds _ x = true

meaning : DateMeaning
meaning = record {
  holds = holds;
  from_to = λ a b x. ground arith;
  before = λ a x. ground arith;
  after = λ a x. ground arith;
}

abbrev midnight : ℕ → ℕ
midnight t = t / day * day

abbrev Selects : String → ℕ → Type 0
Selects op x = meaning.holds (get_date_query dates op (single null)) x ≡ true

date_query_days_example :
    ((x : ℕ) → Selects "Is Before" x ↔ (midnight x < midnight (3 * day + 5)))
    × ((x : ℕ)
        → Selects "Is After Or Equal To" x
          ↔ ((midnight (3 * day + 5) ≤ midnight x) × (x ≢ midnight (3 * day + 5))))
    × (((x : ℕ) → Selects "Is Equal To" x ↔ (midnight x ≡ midnight (3 * day + 5)))
        ↔ Takes24Hours midnight (3 * day + 5))
date_query_days_example =
    date_query_days dates dates-IsCalendar meaning (single null) (3 * day + 5) refl

date_query_after_example :
    (Selects "Is Before Or Equal To" 300000000 ↔ (midnight 300000000 ≤ midnight (3 * day + 5)))
    × (Selects "Is After" 300000000 ↔ (
        (midnight (3 * day + 5) < midnight 300000000) × (300000000 ≢ midnight (3 * day + 5) + day)))
date_query_after_example =
    date_query_after dates dates-IsCalendar meaning (single null) (3 * day + 5) refl
      (dates-Takes24Hours (3 * day + 5)) 300000000
