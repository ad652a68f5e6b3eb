-- ===== src/Filtering.antt =====
-- src/config/database/advancedFiltering.service.ts: the filter and the order of a page, as the
-- client sends them, become a query of the database client.
pub mod Calendar
pub mod Columns
use social_listening_backend.Lists.{keep}
use mathlib.Core.List.{reverse}
use social_listening_backend.Int.{ℤ}
use social_listening_backend.Text.{split, Text}
use social_listening_backend.Base.{
  ◌&&◌, [], false, true, ◌∷◌, str_eq, ◌+◌, map, Option, none, some, if◌then◌else◌, Bool, ℕ, List,
  String,
}

-- A value in a filter; only these cases are told apart.
pub data Value : Type 0 where
  text : String → Value
  number : ℤ → Value
  null undefined : Value

-- `filter.value`, which may be an array.
pub data FilterValue : Type 0 where
  single : Value → FilterValue
  array : List Value → FilterValue

-- FilterMapping
pub record FilterMapping : Type 0 where
  pub value : FilterValue
  pub props : Text
  pub filter_type : String
  pub filter_operator : String

-- OrderMapping
pub record OrderMapping : Type 0 where
  pub props : Text
  pub sort_dir : String

-- Page
pub record Page : Type 0 where
  pub size : ℕ
  pub page_number : ℕ
  pub total_element : ℕ
  pub orders : List OrderMapping
  pub filter : List FilterMapping

-- The object that `getQuery` returns; `nothing` is `{}`, to which null and undefined spread. A bound
-- that is none is the Invalid Date.
pub data Condition : Type 0 where
  nothing not_null : Condition
  contains not_contains start_with end_with gte gt lte lt equals not_equals : Value → Condition
  date_from_to : Option ℕ → Option ℕ → Condition
  date_before date_after : Option ℕ → Condition

-- The condition, with `mode: 'insensitive'` or not, under the properties of a path.
pub data Query : Type 0 where
  leaf : Condition → Bool → Query
  nest : Text → Query → Query

-- An entry of `where.AND`: `{}`, a query, or `{ OR: … }`.
pub data Clause : Type 0 where
  empty : Clause
  one : Query → Clause
  any_of : List Query → Clause

-- The dates of the standard library, in milliseconds from the earliest instant that it has: the date
-- that a value reads as, the date that the first and the second item of a value read as, where none
-- is the Invalid Date, and the date of year, month and day of an instant, its midnight.
pub record Dates : Type 0 where
  pub date_of : FilterValue → Option ℕ
  pub first_date : FilterValue → Option ℕ
  pub second_date : FilterValue → Option ℕ
  pub midnight : ℕ → ℕ

-- 24 * 60 * 60 * 1000
abbrev pub day : ℕ
day = 86400000

-- `new Date(now.getFullYear(), now.getMonth(), now.getDate())`
abbrev pub start_of : Dates → Option ℕ → Option ℕ
start_of dates none = none
start_of dates (some d) = some (dates.midnight d)

-- `new Date(today.getTime() + 24 * 60 * 60 * 1000)`
abbrev pub next_day : Option ℕ → Option ℕ
next_day none = none
next_day (some d) = some (d + day)

-- The operators for `DateTime`.
unfoldable pub get_date_query : Dates → String → FilterValue → Condition
get_date_query dates op value =
    let today = start_of dates (dates.date_of value) in
    let tomorrow = next_day today in
    if str_eq op "Is Equal To"
    then date_from_to today tomorrow
    else if str_eq op "Is Before Or Equal To"
    then date_before tomorrow
    else if str_eq op "Is Before"
    then date_before today
    else if str_eq op "Is After Or Equal To"
    then date_after today
    else if str_eq op "Is After"
    then date_after tomorrow
    else if str_eq op "Between"
    then date_from_to (start_of dates (dates.first_date value))
        (next_day (start_of dates (dates.second_date value)))
    else nothing

-- The operators for the other types.
unfoldable pub get_value_query : String → Value → Condition
get_value_query op value =
    if str_eq op "Contains"
    then contains value
    else if str_eq op "Does Not Contains"
    then not_contains value
    else if str_eq op "Is Empty"
    then nothing
    else if str_eq op "Is Not Empty"
    then not_null
    else if str_eq op "Start With"
    then start_with value
    else if str_eq op "End With"
    then end_with value
    else if str_eq op "Is Greater Than Or Equal To"
    then gte value
    else if str_eq op "Is Greater Than"
    then gt value
    else if str_eq op "Is Less Than Or Equal To"
    then lte value
    else if str_eq op "Is Less Than"
    then lt value
    else if str_eq op "Is Equal To"
    then equals value
    else if str_eq op "Is Not Equal To"
    then not_equals value
    else nothing

-- The loop of `buildQuery` over the reversed path.
unfoldable pub nest_all : Query → List Text → Query
nest_all q [] = q
nest_all q (prop ∷ rest) = nest_all (nest prop q) rest

unfoldable pub build_query : Text → Query → Query
build_query props q = nest_all q (reverse (split b'.' props))

abbrev pub is_text : Value → Bool
is_text (text s) = true
is_text _ = false

-- `x !== undefined && x !== null`
abbrev pub is_given : Value → Bool
is_given null = false
is_given undefined = false
is_given _ = true

abbrev pub value_query : FilterMapping → Value → Query
value_query f v = build_query f.props (leaf (get_value_query f.filter_operator v) (is_text v))

unfoldable pub any_query : FilterMapping → List Value → Clause
any_query f [] = empty
any_query f (v ∷ vs) = any_of (map (value_query f) (v ∷ vs))

unfoldable pub build_column_filter : Dates → FilterMapping → Clause
build_column_filter dates f = elim f.value [
  | single v ↦
      if str_eq f.filter_type "DateTime"
      then one
          (build_query f.props (leaf (get_date_query dates f.filter_operator (single v)) false))
      else one (
          build_query f.props (
            leaf (get_value_query f.filter_operator v)
              (is_text v && str_eq f.filter_type "Default")))
  | array vs ↦
      if str_eq f.filter_type "DateTime"
      then one
          (build_query f.props (leaf (get_date_query dates f.filter_operator (array vs)) false))
      else any_query f (keep is_given vs)
]

-- `{ ...page, filter: where, orders: orderBy }`
pub record PageQuery : Type 0 where
  pub size : ℕ
  pub page_number : ℕ
  pub total_element : ℕ
  pub orders : List (Text × String)
  pub where_all : List Clause

unfoldable pub create_filter : Dates → Page → PageQuery
create_filter dates page = record {
  size = page.size;
  page_number = page.page_number;
  total_element = page.total_element;
  orders = map (λ (o : OrderMapping). (o.props, o.sort_dir)) page.orders;
  where_all = map (build_column_filter dates) page.filter;
}
