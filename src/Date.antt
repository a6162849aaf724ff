-- ===== src/Date.antt =====
-- src/adf_util.c: the Amiga's count of days since 1 January 1978, to and from a calendar date. An
-- `int` that these functions only add to or test stands as a natural number: a day count is at least
-- 0, and `day`, `mon` are at least 1, as `localtime` gives them.
pub mod Calendar
pub mod Inverse
pub mod RoundTrip
use adflib.Prelude.{
  ℕ, zero, suc, ◌+◌, ◌-◌, ◌*◌, ◌%◌, Bool, ◌&&◌, Option, none, some, List, [], ◌∷◌, get_elem?,
  get_or, set, ltb, leb, ◌==◌, if◌then◌else◌,
}

pub record DateTime : Type 0 where
  pub year : ℕ
  pub mon : ℕ
  pub day : ℕ
  pub hour : ℕ
  pub min : ℕ
  pub sec : ℕ

pub record AmigaTime : Type 0 where
  pub day : ℕ
  pub min : ℕ
  pub ticks : ℕ

pub record YearMonthDay : Type 0 where
  pub yy : ℕ
  pub mm : ℕ
  pub dd : ℕ

unfoldable pub is_leap : ℕ → Bool
is_leap y = if y % 100 == 0 then y % 400 == 0 else y % 4 == 0

-- `jm`, the days of each month.
abbrev pub month_days : List ℕ
month_days = 31 ∷ 28 ∷ 31 ∷ 30 ∷ 31 ∷ 30 ∷ 31 ∷ 31 ∷ 30 ∷ 31 ∷ 30 ∷ 31 ∷ []

abbrev pub leap_month_days : List ℕ
leap_month_days = set month_days 1 29

unfoldable pub year_days : ℕ → ℕ
year_days y = if is_leap y then 366 else 365

-- The loop over the years, on fuel: the year that the day falls in and the days left in it.
unfoldable pub year_loop : ℕ → ℕ → ℕ → Option (ℕ × ℕ)
year_loop zero y days = none
year_loop (suc fuel) y days =
    let rest = year_loop fuel (y + 1) (days - year_days y) in
    if leb (year_days y) days then rest else some (y, days)

-- The loop over the months, on fuel; `none` is also a read past the end of `jm`.
unfoldable pub month_loop : ℕ → List ℕ → ℕ → ℕ → Option (ℕ × ℕ)
month_loop zero jm m days = none
month_loop (suc fuel) jm m days = elim (get_elem? jm (m - 1)) [
  | none ↦ none
  | some len ↦
      let rest = month_loop fuel jm (m + 1) (days - len) in
      if leb len days then rest else some (m, days)
]

unfoldable pub days2_date : ℕ → Option YearMonthDay
days2_date days = elim (year_loop (days + 1) 1978 days) [
  | none ↦ none
  | some (y, left) ↦
      elim (month_loop 12 (if is_leap y then leap_month_days else month_days) 1 left) [
        | none ↦ none
        | some (m, rest) ↦ some (record { yy = y; mm = m; dd = rest + 1 })
      ]
]

-- `while ( mon > 0 ) { day += jm[ mon - 1 ]; mon--; }`
unfoldable pub add_months : List ℕ → ℕ → ℕ → ℕ
add_months jm zero day = day
add_months jm (suc mon) day = add_months jm mon (day + get_or jm mon 0)

-- `while ( year >= 78 ) { day += ...; year--; }`
unfoldable pub add_years : ℕ → ℕ → ℕ
add_years zero day = day
add_years (suc year) day =
    if leb 78 (suc year)
    then add_years year (day + (if is_leap (suc year) then 366 else 365))
    else day

unfoldable pub time2_amiga_time : DateTime → AmigaTime
time2_amiga_time dt =
    let day0 = dt.day - 1 in
    let jm = if ltb 2 (dt.mon - 1) && is_leap dt.year then leap_month_days else month_days in
    let day1 = if ltb 1 dt.mon then add_months jm (dt.mon - 1) day0 else day0 in
    let day2 = if ltb 78 dt.year then add_years (dt.year - 1) day1 else day1 in
    record { day = day2; min = dt.hour * 60 + dt.min; ticks = dt.sec * 50 }
