-- ===== src/Date/RoundTrip.antt =====
-- `adfTime2AmigaTime` against the calendar, and with `adfDays2Date` after it. Its `year` counts from
-- 1900, as that of `localtime` does, and it tests that number for a leap year.
use adflib.Prelude.{
  ℕ, zero, suc, ◌+◌, ◌-◌, ◌≤◌, ◌<◌, ◌≡◌, ◌≢◌, ◌⊎◌, refl, arith, List, get_or, some, ap, Bool, true,
  false, Bool-cases, inl, inr, ltb, ◌==◌, ==_iff, ◌&&◌, not, ◌||◌, if◌then◌else◌,
}
use adflib.Prelude.Loops.{all_below, all_below_sound}
use adflib.Date.{
  DateTime, YearMonthDay, is_leap, year_days, days2_date, month_days, leap_month_days, add_months,
  add_years, time2_amiga_time,
}
use adflib.Date.Calendar.{months_of, days_before, years_before, day_number, IsDate}
use adflib.Date.Inverse.{days2_date-day_number}

-- The date that a `DateTime` names.
abbrev pub date_of : DateTime → YearMonthDay
date_of dt = record { yy = 1900 + dt.year; mm = dt.mon; dd = dt.day }

-- The two tests for a leap year agree from 1900 on but in 2000.
leap_table :
    all_below 300 (λ y.
      y == 100 || y == 0 || (if is_leap y then is_leap (1900 + y) else not (is_leap (1900 + y))))
    ≡ true
unfolding all_below is_leap
leap_table = refl

same_leap : (y : ℕ) → 0 < y → y < 300 → y ≢ 100 → is_leap (1900 + y) ≡ is_leap y
same_leap y p h n = ground (
  arith,
  all_below_sound 300
      (λ y.
        y == 100 || y == 0 || (if is_leap y then is_leap (1900 + y) else not (is_leap (1900 + y))))
      y leap_table h,
)

add_months_lem : (jm : List ℕ) (m day : ℕ) → add_months jm m day ≡ day + days_before jm m
unfolding add_months days_before
add_months_lem jm zero day = omega arith
add_months_lem jm (suc m) day = omega (arith, add_months_lem jm m (day + get_or jm m 0))

-- The years before `78 + k`, as the code counts them.
counted : ℕ → ℕ
counted zero = 0
counted (suc k) = counted k + year_days (78 + k)

add_years-suc :
    (y day : ℕ) → 78 ≤ suc y → add_years (suc y) day ≡ add_years y (day + year_days (suc y))
unfolding add_years year_days
add_years-suc y day h = ground arith

add_years_lem : (k day : ℕ) → add_years (77 + k) day ≡ day + counted k
add_years_lem zero day = unfold add_years counted in ground arith
add_years_lem (suc k) day =
    let e : 77 + suc k ≡ suc (77 + k) = omega arith in
    let e' : suc (77 + k) ≡ 78 + k = omega arith in
    rw
      (
        e,
        add_years-suc (77 + k) day (omega arith),
        add_years_lem k (day + year_days (suc (77 + k))),
        e',
      )
      (unfold counted in omega arith)

abbrev shift_test : ℕ → Bool
shift_test k = year_days (1978 + k) == year_days (78 + k) + (if k == 22 then 1 else 0)

shift_table : all_below 222 shift_test ≡ true
unfolding all_below year_days is_leap
shift_table = refl

year_days_shift :
    (k : ℕ) → k < 222 → year_days (1978 + k) ≡ year_days (78 + k) + (if k == 22 then 1 else 0)
year_days_shift k h = (==_iff _ _).0 (all_below_sound 222 shift_test k shift_table h)

-- The leap day of 2000 is missed in every later year.
counted_lem : (k : ℕ) → k < 223 → years_before k ≡ counted k + (if ltb 22 k then 1 else 0)
unfolding years_before counted
counted_lem zero h = refl
counted_lem (suc k) h = ground (arith, counted_lem k (omega arith), year_days_shift k (omega arith))

-- The days of months that the code counts too few in the year of `dt`: it takes a leap February
-- into account from April on only, and takes 2000 for a common year.
abbrev pub missed_in_year : DateTime → ℕ
missed_in_year dt =
    if is_leap (1900 + dt.year) && (dt.mon == 3 || (dt.year == 100 && ltb 3 dt.mon)) then 1 else 0

abbrev pub missed_before : DateTime → ℕ
missed_before dt = if ltb 100 dt.year then 1 else 0

leap_table_months :
    all_below 12 (λ m.
      (days_before leap_month_days m == days_before month_days m + (if ltb 1 m then 1 else 0)))
    ≡ true
unfolding all_below days_before
leap_table_months = refl

leap_days_before :
    (m : ℕ)
    → m < 12
    → days_before leap_month_days m ≡ days_before month_days m + (if ltb 1 m then 1 else 0)
leap_days_before m h = (==_iff _ _).0 (
    all_below_sound 12
      (λ m.
        (days_before leap_month_days m == days_before month_days m + (if ltb 1 m then 1 else 0)))
      m leap_table_months h)

leap_2000 : (is_leap 2000 ≡ true) × (is_leap 100 ≡ false)
unfolding is_leap
leap_2000 = (refl, refl)

leap_cases :
    (y : ℕ)
    → 0 < y
    → y < 300
    → ((y ≡ 100) × (is_leap (1900 + y) ≡ true) × (is_leap y ≡ false))
      ⊎ ((y ≢ 100) × (is_leap (1900 + y) ≡ is_leap y))
leap_cases y p h = elim (Bool-cases (y == 100)) [
  | inl e ↦
      let at : y ≡ 100 = (==_iff y 100).0 e in inl (at, rw at (leap_2000.0), rw at (leap_2000.1))
  | inr e ↦ let ne : y ≢ 100 = ground arith in inr (ne, same_leap y p h ne)
]

months_lem :
    (dt : DateTime)
    → 0 < dt.year
    → dt.year < 300
    → 1 ≤ dt.mon
    → dt.mon ≤ 12
    → let jm = if ltb 2 (dt.mon - 1) && is_leap dt.year then leap_month_days else month_days in
      days_before (months_of (1900 + dt.year)) (dt.mon - 1)
      ≡ days_before jm (dt.mon - 1) + missed_in_year dt
months_lem dt p h a b =
    ground (arith, leap_cases dt.year p h, leap_days_before (dt.mon - 1) (omega arith))

with_months :
    (jm : List ℕ) (mon day : ℕ)
    → (if ltb 1 mon then add_months jm (mon - 1) day else day) ≡ day + days_before jm (mon - 1)
with_months jm mon day = elim (Bool-cases (ltb 1 mon)) [
  | inl e ↦ rw e (add_months_lem jm (mon - 1) day)
  | inr e ↦
      let none_before : mon - 1 ≡ 0 = ground arith in
      rw (e, none_before) (unfold days_before in omega arith)
]

with_years :
    (year day : ℕ)
    → 78 ≤ year
    → (if ltb 78 year then add_years (year - 1) day else day) ≡ day + counted (year - 78)
with_years year day h = elim (Bool-cases (ltb 78 year)) [
  | inl e ↦
      let before : year - 1 ≡ 77 + (year - 78) = ground arith in
      rw (e, before) (add_years_lem (year - 78) day)
  | inr e ↦
      let first : year - 78 ≡ 0 = ground arith in rw (e, first) (unfold counted in omega arith)
]

-- The `jm` of the code.
abbrev counted_months : DateTime → List ℕ
counted_months dt = if ltb 2 (dt.mon - 1) && is_leap dt.year then leap_month_days else month_days

time2_amiga_time-day :
    (dt : DateTime)
    → 78 ≤ dt.year
    → (time2_amiga_time dt).day
      ≡ (dt.day - 1) + days_before (counted_months dt) (dt.mon - 1) + counted (dt.year - 78)
unfolding time2_amiga_time
time2_amiga_time-day dt h =
    rw (with_months (counted_months dt) dt.mon (dt.day - 1)) (with_years dt.year _ h)

-- For a month and day of the years 1978 to 2199, the day that `adfTime2AmigaTime` counts, together
-- with the leap days that it misses, is the number of the date.
pub time2_amiga_time_lem :
    (dt : DateTime)
    → 78 ≤ dt.year
    → dt.year < 300
    → 1 ≤ dt.mon
    → dt.mon ≤ 12
    → 1 ≤ dt.day
    → (time2_amiga_time dt).day + missed_in_year dt + missed_before dt ≡ day_number (date_of dt)
unfolding day_number
time2_amiga_time_lem dt p h a b c =
    let k : 1900 + dt.year - 1978 ≡ dt.year - 78 = omega arith in
    ground (
      arith,
      time2_amiga_time-day dt p,
      months_lem dt (omega arith) h a b,
      ap years_before k,
      counted_lem (dt.year - 78) (omega arith),
    )

-- For a date from 1978 to 1999 that is not in a March of a leap year, the way to the Amiga's count of
-- days by `adfTime2AmigaTime` and back by `adfDays2Date` gives the same date.
pub days2_date-time2_amiga_time :
    (dt : DateTime)
    → IsDate (date_of dt)
    → dt.year < 100
    → (is_leap (1900 + dt.year) ≡ false) ⊎ (dt.mon ≢ 3)
    → days2_date (time2_amiga_time dt).day ≡ some (date_of dt)
days2_date-time2_amiga_time dt v h other =
    let all =
      time2_amiga_time_lem dt (omega (arith, v.year_from)) (omega arith) v.month_from v.month_to
        v.day_from in
    let e : (time2_amiga_time dt).day ≡ day_number (date_of dt) = ground (arith, all) in
    rw e (days2_date-day_number (date_of dt) v)

-- From 2001 to 2199 the count of `adfTime2AmigaTime` is too small by one, and in a March of a leap
-- year by two.
pub time2_amiga_time_late :
    (dt : DateTime)
    → 100 < dt.year
    → dt.year < 300
    → 1 ≤ dt.mon
    → dt.mon ≤ 12
    → 1 ≤ dt.day
    → (time2_amiga_time dt).day + (if is_leap (1900 + dt.year) && dt.mon == 3 then 2 else 1)
      ≡ day_number (date_of dt)
time2_amiga_time_late dt p h a b c = ground (arith, time2_amiga_time_lem dt (omega arith) h a b c)
