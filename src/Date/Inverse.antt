-- ===== src/Date/Inverse.antt =====
-- `adfDays2Date` inverts the numbering of the calendar: no two dates have one number.
use adflib.Prelude.{
  ℕ, zero, suc, ◌+◌, ◌-◌, ◌≤◌, ◌<◌, ◌≡◌, refl, sym, ◌∙◌, arith, List, get_or, some, ap,
}
use adflib.Date.{YearMonthDay, year_days, days2_date}
use adflib.Date.Calendar.{
  months_of, days_before, years_before, day_number, IsDate, days2_date_lem, year_total,
  length-months_of,
}

-- A partial sum `f` with steps `len` splits a number in one way only.
module _ (f len : ℕ → ℕ) (grows : (m : ℕ) → f (suc m) ≡ f m + len m) where
  sum_mono : (d m : ℕ) → f m ≤ f (m + d)
  sum_mono zero m = let e : m + 0 ≡ m = omega arith in rw e (omega arith)
  sum_mono (suc d) m =
      let e : m + suc d ≡ suc (m + d) = omega arith in
      rw e (omega (arith, grows (m + d), sum_mono d m))

  not_below : (m m' r r' : ℕ) → r < len m → f m + r ≡ f m' + r' → ¬ (m < m')
  not_below m m' r r' small same below =
      let e : suc m + (m' - suc m) ≡ m' = omega arith in
      let up : f (suc m) ≤ f m' = rw e at (sum_mono (m' - suc m) (suc m)) in
      absurd (omega (arith, grows m))

  pub split_unique :
      (m m' r r' : ℕ) → r < len m → r' < len m' → f m + r ≡ f m' + r' → (m ≡ m') × (r ≡ r')
  split_unique m m' r r' small small' same =
      let a : ¬ (m < m') = not_below m m' r r' small same in
      let b : ¬ (m' < m) = not_below m' m r' r small' (sym same) in
      let e : m ≡ m' = omega arith in (e, omega (arith, ap f e))

years_grow : (n : ℕ) → years_before (suc n) ≡ years_before n + year_days (1978 + n)
unfolding years_before
years_grow n = refl

months_grow : (jm : List ℕ) (m : ℕ) → days_before jm (suc m) ≡ days_before jm m + get_or jm m 0
unfolding days_before
months_grow jm m = refl

-- The day of the year, from 0.
abbrev day_of_year : YearMonthDay → ℕ
day_of_year d = days_before (months_of d.yy) (d.mm - 1) + (d.dd - 1)

day_of_year-lt : (d : YearMonthDay) → IsDate d → day_of_year d < year_days d.yy
day_of_year-lt d v =
    let jm = months_of d.yy in
    let e : suc (d.mm - 1) + (12 - d.mm) ≡ 12 = omega arith in
    let up : days_before jm (suc (d.mm - 1)) ≤ days_before jm 12 = rw e at (
      sum_mono (days_before jm) (λ m. get_or jm m 0) (months_grow jm) (12 - d.mm)
        (suc (d.mm - 1))) in
    omega (
      arith,
      year_total d.yy,
      months_grow jm (d.mm - 1),
      ap (days_before jm) (length-months_of d.yy),
      v.day_from,
      v.day_to,
    )

day_number-eq-sum : (d : YearMonthDay) → day_number d ≡ years_before (d.yy - 1978) + day_of_year d
unfolding day_number
day_number-eq-sum d = omega arith

-- Two dates of one number are one date.
pub day_number-injective :
    (d d' : YearMonthDay) → IsDate d → IsDate d' → day_number d ≡ day_number d' → d ≡ d'
day_number-injective d d' v v' e =
    let y : 1978 + (d.yy - 1978) ≡ d.yy = omega arith in
    let y' : 1978 + (d'.yy - 1978) ≡ d'.yy = omega arith in
    let years =
      split_unique years_before (λ n. year_days (1978 + n)) years_grow (d.yy - 1978) (d'.yy - 1978)
        (day_of_year d) (day_of_year d') (rw y (day_of_year-lt d v)) (rw y' (day_of_year-lt d' v'))
        (omega (arith, day_number-eq-sum d, day_number-eq-sum d')) in
    let same_year : d.yy ≡ d'.yy = omega (arith, years) in
    let jm = months_of d'.yy in
    let move : day_of_year d ≡ days_before jm (d.mm - 1) + (d.dd - 1) =
      ap (λ (y : ℕ). days_before (months_of y) (d.mm - 1) + (d.dd - 1)) same_year in
    let within : d.dd ≤ get_or jm (d.mm - 1) 0 =
      rw (ap (λ (y : ℕ). get_or (months_of y) (d.mm - 1) 0) same_year) at v.day_to in
    let months =
      split_unique (days_before jm) (λ m. get_or jm m 0) (months_grow jm) (d.mm - 1) (d'.mm - 1)
        (d.dd - 1) (d'.dd - 1) (omega (arith, v.day_from)) (omega (arith, v'.day_from, v'.day_to))
        (sym move ∙ years.1) in
    let same_month : d.mm ≡ d'.mm = omega (arith, months, v.month_from, v'.month_from) in
    let same_day : d.dd ≡ d'.dd = omega (arith, months, v.day_from, v'.day_from) in
    λ i. record { yy = same_year i; mm = same_month i; dd = same_day i }

-- Of the number of a date of the calendar from 1978 on `adfDays2Date` gives back the date.
pub days2_date-day_number : (d : YearMonthDay) → IsDate d → days2_date (day_number d) ≡ some d
days2_date-day_number d v =
    let (d', e, v', n) = days2_date_lem (day_number d) in
    e ∙ ap some (day_number-injective d' d v' v n)
