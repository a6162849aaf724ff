-- ===== src/Date/Calendar.antt =====
-- The calendar that the conversions are held to: the number of a day, counted from 1 January 1978.
use adflib.Prelude.{
  ℕ, zero, suc, ◌+◌, ◌-◌, ◌≤◌, ◌<◌, ◌≡◌, refl, arith, List, get_or, some, if◌then◌else◌, leb,
  length, Bool-cases, inl, inr, ap, ◌==◌, ==_iff, get_elem?-eq-get_or,
}
use adflib.Date.{
  is_leap, year_days, month_days, leap_month_days, year_loop, month_loop, days2_date, YearMonthDay,
}

abbrev pub months_of : ℕ → List ℕ
months_of y = if is_leap y then leap_month_days else month_days

-- Days before month `m + 1` of a year with these months.
unfoldable pub days_before : List ℕ → ℕ → ℕ
days_before jm zero = 0
days_before jm (suc m) = days_before jm m + get_or jm m 0

-- Days of the `n` years from 1978 on.
unfoldable pub years_before : ℕ → ℕ
years_before zero = 0
years_before (suc n) = years_before n + year_days (1978 + n)

unfoldable pub day_number : YearMonthDay → ℕ
day_number d = years_before (d.yy - 1978) + days_before (months_of d.yy) (d.mm - 1) + (d.dd - 1)

-- A date that the calendar has, from 1978 on.
pub record IsDate (d : YearMonthDay) : Type 0 where
  pub year_from : 1978 ≤ d.yy
  pub month_from : 1 ≤ d.mm
  pub month_to : d.mm ≤ 12
  pub day_from : 1 ≤ d.dd
  pub day_to : d.dd ≤ get_or (months_of d.yy) (d.mm - 1) 0

pub year_days_bounds : (y : ℕ) → (365 ≤ year_days y) × (year_days y ≤ 366)
unfolding year_days
year_days_bounds y = ground arith

suc_year : (n : ℕ) → 1978 + n + 1 ≡ 1978 + suc n
suc_year n = omega arith

-- The year loop ends, in a year that holds the days left.
year_loop_lem :
    (fuel n days : ℕ)
    → days < fuel
    → (k : ℕ) × (left : ℕ) × (year_loop fuel (1978 + n) days ≡ some (1978 + k, left))
      × (left < year_days (1978 + k))
      × (years_before n + days ≡ years_before k + left)
unfolding year_loop years_before
year_loop_lem zero n days h = absurd (omega arith)
year_loop_lem (suc fuel) n days h = elim (Bool-cases (leb (year_days (1978 + n)) days)) [
  | inl more ↦
      let (k, left, e, small, same) =
        year_loop_lem fuel (suc n) (days - year_days (1978 + n))
          (ground (arith, year_days_bounds (1978 + n))) in
      (k, left, rw more (rw suc_year e), small, ground arith)
  | inr last ↦ (n, days, rw last, ground arith, refl)
]

still_below : (f : ℕ → ℕ) (m n days : ℕ) → m ≤ n → f m + days < f n → m < n
still_below f m n days h l = elim (Bool-cases (m == n)) [
  | inl e ↦ absurd (omega (arith, ap f ((==_iff m n).0 e)))
  | inr e ↦ ground arith
]

month_loop-suc :
    (fuel : ℕ) (jm : List ℕ) (m days : ℕ)
    → m < length jm
    → month_loop (suc fuel) jm (suc m) days ≡ (
        if leb (get_or jm m 0) days
        then month_loop fuel jm (suc (suc m)) (days - get_or jm m 0)
        else some (suc m, days))
unfolding month_loop
month_loop-suc fuel jm m days h =
    let here : suc m - 1 ≡ m = omega arith in
    let next : suc m + 1 ≡ suc (suc m) = omega arith in
    ground (arith, get_elem?-eq-get_or jm m 0 h, here, next)

-- So does the month loop, if the days are fewer than those of the months from `m` on.
month_loop_lem :
    (fuel : ℕ) (jm : List ℕ) (m days : ℕ)
    → m ≤ length jm
    → length jm < fuel + m + 1
    → days_before jm m + days < days_before jm (length jm)
    → (k : ℕ) × (left : ℕ) × (month_loop fuel jm (suc m) days ≡ some (suc k, left))
      × (k < length jm)
      × (left < get_or jm k 0)
      × (days_before jm m + days ≡ days_before jm k + left)
unfolding days_before
month_loop_lem zero jm m days i f h =
    absurd (omega (arith, still_below (days_before jm) m (length jm) days i h))
month_loop_lem (suc fuel) jm m days i f h =
    let inside = still_below (days_before jm) m (length jm) days i h in
    let len = get_or jm m 0 in
    rw (month_loop-suc fuel jm m days inside) (elim (Bool-cases (leb len days)) [
      | inl more ↦
          let (k, left, e, below, small, same) =
            month_loop_lem fuel jm (suc m) (days - len) inside (omega arith) (ground arith) in
          (k, left, rw more e, below, small, ground arith)
      | inr last ↦ (m, days, rw last, inside, ground arith, refl)
    ])

pub year_total : (y : ℕ) → days_before (months_of y) (length (months_of y)) ≡ year_days y
unfolding days_before year_days
year_total y = elim (Bool-cases (is_leap y)) [ inl e ↦ rw e | inr e ↦ rw e ]

pub length-months_of : (y : ℕ) → length (months_of y) ≡ 12
length-months_of y = elim (Bool-cases (is_leap y)) [ inl e ↦ rw e | inr e ↦ rw e ]

suc_pred : (m : ℕ) → suc m - 1 ≡ m
suc_pred m = omega arith

days_before-start : (jm : List ℕ) → days_before jm 0 ≡ 0
unfolding days_before
days_before-start jm = refl

years_before-start : years_before 0 ≡ 0
unfolding years_before
years_before-start = refl

days2_date-eq :
    (n k left m rest : ℕ)
    → year_loop (n + 1) 1978 n ≡ some (1978 + k, left)
    → month_loop 12 (months_of (1978 + k)) 1 left ≡ some (suc m, rest)
    → days2_date n ≡ some (record { yy = 1978 + k; mm = suc m; dd = rest + 1 })
unfolding days2_date
days2_date-eq n k left m rest e e' = ground arith

day_number-eq :
    (k m rest : ℕ)
    → day_number (record { yy = 1978 + k; mm = suc m; dd = rest + 1 })
      ≡ years_before k + days_before (months_of (1978 + k)) m + rest
unfolding day_number
day_number-eq k m rest =
    let a : 1978 + k - 1978 ≡ k = omega arith in
    let b = suc_pred m in let c : rest + 1 - 1 ≡ rest = omega arith in rw (a, b, c)

-- `adfDays2Date` ends at every day count, in the date of the calendar that has that number.
pub days2_date_lem :
    (n : ℕ) → (d : YearMonthDay) × (days2_date n ≡ some d) × IsDate d × (day_number d ≡ n)
days2_date_lem n = months (year_loop_lem (n + 1) 0 n (omega arith))
  where
    Found : ℕ → ℕ → ℕ → ℕ → Type 0
    Found k left m rest =
        (month_loop 12 (months_of (1978 + k)) 1 left ≡ some (suc m, rest))
        × (m < length (months_of (1978 + k)))
        × (rest < get_or (months_of (1978 + k)) m 0)
        × (days_before (months_of (1978 + k)) 0 + left
            ≡ days_before (months_of (1978 + k)) m + rest)

    Goal : Type 0
    Goal = (d : YearMonthDay) × (days2_date n ≡ some d) × IsDate d × (day_number d ≡ n)

    finish :
        (k left m rest : ℕ)
        → year_loop (n + 1) 1978 n ≡ some (1978 + k, left)
        → years_before 0 + n ≡ years_before k + left
        → Found k left m rest
        → Goal
    finish k left m rest e same (e', below, within, same') = (
      record { yy = 1978 + k; mm = suc m; dd = rest + 1 },
      days2_date-eq n k left m rest e e',
      record {
        year_from = omega arith;
        month_from = omega arith;
        month_to = omega (arith, length-months_of (1978 + k));
        day_from = omega arith;
        day_to = rw (suc_pred m) (omega arith);
      },
      omega (
        arith,
        day_number-eq k m rest,
        days_before-start (months_of (1978 + k)),
        years_before-start,
      ),
    )

    months :
        (k : ℕ) × (left : ℕ) × (year_loop (n + 1) (1978 + 0) n ≡ some (1978 + k, left))
          × (left < year_days (1978 + k))
          × (years_before 0 + n ≡ years_before k + left)
        → Goal
    months (k, left, e, small, same) =
        let (m, rest, e', below, within, same') =
          month_loop_lem 12 (months_of (1978 + k)) 0 left (omega arith)
            (omega (arith, length-months_of (1978 + k)))
            (omega (arith, year_total (1978 + k), days_before-start (months_of (1978 + k)))) in
        finish k left m rest e same (e', below, within, same')
