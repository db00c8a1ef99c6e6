-- ===== src/Timer/Calendar.antt =====
-- The loops of init_wall_clock against closed formulas of the Gregorian calendar.
use native.Mathlib.Nat.{add-zero}
use simplix.Base.{
  ap, ℕ, zero, suc, ◌+◌, ◌-◌, ◌*◌, ◌/◌, ◌%◌, ◌^◌, ◌≤◌, ◌<◌, ◌≡◌, refl, Bool, true, false, not, ◌&&◌,
  ◌||◌, arith, leb, ltb, ◌==◌, if◌then◌else◌,
}
use simplix.Timer.{
  is_leap, nr_days_per_year, nr_days_per_month, bcd_to_dec, add_years, add_months, unix_time,
  seconds_per_day,
}

-- A byte with two decimal digits is decoded to their value.
pub bcd_to_dec_digits :
    (tens units : ℕ) → tens < 10 → units < 10 → bcd_to_dec (tens * 16 + units) ≡ tens * 10 + units
unfolding bcd_to_dec
bcd_to_dec_digits tens units h k = ground arith

-- The days before year `y` of the Gregorian calendar, counted from year 0.
unfoldable pub days_to_year : ℕ → ℕ
days_to_year y = 365 * y + (y - 1) / 4 + (y - 1) / 400 - (y - 1) / 100

-- The days of a year before the month that is counted from 0.
unfoldable pub days_to_month : ℕ → Bool → ℕ
days_to_month m leap =
    if ltb m 2 then 31 * m else 59 + (153 * (m - 2) + 2) / 5 + (if leap then 1 else 0)

abbrev one_if : Bool → ℕ
one_if b = if b then 1 else 0

div_step_4 : (y : ℕ) → 0 < y → y / 4 ≡ (y - 1) / 4 + one_if (y % 4 == 0)
div_step_4 y h = ground arith

div_step_100 : (y : ℕ) → 0 < y → y / 100 ≡ (y - 1) / 100 + one_if (y % 100 == 0)
div_step_100 y h = ground arith

div_step_400 : (y : ℕ) → 0 < y → y / 400 ≡ (y - 1) / 400 + one_if (y % 400 == 0)
div_step_400 y h = ground arith

multiple_400 : (y : ℕ) → (y % 400 == 0) ≡ true → (y % 100 == 0) ≡ true
multiple_400 y h = let e : y % 400 ≡ 0 = ground arith in ground (arith, mod_400 y e)
  where
    mod_400 : (y : ℕ) → y % 400 ≡ 0 → y % 100 ≡ 0
    mod_400 y e = omega arith

multiple_100 : (y : ℕ) → (y % 100 == 0) ≡ true → (y % 4 == 0) ≡ true
multiple_100 y h = let e : y % 100 ≡ 0 = ground arith in ground (arith, mod_100 y e)
  where
    mod_100 : (y : ℕ) → y % 100 ≡ 0 → y % 4 ≡ 0
    mod_100 y e = omega arith

-- The leap rule counts the multiples of 4 and 400 and discounts those of 100.
leap_rule :
    (a b c : Bool) (y p q r : ℕ)
    → (b ≡ true → a ≡ true)
    → (c ≡ true → b ≡ true)
    → r ≤ y
    → (if a && (not b || c) then 366 else 365) + (365 * y + p + q - r)
      ≡ 365 * (y + 1) + (p + one_if a) + (q + one_if c) - (r + one_if b)
leap_rule true true true y p q r f g h = omega arith
leap_rule true true false y p q r f g h = omega arith
leap_rule true false true y p q r f g h = cc (g refl)
leap_rule true false false y p q r f g h = omega arith
leap_rule false true c y p q r f g h = cc (f refl)
leap_rule false false true y p q r f g h = cc (g refl)
leap_rule false false false y p q r f g h = omega arith

year_step : (y : ℕ) → 1582 ≤ y → nr_days_per_year y + days_to_year y ≡ days_to_year (y + 1)
unfolding nr_days_per_year is_leap days_to_year
year_step y h =
    let modern : leb 1582 y ≡ true = ground arith in
    let same : y + 1 - 1 ≡ y = omega arith in
    rw
      (
        modern,
        same,
        div_step_4 y (omega arith),
        div_step_100 y (omega arith),
        div_step_400 y (omega arith),
      )
      (leap_rule (y % 4 == 0) (y % 100 == 0) (y % 400 == 0) y ((y - 1) / 4) ((y - 1) / 400)
        ((y - 1) / 100) (multiple_100 y) (multiple_400 y) (omega arith))

nr_days_per_year_ge : (y : ℕ) → 365 ≤ nr_days_per_year y
unfolding nr_days_per_year
nr_days_per_year_ge y = ground arith

add_regroup : (y n : ℕ) → y + suc n ≡ y + n + 1
add_regroup y n = omega arith

days_to_year_mono : (n y : ℕ) → 1582 ≤ y → days_to_year y + 365 * n ≤ days_to_year (y + n)
days_to_year_mono zero y h = omega (arith, ap days_to_year (add-zero y))
days_to_year_mono (suc n) y h = omega (
  arith,
  days_to_year_mono n y h,
  year_step (y + n) (omega arith),
  nr_days_per_year_ge (y + n),
  ap days_to_year (add_regroup y n),
)

add_years_lem :
    (n y acc : ℕ)
    → 1582 ≤ y
    → acc + days_to_year (y + n) * seconds_per_day < 2 ^ 32 + days_to_year y * seconds_per_day
    → add_years n y acc + days_to_year y * seconds_per_day
      ≡ acc + days_to_year (y + n) * seconds_per_day
unfolding add_years
add_years_lem zero y acc h b = omega (arith, ap days_to_year (add-zero y))
add_years_lem (suc n) y acc h b =
    let next = year_step y h in
    let far = days_to_year_mono n (y + 1) (omega arith) in
    let there : days_to_year (y + suc n) ≡ days_to_year (y + 1 + n) =
      ap days_to_year (omega arith) in
    let fits : (acc + nr_days_per_year y * seconds_per_day) % 2 ^ 32
        ≡ acc + nr_days_per_year y * seconds_per_day =
      omega arith in
    rw fits (
      omega (
        arith,
        add_years_lem n (y + 1) (acc + nr_days_per_year y * seconds_per_day) (omega arith)
            (omega arith),
      ))

month_step :
    (m year : ℕ)
    → m < 12
    → nr_days_per_month m year + days_to_month m (is_leap year)
      ≡ days_to_month (m + 1) (is_leap year)
unfolding nr_days_per_month days_to_month
month_step zero year h = ground arith
month_step (suc zero) year h = ground arith
month_step (suc (suc zero)) year h = ground arith
month_step (suc (suc (suc zero))) year h = ground arith
month_step (suc (suc (suc (suc zero)))) year h = ground arith
month_step (suc (suc (suc (suc (suc zero))))) year h = ground arith
month_step (suc (suc (suc (suc (suc (suc zero)))))) year h = ground arith
month_step (suc (suc (suc (suc (suc (suc (suc zero))))))) year h = ground arith
month_step (suc (suc (suc (suc (suc (suc (suc (suc zero)))))))) year h = ground arith
month_step (suc (suc (suc (suc (suc (suc (suc (suc (suc zero))))))))) year h = ground arith
month_step (suc (suc (suc (suc (suc (suc (suc (suc (suc (suc zero)))))))))) year h = ground arith
month_step (suc (suc (suc (suc (suc (suc (suc (suc (suc (suc (suc zero))))))))))) year h =
    ground arith
month_step (suc (suc (suc (suc (suc (suc (suc (suc (suc (suc (suc (suc m)))))))))))) year h =
    absurd (omega arith)

days_to_month-le : (m : ℕ) (leap : Bool) → m < 13 → days_to_month m leap ≤ 400
unfolding days_to_month
days_to_month-le m leap h = ground arith

-- Without a wrap-around the loop over the months adds the days before the month.
add_months_lem :
    (n m year acc : ℕ)
    → m + n ≤ 12
    → acc + 400 * seconds_per_day < 2 ^ 32 + days_to_month m (is_leap year) * seconds_per_day
    → add_months n m year acc + days_to_month m (is_leap year) * seconds_per_day
      ≡ acc + days_to_month (m + n) (is_leap year) * seconds_per_day
unfolding add_months
add_months_lem zero m year acc h b =
    omega (arith, ap (λ (k : ℕ). days_to_month k (is_leap year)) (add-zero m))
add_months_lem (suc n) m year acc h b =
    let next = month_step m year (omega arith) in
    let bound = days_to_month-le (m + 1) (is_leap year) (omega arith) in
    let there : days_to_month (m + suc n) (is_leap year)
        ≡ days_to_month (m + 1 + n) (is_leap year) =
      ap (λ (k : ℕ). days_to_month k (is_leap year)) (omega arith) in
    let fits : (acc + nr_days_per_month m year * seconds_per_day) % 2 ^ 32
        ≡ acc + nr_days_per_month m year * seconds_per_day =
      omega arith in
    rw fits (
      omega (
        arith,
        add_months_lem n (m + 1) year (acc + nr_days_per_month m year * seconds_per_day)
            (omega arith) (omega arith),
      ))

days_to_year_1970 : days_to_year 1970 ≡ 719527
unfolding days_to_year
days_to_year_1970 = refl

days_to_year_2099 : days_to_year 2099 ≡ 766644
unfolding days_to_year
days_to_year_2099 = refl

days_to_year-le : (y : ℕ) → 1970 ≤ y → y < 2100 → days_to_year y ≤ 766644
days_to_year-le y h k =
    let e : days_to_year (y + (2099 - y)) ≡ days_to_year 2099 = ap days_to_year (omega arith) in
    omega (arith, days_to_year_mono (2099 - y) y (omega arith), days_to_year_2099)

add_years_1970 :
    (year : ℕ)
    → 1970 ≤ year
    → year < 2100
    → add_years (year - 1970) 1970 0 ≡ (days_to_year year - days_to_year 1970) * seconds_per_day
add_years_1970 year h k =
    let e : days_to_year (1970 + (year - 1970)) ≡ days_to_year year =
      ap days_to_year (omega arith) in
    let bound = days_to_year-le year h k in
    omega (
      arith,
      add_years_lem (year - 1970) 1970 0 (omega arith) (omega (arith, days_to_year_1970)),
      days_to_year_1970,
    )

add_months_first :
    (n year acc : ℕ)
    → n < 12
    → acc + 400 * seconds_per_day < 2 ^ 32
    → add_months n 0 year acc ≡ acc + days_to_month n (is_leap year) * seconds_per_day
unfolding days_to_month
add_months_first n year acc h b =
    let e : days_to_month (0 + n) (is_leap year) ≡ days_to_month n (is_leap year) =
      ap (λ (k : ℕ). days_to_month k (is_leap year)) (omega arith) in
    omega (arith, add_months_lem n 0 year acc (omega arith) (omega arith))

-- For a date and time of the years 2000 to 2099 the clock is set to the number of seconds from the
-- first of January 1970, by the Gregorian calendar; no addition wraps around.
pub unix_time_lem :
    (year month date hour minute second : ℕ)
    → 2000 ≤ year
    → year < 2100
    → 0 < month
    → month < 13
    → 0 < date
    → date < 32
    → hour < 24
    → minute < 60
    → second < 60
    → unix_time year month date hour minute second
      ≡ (days_to_year year
            - days_to_year 1970
            + days_to_month (month - 1) (is_leap year)
            + date
            - 1)
          * seconds_per_day
        + hour * 3600
        + minute * 60
        + second
unfolding unix_time
unix_time_lem year month date hour minute second a b c d e f g h i =
    let bound = days_to_year-le year (omega arith) b in
    let first = add_years_1970 year (omega arith) b in
    let rest =
      add_months_first (month - 1) year (add_years (year - 1970) 1970 0) (omega arith)
        (omega (arith, days_to_year_1970)) in
    let most = days_to_month-le (month - 1) (is_leap year) (omega arith) in
    omega (arith, days_to_year_1970)
