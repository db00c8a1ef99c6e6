-- ===== src/Timer.antt =====
-- The calendar of kernel/timer.c: the functions that the wall clock is set with at boot.
-- `unsigned` and `time_t` are 32-bit. The interrupt handler of that file is in Sched/Tick.
pub mod Calendar
mod Tests
use simplix.Base.{
  ℕ, zero, suc, ◌+◌, ◌-◌, ◌*◌, ◌/◌, ◌%◌, ◌^◌, Bool, true, false, not, ◌&&◌, ◌||◌, List, [], ◌∷◌,
  leb, ltb, ◌==◌, if◌then◌else◌, get_or,
}

unfoldable pub is_leap : ℕ → Bool
is_leap year =
    if leb 1582 year
    then year % 4 == 0 && (not (year % 100 == 0) || year % 400 == 0)
    else year % 4 == 0

unfoldable pub nr_days_per_year : ℕ → ℕ
nr_days_per_year year = if is_leap year then 366 else 365

abbrev pub days_per_month : List ℕ
days_per_month = 31 ∷ 28 ∷ 31 ∷ 30 ∷ 31 ∷ 30 ∷ 31 ∷ 31 ∷ 30 ∷ 31 ∷ 30 ∷ 31 ∷ []

-- The month counts from 0; the code asserts that it is below 12.
unfoldable pub nr_days_per_month : ℕ → ℕ → ℕ
nr_days_per_month month year =
    if is_leap year && month == 1 then 29 else get_or days_per_month month 0

-- `while (n) { res += (n & 0xf) * mul; mul *= 10; n >>= 4; }` with fuel; eight rounds empty a
-- 32-bit number.
unfoldable pub bcd_loop : ℕ → ℕ → ℕ → ℕ → ℕ
bcd_loop zero n mul res = res
bcd_loop (suc fuel) n mul res =
    let rest = bcd_loop fuel (n / 16) (mul * 10 % 2 ^ 32) ((res + n % 16 * mul) % 2 ^ 32) in
    if n == 0 then res else rest

unfoldable pub bcd_to_dec : ℕ → ℕ
unfolding bcd_loop
bcd_to_dec n = bcd_loop 8 n 1 0

abbrev pub seconds_per_day : ℕ
seconds_per_day = 86400

-- `for (y = 1970; y < year; y++)`, by the rounds that are left.
unfoldable pub add_years : ℕ → ℕ → ℕ → ℕ
add_years zero y realtime = realtime
add_years (suc n) y realtime =
    add_years n (y + 1) ((realtime + nr_days_per_year y * seconds_per_day) % 2 ^ 32)

-- `for (m = 0; m < month-1; m++)`
unfoldable pub add_months : ℕ → ℕ → ℕ → ℕ → ℕ
add_months zero m year realtime = realtime
add_months (suc n) m year realtime =
    add_months n (m + 1) year ((realtime + nr_days_per_month m year * seconds_per_day) % 2 ^ 32)

-- The bytes that init_wall_clock reads from the real time clock.
pub record Rtc : Type 0 where
  pub second : ℕ
  pub minute : ℕ
  pub hour : ℕ
  pub date : ℕ
  pub month : ℕ
  pub year : ℕ

-- The computation of Unix time in `init_wall_clock`, from decoded values.
unfoldable pub unix_time : ℕ → ℕ → ℕ → ℕ → ℕ → ℕ → ℕ
unix_time year month date hour minute second =
    let r1 = add_years (year - 1970) 1970 0 in
    let r2 = add_months (month - 1) 0 year r1 in
    let r3 = (r2 + (date - 1) * seconds_per_day) % 2 ^ 32 in
    let r4 = (r3 + hour * 3600) % 2 ^ 32 in
    let r5 = (r4 + minute * 60) % 2 ^ 32 in (r5 + second) % 2 ^ 32

unfoldable pub init_wall_clock : Rtc → ℕ
unfolding bcd_to_dec unix_time
init_wall_clock r =
    unix_time (2000 + bcd_to_dec r.year) (bcd_to_dec r.month) (bcd_to_dec r.date)
      (bcd_to_dec r.hour) (bcd_to_dec r.minute) (bcd_to_dec r.second)
