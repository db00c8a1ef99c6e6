-- ===== src/Timer/Tests.antt =====
-- The theorems about the calendar of kernel/timer.c at concrete dates.
use simplix.Base.{◌+◌, ◌*◌, ◌-◌, ◌≡◌, refl, arith}
use simplix.Timer.{
  unix_time, is_leap, init_wall_clock, seconds_per_day, add_years, add_months, nr_days_per_year,
  nr_days_per_month,
}
use simplix.Timer.Calendar.{days_to_year, days_to_month, unix_time_lem}

-- 12:34:56 on the first of March 2008
unix_time_lem_example :
    unix_time 2008 3 1 12 34 56
    ≡ (days_to_year 2008 - days_to_year 1970 + days_to_month 2 (is_leap 2008) + 1 - 1)
        * seconds_per_day
      + 12 * 3600
      + 34 * 60
      + 56
unix_time_lem_example =
    unix_time_lem 2008 3 1 12 34 56 (omega arith) (omega arith) (omega arith) (omega arith)
      (omega arith) (omega arith) (omega arith) (omega arith) (omega arith)

wall_clock :
    init_wall_clock
      (record { second = 0x56; minute = 0x34; hour = 0x12; date = 1; month = 3; year = 8 })
    ≡ 1204374896
unfolding init_wall_clock add_years add_months nr_days_per_year nr_days_per_month is_leap
wall_clock = refl
