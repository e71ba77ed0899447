-- ===== src/Tests/Days.antt =====
-- apps/packages/calendar.c: the theorems at concrete days.
use windoge_os.Common.{ℕ, ◌/◌, ◌%◌, ◌≡◌, ◌≢◌, ◌↔◌, ◌⊎◌, refl, some, arith}
use windoge_os.Calendar.{Datetime, get_days_in_month, year_loop, month_loop, get_current_date}
use windoge_os.Calendar.Today.{IsDate, month_length, get_days_in_month_iff, today-IsDate}

abbrev january : ℕ
january = 1

get_days_in_month_iff_example :
    (get_days_in_month 2000 january ≡ month_length 2000 january)
    ↔ ((2000 % 400 ≢ 0) ⊎ (january ≡ 2))
get_days_in_month_iff_example = get_days_in_month_iff 2000 january (omega arith) (omega arith)

today-IsDate_example :
    (d : Datetime) × (get_current_date 1000000 ≡ some d)
    × (d.year % 400 ≢ 0 → IsDate (1000000 / 86400) d)
today-IsDate_example = today-IsDate 1000000 (omega arith) (omega arith)

-- 31 December 2000
thirteenth_month : get_current_date 978220800 ≡ some (record { year = 2000; month = 13; day = 18 })
unfolding get_current_date year_loop month_loop get_days_in_month
thirteenth_month = refl
