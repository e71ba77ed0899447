-- ===== src/Calendar.antt =====
-- apps/packages/calendar.c: the date of today from the seconds since 1970. `y` is an
-- `int`: where it would pass 2^31 - 1, the program has no defined meaning and there is no result.
use windoge_os.Common.{
  ℕ, zero, suc, ◌+◌, ◌-◌, ◌/◌, ◌%◌, ◌^◌, Bool, not, ◌&&◌, ◌||◌, Option, none, some, List, [], ◌∷◌,
  ltb, leb, ◌==◌, if◌then◌else◌, get_or,
}
pub mod Today

pub record Datetime : Type 0 where
  pub year : ℕ
  pub month : ℕ
  pub day : ℕ

abbrev pub days_per_month : List ℕ
days_per_month = 0 ∷ 31 ∷ 28 ∷ 31 ∷ 30 ∷ 31 ∷ 30 ∷ 31 ∷ 31 ∷ 30 ∷ 31 ∷ 30 ∷ 31 ∷ []

unfoldable pub get_days_in_month : ℕ → ℕ → ℕ
get_days_in_month year month =
    if ltb month 1 || ltb 12 month
    then 30
    else if ((month == 2) && ((year % 4 == 0) && not (year % 100 == 0))) || (year % 400 == 0)
    then 29
    else get_or days_per_month month 0

abbrev pub days_in_year : ℕ → ℕ
days_in_year y = if ((y % 4 == 0) && not (y % 100 == 0)) || (y % 400 == 0) then 366 else 365

-- `while (true)`: the year, and the days left in it; `none` when the fuel runs out, or where `y++` overflows.
unfoldable pub year_loop : ℕ → ℕ → ℕ → Option (ℕ × ℕ)
year_loop zero days y = none
year_loop (suc f) days y =
    let rest : Option (ℕ × ℕ) = year_loop f (days - days_in_year y) (suc y) in
    if leb (days_in_year y) days then (if y == 2 ^ 31 - 1 then none else rest) else some (y, days)

-- `while (m <= 12)`, by the months left.
unfoldable pub month_loop : ℕ → ℕ → ℕ → ℕ → ℕ × ℕ
month_loop zero y m days = (m, days)
month_loop (suc rounds) y m days =
    let rest : ℕ × ℕ = month_loop rounds y (suc m) (days - get_days_in_month y m) in
    if leb (get_days_in_month y m) days then rest else (m, days)

abbrev pub month_of : ℕ × ℕ → Datetime
month_of (y, days) =
    let (m, rest) = month_loop 12 y 1 days in record { year = y; month = m; day = rest + 1 }

-- `raw_time` is what get_time gives, a `uint64_t`. Fuel for one round more than there are days.
unfoldable pub get_current_date : ℕ → Option Datetime
get_current_date raw_time =
    if raw_time == 0
    then some (record { year = 2026; month = 10; day = 18 })
    else elim (year_loop (suc (raw_time / 86400)) (raw_time / 86400) 1970) [
      | none ↦ none
      | some found ↦ some (month_of found)
    ]
