-- ===== src/Clock/Show.antt =====
-- helper/time/time.c: the texts of a time, and the seconds.
use windoge_os.Common.{ℕ, ◌+◌, ◌-◌, ◌*◌, ◌/◌, ◌%◌, ◌≤◌, ◌<◌, ◌≡◌, refl, arith, List, get_or, length}
use windoge_os.Clock.{Time, epoch_of, clock_text, date_text}
use windoge_os.Clock.Decode.{IsTime}

-- A text has a decimal digit at an index, and two of them that make up a number.
abbrev pub IsDigit : List ℕ → ℕ → Type 0
IsDigit s i = (b'0' ≤ get_or s i 0) × (get_or s i 0 ≤ b'9')

abbrev pub TwoDigits : List ℕ → ℕ → ℕ → Type 0
TwoDigits s i v =
    IsDigit s i × IsDigit s (i + 1) × ((get_or s i 0 - b'0') * 10 + (get_or s (i + 1) 0 - b'0') ≡ v)

-- The text of a time of this century has eight characters: two digits each for the hour, the minute and the second,
-- with colons between them. The text of its date has ten: two digits each for the day and the month and
-- four for the year, with slashes.
pub texts_lem :
    (t : Time)
    → IsTime t
    → (length (clock_text t) ≡ 8)
      × TwoDigits (clock_text t) 0 t.hour
      × TwoDigits (clock_text t) 3 t.minute
      × TwoDigits (clock_text t) 6 t.second
      × (get_or (clock_text t) 2 0 ≡ b':')
      × (get_or (clock_text t) 5 0 ≡ b':')
      × (length (date_text t) ≡ 10)
      × TwoDigits (date_text t) 0 t.day
      × TwoDigits (date_text t) 3 t.month
      × TwoDigits (date_text t) 6 (t.year / 100)
      × TwoDigits (date_text t) 8 (t.year % 100)
      × (get_or (date_text t) 2 0 ≡ b'/')
      × (get_or (date_text t) 5 0 ≡ b'/')
unfolding clock_text date_text
texts_lem t v = (
  refl,
  ((omega arith, omega arith), (omega arith, omega arith), omega arith),
  ((omega arith, omega arith), (omega arith, omega arith), omega arith),
  ((omega arith, omega arith), (omega arith, omega arith), omega arith),
  refl,
  refl,
  refl,
  ((omega arith, omega arith), (omega arith, omega arith), omega arith),
  ((omega arith, omega arith), (omega arith, omega arith), omega arith),
  ((omega arith, omega arith), (omega arith, omega arith), omega arith),
  ((omega arith, omega arith), (omega arith, omega arith), omega arith),
  refl,
  refl,
)

-- The seconds of a time do not follow the calendar, since every month counts as 2629800 of them: in
-- each year of this century noon of 31 January has more of them than the midnight after it, the first
-- second of February.
pub epoch_back :
    (year : ℕ)
    → 2000 ≤ year
    → year < 2100
    → epoch_of (record { second = 0; minute = 0; hour = 0; day = 1; month = 2; year = year })
      < epoch_of (record { second = 0; minute = 0; hour = 12; day = 31; month = 1; year = year })
unfolding epoch_of
epoch_back year lo hi = omega arith
