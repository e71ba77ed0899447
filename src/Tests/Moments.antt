-- ===== src/Tests/Moments.antt =====
-- helper/time/time.c: the theorems at 20:05:09 on 31 December 2026.
use windoge_os.Common.{◌<◌, ◌≡◌, arith, some, get_or, length}
use windoge_os.Clock.{Time, time_update_time, epoch_of, clock_text, date_text}
use windoge_os.Clock.Decode.{IsTime, registers, steady, update_time-registers}
use windoge_os.Clock.Show.{TwoDigits, texts_lem, epoch_back}

abbrev evening : Time
evening = record { second = 9; minute = 5; hour = 20; day = 31; month = 12; year = 2026 }

evening-IsTime : IsTime evening
evening-IsTime = record {
  second_lt = omega arith;
  minute_lt = omega arith;
  hour_lt = omega arith;
  day_lt = omega arith;
  month_lt = omega arith;
  year_from = omega arith;
  year_to = omega arith;
}

-- The registers count in decimal digits and on the 12-hour clock.
update_time-registers_example :
    time_update_time (steady 0 (registers 0 evening)) 1 7 ≡ some (evening, 7)
update_time-registers_example = update_time-registers 0 0 7 evening evening-IsTime

texts_lem_example :
    (length (clock_text evening) ≡ 8)
    × TwoDigits (clock_text evening) 0 20
    × TwoDigits (clock_text evening) 3 5
    × TwoDigits (clock_text evening) 6 9
    × (get_or (clock_text evening) 2 0 ≡ b':')
    × (get_or (clock_text evening) 5 0 ≡ b':')
    × (length (date_text evening) ≡ 10)
    × TwoDigits (date_text evening) 0 31
    × TwoDigits (date_text evening) 3 12
    × TwoDigits (date_text evening) 6 20
    × TwoDigits (date_text evening) 8 26
    × (get_or (date_text evening) 2 0 ≡ b'/')
    × (get_or (date_text evening) 5 0 ≡ b'/')
texts_lem_example = texts_lem evening evening-IsTime

epoch_back_example :
    epoch_of (record { second = 0; minute = 0; hour = 0; day = 1; month = 2; year = 2026 })
    < epoch_of (record { second = 0; minute = 0; hour = 12; day = 31; month = 1; year = 2026 })
epoch_back_example = epoch_back 2026 (omega arith) (omega arith)
