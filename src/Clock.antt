-- ===== src/Clock.antt =====
-- helper/time/time.c: the real-time clock. A chip is a state with a reading function, since a read
-- goes through two ports; every register is a byte.
pub mod Decode
pub mod Show
use windoge_os.Common.{
  ℕ, zero, suc, ◌+◌, ◌-◌, ◌*◌, ◌/◌, ◌%◌, ◌^◌, Bool, true, false, not, ◌&&◌, Option, none, some,
  List, [], ◌∷◌, ◌==◌, if◌then◌else◌,
}

-- The struct `time`.
pub record Time : Type 0 where
  pub second : ℕ
  pub minute : ℕ
  pub hour : ℕ
  pub day : ℕ
  pub month : ℕ
  pub year : ℕ

-- `x & bit` is set, for a power of two.
abbrev pub has_bit : ℕ → ℕ → Bool
has_bit bit x = x / bit % 2 == 1

-- `(x & 0x0F) + ((x / 16) * 10)`
abbrev pub from_bcd : ℕ → ℕ
from_bcd x = x % 16 + x / 16 * 10

-- The same on the low seven bits; the top bit stays, and the `|` never carries.
abbrev pub hour_from_bcd : ℕ → ℕ
hour_from_bcd h = h % 16 + h / 16 % 8 * 10 + h / 128 % 2 * 128

unfoldable pub decode_bcd : Time → Time
decode_bcd t = record {
  second = from_bcd t.second % 256;
  minute = from_bcd t.minute % 256;
  hour = hour_from_bcd t.hour % 256;
  day = from_bcd t.day % 256;
  month = from_bcd t.month % 256;
  year = from_bcd t.year;
}

-- From the 12-hour clock, whose top bit means the afternoon.
unfoldable pub hour_24 : ℕ → ℕ
hour_24 h =
    let clock : ℕ = h % 128 in
    if has_bit 128 h && not (clock == 12)
    then (clock + 12) % 256
    else if not (has_bit 128 h) && (clock == 12)
    then 0
    else clock

-- What the registers mean under status register B.
unfoldable pub decode_time : ℕ → Time → Time
decode_time status_b raw =
    let t : Time = if not (has_bit 4 status_b) then decode_bcd raw else raw in
    record t {
      year = (t.year + 2000) % 2 ^ 32;
      hour = if not (has_bit 2 status_b) then hour_24 t.hour else t.hour;
    }

-- `x - 1ULL` and the like, on 64 bits.
abbrev pub sub64 : ℕ → ℕ → ℕ
sub64 a b = (a + 2 ^ 64 - b) % 2 ^ 64

-- `time_get_epoch_seconds` behind its call of `time_update_time`.
unfoldable pub epoch_of : Time → ℕ
epoch_of t =
    (t.second
      + t.minute * 60
      + t.hour * 3600
      + sub64 t.day 1 * 86400
      + sub64 t.month 1 * 2629800
      + sub64 t.year 1970 * 31557600)
    % 2 ^ 64

abbrev pub digit_char : ℕ → ℕ
digit_char d = (d + b'0') % 256

-- `time_get` and `date_get` behind that call.
unfoldable pub clock_text : Time → List ℕ
clock_text t =
    digit_char (t.hour / 10)
    ∷ digit_char (t.hour % 10)
    ∷ b':'
    ∷ digit_char (t.minute / 10)
    ∷ digit_char (t.minute % 10)
    ∷ b':'
    ∷ digit_char (t.second / 10)
    ∷ digit_char (t.second % 10)
    ∷ []

unfoldable pub date_text : Time → List ℕ
date_text t =
    digit_char (t.day / 10)
    ∷ digit_char (t.day % 10)
    ∷ b'/'
    ∷ digit_char (t.month / 10)
    ∷ digit_char (t.month % 10)
    ∷ b'/'
    ∷ digit_char (t.year / 1000)
    ∷ digit_char (t.year % 1000 / 100)
    ∷ digit_char (t.year % 100 / 10)
    ∷ digit_char (t.year % 10)
    ∷ []

module _ {W : Type 0} (time_read_rtc : ℕ → W → ℕ × W) where
  -- `while (time_read_rtc(0x0A) & 0x80);` with fuel: `none` when it runs out.
  unfoldable pub wait_update : ℕ → W → Option W
  wait_update zero w = none
  wait_update (suc f) w =
      let (status_a, w1) = time_read_rtc 10 w in
      let rest : Option W = wait_update f w1 in if has_bit 128 status_a then rest else some w1

  unfoldable pub read_registers : W → Time × W
  read_registers w =
      let (second, w1) = time_read_rtc 0 w in
      let (minute, w2) = time_read_rtc 2 w1 in
      let (hour, w3) = time_read_rtc 4 w2 in
      let (day, w4) = time_read_rtc 7 w3 in
      let (month, w5) = time_read_rtc 8 w4 in
      let (year, w6) = time_read_rtc 9 w5 in
      (
        record {
          second = second;
          minute = minute;
          hour = hour;
          day = day;
          month = month;
          year = year;
        },
        w6,
      )

  unfoldable pub time_update_time : ℕ → W → Option (Time × W)
  time_update_time fuel w = elim (wait_update fuel w) [
    | none ↦ none
    | some w1 ↦
        let (raw, w2) = read_registers w1 in
        let (status_b, w3) = time_read_rtc 11 w2 in some (decode_time status_b raw, w3)
  ]

  abbrev shown : {A : Type 0} → (Time → A) → Option (Time × W) → Option (A × W)
  shown f none = none
  shown f (some (t, w)) = some (f t, w)

  unfoldable pub time_get_epoch_seconds : ℕ → W → Option (ℕ × W)
  time_get_epoch_seconds fuel w = shown epoch_of (time_update_time fuel w)

  unfoldable pub time_get : ℕ → W → Option (List ℕ × W)
  time_get fuel w = shown clock_text (time_update_time fuel w)

  unfoldable pub date_get : ℕ → W → Option (List ℕ × W)
  date_get fuel w = shown date_text (time_update_time fuel w)
