-- ===== src/Clock/Decode.antt =====
-- helper/time/time.c: the four formats of the clock's registers.
use windoge_os.Common.{
  ℕ, suc, ◌+◌, ◌-◌, ◌*◌, ◌/◌, ◌%◌, ◌≤◌, ◌<◌, ◌≡◌, refl, ◌⊎◌, inl, inr, arith, some, ltb, ◌==◌,
  if◌then◌else◌, Bool-cases, ◌∙◌, ap,
}
use windoge_os.Clock.{
  Time, has_bit, from_bcd, hour_from_bcd, decode_bcd, hour_24, decode_time, wait_update,
  read_registers, time_update_time,
}

-- A time of this century.
pub record IsTime (t : Time) : Type 0 where
  pub second_lt : t.second < 60
  pub minute_lt : t.minute < 60
  pub hour_lt : t.hour < 24
  pub day_lt : t.day < 32
  pub month_lt : t.month < 13
  pub year_from : 2000 ≤ t.year
  pub year_to : t.year < 2100

-- The byte of a number: decimal digits in the two halves, unless the clock counts in binary.
abbrev pub store : ℕ → ℕ → ℕ
store status_b x = if has_bit 4 status_b then x else x / 10 * 16 + x % 10

-- The byte of an hour: as it is on the 24-hour clock, else 12, 1, ..., 11 and the top bit from noon on.
abbrev pub store_hour : ℕ → ℕ → ℕ
store_hour status_b h =
    if has_bit 2 status_b
    then store status_b h
    else store status_b (if h % 12 == 0 then 12 else h % 12) + (if ltb h 12 then 0 else 128)

abbrev pub registers : ℕ → Time → Time
registers status_b t = record {
  second = store status_b t.second;
  minute = store status_b t.minute;
  hour = store_hour status_b t.hour;
  day = store status_b t.day;
  month = store status_b t.month;
  year = store status_b (t.year - 2000);
}

-- A chip whose registers do not change; status register A never reports an update.
abbrev pub steady : ℕ → Time → ℕ → ℕ → ℕ × ℕ
steady status_b t reg w = (
  (if reg == 0
      then t.second
      else if reg == 2
      then t.minute
      else if reg == 4
      then t.hour
      else if reg == 7
      then t.day
      else if reg == 8
      then t.month
      else if reg == 9
      then t.year
      else if reg == 11
      then status_b
      else 0),
  w,
)

field : (x : ℕ) → x < 100 → from_bcd (x / 10 * 16 + x % 10) % 256 ≡ x
field x h = omega arith

hour_24-inv :
    (h : ℕ)
    → h < 24
    → hour_24 ((if h % 12 == 0 then 12 else h % 12) + (if ltb h 12 then 0 else 128)) ≡ h
unfolding hour_24
hour_24-inv h lt = ground arith

-- An hour from 1 to 12 with the top bit, in decimal digits.
hour-digits :
    (c flag : ℕ)
    → c < 13
    → (flag ≡ 0) ⊎ (flag ≡ 128)
    → hour_from_bcd (c / 10 * 16 + c % 10 + flag) % 256 ≡ c + flag
hour-digits c flag h f = omega arith

decimal_hour-inv :
    (h : ℕ)
    → h < 24
    → hour_24 (
        hour_from_bcd (
          (if h % 12 == 0 then 12 else h % 12) / 10 * 16
          + (if h % 12 == 0 then 12 else h % 12) % 10
          + (if ltb h 12 then 0 else 128))
        % 256)
      ≡ h
decimal_hour-inv h lt =
    ap hour_24 (
      hour-digits (if h % 12 == 0 then 12 else h % 12) (if ltb h 12 then 0 else 128) (ground arith)
        (ground arith))
    ∙ hour_24-inv h lt

same_time :
    (s t : Time)
    → s.second ≡ t.second
    → s.minute ≡ t.minute
    → s.hour ≡ t.hour
    → s.day ≡ t.day
    → s.month ≡ t.month
    → s.year ≡ t.year
    → s ≡ t
same_time s t e1 e2 e3 e4 e5 e6 =
    λ i. record { second = e1 i; minute = e2 i; hour = e3 i; day = e4 i; month = e5 i; year = e6 i }

decode-registers :
    (status_b : ℕ) (t : Time) → IsTime t → decode_time status_b (registers status_b t) ≡ t
unfolding decode_time decode_bcd
decode-registers status_b t v = elim (Bool-cases (has_bit 4 status_b)) [
  | inl binary ↦ elim (Bool-cases (has_bit 2 status_b)) [
    | inl full ↦ rw (binary, full) (same_time _ t refl refl refl refl refl (omega arith))
    | inr half ↦
        rw (binary, half)
          (same_time _ t refl refl (hour_24-inv t.hour v.hour_lt) refl refl (omega arith))
  ]
  | inr decimal ↦ elim (Bool-cases (has_bit 2 status_b)) [
    | inl full ↦
        rw (decimal, full)
          (same_time _ t (field t.second (omega arith)) (field t.minute (omega arith)) (omega arith)
            (field t.day (omega arith)) (field t.month (omega arith)) (omega arith))
    | inr half ↦
        rw (decimal, half)
          (same_time _ t (field t.second (omega arith)) (field t.minute (omega arith))
            (decimal_hour-inv t.hour v.hour_lt) (field t.day (omega arith))
            (field t.month (omega arith)) (omega arith))
  ]
]

-- A clock that is not in the middle of an update and whose registers hold a time of this century, in
-- any of its four formats, is read as that time: `time_update_time` returns in one round of its wait.
pub update_time-registers :
    (status_b fuel w : ℕ) (t : Time)
    → IsTime t
    → time_update_time (steady status_b (registers status_b t)) (suc fuel) w ≡ some (t, w)
unfolding time_update_time wait_update read_registers
update_time-registers status_b fuel w t v = ap (λ x. some (x, w)) (decode-registers status_b t v)
