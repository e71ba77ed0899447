-- ===== src/Calendar/Today.antt =====
-- apps/packages/calendar.c: the date of today is the one that the calendar counts, in most years.
use mathlib.Core.Path.{subst}
use native.Mathlib.Decide.{ℕ_discrete}
use windoge_os.Common.{
  leb→le, ◌↔◌, ◌⊎◌, ℕ, zero, suc, ◌+◌, ◌-◌, ◌/◌, ◌%◌, ◌*◌, ◌^◌, ◌≤◌, ◌<◌, ◌≡◌, ◌≢◌, refl, sym, ap,
  ◌∙◌, Bool, true, false, not, ◌&&◌, ◌||◌, some, leb, ◌==◌, if◌then◌else◌, arith, Bool-cases, inl,
  inr,
}
use windoge_os.Calendar.{
  Datetime, get_days_in_month, days_in_year, year_loop, month_loop, month_of, get_current_date,
}

-- The Gregorian calendar.
abbrev pub leap : ℕ → Bool
leap y = (y % 4 == 0) && (not (y % 100 == 0) || (y % 400 == 0))

abbrev pub month_length : ℕ → ℕ → ℕ
month_length y m =
    if m == 2
    then (if leap y then 29 else 28)
    else if (m == 4) || ((m == 6) || ((m == 9) || (m == 11)))
    then 30
    else 31

-- The days of the first `n` years from 1970 on.
abbrev pub days_of_years : ℕ → ℕ
days_of_years zero = 0
days_of_years (suc n) = days_of_years n + (if leap (1970 + n) then 366 else 365)

-- The days of `n` months from month `m` on.
abbrev pub days_of_months : ℕ → ℕ → ℕ → ℕ
days_of_months y zero m = 0
days_of_months y (suc n) m = month_length y m + days_of_months y n (suc m)

-- The date is a day of the calendar, so many days behind 1 January 1970.
pub record IsDate (days : ℕ) (d : Datetime) : Type 0 where
  pub from_1970 : 1970 ≤ d.year
  pub month_range : (1 ≤ d.month) × (d.month ≤ 12)
  pub day_range : (1 ≤ d.day) × (d.day ≤ month_length d.year d.month)
  pub count :
      days_of_years (d.year - 1970) + days_of_months d.year (d.month - 1) 1 + (d.day - 1) ≡ days

days_in_year-leap : (y : ℕ) → days_in_year y ≡ (if leap y then 366 else 365)
days_in_year-leap y = ground arith

year_loop-some :
    (f days n : ℕ)
    → days < f
    → 365 * n + days ≤ 365 * 1500000000
    → (k rest : ℕ) × (year_loop f days (1970 + n) ≡ some (1970 + k, rest))
      × (days_of_years k + rest ≡ days_of_years n + days)
      × (rest < days_in_year (1970 + k))
unfolding year_loop
year_loop-some zero days n fuel early = absurd (omega arith)
year_loop-some (suc f) days n fuel early = elim (Bool-cases (leb (days_in_year (1970 + n)) days)) [
  | inr within ↦ rw within (n, days, refl, refl, ground (arith, within))
  | inl past ↦
      let big : 365 ≤ days_in_year (1970 + n) = ground arith in
      let le : days_in_year (1970 + n) ≤ days = ground (arith, past) in
      let (k, rest, e, count, lt) =
        year_loop-some f (days - days_in_year (1970 + n)) (suc n) (omega (arith, big, le, fuel))
          (omega (arith, big, le, early)) in
      let room : (1970 + n == 2 ^ 31 - 1) ≡ false = ground (arith, early) in
      rw (past, room)
        (
          k,
          rest,
          ap (λ y. year_loop f (days - days_in_year (1970 + n)) y) {x = suc (1970 + n)}
                (omega arith)
              ∙ e,
          omega (arith, count, days_in_year-leap (1970 + n), le),
          lt,
        )
]

not_400 : (y : ℕ) → y % 400 ≢ 0 → (y % 400 == 0) ≡ false
not_400 y ne = ground arith

-- Outside of the years that 400 divides, the program's months have the calendar's lengths.
february : (y : ℕ) → y % 400 ≢ 0 → get_days_in_month y 2 ≡ month_length y 2
unfolding get_days_in_month
february y ne = rw (not_400 y ne) (cases (y % 4 == 0) (not (y % 100 == 0)))
  where
    cases :
        (a b : Bool)
        → ◌≡◌ {A = ℕ} (if (a && b) || false then 29 else 28) (if a && (b || false) then 29 else 28)
    cases true true = refl
    cases true false = refl
    cases false b = refl

get_days_in_month-length :
    (y m : ℕ) → y % 400 ≢ 0 → 1 ≤ m → m ≤ 12 → get_days_in_month y m ≡ month_length y m
unfolding get_days_in_month
get_days_in_month-length y zero ne lo hi = absurd (omega arith)
get_days_in_month-length y (suc zero) ne lo hi = rw (not_400 y ne) refl
get_days_in_month-length y (suc (suc zero)) ne lo hi = february y ne
get_days_in_month-length y (suc (suc (suc zero))) ne lo hi = rw (not_400 y ne) refl
get_days_in_month-length y (suc (suc (suc (suc zero)))) ne lo hi = rw (not_400 y ne) refl
get_days_in_month-length y (suc (suc (suc (suc (suc zero))))) ne lo hi = rw (not_400 y ne) refl
get_days_in_month-length y (suc (suc (suc (suc (suc (suc zero)))))) ne lo hi =
    rw (not_400 y ne) refl
get_days_in_month-length y (suc (suc (suc (suc (suc (suc (suc zero))))))) ne lo hi =
    rw (not_400 y ne) refl
get_days_in_month-length y (suc (suc (suc (suc (suc (suc (suc (suc zero)))))))) ne lo hi =
    rw (not_400 y ne) refl
get_days_in_month-length y (suc (suc (suc (suc (suc (suc (suc (suc (suc zero))))))))) ne lo hi =
    rw (not_400 y ne) refl
get_days_in_month-length y (suc (suc (suc (suc (suc (suc (suc (suc (suc (suc zero)))))))))) ne lo
      hi =
    rw (not_400 y ne) refl
get_days_in_month-length y (suc (suc (suc (suc (suc (suc (suc (suc (suc (suc (suc zero))))))))))) ne
      lo hi =
    rw (not_400 y ne) refl
get_days_in_month-length y
      (suc (suc (suc (suc (suc (suc (suc (suc (suc (suc (suc (suc zero)))))))))))) ne lo hi =
    rw (not_400 y ne) refl
get_days_in_month-length y
      (suc (suc (suc (suc (suc (suc (suc (suc (suc (suc (suc (suc (suc m))))))))))))) ne lo hi =
    absurd (omega arith)

leap_400 : (y : ℕ) → y % 400 ≡ 0 → ((y % 400 == 0) ≡ true) × (leap y ≡ true)
leap_400 y e = (ground arith, ground arith)

-- In a year that 400 divides, the length 29 is wrong but for February.
centuries :
    (y m : ℕ) → y % 400 ≡ 0 → 1 ≤ m → m ≤ 12 → get_days_in_month y m ≡ month_length y m → m ≡ 2
unfolding get_days_in_month
centuries y m zero_is lo hi e = ground (arith, e, (leap_400 y zero_is).0, lo, hi)

february_400 : (y : ℕ) → y % 400 ≡ 0 → get_days_in_month y 2 ≡ month_length y 2
unfolding get_days_in_month
february_400 y e =
    rw ((leap_400 y e).1, (leap_400 y e).0) (either ((y % 4 == 0) && not (y % 100 == 0)))
  where
    either : (b : Bool) → ◌≡◌ {A = ℕ} (if b || true then 29 else 28) 29
    either true = refl
    either false = refl

-- For the months 1 to 12, `get_days_in_month` gives the length of the Gregorian calendar exactly when
-- 400 does not divide the year or the month is February.
pub get_days_in_month_iff :
    (y m : ℕ)
    → 1 ≤ m
    → m ≤ 12
    → (get_days_in_month y m ≡ month_length y m) ↔ ((y % 400 ≢ 0) ⊎ (m ≡ 2))
get_days_in_month_iff y m lo hi = (right, wrong)
  where
    right : get_days_in_month y m ≡ month_length y m → (y % 400 ≢ 0) ⊎ (m ≡ 2)
    right e = elim (ℕ_discrete (y % 400) 0) [
      | yes z ↦ inr (centuries y m z lo hi e)
      | no ne ↦ inl ne
    ]

    wrong : (y % 400 ≢ 0) ⊎ (m ≡ 2) → get_days_in_month y m ≡ month_length y m
    wrong (inl ne) = get_days_in_month-length y m ne lo hi
    wrong (inr two) =
        subst (λ k. get_days_in_month y k ≡ month_length y k) (sym two)
          (elim (ℕ_discrete (y % 400) 0) [ yes z ↦ february_400 y z | no ne ↦ february y ne ])

year_length : (y : ℕ) → days_of_months y 12 1 ≡ days_in_year y
year_length y = elim (Bool-cases (leap y)) [
  | inl e ↦ rw (days_in_year-leap y, e) refl
  | inr e ↦ rw (days_in_year-leap y, e) refl
]

month_loop-Within :
    (rounds y m days : ℕ)
    → y % 400 ≢ 0
    → 1 ≤ m
    → rounds + m ≡ 13
    → days < days_of_months y rounds m
    → (k rest : ℕ) × (month_loop rounds y m days ≡ (m + k, rest))
      × (days_of_months y k m + rest ≡ days)
      × (m + k ≤ 12)
      × (rest < month_length y (m + k))
unfolding month_loop
month_loop-Within zero y m days ne lo total lt = absurd (omega arith)
month_loop-Within (suc rounds) y m days ne lo total lt =
    let same : get_days_in_month y m ≡ month_length y m =
      get_days_in_month-length y m ne lo (omega (arith, total)) in
    elim (Bool-cases (leb (get_days_in_month y m) days)) [
      | inr within ↦ rw within (
        0,
        days,
        ap (λ x. (x, days)) {x = m} {y = m + 0} (omega arith),
        omega arith,
        omega (arith, total),
        subst (λ x. days < month_length y x) {x = m} {y = m + 0} (omega arith)
            (omega (arith, same, not_leb within)),
      )
      | inl past ↦
          let le : get_days_in_month y m ≤ days = leb→le (get_days_in_month y m) days past in
          let (k, rest, e, count, hi, short) =
            month_loop-Within rounds y (suc m) (days - get_days_in_month y m) ne (omega arith)
              (omega (arith, total)) (omega (arith, lt, same, le)) in
          rw past (
            suc k,
            rest,
            e ∙ ap (λ x. (x, rest)) {x = suc m + k} {y = m + suc k} (omega arith),
            omega (arith, count, same, le),
            omega (arith, hi),
            subst (λ x. rest < month_length y x) {x = suc m + k} {y = m + suc k} (omega arith)
                short,
          )
    ]
  where
    not_leb : leb (get_days_in_month y m) days ≡ false → days < get_days_in_month y m
    not_leb e = ground (arith, e)

-- For any time that is not 0 and below 2^55 seconds, `get_current_date` ends with a date. In a year that 400 does not divide,
-- this is a day of the Gregorian calendar, and it comes as many days behind 1 January 1970 as the time
-- has full days.
pub today-IsDate :
    (raw_time : ℕ)
    → raw_time ≢ 0
    → raw_time < 2 ^ 55
    → (d : Datetime) × (get_current_date raw_time ≡ some d)
      × (d.year % 400 ≢ 0 → IsDate (raw_time / 86400) d)
unfolding get_current_date
today-IsDate raw_time ne early =
    let (k, rest, e, count, lt) =
      year_loop-some (suc (raw_time / 86400)) (raw_time / 86400) 0 (omega arith) (omega arith) in
    let e' : year_loop (suc (raw_time / 86400)) (raw_time / 86400) 1970 ≡ some (1970 + k, rest) =
      e in
    let given : (raw_time == 0) ≡ false = ground arith in
    rw (given, e')
      (
        month_of (1970 + k, rest),
        refl,
        λ usual. date k rest (raw_time / 86400) usual (omega (arith, count)) lt,
      )
  where
    date :
        (k rest days : ℕ)
        → (1970 + k) % 400 ≢ 0
        → days_of_years k + rest ≡ days
        → rest < days_in_year (1970 + k)
        → IsDate days (month_of (1970 + k, rest))
    date k rest days usual count lt =
        let (j, left, e, months, hi, short) =
          month_loop-Within 12 (1970 + k) 1 rest usual (omega arith) refl
            (subst (λ x. rest < x) (sym (year_length (1970 + k))) lt) in
        rw e (record {
          from_1970 = omega arith;
          month_range = (omega arith, hi);
          day_range = (omega arith, omega (arith, short));
          count =
              ap (λ a. days_of_years a + days_of_months (1970 + k) (1 + j - 1) 1 + (left + 1 - 1))
                {x = 1970 + k - 1970} {y = k} (omega arith)
              ∙ ap (λ b. days_of_years k + days_of_months (1970 + k) b 1 + (left + 1 - 1))
                  {x = 1 + j - 1} {y = j} (omega arith)
              ∙ omega (arith, months, count);
        })
