-- ===== src/Time/Clock.antt =====
-- `get_time` on a date.
use d.Base.{
  if◌then◌else◌, none, some, ℕ, ◌%◌, ◌/◌, ◌<◌, ◌==◌, ◌||◌, ◌≡◌, ◌≤◌, arith, refl, suc, zero, ◌*◌,
  ◌+◌, ◌-◌, Bool-cases, ap, inl, inr, ◌∙◌,
}
use d.Time.{
  days_in_month, get_day_of_month, get_hours, get_mins, get_month, get_secs, get_time, get_year,
  time_of, time_sum,
}
use d.Time.Cmos.{bcd, HoldsRegisters, get_field-bcd, get_year-bcd}
use d.Ports.{Device, Log}

-- A date and a time of day, as a clock shows them.
pub record Date : Type 0 where
  pub year : ℕ
  pub month : ℕ
  pub day : ℕ
  pub hours : ℕ
  pub minutes : ℕ
  pub seconds : ℕ

pub record IsDate (d : Date) : Type 0 where
  pub year_from : 2000 ≤ d.year
  pub year_to : d.year ≤ 2067
  pub month_from : 1 ≤ d.month
  pub month_to : d.month ≤ 12
  pub day_to : d.day ≤ 31
  pub hours_to : d.hours < 24
  pub minutes_to : d.minutes < 60
  pub seconds_to : d.seconds < 60

-- The registers hold the date in BCD.
pub record Shows (cmos : ℕ → ℕ) (d : Date) : Type 0 where
  pub seconds_at : cmos 0 ≡ bcd d.seconds
  pub minutes_at : cmos 2 ≡ bcd d.minutes
  pub hours_at : cmos 4 ≡ bcd d.hours
  pub day_at : cmos 7 ≡ bcd d.day
  pub month_at : cmos 8 ≡ bcd d.month
  pub year_at : cmos 9 ≡ bcd (d.year % 100)
  pub century_at : cmos 50 ≡ bcd (d.year / 100)

-- The days of the month after `month`, for January to November: the array of `get_time` begins
-- with January at index 0, and `get_time` reads it at `month`.
abbrev pub days_of_next_month : ℕ → ℕ
days_of_next_month month =
    if month == 1
    then 28
    else if (month == 3) || (month == 5) || (month == 8) || (month == 10)
    then 30
    else 31

days_in_month_lem :
    (month : ℕ)
    → 1 ≤ month
    → month ≤ 12
    → days_in_month month ≡ (if month == 12 then none else some (days_of_next_month month))
unfolding days_in_month
days_in_month_lem zero lo hi = absurd (omega arith)
days_in_month_lem (suc zero) lo hi = refl
days_in_month_lem (suc (suc zero)) lo hi = refl
days_in_month_lem (suc (suc (suc zero))) lo hi = refl
days_in_month_lem (suc (suc (suc (suc zero)))) lo hi = refl
days_in_month_lem (suc (suc (suc (suc (suc zero))))) lo hi = refl
days_in_month_lem (suc (suc (suc (suc (suc (suc zero)))))) lo hi = refl
days_in_month_lem (suc (suc (suc (suc (suc (suc (suc zero))))))) lo hi = refl
days_in_month_lem (suc (suc (suc (suc (suc (suc (suc (suc zero)))))))) lo hi = refl
days_in_month_lem (suc (suc (suc (suc (suc (suc (suc (suc (suc zero))))))))) lo hi = refl
days_in_month_lem (suc (suc (suc (suc (suc (suc (suc (suc (suc (suc zero)))))))))) lo hi = refl
days_in_month_lem (suc (suc (suc (suc (suc (suc (suc (suc (suc (suc (suc zero))))))))))) lo hi =
    refl
days_in_month_lem (suc (suc (suc (suc (suc (suc (suc (suc (suc (suc (suc (suc zero)))))))))))) lo
      hi =
    refl
days_in_month_lem
      (suc (suc (suc (suc (suc (suc (suc (suc (suc (suc (suc (suc (suc month))))))))))))) lo hi =
    absurd (omega arith)

time_sum_lem :
    (d : Date)
    → IsDate d
    → (days : ℕ) → days ≤ 31
    → time_sum d.seconds d.minutes d.hours d.day days d.year
      ≡ some (
          d.seconds
          + d.minutes * 60
          + d.hours * 3600
          + (d.day + days) * 86400
          + (d.year - 2000) * 31557600)
unfolding time_sum
time_sum_lem d is days h = ground arith

time_of_lem :
    (d : Date)
    → IsDate d
    → time_of d.hours d.minutes d.seconds d.month d.day d.year ≡ (
        if d.month == 12
        then none
        else some (
            d.seconds
            + d.minutes * 60
            + d.hours * 3600
            + (d.day + days_of_next_month d.month) * 86400
            + (d.year - 2000) * 31557600))
unfolding time_of
time_of_lem d is =
    let days = days_in_month_lem d.month is.month_from is.month_to in
    elim (Bool-cases (d.month == 12)) [
      | inl last ↦ rw last (rw (rw last at days, time_of))
      | inr before ↦ rw before (
          rw (rw before at days, time_of)
            (time_sum_lem d is (days_of_next_month d.month) (ground arith)))
    ]

-- While the clock shows a date from 2000 to 2067, `get_time` is the time of day in seconds, plus a day
-- for each day of the month, plus the days of one month, plus the years since 2000 of 31557600
-- seconds each. The month that is counted is the one after the current one, not those before it; in
-- December the array is read behind its end.
pub get_time-Date :
    (dev : Device) (cmos : ℕ → ℕ) (d : Date) (log : Log)
    → HoldsRegisters dev cmos
    → IsDate d
    → Shows cmos d
    → (get_time dev log).1 ≡ (
        if d.month == 12
        then none
        else some (
            d.seconds
            + d.minutes * 60
            + d.hours * 3600
            + (d.day + days_of_next_month d.month) * 86400
            + (d.year - 2000) * 31557600))
unfolding get_time
get_time-Date dev cmos d log holds is shows =
    let field =
      λ (register n : ℕ) (l : Log) (b : register < 128) (e : cmos register ≡ bcd n) (h : n < 100).
        get_field-bcd dev cmos holds register n l b e h in
    let (log₁, hours) = get_hours dev log in
    let (log₂, minutes) = get_mins dev log₁ in
    let (log₃, seconds) = get_secs dev log₂ in
    let (log₄, month) = get_month dev log₃ in
    let (log₅, day) = get_day_of_month dev log₄ in
    let h : hours ≡ d.hours =
      unfold get_hours in field 4 d.hours log (omega arith) shows.hours_at (omega (arith, is)) in
    let m : minutes ≡ d.minutes =
      unfold get_mins in
      field 2 d.minutes log₁ (omega arith) shows.minutes_at (omega (arith, is)) in
    let s : seconds ≡ d.seconds =
      unfold get_secs in
      field 0 d.seconds log₂ (omega arith) shows.seconds_at (omega (arith, is)) in
    let mo : month ≡ d.month =
      unfold get_month in field 8 d.month log₃ (omega arith) shows.month_at (omega (arith, is)) in
    let dy : day ≡ d.day =
      unfold get_day_of_month in
      field 7 d.day log₄ (omega arith) shows.day_at (omega (arith, is)) in
    let y : (get_year dev log₅).1 ≡ d.year % 100 + d.year / 100 * 100 =
      get_year-bcd dev cmos holds (d.year % 100) (d.year / 100) log₅ shows.year_at shows.century_at
        (omega arith) (omega (arith, is)) in
    rw (h, m, s, mo, dy, y)
      (ap (λ (z : ℕ). time_of d.hours d.minutes d.seconds d.month d.day z) (omega arith)
        ∙ time_of_lem d is)
