-- ===== src/Tests/Clocks.antt =====
-- A clock that moves on by a second between the readings.
use d.Base.{
  [], arith, done, if◌then◌else◌, length, ltb, refl, some, suc, zero, ℕ, ◌*◌, ◌+◌, ◌∷◌, ◌≡◌,
}
use d.Ports.{Device, Log, inb, outb, was_read, wrote}
use d.Tests.Devices.{registers}
use d.Time.{
  get_time, sleep, get_hours, get_mins, get_secs, get_month, get_day_of_month, get_year, get_field,
  cmos_dump, cmos_loop, from_bcd, time_of, time_sum, days_in_month, to_int32,
}
use d.Time.Sleeps.{sleep-returns}

-- The seconds by the number of port operations before; the other registers stay.
moving : Device
moving [] port = 0
moving (was_read p v ∷ log) port = 0
moving (wrote p zero ∷ log) port =
    if ltb (length log) 1000 then 0x30 else if ltb (length log) 3000 then 0x31 else 0x32
moving (wrote p (suc v) ∷ log) port = registers (suc v)

abbrev half_past : ℕ
half_past = 30 + 20 * 60 + 10 * 3600 + (12 + 30) * 86400 + 14 * 31557600

abbrev log₁ : Log
log₁ = (get_time moving []).0

abbrev log₂ : Log
log₂ = (get_time moving log₁).0

abbrev log₃ : Log
log₃ = (get_time moving log₂).0

first : (get_time moving []).1 ≡ some half_past
unfolding get_time get_hours get_mins get_secs get_month get_day_of_month get_year get_field
    cmos_dump cmos_loop from_bcd time_of time_sum days_in_month to_int32 inb outb moving
first = refl

second : (get_time moving log₁).1 ≡ some (half_past + 1)
unfolding get_time get_hours get_mins get_secs get_month get_day_of_month get_year get_field
    cmos_dump cmos_loop from_bcd time_of time_sum days_in_month to_int32 inb outb moving
second = refl

third : (get_time moving log₂).1 ≡ some (half_past + 2)
unfolding get_time get_hours get_mins get_secs get_month get_day_of_month get_year get_field
    cmos_dump cmos_loop from_bcd time_of time_sum days_in_month to_int32 inb outb moving
third = refl

sleep-returns_example : sleep 2 moving 2 [] ≡ done log₃
sleep-returns_example =
    sleep-returns moving 2 half_past (omega arith) 2 ((half_past + 1) ∷ []) (half_past + 2) [] log₃
      ((omega arith, omega arith), tt) (omega arith) (omega arith) (omega arith)
      (first, (second, (third, refl)))
