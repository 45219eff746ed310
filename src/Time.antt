-- ===== src/Time.antt =====
-- time.c: the timer's divisor, the tick, and the date and time of day from the CMOS clock.
pub mod Timer
pub mod Cmos
pub mod Clock
pub mod Sleeps
use d.Base.{
  Option, [], bit_and, get_elem?, if◌then◌else◌, leb, ltb, none, some, suc, zero, ℕ, ◌%◌, ◌*◌, ◌+◌,
  ◌-◌, ◌/◌, ◌==◌, ◌^◌, ◌∷◌, Bool, Run, done, faults, spins, ◌>>=◌,
}
use d.Ports.{Device, Log, inb, outb}

-- `t_hz` is the first component of the result. `hz` is positive, as at the one call.
unfoldable pub timer_phase : (hz : ℕ) → Log → ℕ × Log
unfolding outb
timer_phase hz log =
    let divisor = 1193180 / hz in
    let log₁ = outb 0x43 0x36 log in
    let log₂ = outb 0x40 (bit_and divisor 0xFF) log₁ in (hz, outb 0x40 (divisor / 2 ^ 8) log₂)

-- `uptime` is an `int` that wraps.
unfoldable pub timer_handler : (uptime : ℕ) → ℕ
timer_handler uptime = (uptime + 1) % 2 ^ 32

-- `init_timer` but for its call of `irq_install_handler`: `uptime`, `t_hz` and the ports.
unfoldable pub init_timer : Log → ℕ × ℕ × Log
unfolding timer_phase
init_timer log = let (hz, log') = timer_phase 100 log in (0, hz, log')

-- The macro `from_bcd`.
unfoldable pub from_bcd : ℕ → ℕ
from_bcd val = val / 16 * 10 + bit_and val 0xF

-- `uint16_t values[128]`, by index.
abbrev pub Values : Type 0
Values = ℕ → ℕ

unfoldable pub cmos_loop : (left index : ℕ) → Device → Values → Log → Log × Values
cmos_loop zero index dev values log = (log, values)
cmos_loop (suc left) index dev values log =
    let (log', value) = inb dev 0x71 (outb 0x70 index log) in
    cmos_loop left (index + 1) dev (λ i. if i == index then value else values i) log'

-- The buffer of each caller is a local array; its first contents do not matter, and are 0 here.
unfoldable pub cmos_dump : Device → Log → Log × Values
cmos_dump dev log = cmos_loop 128 0 dev (λ i. 0) log

unfoldable pub get_field : Device → (register : ℕ) → Log → Log × ℕ
get_field dev register log =
    let (log', values) = cmos_dump dev log in (log', from_bcd (values register) % 2 ^ 16)

unfoldable pub get_hours : Device → Log → Log × ℕ
get_hours dev log = get_field dev 4 log

unfoldable pub get_mins : Device → Log → Log × ℕ
get_mins dev log = get_field dev 2 log

unfoldable pub get_secs : Device → Log → Log × ℕ
get_secs dev log = get_field dev 0 log

unfoldable pub get_month : Device → Log → Log × ℕ
get_month dev log = get_field dev 8 log

unfoldable pub get_day_of_month : Device → Log → Log × ℕ
get_day_of_month dev log = get_field dev 7 log

unfoldable pub get_year : Device → Log → Log × ℕ
get_year dev log =
    let (log', values) = cmos_dump dev log in
    (log', (from_bcd (values 9) + from_bcd (values 50) * 100) % 2 ^ 16)

-- `days_in_month[index]`; `none` is a read behind the array.
unfoldable pub days_in_month : ℕ → Option ℕ
days_in_month index =
    get_elem? (31 ∷ 28 ∷ 31 ∷ 30 ∷ 31 ∷ 30 ∷ 31 ∷ 31 ∷ 30 ∷ 31 ∷ 30 ∷ 31 ∷ []) index

-- A whole number `above - below` as an `int32_t` bit pattern; `none` where the conversion from
-- `double` is out of range.
unfoldable pub to_int32 : (above below : ℕ) → Option ℕ
to_int32 above below =
    if leb below above
    then (if ltb (above - below) (2 ^ 31) then some (above - below) else none)
    else if leb (below - above) (2 ^ 31)
    then some (2 ^ 32 - (below - above))
    else none

-- The sum of `get_time`. All its terms are whole numbers below 2 ^ 53, so that the `double`
-- arithmetic is exact: (year - 2000) * 365.25 * 24 * 60 * 60 is (year - 2000) * 31557600.
unfoldable pub time_sum : (seconds minutes hours day days year : ℕ) → Option ℕ
unfolding to_int32
time_sum seconds minutes hours day days year =
    to_int32
      (seconds
        + minutes * 60
        + hours * 60 * 60
        + day * 24 * 60 * 60
        + days * 24 * 60 * 60
        + year * 31557600)
      (2000 * 31557600)

-- The returned value, from the six fields.
unfoldable pub time_of : (hours minutes seconds month day year : ℕ) → Option ℕ
time_of hours minutes seconds month day year = elim (days_in_month month) [
  | none ↦ none
  | some days ↦ time_sum seconds minutes hours day days year
]

unfoldable pub get_time : Device → Log → Log × Option ℕ
get_time dev log =
    let (log₁, hours) = get_hours dev log in
    let (log₂, minutes) = get_mins dev log₁ in
    let (log₃, seconds) = get_secs dev log₂ in
    let (log₄, month) = get_month dev log₃ in
    let (log₅, day) = get_day_of_month dev log₄ in
    let (log₆, year) = get_year dev log₅ in (log₆, time_of hours minutes seconds month day year)

-- `a < b` between the bit patterns of two `int`s.
abbrev pub less_int : (a b : ℕ) → Bool
less_int a b = ltb ((a + 2 ^ 31) % 2 ^ 32) ((b + 2 ^ 31) % 2 ^ 32)

-- `get_time()` where the value is used: a read behind the array is a fault.
unfoldable pub now : Device → Log → Run (Log × ℕ)
now dev log =
    let (log', value) = get_time dev log in elim value [ none ↦ faults | some t ↦ done (log', t) ]

-- `while (get_time() - time < t) {}`.
unfoldable pub sleep_loop : (fuel : ℕ) → Device → (t time : ℕ) → Log → Run Log
sleep_loop zero dev t time log = spins
sleep_loop (suc fuel) dev t time log = now dev log >>= λ r.
    let rest = sleep_loop fuel dev t time r.0 in
    if less_int ((r.1 + 2 ^ 32 - time) % 2 ^ 32) t then rest else done r.0

unfoldable pub sleep : (fuel : ℕ) → Device → (t : ℕ) → Log → Run Log
sleep fuel dev t log = now dev log >>= λ r. sleep_loop fuel dev t r.1 r.0
