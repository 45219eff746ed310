-- ===== src/Time/Timer.antt =====
-- The divisor that the timer receives.
use native.Mathlib.Nat.{div-add-mod', mod-lt}
use native.Mathlib.Decide.{dec_le}
use d.Base.{ℕ, ◌%◌, ◌*◌, ◌+◌, ◌/◌, ◌<◌, ◌^◌, ◌↔◌, ◌∷◌, ◌≡◌, ◌≤◌, ap, arith, bit_and_mask}
use d.Ports.{Log, wrote, outb}
use d.Time.{timer_phase}

quotient_small : (n hz : ℕ) → 19 ≤ hz → n / hz * 19 ≤ n
quotient_small n hz h =
    let q = n / hz in
    let down : q * hz ≤ n = omega (arith, div-add-mod' n hz) in
    let less : q * 19 ≤ q * hz = grind arith in omega arith

quotient_large : (n hz : ℕ) → 0 < hz → hz ≤ 18 → n < (n / hz + 1) * 18
quotient_large n hz p h =
    let q = n / hz in
    let up : n < (q + 1) * hz = omega (arith, div-add-mod' n hz, mod-lt n p) in
    let more : (q + 1) * hz ≤ (q + 1) * 18 = grind arith in omega arith

-- For a positive `hz`, the two bytes written to the timer's data port, low byte first, hold the
-- divisor for `hz` modulo 2 ^ 16; it is the divisor itself exactly when `hz` is at least 19.
pub timer_phase_lem :
    (hz : ℕ) (log : Log)
    → 0 < hz
    → (low high : ℕ) × ((timer_phase hz log).1
        ≡ wrote 0x40 high ∷ wrote 0x40 low ∷ wrote 0x43 0x36 ∷ log)
      × (low + 256 * high ≡ 1193180 / hz % 2 ^ 16)
      × ((low + 256 * high ≡ 1193180 / hz) ↔ (19 ≤ hz))
unfolding timer_phase outb
timer_phase_lem hz log h =
    let d = 1193180 / hz in
    (
      d % 256,
      d / 256 % 256,
      rw (bit_and_mask 8 d) (
          ap (λ (x : ℕ). wrote 0x40 (d / 256 % 256) ∷ wrote 0x40 x ∷ wrote 0x43 0x36 ∷ log)
            (omega arith)),
      omega arith,
      (
        (λ e. elim (dec_le 19 hz) [
          | yes big ↦ big
          | no small ↦ absurd (omega (arith, quotient_large 1193180 hz h (omega arith)))
        ]),
        λ big. omega (arith, quotient_small 1193180 hz big),
      ),
    )
