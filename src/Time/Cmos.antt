-- ===== src/Time/Cmos.antt =====
-- What the clock's registers become in the fields of `get_time`.
use d.Base.{
  arith, bit_and_mask, if◌then◌else◌, leb, ltb, suc, zero, ℕ, ◌%◌, ◌&&◌, ◌*◌, ◌+◌, ◌/◌, ◌<◌, ◌∷◌,
  ◌≡◌, ◌≤◌, ◌==◌,
}
use d.Ports.{Device, Log, inb, outb, wrote}
use d.Time.{Values, cmos_loop, from_bcd, cmos_dump, get_field, get_year}

-- The real-time clock, while it does not tick: after its register's number is written to port 0x70,
-- a read of port 0x71 answers the register.
abbrev pub HoldsRegisters : Device → (ℕ → ℕ) → Type 0
HoldsRegisters dev cmos =
    (log : Log) (index : ℕ) → index < 128 → dev (wrote 0x70 index ∷ log) 0x71 ≡ cmos index

-- A number below 100 in binary-coded decimal.
abbrev pub bcd : ℕ → ℕ
bcd n = n / 10 * 16 + n % 10

from_bcd-bcd : (n : ℕ) → n < 100 → from_bcd (bcd n % 256) ≡ n
unfolding from_bcd
from_bcd-bcd n h = omega (arith, bit_and_mask 4 (bcd n % 256))

module _ (dev : Device) (cmos : ℕ → ℕ) (holds : HoldsRegisters dev cmos) where
  read_register :
      (index : ℕ) (log : Log)
      → index < 128
      → (inb dev 0x71 (outb 0x70 index log)).1 ≡ cmos index % 256
  unfolding inb outb
  read_register index log h = let e : index % 256 ≡ index = omega arith in rw (e, holds log index h)

  cmos_loop-values :
      (left index : ℕ) (values : Values) (log : Log) (i : ℕ)
      → index + left ≤ 128
      → (cmos_loop left index dev values log).1 i
        ≡ (if leb index i && ltb i (index + left) then cmos i % 256 else values i)
  unfolding cmos_loop
  cmos_loop-values zero index values log i h = ground arith
  cmos_loop-values (suc left) index values log i h =
      let (log', value) = inb dev 0x71 (outb 0x70 index log) in
      ground (
        arith,
        cmos_loop-values left (index + 1) (λ i. if i == index then value else values i) log' i
            (omega arith),
        read_register index log (omega arith),
      )

  cmos_dump-values :
      (register : ℕ) (log : Log)
      → register < 128
      → (cmos_dump dev log).1 register ≡ cmos register % 256
  unfolding cmos_dump
  cmos_dump-values register log h =
      ground (arith, cmos_loop-values 128 0 (λ i. 0) log register (omega arith))

  -- With a number in BCD in the register, the field is the number.
  pub get_field-bcd :
      (register n : ℕ) (log : Log)
      → register < 128
      → cmos register ≡ bcd n
      → n < 100
      → (get_field dev register log).1 ≡ n
  unfolding get_field
  get_field-bcd register n log h e b =
      rw (cmos_dump-values register log h, e, from_bcd-bcd n b) (omega arith)

  pub get_year-bcd :
      (n century : ℕ) (log : Log)
      → cmos 9 ≡ bcd n
      → cmos 50 ≡ bcd century
      → n < 100
      → century < 100
      → (get_year dev log).1 ≡ n + century * 100
  unfolding get_year
  get_year-bcd n century log e f b c =
      rw
        (
          cmos_dump-values 9 log (omega arith),
          cmos_dump-values 50 log (omega arith),
          e,
          f,
          from_bcd-bcd n b,
          from_bcd-bcd century c,
        )
        (omega arith)
