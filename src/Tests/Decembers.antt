-- ===== src/Tests/Decembers.antt =====
-- The start of the kernel in December, on the machine of Tests/Kernels.
use d.Base.{[], arith, refl, get_or, faults, ℕ, ◌∷◌, ◌≡◌}
use d.Kernel.Boot.December.{cmain-December}
use d.Kernel.Main.{cmain}
use d.Time.Clock.{Date, IsDate, Shows}
use d.Time.Cmos.{HoldsRegisters}
use d.Ports.{Device, was_read, wrote}
use d.Tests.Devices.{entries}
use d.Tests.Boot.{globals, separate}
use d.Tests.Kernels.{loaded, no_routines, places, start}
use d.Tests.Shells.{test_keys}

-- 24 December 2014, 10:20:30.
abbrev eve : Date
eve = record { year = 2014; month = 12; day = 24; hours = 10; minutes = 20; seconds = 30 }

abbrev eve_registers : ℕ → ℕ
eve_registers index =
    get_or (0x30 ∷ 0 ∷ 0x20 ∷ 0 ∷ 0x10 ∷ 0 ∷ 0 ∷ 0x24 ∷ 0x12 ∷ 0x14 ∷ []) index 0x20

eve_clock : Device
eve_clock [] port = 0
eve_clock (was_read p v ∷ log) port = 0
eve_clock (wrote p v ∷ log) port = eve_registers v

eve-IsDate : IsDate eve
eve-IsDate = record {
  year_from = omega arith;
  year_to = omega arith;
  month_from = omega arith;
  month_to = omega arith;
  day_to = omega arith;
  hours_to = omega arith;
  minutes_to = omega arith;
  seconds_to = omega arith;
}

eve-Shows : Shows eve_registers eve
eve-Shows = record {
  seconds_at = refl;
  minutes_at = refl;
  hours_at = refl;
  day_at = refl;
  month_at = refl;
  year_at = refl;
  century_at = refl;
}

eve_clock-HoldsRegisters : HoldsRegisters eve_clock eve_registers
unfolding eve_clock
eve_clock-HoldsRegisters log index h = refl

cmain-December_example :
    cmain globals eve_clock places 2 test_keys start entries no_routines [] ≡ faults
cmain-December_example =
    cmain-December globals eve_clock places 0x10040 0x10070 separate (omega arith) start
      (0x10040 ∷ 0x10058 ∷ []) [] 0x10040 1048576 0x7ee0000 loaded eve_registers eve
      eve_clock-HoldsRegisters eve-IsDate eve-Shows refl 2 test_keys entries no_routines []
