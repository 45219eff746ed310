-- ===== src/Tests/Floppies.antt =====
-- The floppy driver in the kernel as it is linked.
use d.Base.{[], arith, done, if◌then◌else◌, refl, spins, ℕ, List, map, ◌+◌, ◌/◌, ◌==◌, ◌≡◌, ◌≢◌}
use d.Fat12.{Fdc, flpydsk_wait_irq, port_msr}
use d.Fat12.Digits.{wait_irq-itoa}
use d.Fat12.Drive.{flpydsk_reset, flpydsk_seek}
use d.Fat12.Seek.{flpydsk_seek-once, reported}
use d.Fat12.Waits.{LeaveFlag, flpydsk_reset-never}
use d.Memory.{Mem, load8, store8}
use d.Memory.Laws.{Apart, load8-store8_ne}
use d.Ports.{Device, Log, outb}
use d.Str.{itoa}
use d.Str.Numerals.{IsBelow, digit_char, value}
use d.Str.Texts.{IsText}
use d.Tests.Boot.{globals}
use d.Tests.Data.{empty}
use d.Tests.Kernels.{hex, start}

-- A controller that is always ready.
abbrev ready : Device
ready log port = 0x80

abbrev no_garbage : Log → ℕ
no_garbage log = 0

-- Interrupts of the keyboard, whose handler stores a key and acknowledges.
abbrev keys : Log → Mem → Log × Mem
keys log m = (outb 0x20 0x20 log, store8 m 0x108de0 30)

-- `_FloppyDiskIRQ` is where the linker puts it, and set.
abbrev fdc : Fdc
fdc = record { mem = store8 empty 0x108f20 1; drive = 0; log = [] }

keys-LeaveFlag : LeaveFlag 0x108f20 keys
keys-LeaveFlag log m = load8-store8_ne m 0x108de0 30 0x108f20 (omega arith)

flpydsk_reset-never_example : flpydsk_reset ready no_garbage 0x108f20 keys 1000 fdc ≢ done (fdc, 0)
flpydsk_reset-never_example =
    flpydsk_reset-never ready no_garbage 0x108f20 keys 1000 fdc (fdc, 0) keys-LeaveFlag
      (omega arith)

-- A controller that is always ready and reports the cylinder 3.
abbrev third : Device
third log port = if port == port_msr then 128 else 3

flpydsk_seek-once_example :
    let (t, cyl0) = reported third no_garbage 0x108f20 keys 3 1 fdc in
    (load8 fdc.mem 0x108f20 ≡ 0 → flpydsk_seek third no_garbage 0x108f20 keys 2 3 1 fdc ≡ spins)
    × (load8 fdc.mem 0x108f20 ≢ 0
        → flpydsk_seek third no_garbage 0x108f20 keys 2 3 1 fdc
          ≡ (if cyl0 == 3 then done (t, 0) else spins))
flpydsk_seek-once_example =
    flpydsk_seek-once third no_garbage 0x108f20 keys 2 3 1 fdc keys-LeaveFlag (omega arith)
      (omega arith)

literal_apart : Apart globals.itoa_buf 65 globals.digits_text 16
literal_apart = omega arith

-- 1234 in base 10, in the kernel as it is linked.
wait_irq-itoa_example :
    let (m, p) = itoa globals.itoa_buf globals.zero_text globals.digits_text start 1234 10 in
    let m' = store8 m (globals.itoa_buf + 64) 0 in
    (flpydsk_wait_irq ready no_garbage
        (globals.itoa_buf + 64)
        keys
        1
        (record { mem = m; drive = 0; log = [] })
      ≡ done (record { mem = m'; drive = 0; log = [] }))
    × (ds : List ℕ) × IsText m' p (map digit_char ds)
    × IsBelow 10 ds
    × (value 10 ds ≡ 1234 / 10)
unfolding load8
wait_irq-itoa_example =
    wait_irq-itoa ready no_garbage keys globals.itoa_buf globals.zero_text globals.digits_text
      literal_apart 1 1234 10 (record { mem = start; drive = 0; log = [] }) (omega arith)
      (omega arith) (omega arith) (omega arith) (omega arith) hex refl
