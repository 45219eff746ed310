-- ===== src/Idt/Dispatch.antt =====
-- From an installed handler to the end-of-interrupt commands.
use d.Base.{arith, false, if◌then◌else◌, leb, true, ℕ, ◌%◌, ◌+◌, ◌-◌, ◌<◌, ◌==◌, ◌^◌, ◌≡◌, ◌≢◌}
use d.Ports.{Log, outb}
use d.Idt.{Routines, irq_handler, irq_install_handler}

module _ {S : Type 0} (on_log : (Log → Log) → S → S) where
  -- When `handler` is installed for the line `irq`, below 16, the interrupt of vector 32 + `irq` runs
  -- that handler; then the second controller is acknowledged for the lines from 8 on, and the first
  -- one for every line. The interrupt of another line does what it did before.
  pub irq_handler-install :
      (routines : Routines on_log) (irq other : ℕ) (handler : S → S) (s : S)
      → irq < 16
      → other < 16
      → let routines' = irq_install_handler on_log routines irq handler in
        (irq_handler on_log routines' (32 + irq) s
          ≡ on_log
              (outb 0x20 0x20)
              (if leb 8 irq then on_log (outb 0xA0 0x20) (handler s) else handler s))
        × (other ≢ irq
            → irq_handler on_log routines' (32 + other) s
              ≡ irq_handler on_log routines (32 + other) s)
  unfolding irq_handler irq_install_handler
  irq_handler-install routines irq other handler s h k =
      let line : (32 + irq + 2 ^ 32 - 32) % 2 ^ 32 ≡ irq = omega arith in
      let line' : (32 + other + 2 ^ 32 - 32) % 2 ^ 32 ≡ other = omega arith in
      let hit : (irq == irq) ≡ true = ground arith in
      let second : leb 40 (32 + irq) ≡ leb 8 irq = ground arith in
      (
        rw (line, hit, second),
        λ o. let miss : (other == irq) ≡ false = ground arith in rw (line', miss),
      )
