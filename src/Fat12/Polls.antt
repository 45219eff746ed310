-- ===== src/Fat12/Polls.antt =====
-- The polls of the status register in front of a command byte.
use d.Base.{arith, false, suc, true, zero, ℕ, ◌<◌, ◌≡◌}
use d.Memory.{Mem}
use d.Ports.{Device, Log, inb, outb}
use d.Fat12.{Fdc, flpydsk_send_command, is_ready, port_fifo, port_msr, send_loop}

module _ (dev : Device) (garbage : Log → ℕ) (flag_at : ℕ) (interrupts : Log → Mem → Log × Mem) where
  -- The log after `n` reads of the status register.
  abbrev polled : ℕ → Log → Log
  polled zero log = log
  polled (suc n) log = polled n (inb dev port_msr log).0

  -- The `n` first reads do not show the controller ready, and the next one does.
  abbrev ReadyAfter : ℕ → Log → Type 0
  ReadyAfter zero log = is_ready dev garbage flag_at interrupts (inb dev port_msr log).1 ≡ true
  ReadyAfter (suc n) log =
      (is_ready dev garbage flag_at interrupts (inb dev port_msr log).1 ≡ false)
      × ReadyAfter n (inb dev port_msr log).0

  send_loop-ReadyAfter :
      (left n cmd : ℕ) (s : Fdc)
      → n < left
      → ReadyAfter n s.log
      → (send_loop dev garbage flag_at interrupts left cmd s).log
        ≡ outb port_fifo cmd (polled (suc n) s.log)
  unfolding send_loop
  send_loop-ReadyAfter zero n cmd s h r = absurd (omega arith)
  send_loop-ReadyAfter (suc left) zero cmd s h r = rw r
  send_loop-ReadyAfter (suc left) (suc n) cmd s h (no_yet, r) = rw no_yet (
      send_loop-ReadyAfter left n cmd (record s { log = (inb dev port_msr s.log).0 }) (omega arith)
        r)

  -- When the controller becomes ready within 500 polls, `flpydsk_send_command` polls until then and
  -- writes the command once, to the data register.
  pub flpydsk_send_command-ReadyAfter :
      (n cmd : ℕ) (s : Fdc)
      → n < 500
      → ReadyAfter n s.log
      → (flpydsk_send_command dev garbage flag_at interrupts cmd s).log
        ≡ outb port_fifo cmd (polled (suc n) s.log)
  unfolding flpydsk_send_command
  flpydsk_send_command-ReadyAfter n cmd s h r = send_loop-ReadyAfter 500 n cmd s h r
