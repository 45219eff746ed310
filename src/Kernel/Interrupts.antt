-- ===== src/Kernel/Interrupts.antt =====
-- The interrupts of the timer and the keyboard, with the routines that `cmain` installs.
pub mod Runs
pub mod Lines
use d.Base.{arith, ℕ, ◌%◌, ◌+◌, ◌<◌, ◌^◌, ◌∙◌, ◌≡◌, ◌≢◌}
use d.Idt.{Routines, irq_handler}
use d.Idt.Dispatch.{irq_handler-install}
use d.Kernel.{Globals}
use d.Kernel.Main.{Places, System, init_keybd, install_timer, port_op}
use d.Time.{timer_handler}
use d.Keybd.{keyboard_handler, on_scancode}
use d.Ports.{Device, inb, outb}

module _ (g : Globals) (dev : Device) (places : Places) where
  abbrev pub installed : Routines port_op → Routines port_op
  installed routines = install_timer g dev places (init_keybd g dev places routines)

  -- Acknowledges a line of the first controller.
  abbrev pub acknowledged : System → System
  acknowledged sys = port_op (outb 0x20 0x20) sys

  -- The scancode that the keyboard's port gives, and the state behind its handling.
  abbrev pub key_taken : System → System
  key_taken sys =
      let k = sys.keyboard in
      let (log', scancode) = inb dev 0x60 k.screen.log in
      record sys {
        keyboard =
            on_scancode places.kb_buffer scancode
              (record k { screen = record k.screen { log = log' } });
      }

  -- With the routines that `cmain` installs over any others, the interrupt 32 counts `uptime` up by one
  -- and wraps it around, and the interrupt 33 takes the scancode of port 0x60; both change nothing else
  -- but acknowledge the first controller. The interrupt of another line below 16 does what it did before.
  pub irq_handler-installed :
      (routines : Routines port_op) (line : ℕ) (sys : System)
      → line < 16
      → line ≢ 0
      → line ≢ 1
      → (irq_handler port_op (installed routines) 32 sys
          ≡ acknowledged (record sys { uptime = (sys.uptime + 1) % 2 ^ 32 }))
        × (irq_handler port_op (installed routines) 33 sys ≡ acknowledged (key_taken sys))
        × (irq_handler port_op (installed routines) (32 + line) sys
            ≡ irq_handler port_op routines (32 + line) sys)
  unfolding install_timer init_keybd timer_handler keyboard_handler
  irq_handler-installed routines line sys small no_timer no_keyboard =
      let keys : Routines port_op = init_keybd g dev places routines in
      let tick = λ (s : System). record s { uptime = timer_handler s.uptime } in
      let key =
        λ (s : System). record s { keyboard = keyboard_handler dev places.kb_buffer s.keyboard } in
      let timer = irq_handler-install port_op keys 0 1 tick sys (omega arith) (omega arith) in
      let timer' = irq_handler-install port_op keys 0 line tick sys (omega arith) small in
      let keyboard = irq_handler-install port_op routines 1 line key sys (omega arith) small in
      (timer.0, timer.1 (omega arith) ∙ keyboard.0, timer'.1 no_timer ∙ keyboard.1 no_keyboard)
