-- ===== src/Tests/Events.antt =====
-- Interrupts of the timer, the keyboard and the floppy controller while the keys A and Enter are typed.
use d.Base.{
  List, [], arith, false, refl, some, true, ℕ, ◌%◌, ◌++◌, ◌+◌, ◌^◌, ◌∷◌, ◌≡◌, if◌then◌else◌, Bool,
}
use d.Idt.{irq_handler, irq_install_handler}
use d.Kernel.Interrupts.Lines.{Interrupted-Line}
use d.Kernel.Interrupts.Runs.{
  Event, Interrupted, Interrupted-Refines, routines, tick, key, spare, ended, ticks, keys, spares,
}
use d.Kernel.Main.{System, init_keybd, install_timer, port_op}
use d.Time.{timer_handler}
use d.Keybd.{Keyboard, get_kbd, keyboard_handler, on_scancode, take_key, take_line}
use d.Keybd.Silent.{muted}
use d.Keybd.Typing.{IsTyping, Line, characters, typed}
use d.Ports.{Device, Log, inb, outb, was_read, wrote}
use d.Tests.Shells.{globals, idle, places, waiting}

abbrev has_read : Log → Bool
has_read [] = false
has_read (was_read p v ∷ log) = true
has_read (wrote p v ∷ log) = has_read log

-- A keyboard that gives the key A at the first read, and then the Enter key.
abbrev typist : Device
typist log port = if has_read log then 0x1C else 30

abbrev events : List Event
events = tick ∷ key 30 ∷ spare 6 ∷ tick ∷ key 0x1C ∷ []

abbrev behind : ℕ → System → System
behind n sys = irq_handler port_op (routines globals typist places) n sys

abbrev last : System
last = behind 33 (behind 32 (behind 38 (behind 33 (behind 32 waiting))))

first : (inb typist 0x60 (behind 32 waiting).keyboard.screen.log).1 ≡ 30
unfolding irq_handler irq_install_handler init_keybd install_timer timer_handler inb outb
first = refl

enter :
    (inb typist 0x60 (behind 32 (behind 38 (behind 33 (behind 32 waiting)))).keyboard.screen.log).1
    ≡ 0x1C
unfolding irq_handler irq_install_handler init_keybd install_timer timer_handler keyboard_handler
    on_scancode take_key inb outb d.Term.term_putchar d.Term.put_cursor d.Term.update_cursor
    d.Term.put_char d.Term.put_scroll d.Term.put_wrap d.Term.put_control d.Term.term_putentryat
enter = refl

run : Interrupted globals typist places events waiting last
run = ticks (keys first (spares (omega arith) (omega arith) (ticks (keys enter ended))))

Interrupted-Refines_example :
    (muted last.keyboard ≡ muted (typed 100 (30 ∷ 0x1C ∷ []) waiting.keyboard))
    × (last.uptime ≡ (0 + 2) % 2 ^ 32)
    × (last ≡ record waiting { keyboard = last.keyboard; uptime = last.uptime })
Interrupted-Refines_example =
    Interrupted-Refines globals typist places events waiting last (omega arith) run

typing : IsTyping 100 waiting.keyboard
typing = record { on = idle.quiet.on; off = idle.quiet.kb_off; unshifted = refl }

Interrupted-Line_example :
    (k : Keyboard) × (get_kbd 100 400 ((30 ∷ []) ++ (0x1C ∷ [])) waiting.keyboard
      ≡ some (take_line 100 400 k, []))
    × Line 100 waiting.keyboard (characters (30 ∷ [])) k
    × (muted last.keyboard ≡ muted k)
    × (last.uptime ≡ (0 + 2) % 2 ^ 32)
    × (last ≡ record waiting { keyboard = last.keyboard; uptime = last.uptime })
Interrupted-Line_example =
    Interrupted-Line globals typist places events (30 ∷ []) [] waiting last
      ((omega arith, omega arith, omega arith), tt) typing refl (omega arith) (omega arith) refl run
