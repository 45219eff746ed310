-- ===== src/Kernel/Main.antt =====
-- `cmain` of kernel.c: the boot, and the rounds of the command loop.
use d.Base.{
  List, Run, String, codes, done, false, faults, if◌then◌else◌, none, some, spins, suc, zero, ℕ,
  ◌==◌, ◌>>=◌,
}
use d.Gdt.{Gdt, GdtPtr, init_gdt}
use d.Idt.{Idt, IdtPtr, Routines, init_idt, irq_install_handler}
use d.Kernel.{Globals, write_number, write_string}
use d.Keybd.{Keyboard, get_kbd, keyboard_handler}
use d.Memory.{Mem}
use d.Mm.Copy.{mem_set}
use d.Mm.Init.{Heap, init_mm}
use d.Ports.{Device, Log}
use d.Str.{strcmp}
use d.Term.{color_light_grey, color_black, Screen, term_init, write_text}
use d.Time.{get_time, init_timer, timer_handler}

-- The kernel's state: `tty0` and the keyboard's variables, the tables, the heap, `uptime` and `t_hz`.
pub record System : Type 0 where
  pub keyboard : Keyboard
  pub gp : GdtPtr
  pub gdt : Gdt
  pub idtp : IdtPtr
  pub idt : Idt
  pub heap : Heap
  pub uptime : ℕ
  pub t_hz : ℕ

-- Where the linker and the boot loader put what `cmain` and the handlers use; `isr` and `irq` are the
-- interrupt stubs, and `mbd` is the argument of `cmain`.
pub record Places : Type 0 where
  pub gdt_at : ℕ
  pub idt_at : ℕ
  pub isr : ℕ → ℕ
  pub irq : ℕ → ℕ
  pub mbd : ℕ
  pub mmap_var : ℕ
  pub kb_buffer : ℕ
  pub buffer : ℕ
  pub test_text : ℕ

-- A port operation of an interrupt goes to the log that the terminal's state carries.
abbrev pub port_op : (Log → Log) → System → System
port_op f sys =
    let screen = sys.keyboard.screen in
    record sys { keyboard = record sys.keyboard { screen = record screen { log = f screen.log } } }

abbrev pub say : String → Screen → Screen
say text s = write_text (codes text) s

module _ (g : Globals) (dev : Device) (places : Places) where
  -- `init_keybd`.
  unfoldable pub init_keybd : Routines port_op → Routines port_op
  init_keybd routines =
      irq_install_handler port_op routines 1
        λ sys. record sys { keyboard = keyboard_handler dev places.kb_buffer sys.keyboard }

  -- The handler that `init_timer` installs.
  unfoldable pub install_timer : Routines port_op → Routines port_op
  install_timer routines =
      irq_install_handler port_op routines 0 λ sys. record sys { uptime = timer_handler sys.uptime }

  -- `cmain` up to its loop, from memory and the tables as they are at the start.
  unfoldable pub boot : Mem → Gdt → Routines port_op → Log → Run (System × Routines port_op)
  unfolding init_keybd install_timer
  boot m gdt₀ routines log = do
    let s₁ =
        say "d3 Kernel Booting...\n\n" (term_init 80 25 color_light_grey color_black 0xB8000 m log)
    let tables = init_gdt places.gdt_at gdt₀
    let s₂ = say "Initializing IDT/ISRs..." (say "[OK]\n" (say "Initializing GDT..." s₁))
    let vectors = init_idt places.idt_at places.isr places.irq s₂.log
    let s₃ = say "[OK]\n" (record s₂ { log = vectors.2 })
    let s₄ = say "Initializing memory manager..." s₃
    r ← init_mm g places.mbd places.mmap_var s₄.mem
    let s₅ = say "[OK]\n" (record s₄ { mem = r.0 })
    let timer = init_timer s₅.log
    let clock = get_time dev timer.2
    s₆ ← elim clock.1 [
      | none ↦ faults
      | some time ↦ write_number g time 10 (record s₅ { log = clock.0 })
    ]
    let keyboard : Keyboard = record {
      screen = s₆;
      kb_i = 0;
      kb_shifted = false;
      kb_buffer_pending = false;
    }
    let sys : System = record {
      keyboard = keyboard;
      gp = tables.0;
      gdt = tables.1;
      idtp = vectors.0;
      idt = vectors.1;
      heap = r.1;
      uptime = timer.0;
      t_hz = timer.1;
    }
    done (sys, install_timer (init_keybd routines))

  -- What the loop answers to the line in `buffer`.
  unfoldable pub reply : Screen → Run Screen
  unfolding write_string
  reply s = elim (strcmp g.fuel s.mem places.buffer places.test_text) [
    | none ↦ spins
    | some r ↦ if r == 0 then write_string g.fuel places.buffer s else done (say "AYYYYYY\n" s)
  ]

  unfoldable pub clear_buffer : Screen → Screen
  clear_buffer s = record s { mem = mem_set s.mem places.buffer 0 256 }

  -- One round of the loop, on the scancodes that arrive; with those that are left. With too few of them
  -- `get_kbd` still waits.
  unfoldable pub shell_round : List ℕ → System → Run (System × List ℕ)
  unfolding reply clear_buffer
  shell_round scancodes sys =
      let prompted = record sys.keyboard { screen = say "\n>>>" sys.keyboard.screen } in
      elim (get_kbd places.kb_buffer places.buffer scancodes prompted) [
        | none ↦ spins
        | some (k, rest) ↦ reply k.screen >>= λ s.
            done (record sys { keyboard = record k { screen = clear_buffer s } }, rest)
      ]

  -- The first `rounds` rounds of the loop.
  unfoldable pub shell : (rounds : ℕ) → List ℕ → System → Run (System × List ℕ)
  unfolding shell_round
  shell zero scancodes sys = done (sys, scancodes)
  shell (suc rounds) scancodes sys = shell_round scancodes sys >>= λ r. shell rounds r.1 r.0

  -- The whole of it, up to the end of a number of rounds, on the scancodes that arrive.
  unfoldable pub cmain :
      (rounds : ℕ) (scancodes : List ℕ) → Mem → Gdt → Routines port_op → Log → Run (System × List ℕ)
  unfolding boot shell
  cmain rounds scancodes m gdt₀ routines log =
      boot m gdt₀ routines log >>= λ r. shell rounds scancodes r.0
