-- ===== src/Kernel/Boot/December.antt =====
-- The start of the kernel in December.
use d.Base.{List, arith, faults, none, refl, true, ℕ, ◌<◌, ◌==◌, ◌^◌, ◌∙◌, ◌≡◌}
use d.Gdt.{Gdt}
use d.Idt.{Routines}
use d.Kernel.{Globals}
use d.Kernel.Boot.Memory.{IsLoaded, init_mm-IsUp}
use d.Kernel.Boot.Welcome.{greeted, welcome, welcome-IsUp}
use d.Kernel.Main.{Places, boot, cmain, port_op, say}
use d.Memory.{Mem}
use d.Mm.Init.Map.{IsSeparate}
use d.Ports.{Device, Log}
use d.Time.{get_time, init_timer}
use d.Time.Clock.{Date, IsDate, Shows, get_time-Date}
use d.Time.Cmos.{HoldsRegisters}

module _ (g : Globals) (dev : Device) (places : Places) (base end : ℕ)
    (sep : IsSeparate g places.mbd places.mmap_var base end) (fits : end < 2 ^ 32) (m : Mem)
    (es ys : List ℕ) (e bottom len : ℕ)
    (loaded : IsLoaded g places.mbd places.mmap_var base end sep fits m es ys e bottom len)
    (cmos : ℕ → ℕ) (d : Date) (holds : HoldsRegisters dev cmos) (is : IsDate d)
    (shows : Shows cmos d) (december : d.month ≡ 12) where
  boot-December :
      (gdt₀ : Gdt) (routines : Routines port_op) (log : Log)
      → boot g dev places m gdt₀ routines log ≡ faults
  unfolding boot welcome greeted
  boot-December gdt₀ routines log =
      let s₄ = welcome places m log in
      let (m₁, run, spares) =
        init_mm-IsUp g places.mbd places.mmap_var base end sep fits m es ys e bottom len loaded s₄
          (welcome-IsUp places m log) in
      let s₅ = say "[OK]\n" (record s₄ { mem = m₁ }) in
      let last : (d.month == 12) ≡ true = ground arith in
      let none_read : (get_time dev (init_timer s₅.log).2).1 ≡ none =
        get_time-Date dev cmos d (init_timer s₅.log).2 holds is shows ∙ rw last refl in
      rw run (rw none_read refl)

  -- Let the boot loader hand over a map as for a start that succeeds, and let the clock show a date of
  -- December in 2000 to 2067. Then `cmain` reads `days_in_month` behind its end before it comes to its loop,
  -- whatever the rest of memory holds and however many keys arrive.
  pub cmain-December :
      (rounds : ℕ) (scancodes : List ℕ) (gdt₀ : Gdt) (routines : Routines port_op) (log : Log)
      → cmain g dev places rounds scancodes m gdt₀ routines log ≡ faults
  unfolding cmain
  cmain-December rounds scancodes gdt₀ routines log = rw (boot-December gdt₀ routines log) refl
