-- ===== src/Kernel/Boot/Welcome.antt =====
-- The screen while `cmain` starts the kernel, up to the memory manager.
use d.Base.{codes}
use d.Idt.{init_idt}
use d.Kernel.Boot.{IsUp, log-IsUp, term_init-IsUp, write_text-IsUp}
use d.Kernel.Main.{Places, say}
use d.Memory.{Mem}
use d.Ports.{Log}
use d.Term.{Screen, term_init}

module _ (places : Places) (m : Mem) where
  -- The screen up to the call of `init_idt`, and up to that of `init_mm`.
  unfoldable pub greeted : Log → Screen
  greeted log =
      let s₁ = say "d3 Kernel Booting...\n\n" (term_init 80 25 7 0 0xB8000 m log) in
      say "Initializing IDT/ISRs..." (say "[OK]\n" (say "Initializing GDT..." s₁))

  unfoldable pub welcome : Log → Screen
  unfolding greeted
  welcome log =
      let s₂ = greeted log in
      let vectors = init_idt places.idt_at places.isr places.irq s₂.log in
      say "Initializing memory manager..." (say "[OK]\n" (record s₂ { log = vectors.2 }))

  pub welcome-IsUp : (log : Log) → IsUp m (welcome log)
  unfolding welcome greeted
  welcome-IsUp log =
      let u₁ = write_text-IsUp (codes "d3 Kernel Booting...\n\n") m _ (term_init-IsUp m log) in
      let u₂ = write_text-IsUp (codes "Initializing GDT...") m _ u₁ in
      let u₃ = write_text-IsUp (codes "[OK]\n") m _ u₂ in
      let u₄ = write_text-IsUp (codes "Initializing IDT/ISRs...") m _ u₃ in
      let u₅ = write_text-IsUp (codes "[OK]\n") m _ (log-IsUp m _ _ u₄) in
      write_text-IsUp (codes "Initializing memory manager...") m _ u₅
