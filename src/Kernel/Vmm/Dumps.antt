-- ===== src/Kernel/Vmm/Dumps.antt =====
-- The dumps of a machine, as changes of the terminal and of memory.
use d.Base.{arith, done, inl, inr, refl, ℕ, ◌*◌, ◌+◌, ◌<◌, ◌>>=◌, ◌∙◌, ◌≡◌, ◌≤◌}
use d.Kernel.{Globals}
use d.Kernel.Show.{mem_dump, vm_dump_registers}
use d.Kernel.Show.Dump.{mem_dump-Prints}
use d.Kernel.Show.Prints.{IsKept, IsKept-trans, Prints-IsKept}
use d.Kernel.Show.Registers.{vm_dump_registers-AreShown}
use d.Kernel.Vmm.{dump_machine}
use d.Memory.{Mem, load8}
use d.Memory.Laws.{Apart}
use d.Memory.Words.{half-same, word-same}
use d.Mm.Pages.{address_at}
use d.Term.{Screen}
use d.Vm.{bp_at, flags_at, heap_at, ip_at, regs_at, sizeof_vm, sp_at}
use d.Vm.Ops.{sizeof_ins}
use d.Vm.Programs.Layout.{IsLaid, Spared}
use d.Vm.Programs.Rounds.{fetched}
use d.Kernel.Vmm.Hosts.{IsAtIp, IsHigh, IsHigh-IsRegister, IsHost, IsHost-IsKept, Spared-IsKept}

module _ (g : Globals) (vm page heap n : ℕ) (laid : IsLaid vm page heap n) where
  pub IsAtIp-same :
      (m m' : Mem) (k : ℕ)
      → ((a : ℕ) → Spared vm page heap n a → load8 m' a ≡ load8 m a)
      → IsAtIp vm page heap n m k
      → IsAtIp vm page heap n m' k
  IsAtIp-same m m' k same at = record {
    page_is =
        word-same m m' (heap_at vm) (λ a lo hi. same a (inl (omega arith, omega arith)))
        ∙ at.page_is;
    heap_is =
        word-same m m' (address_at page) (λ a lo hi. same a (inr (inl (omega arith, omega arith))))
        ∙ at.heap_is;
    ip_is =
        half-same m m' (ip_at vm) (λ a lo hi. same a (inl (omega arith, omega arith))) ∙ at.ip_is;
    few = at.few;
  }

  pub IsHigh-same :
      (m m' : Mem)
      → ((a : ℕ) → vm ≤ a → a < vm + sizeof_vm → Apart (ip_at vm) 2 a 1 → load8 m' a ≡ load8 m a)
      → IsHigh vm m
      → IsHigh vm m'
  IsHigh-same m m' same h =
      let own : (a : ℕ)
          → vm ≤ a
          → a < vm + sizeof_vm
          → Apart (ip_at vm) 2 a 1
          → load8 m a < 128
          → load8 m' a < 128 =
        λ a lo hi off small. omega (arith, same a lo hi off, small) in
      record {
        r0 = own (regs_at vm + 1) (omega arith) (omega arith) (omega arith) h.r0;
        r1 = own (regs_at vm + 2 + 1) (omega arith) (omega arith) (omega arith) h.r1;
        r2 = own (regs_at vm + 4 + 1) (omega arith) (omega arith) (omega arith) h.r2;
        r3 = own (regs_at vm + 6 + 1) (omega arith) (omega arith) (omega arith) h.r3;
        sp = own (sp_at vm + 1) (omega arith) (omega arith) (omega arith) h.sp;
        bp = own (bp_at vm + 1) (omega arith) (omega arith) (omega arith) h.bp;
        flags = own (flags_at vm) (omega arith) (omega arith) (omega arith) h.flags;
      }

  -- The dump of memory and registers returns, and keeps all but the screen and the number buffer.
  pub dump_machine-IsKept :
      (s : Screen) (k : ℕ)
      → IsHost g vm page heap n s
      → IsHigh vm s.mem
      → IsAtIp vm page heap n s.mem k
      → (t : Screen) × (dump_machine g vm s ≡ done t) × IsKept g.itoa_buf s t
  unfolding dump_machine
  dump_machine-IsKept s k h high at =
      let few = at.few in
      let low = h.low in
      let off = h.program_off in
      let apart = h.program_apart in
      let here =
        fetched vm page heap n laid s.mem k at.few (omega arith) at.page_is at.heap_is at.ip_is in
      let both : dump_machine g vm s
          ≡ (mem_dump g (heap + k * sizeof_ins) 32 s >>= λ t. vm_dump_registers g vm t) =
        rw here refl in
      let (t, number, bytes, run, is, dump, prints) =
        mem_dump-Prints g (heap + k * sizeof_ins) 32 s h.printer (omega arith) (omega arith)
          (omega arith) in
      let kept = Prints-IsKept g.itoa_buf s t _ h.printer.on prints in
      let spared = λ (a : ℕ) (b : Spared vm page heap n a).
        Spared-IsKept g vm page heap n laid s t a kept h b in
      let h' = IsHost-IsKept g vm page heap n laid s t kept h in
      let ip = (IsAtIp-same s.mem t.mem k spared at).ip_is in
      let high' = IsHigh-same s.mem t.mem (λ a lo hi off. spared a (inl (lo, hi))) high in
      let (u, xs, digits, run', shown, numeral, prints', p', kept') =
        vm_dump_registers-AreShown g vm t h'.printer h'.machine
          (IsHigh-IsRegister g vm t.mem high' (omega (arith, ip, laid))) high'.flags in
      (u, both ∙ rw run run', IsKept-trans g.itoa_buf s t u kept kept')
