-- ===== src/Vm/Programs/Whole.antt =====
-- The run of a program.
use d.Base.{
  List, [], arith, done, length, suc, zero, ℕ, ◌*◌, ◌+◌, ◌<◌, ◌∙◌, ◌∷◌, ◌≡◌, ◌≤◌, inl, ◌^◌, ◌%◌,
}
use mathlib.Core.Path.{subst}
use d.Memory.{Mem, load8, load16, load32, store16, store32}
use d.Memory.Laws.{
  Apart, load8-store16_ne, load8-store32_ne, load32-store32_ne, load32-store32_self,
}
use d.Mm.Pages.{address_at}
use d.Vm.{flags_at, heap_at, ip_at, regs_at, status_at, vm_done, vm_ready, vm_running}
use d.Vm.Halting.{Spares, done_status, halted, halted_ip, kept_ip, loop_halts, spared32, started}
use d.Vm.Ops.{run_loop, sizeof_ins, vm_run}
use d.Vm.Programs.{Ins, IsAt, Registers, execute, execute_all}
use d.Vm.Programs.Layout.{IsLaid, IsProgram-same, Spared}
use d.Vm.Programs.Rounds.{fetched, round-IsAt}

-- The machine is done behind `n` instructions, with these registers and flags.
pub record IsDone (vm : ℕ) (m : Mem) (n : ℕ) (s : Registers) : Type 0 where
  pub status_is : load32 m (status_at vm) ≡ vm_done
  pub ip_is : load16 m (ip_at vm) ≡ n * sizeof_ins
  pub regs_are : (r : ℕ) → r < 4 → load8 m (regs_at vm + 2 * r) ≡ s.regs r
  pub flags_are : load8 m (flags_at vm) ≡ s.flags

module _ (vm page heap n : ℕ) (laid : IsLaid vm page heap n) (dump : Mem → Mem)
    (spares : (m : Mem) (a : ℕ) → Spared vm page heap n a → load8 (dump m) a ≡ load8 m a) where
  own : Spares dump vm
  own m a lo hi = spares m a (inl (lo, hi))

  halted-IsDone :
      (m : Mem) (k : ℕ) (s : Registers)
      → k + 1 ≤ n
      → IsAt vm page heap m k [] s
      → IsDone vm (halted dump vm own m) (k + 1) s
  halted-IsDone m k s room at =
      let m₁ = store32 m (status_at vm) vm_done in
      let next = (load16 (dump m₁) (ip_at vm) + 10) % 2 ^ 16 in
      let m₃ = store16 (dump m₁) (ip_at vm) next in
      let byte : (a : ℕ)
          → vm + 12 ≤ a
          → a < vm + 32
          → Apart (ip_at vm) 2 a 1
          → load8 (dump m₃) a ≡ load8 m a =
        λ a lo hi off.
          own m₃ a (omega arith) (omega arith)
          ∙ load8-store16_ne (dump m₁) (ip_at vm) next a (omega arith)
          ∙ own m₁ a (omega arith) (omega arith)
          ∙ load8-store32_ne m (status_at vm) vm_done a (omega arith) in
      record {
        status_is = spared32 dump vm own m₃ ∙ done_status dump vm own m;
        ip_is = omega (arith, halted_ip dump vm own m, at.ip_is, laid);
        regs_are = λ r l.
            byte (regs_at vm + 2 * r) (omega arith) (omega arith) (omega arith) ∙ at.regs_are r l;
        flags_are = byte (flags_at vm) (omega arith) (omega arith) (omega arith) ∙ at.flags_are;
      }

  loop-IsDone :
      (rest : List Ins) (fuel : ℕ) (m : Mem) (k : ℕ) (s : Registers)
      → k + length rest + 1 ≤ n
      → length rest + 2 ≤ fuel
      → load32 m (status_at vm) ≡ vm_running
      → IsAt vm page heap m k rest s
      → (m' : Mem) × (run_loop fuel dump m vm ≡ done m')
        × IsDone vm m' (k + length rest + 1) (execute_all rest s)
  unfolding run_loop
  loop-IsDone rest zero m k s room enough running at = absurd (omega arith)
  loop-IsDone rest (suc zero) m k s room enough running at = absurd (omega arith)
  loop-IsDone [] (suc (suc fuel)) m k s room enough running at =
      let here =
        fetched vm page heap n laid m k (omega arith) (omega (arith, laid)) at.page_is at.heap_is
          at.ip_is in
      let none_left : k + 1 ≡ k + 0 + 1 = omega arith in
      (
        halted dump vm own m,
        loop_halts dump vm own fuel m running (rw here at.program),
        subst (λ x. IsDone vm (halted dump vm own m) x s) none_left
            (halted-IsDone m k s (omega arith) at),
      )
  loop-IsDone (i ∷ rest) (suc (suc fuel)) m k s room enough running at =
      let (m₁, run, at', status) =
        round-IsAt vm page heap n laid dump m k i rest s spares (omega arith) at in
      let (m', after, is) =
        loop-IsDone rest (suc fuel) _ (k + 1) (execute i s) (omega arith) (omega arith)
          (status ∙ running) at' in
      let left : k + 1 + length rest + 1 ≡ k + length (i ∷ rest) + 1 = omega arith in
      (
        m',
        rw (running, run_loop) (rw (run, run_loop) after),
        subst (λ x. IsDone vm m' x (execute_all rest (execute i s))) left is,
      )

  pub started-IsAt :
      (m : Mem) (is : List Ins) (s : Registers)
      → length is + 1 ≤ n
      → IsAt vm page heap m 0 is s
      → IsAt vm page heap (started m vm) 0 is s
  started-IsAt m is s room at =
      let byte : (a : ℕ) → Apart (status_at vm) 4 a 1 → load8 (started m vm) a ≡ load8 m a =
        λ a off. load8-store32_ne m (status_at vm) vm_running a off in
      record {
        page_is =
            load32-store32_ne m (status_at vm) vm_running (heap_at vm) (omega arith) ∙ at.page_is;
        heap_is =
            load32-store32_ne m (status_at vm) vm_running (address_at page) (omega (arith, laid))
            ∙ at.heap_is;
        ip_is = kept_ip dump vm own m vm_running ∙ at.ip_is;
        program =
            IsProgram-same m (started m vm) (heap + 0 * sizeof_ins) is
              (λ a lo hi. byte a (omega (arith, laid))) at.program;
        regs_are = λ r l. byte (regs_at vm + 2 * r) (omega arith) ∙ at.regs_are r l;
        flags_are = byte (flags_at vm) (omega arith) ∙ at.flags_are;
      }

  -- Let a program of `mov` to general registers and of `cmp`, each with numbers and general registers, and of
  -- a `hlt` behind them stand at the start of a ready machine's heap, within 2 ^ 15 bytes, with `ip` at 0; let the
  -- page's record and the program lie apart from the machine, the machine and the program below the end of memory,
  -- and let the dumps change none of the bytes of these three. With fuel for each instruction and one more,
  -- `vm_run` returns: the status is DONE, `ip` is behind the `hlt`, and the general registers, by their low bytes,
  -- and the flags are what the program makes of those before.
  pub vm_run-program :
      (fuel : ℕ) (m : Mem) (is : List Ins) (s : Registers)
      → load32 m (status_at vm) ≡ vm_ready
      → length is + 1 ≤ n
      → length is + 2 ≤ fuel
      → IsAt vm page heap m 0 is s
      → (m' : Mem) × (vm_run fuel dump m vm ≡ done m')
        × IsDone vm m' (length is + 1) (execute_all is s)
  unfolding vm_run
  vm_run-program fuel m is s ready room enough at =
      let running = load32-store32_self m (status_at vm) vm_running in
      let (m', run, is_done) =
        loop-IsDone is fuel (started m vm) 0 s (omega arith) enough running
          (started-IsAt m is s room at) in
      let all : 0 + length is + 1 ≡ length is + 1 = omega arith in
      (m', rw (ready, vm_run) run, subst (λ x. IsDone vm m' x (execute_all is s)) all is_done)
