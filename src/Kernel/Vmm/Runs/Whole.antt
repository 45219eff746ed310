-- ===== src/Kernel/Vmm/Runs/Whole.antt =====
-- The run of a program with the dumps to the terminal, from its start to its end.
use mathlib.Core.Path.{subst}
use d.Base.{
  List, [], arith, done, inl, length, refl, suc, zero, ℕ, ◌*◌, ◌+◌, ◌<◌, ◌∙◌, ◌∷◌, ◌≡◌, ◌≤◌,
}
use d.Kernel.{Globals}
use d.Kernel.Vmm.{shown_loop, shown_run}
use d.Kernel.Vmm.Hosts.{IsHigh, IsHost, Spared-IsKept}
use d.Kernel.Vmm.Dumps.{IsAtIp-same, dump_machine-IsKept}
use d.Kernel.Vmm.Runs.{Changes, Framed, Framed-trans, IsGoing, changed-IsGoing, shown-step}
use d.Memory.{load8, load32, store32}
use d.Memory.Laws.{
  Apart, load32-store16_ne, load32-store32_self, load8-store16_ne, load8-store32_ne,
}
use d.Memory.Words.{word-same}
use d.Term.{Screen}
use d.Term.Bounds.{IsOnScreen}
use d.Vm.{flags_at, ip_at, regs_at, status_at, vm_done, vm_ready, vm_running}
use d.Vm.Halting.{halt_round}
use d.Vm.Programs.{Ins, IsAt, Registers, execute, execute_all}
use d.Vm.Programs.Layout.{IsLaid, Spared}
use d.Vm.Programs.Rounds.{fetched, next-IsAt, vm_run_op-execute}
use d.Vm.Programs.Whole.{IsDone, started-IsAt}
use d.Vm.Steps.{advanced}
use d.Kernel.Vmm.Runs.Loop.{execute-flags, loop_step, loop_stop}

module _ (g : Globals) (vm page heap n : ℕ) (laid : IsLaid vm page heap n) where
  -- The screen behind the run.
  pub record IsShown (s u : Screen) (count : ℕ) (st : Registers) : Type 0 where
    pub is_done : IsDone vm u.mem count st
    pub on : IsOnScreen u
    pub framed : Framed g vm page heap n laid s u

  halts :
      (fuel : ℕ) (s : Screen) (k : ℕ) (st : Registers)
      → k + 1 ≤ n
      → load32 s.mem (status_at vm) ≡ vm_running
      → IsGoing g vm page heap n laid s k
      → IsAt vm page heap s.mem k [] st
      → (u : Screen) × (shown_loop g (suc (suc fuel)) vm s ≡ done u) × IsShown s u (k + 1) st
  halts fuel s k st room running going at =
      let here =
        fetched vm page heap n laid s.mem k (omega arith) (omega (arith, laid)) at.page_is
          at.heap_is at.ip_is in
      let m₁ = store32 s.mem (status_at vm) vm_done in
      let only : Changes g vm page heap n laid s.mem m₁ =
        λ a odd other off. load8-store32_ne s.mem (status_at vm) vm_done a off in
      let (t, run, going', spared, framed) =
        shown-step g vm page heap n laid s k m₁ room going only (
          omega (
            arith,
            going.high.flags,
            load8-store32_ne s.mem (status_at vm) vm_done (flags_at vm) (omega arith),
          )) in
      let s₂ = record t { mem = advanced vm t.mem } in
      let (u, run', kept) =
        dump_machine-IsKept g vm page heap n laid s₂ (k + 1) going'.host going'.high going'.at_ip in
      let spared' = λ (a : ℕ) (b : Spared vm page heap n a).
        Spared-IsKept g vm page heap n laid s₂ u a kept going'.host b in
      let stopped : load32 s₂.mem (status_at vm) ≡ vm_done =
        load32-store16_ne t.mem (ip_at vm) _ (status_at vm) (omega arith)
        ∙ word-same m₁ t.mem (status_at vm) (λ a lo hi. spared a (inl (omega arith, omega arith)))
        ∙ load32-store32_self s.mem (status_at vm) vm_done in
      let byte : (a : ℕ)
          → vm + 12 ≤ a
          → a < vm + 32
          → Apart (ip_at vm) 2 a 1
          → load8 u.mem a ≡ load8 s.mem a =
        λ a lo hi off.
          spared' a (inl (omega arith, omega arith))
          ∙ load8-store16_ne t.mem (ip_at vm) _ a off
          ∙ spared a (inl (omega arith, omega arith))
          ∙ load8-store32_ne s.mem (status_at vm) vm_done a (omega arith) in
      (
        u,
        loop_step g vm (suc fuel) s t u m₁ running (halt_round s.mem vm (rw here at.program)) run
            (loop_stop g vm fuel s₂ u stopped run'),
        record {
          is_done = record {
            status_is =
                word-same s₂.mem u.mem (status_at vm)
                  (λ a lo hi. spared' a (inl (omega arith, omega arith)))
                ∙ stopped;
            ip_is =
                (IsAtIp-same g vm page heap n laid s₂.mem u.mem (k + 1) spared' going'.at_ip).ip_is;
            regs_are = λ r l.
                byte (regs_at vm + 2 * r) (omega arith) (omega arith) (omega arith)
                ∙ at.regs_are r l;
            flags_are = byte (flags_at vm) (omega arith) (omega arith) (omega arith) ∙ at.flags_are;
          };
          on = kept.on;
          framed = Framed-trans g vm page heap n laid s s₂ u framed (record {
            wide = kept.wide;
            tall = kept.high;
            place = kept.place;
            same = λ a o b v. kept.same a o b;
          });
        },
      )

  runs :
      (rest : List Ins) (fuel : ℕ) (s : Screen) (k : ℕ) (st : Registers)
      → k + length rest + 1 ≤ n
      → length rest + 2 ≤ fuel
      → load32 s.mem (status_at vm) ≡ vm_running
      → IsGoing g vm page heap n laid s k
      → IsAt vm page heap s.mem k rest st
      → (u : Screen) × (shown_loop g fuel vm s ≡ done u)
        × IsShown s u (k + length rest + 1) (execute_all rest st)
  runs rest zero s k st room enough running going at = absurd (omega arith)
  runs rest (suc zero) s k st room enough running going at = absurd (omega arith)
  runs [] (suc (suc fuel)) s k st room enough running going at =
      let (u, run, shown) = halts fuel s k st (omega arith) running going at in
      let none_left : k + 1 ≡ k + 0 + 1 = omega arith in
      (u, run, subst (λ x. IsShown s u x st) none_left shown)
  runs (i ∷ rest) (suc (suc fuel)) s k st room enough running going at =
      let (m₁, op, regs, flags, others) =
        vm_run_op-execute vm page heap n laid s.mem k i rest st (omega arith) at in
      let low : st.flags < 128 = omega (arith, at.flags_are, going.high.flags) in
      let (t, dump, going', spared, framed) =
        shown-step g vm page heap n laid s k m₁ (omega arith) going
          (λ a odd other off. others a odd other) (omega (arith, flags, execute-flags i st low)) in
      let s₂ = record t { mem = advanced vm t.mem } in
      let (at', status) =
        next-IsAt vm page heap n laid s.mem m₁ t.mem k i rest st (execute i st) (omega arith) at
          regs flags others spared in
      let (u, run, shown) =
        runs rest (suc fuel) s₂ (k + 1) (execute i st) (omega arith) (omega arith)
          (status ∙ running) going' at' in
      let left : k + 1 + length rest + 1 ≡ k + length (i ∷ rest) + 1 = omega arith in
      (
        u,
        loop_step g vm (suc fuel) s t u m₁ running op dump run,
        record {
          is_done =
              subst (λ x. IsDone vm u.mem x (execute_all rest (execute i st))) left shown.is_done;
          on = shown.on;
          framed = Framed-trans g vm page heap n laid s s₂ u framed shown.framed;
        },
      )

  -- Let a program of `mov` to general registers and of `cmp`, each with numbers and general registers, and of a
  -- `hlt` behind them stand at the start of a ready machine's heap, within 2 ^ 15 bytes, with `ip` at 0; let the
  -- page's record and the program lie apart from the machine, the machine below the end of memory, and the program
  -- with 32 bytes behind it below 2 ^ 31; let all of them be off the screen and the number buffer, and the machine
  -- apart from the texts of `itoa`; let the terminal be ready to print numbers, and no register and no flags byte be
  -- negative. With fuel for each instruction and one more, `vm_run` with its dumps to the terminal returns: the
  -- status is DONE, `ip` is behind the `hlt`, and the general registers, by their low bytes, and the flags are what
  -- the program makes of those before; the cursor is on the screen, and no byte off the screen, the number buffer
  -- and the machine has changed.
  pub shown_run-program :
      (fuel : ℕ) (s : Screen) (is : List Ins) (st : Registers)
      → load32 s.mem (status_at vm) ≡ vm_ready
      → length is + 1 ≤ n
      → length is + 2 ≤ fuel
      → IsHost g vm page heap n s
      → IsHigh vm s.mem
      → IsAt vm page heap s.mem 0 is st
      → (u : Screen) × (shown_run g fuel vm s ≡ done u)
        × IsShown s u (length is + 1) (execute_all is st)
  unfolding shown_run
  shown_run-program fuel s is st ready room enough host high at =
      let m₁ = store32 s.mem (status_at vm) vm_running in
      let only : (a : ℕ) → Apart (status_at vm) 4 a 1 → load8 m₁ a ≡ load8 s.mem a =
        λ a off. load8-store32_ne s.mem (status_at vm) vm_running a off in
      let going =
        changed-IsGoing g vm page heap n laid s 0 m₁
          (record {
            host = host;
            high = high;
            at_ip = record {
              page_is = at.page_is;
              heap_is = at.heap_is;
              ip_is = at.ip_is;
              few = omega arith;
            };
          })
          (λ a odd other off. only a off)
          (omega (arith, high.flags, only (flags_at vm) (omega arith))) in
      let started = started-IsAt vm page heap n laid (λ m. m) (λ m a b. refl) s.mem is st room at in
      let (u, run, shown) =
        runs is fuel (record s { mem = m₁ }) 0 st (omega arith) enough
          (load32-store32_self s.mem (status_at vm) vm_running) going started in
      let all : 0 + length is + 1 ≡ length is + 1 = omega arith in
      (
        u,
        rw (ready, shown_run) run,
        record {
          is_done = subst (λ x. IsDone vm u.mem x (execute_all is st)) all shown.is_done;
          on = shown.on;
          framed =
              Framed-trans g vm page heap n laid s (record s { mem = m₁ }) u
                (record {
                  wide = refl;
                  tall = refl;
                  place = refl;
                  same = λ a o b v. only a (omega arith);
                })
                shown.framed;
        },
      )
