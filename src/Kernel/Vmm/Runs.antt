-- ===== src/Kernel/Vmm/Runs.antt =====
-- The run of a program with the dumps to the terminal.
pub mod Loop
pub mod Whole
use d.Base.{arith, done, inl, inr, refl, ℕ, ◌%◌, ◌*◌, ◌+◌, ◌<◌, ◌∙◌, ◌^◌, ◌≡◌, ◌≢◌, ◌≤◌, ◌⊎◌}
use d.Kernel.{Globals}
use d.Kernel.Show.Prints.{IsKept}
use d.Kernel.Vmm.{dump_machine}
use d.Kernel.Vmm.Hosts.{IsAtIp, IsHigh, IsHost, IsHost-IsKept, IsHost-machine, Spared-IsKept}
use d.Kernel.Vmm.Dumps.{IsAtIp-same, IsHigh-same, dump_machine-IsKept}
use d.Memory.{Mem, load8, load16, load32, store16}
use d.Memory.Laws.{Apart, load16-store16_self, load32-store16_ne, load8-store16_ne}
use d.Memory.Words.{half-same, word-same}
use d.Mm.Pages.{address_at}
use d.Term.{Screen}
use d.Vm.{bp_at, flags_at, heap_at, ip_at, sp_at, regs_at, sizeof_vm, status_at}
use d.Vm.Ops.{sizeof_ins}
use d.Vm.Programs.Layout.{IsLaid, Spared}
use d.Vm.Steps.{advanced}

module _ (g : Globals) (vm page heap n : ℕ) (laid : IsLaid vm page heap n) where
  -- The machine is at the instruction `k`, and its dumps can be shown.
  pub record IsGoing (s : Screen) (k : ℕ) : Type 0 where
    pub host : IsHost g vm page heap n s
    pub high : IsHigh vm s.mem
    pub at_ip : IsAtIp vm page heap n s.mem k

  -- Every byte off the screen, the number buffer and the machine stays.
  pub record Framed (s t : Screen) : Type 0 where
    pub wide : t.width ≡ s.width
    pub tall : t.height ≡ s.height
    pub place : t.buffer ≡ s.buffer
    pub same :
        (a : ℕ)
        → Apart s.buffer (2 * (s.width * s.height)) a 1
        → (a ≤ g.itoa_buf) ⊎ (g.itoa_buf + 64 < a)
        → Apart vm sizeof_vm a 1
        → load8 t.mem a ≡ load8 s.mem a

  pub Framed-trans : (s t u : Screen) → Framed s t → Framed t u → Framed s u
  Framed-trans s t u p q = record {
    wide = q.wide ∙ p.wide;
    tall = q.tall ∙ p.tall;
    place = q.place ∙ p.place;
    same = λ a o b v. q.same a (rw (p.place, p.wide, p.tall) o) b v ∙ p.same a o b v;
  }

  -- An instruction changes the low bytes of the general registers, the flags and the status at most.
  abbrev pub Changes : (m m₁ : Mem) → Type 0
  Changes m m₁ =
      (a : ℕ)
      → ((r : ℕ) → r < 4 → a ≢ regs_at vm + 2 * r)
      → a ≢ flags_at vm
      → Apart (status_at vm) 4 a 1
      → load8 m₁ a ≡ load8 m a

  changed-IsGoing :
      (s : Screen) (k : ℕ) (m₁ : Mem)
      → IsGoing s k
      → Changes s.mem m₁
      → load8 m₁ (flags_at vm) < 128
      → IsGoing (record s { mem = m₁ }) k
  changed-IsGoing s k m₁ going changes flags =
      let high = going.high in
      let at = going.at_ip in
      let small : (a : ℕ)
          → ((r : ℕ) → r < 4 → a ≢ regs_at vm + 2 * r)
          → a ≢ flags_at vm
          → Apart (status_at vm) 4 a 1
          → load8 s.mem a < 128
          → load8 m₁ a < 128 =
        λ a odd other off l. omega (arith, changes a odd other off, l) in
      record {
        host =
            IsHost-machine g vm page heap n laid s m₁
              (λ a off. changes a (λ r l. omega arith) (omega arith) (omega arith)) going.host;
        high = record {
          r0 = small (regs_at vm + 1) (λ r l. omega arith) (omega arith) (omega arith) high.r0;
          r1 = small (regs_at vm + 2 + 1) (λ r l. omega arith) (omega arith) (omega arith) high.r1;
          r2 = small (regs_at vm + 4 + 1) (λ r l. omega arith) (omega arith) (omega arith) high.r2;
          r3 = small (regs_at vm + 6 + 1) (λ r l. omega arith) (omega arith) (omega arith) high.r3;
          sp = small (sp_at vm + 1) (λ r l. omega arith) (omega arith) (omega arith) high.sp;
          bp = small (bp_at vm + 1) (λ r l. omega arith) (omega arith) (omega arith) high.bp;
          flags = flags;
        };
        at_ip = record {
          page_is =
              word-same s.mem m₁ (heap_at vm)
                (λ a lo hi. changes a (λ r l. omega arith) (omega arith) (omega arith))
              ∙ at.page_is;
          heap_is =
              word-same s.mem m₁ (address_at page) (λ a lo hi.
                changes a (λ r l. omega (arith, laid)) (omega (arith, laid)) (omega (arith, laid)))
              ∙ at.heap_is;
          ip_is =
              half-same s.mem m₁ (ip_at vm)
                (λ a lo hi. changes a (λ r l. omega arith) (omega arith) (omega arith))
              ∙ at.ip_is;
          few = at.few;
        };
      }

  -- The dump behind an instruction that led to `m₁`, and the step of `ip`.
  pub shown-step :
      (s : Screen) (k : ℕ) (m₁ : Mem)
      → k + 1 ≤ n
      → IsGoing s k
      → Changes s.mem m₁
      → load8 m₁ (flags_at vm) < 128
      → (t : Screen) × (dump_machine g vm (record s { mem = m₁ }) ≡ done t)
        × IsGoing (record t { mem = advanced vm t.mem }) (k + 1)
        × ((a : ℕ) → Spared vm page heap n a → load8 t.mem a ≡ load8 m₁ a)
        × Framed s (record t { mem = advanced vm t.mem })
  shown-step s k m₁ room going changes flags =
      let s₁ = record s { mem = m₁ } in
      let mid = changed-IsGoing s k m₁ going changes flags in
      let (t, run, kept) =
        dump_machine-IsKept g vm page heap n laid s₁ k mid.host mid.high mid.at_ip in
      let spared = λ (a : ℕ) (b : Spared vm page heap n a).
        Spared-IsKept g vm page heap n laid s₁ t a kept mid.host b in
      let next = (load16 t.mem (ip_at vm) + sizeof_ins) % 2 ^ 16 in
      let stepped : (a : ℕ) → Apart (ip_at vm) 2 a 1 → load8 (advanced vm t.mem) a ≡ load8 t.mem a =
        λ a off. load8-store16_ne t.mem (ip_at vm) next a off in
      let at' = IsAtIp-same g vm page heap n laid m₁ t.mem k spared mid.at_ip in
      (
        t,
        run,
        record {
          host =
              IsHost-machine g vm page heap n laid t (advanced vm t.mem)
                (λ a off. stepped a (omega arith))
                (IsHost-IsKept g vm page heap n laid s₁ t kept mid.host);
          high =
              IsHigh-same g vm page heap n laid m₁ (advanced vm t.mem)
                (λ a lo hi off. stepped a off ∙ spared a (inl (lo, hi))) mid.high;
          at_ip = record {
            page_is =
                load32-store16_ne t.mem (ip_at vm) next (heap_at vm) (omega arith) ∙ at'.page_is;
            heap_is =
                load32-store16_ne t.mem (ip_at vm) next (address_at page) (omega (arith, laid))
                ∙ at'.heap_is;
            ip_is = load16-store16_self t.mem (ip_at vm) next ∙ omega (arith, at'.ip_is, laid);
            few = room;
          };
        },
        spared,
        record {
          wide = kept.wide;
          tall = kept.high;
          place = kept.place;
          same = λ a o b v.
              stepped a (omega arith)
              ∙ kept.same a o b
              ∙ changes a (λ r l. omega arith) (omega arith) (omega arith);
        },
      )
