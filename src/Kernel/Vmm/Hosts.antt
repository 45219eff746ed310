-- ===== src/Kernel/Vmm/Hosts.antt =====
-- The machine while its dumps go to the terminal.
use d.Base.{All, arith, codes, inl, inr, ℕ, ◌*◌, ◌+◌, ◌<◌, ◌∙◌, ◌^◌, ◌≡◌, ◌≤◌}
use d.Kernel.{Globals}
use d.Kernel.Show.Dump.{IsPrinter, IsPrinter-IsKept}
use d.Kernel.Show.Prints.{IsKept}
use d.Kernel.Show.Registers.{IsApart, IsRegister, shown_registers}
use d.Memory.{Mem, load8, load16, load32}
use d.Memory.Laws.{Apart, load8-lt}
use d.Mm.Pages.{address_at, sizeof_mp}
use d.Str.Texts.{IsText-window}
use d.Term.{Screen}
use d.Term.Texts.{OffScreen}
use d.Vm.{bp_at, flags_at, heap_at, ip_at, regs_at, sizeof_vm, sp_at}
use d.Vm.Ops.{sizeof_ins}
use d.Vm.Programs.Layout.{IsLaid, Spared}

-- No register and no flags byte of the machine is negative, but for `ip`.
pub record IsHigh (vm : ℕ) (m : Mem) : Type 0 where
  pub r0 : load8 m (regs_at vm + 1) < 128
  pub r1 : load8 m (regs_at vm + 2 + 1) < 128
  pub r2 : load8 m (regs_at vm + 4 + 1) < 128
  pub r3 : load8 m (regs_at vm + 6 + 1) < 128
  pub sp : load8 m (sp_at vm + 1) < 128
  pub bp : load8 m (bp_at vm + 1) < 128
  pub flags : load8 m (flags_at vm) < 128

pub IsHigh-IsRegister :
    (g : Globals) (vm : ℕ) (m : Mem)
    → IsHigh vm m
    → load16 m (ip_at vm) < 2 ^ 15
    → All (IsRegister g vm m) (shown_registers vm)
unfolding load16
IsHigh-IsRegister g vm m h ip =
    let lows : (a : ℕ) → load8 m a < 256 = load8-lt m in
    let half : (a : ℕ) → load8 m (a + 1) < 128 → load16 m a < 2 ^ 15 =
      λ a k. omega (arith, lows a) in
    (
      (omega arith, omega arith, ip),
      (
        (omega arith, omega arith, half (sp_at vm) h.sp),
        (
          (omega arith, omega arith, half (bp_at vm) h.bp),
          (
            (omega arith, omega arith, half (regs_at vm) h.r0),
            (
              (omega arith, omega arith, half (regs_at vm + 2) h.r1),
              (
                (omega arith, omega arith, half (regs_at vm + 4) h.r2),
                ((omega arith, omega arith, half (regs_at vm + 6) h.r3), tt),
              ),
            ),
          ),
        ),
      ),
    )

-- The terminal is ready to print numbers; the machine, its page's record, and `n` instructions with the 32 bytes
-- behind them are off the screen and the number buffer, and the machine is apart from the texts of `itoa`.
pub record IsHost (g : Globals) (vm page heap n : ℕ) (s : Screen) : Type 0 where
  pub printer : IsPrinter g s
  pub machine : IsApart g vm s
  pub page_off : OffScreen s page sizeof_mp
  pub page_apart : Apart g.itoa_buf 65 page sizeof_mp
  pub program_off : OffScreen s heap (n * sizeof_ins + 32)
  pub program_apart : Apart g.itoa_buf 65 heap (n * sizeof_ins + 32)
  pub zero_apart : Apart vm sizeof_vm g.zero_text 2
  pub digits_apart : Apart vm sizeof_vm g.digits_text 16
  pub end_apart : Apart vm sizeof_vm (g.itoa_buf + 65) 1
  pub low : heap + n * sizeof_ins + 32 ≤ 2 ^ 31

-- The machine is at the instruction `k`.
pub record IsAtIp (vm page heap n : ℕ) (m : Mem) (k : ℕ) : Type 0 where
  pub page_is : load32 m (heap_at vm) ≡ page
  pub heap_is : load32 m (address_at page) ≡ heap
  pub ip_is : load16 m (ip_at vm) ≡ k * sizeof_ins
  pub few : k ≤ n

module _ (g : Globals) (vm page heap n : ℕ) (laid : IsLaid vm page heap n) where
  pub IsHost-IsKept :
      (s t : Screen) → IsKept g.itoa_buf s t → IsHost g vm page heap n s → IsHost g vm page heap n t
  IsHost-IsKept s t kept h = record {
    printer = IsPrinter-IsKept g s t kept h.printer;
    machine = record {
      off = rw (kept.place, kept.wide, kept.high) h.machine.off;
      apart = h.machine.apart;
    };
    page_off = rw (kept.place, kept.wide, kept.high) h.page_off;
    page_apart = h.page_apart;
    program_off = rw (kept.place, kept.wide, kept.high) h.program_off;
    program_apart = h.program_apart;
    zero_apart = h.zero_apart;
    digits_apart = h.digits_apart;
    end_apart = h.end_apart;
    low = h.low;
  }

  -- A change of the machine's bytes alone.
  pub IsHost-machine :
      (s : Screen) (m' : Mem)
      → ((a : ℕ) → Apart vm sizeof_vm a 1 → load8 m' a ≡ load8 s.mem a)
      → IsHost g vm page heap n s
      → IsHost g vm page heap n (record s { mem = m' })
  IsHost-machine s m' same h =
      let p = h.printer in
      let za = h.zero_apart in
      let da = h.digits_apart in
      record {
        printer = record {
          on = record {
            column = p.on.column;
            row = p.on.row;
            columns = p.on.columns;
            countable = p.on.countable;
          };
          buf_off = p.buf_off;
          zero_off = p.zero_off;
          digits_off = p.digits_off;
          zero_apart = p.zero_apart;
          apart = p.apart;
          text =
              IsText-window s.mem m' g.zero_text (codes "0") (λ a lo hi. same a (omega arith))
                p.text;
          hex = λ k l. same (g.digits_text + k) (omega arith) ∙ p.hex k l;
          end = same (g.itoa_buf + 65) h.end_apart ∙ p.end;
          fuel_left = p.fuel_left;
        };
        machine = record { off = h.machine.off; apart = h.machine.apart };
        page_off = h.page_off;
        page_apart = h.page_apart;
        program_off = h.program_off;
        program_apart = h.program_apart;
        zero_apart = h.zero_apart;
        digits_apart = h.digits_apart;
        end_apart = h.end_apart;
        low = h.low;
      }

  -- What the terminal keeps are the bytes of the machine, its page's record and the program.
  pub Spared-IsKept :
      (s t : Screen) (a : ℕ)
      → IsKept g.itoa_buf s t
      → IsHost g vm page heap n s
      → Spared vm page heap n a
      → load8 t.mem a ≡ load8 s.mem a
  Spared-IsKept s t a kept h is =
      let off = h.machine.off in
      let apart = h.machine.apart in
      let off₁ = h.page_off in
      let apart₁ = h.page_apart in
      let off₂ = h.program_off in
      let apart₂ = h.program_apart in
      elim is [
        | inl own ↦ kept.same a (omega arith) (omega arith)
        | inr (inl record_byte) ↦ kept.same a (omega arith) (omega arith)
        | inr (inr program_byte) ↦ kept.same a (omega arith) (omega arith)
      ]
