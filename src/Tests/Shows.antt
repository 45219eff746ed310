-- ===== src/Tests/Shows.antt =====
-- The program of Tests/Programs on a machine whose dumps go to a small screen.
use d.Base.{
  List, [], all_below, all_below_sound, arith, codes, done, eq_of_test, if◌then◌else◌, inl, inr,
  leb, refl, ℕ, ◌++◌, ◌*◌, ◌+◌, ◌-◌, ◌<◌, ◌==◌, ◌≡◌,
}
use d.Kernel.Show.{vm_dump_registers}
use d.Kernel.Show.Dump.{IsNumeral, IsPrinter}
use d.Kernel.Show.Prints.{IsKept, Prints}
use d.Kernel.Show.Registers.{AreShown, IsApart, shown_registers, vm_dump_registers-AreShown}
use d.Kernel.Vmm.{shown_run}
use d.Kernel.Vmm.Hosts.{IsHigh, IsHigh-IsRegister, IsHost}
use d.Kernel.Vmm.Runs.Whole.{IsShown, shown_run-program}
use d.Memory.{Mem, load16, load32, load8, store32, store8}
use d.Mm.Pages.{address_at}
use d.Str.Numerals.{digit_char}
use d.Term.{Screen}
use d.Tests.Data.{image}
use d.Tests.Small.{globals, start}
use d.Tests.Programs.{bytes, program, zeros}
use d.Vm.{heap_at, regs_at}
use d.Vm.Programs.{IsAt, execute_all}
use d.Vm.Programs.Layout.{IsLaid}

-- The program at 6000, the machine at 7000 and its page's record at 7100.
abbrev memory : Mem
memory =
    store32
      (store32 (λ a. if leb 6000 a then image bytes (a - 6000) else start a) (heap_at 7000) 7100)
      (address_at 7100) 6000

abbrev screen : Screen
screen = record {
  width = 3;
  height = 2;
  color = 7;
  xpos = 0;
  ypos = 0;
  buffer = 9000;
  mem = memory;
  log = [];
}

laid : IsLaid 7000 7100 6000 4
laid = record {
  vm_fits = omega arith;
  page_off = inl (omega arith);
  program_off = inr (omega arith);
  program_fits = omega arith;
  short = omega arith;
}

hex : (k : ℕ) → k < 16 → load8 memory (2000 + k) ≡ digit_char k
unfolding load8 store32 store8 all_below
hex k h =
    eq_of_test (load8 memory (2000 + k)) (digit_char k)
      (all_below_sound 16 (λ k. load8 memory (2000 + k) == digit_char k) k refl h)

printer : IsPrinter globals screen
unfolding load8 store32 store8
printer = record {
  on = record {
    column = omega arith;
    row = omega arith;
    columns = omega arith;
    countable = omega arith;
  };
  buf_off = omega arith;
  zero_off = omega arith;
  digits_off = omega arith;
  zero_apart = omega arith;
  apart = omega arith;
  text = (refl, omega arith, refl);
  hex = hex;
  end = refl;
  fuel_left = omega arith;
}

machine : IsApart globals 7000 screen
machine = record { off = omega arith; apart = omega arith }

host : IsHost globals 7000 7100 6000 4 screen
host = record {
  printer = printer;
  machine = machine;
  page_off = omega arith;
  page_apart = omega arith;
  program_off = omega arith;
  program_apart = omega arith;
  zero_apart = omega arith;
  digits_apart = omega arith;
  end_apart = omega arith;
  low = omega arith;
}

high : IsHigh 7000 memory
unfolding load8 store32 store8
high = record {
  r0 = omega arith;
  r1 = omega arith;
  r2 = omega arith;
  r3 = omega arith;
  sp = omega arith;
  bp = omega arith;
  flags = omega arith;
}

clear : (r : ℕ) → r < 4 → load8 memory (regs_at 7000 + 2 * r) ≡ 0
unfolding load8 store32 store8 all_below
clear r h =
    eq_of_test (load8 memory (regs_at 7000 + 2 * r)) 0
      (all_below_sound 4 (λ r. load8 memory (regs_at 7000 + 2 * r) == 0) r refl h)

beginning : IsAt 7000 7100 6000 memory 0 program zeros
unfolding load8 load16 load32 store8 store32
beginning = record {
  page_is = refl;
  heap_is = refl;
  ip_is = refl;
  program = (
    (refl, (refl, refl, omega arith), (refl, refl)),
    (
      (refl, (refl, refl, omega arith), (refl, refl, omega arith)),
      ((refl, (refl, refl, omega arith), (refl, refl)), refl),
    ),
  );
  regs_are = clear;
  flags_are = refl;
}

shown_run-program_example :
    (u : Screen) × (shown_run globals 5 7000 screen ≡ done u)
    × IsShown globals 7000 7100 6000 4 laid screen u 4 (execute_all program zeros)
unfolding load32 load8 store8 store32
shown_run-program_example =
    shown_run-program globals 7000 7100 6000 4 laid 5 screen program zeros refl (omega arith)
      (omega arith) host high beginning

vm_dump_registers-AreShown_example :
    (t : Screen) × (xs : List ℕ) × (number : List ℕ) × (vm_dump_registers globals 7000 screen
      ≡ done t)
    × AreShown memory (shown_registers 7000) xs
    × IsNumeral 2 (load8 memory 7026) number
    × Prints 5000 screen (xs ++ ((codes "  fr: " ++ number) ++ codes "\n")) t
    × IsPrinter globals t
    × IsKept 5000 screen t
vm_dump_registers-AreShown_example =
    vm_dump_registers-AreShown globals 7000 screen printer machine
      (IsHigh-IsRegister globals 7000 memory high (omega (arith, beginning.ip_is))) high.flags
