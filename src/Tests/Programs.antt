-- ===== src/Tests/Programs.antt =====
-- A program of the virtual machine: 300 to register 0, that to register 1, and a comparison with 44.
use d.Base.{
  List, [], all_below, all_below_sound, arith, done, eq_of_test, inl, inr, refl, ℕ, ◌*◌, ◌+◌, ◌<◌,
  ◌==◌, ◌∷◌, ◌≡◌,
}
use d.Memory.{Mem, load8, load16, load32, store8, store32}
use d.Tests.Data.{image}
use d.Vm.{heap_at, regs_at}
use d.Vm.Ops.{vm_run}
use d.Vm.Programs.{Ins, IsAt, Registers, compare_with, execute_all, move, number, register}
use d.Vm.Programs.Layout.{IsLaid}
use d.Vm.Programs.Whole.{IsDone, vm_run-program}

abbrev pub program : List Ins
program = move 0 (number 300) ∷ move 1 (register 0) ∷ compare_with (register 1) (number 44) ∷ []

abbrev pub bytes : List ℕ
bytes =
    0 ∷ 1 ∷ 1 ∷ 0 ∷ 0 ∷ 0 ∷ 0 ∷ 0 ∷ 44 ∷ 1 ∷ 0 ∷ 1 ∷ 1 ∷ 0 ∷ 1 ∷ 0 ∷ 1 ∷ 0 ∷ 0 ∷ 0 ∷ 0 ∷ 4 ∷ 1 ∷ 0
    ∷ 1 ∷ 0 ∷ 0 ∷ 0 ∷ 44 ∷ 0 ∷ []

-- The program at 0, the machine at 1000 and its page's record at 1100.
abbrev machine : Mem
machine = store32 (image bytes) (heap_at 1000) 1100

abbrev pub zeros : Registers
zeros = record { regs = λ r. 0; flags = 0 }

laid : IsLaid 1000 1100 0 4
laid = record {
  vm_fits = omega arith;
  page_off = inl (omega arith);
  program_off = inr (omega arith);
  program_fits = omega arith;
  short = omega arith;
}

clear : (r : ℕ) → r < 4 → load8 machine (regs_at 1000 + 2 * r) ≡ 0
unfolding load8 store8 store32 all_below
clear r h =
    eq_of_test (load8 machine (regs_at 1000 + 2 * r)) 0
      (all_below_sound 4 (λ r. load8 machine (regs_at 1000 + 2 * r) == 0) r refl h)

beginning : IsAt 1000 1100 0 machine 0 program zeros
unfolding load8 load16 load32 store8 store32
beginning = record {
  page_is = refl;
  heap_is = refl;
  ip_is = refl;
  program = (
    (refl, (refl, refl, omega arith), (refl, refl)),
    (
      (refl, (refl, refl, omega arith), (refl, refl, omega arith)),
      ((refl, (refl, refl, omega arith), (refl, refl)), refl),
    ),
  );
  regs_are = clear;
  flags_are = refl;
}

-- Both registers hold 44 then, and all three flags are set.
program_run : (execute_all program zeros).regs 1 ≡ 44
program_run = refl

vm_run-program_example :
    (m' : Mem) × (vm_run 5 (λ m. m) machine 1000 ≡ done m')
    × IsDone 1000 m' 4 (execute_all program zeros)
unfolding load32 load8 store8 store32
vm_run-program_example =
    vm_run-program 1000 1100 0 4 laid (λ m. m) (λ m a h. refl) 5 machine program zeros refl
      (omega arith) (omega arith) beginning
