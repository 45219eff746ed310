-- ===== src/Kernel/Vmm/Runs/Loop.antt =====
-- The two ways through a round of the loop, and what an instruction does to the flags.
use d.Base.{Bool, arith, done, false, suc, true, ℕ, ◌<◌, ◌==◌, ◌≡◌, ◌≤◌}
use d.Kernel.{Globals}
use d.Kernel.Vmm.{dump_machine, shown_loop}
use d.Memory.{Mem, load32}
use d.Term.{Screen}
use d.Vm.{status_at, vm_done, vm_running}
use d.Vm.Compare.{bit}
use d.Vm.Ops.{geq_short, vm_run_op}
use d.Vm.Programs.{Ins, Registers, compare_with, execute, move, operand_value}
use d.Vm.Steps.{advanced}

bit-le : (b : Bool) → bit b ≤ 1
bit-le true = omega arith
bit-le false = omega arith

pub execute-flags : (i : Ins) (s : Registers) → s.flags < 128 → (execute i s).flags < 128
execute-flags (move r from) s small = small
execute-flags (compare_with a b) s small =
    let x = operand_value a s in
    let y = operand_value b s in
    omega (arith, bit-le (x == y), bit-le (geq_short x y), bit-le (geq_short y x))

module _ (g : Globals) (vm : ℕ) where
  pub loop_stop :
      (fuel : ℕ) (s u : Screen)
      → load32 s.mem (status_at vm) ≡ vm_done
      → dump_machine g vm s ≡ done u
      → shown_loop g (suc fuel) vm s ≡ done u
  unfolding shown_loop
  loop_stop fuel s u status run = rw (status, shown_loop) run

  pub loop_step :
      (fuel : ℕ) (s t u : Screen) (m₁ : Mem)
      → load32 s.mem (status_at vm) ≡ vm_running
      → vm_run_op s.mem vm ≡ done m₁
      → dump_machine g vm (record s { mem = m₁ }) ≡ done t
      → shown_loop g fuel vm (record t { mem = advanced vm t.mem }) ≡ done u
      → shown_loop g (suc fuel) vm s ≡ done u
  unfolding shown_loop
  loop_step fuel s t u m₁ status op dump rest = rw (status, shown_loop) (rw op (rw dump rest))
