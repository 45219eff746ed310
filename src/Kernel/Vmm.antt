-- ===== src/Kernel/Vmm.antt =====
-- `init_vmm` of vm.c, and `vm_run` with its dumps to the terminal.
pub mod Hosts
pub mod Dumps
pub mod Runs
use d.Base.{Run, done, if◌then◌else◌, spins, suc, zero, ℕ, ◌%◌, ◌*◌, ◌+◌, ◌==◌, ◌>>=◌, ◌^◌}
use d.Dasm.{Tables}
use d.Dasm.Machine.{dasm}
use d.Kernel.{Globals}
use d.Kernel.Show.{mem_dump, vm_dump_registers}
use d.Memory.{load16, load32, store16, store32}
use d.Mm.Init.{malloc_page}
use d.Term.{Screen}
use d.Vm.{
  next_vm_slot_at, ip_at, status_at, vm_add_to_pool, vm_copy_to_heap, vm_get_instuction, vm_init,
  vm_ready, vm_running,
}
use d.Vm.Ops.{sizeof_ins, vm_run_op}

module _ (g : Globals) where
  -- The dump of the memory at the instruction pointer, and of the registers.
  unfoldable pub dump_machine : (vm : ℕ) → Screen → Run Screen
  unfolding mem_dump vm_dump_registers
  dump_machine vm s = mem_dump g (vm_get_instuction s.mem vm) 32 s >>= λ t. vm_dump_registers g vm t

  -- The `while` loop of `vm_run`, and what follows it.
  unfoldable pub shown_loop : (fuel vm : ℕ) → Screen → Run Screen
  unfolding dump_machine
  shown_loop zero vm s = spins
  shown_loop (suc fuel) vm s =
      let round = vm_run_op s.mem vm >>= λ m. dump_machine vm (record s { mem = m }) >>= λ t.
      let ip = (load16 t.mem (ip_at vm) + sizeof_ins) % 2 ^ 16 in
      shown_loop fuel vm (record t { mem = store16 t.mem (ip_at vm) ip }) in
      if load32 s.mem (status_at vm) == vm_running then round else dump_machine vm s

  unfoldable pub shown_run : (fuel vm : ℕ) → Screen → Run Screen
  unfolding shown_loop
  shown_run fuel vm s =
      let started =
        shown_loop fuel vm (record s { mem = store32 s.mem (status_at vm) vm_running }) in
      if load32 s.mem (status_at vm) == vm_ready then started else done s

  -- `pool` is the place of `main_vm_pool` and `vm` that of the local machine; `pool_name`, `vm_name` and
  -- `test` are the places of the texts. The table of operations is the one of `vm_run_op`.
  unfoldable pub init_vmm : Tables → (fuel pool pool_name vm vm_name test : ℕ) → Screen → Run Screen
  unfolding malloc_page dasm shown_run
  init_vmm texts fuel pool pool_name vm vm_name test s = do
    let m₁ = store32 (store32 s.mem pool pool_name) (next_vm_slot_at pool) 0
    page ← malloc_page g m₁ 1024
    let m₂ = vm_add_to_pool (vm_init page.0 vm vm_name page.1) pool vm
    program ← dasm g texts test (record s { mem = m₂ })
    let t = program.0
    let m₃ = vm_copy_to_heap t.mem vm 0 program.1 (255 * sizeof_ins)
    shown_run fuel vm (record t { mem = m₃ })
