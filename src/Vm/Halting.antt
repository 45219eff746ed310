-- ===== src/Vm/Halting.antt =====
-- The run of a machine that halts.
use d.Base.{arith, done, refl, suc, ℕ, ◌%◌, ◌+◌, ◌<◌, ◌^◌, ◌≡◌, ◌≤◌, ◌∙◌}
use d.Memory.{Mem, load8, load16, load32, store16, store32}
use d.Vm.{vm_ready, vm_running, vm_done, status_at, ip_at, sizeof_vm, vm_get_instuction}
use d.Vm.Ops.{run_loop, vm_run, vm_run_op, vm_ops, op_halt, op_of}
use d.Memory.Laws.{load16-store16_self, load32-store16_ne, load32-store32_self, load8-store32_ne}

-- A dump to the terminal does not touch the machine's record.
abbrev pub Spares : (Mem → Mem) → ℕ → Type 0
Spares dump vm = (m : Mem) (a : ℕ) → vm ≤ a → a < vm + sizeof_vm → load8 (dump m) a ≡ load8 m a

-- The machine while it runs its first instruction.
abbrev pub started : Mem → ℕ → Mem
started m vm = store32 m (status_at vm) vm_running

pub halt_round :
    (m : Mem) (vm : ℕ)
    → op_of m (vm_get_instuction m vm) ≡ 0
    → vm_run_op m vm ≡ done (store32 m (status_at vm) vm_done)
unfolding vm_run_op vm_ops op_halt
halt_round m vm e = rw (e, vm_run_op) refl

module _ (dump : Mem → Mem) (vm : ℕ) (spares : Spares dump vm) where
  spared16 : (m : Mem) → load16 (dump m) (ip_at vm) ≡ load16 m (ip_at vm)
  unfolding load16
  spared16 m = omega (arith, spares m (vm + 20), spares m (vm + 21))

  pub spared32 : (m : Mem) → load32 (dump m) (status_at vm) ≡ load32 m (status_at vm)
  unfolding load32
  spared32 m =
      omega (arith, spares m (vm + 8), spares m (vm + 9), spares m (vm + 10), spares m (vm + 11))

  -- The memory after the halting instruction, the dumps and the step of `ip`.
  abbrev pub halted : Mem → Mem
  halted m =
      let m' = dump (store32 m (status_at vm) vm_done) in
      dump (store16 m' (ip_at vm) ((load16 m' (ip_at vm) + 10) % 2 ^ 16))

  pub done_status :
      (m : Mem)
      → load32
          (let m' = dump (store32 m (status_at vm) vm_done) in
            store16 m' (ip_at vm) ((load16 m' (ip_at vm) + 10) % 2 ^ 16))
          (status_at vm)
        ≡ vm_done
  done_status m =
      let m' = dump (store32 m (status_at vm) vm_done) in
      load32-store16_ne m' (ip_at vm) ((load16 m' (ip_at vm) + 10) % 2 ^ 16) (status_at vm)
        (omega arith)
      ∙ spared32 (store32 m (status_at vm) vm_done)
      ∙ load32-store32_self m (status_at vm) vm_done

  pub loop_halts :
      (fuel : ℕ) (m : Mem)
      → load32 m (status_at vm) ≡ vm_running
      → op_of m (vm_get_instuction m vm) ≡ 0
      → run_loop (suc (suc fuel)) dump m vm ≡ done (halted m)
  unfolding run_loop
  loop_halts fuel m running hlt =
      rw (running, run_loop) (rw (halt_round m vm hlt) (rw (done_status m) refl))

  pub kept_ip :
      (m : Mem) (v : ℕ) → load16 (store32 m (status_at vm) v) (ip_at vm) ≡ load16 m (ip_at vm)
  unfolding load16
  kept_ip m v = omega (
    arith,
    load8-store32_ne m (status_at vm) v (ip_at vm) (omega arith),
    load8-store32_ne m (status_at vm) v (ip_at vm + 1) (omega arith),
  )

  pub halted_ip : (m : Mem) → load16 (halted m) (ip_at vm) ≡ (load16 m (ip_at vm) + 10) % 2 ^ 16
  halted_ip m =
      let m₁ = store32 m (status_at vm) vm_done in
      let next = (load16 (dump m₁) (ip_at vm) + 10) % 2 ^ 16 in
      omega (
        arith,
        spared16 (store16 (dump m₁) (ip_at vm) next),
        load16-store16_self (dump m₁) (ip_at vm) next,
        spared16 m₁,
        kept_ip m vm_done,
      )

  -- Let the dumps spare the machine's record, and the first instruction of a ready machine be `hlt`.
  -- With fuel for two rounds `vm_run` returns: the status is then DONE, and `ip` stands ten bytes
  -- further, behind the instruction.
  pub vm_run-halt :
      (fuel : ℕ) (m : Mem)
      → load32 m (status_at vm) ≡ vm_ready
      → op_of (started m vm) (vm_get_instuction (started m vm) vm) ≡ 0
      → (m' : Mem) × (vm_run (suc (suc fuel)) dump m vm ≡ done m')
        × (load32 m' (status_at vm) ≡ vm_done)
        × (load16 m' (ip_at vm) ≡ (load16 m (ip_at vm) + 10) % 2 ^ 16)
  unfolding vm_run
  vm_run-halt fuel m ready hlt =
      let running = load32-store32_self m (status_at vm) vm_running in
      (
        halted (started m vm),
        rw (ready, vm_run) (loop_halts fuel (started m vm) running hlt),
        spared32 _ ∙ done_status (started m vm),
        omega (arith, halted_ip (started m vm), kept_ip m vm_running),
      )
