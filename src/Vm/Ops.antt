-- ===== src/Vm/Ops.antt =====
-- vm_ops.c and the run loop of vm.c. An instruction is the address of a `vm_ins`.
use d.Base.{
  Bool, Option, Run, [], bit_and, bit_or, done, faults, get_elem?, if◌then◌else◌, leb, none, some,
  spins, suc, zero, ℕ, ◌%◌, ◌+◌, ◌-◌, ◌==◌, ◌>>=◌, ◌^◌, ◌∷◌,
}
use d.Memory.{Mem, load16, load32, load8, store16, store32, store8}
use d.Vm.{
  flag_eq, flag_gte, flag_lte, flags_at, heap_of, ip_at, sign_extend16, sp_at, status_at, vm_done,
  vm_get_instuction, vm_read, vm_ready, vm_running, vm_write,
}

-- The fields of a `vm_ins`, of ten bytes.
abbrev pub op_of : Mem → ℕ → ℕ
op_of m ins = load8 m (ins + 1)

abbrev pub arg0_mask_of : Mem → ℕ → ℕ
arg0_mask_of m ins = load8 m (ins + 2)

abbrev pub arg0_of : Mem → ℕ → ℕ
arg0_of m ins = load16 m (ins + 4)

abbrev pub arg1_mask_of : Mem → ℕ → ℕ
arg1_mask_of m ins = load8 m (ins + 6)

abbrev pub arg1_of : Mem → ℕ → ℕ
arg1_of m ins = load16 m (ins + 8)

abbrev pub sizeof_ins : ℕ
sizeof_ins = 10

unfoldable pub op_halt : Mem → (vm ins : ℕ) → Mem
op_halt m vm ins = store32 m (status_at vm) vm_done

unfoldable pub op_mov : Mem → (vm ins : ℕ) → Mem
op_mov m vm ins =
    let val = vm_read m vm (arg1_mask_of m ins) (arg1_of m ins) in
    vm_write m vm (arg0_mask_of m ins) (arg0_of m ins) val

-- `heap[machine->registers.sp]`.
abbrev pub stack_byte : Mem → (vm : ℕ) → ℕ
stack_byte m vm = (heap_of m vm + sign_extend16 (load16 m (sp_at vm))) % 2 ^ 32

unfoldable pub op_push : Mem → (vm ins : ℕ) → Mem
op_push m vm ins =
    let val = vm_read m vm (arg0_mask_of m ins) (arg0_of m ins) in
    let m₁ = store8 m (stack_byte m vm) val in
    store16 m₁ (sp_at vm) ((load16 m₁ (sp_at vm) + 2) % 2 ^ 16)

unfoldable pub op_pop : Mem → (vm ins : ℕ) → Mem
op_pop m vm ins =
    let val = load8 m (stack_byte m vm) in
    let m₁ = store16 m (sp_at vm) ((load16 m (sp_at vm) + 2 ^ 16 - 1) % 2 ^ 16) in
    vm_write m₁ vm (arg0_mask_of m₁ ins) (arg0_of m₁ ins) val

-- `a >= b` between two `short`s.
abbrev pub geq_short : (a b : ℕ) → Bool
geq_short a b = leb ((b + 2 ^ 15) % 2 ^ 16) ((a + 2 ^ 15) % 2 ^ 16)

-- `flags |= bit` or `flags &= ~bit`.
unfoldable pub put_flag : (bit : ℕ) → Bool → (flags : ℕ) → ℕ
put_flag bit on flags = if on then bit_or flags bit else bit_and flags (255 - bit)

unfoldable pub op_cmp : Mem → (vm ins : ℕ) → Mem
op_cmp m vm ins =
    let a0 = vm_read m vm (arg0_mask_of m ins) (arg0_of m ins) in
    let a1 = vm_read m vm (arg1_mask_of m ins) (arg1_of m ins) in
    let m₁ = store8 m (flags_at vm) (put_flag flag_eq (a0 == a1) (load8 m (flags_at vm))) in
    let m₂ =
      store8 m₁ (flags_at vm) (put_flag flag_gte (geq_short a0 a1) (load8 m₁ (flags_at vm))) in
    store8 m₂ (flags_at vm) (put_flag flag_lte (geq_short a1 a0) (load8 m₂ (flags_at vm)))

-- The table of `vm_ops_init`. The other entries are null, and a call of one is a fault.
unfoldable pub vm_ops : (opcode : ℕ) → Option (Mem → (vm ins : ℕ) → Mem)
vm_ops opcode = get_elem? (op_halt ∷ op_mov ∷ op_push ∷ op_pop ∷ op_cmp ∷ []) opcode

unfoldable pub vm_run_op : Mem → (vm : ℕ) → Run Mem
vm_run_op m vm =
    let ins = vm_get_instuction m vm in
    elim (vm_ops (op_of m ins)) [ none ↦ faults | some op ↦ done (op m vm ins) ]

-- The `while` loop of `vm_run`. `dump` is what the dumps of memory and registers to the terminal do to
-- memory.
unfoldable pub run_loop : (fuel : ℕ) (dump : Mem → Mem) → Mem → (vm : ℕ) → Run Mem
run_loop zero dump m vm = spins
run_loop (suc fuel) dump m vm =
    let round = vm_run_op m vm >>= λ m₁.
    let m₂ = dump m₁ in
    run_loop fuel dump (store16 m₂ (ip_at vm) ((load16 m₂ (ip_at vm) + sizeof_ins) % 2 ^ 16)) vm in
    if load32 m (status_at vm) == vm_running then round else done (dump m)

unfoldable pub vm_run : (fuel : ℕ) (dump : Mem → Mem) → Mem → (vm : ℕ) → Run Mem
vm_run fuel dump m vm =
    let started = run_loop fuel dump (store32 m (status_at vm) vm_running) vm in
    if load32 m (status_at vm) == vm_ready then started else done m
