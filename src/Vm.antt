-- ===== src/Vm.antt =====
-- vm.c and vm_ops.c: the virtual machine. A `vm_t` stands in memory at an address, since the code
-- reaches its registers as bytes; `short` and `char` operands are bit patterns.
pub mod Ops
pub mod Operands
pub mod Stack
pub mod Compare
pub mod Halting
pub mod Steps
pub mod Programs
use d.Base.{if◌then◌else◌, ltb, ℕ, ◌%◌, ◌*◌, ◌+◌, ◌-◌, ◌==◌, ◌^◌}
use d.Memory.{Mem, load16, load32, load8, store16, store32, store8}
use d.Mm.Copy.{mem_cpy}
use d.Mm.Pages.{address_at}

-- The fields of the `vm_t` at an address; `registers` begins at offset 12.
abbrev pub name_at : ℕ → ℕ
name_at vm = vm

abbrev pub status_at : ℕ → ℕ
status_at vm = vm + 8

abbrev pub regs_at : ℕ → ℕ
regs_at vm = vm + 12

abbrev pub ip_at : ℕ → ℕ
ip_at vm = vm + 20

abbrev pub sp_at : ℕ → ℕ
sp_at vm = vm + 22

abbrev pub bp_at : ℕ → ℕ
bp_at vm = vm + 24

abbrev pub flags_at : ℕ → ℕ
flags_at vm = vm + 26

abbrev pub heap_at : ℕ → ℕ
heap_at vm = vm + 28

abbrev pub sizeof_vm : ℕ
sizeof_vm = 32

-- `enum vm_status`.
abbrev pub vm_ready : ℕ
vm_ready = 0

abbrev pub vm_running : ℕ
vm_running = 1

abbrev pub vm_done : ℕ
vm_done = 2

-- `FLAG_EQ`, `FLAG_GTE` and `FLAG_LTE`.
abbrev pub flag_eq : ℕ
flag_eq = 0x01

abbrev pub flag_gte : ℕ
flag_gte = 0x02

abbrev pub flag_lte : ℕ
flag_lte = 0x04

-- The fields of the `vm_pool` at an address; its name is the first.
abbrev pub next_vm_slot_at : ℕ → ℕ
next_vm_slot_at pool = pool + 4

abbrev pub machine_at : (pool i : ℕ) → ℕ
machine_at pool i = pool + 8 + 4 * i

-- A `short` as an `int`.
abbrev pub sign_extend16 : ℕ → ℕ
sign_extend16 v = if ltb v (2 ^ 15) then v else v + 2 ^ 32 - 2 ^ 16

-- `machine->heap->address`.
abbrev pub heap_of : Mem → ℕ → ℕ
heap_of m vm = load32 m (address_at (load32 m (heap_at vm)))

-- The address of `regs[2 * arg0]`, and of `heap[arg0 + machine->registers.bp]`.
abbrev pub reg_byte : (vm arg0 : ℕ) → ℕ
reg_byte vm arg0 = (regs_at vm + 2 * sign_extend16 arg0) % 2 ^ 32

abbrev pub heap_byte : Mem → (vm offset : ℕ) → ℕ
heap_byte m vm offset = (heap_of m vm + offset + sign_extend16 (load16 m (bp_at vm))) % 2 ^ 32

-- The `heap` of `vm_init` is what `malloc(1024)` returned.
unfoldable pub vm_init : Mem → (vm name heap : ℕ) → Mem
vm_init m vm name heap =
    let m₁ = store32 (store32 m (name_at vm) name) (heap_at vm) heap in
    let m₂ = store16 (store16 (store16 m₁ (ip_at vm) 0) (sp_at vm) 0) (bp_at vm) 0 in
    let m₃ = store16 (store16 m₂ (regs_at vm) 0) (regs_at vm + 2) 0 in
    let m₄ = store16 (store16 m₃ (regs_at vm + 4) 0) (regs_at vm + 6) 0 in
    store32 (store8 m₄ (flags_at vm) 0) (status_at vm) vm_ready

unfoldable pub vm_add_to_pool : Mem → (pool vm : ℕ) → Mem
vm_add_to_pool m pool vm =
    let m₁ = store32 m (machine_at pool (load32 m (next_vm_slot_at pool))) vm in
    store32 m₁ (next_vm_slot_at pool) ((load32 m₁ (next_vm_slot_at pool) + 1) % 2 ^ 32)

unfoldable pub vm_load_heap : Mem → (vm heap : ℕ) → Mem
vm_load_heap m vm heap = store32 m (heap_at vm) heap

unfoldable pub vm_copy_to_heap : Mem → (vm address from size : ℕ) → Mem
vm_copy_to_heap m vm address from size = mem_cpy m ((heap_of m vm + address) % 2 ^ 32) from size

unfoldable pub vm_get_instuction : Mem → (vm : ℕ) → ℕ
vm_get_instuction m vm = (heap_of m vm + sign_extend16 (load16 m (ip_at vm))) % 2 ^ 32

unfoldable pub vm_write : Mem → (vm mask0 arg0 val : ℕ) → Mem
vm_write m vm mask0 arg0 val =
    if mask0 == 0
    then m
    else if mask0 == 1
    then store8 m (reg_byte vm arg0) val
    else if mask0 == 2
    then store8 m (heap_byte m vm (sign_extend16 arg0)) val
    else if mask0 == 3
    then store8 m (heap_byte m vm (load8 m (reg_byte vm arg0))) val
    else m

unfoldable pub vm_read : Mem → (vm mask0 arg0 : ℕ) → ℕ
vm_read m vm mask0 arg0 =
    if mask0 == 0
    then arg0
    else if mask0 == 1
    then load8 m (reg_byte vm arg0)
    else if mask0 == 2
    then load8 m (heap_byte m vm (sign_extend16 arg0))
    else if mask0 == 3
    then load8 m (heap_byte m vm (load8 m (reg_byte vm arg0)))
    else 0

-- It only fetches the instruction; `garbage` is what a function that returns nothing leaves to its caller.
unfoldable pub vm_parse_ins : (garbage : ℕ) → Mem → (vm : ℕ) → ℕ
unfolding vm_get_instuction
vm_parse_ins garbage m vm = let ins = vm_get_instuction m vm in garbage
