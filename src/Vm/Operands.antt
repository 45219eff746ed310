-- ===== src/Vm/Operands.antt =====
-- Reading an operand back after a write.
use d.Base.{arith, ℕ, ◌%◌, ◌*◌, ◌+◌, ◌/◌, ◌<◌, ◌^◌, ◌≡◌, ◌≢◌, ◌≤◌}
use d.Memory.{Mem, load16, load32, load8}
use d.Memory.Laws.{
  Apart, load8-lt, load8-store8_ne, load8-store8_self, load16-store8_ne, load32-store8_ne,
}
use d.Mm.Pages.{sizeof_mp, address_at}
use d.Vm.{heap_at, heap_byte, reg_byte, regs_at, sign_extend16, sizeof_vm, vm_read, vm_write, bp_at}

-- The register of number `r`, from 0 to 6: its byte, when the machine lies below the end of memory.
pub reg_byte_lem : (vm r : ℕ) → vm + sizeof_vm ≤ 2 ^ 32 → r < 7 → reg_byte vm r ≡ regs_at vm + 2 * r
reg_byte_lem vm r h l = ground arith

-- Let the machine lie below the end of memory. A write to a register operand, from 0 to 6, sets
-- the low byte of the register to the low byte of the value and keeps its high byte, and every
-- other byte of memory; a read of the operand gives the low byte. So a register loses all of a
-- value from 256 on but the low byte.
pub vm_write-register :
    (m : Mem) (vm r val : ℕ)
    → vm + sizeof_vm ≤ 2 ^ 32
    → r < 7
    → let m' = vm_write m vm 1 r val in
      let at = regs_at vm + 2 * r in
      (load16 m' at ≡ load16 m at / 256 * 256 + val % 256)
      × (vm_read m' vm 1 r ≡ val % 256)
      × ((b : ℕ) → b ≢ at → load8 m' b ≡ load8 m b)
unfolding vm_write vm_read load16
vm_write-register m vm r val h l =
    let at = regs_at vm + 2 * r in
    rw (reg_byte_lem vm r h l) (
      omega (
        arith,
        load8-store8_self m at val,
        load8-store8_ne m at val (at + 1) (omega arith),
        load8-lt m at,
      ),
      load8-store8_self m at val,
      λ b o. load8-store8_ne m at val b o,
    )

-- A write to a heap operand whose byte is no part of the machine's record and of its page's record sets
-- that byte, and a read of the operand gives it back.
pub vm_read-vm_write :
    (m : Mem) (vm arg val : ℕ)
    → let at = heap_byte m vm (sign_extend16 arg) in
      Apart vm sizeof_vm at 1
      → Apart (load32 m (heap_at vm)) sizeof_mp at 1
      → vm_read (vm_write m vm 2 arg val) vm 2 arg ≡ val % 256
unfolding vm_write vm_read
vm_read-vm_write m vm arg val h k =
    let at = heap_byte m vm (sign_extend16 arg) in
    let page = load32 m (heap_at vm) in
    rw
      (
        load32-store8_ne m at val (heap_at vm) (omega arith),
        load32-store8_ne m at val (address_at page) (omega arith),
        load16-store8_ne m at val (bp_at vm) (omega arith),
      )
      (load8-store8_self m at val)
