-- ===== src/Vm/Programs.antt =====
-- Programs of `mov` and `cmp` that end with `hlt`, and what they mean for the registers and the flags.
pub mod Layout
pub mod Rounds
pub mod Whole
use d.Base.{List, [], if◌then◌else◌, ℕ, ◌%◌, ◌*◌, ◌+◌, ◌/◌, ◌<◌, ◌==◌, ◌∷◌, ◌≡◌}
use d.Memory.{Mem, load8, load16, load32}
use d.Mm.Pages.{address_at}
use d.Vm.{flags_at, heap_at, ip_at, regs_at, status_at, vm_running}
use d.Vm.Compare.{bit}
use d.Vm.Ops.{arg0_mask_of, arg0_of, arg1_mask_of, arg1_of, geq_short, op_of, sizeof_ins}

-- An immediate number, and a general register.
pub data Operand : Type 0 where
  number : (v : ℕ) → Operand
  register : (r : ℕ) → Operand

pub data Ins : Type 0 where
  move : (r : ℕ) (from : Operand) → Ins
  compare_with : (a b : Operand) → Ins

-- The general registers, of which the machine keeps a byte, and the flags.
pub record Registers : Type 0 where
  pub regs : ℕ → ℕ
  pub flags : ℕ

abbrev pub operand_value : Operand → Registers → ℕ
operand_value (number v) s = v
operand_value (register r) s = s.regs r

abbrev pub execute : Ins → Registers → Registers
execute (move r from) s = record s {
  regs = λ i. if i == r then operand_value from s % 256 else s.regs i;
}
execute (compare_with a b) s =
    let x = operand_value a s in
    let y = operand_value b s in
    record s {
      flags = s.flags / 8 * 8 + bit (x == y) + 2 * bit (geq_short x y) + 4 * bit (geq_short y x);
    }

abbrev pub execute_all : List Ins → Registers → Registers
execute_all [] s = s
execute_all (i ∷ is) s = execute_all is (execute i s)

-- The mask and the argument of an instruction are those of the operand.
abbrev pub IsOperand : (mask arg : ℕ) → Operand → Type 0
IsOperand mask arg (number v) = (mask ≡ 0) × (arg ≡ v)
IsOperand mask arg (register r) = (mask ≡ 1) × (arg ≡ r) × (r < 4)

-- The instruction stands at `at`.
abbrev pub IsIns : Mem → (at : ℕ) → Ins → Type 0
IsIns m at (move r from) =
    (op_of m at ≡ 1)
    × IsOperand (arg0_mask_of m at) (arg0_of m at) (register r)
    × IsOperand (arg1_mask_of m at) (arg1_of m at) from
IsIns m at (compare_with a b) =
    (op_of m at ≡ 4)
    × IsOperand (arg0_mask_of m at) (arg0_of m at) a
    × IsOperand (arg1_mask_of m at) (arg1_of m at) b

-- The instructions stand one behind the other from `at` on, and `hlt` behind them.
abbrev pub IsProgram : Mem → (at : ℕ) → List Ins → Type 0
IsProgram m at [] = op_of m at ≡ 0
IsProgram m at (i ∷ is) = IsIns m at i × IsProgram m (at + sizeof_ins) is

-- The machine at `vm`, whose heap is at `heap` by the page's record at `page`, is at the instruction `k`,
-- with `rest` from there on, and with these registers and flags.
pub record IsAt (vm page heap : ℕ) (m : Mem) (k : ℕ) (rest : List Ins) (s : Registers)
    : Type 0 where
  pub page_is : load32 m (heap_at vm) ≡ page
  pub heap_is : load32 m (address_at page) ≡ heap
  pub ip_is : load16 m (ip_at vm) ≡ k * sizeof_ins
  pub program : IsProgram m (heap + k * sizeof_ins) rest
  pub regs_are : (r : ℕ) → r < 4 → load8 m (regs_at vm + 2 * r) ≡ s.regs r
  pub flags_are : load8 m (flags_at vm) ≡ s.flags
