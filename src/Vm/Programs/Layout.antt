-- ===== src/Vm/Programs/Layout.antt =====
-- The bytes of a machine and of its program.
use d.Base.{List, ◌⊎◌, [], arith, length, ℕ, ◌*◌, ◌+◌, ◌<◌, ◌∙◌, ◌∷◌, ◌≡◌, ◌≤◌, ◌^◌}
use d.Memory.{Mem, load8}
use d.Memory.Laws.{Apart}
use d.Memory.Words.{half-same}
use d.Mm.Pages.{sizeof_mp}
use d.Vm.{sizeof_vm}
use d.Vm.Ops.{sizeof_ins}
use d.Vm.Programs.{Ins, IsIns, IsOperand, IsProgram, Operand, compare_with, move, number, register}

-- The machine, its page's record and `n` instructions from the start of its heap do not overlap.
pub record IsLaid (vm page heap n : ℕ) : Type 0 where
  pub vm_fits : vm + sizeof_vm ≤ 2 ^ 32
  pub page_off : Apart vm sizeof_vm page sizeof_mp
  pub program_off : Apart vm sizeof_vm heap (n * sizeof_ins)
  pub program_fits : heap + n * sizeof_ins ≤ 2 ^ 32
  pub short : n * sizeof_ins < 2 ^ 15

abbrev pub Within : (lo n a : ℕ) → Type 0
Within lo n a = (lo ≤ a) × (a < lo + n)

-- A byte of the machine, of its page's record or of the program.
abbrev pub Spared : (vm page heap n a : ℕ) → Type 0
Spared vm page heap n a =
    Within vm sizeof_vm a ⊎ (Within page sizeof_mp a ⊎ Within heap (n * sizeof_ins) a)

IsOperand-same :
    (mask mask' arg arg' : ℕ) (o : Operand)
    → mask' ≡ mask
    → arg' ≡ arg
    → IsOperand mask arg o
    → IsOperand mask' arg' o
IsOperand-same mask mask' arg arg' (number v) e f (x, y) = (e ∙ x, f ∙ y)
IsOperand-same mask mask' arg arg' (register r) e f (x, y, z) = (e ∙ x, f ∙ y, z)

IsIns-same :
    (m m' : Mem) (at : ℕ) (i : Ins)
    → ((a : ℕ) → at ≤ a → a < at + sizeof_ins → load8 m' a ≡ load8 m a)
    → IsIns m at i
    → IsIns m' at i
IsIns-same m m' at (move r from) same (op, to, is) = (
  same (at + 1) (omega arith) (omega arith) ∙ op,
  IsOperand-same _ _ _ _ (register r) (same (at + 2) (omega arith) (omega arith))
      (half-same m m' (at + 4) λ a lo hi. same a (omega arith) (omega arith)) to,
  IsOperand-same _ _ _ _ from (same (at + 6) (omega arith) (omega arith))
      (half-same m m' (at + 8) λ a lo hi. same a (omega arith) (omega arith)) is,
)
IsIns-same m m' at (compare_with x y) same (op, first, second) = (
  same (at + 1) (omega arith) (omega arith) ∙ op,
  IsOperand-same _ _ _ _ x (same (at + 2) (omega arith) (omega arith))
      (half-same m m' (at + 4) λ a lo hi. same a (omega arith) (omega arith)) first,
  IsOperand-same _ _ _ _ y (same (at + 6) (omega arith) (omega arith))
      (half-same m m' (at + 8) λ a lo hi. same a (omega arith) (omega arith)) second,
)

pub IsProgram-same :
    (m m' : Mem) (at : ℕ) (is : List Ins)
    → ((a : ℕ) → at ≤ a → a < at + (length is + 1) * sizeof_ins → load8 m' a ≡ load8 m a)
    → IsProgram m at is
    → IsProgram m' at is
IsProgram-same m m' at [] same h = same (at + 1) (omega arith) (omega arith) ∙ h
IsProgram-same m m' at (i ∷ is) same (one, rest) = (
  IsIns-same m m' at i (λ a lo hi. same a lo (omega arith)) one,
  IsProgram-same m m' (at + sizeof_ins) is (λ a lo hi. same a (omega arith) (omega arith)) rest,
)
