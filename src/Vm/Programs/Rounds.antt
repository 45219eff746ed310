-- ===== src/Vm/Programs/Rounds.antt =====
-- One instruction of a program.
use d.Base.{
  List, Bool-cases, ap, arith, inl, inr, done, length, refl, ℕ, ◌%◌, ◌*◌, ◌+◌, ◌<◌, ◌==◌, ◌∙◌, ◌∷◌,
  ◌≡◌, ◌≢◌, ◌≤◌, ◌^◌,
}
use mathlib.Core.Path.{subst}
use d.Memory.{Mem, load8, load16, load32, store8}
use d.Memory.Laws.{Apart, load16-store16_self, load8-store16_ne, load8-store8_ne, load8-store8_self}
use d.Memory.Words.{half-same, word-same}
use d.Vm.Steps.{advanced}
use d.Mm.Pages.{address_at}
use d.Vm.{
  flags_at, heap_at, heap_of, ip_at, regs_at, status_at, sizeof_vm, vm_get_instuction, vm_read,
  vm_write,
}
use d.Vm.Compare.{op_cmp_lem}
use d.Vm.Operands.{reg_byte_lem}
use d.Vm.Ops.{op_cmp, op_mov, op_of, sizeof_ins, vm_ops, vm_run_op}
use d.Vm.Programs.{
  Ins, IsAt, IsOperand, IsProgram, Operand, Registers, compare_with, execute, move, number,
  operand_value, register,
}
use d.Vm.Programs.Layout.{IsLaid, IsProgram-same, Spared}

module _ (vm page heap n : ℕ) (laid : IsLaid vm page heap n) where
  pub fetched :
      (m : Mem) (k : ℕ)
      → k ≤ n
      → heap + k * sizeof_ins < 2 ^ 32
      → load32 m (heap_at vm) ≡ page
      → load32 m (address_at page) ≡ heap
      → load16 m (ip_at vm) ≡ k * sizeof_ins
      → vm_get_instuction m vm ≡ heap + k * sizeof_ins
  unfolding vm_get_instuction
  fetched m k less low page_is heap_is ip_is =
      let base : heap_of m vm ≡ heap = rw page_is heap_is in rw (base, ip_is) (ground (arith, laid))

  vm_read-operand :
      (m : Mem) (k mask arg : ℕ) (rest : List Ins) (s : Registers) (o : Operand)
      → IsAt vm page heap m k rest s
      → IsOperand mask arg o
      → vm_read m vm mask arg ≡ operand_value o s
  unfolding vm_read
  vm_read-operand m k mask arg rest s (number v) at (is, e) = rw (is, e) refl
  vm_read-operand m k mask arg rest s (register r) at (is, e, general) =
      rw (is, e, reg_byte_lem vm r laid.vm_fits (omega arith)) (at.regs_are r general)

  -- The low bytes of the general registers and the flags may differ.
  abbrev pub Others : (m m₁ : Mem) → Type 0
  Others m m₁ =
      (a : ℕ)
      → ((r : ℕ) → r < 4 → a ≢ regs_at vm + 2 * r)
      → a ≢ flags_at vm
      → load8 m₁ a ≡ load8 m a

  -- What an instruction does to memory: its own registers, and nothing else.
  pub vm_run_op-execute :
      (m : Mem) (k : ℕ) (i : Ins) (rest : List Ins) (s : Registers)
      → k < n
      → IsAt vm page heap m k (i ∷ rest) s
      → (m₁ : Mem) × (vm_run_op m vm ≡ done m₁)
        × ((r : ℕ) → r < 4 → load8 m₁ (regs_at vm + 2 * r) ≡ (execute i s).regs r)
        × (load8 m₁ (flags_at vm) ≡ (execute i s).flags)
        × Others m m₁
  unfolding vm_run_op vm_ops
  vm_run_op-execute m k (move r from) rest s less at =
      let here = fetched m k (omega arith) (omega (arith, laid)) at.page_is at.heap_is at.ip_is in
      let (op, (mask, arg, general), is) = at.program.0 in
      let opcode : op_of m (vm_get_instuction m vm) ≡ 1 = rw here op in
      let read = vm_read-operand m k _ _ (move r from ∷ rest) s from at is in
      let val = operand_value from s in
      let to = regs_at vm + 2 * r in
      let moved : op_mov m vm (heap + k * sizeof_ins) ≡ store8 m to val =
        unfold op_mov in
        unfold vm_write in
        rw (read, mask, arg, reg_byte_lem vm r laid.vm_fits (omega arith)) refl in
      (
        store8 m to val,
        rw (opcode, vm_run_op) (ap (λ x. done (op_mov m vm x)) here ∙ ap done moved),
        λ q l. elim (Bool-cases (q == r)) [
          | inl same ↦ let e : q ≡ r = ground arith in rw (same, e) (load8-store8_self m to val)
          | inr other ↦
              rw other
                (load8-store8_ne m to val (regs_at vm + 2 * q) (ground arith) ∙ at.regs_are q l)
        ],
        load8-store8_ne m to val (flags_at vm) (omega arith) ∙ at.flags_are,
        λ a h o. load8-store8_ne m to val a (h r general),
      )
  vm_run_op-execute m k (compare_with a b) rest s less at =
      let here = fetched m k (omega arith) (omega (arith, laid)) at.page_is at.heap_is at.ip_is in
      let (op, first, second) = at.program.0 in
      let opcode : op_of m (vm_get_instuction m vm) ≡ 4 = rw here op in
      let x = vm_read-operand m k _ _ (compare_with a b ∷ rest) s a at first in
      let y = vm_read-operand m k _ _ (compare_with a b ∷ rest) s b at second in
      let (flags, others) = op_cmp_lem m vm (heap + k * sizeof_ins) in
      (
        op_cmp m vm (heap + k * sizeof_ins),
        rw (opcode, vm_run_op) (ap (λ x. done (op_cmp m vm x)) here),
        λ q l. others (regs_at vm + 2 * q) (omega arith) ∙ at.regs_are q l,
        flags ∙ rw (x, y, at.flags_are) refl,
        λ a h o. others a o,
      )

  -- What keeps these bytes but for the registers keeps the program, the way to it, and the status.
  laid-same :
      (m m' : Mem) (j : ℕ) (rest : List Ins)
      → j + length rest + 1 ≤ n
      → ((a : ℕ) → Spared vm page heap n a → Apart (regs_at vm) 16 a 1 → load8 m' a ≡ load8 m a)
      → (load32 m (heap_at vm) ≡ page)
      → (load32 m (address_at page) ≡ heap)
      → IsProgram m (heap + j * sizeof_ins) rest
      → (load32 m' (heap_at vm) ≡ page)
        × (load32 m' (address_at page) ≡ heap)
        × IsProgram m' (heap + j * sizeof_ins) rest
        × (load32 m' (status_at vm) ≡ load32 m (status_at vm))
  laid-same m m' j rest room same page_is heap_is program =
      let own : (w : ℕ)
          → vm ≤ w
          → w + 4 ≤ vm + sizeof_vm
          → Apart (regs_at vm) 16 w 4
          → load32 m' w ≡ load32 m w =
        λ w lo hi off.
          word-same m m' w λ a from to. same a (inl (omega arith, omega arith)) (omega arith) in
      (
        own (heap_at vm) (omega arith) (omega arith) (omega arith) ∙ page_is,
        (word-same m m' (address_at page)
              λ a from to. same a (inr (inl (omega arith, omega arith))) (omega (arith, laid)))
            ∙ heap_is,
        IsProgram-same m m' (heap + j * sizeof_ins) rest
            (λ a from to. same a (inr (inr (omega arith, omega arith))) (omega (arith, laid)))
            program,
        own (status_at vm) (omega arith) (omega arith) (omega arith),
      )

  -- The machine behind an instruction that led from `m` to `m₁`, a dump that led on to `m₂`, and the step of `ip`.
  pub next-IsAt :
      (m m₁ m₂ : Mem) (k : ℕ) (i : Ins) (rest : List Ins) (s s₁ : Registers)
      → k + length rest + 2 ≤ n
      → IsAt vm page heap m k (i ∷ rest) s
      → ((r : ℕ) → r < 4 → load8 m₁ (regs_at vm + 2 * r) ≡ s₁.regs r)
      → load8 m₁ (flags_at vm) ≡ s₁.flags
      → Others m m₁
      → ((a : ℕ) → Spared vm page heap n a → load8 m₂ a ≡ load8 m₁ a)
      → IsAt vm page heap (advanced vm m₂) (k + 1) rest s₁
        × (load32 (advanced vm m₂) (status_at vm) ≡ load32 m (status_at vm))
  next-IsAt m m₁ m₂ k i rest s s₁ room at regs flags others spares =
      let next = (load16 m₂ (ip_at vm) + sizeof_ins) % 2 ^ 16 in
      let at_ip : load16 m₂ (ip_at vm) ≡ k * sizeof_ins =
        half-same m m₂ (ip_at vm) (λ a lo hi.
          spares a (inl (omega arith, omega arith)) ∙ others a (λ r l. omega arith) (omega arith))
        ∙ at.ip_is in
      let jump : heap + k * sizeof_ins + sizeof_ins ≡ heap + (k + 1) * sizeof_ins = omega arith in
      let (page_is, heap_is, program, status) =
        laid-same m (advanced vm m₂) (k + 1) rest (omega arith)
          (λ a is off.
            load8-store16_ne m₂ (ip_at vm) next a (omega arith)
            ∙ spares a is
            ∙ others a (λ r l. omega arith) (omega arith))
          at.page_is at.heap_is (subst (λ x. IsProgram m x rest) jump at.program.1) in
      (
        record {
          page_is = page_is;
          heap_is = heap_is;
          ip_is = load16-store16_self m₂ (ip_at vm) next ∙ omega (arith, at_ip, laid);
          program = program;
          regs_are = λ q l.
              load8-store16_ne m₂ (ip_at vm) next (regs_at vm + 2 * q) (omega arith)
              ∙ spares (regs_at vm + 2 * q) (inl (omega arith, omega arith))
              ∙ regs q l;
          flags_are =
              load8-store16_ne m₂ (ip_at vm) next (flags_at vm) (omega arith)
              ∙ spares (flags_at vm) (inl (omega arith, omega arith))
              ∙ flags;
        },
        status,
      )

  pub round-IsAt :
      (dump : Mem → Mem) (m : Mem) (k : ℕ) (i : Ins) (rest : List Ins) (s : Registers)
      → ((m : Mem) (a : ℕ) → Spared vm page heap n a → load8 (dump m) a ≡ load8 m a)
      → k + length rest + 2 ≤ n
      → IsAt vm page heap m k (i ∷ rest) s
      → (m₁ : Mem) × (vm_run_op m vm ≡ done m₁)
        × IsAt vm page heap (advanced vm (dump m₁)) (k + 1) rest (execute i s)
        × (load32 (advanced vm (dump m₁)) (status_at vm) ≡ load32 m (status_at vm))
  round-IsAt dump m k i rest s spares room at =
      let (m₁, run, regs, flags, others) = vm_run_op-execute m k i rest s (omega arith) at in
      let (at', status) =
        next-IsAt m m₁ (dump m₁) k i rest s (execute i s) room at regs flags others
          (λ a is. spares m₁ a is) in
      (m₁, run, at', status)
