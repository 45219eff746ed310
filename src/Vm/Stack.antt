-- ===== src/Vm/Stack.antt =====
-- A pop behind a push.
use d.Base.{arith, ℕ, ◌%◌, ◌+◌, ◌<◌, ◌^◌, ◌∙◌, ◌≡◌, ◌≤◌, ◌*◌, ◌-◌}
use d.Memory.{Mem, load16, load32, load8, store16, store8}
use d.Memory.Laws.{
  Apart, load16-store16_self, load16-store8_ne, load32-store16_ne, load32-store8_ne,
  load8-store16_ne, load8-store8_ne, load8-lt, load8-store8_self,
}
use d.Mm.Pages.{address_at, sizeof_mp}
use d.Vm.{heap_at, heap_of, sizeof_vm, sp_at, vm_read, regs_at, vm_write}
use d.Vm.Ops.{arg0_mask_of, arg0_of, op_push, sizeof_ins, stack_byte, op_pop}
use d.Vm.Operands.{reg_byte_lem}

module _ (m : Mem) (vm ins ins' r : ℕ) (vm_fits : vm + sizeof_vm ≤ 2 ^ 32)
    (small : load16 m (sp_at vm) + 2 < 2 ^ 15)
    (no_wrap : heap_of m vm + load16 m (sp_at vm) + 3 ≤ 2 ^ 32)
    (apart_vm : Apart vm sizeof_vm (heap_of m vm + load16 m (sp_at vm)) 3)
    (apart_page : Apart (load32 m (heap_at vm)) sizeof_mp (heap_of m vm + load16 m (sp_at vm)) 3)
    (page_vm : Apart (load32 m (heap_at vm)) sizeof_mp vm sizeof_vm)
    (apart_ins : Apart ins' sizeof_ins (heap_of m vm + load16 m (sp_at vm)) 3)
    (ins_vm : Apart ins' sizeof_ins vm sizeof_vm) (general : r < 4) where
  abbrev heap : ℕ
  heap = heap_of m vm

  abbrev sp : ℕ
  sp = load16 m (sp_at vm)

  abbrev val : ℕ
  val = vm_read m vm (arg0_mask_of m ins) (arg0_of m ins)

  abbrev written : Mem
  written = store8 m (heap + sp) val

  -- The memory after the push.
  abbrev pushed : Mem
  pushed = store16 written (sp_at vm) ((sp + 2) % 2 ^ 16)

  push_eq : op_push m vm ins ≡ pushed
  unfolding op_push
  push_eq =
      let at : stack_byte m vm ≡ heap + sp = ground arith in
      rw (at, load16-store8_ne m (heap + sp) val (sp_at vm) (omega arith))

  keeps32 :
      (b : ℕ) → Apart (heap + sp) 1 b 4 → Apart (sp_at vm) 2 b 4 → load32 pushed b ≡ load32 m b
  keeps32 b h k =
      load32-store16_ne written (sp_at vm) _ b (omega arith)
      ∙ load32-store8_ne m (heap + sp) val b (omega arith)

  same_heap : heap_of pushed vm ≡ heap
  same_heap =
      rw (keeps32 (heap_at vm) (omega arith) (omega arith))
        (keeps32 (address_at (load32 m (heap_at vm))) (omega arith) (omega arith))

  next_sp : load16 pushed (sp_at vm) ≡ sp + 2
  next_sp = omega (arith, load16-store16_self written (sp_at vm) ((sp + 2) % 2 ^ 16))

  above : load8 pushed (heap + sp + 2) ≡ load8 m (heap + sp + 2)
  above =
      load8-store16_ne written (sp_at vm) _ (heap + sp + 2) (omega arith)
      ∙ load8-store8_ne m (heap + sp) val (heap + sp + 2) (omega arith)

  -- The memory before the popped value is written.
  abbrev moved : Mem
  moved = store16 pushed (sp_at vm) ((sp + 1) % 2 ^ 16)

  ins8 : (i : ℕ) → i < sizeof_ins → load8 moved (ins' + i) ≡ load8 m (ins' + i)
  ins8 i h =
      load8-store16_ne pushed (sp_at vm) _ (ins' + i) (omega arith)
      ∙ load8-store16_ne written (sp_at vm) _ (ins' + i) (omega arith)
      ∙ load8-store8_ne m (heap + sp) val (ins' + i) (omega arith)

  pop_eq :
      arg0_mask_of m ins' ≡ 1
      → arg0_of m ins' ≡ r
      → op_pop pushed vm ins' ≡ store8 moved (regs_at vm + 2 * r) (load8 m (heap + sp + 2))
  unfolding op_pop vm_write
  pop_eq mask arg =
      let at : stack_byte pushed vm ≡ heap + sp + 2 = rw (same_heap, next_sp) (ground arith) in
      let down : (load16 pushed (sp_at vm) + 2 ^ 16 - 1) % 2 ^ 16 ≡ (sp + 1) % 2 ^ 16 =
        omega (arith, next_sp) in
      let mask' : arg0_mask_of moved ins' ≡ 1 = ins8 2 (omega arith) ∙ mask in
      let arg' : arg0_of moved ins' ≡ r =
        unfold load16 in
        (let four = ins8 4 (omega arith) in
          let five = ins8 5 (omega arith) in
          let five_at : ins' + 4 + 1 ≡ ins' + 5 = omega arith in
          rw (five_at, four, five) (rw five_at at arg)) in
      rw (at, down, above, mask', arg', reg_byte_lem vm r vm_fits (omega arith))

  -- When `sp` is not negative, nothing wraps around, and the stack's bytes are apart from the
  -- machine, its page's record and the instruction, and these from the machine, a pop of a general
  -- register behind a push leaves `sp` one above where it was, and gives the register the byte two
  -- above the pushed one, which the push did not write.
  pub op_pop-op_push :
      arg0_mask_of m ins' ≡ 1
      → arg0_of m ins' ≡ r
      → let m' = op_pop (op_push m vm ins) vm ins' in
        (load16 m' (sp_at vm) ≡ load16 m (sp_at vm) + 1)
        × (vm_read m' vm 1 r ≡ load8 m (heap_of m vm + load16 m (sp_at vm) + 2))
  unfolding vm_read
  op_pop-op_push mask arg =
      rw (push_eq, pop_eq mask arg, reg_byte_lem vm r vm_fits (omega arith))
        (
          load16-store8_ne moved (regs_at vm + 2 * r) _ (sp_at vm) (omega arith)
              ∙ omega (arith, load16-store16_self pushed (sp_at vm) ((sp + 1) % 2 ^ 16)),
          load8-store8_self moved (regs_at vm + 2 * r) _
              ∙ omega (arith, load8-lt m (heap + sp + 2)),
        )
