-- ===== src/Idt.antt =====
-- idt.c: the interrupt descriptors, the remapping of the interrupt controllers, and the dispatch of
-- hardware interrupts. The entry stubs are assembler: `isr` and `irq` are their addresses.
pub mod Decode
pub mod Dispatch
pub mod Pic
use d.Base.{
  Option, bit_and, if◌then◌else◌, leb, none, some, suc, zero, ℕ, ◌%◌, ◌*◌, ◌+◌, ◌-◌, ◌/◌, ◌==◌, ◌^◌,
}
use d.Ports.{Log, outb}

pub record IdtEntry : Type 0 where
  pub base_lo : ℕ
  pub sel : ℕ
  pub always0 : ℕ
  pub flags : ℕ
  pub base_hi : ℕ

-- `struct idt_entry idt[256]`, by index.
abbrev pub Idt : Type 0
Idt = ℕ → IdtEntry

pub record IdtPtr : Type 0 where
  pub limit : ℕ
  pub base : ℕ

unfoldable pub idt_set_gate : Idt → (num base sel flags : ℕ) → Idt
idt_set_gate idt num base sel flags n =
    if n == num % 256
    then record {
      base_lo = bit_and base 0xFFFF % 2 ^ 16;
      base_hi = bit_and (base / 2 ^ 16) 0xFFFF % 2 ^ 16;
      sel = sel % 2 ^ 16;
      always0 = 0;
      flags = flags % 256;
    }
    else idt n

-- `mem_set(&idt, 0, …)` clears every entry; the pointer is for `idt_load`, in assembler.
unfoldable pub idt_install : (at : ℕ) → IdtPtr × Idt
idt_install at = (
  record { limit = 8 * 256 - 1; base = at },
  λ n. record { base_lo = 0; sel = 0; always0 = 0; flags = 0; base_hi = 0 },
)

-- `count` calls of `idt_set_gate` in a row, from the vector `num` on.
unfoldable pub set_gates : (count num : ℕ) → (ℕ → ℕ) → Idt → Idt
set_gates zero num stub idt = idt
set_gates (suc count) num stub idt =
    set_gates count (num + 1) stub (idt_set_gate idt num (stub num) 0x08 0x8E)

unfoldable pub irq_remap : Log → Log
unfolding outb
irq_remap log =
    let log₁ = outb 0xA0 0x11 (outb 0x20 0x11 log) in
    let log₂ = outb 0xA1 0x28 (outb 0x21 0x20 log₁) in
    let log₃ = outb 0xA1 0x02 (outb 0x21 0x04 log₂) in
    let log₄ = outb 0xA1 0x01 (outb 0x21 0x01 log₃) in outb 0xA1 0x0 (outb 0x21 0x0 log₄)

-- `irq num` is the stub of the vector `num`, `irq0` being that of 32.
unfoldable pub irq_install : (irq : ℕ → ℕ) → Idt → Log → Idt × Log
unfolding irq_remap
irq_install irq idt log = (set_gates 16 32 irq idt, irq_remap log)

unfoldable pub init_idt : (at : ℕ) (isr irq : ℕ → ℕ) → Log → IdtPtr × Idt × Log
unfolding idt_install irq_install
init_idt at isr irq log =
    let (ptr, idt) = idt_install at in
    let (idt', log') = irq_install irq (set_gates 32 0 isr idt) log in (ptr, idt', log')

-- The kernel's state is a parameter here, with what a port operation does to it.
module _ {S : Type 0} (on_log : (Log → Log) → S → S) where
  -- `irq_routines`; the handlers of the kernel read nothing of their argument.
  abbrev pub Routines : Type 0
  Routines = ℕ → Option (S → S)

  unfoldable pub irq_install_handler : Routines → (irq : ℕ) → (S → S) → Routines
  irq_install_handler routines irq handler i = if i == irq then some handler else routines i

  unfoldable pub irq_uninstall_handler : Routines → (irq : ℕ) → Routines
  irq_uninstall_handler routines irq i = if i == irq then none else routines i

  unfoldable pub irq_handler : Routines → (int_no : ℕ) → S → S
  irq_handler routines int_no s =
      let s₁ : S = elim (routines ((int_no + 2 ^ 32 - 32) % 2 ^ 32)) [
        | none ↦ s
        | some handler ↦ handler s
      ] in
      let s₂ = if leb 40 int_no then on_log (outb 0xA0 0x20) s₁ else s₁ in
      on_log (outb 0x20 0x20) s₂
