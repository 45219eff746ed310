-- ===== src/Idt/Decode.antt =====
-- The vectors as the processor reads them.
use d.Base.{
  arith, bit_and_mask, false, refl, suc, true, zero, ℕ, ℕ_discrete, ◌%◌, ◌*◌, ◌+◌, ◌/◌, ◌<◌, ◌==◌,
  ◌^◌, ◌∙◌, ◌≡◌, ◌≢◌, ◌≤◌, ◌⊎◌,
}
use d.Idt.{Idt, IdtEntry, idt_set_gate, set_gates, idt_install, init_idt, irq_install}
use d.Ports.{Log}

-- The entry sends its interrupt to `target`, in the kernel's code segment, as a present interrupt
-- gate of ring 0.
pub record IsGate (e : IdtEntry) (target : ℕ) : Type 0 where
  pub target_eq : e.base_lo + e.base_hi * 2 ^ 16 ≡ target
  pub segment : e.sel ≡ 0x08
  pub zero_byte : e.always0 ≡ 0
  pub present : e.flags ≡ 0x8E

IsGate-set :
    (idt : Idt) (num target : ℕ)
    → num < 256
    → target < 2 ^ 32
    → IsGate (idt_set_gate idt num target 0x08 0x8E num) target
unfolding idt_set_gate
IsGate-set idt num target h t =
    let here : (num == num % 256) ≡ true = ground arith in
    rw (here, bit_and_mask 16 target, bit_and_mask 16 (target / 2 ^ 16)) (omega arith)

set-other :
    (idt : Idt) (num target n : ℕ)
    → num < 256
    → n ≢ num
    → idt_set_gate idt num target 0x08 0x8E n ≡ idt n
unfolding idt_set_gate
set-other idt num target n h o = let there : (n == num % 256) ≡ false = ground arith in rw there

set_gates-other :
    (count num : ℕ) (stub : ℕ → ℕ) (idt : Idt) (n : ℕ)
    → num + count ≤ 256
    → (n < num) ⊎ (num + count ≤ n)
    → set_gates count num stub idt n ≡ idt n
unfolding set_gates
set_gates-other zero num stub idt n h o = refl
set_gates-other (suc count) num stub idt n h o =
    set_gates-other count (num + 1) stub (idt_set_gate idt num (stub num) 0x08 0x8E) n (omega arith)
      (omega arith)
    ∙ set-other idt num (stub num) n (omega arith) (omega arith)

set_gates-IsGate :
    (count num : ℕ) (stub : ℕ → ℕ) (idt : Idt) (n : ℕ)
    → num + count ≤ 256
    → num ≤ n
    → n < num + count
    → stub n < 2 ^ 32
    → IsGate (set_gates count num stub idt n) (stub n)
unfolding set_gates
set_gates-IsGate zero num stub idt n h lo hi t = absurd (omega arith)
set_gates-IsGate (suc count) num stub idt n h lo hi t = elim (ℕ_discrete n num) [
  | yes e ↦
      rw
        (
          e,
          set_gates-other count (num + 1) stub (idt_set_gate idt num (stub num) 0x08 0x8E) num
              (omega arith) (omega arith),
        )
        (IsGate-set idt num (stub num) (omega arith) (rw e at t))
  | no o ↦
      set_gates-IsGate count (num + 1) stub (idt_set_gate idt num (stub num) 0x08 0x8E) n
        (omega arith) (omega arith) (omega arith) t
]

-- When the stubs of number `n` have 32-bit addresses, after `init_idt` the vector `n` leads to the
-- exception stub of that number if it is below 32, to the interrupt stub if it is from 32 to 47,
-- and is empty, and so not present, if it is from 48 to 255. The pointer has the table's address and
-- the limit of 256 entries.
pub init_idt-IsGate :
    (at : ℕ) (isr irq : ℕ → ℕ) (log : Log) (n : ℕ)
    → isr n < 2 ^ 32
    → irq n < 2 ^ 32
    → n < 256
    → let (ptr, idt, log') = init_idt at isr irq log in
      (n < 32 → IsGate (idt n) (isr n))
      × (32 ≤ n → n < 48 → IsGate (idt n) (irq n))
      × (48 ≤ n → (idt n).flags ≡ 0)
      × (ptr.base ≡ at)
      × (ptr.limit + 1 ≡ 8 * 256)
unfolding init_idt irq_install
init_idt-IsGate at isr irq log n i q b =
    let empty = (idt_install at).1 in
    let isrs = set_gates 32 0 isr empty in
    (
      (λ h.
          rw (set_gates-other 16 32 irq isrs n (omega arith) (omega arith))
            (set_gates-IsGate 32 0 isr empty n (omega arith) (omega arith) (omega arith) i)),
      (λ h k. set_gates-IsGate 16 32 irq isrs n (omega arith) (omega arith) (omega arith) q),
      (λ h.
          rw
            (
              set_gates-other 16 32 irq isrs n (omega arith) (omega arith),
              set_gates-other 32 0 isr empty n (omega arith) (omega arith),
            )
            refl),
      refl,
      refl,
    )
