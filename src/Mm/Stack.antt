-- ===== src/Mm/Stack.antt =====
-- `stack_t` of mem.c: 32 words, then `top` at offset 128.
pub mod Laws
use d.Base.{ℕ, ◌%◌, ◌*◌, ◌+◌, ◌-◌, ◌^◌}
use d.Memory.{Mem, load32, store32}

abbrev pub top_at : ℕ → ℕ
top_at s = s + 128

abbrev pub slot : ℕ → ℕ → ℕ
slot s i = s + 4 * i

unfoldable pub init_stack : Mem → ℕ → Mem
init_stack m s = store32 m (top_at s) 0

-- `stack->data[stack->top] = *((int*)el); stack->top++;`
unfoldable pub stack_push : Mem → (s el : ℕ) → Mem
stack_push m s el =
    let m' = store32 m (slot s (load32 m (top_at s))) (load32 m el) in
    store32 m' (top_at s) ((load32 m' (top_at s) + 1) % 2 ^ 32)

-- `stack->top--; return stack->data[stack->top + 1];`, with the popped word.
unfoldable pub stack_pop : Mem → (s : ℕ) → Mem × ℕ
stack_pop m s =
    let m' = store32 m (top_at s) ((load32 m (top_at s) + 2 ^ 32 - 1) % 2 ^ 32) in
    (m', load32 m' (slot s ((load32 m' (top_at s) + 1) % 2 ^ 32)))
