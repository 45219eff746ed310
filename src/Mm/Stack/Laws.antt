-- ===== src/Mm/Stack/Laws.antt =====
-- What a push leaves in the stack, and what a pop after it returns.
use d.Base.{arith, if◌then◌else◌, ℕ, ◌%◌, ◌+◌, ◌<◌, ◌==◌, ◌^◌, ◌≡◌, ◌-◌}
use d.Memory.{Mem, load32, store32}
use d.Memory.Laws.{load32-lt, load32-store32_ne, load32-store32_self}
use d.Mm.Stack.{slot, stack_push, top_at, stack_pop}

module _ (m : Mem) (s el : ℕ) (room : load32 m (top_at s) < 31) where
  -- The memory after the first of the two stores of `stack_push`.
  abbrev filled : Mem
  filled = store32 m (slot s (load32 m (top_at s))) (load32 m el)

  top-filled : load32 filled (top_at s) ≡ load32 m (top_at s)
  top-filled =
      load32-store32_ne m (slot s (load32 m (top_at s))) (load32 m el) (top_at s) (omega arith)

  top-push : load32 (stack_push m s el) (top_at s) ≡ load32 m (top_at s) + 1
  unfolding stack_push
  top-push = omega (
    arith,
    load32-store32_self filled (top_at s) ((load32 filled (top_at s) + 1) % 2 ^ 32),
    top-filled,
  )

  slot-push :
      (i : ℕ)
      → i < 32
      → load32 (stack_push m s el) (slot s i)
        ≡ (if i == load32 m (top_at s) then load32 m el else load32 m (slot s i))
  unfolding stack_push
  slot-push i h = ground (
    arith,
    load32-store32_ne filled (top_at s) ((load32 filled (top_at s) + 1) % 2 ^ 32) (slot s i),
    load32-store32_ne m (slot s (load32 m (top_at s))) (load32 m el) (slot s i),
    load32-store32_self m (slot s i) (load32 m el),
    load32-lt m el,
  )

  -- With fewer than 31 entries on the stack, `stack_push` stores the word at `el` in the slot that
  -- `top` names, and a `stack_pop` after it restores `top` but returns the word that stood one slot
  -- above the pushed one, which the push never wrote.
  pub pop-push :
      let m' = stack_push m s el in
      let (m'', popped) = stack_pop m' s in
      (load32 m' (slot s (load32 m (top_at s))) ≡ load32 m el)
      × (load32 m'' (top_at s) ≡ load32 m (top_at s))
      × (popped ≡ load32 m (slot s (load32 m (top_at s) + 1)))
  unfolding stack_pop
  pop-push =
      let m' = stack_push m s el in
      let v = (load32 m' (top_at s) + 2 ^ 32 - 1) % 2 ^ 32 in
      let e = load32-store32_self m' (top_at s) v in
      (
        ground (arith, slot-push (load32 m (top_at s))),
        omega (arith, e, top-push),
        ground (
          arith,
          e,
          top-push,
          load32-store32_ne m' (top_at s) v (slot s (load32 m (top_at s) + 1)),
          slot-push (load32 m (top_at s) + 1),
        ),
      )
