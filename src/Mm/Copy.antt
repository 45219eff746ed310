-- ===== src/Mm/Copy.antt =====
-- `mem_cpy` and `mem_set` of mem.c. Each loop is a function of its own. Both C functions return at
-- most the pointer that they were given, so the model returns the memory alone.
use d.Base.{Bool, if◌then◌else◌, leb, ltb, suc, zero, ℕ, ◌&&◌, ◌+◌}
pub mod Laws
use d.Memory.{Mem, load8, store8}

-- `for (i = 0; i < size; i++) dst[i] = src[i]`, at index `i` with `left` rounds to go.
copy_up : (left i dst src : ℕ) → Mem → Mem
copy_up zero i dst src m = m
copy_up (suc left) i dst src m =
    copy_up left (i + 1) dst src (store8 m (dst + i) (load8 m (src + i)))

-- `for (i = size; i != 0; i--) dst[i - 1] = src[i - 1]`.
copy_down : (i dst src : ℕ) → Mem → Mem
copy_down zero dst src m = m
copy_down (suc i) dst src m = copy_down i dst src (store8 m (dst + i) (load8 m (src + i)))

unfoldable pub mem_cpy : Mem → (dst src size : ℕ) → Mem
unfolding copy_up copy_down
mem_cpy m dst src size = if ltb dst src then copy_up size 0 dst src m else copy_down size dst src m

-- `for (i = 0; i < size; i++) d[i] = val`, at index `i`. `val` is a `char`, as its byte.
set_loop : (left i dst val : ℕ) → Mem → Mem
set_loop zero i dst val m = m
set_loop (suc left) i dst val m = set_loop left (i + 1) dst val (store8 m (dst + i) val)

unfoldable pub mem_set : Mem → (dst val size : ℕ) → Mem
unfolding set_loop
mem_set m dst val size = set_loop size 0 dst val m

-- The `b`th address lies in the `n` bytes from `a` on.
abbrev pub within : ℕ → ℕ → ℕ → Bool
within a n b = leb a b && ltb b (a + n)
