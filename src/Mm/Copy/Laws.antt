-- ===== src/Mm/Copy/Laws.antt =====
-- What `mem_cpy` and `mem_set` leave at every address.
use d.Base.{arith, if◌then◌else◌, suc, zero, ℕ, ◌%◌, ◌+◌, ◌-◌, ◌<◌, ◌≡◌, ◌≤◌}
use d.Memory.{Mem, load8, store8}
use d.Memory.Laws.{load8-lt, load8-store8, load8-store8_ne}
use d.Mm.Copy.{copy_up, copy_down, set_loop, mem_cpy, mem_set, within}

copy_up_lem :
    (left i dst src : ℕ) (m : Mem) (b : ℕ)
    → dst < src
    → load8 (copy_up left i dst src m) b
      ≡ (if within (dst + i) left b then load8 m (src + (b - dst)) else load8 m b)
unfolding copy_up
copy_up_lem zero i dst src m b h = ground arith
copy_up_lem (suc left) i dst src m b h = ground (
  arith,
  copy_up_lem left (i + 1) dst src (store8 m (dst + i) (load8 m (src + i))) b h,
  load8-store8 m (dst + i) (load8 m (src + i)) b,
  load8-store8_ne m (dst + i) (load8 m (src + i)) (src + (b - dst)),
  load8-lt m (src + i),
)

copy_down_lem :
    (i dst src : ℕ) (m : Mem) (b : ℕ)
    → src ≤ dst
    → load8 (copy_down i dst src m) b
      ≡ (if within dst i b then load8 m (src + (b - dst)) else load8 m b)
unfolding copy_down
copy_down_lem zero dst src m b h = ground arith
copy_down_lem (suc i) dst src m b h = ground (
  arith,
  copy_down_lem i dst src (store8 m (dst + i) (load8 m (src + i))) b h,
  load8-store8 m (dst + i) (load8 m (src + i)) b,
  load8-store8_ne m (dst + i) (load8 m (src + i)) (src + (b - dst)),
  load8-lt m (src + i),
)

-- After `mem_cpy` each of the `size` bytes at `dst` is the byte that stood at the same offset from
-- `src` before the call, and every other byte of memory is unchanged, however the two ranges
-- overlap.
pub mem_cpy_lem :
    (m : Mem) (dst src size b : ℕ)
    → load8 (mem_cpy m dst src size) b
      ≡ (if within dst size b then load8 m (src + (b - dst)) else load8 m b)
unfolding mem_cpy
mem_cpy_lem m dst src size b =
    ground (arith, copy_up_lem size 0 dst src m b, copy_down_lem size dst src m b)

set_loop_lem :
    (left i dst val : ℕ) (m : Mem) (b : ℕ)
    → load8 (set_loop left i dst val m) b
      ≡ (if within (dst + i) left b then val % 256 else load8 m b)
unfolding set_loop
set_loop_lem zero i dst val m b = ground arith
set_loop_lem (suc left) i dst val m b = ground (
  arith,
  set_loop_lem left (i + 1) dst val (store8 m (dst + i) val) b,
  load8-store8 m (dst + i) val b,
)

-- After `mem_set` each of the `size` bytes at `dst` is the low byte of `val`, and every other byte
-- of memory is unchanged.
pub mem_set_lem :
    (m : Mem) (dst val size b : ℕ)
    → load8 (mem_set m dst val size) b ≡ (if within dst size b then val % 256 else load8 m b)
unfolding mem_set
mem_set_lem m dst val size b = ground (arith, set_loop_lem size 0 dst val m b)
