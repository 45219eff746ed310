-- ===== src/Memory.antt =====
-- The flat memory of the machine (no paging): one byte at each address, and the loads and stores
-- of the widths that the C code uses, little-endian. A cell holds a number whose low eight bits
-- are the byte; a load reads those bits.
pub mod Laws
pub mod Words
use d.Base.{ℕ, ◌+◌, ◌*◌, ◌/◌, ◌%◌, ◌==◌, if◌then◌else◌}

abbrev pub Mem : Type 0
Mem = ℕ → ℕ

unfoldable pub load8 : Mem → ℕ → ℕ
load8 m a = m a % 256

unfoldable pub store8 : Mem → ℕ → ℕ → Mem
store8 m a v b = if b == a then v else m b

unfoldable pub load16 : Mem → ℕ → ℕ
load16 m a = load8 m a + 256 * load8 m (a + 1)

unfoldable pub store16 : Mem → ℕ → ℕ → Mem
store16 m a v = store8 (store8 m a v) (a + 1) (v / 256)

unfoldable pub load32 : Mem → ℕ → ℕ
load32 m a =
    load8 m a + 256 * load8 m (a + 1) + 65536 * load8 m (a + 2) + 16777216 * load8 m (a + 3)

unfoldable pub store32 : Mem → ℕ → ℕ → Mem
store32 m a v =
    store8 (store8 (store8 (store8 m a v) (a + 1) (v / 256)) (a + 2) (v / 65536)) (a + 3)
      (v / 16777216)
