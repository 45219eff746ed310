-- ===== src/Memory/Laws.antt =====
-- The laws of loads after stores.
use d.Base.{ℕ, ◌+◌, ◌%◌, ◌^◌, ◌≤◌, ◌<◌, ◌≡◌, ◌≢◌, ◌⊎◌, arith, ◌==◌, if◌then◌else◌, ◌/◌, ◌∙◌}
use d.Memory.{Mem, load8, store8, load16, store16, load32, store32}

pub load8-store8 :
    (m : Mem) (a v b : ℕ) → load8 (store8 m a v) b ≡ (if b == a then v % 256 else load8 m b)
unfolding load8 store8
load8-store8 m a v b = ground arith

pub load8-store8_self : (m : Mem) (a v : ℕ) → load8 (store8 m a v) a ≡ v % 256
unfolding load8 store8
load8-store8_self m a v = ground arith

pub load8-store8_ne : (m : Mem) (a v b : ℕ) → b ≢ a → load8 (store8 m a v) b ≡ load8 m b
unfolding load8 store8
load8-store8_ne m a v b h = ground arith

pub load8-lt : (m : Mem) (a : ℕ) → load8 m a < 256
unfolding load8
load8-lt m a = omega arith

pub load16-lt : (m : Mem) (a : ℕ) → load16 m a < 2 ^ 16
unfolding load16 load8
load16-lt m a = omega arith

pub load32-lt : (m : Mem) (a : ℕ) → load32 m a < 2 ^ 32
unfolding load32 load8
load32-lt m a = omega arith

-- The two ranges of `n` and `k` bytes do not meet.
abbrev pub Apart : ℕ → ℕ → ℕ → ℕ → Type 0
Apart a n b k = (a + n ≤ b) ⊎ (b + k ≤ a)

pub load8-store16_ne : (m : Mem) (a v b : ℕ) → Apart a 2 b 1 → load8 (store16 m a v) b ≡ load8 m b
unfolding store16
load8-store16_ne m a v b h =
    load8-store8_ne (store8 m a v) (a + 1) _ b (omega arith) ∙ load8-store8_ne m a v b (omega arith)

pub load16-store16_self : (m : Mem) (a v : ℕ) → load16 (store16 m a v) a ≡ v % 2 ^ 16
unfolding load16 store16
load16-store16_self m a v = ground (
  arith,
  load8-store8 (store8 m a v) (a + 1) (v / 256) a,
  load8-store8 (store8 m a v) (a + 1) (v / 256) (a + 1),
  load8-store8_self m a v,
)

pub load16-store16_ne :
    (m : Mem) (a v b : ℕ) → Apart a 2 b 2 → load16 (store16 m a v) b ≡ load16 m b
unfolding load16
load16-store16_ne m a v b h =
    omega
      (arith, load8-store16_ne m a v b (omega arith), load8-store16_ne m a v (b + 1) (omega arith))

pub load8-store32_ne : (m : Mem) (a v b : ℕ) → Apart a 4 b 1 → load8 (store32 m a v) b ≡ load8 m b
unfolding store32 store8 load8
load8-store32_ne m a v b h = ground arith

load8-store32 :
    (m : Mem) (a v : ℕ)
    → (load8 (store32 m a v) a ≡ v % 256)
      × (load8 (store32 m a v) (a + 1) ≡ v / 256 % 256)
      × (load8 (store32 m a v) (a + 2) ≡ v / 65536 % 256)
      × (load8 (store32 m a v) (a + 3) ≡ v / 16777216 % 256)
unfolding store32 store8 load8
load8-store32 m a v = (ground arith, ground arith, ground arith, ground arith)

pub load32-store32_self : (m : Mem) (a v : ℕ) → load32 (store32 m a v) a ≡ v % 2 ^ 32
unfolding load32
load32-store32_self m a v = omega (arith, load8-store32 m a v)

pub load32-store32_ne :
    (m : Mem) (a v b : ℕ) → Apart a 4 b 4 → load32 (store32 m a v) b ≡ load32 m b
unfolding load32
load32-store32_ne m a v b h = omega (
  arith,
  load8-store32_ne m a v b (omega arith),
  load8-store32_ne m a v (b + 1) (omega arith),
  load8-store32_ne m a v (b + 2) (omega arith),
  load8-store32_ne m a v (b + 3) (omega arith),
)

pub load16-store8_ne : (m : Mem) (a v b : ℕ) → Apart a 1 b 2 → load16 (store8 m a v) b ≡ load16 m b
unfolding load16
load16-store8_ne m a v b h =
    omega
      (arith, load8-store8_ne m a v b (omega arith), load8-store8_ne m a v (b + 1) (omega arith))

pub load32-store8_ne : (m : Mem) (a v b : ℕ) → Apart a 1 b 4 → load32 (store8 m a v) b ≡ load32 m b
unfolding load32
load32-store8_ne m a v b h = omega (
  arith,
  load8-store8_ne m a v b (omega arith),
  load8-store8_ne m a v (b + 1) (omega arith),
  load8-store8_ne m a v (b + 2) (omega arith),
  load8-store8_ne m a v (b + 3) (omega arith),
)

pub load32-store16_ne :
    (m : Mem) (a v b : ℕ) → Apart a 2 b 4 → load32 (store16 m a v) b ≡ load32 m b
unfolding load32
load32-store16_ne m a v b h = omega (
  arith,
  load8-store16_ne m a v b (omega arith),
  load8-store16_ne m a v (b + 1) (omega arith),
  load8-store16_ne m a v (b + 2) (omega arith),
  load8-store16_ne m a v (b + 3) (omega arith),
)
