-- ===== src/Memory/Words.antt =====
-- Words and the bytes that they stand for.
use mathlib.Core.Path.{subst}
use native.Mathlib.Numerals.{unary_clauses}
use d.Base.{Bool-cases, inl, inr, leb, zero, suc, arith, ℕ, ◌+◌, ◌*◌, ◌-◌, ◌<◌, ◌≡◌, ◌≤◌}
use d.Memory.{load16, Mem, load32, load8}
use d.Memory.Laws.{load8-lt}

bytes_once :
    (a b c d x y z w : ℕ)
    → a < 256
    → b < 256
    → c < 256
    → x < 256
    → y < 256
    → z < 256
    → a + 256 * b + 65536 * c + 16777216 * d ≡ x + 256 * y + 65536 * z + 16777216 * w
    → (a ≡ x) × (b ≡ y) × (c ≡ z) × (d ≡ w)
bytes_once a b c d x y z w ha hb hc hx hy hz e =
    (omega arith, omega arith, omega arith, omega arith)

four_bytes :
    (m m' : Mem) (w : ℕ)
    → load32 m' w ≡ load32 m w
    → (load8 m' w ≡ load8 m w)
      × (load8 m' (w + 1) ≡ load8 m (w + 1))
      × (load8 m' (w + 2) ≡ load8 m (w + 2))
      × (load8 m' (w + 3) ≡ load8 m (w + 3))
unfolding load32
four_bytes m m' w e =
    bytes_once _ _ _ _ _ _ _ _ (load8-lt m' w) (load8-lt m' (w + 1)) (load8-lt m' (w + 2))
      (load8-lt m w) (load8-lt m (w + 1)) (load8-lt m (w + 2)) e

nth_byte :
    (m m' : Mem) (w k : ℕ) → load32 m' w ≡ load32 m w → k < 4 → load8 m' (w + k) ≡ load8 m (w + k)
nth_byte m m' w zero e h = simp unary_clauses (four_bytes m m' w e).0
nth_byte m m' w (suc zero) e h = (four_bytes m m' w e).1
nth_byte m m' w (suc (suc zero)) e h = (four_bytes m m' w e).2
nth_byte m m' w (suc (suc (suc zero))) e h = (four_bytes m m' w e).3
nth_byte m m' w (suc (suc (suc (suc k)))) e h = absurd (omega arith)

word_bytes :
    (m m' : Mem) (w a : ℕ) → load32 m' w ≡ load32 m w → w ≤ a → a < w + 4 → load8 m' a ≡ load8 m a
word_bytes m m' w a e lo hi =
    let at : w + (a - w) ≡ a = omega arith in
    subst (λ (x : ℕ). load8 m' x ≡ load8 m x) at (nth_byte m m' w (a - w) e (omega arith))

-- The bytes of a range of four or more are kept where its words are, and a word where its bytes are.
pub bytes-same :
    (m m' : Mem) (lo n : ℕ)
    → 4 ≤ n
    → ((w : ℕ) → lo ≤ w → w + 4 ≤ lo + n → load32 m' w ≡ load32 m w)
    → (a : ℕ) → lo ≤ a
    → a < lo + n
    → load8 m' a ≡ load8 m a
bytes-same m m' lo n size same a from to = elim (Bool-cases (leb (a + 4) (lo + n))) [
  | inl room ↦ word_bytes m m' a a (same a from (ground arith)) (omega arith) (omega arith)
  | inr last ↦
      let w = lo + n - 4 in
      word_bytes m m' w a (same w (omega arith) (omega arith)) (ground arith) (omega arith)
]

pub word-same :
    (m m' : Mem) (w : ℕ)
    → ((a : ℕ) → w ≤ a → a < w + 4 → load8 m' a ≡ load8 m a)
    → load32 m' w ≡ load32 m w
unfolding load32
word-same m m' w same = omega (
  arith,
  same w (omega arith) (omega arith),
  same (w + 1) (omega arith) (omega arith),
  same (w + 2) (omega arith) (omega arith),
  same (w + 3) (omega arith) (omega arith),
)

-- A 16-bit word is kept where its bytes are.
pub half-same :
    (m m' : Mem) (w : ℕ)
    → ((a : ℕ) → w ≤ a → a < w + 2 → load8 m' a ≡ load8 m a)
    → load16 m' w ≡ load16 m w
unfolding load16
half-same m m' w same =
    omega (arith, same w (omega arith) (omega arith), same (w + 1) (omega arith) (omega arith))
