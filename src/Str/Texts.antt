-- ===== src/Str/Texts.antt =====
-- A zero-terminated text in memory.
use d.Base.{All, ◌<◌, List, [], arith, ℕ, ◌+◌, ◌∷◌, ◌≡◌, ◌≢◌, ◌≤◌, length, ◌∙◌}
use d.Memory.{Mem, load8}

-- The bytes `xs`, none of them zero, stand at `p`, and a zero byte behind them.
abbrev pub IsText : Mem → ℕ → List ℕ → Type 0
IsText m p [] = load8 m p ≡ 0
IsText m p (x ∷ xs) = (load8 m p ≡ x) × (x ≢ 0) × IsText m (p + 1) xs

-- The bytes `xs` stand at `p`.
abbrev pub Bytes : Mem → (p : ℕ) → List ℕ → Type 0
Bytes m p [] = Unit {0}
Bytes m p (x ∷ xs) = (load8 m p ≡ x) × Bytes m (p + 1) xs

pub Bytes-window :
    (m m' : Mem) (p : ℕ) (xs : List ℕ)
    → ((a : ℕ) → p ≤ a → a < p + length xs → load8 m' a ≡ load8 m a)
    → Bytes m p xs
    → Bytes m' p xs
Bytes-window m m' p [] same t = tt
Bytes-window m m' p (x ∷ xs) same t = (
  same p (omega arith) (omega arith) ∙ t.0,
  Bytes-window m m' (p + 1) xs (λ a lo hi. same a (omega arith) (omega arith)) t.1,
)

pub IsText-Bytes :
    (m : Mem) (p : ℕ) (xs : List ℕ)
    → All (λ x. x ≢ 0) xs
    → load8 m (p + length xs) ≡ 0
    → Bytes m p xs
    → IsText m p xs
IsText-Bytes m p [] ne end t = let here : p + 0 ≡ p = omega arith in rw here at end
IsText-Bytes m p (x ∷ xs) ne end t =
    let next : p + length (x ∷ xs) ≡ p + 1 + length xs = omega arith in
    (t.0, ne.0, IsText-Bytes m (p + 1) xs ne.1 (rw next at end) t.1)

-- A text is kept by every change that spares its bytes and its terminator.
pub IsText-frame :
    (m m' : Mem) (p : ℕ) (xs : List ℕ)
    → ((a : ℕ) → p ≤ a → load8 m' a ≡ load8 m a)
    → IsText m p xs
    → IsText m' p xs
IsText-frame m m' p [] same t = ground (arith, same p)
IsText-frame m m' p (x ∷ xs) same t =
    (ground (arith, same p), t.1, IsText-frame m m' (p + 1) xs (λ a h. same a (omega arith)) t.2)

-- The same, of the text's own bytes alone.
pub IsText-window :
    (m m' : Mem) (p : ℕ) (xs : List ℕ)
    → ((a : ℕ) → p ≤ a → a ≤ p + length xs → load8 m' a ≡ load8 m a)
    → IsText m p xs
    → IsText m' p xs
IsText-window m m' p [] same t = same p (omega arith) (omega arith) ∙ t
IsText-window m m' p (x ∷ xs) same t = (
  same p (omega arith) (omega arith) ∙ t.0,
  t.1,
  IsText-window m m' (p + 1) xs (λ a lo hi. same a (omega arith) (omega arith)) t.2,
)
