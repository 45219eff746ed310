-- ===== src/Str/Scan.antt =====
-- `strlen`, `strcmp` and `strchr` on texts.
use mathlib.Core.Path.{ap₂}
use mathlib.Core.List.{tail}
use d.Base.{
  Bool-cases, List, [], arith, inl, inr, length, some, suc, zero, ℕ, ◌+◌, ◌<◌, ◌==◌, ◌↔◌, ◌∷◌, ◌≡◌,
  ◌≤◌, ap, false, has, refl, true, ◌≢◌,
}
use d.Memory.{Mem, load8}
use d.Str.{strcmp, strlen, strlen_loop, strchr}
use d.Str.Texts.{IsText}

strlen_loop-length :
    (fuel : ℕ) (m : Mem) (str ret p : ℕ) (xs : List ℕ)
    → p ≡ str + ret
    → IsText m p xs
    → length xs < fuel
    → strlen_loop fuel m str ret ≡ some (ret + length xs)
unfolding strlen_loop
strlen_loop-length zero m str ret p xs e t h = absurd (omega arith)
strlen_loop-length (suc fuel) m str ret p [] e t h = ground arith
strlen_loop-length (suc fuel) m str ret p (x ∷ xs) e t h =
    ground (arith, strlen_loop-length fuel m str (ret + 1) (p + 1) xs (omega arith) t.2)

-- With more fuel than bytes, `strlen` of a text is the number of bytes before the terminator.
pub strlen-length :
    (fuel : ℕ) (m : Mem) (str : ℕ) (xs : List ℕ)
    → IsText m str xs
    → length xs < fuel
    → strlen fuel m str ≡ some (length xs)
unfolding strlen
strlen-length fuel m str xs t h =
    ground (arith, strlen_loop-length fuel m str 0 str xs (omega arith) t h)

-- With more fuel than bytes, `strcmp` of two texts answers 1 if they are equal and 0 if not.
pub strcmp-eq :
    (fuel : ℕ) (m : Mem) (p₁ p₂ : ℕ) (xs ys : List ℕ)
    → IsText m p₁ xs
    → IsText m p₂ ys
    → length xs < fuel
    → (r : ℕ) × (strcmp fuel m p₁ p₂ ≡ some r) × (r ≤ 1) × ((r ≡ 1) ↔ (xs ≡ ys))
unfolding strcmp
strcmp-eq zero m p₁ p₂ xs ys t u h = absurd (omega arith)
strcmp-eq (suc fuel) m p₁ p₂ [] [] t u h = (1, ground arith, omega arith, ground arith)
strcmp-eq (suc fuel) m p₁ p₂ [] (y ∷ ys) t u h = (0, ground arith, omega arith, ground arith)
strcmp-eq (suc fuel) m p₁ p₂ (x ∷ xs) [] t u h = (0, ground arith, omega arith, ground arith)
strcmp-eq (suc fuel) m p₁ p₂ (x ∷ xs) (y ∷ ys) t u h = elim (Bool-cases (x == y)) [
  | inl same ↦
      let (r, eq, small, iff) = strcmp-eq fuel m (p₁ + 1) (p₂ + 1) xs ys t.2 u.2 (omega arith) in
      (
        r,
        ground arith,
        small,
        ((λ e. ap₂ ◌∷◌ (ground arith) (iff.0 e)), λ e. iff.1 (ap (λ l. tail l) e)),
      )
  | inr other ↦ (0, ground arith, omega arith, ground arith)
]

-- `r` is the address of the first byte `c` of the text `xs` at `s`.
pub record IsFirst (m : Mem) (s c : ℕ) (xs : List ℕ) (r : ℕ) : Type 0 where
  pub from : s ≤ r
  pub below : r < s + length xs
  pub here : load8 m r ≡ c
  pub none_before : (a : ℕ) → s ≤ a → a < r → load8 m a ≢ c

-- For a byte `c` other than zero and with more fuel than bytes, `strchr` answers the address of the
-- first `c` of the text if it has one, and NULL if it has none.
pub strchr-IsFirst :
    (fuel : ℕ) (m : Mem) (s c : ℕ) (xs : List ℕ)
    → IsText m s xs
    → c ≢ 0
    → c < 256
    → length xs < fuel
    → (r : ℕ) × (strchr fuel m s c ≡ some r)
      × (has c xs ≡ false → r ≡ 0)
      × (has c xs ≡ true → IsFirst m s c xs r)
unfolding strchr
strchr-IsFirst zero m s c xs t n b h = absurd (omega arith)
strchr-IsFirst (suc fuel) m s c [] t n b h = (0, ground arith, (λ e. refl), λ e. cc)
strchr-IsFirst (suc fuel) m s c (x ∷ xs) t n b h = elim (Bool-cases (c == x)) [
  | inl same ↦ (
    s,
    ground arith,
    (λ e. ground arith),
    λ e. record {
      from = omega arith;
      below = omega arith;
      here = ground arith;
      none_before = λ a p q. absurd (omega arith);
    },
  )
  | inr other ↦
      let (r, eq, absent, present) = strchr-IsFirst fuel m (s + 1) c xs t.2 n b (omega arith) in
      (
        r,
        ground arith,
        (λ e. absent (ground arith)),
        λ e.
            let f = present (ground arith) in
            record {
              from = omega (arith, f.from);
              below = omega (arith, f.below);
              here = f.here;
              none_before = λ a p q. ground (arith, f.none_before a);
            },
      )
]
