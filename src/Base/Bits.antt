-- ===== src/Base/Bits.antt =====
-- `&` with a mask of low bits and `|` of fields that do not meet, as arithmetic; and facts about a
-- byte by checking every value.
use Prim.Native.Nat.{min, max, digits, bit_and-bitwise, bit_or-bitwise, ◌-◌, ◌*◌, ◌/◌, ◌%◌, ◌^◌}
use Prim.Native.Nat.{ℕ, zero, suc, ◌+◌, ◌≤◌, ◌<◌, bit_and, bit_or}
use native.Mathlib.Nat.{pow-suc, one-le-pow, le_refl, div-add-mod', mod-lt}
use mathlib.Core.Path.{◌≡◌, refl, sym, ap, ◌∙◌}
use mathlib.Core.Bool.{Bool, true, ◌&&◌}
use native.Mathlib.Omega.{arith}
use d.Base.Tests.{◌==◌}

-- The recursion on binary digits that `bit_and` stands for, with its fuel.
mask_digits :
    (k n a q r : ℕ)
    → a ≤ n
    → a ≡ q * 2 ^ k + r
    → r < 2 ^ k
    → digits (λ b. zero) min n a (2 ^ k - 1) ≡ r
mask_digits k zero zero q r h e l = omega arith
mask_digits k zero (suc a) q r h e l = absurd (omega arith)
mask_digits k (suc n) zero q r h e l = omega arith
mask_digits zero (suc n) (suc a) q r h e l =
    omega (
      arith,
      mask_digits zero n (suc a / 2) (suc a / 2) 0 (omega arith) (omega arith) (omega arith),
    )
mask_digits (suc k) (suc n) (suc a) q r h e l =
    let p = pow-suc 2 k in
    let double : q * 2 ^ suc k ≡ 2 * (q * 2 ^ k) = omega (arith, ap (λ (t : ℕ). q * t) p) in
    let positive : 1 ≤ 2 ^ k = one-le-pow k 2 (omega arith) in
    let halved : (2 ^ suc k - 1) / 2 ≡ 2 ^ k - 1 = omega (arith, p, positive) in
    let rest = mask_digits k n (suc a / 2) q (r / 2) (omega arith) (omega arith) (omega arith) in
    rw halved (omega (arith, rest, p, positive))

-- `a & (2 ^ k - 1)` is the remainder by `2 ^ k`.
pub bit_and_mask : (k a : ℕ) → bit_and a (2 ^ k - 1) ≡ a % 2 ^ k
bit_and_mask k a =
    bit_and-bitwise a (2 ^ k - 1)
    ∙ mask_digits k a a (a / 2 ^ k) (a % 2 ^ k) (le_refl a) (sym (div-add-mod' a (2 ^ k)))
        (mod-lt a (one-le-pow k 2 (omega arith)))

or_digits-zero : (n a : ℕ) → a ≤ n → digits (λ b. b) max n a 0 ≡ a
or_digits-zero zero zero h = refl
or_digits-zero zero (suc a) h = absurd (omega arith)
or_digits-zero (suc n) zero h = refl
or_digits-zero (suc n) (suc a) h = omega (arith, or_digits-zero n (suc a / 2) (omega arith))

or_digits : (k n a q r : ℕ) → a ≤ n → a ≡ q * 2 ^ k → r < 2 ^ k → digits (λ b. b) max n a r ≡ a + r
or_digits k zero zero q r h e l = omega arith
or_digits k zero (suc a) q r h e l = absurd (omega arith)
or_digits k (suc n) zero q r h e l = omega arith
or_digits zero (suc n) (suc a) q zero h e l = or_digits-zero (suc n) (suc a) h ∙ omega arith
or_digits zero (suc n) (suc a) q (suc r) h e l = absurd (omega arith)
or_digits (suc k) (suc n) (suc a) q r h e l =
    let p = pow-suc 2 k in
    let double : q * 2 ^ suc k ≡ 2 * (q * 2 ^ k) = omega (arith, ap (λ (t : ℕ). q * t) p) in
    omega (arith, or_digits k n (suc a / 2) q (r / 2) (omega arith) (omega arith) (omega arith))

-- `(q << k) | r` is a sum when `r` has at most `k` bits.
pub bit_or_fields : (k q r : ℕ) → r < 2 ^ k → bit_or (q * 2 ^ k) r ≡ q * 2 ^ k + r
bit_or_fields k q r l =
    bit_or-bitwise (q * 2 ^ k) r ∙ or_digits k (q * 2 ^ k) (q * 2 ^ k) q r (le_refl _) refl l

or_digits_low :
    (k n r q : ℕ) → r ≤ n → r < 2 ^ k → digits (λ b. b) max n r (q * 2 ^ k) ≡ r + q * 2 ^ k
or_digits_low k zero zero q h l = omega arith
or_digits_low k zero (suc r) q h l = absurd (omega arith)
or_digits_low k (suc n) zero q h l = omega arith
or_digits_low zero (suc n) (suc r) q h l = absurd (omega arith)
or_digits_low (suc k) (suc n) (suc r) q h l =
    let p = pow-suc 2 k in
    let double : q * 2 ^ suc k ≡ 2 * (q * 2 ^ k) = omega (arith, ap (λ (t : ℕ). q * t) p) in
    let half : q * 2 ^ suc k / 2 ≡ q * 2 ^ k = omega arith in
    rw half (omega (arith, or_digits_low k n (suc r / 2) q (omega arith) (omega arith)))

-- `r | (q << k)`, the fields in the other order.
pub bit_or_low : (k r q : ℕ) → r < 2 ^ k → bit_or r (q * 2 ^ k) ≡ r + q * 2 ^ k
bit_or_low k r q l = bit_or-bitwise r (q * 2 ^ k) ∙ or_digits_low k r r q (le_refl _) l

-- A test that holds at every number below `n`, by evaluation.
unfoldable pub all_below : ℕ → (ℕ → Bool) → Bool
all_below zero p = true
all_below (suc n) p = p n && all_below n p

pub all_below_sound : (n : ℕ) (p : ℕ → Bool) (x : ℕ) → all_below n p ≡ true → x < n → p x ≡ true
unfolding all_below
all_below_sound zero p x h l = absurd (omega arith)
all_below_sound (suc n) p x h l = ground (arith, all_below_sound n p x)

pub eq_of_test : (a b : ℕ) → (a == b) ≡ true → a ≡ b
eq_of_test a b h = ground arith
