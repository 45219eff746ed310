-- ===== src/Str/Numerals.antt =====
-- Numerals: the value of a list of digits, and what `atoi` reads.
use native.Mathlib.Nat.{pow-suc}
use d.Base.{
  refl, All, List, [], arith, if◌then◌else◌, length, ltb, map, some, suc, zero, ℕ, ◌%◌, ◌*◌, ◌+◌,
  ◌-◌, ◌<◌, ◌^◌, ◌∷◌, ◌≡◌, ap, ◌/◌, ◌∙◌,
}
use d.Memory.{Mem, load8}
use d.Str.{atoi, atoi_loop, atoi_step}
use d.Str.Texts.{IsText}

-- The number that the digits stand for, the most significant first.
abbrev pub value : (base : ℕ) → List ℕ → ℕ
value base [] = 0
value base (x ∷ xs) = x * base ^ length xs + value base xs

-- The character of a digit below 16, as in the literal "0123456789abcdef".
abbrev pub digit_char : ℕ → ℕ
digit_char k = if ltb k 10 then b'0' + k else b'a' + (k - 10)

pub length-digits : (ds : List ℕ) → length (map digit_char ds) ≡ length ds
length-digits [] = refl
length-digits (d ∷ ds) = omega (arith, length-digits ds)

abbrev pub IsBelow : ℕ → List ℕ → Type 0
IsBelow base = All (λ x. x < base)

-- A wrap before a multiplication and an addition is lost in the wrap after them.
mod_mul_add : (x p v : ℕ) → (x % 2 ^ 32 * p + v) % 2 ^ 32 ≡ (x * p + v) % 2 ^ 32
mod_mul_add x p v =
    let e : x ≡ x / 2 ^ 32 * 2 ^ 32 + x % 2 ^ 32 = omega arith in
    omega (arith, ap (λ (t : ℕ). t * p) e)

atoi_step_digit :
    (res d : ℕ) → d < 10 → res < 2 ^ 32 → atoi_step res (digit_char d) ≡ (res * 10 + d) % 2 ^ 32
unfolding atoi_step
atoi_step_digit res d h r = ground arith

atoi_loop-value :
    (fuel : ℕ) (m : Mem) (str i res p : ℕ) (ds : List ℕ)
    → p ≡ str + i
    → IsText m p (map digit_char ds)
    → IsBelow 10 ds
    → length ds < fuel
    → res < 2 ^ 32
    → atoi_loop fuel m str i res ≡ some ((res * 10 ^ length ds + value 10 ds) % 2 ^ 32)
unfolding atoi_loop
atoi_loop-value zero m str i res p ds e t b h r = absurd (omega arith)
atoi_loop-value (suc fuel) m str i res p [] e t b h r = ground arith
atoi_loop-value (suc fuel) m str i res p (d ∷ ds) e t b h r =
    let step = atoi_step_digit res d b.0 r in
    let rest =
      atoi_loop-value fuel m str (i + 1) ((res * 10 + d) % 2 ^ 32) (p + 1) ds (omega arith) t.2 b.1
        (omega arith) (omega arith) in
    let here : load8 m (str + i) ≡ digit_char d = rw (← e) t.0 in
    rw (here, step) (ground (arith, rest, carry))
  where
    carry :
        ((res * 10 + d) % 2 ^ 32 * 10 ^ length ds + value 10 ds) % 2 ^ 32
        ≡ (res * 10 ^ suc (length ds) + (d * 10 ^ length ds + value 10 ds)) % 2 ^ 32
    carry =
        mod_mul_add (res * 10 + d) (10 ^ length ds) (value 10 ds)
        ∙ omega (arith, ap (λ (t : ℕ). res * t) (pow-suc 10 (length ds)))

-- With more fuel than digits, `atoi` of a text of decimal digits is its value modulo 2 ^ 32.
pub atoi-value :
    (fuel : ℕ) (m : Mem) (str : ℕ) (ds : List ℕ)
    → IsText m str (map digit_char ds)
    → IsBelow 10 ds
    → length ds < fuel
    → atoi fuel m str ≡ some (value 10 ds % 2 ^ 32)
unfolding atoi
atoi-value fuel m str ds t b h =
    ground (arith, atoi_loop-value fuel m str 0 0 str ds (omega arith) t b h)
