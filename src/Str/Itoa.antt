-- ===== src/Str/Itoa.antt =====
-- The text that `itoa` leaves, and its round trip with `atoi`.
use native.Mathlib.Numerals.{add-one}
use native.Mathlib.Nat.{pow-zero, div-add-mod', pow-suc, mod-lt}
use mathlib.Core.List.{append-nil}
use mathlib.Core.Path.{subst}
use d.Base.{
  ◌-◌, true, Bool, All, sym, Bool-cases, List, [], ap, arith, false, inl, inr, length,
  length-append, map, refl, suc, zero, ℕ, ◌*◌, ◌++◌, ◌+◌, ◌/◌, ◌<◌, ◌==◌, ◌^◌, ◌∷◌, ◌≡◌, ◌≢◌, ◌≤◌,
  ◌⊎◌, ◌%◌, ◌∙◌, leb, some,
}
use d.Memory.{Mem, load8, store8}
use d.Memory.Laws.{Apart, load8-store8_ne, load8-lt, load8-store8_self}
use d.Str.{digit_at, itoa_loop, atoi, itoa}
use d.Str.Texts.{Bytes, Bytes-window, IsText, IsText-Bytes}
use d.Str.Numerals.{length-digits, IsBelow, digit_char, value, atoi-value}

pub value-append :
    (base d : ℕ) (ds : List ℕ) → value base (ds ++ (d ∷ [])) ≡ value base ds * base + d
value-append base d [] = omega (arith, ap (λ (t : ℕ). d * t) (pow-zero base))
value-append base d (x ∷ ds) =
    rw (length-append ds (d ∷ []), add-one)
      (omega (arith, value-append base d ds, ap (λ (t : ℕ). x * t) (pow-suc base (length ds))))

IsBelow-append :
    (base d : ℕ) (ds : List ℕ) → IsBelow base ds → d < base → IsBelow base (ds ++ (d ∷ []))
IsBelow-append base d [] b h = (h, tt)
IsBelow-append base d (x ∷ ds) b h = (b.0, IsBelow-append base d ds b.1 h)

mapped :
    (char : ℕ → ℕ) (ds : List ℕ) (d : ℕ) (xs : List ℕ)
    → map char (ds ++ (d ∷ [])) ++ xs ≡ map char ds ++ (char d ∷ xs)
mapped char [] d xs = refl
mapped char (x ∷ ds) d xs = ap (λ l. char x ∷ l) (mapped char ds d xs)

halves : (base n k : ℕ) → 2 ≤ base → n < 2 ^ suc k → n / base < 2 ^ k
halves base n k two h =
    let q = n / base in
    let down : q * base ≤ n = omega (arith, div-add-mod' n base) in
    let twice : q * 2 ≤ q * base = grind arith in omega (arith, pow-suc 2 k)

digit_char-ne-zero : (k : ℕ) → digit_char k ≢ 0
digit_char-ne-zero k = ground arith

digit_chars-ne-zero : (ds : List ℕ) → All (λ x. x ≢ 0) (map digit_char ds)
digit_chars-ne-zero [] = tt
digit_chars-ne-zero (d ∷ ds) = (digit_char-ne-zero d, digit_chars-ne-zero ds)

module _ (buf zero_text digits_text : ℕ) where
  -- What the sixteen places hold that a digit is read from, all of them apart from the 64 bytes that are written.
  abbrev pub HasChars : (negative : Bool) (char : ℕ → ℕ) → Mem → Type 0
  HasChars negative char m =
      (k : ℕ)
      → k < 16
      → let a = digit_at buf zero_text digits_text negative k in
        (load8 m a ≡ char k) × ((a ≤ buf) ⊎ (buf + 64 < a))

  itoa_loop-Bytes :
      (negative : Bool) (char : ℕ → ℕ) (base i magnitude : ℕ) (m : Mem) (xs : List ℕ)
      → 2 ≤ base
      → base ≤ 16
      → i ≤ 64
      → magnitude < 2 ^ i
      → HasChars negative char m
      → Bytes m (buf + i + 1) xs
      → let (m', j) = itoa_loop buf zero_text digits_text negative base i magnitude m in
        (ds : List ℕ) × Bytes m' (buf + j + 1) (map char ds ++ xs)
        × IsBelow base ds
        × (value base ds ≡ magnitude)
        × (j + length ds ≡ i)
        × ((a : ℕ) → (a ≤ buf) ⊎ (buf + i < a) → load8 m' a ≡ load8 m a)
  unfolding itoa_loop
  itoa_loop-Bytes negative char base zero magnitude m xs two up le h dig t =
      ([], t, tt, omega arith, omega arith, λ a o. refl)
  itoa_loop-Bytes negative char base (suc i) magnitude m xs two up le h dig t =
      elim (Bool-cases (magnitude == 0)) [
        | inl ended ↦ rw ended ([], t, tt, ground arith, omega arith, λ a o. refl)
        | inr more ↦ rw more (
            let d = magnitude % base in
            let at = digit_at buf zero_text digits_text negative d in
            let c = load8 m at in
            let below : d < base = mod-lt magnitude (omega arith) in
            let is_char : c ≡ char d = (dig d (omega arith)).0 in
            let m₁ = store8 m (buf + suc i) c in
            let kept = λ (a : ℕ) (o : a ≢ buf + suc i). load8-store8_ne m (buf + suc i) c a o in
            let place : buf + suc i ≡ buf + i + 1 = omega arith in
            let text : Bytes m₁ (buf + i + 1) (char d ∷ xs) = (
              subst (λ a. load8 m₁ a ≡ char d) place
                  (load8-store8_self m (buf + suc i) c ∙ omega (arith, load8-lt m at) ∙ is_char),
              Bytes-window m m₁ (buf + i + 1 + 1) xs (λ a lo hi. kept a (omega arith))
                  (let e : buf + suc i + 1 ≡ buf + i + 1 + 1 = omega arith in rw (← e) t),
            ) in
            let (ds, out, b, v, len, frame) =
              itoa_loop-Bytes negative char base i (magnitude / base) m₁ (char d ∷ xs) two up
                (omega arith) (halves base magnitude i two h)
                (λ k hk. let (is, off) = dig k hk in (kept _ (omega arith) ∙ is, off)) text in
            (
              ds ++ (d ∷ []),
              rw (mapped char ds d xs) out,
              IsBelow-append base d ds b below,
              omega (
                arith,
                value-append base d ds,
                ap (λ (t : ℕ). t * base) v,
                div-add-mod' magnitude base,
              ),
              omega (arith, len, length-append ds (d ∷ [])),
              λ a o. frame a (omega arith) ∙ kept a (omega arith),
            ))
      ]

module _ (buf zero_text digits_text : ℕ) (apart : Apart buf 65 digits_text 16) where
  -- The literal of the sixteen digit characters is in memory.
  abbrev pub HasDigits : Mem → Type 0
  HasDigits m = (k : ℕ) → k < 16 → load8 m (digits_text + k) ≡ digit_char k

  abbrev run : (val base : ℕ) → Mem → Mem × ℕ
  run val base m = itoa buf zero_text digits_text m val base

  -- For a positive `int` and a base from 2 to 16, with the literal of the digit characters in
  -- memory apart from the 65 bytes at `buf`, and a zero byte at `buf + 65`, `itoa` answers the
  -- address of a text of digits whose value is `val`. The text ends at `buf + 65`, so that its
  -- last digit is at `buf + 64`, behind the array of 64 bytes. No byte but those from `buf + 1` to
  -- `buf + 64` changes.
  pub itoa-value :
      (val base : ℕ) (m : Mem)
      → 0 < val
      → val < 2 ^ 31
      → 2 ≤ base
      → base ≤ 16
      → HasDigits m
      → load8 m (buf + 65) ≡ 0
      → let (m', p) = run val base m in
        (ds : List ℕ) × IsText m' p (map digit_char ds)
        × IsBelow base ds
        × (value base ds ≡ val)
        × (buf < p)
        × (p + length ds ≡ buf + 65)
        × ((a : ℕ) → (a ≤ buf) ⊎ (buf + 64 < a) → load8 m' a ≡ load8 m a)
  unfolding itoa
  itoa-value val base m pos small two up dig end =
      let nonzero : (val == 0) ≡ false = ground arith in
      let positive : leb (2 ^ 31) val ≡ false = ground arith in
      let (ds, out, b, v, len, frame) =
        itoa_loop-Bytes buf zero_text digits_text false digit_char base 64 val m [] two up
          (omega arith) (omega arith) (λ k h. (dig k h, omega arith)) tt in
      let (m', j) = itoa_loop buf zero_text digits_text false base 64 val m in
      let closed : load8 m' (buf + j + 1 + length (map digit_char ds)) ≡ 0 =
        (let place : buf + j + 1 + length (map digit_char ds) ≡ buf + 65 =
            omega (arith, len, length-digits ds) in
          subst (λ a. load8 m' a ≡ 0) (sym place) (frame (buf + 65) (omega arith) ∙ end)) in
      rw (nonzero, positive)
        (
          ds,
          IsText-Bytes m' (buf + j + 1) (map digit_char ds) (digit_chars-ne-zero ds) closed
              (rw append-nil at out),
          b,
          v,
          omega arith,
          omega (arith, len),
          frame,
        )

  -- With the literals of `itoa` in memory, the digit characters apart from the 65 bytes at `buf`,
  -- and a zero byte at `buf + 65`, `atoi` reads back every nonnegative `int` that `itoa` wrote in
  -- base 10, with fuel for more than 64 bytes.
  pub atoi-itoa :
      (fuel val : ℕ) (m : Mem)
      → 64 < fuel
      → val < 2 ^ 31
      → HasDigits m
      → load8 m (buf + 65) ≡ 0
      → IsText m zero_text (b'0' ∷ [])
      → let (m', p) = run val 10 m in atoi fuel m' p ≡ some val
  unfolding itoa
  atoi-itoa fuel zero m f small dig end z =
      atoi-value fuel m zero_text (0 ∷ []) z (omega arith) (omega arith)
  atoi-itoa fuel (suc n) m f small dig end z =
      let (ds, out, b, v, low, len, frame) =
        itoa-value (suc n) 10 m (omega arith) small (omega arith) (omega arith) dig end in
      ground (arith, atoi-value fuel (run (suc n) 10 m).0 (run (suc n) 10 m).1 ds out b, v)

-- For a negative `int` and a base from 2 to 16, with the literal of the digits at 15 or above and the 16 bytes that end with its first one apart from
-- the 64 bytes that are written, `itoa` writes no sign and no digit characters: for each digit of the absolute
-- value it copies the byte that stands as many places in front of the literal's `0` as the digit is. These bytes
-- end at `buf + 64`, the answer is the address of the first of them, and no byte but those from `buf + 1` to
-- `buf + 64` changes.
pub itoa-negative :
    (buf zero_text digits_text val base : ℕ) (m : Mem)
    → 15 ≤ digits_text
    → (digits_text ≤ buf) ⊎ (buf + 64 + 15 < digits_text)
    → 2 ^ 31 ≤ val
    → val < 2 ^ 32
    → 2 ≤ base
    → base ≤ 16
    → let (m', p) = itoa buf zero_text digits_text m val base in
      (ds : List ℕ) × Bytes m' p (map (λ d. load8 m (digits_text - d)) ds)
      × IsBelow base ds
      × (value base ds ≡ 2 ^ 32 - val)
      × (buf < p)
      × (p + length ds ≡ buf + 65)
      × ((a : ℕ) → (a ≤ buf) ⊎ (buf + 64 < a) → load8 m' a ≡ load8 m a)
unfolding itoa
itoa-negative buf zero_text digits_text val base m room apart low high two up =
    let nonzero : (val == 0) ≡ false = ground arith in
    let negative : leb (2 ^ 31) val ≡ true = ground arith in
    let (ds, out, b, v, len, frame) =
      itoa_loop-Bytes buf zero_text digits_text true (λ d. load8 m (digits_text - d)) base 64
        (2 ^ 32 - val) m [] two up (omega arith) (omega arith) (λ k h. (refl, omega arith)) tt in
    rw (nonzero, negative) (ds, rw append-nil at out, b, v, omega arith, omega (arith, len), frame)
