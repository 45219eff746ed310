-- ===== src/Str.antt =====
-- str.c and `strlen` of term.c: zero-terminated texts in memory. The loops over a text run on fuel,
-- and `none` means that it ran out: no terminator was met.
pub mod Texts
pub mod Scan
pub mod Numerals
pub mod Itoa
use d.Base.{
  Bool, Option, if◌then◌else◌, leb, ltb, none, some, suc, zero, ℕ, ◌%◌, ◌*◌, ◌+◌, ◌-◌, ◌/◌, ◌==◌,
  ◌^◌,
}
use d.Memory.{Mem, load8, store8}

-- `while (str[ret] != 0) ret++`.
strlen_loop : (fuel : ℕ) → Mem → (str ret : ℕ) → Option ℕ
strlen_loop zero m str ret = none
strlen_loop (suc fuel) m str ret =
    let rest = strlen_loop fuel m str (ret + 1) in
    if load8 m (str + ret) == 0 then some ret else rest

unfoldable pub strlen : (fuel : ℕ) → Mem → (str : ℕ) → Option ℕ
unfolding strlen_loop
strlen fuel m str = strlen_loop fuel m str 0

-- 1 for equal texts and 0 for others, unlike the C library's function of that name.
unfoldable pub strcmp : (fuel : ℕ) → Mem → (p₁ p₂ : ℕ) → Option ℕ
strcmp zero m p₁ p₂ = none
strcmp (suc fuel) m p₁ p₂ =
    let rest = strcmp fuel m (p₁ + 1) (p₂ + 1) in
    if load8 m p₁ == 0
    then some (if load8 m p₂ == 0 then 1 else 0)
    else if load8 m p₂ == 0
    then some 0
    else if ltb (load8 m p₁) (load8 m p₂)
    then some 0
    else if ltb (load8 m p₂) (load8 m p₁)
    then some 0
    else rest

-- The address of the first byte equal to `(char) c`, or NULL.
unfoldable pub strchr : (fuel : ℕ) → Mem → (s c : ℕ) → Option ℕ
strchr zero m s c = none
strchr (suc fuel) m s c =
    let rest = strchr fuel m (s + 1) c in
    if load8 m s == c % 256 then some s else if load8 m s == 0 then some 0 else rest

-- A `char` as an `int`, in two's complement.
abbrev pub sign_extend8 : ℕ → ℕ
sign_extend8 c = if ltb c 128 then c else c + 2 ^ 32 - 256

-- `res = res * 10 + str[i] - '0'`, an `int` that wraps.
unfoldable pub atoi_step : (res c : ℕ) → ℕ
atoi_step res c = (res * 10 + sign_extend8 c + 2 ^ 32 - b'0') % 2 ^ 32

atoi_loop : (fuel : ℕ) → Mem → (str i res : ℕ) → Option ℕ
atoi_loop zero m str i res = none
atoi_loop (suc fuel) m str i res =
    let rest = atoi_loop fuel m str (i + 1) (atoi_step res (load8 m (str + i))) in
    if load8 m (str + i) == 0 then some res else rest

unfoldable pub atoi : (fuel : ℕ) → Mem → (str : ℕ) → Option ℕ
unfolding atoi_loop
atoi fuel m str = atoi_loop fuel m str 0 0

-- The addresses of `static char buf[64]` and of the two literals of `itoa`.
module _ (buf zero_text digits_text : ℕ) where
  -- Where `"0123456789abcdef"[val % base]` reads: the remainder has the sign of `val`.
  abbrev pub digit_at : (negative : Bool) → ℕ → ℕ
  digit_at negative r = if negative then digits_text - r else digits_text + r

  -- `for (; val && i; --i, val /= base) buf[i] = …`, on the magnitude of `val`; with the `i` that
  -- the loop leaves.
  unfoldable pub itoa_loop : (negative : Bool) (base i magnitude : ℕ) → Mem → Mem × ℕ
  itoa_loop negative base zero magnitude m = (m, 0)
  itoa_loop negative base (suc i) magnitude m =
      let digit = load8 m (digit_at negative (magnitude % base)) in
      let rest = itoa_loop negative base i (magnitude / base) (store8 m (buf + suc i) digit) in
      if magnitude == 0 then (m, suc i) else rest

  -- `val` is the bit pattern of an `int`; `base` is positive, as at every call. The result is the
  -- memory and the address of the text.
  unfoldable pub itoa : Mem → (val base : ℕ) → Mem × ℕ
  unfolding itoa_loop
  itoa m val base =
      if val == 0
      then (m, zero_text)
      else (let negative = leb (2 ^ 31) val in
          let magnitude = if negative then 2 ^ 32 - val else val in
          let (m', i) = itoa_loop negative base 64 magnitude m in (m', buf + i + 1))
