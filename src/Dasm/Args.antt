-- ===== src/Dasm/Args.antt =====
-- How the kernel's assembler reads an argument that is a decimal number.
use d.Base.{
  if◌then◌else◌, ◌⊎◌, inl, inr, suc, all_below, all_below_sound, List, arith, codes, done, false,
  has, length, map, refl, true, ℕ, ◌%◌, ◌<◌, ◌==◌, ◌^◌, ◌∷◌, ◌≡◌, ◌≢◌, ◌≤◌,
}
use d.Dasm.{Tables, is_in, parse_arg, read_arg, token_at, m0_at, a0_at, m1_at, a1_at}
use d.Dasm.Machine.{kernel_services}
use d.Kernel.{Globals}
use d.Memory.{Mem, load32, load8, store16, store8}
use d.Str.Numerals.{IsBelow, atoi-value, digit_char, value}
use d.Str.Scan.{strchr-IsFirst}
use d.Str.Texts.{IsText}
use d.Term.{Screen}

-- The literals that `parse_arg` searches stand in memory, and the one of the digits not at address 0.
pub record HasDigits (g : Globals) (texts : Tables) (m : Mem) : Type 0 where
  pub text : IsText m texts.digits (codes "0123456789")
  pub placed : texts.digits ≢ 0
  pub fuel_left : 10 < g.fuel

digit_listed : (d : ℕ) → d < 10 → has (digit_char d) (codes "0123456789") ≡ true
unfolding all_below
digit_listed d low = all_below_sound 10 (λ d. has (digit_char d) (codes "0123456789")) d refl low

digit_char-bounds : (d : ℕ) → d < 10 → (48 ≤ digit_char d) × (digit_char d < 58)
digit_char-bounds d low = (ground arith, ground arith)

nonzero_test : (r : ℕ) → 0 < r → r == 0 ≡ false
nonzero_test r h = ground arith

digit_is_in :
    (g : Globals) (texts : Tables) (m : Mem) (d : ℕ)
    → HasDigits g texts m
    → d < 10
    → is_in (kernel_services g) texts m texts.digits (digit_char d) ≡ done true
unfolding is_in
digit_is_in g texts m d there low =
    let bounds = digit_char-bounds d low in
    let (r, eq, absent, present) =
      strchr-IsFirst g.fuel m texts.digits (digit_char d) (codes "0123456789") there.text
        (λ z. absurd (omega (arith, z, bounds))) (omega (arith, bounds))
        (omega (arith, there.fuel_left)) in
    let from = (present (digit_listed d low)).from in
    let placed = there.placed in rw (eq, is_in) (rw (nonzero_test r (omega arith)) refl)

bracket_test : (d : ℕ) → d < 10 → digit_char d == b'[' ≡ false
bracket_test d low = ground arith

-- A decimal number is read with the mask 0 and its value as 16 bits, and nothing is written.
read_arg-number :
    (g : Globals) (texts : Tables) (s : Screen) (token d : ℕ) (ds : List ℕ)
    → HasDigits g texts s.mem
    → IsText s.mem token (map digit_char (d ∷ ds))
    → IsBelow 10 (d ∷ ds)
    → suc (length ds) < g.fuel
    → read_arg (kernel_services g) texts token s ≡ done (s, 0, value 10 (d ∷ ds) % 2 ^ 16)
unfolding read_arg
read_arg-number g texts s token d ds there text below enough =
    let here : load8 s.mem token ≡ digit_char d = text.0 in
    let plain : digit_char d == b'[' ≡ false = bracket_test d below.0 in
    let listed = digit_is_in g texts s.mem d there below.0 in
    let number = atoi-value g.fuel s.mem token (d ∷ ds) text below enough in
    let low : value 10 (d ∷ ds) % 2 ^ 32 % 2 ^ 16 ≡ value 10 (d ∷ ds) % 2 ^ 16 = omega arith in
    rw (here, read_arg) (rw plain (rw listed (rw number (rw low refl))))

-- When the token of the first or second argument is a decimal number and the literal of the digits stands
-- in memory, `parse_arg` of the kernel returns, and writes the mask 0 and the number as 16 bits to that
-- argument, and nothing else.
pub parse_arg-number :
    (g : Globals) (texts : Tables) (s : Screen) (ins d : ℕ) (ds : List ℕ) (t : ℕ)
    → (t ≡ 1) ⊎ (t ≡ 2)
    → HasDigits g texts s.mem
    → IsText s.mem (load32 s.mem (token_at ins t)) (map digit_char (d ∷ ds))
    → IsBelow 10 (d ∷ ds)
    → suc (length ds) < g.fuel
    → let number = value 10 (d ∷ ds) % 2 ^ 16 in
      let first = store16 (store8 s.mem (m0_at ins) 0) (a0_at ins) number in
      let second = store16 (store8 s.mem (m1_at ins) 0) (a1_at ins) number in
      parse_arg (kernel_services g) texts ins t s
      ≡ done (record s { mem = if t == 1 then first else second })
unfolding parse_arg
parse_arg-number g texts s ins d ds t which there text below enough =
    let got =
      read_arg-number g texts s (load32 s.mem (token_at ins t)) d ds there text below enough in
    elim which [
      | inl e ↦ let first : t == 1 ≡ true = ground (arith, e) in rw (got, parse_arg) (rw first refl)
      | inr e ↦
          let other : t == 1 ≡ false = ground (arith, e) in
          let second : t == 2 ≡ true = ground (arith, e) in
          rw (got, parse_arg) (rw other (rw second refl))
    ]
