-- ===== src/Tests/Texts.antt =====
-- str.c and the lookups of dasm.c at concrete inputs.
use d.Base.{
  if◌then◌else◌, leb, ◌^◌, codes, ◌++◌, inl, Option, Run, ap, none, suc, zero, List, [],
  all_below_sound, arith, done, length, map, refl, some, ℕ, ◌*◌, ◌+◌, ◌<◌, ◌==◌, ◌↔◌, ◌∷◌, ◌≡◌, ◌≤◌,
  ◌⊎◌, all_below, eq_of_test, spins, ◌-◌, get_or,
}
use d.Memory.{store8, store16, store32, load32, Mem, load8}
use d.Str.Texts.{Bytes, IsText}
use d.Str.{strcmp, atoi, itoa}
use d.Str.Scan.{strcmp-eq}
use d.Str.Numerals.{atoi-value, digit_char, IsBelow, value}
use d.Str.Itoa.{itoa-negative, atoi-itoa}
use d.Dasm.Args.{parse_arg-number}
use d.Term.{Screen}
use d.Dasm.{parse_arg, token_at, m0_at, a0_at, Services, Tables}
use d.Dasm.Lookup.{r0_text, r1_text, hlt_text}
use d.Tests.Data.{texts, abc, ab, image}
use d.Dasm.Host.{host_get_reg}
use d.Dasm.Host.Names.{IsFound, host_get_reg-IsFound, register_number}
use d.Dasm.Machine.{kernel_services}
use d.Kernel.{Globals}

pub abc-IsText : IsText texts 1 abc
unfolding load8
abc-IsText = (refl, omega arith, (refl, omega arith, (refl, omega arith, refl)))

ab-IsText : IsText texts 5 ab
unfolding load8
ab-IsText = (refl, omega arith, (refl, omega arith, refl))

strcmp-eq_example : (r : ℕ) × (strcmp 4 texts 1 5 ≡ some r) × (r ≤ 1) × ((r ≡ 1) ↔ (abc ≡ ab))
strcmp-eq_example = strcmp-eq 4 texts 1 5 abc ab abc-IsText ab-IsText (omega arith)

numeral_10 : IsText texts 10 (b'4' ∷ b'2' ∷ [])
unfolding load8
numeral_10 = (refl, omega arith, (refl, omega arith, refl))

atoi-value_example : atoi 3 texts 10 ≡ some 42
atoi-value_example =
    atoi-value 3 texts 10 (4 ∷ 2 ∷ []) numeral_10 (omega arith, (omega arith, tt)) (omega arith)

-- The literals of `itoa` from 0 on, its buffer at 32.
abbrev literals : Mem
literals = image (
    b'0' ∷ b'1' ∷ b'2' ∷ b'3' ∷ b'4' ∷ b'5' ∷ b'6' ∷ b'7' ∷ b'8' ∷ b'9' ∷ b'a' ∷ b'b' ∷ b'c' ∷ b'd'
    ∷ b'e' ∷ b'f' ∷ 0 ∷ b'0' ∷ 0 ∷ [])

digits : (k : ℕ) → k < 16 → load8 literals (0 + k) ≡ digit_char k
unfolding load8 all_below
digits k h =
    eq_of_test (load8 literals (0 + k)) (digit_char k)
      (all_below_sound 16 (λ k. load8 literals (0 + k) == digit_char k) k refl h)

-- The literal from 20 on, behind other bytes.
abbrev shifted : Mem
shifted a = if leb 20 a then literals (a - 20) else 65 + a

itoa-negative_example :
    let (m', p) = itoa 52 37 20 shifted (2 ^ 32 - 42) 10 in
    (ds : List ℕ) × Bytes m' p (map (λ d. load8 shifted (20 - d)) ds)
    × IsBelow 10 ds
    × (value 10 ds ≡ 42)
    × (52 < p)
    × (p + length ds ≡ 52 + 65)
    × ((a : ℕ) → (a ≤ 52) ⊎ (52 + 64 < a) → load8 m' a ≡ load8 shifted a)
itoa-negative_example =
    itoa-negative 52 37 20 (2 ^ 32 - 42) 10 shifted (omega arith) (inl (omega arith)) (omega arith)
      (omega arith) (omega arith) (omega arith)

atoi-itoa_example : let (m', p) = itoa 32 17 0 literals 1024 10 in atoi 65 m' p ≡ some 1024
unfolding load8
atoi-itoa_example =
    atoi-itoa 32 17 0 (omega arith) 65 1024 literals (omega arith) (omega arith) digits refl
      (refl, omega arith, refl)

-- The names of two registers at 0 and 3, and of two operations at 6 and 10.
abbrev names : Mem
names =
    image (b'r' ∷ b'0' ∷ 0 ∷ b'r' ∷ b'1' ∷ 0 ∷ b'h' ∷ b'l' ∷ b't' ∷ 0 ∷ b'm' ∷ b'o' ∷ b'v' ∷ 0 ∷ [])

-- The tables of the assembler, of which only the names of registers and operations are read.
abbrev tables : Tables
tables = record { num_ops = 5; ops = λ i. 6 + 4 * i; regs = λ i. 3 * i; risbp = 0; digits = 0 }

abbrev globals : Globals
globals = record {
  fuel = 3;
  mm_free = 0;
  mm_used = 0;
  mb_free = 0;
  used = 0;
  task_que = 0;
  itoa_buf = 0;
  zero_text = 0;
  digits_text = 0;
}

abbrev answer : Option ℕ → Run ℕ
answer none = spins
answer (some r) = done (1 - r)

-- A `strcmp` that answers 0 for equal texts, on the texts of one memory.
abbrev host : Services Mem
host = record {
  mem = λ m. m;
  set_mem = λ m _. m;
  malloc_raw = λ m size. spins;
  mem_cpy = λ m dst src size. m;
  strlen = λ m text. spins;
  strcmp = λ m p q. answer (strcmp 3 m p q);
  strchr = λ m text c. spins;
  atoi = λ m text. spins;
  echo = λ m text. done m;
}

-- What stands at the places of the seven names.
abbrev texts_at : ℕ → List ℕ
texts_at i = get_or (r0_text ∷ r1_text ∷ hlt_text ∷ [] ∷ (b'v' ∷ []) ∷ []) i []

texts_at-IsText : (i : ℕ) → i < 7 → IsText names (3 * i) (texts_at i)
unfolding load8
texts_at-IsText zero h = (refl, omega arith, (refl, omega arith, refl))
texts_at-IsText (suc zero) h = (refl, omega arith, (refl, omega arith, refl))
texts_at-IsText (suc (suc zero)) h =
    (refl, omega arith, (refl, omega arith, (refl, omega arith, refl)))
texts_at-IsText (suc (suc (suc zero))) h = refl
texts_at-IsText (suc (suc (suc (suc zero)))) h = (refl, omega arith, refl)
texts_at-IsText (suc (suc (suc (suc (suc zero))))) h = refl
texts_at-IsText (suc (suc (suc (suc (suc (suc zero)))))) h = refl
texts_at-IsText (suc (suc (suc (suc (suc (suc (suc i))))))) h = absurd (omega arith)

compares :
    (i : ℕ)
    → i < 7
    → (r : ℕ) × (host.strcmp names 3 (tables.regs i) ≡ done r) × ((r ≡ 0) ↔ (r1_text ≡ texts_at i))
compares i h =
    let (r, eq, small, iff) =
      strcmp-eq 3 names 3 (3 * i) r1_text (texts_at i) (texts_at-IsText 1 (omega arith))
        (texts_at-IsText i h) (omega arith) in
    (1 - r, ap answer eq, ((λ z. iff.0 (omega arith)), λ e. omega (arith, iff.1 e)))

host_get_reg-IsFound_example :
    (found : Option ℕ) × IsFound texts_at r1_text 7 found
    × (host_get_reg host tables names 3 ≡ done (register_number found))
host_get_reg-IsFound_example = host_get_reg-IsFound host tables names 3 r1_text texts_at compares

-- The literal of the digits at 1, a token "42" at 12, and an instruction at 100 whose first argument is
-- that token.
abbrev argument : Mem
argument = store32 (image (0 ∷ (codes "0123456789" ++ (0 ∷ b'4' ∷ b'2' ∷ [])))) (token_at 100 1) 12

abbrev roomy_globals : Globals
roomy_globals = record globals { fuel = 12 }

abbrev digit_tables : Tables
digit_tables = record tables { digits = 1 }

abbrev argument_screen : Screen
argument_screen = record {
  width = 3;
  height = 2;
  color = 7;
  xpos = 0;
  ypos = 0;
  buffer = 1000;
  mem = argument;
  log = [];
}

digits-IsText : IsText argument 1 (codes "0123456789")
unfolding load8 store8 store32
digits-IsText = (
  refl,
  omega arith,
  (
    refl,
    omega arith,
    (
      refl,
      omega arith,
      (
        refl,
        omega arith,
        (
          refl,
          omega arith,
          (
            refl,
            omega arith,
            (
              refl,
              omega arith,
              (refl, omega arith, (refl, omega arith, (refl, omega arith, refl))),
            ),
          ),
        ),
      ),
    ),
  ),
)

parse_arg-number_example :
    parse_arg (kernel_services roomy_globals) digit_tables 100 1 argument_screen
    ≡ done (record argument_screen { mem = store16 (store8 argument (m0_at 100) 0) (a0_at 100) 42 })
unfolding load8 load32 store8 store32
parse_arg-number_example =
    parse_arg-number roomy_globals digit_tables argument_screen 100 4 (2 ∷ []) 1 (inl refl)
      (record { text = digits-IsText; placed = omega arith; fuel_left = omega arith })
      (refl, omega arith, (refl, omega arith, refl)) (omega arith, (omega arith, tt)) (omega arith)
