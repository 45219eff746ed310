-- ===== src/Kernel/Show/Dump.antt =====
-- What `mem_dump` prints.
use mathlib.Core.Path.{subst}
use d.Base.{
  List, [], arith, codes, done, map, refl, suc, zero, ℕ, ◌++◌, ◌+◌, ◌<◌, ◌∙◌, ◌∷◌, ◌^◌, ◌≡◌, ◌≤◌,
}
use d.Kernel.{Globals, write_number}
use d.Kernel.Numbers.{write_number-digits, write_string-some}
use d.Kernel.Show.{dump_loop, mem_dump}
use d.Kernel.Show.Prints.{
  IsKept, Prints, Prints-IsKept, Prints-append, ended, buffers, write_text-Prints,
}
use d.Memory.{Mem, load8}
use d.Memory.Laws.{Apart, load8-lt}
use d.Str.{itoa}
use d.Str.Itoa.{HasDigits}
use d.Str.Numerals.{IsBelow, digit_char, value}
use d.Str.Texts.{IsText, IsText-window}
use d.Term.{Screen, write_text}
use d.Term.Bounds.{IsOnScreen}
use d.Term.Texts.{OffScreen, term_writestring-write_text}

-- The cursor is on the screen, and off it stand the number buffer with a zero behind it and the two texts
-- of `itoa`, apart from one another.
pub record IsPrinter (g : Globals) (s : Screen) : Type 0 where
  pub on : IsOnScreen s
  pub buf_off : OffScreen s g.itoa_buf 66
  pub zero_off : OffScreen s g.zero_text 2
  pub digits_off : OffScreen s g.digits_text 16
  pub zero_apart : Apart g.itoa_buf 65 g.zero_text 2
  pub apart : Apart g.itoa_buf 65 g.digits_text 16
  pub text : IsText s.mem g.zero_text (codes "0")
  pub hex : HasDigits g.itoa_buf g.zero_text g.digits_text apart s.mem
  pub end : load8 s.mem (g.itoa_buf + 65) ≡ 0
  pub fuel_left : 64 < g.fuel

pub IsPrinter-IsKept :
    (g : Globals) (s t : Screen) → IsKept g.itoa_buf s t → IsPrinter g s → IsPrinter g t
IsPrinter-IsKept g s t kept p =
    let zero_off = p.zero_off in
    let zero_apart = p.zero_apart in
    let digits_off = p.digits_off in
    let apart = p.apart in
    let buf_off = p.buf_off in
    record {
      on = kept.on;
      buf_off = rw (kept.place, kept.wide, kept.high) p.buf_off;
      zero_off = rw (kept.place, kept.wide, kept.high) p.zero_off;
      digits_off = rw (kept.place, kept.wide, kept.high) p.digits_off;
      zero_apart = p.zero_apart;
      apart = p.apart;
      text =
          IsText-window s.mem t.mem g.zero_text (codes "0")
            (λ a lo hi. kept.same a (omega arith) (omega arith)) p.text;
      hex = λ k h. kept.same (g.digits_text + k) (omega arith) (omega arith) ∙ p.hex k h;
      end = kept.same (g.itoa_buf + 65) (omega arith) (omega arith) ∙ p.end;
      fuel_left = p.fuel_left;
    }

-- Digits with that value.
abbrev pub IsNumeral : (base n : ℕ) → List ℕ → Type 0
IsNumeral base n xs =
    (ds : List ℕ) × (xs ≡ map digit_char ds) × IsBelow base ds × (value base ds ≡ n)

module _ (g : Globals) where
  write_zero :
      (base : ℕ) (s : Screen)
      → IsPrinter g s
      → write_number g 0 base s ≡ done (write_text (codes "0") s)
  unfolding write_number itoa
  write_zero base s p =
      let off = p.zero_off in
      let enough = p.fuel_left in
      write_string-some g.fuel g.zero_text s _ (
        term_writestring-write_text g.fuel g.zero_text (codes "0") s p.on p.zero_off p.text
          (omega arith))

  pub write_number-Prints :
      (n base : ℕ) (s : Screen)
      → IsPrinter g s
      → n < 2 ^ 31
      → 2 ≤ base
      → base ≤ 16
      → (t : Screen) × (xs : List ℕ) × (write_number g n base s ≡ done t)
        × IsNumeral base n xs
        × Prints g.itoa_buf s xs t
  write_number-Prints zero base s p small two up = (
    write_text (codes "0") s,
    codes "0",
    write_zero base s p,
    (0 ∷ [], refl, (omega arith, tt), omega arith),
    write_text-Prints g.itoa_buf (codes "0") s,
  )
  write_number-Prints (suc n) base s p small two up =
      let (ds, m', below, worth, shown, frame) =
        write_number-digits g (suc n) base s p.apart (omega arith) small two up p.hex p.end p.on
          p.buf_off p.fuel_left in
      (
        write_text (map digit_char ds) (record s { mem = m' }),
        map digit_char ds,
        shown,
        (ds, refl, below, worth),
        buffers m' frame (write_text-Prints g.itoa_buf (map digit_char ds) (record s { mem = m' })),
      )

  -- The `left` bytes of `m` from `addr + i` on, in hexadecimal with a colon behind each.
  abbrev pub IsDump : Mem → (left i addr : ℕ) → List ℕ → Type 0
  IsDump m zero i addr xs = xs ≡ []
  IsDump m (suc left) i addr xs =
      (number : List ℕ) × (rest : List ℕ) × (xs ≡ (number ++ codes ":") ++ rest)
      × IsNumeral 16 (load8 m (addr + i)) number
      × IsDump m left (i + 1) addr rest

  dump_loop-Prints :
      (m : Mem) (left i addr : ℕ) (s : Screen)
      → IsPrinter g s
      → OffScreen s (addr + i) left
      → Apart g.itoa_buf 65 (addr + i) left
      → ((a : ℕ) → addr + i ≤ a → a < addr + i + left → load8 s.mem a ≡ load8 m a)
      → (t : Screen) × (xs : List ℕ) × (dump_loop g left i addr s ≡ done t)
        × IsDump m left i addr xs
        × Prints g.itoa_buf s xs t
  unfolding dump_loop
  dump_loop-Prints m zero i addr s p off apart same = (s, [], refl, refl, ended)
  dump_loop-Prints m (suc left) i addr s p off apart same =
      let byte = load8 s.mem (addr + i) in
      let at : byte ≡ load8 m (addr + i) = same (addr + i) (omega arith) (omega arith) in
      let (t, number, shown, is, prints) =
        write_number-Prints byte 16 s p (omega (arith, load8-lt s.mem (addr + i))) (omega arith)
          (omega arith) in
      let u = write_text (codes ":") t in
      let line =
        Prints-append g.itoa_buf s t u number (codes ":") prints
          (write_text-Prints g.itoa_buf (codes ":") t) in
      let kept = Prints-IsKept g.itoa_buf s u (number ++ codes ":") p.on line in
      let next : OffScreen s (addr + (i + 1)) left = omega arith in
      let (v, rest, run, dump, more) =
        dump_loop-Prints m left (i + 1) addr u (IsPrinter-IsKept g s u kept p)
          (rw (kept.place, kept.wide, kept.high) next) (omega arith)
          (λ a lo hi.
            kept.same a (omega arith) (omega arith) ∙ same a (omega arith) (omega arith)) in
      (
        v,
        (number ++ codes ":") ++ rest,
        rw shown run,
        (number, rest, refl, subst (λ (b : ℕ). IsNumeral 16 b number) at is, dump),
        Prints-append g.itoa_buf s u v (number ++ codes ":") rest line more,
      )

  pub mem_dump-Prints :
      (addr size : ℕ) (s : Screen)
      → IsPrinter g s
      → addr < 2 ^ 31
      → OffScreen s addr size
      → Apart g.itoa_buf 65 addr size
      → (t : Screen) × (number : List ℕ) × (bytes : List ℕ) × (mem_dump g addr size s ≡ done t)
        × IsNumeral 16 addr number
        × IsDump s.mem size 0 addr bytes
        × Prints g.itoa_buf s (codes "\n" ++ ((number ++ codes "|") ++ (bytes ++ codes "\n"))) t
  unfolding mem_dump
  mem_dump-Prints addr size s p small off apart =
      let buf = g.itoa_buf in
      let s₁ = write_text (codes "\n") s in
      let first = write_text-Prints buf (codes "\n") s in
      let kept₁ = Prints-IsKept buf s s₁ (codes "\n") p.on first in
      let p₁ = IsPrinter-IsKept g s s₁ kept₁ p in
      let (t, number, shown, is, prints) =
        write_number-Prints addr 16 s₁ p₁ small (omega arith) (omega arith) in
      let t₁ = write_text (codes "|") t in
      let line =
        Prints-append buf s₁ t t₁ number (codes "|") prints (write_text-Prints buf (codes "|") t) in
      let kept₂ = Prints-IsKept buf s₁ t₁ (number ++ codes "|") p₁.on line in
      let off₁ : OffScreen s₁ addr size = rw (kept₁.place, kept₁.wide, kept₁.high) off in
      let off₂ : OffScreen s₁ (addr + 0) size = omega arith in
      let (u, bytes, run, dump, more) =
        dump_loop-Prints s.mem size 0 addr t₁ (IsPrinter-IsKept g s₁ t₁ kept₂ p₁)
          (rw (kept₂.place, kept₂.wide, kept₂.high) off₂) (omega arith)
          (λ a lo hi.
            kept₂.same a (omega arith) (omega arith) ∙ kept₁.same a (omega arith) (omega arith)) in
      let end = write_text (codes "\n") u in
      let last =
        Prints-append buf t₁ u end bytes (codes "\n") more (write_text-Prints buf (codes "\n") u) in
      (
        end,
        number,
        bytes,
        rw shown (rw run refl),
        is,
        dump,
        Prints-append buf s s₁ end (codes "\n") ((number ++ codes "|") ++ (bytes ++ codes "\n"))
            first
            (Prints-append buf s₁ t₁ end (number ++ codes "|") (bytes ++ codes "\n") line last),
      )
