-- ===== src/Term/Texts.antt =====
-- `term_writestring` as the characters of the text, one after the other.
use d.Base.{List, [], ap, arith, length, refl, some, sym, ℕ, ◌*◌, ◌+◌, ◌<◌, ◌∙◌, ◌∷◌, ◌≡◌}
use d.Memory.{load8}
use d.Memory.Laws.{Apart}
use d.Str.Texts.{IsText}
use d.Str.Scan.{strlen-length}
use d.Term.{Screen, term_putchar, term_writestring, write_loop, write_text}
use d.Term.Bounds.{IsOnScreen, OnlyBuffer, OnlyBuffer-trans, term_putchar-IsOnScreen, same}

-- The bytes from `at` to `at + n` are no cells of the screen.
abbrev pub OffScreen : Screen → (at n : ℕ) → Type 0
OffScreen s at n = Apart s.buffer (2 * (s.width * s.height)) at n

pub OffScreen-keeps :
    {s t : Screen} (at n : ℕ) → OnlyBuffer s t → OffScreen s at n → OffScreen t at n
OffScreen-keeps at n f o = rw (f.buffer_eq, f.width_eq, f.height_eq) o

-- A text off the screen is still there after what the screen shows has changed.
pub IsText-OnlyBuffer :
    {s t : Screen} (at : ℕ) (xs : List ℕ)
    → OnlyBuffer s t
    → OffScreen s at (length xs + 1)
    → IsText s.mem at xs
    → IsText t.mem at xs
IsText-OnlyBuffer at [] f o text = f.outside at (omega arith) ∙ text
IsText-OnlyBuffer at (x ∷ xs) f o text = (
  f.outside at (omega arith) ∙ text.0,
  text.1,
  IsText-OnlyBuffer (at + 1) xs f (omega arith) text.2,
)

write_loop-write_text :
    (i at p : ℕ) (xs : List ℕ) (s : Screen)
    → p ≡ at + i
    → IsOnScreen s
    → OffScreen s p (length xs + 1)
    → IsText s.mem p xs
    → write_loop (length xs) i at s ≡ write_text xs s
unfolding write_loop write_text
write_loop-write_text i at p [] s e is o text = refl
write_loop-write_text i at p (x ∷ xs) s e is o text =
    let here : load8 s.mem (at + i) ≡ x = ap (λ (a : ℕ). load8 s.mem a) (sym e) ∙ text.0 in
    let (on, only) = term_putchar-IsOnScreen x s is in
    rw (here, write_loop)
      (write_loop-write_text (i + 1) at (p + 1) xs (term_putchar x s) (omega arith) on
        (OffScreen-keeps (p + 1) (length xs + 1) only (omega arith))
        (IsText-OnlyBuffer (p + 1) xs only (omega arith) text.2))

-- With the cursor on the screen, a text whose bytes and terminator are no cells of the screen, and more
-- fuel than bytes, `term_writestring` returns, and does what `term_putchar` of each of the text's bytes
-- does in their order.
pub term_writestring-write_text :
    (fuel at : ℕ) (xs : List ℕ) (s : Screen)
    → IsOnScreen s
    → OffScreen s at (length xs + 1)
    → IsText s.mem at xs
    → length xs < fuel
    → term_writestring fuel at s ≡ some (write_text xs s)
unfolding term_writestring
term_writestring-write_text fuel at xs s is o text enough =
    rw (strlen-length fuel s.mem at xs text enough, term_writestring)
      (ap some (write_loop-write_text 0 at at xs s (omega arith) is o text))

-- Writing a text keeps the cursor on the screen, and touches nothing but the screen.
pub write_text-IsOnScreen :
    (xs : List ℕ) (s : Screen)
    → IsOnScreen s
    → IsOnScreen (write_text xs s) × OnlyBuffer s (write_text xs s)
unfolding write_text
write_text-IsOnScreen [] s is = (is, same refl refl refl refl refl)
write_text-IsOnScreen (x ∷ xs) s is =
    let (on, first) = term_putchar-IsOnScreen x s is in
    let (end, rest) = write_text-IsOnScreen xs (term_putchar x s) on in
    (end, OnlyBuffer-trans first rest)
