-- ===== src/Kernel/Numbers.antt =====
-- A number on the terminal: `term_writestring` of what `itoa` leaves.
use d.Base.{List, arith, done, map, refl, some, ℕ, ◌+◌, ◌<◌, ◌^◌, ◌≡◌, ◌≤◌, ◌⊎◌}
use d.Kernel.{Globals, write_number, write_string}
use d.Memory.{Mem, load8}
use d.Memory.Laws.{Apart}
use d.Str.{itoa}
use d.Str.Itoa.{HasDigits, itoa-value}
use d.Str.Numerals.{length-digits, IsBelow, digit_char, value}
use d.Term.{Screen, term_writestring, write_text}
use d.Term.Bounds.{IsOnScreen}
use d.Term.Texts.{OffScreen, term_writestring-write_text}

pub write_string-some :
    (fuel at : ℕ) (s t : Screen)
    → term_writestring fuel at s ≡ some t
    → write_string fuel at s ≡ done t
unfolding write_string
write_string-some fuel at s t e = rw (e, write_string) refl

-- The digits of a positive `int` in a base from 2 to 16 are shown: `write_number` returns when its buffer
-- is off the screen and apart from the digit characters, the byte behind the buffer is zero and the fuel
-- is more than 64, and it writes to memory only in the buffer and on the screen.
pub write_number-digits :
    (g : Globals) (val base : ℕ) (s : Screen)
    → (apart : Apart g.itoa_buf 65 g.digits_text 16) → 0 < val
    → val < 2 ^ 31
    → 2 ≤ base
    → base ≤ 16
    → HasDigits g.itoa_buf g.zero_text g.digits_text apart s.mem
    → load8 s.mem (g.itoa_buf + 65) ≡ 0
    → IsOnScreen s
    → OffScreen s g.itoa_buf 66
    → 64 < g.fuel
    → (ds : List ℕ) × (m' : Mem) × IsBelow base ds
      × (value base ds ≡ val)
      × (write_number g val base s ≡ done (write_text (map digit_char ds) (record s { mem = m' })))
      × ((a : ℕ) → (a ≤ g.itoa_buf) ⊎ (g.itoa_buf + 64 < a) → load8 m' a ≡ load8 s.mem a)
unfolding write_number
write_number-digits g val base s apart pos small two up dig end on off enough =
    let (m', p) = itoa g.itoa_buf g.zero_text g.digits_text s.mem val base in
    let (ds, text, below, worth, from, size, frame) =
      itoa-value g.itoa_buf g.zero_text g.digits_text apart val base s.mem pos small two up dig
        end in
    let shown =
      term_writestring-write_text g.fuel p (map digit_char ds) (record s { mem = m' })
        (record {
          column = on.column;
          row = on.row;
          columns = on.columns;
          countable = on.countable;
        })
        (omega (arith, length-digits ds)) text (omega (arith, length-digits ds)) in
    (ds, m', below, worth, write_string-some g.fuel p (record s { mem = m' }) _ shown, frame)
