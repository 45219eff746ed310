-- ===== src/Term/Cells.antt =====
-- What `term_putchar` leaves in the cells.
use d.Base.{
  arith, bit_or_low, if◌then◌else◌, ltb, true, ℕ, ◌%◌, ◌*◌, ◌+◌, ◌<◌, ◌^◌, ◌≡◌, ◌≢◌, Bool-cases,
  false, inl, inr, leb, ◌==◌, ◌||◌, refl, ◌∙◌,
}
use d.Term.{
  Screen, make_vgaentry, put_control, put_scroll, put_wrap, put_char, put_cursor, term_putchar,
  term_putentryat, cell_at,
}
use d.Term.Bounds.{IsOnScreen, index_in_range}
use d.Memory.{load16}
use d.Memory.Laws.{load16-store16_ne, load16-store16_self}

-- A character of the ASCII range shows in the low byte of a cell and the color in the high byte.
make_vgaentry_lem : (color c : ℕ) → c < 128 → color < 256 → make_vgaentry color c ≡ c + color * 256
unfolding make_vgaentry
make_vgaentry_lem color c h k =
    let ascii : ltb c 128 ≡ true = ground arith in
    let small : color * 2 ^ 8 % 2 ^ 32 ≡ color * 2 ^ 8 = omega arith in
    rw (ascii, small, bit_or_low 8 c color (omega arith)) (omega arith)

-- Where the next character goes, when that is not below the screen.
abbrev pub next_x : Screen → ℕ
next_x s = if ltb (s.xpos + 1) s.width then s.xpos else 0

abbrev pub next_y : Screen → ℕ
next_y s = if ltb (s.xpos + 1) s.width then s.ypos else s.ypos + 1

plain-control : (c : ℕ) (s : Screen) → c ≢ 10 → c ≢ 8 → put_control c s ≡ s
unfolding put_control
plain-control c s n b =
    let no_newline : (c == 10) ≡ false = ground arith in
    let no_back : (c == 8) ≡ false = ground arith in rw (no_newline, no_back)

wrap_lem : (s : Screen) → put_wrap s ≡ record s { xpos = next_x s; ypos = next_y s }
unfolding put_wrap
wrap_lem s = elim (Bool-cases (ltb (s.xpos + 1) s.width)) [
  | inl fits ↦ let stays : leb s.width (s.xpos + 1) ≡ false = ground arith in rw (fits, stays)
  | inr wraps ↦ let moves : leb s.width (s.xpos + 1) ≡ true = ground arith in rw (wraps, moves)
]

no_scroll : (s : Screen) → s.ypos < s.height → put_scroll s ≡ s
unfolding put_scroll
no_scroll s h = let on : leb s.height s.ypos ≡ false = ground arith in rw on

put_char_lem :
    (c : ℕ) (s : Screen)
    → c ≢ 10
    → c ≢ 8
    → s.xpos < s.width
    → put_char c s ≡ record (term_putentryat c s.xpos s.ypos s) { xpos = s.xpos + 1 }
unfolding put_char
put_char_lem c s n b h =
    let plain : (c == 10) || (c == 8) ≡ false = ground arith in
    let inside : ltb s.xpos s.width ≡ true = ground arith in rw (plain, inside)

-- The screen after `term_putchar` of a plain character that needs no scroll.
drawn : (c : ℕ) → Screen → Screen
drawn c s =
    let at = record s { xpos = next_x s; ypos = next_y s } in
    put_cursor (record (term_putentryat c (next_x s) (next_y s) at) { xpos = next_x s + 1 })

putchar_drawn :
    (c : ℕ) (s : Screen)
    → IsOnScreen s
    → c ≢ 10
    → c ≢ 8
    → next_y s < s.height
    → term_putchar c s ≡ drawn c s
unfolding term_putchar drawn
putchar_drawn c s is n b h =
    let at = record s { xpos = next_x s; ypos = next_y s } in
    rw (plain-control c s n b, wrap_lem s, no_scroll at h, put_char_lem c at n b (column s is))
  where
    column : (s : Screen) → IsOnScreen s → next_x s < s.width
    column s is = ground arith

-- From a cursor on the screen, an ASCII character other than newline and backspace, where no scroll is
-- needed, shows in the terminal's color at the cursor, or at the start of the next row when the cursor
-- is in the last column; the other cells stay as they are, and the cursor moves behind the character.
pub term_putchar-shows :
    (c : ℕ) (s : Screen)
    → IsOnScreen s
    → c < 128
    → c ≢ 10
    → c ≢ 8
    → s.color < 256
    → next_y s < s.height
    → let t = term_putchar c s in
      let index = next_y s * s.width + next_x s in
      (load16 t.mem (cell_at s.buffer index) ≡ c + s.color * 256)
      × ((n : ℕ)
          → n ≢ index
          → load16 t.mem (cell_at s.buffer n) ≡ load16 s.mem (cell_at s.buffer n))
      × (t.xpos ≡ next_x s + 1)
      × (t.ypos ≡ next_y s)
term_putchar-shows c s is ascii n b color h = rw (putchar_drawn c s is n b h) (
    unfold drawn put_cursor term_putentryat in
    let index = next_y s * s.width + next_x s in
    let column : next_x s < s.width = ground arith in
    let small : index % 2 ^ 32 ≡ index =
      omega (arith, is.countable, index_in_range (next_x s) (next_y s) s.width s.height column h) in
    let entry = make_vgaentry s.color c in
    rw small (
      load16-store16_self s.mem (cell_at s.buffer index) entry
          ∙ omega (arith, make_vgaentry_lem s.color c ascii color),
      (λ k o.
          load16-store16_ne s.mem (cell_at s.buffer index) entry (cell_at s.buffer k)
            (omega arith)),
      refl,
      refl,
    ))
