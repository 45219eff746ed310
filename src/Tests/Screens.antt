-- ===== src/Tests/Screens.antt =====
-- term.c and keybd.c at concrete inputs.
use d.Base.{[], arith, false, some, true, ℕ, ◌*◌, ◌+◌, ◌-◌, ◌<◌, ◌≡◌, ◌≢◌}
use d.Memory.{load8, load16}
use d.Term.{
  term_init, make_color, make_vgaentry, Screen, term_putchar, term_writestring, term_scroll,
  cell_at, write_text,
}
use d.Term.Bounds.{IsOnScreen, OnlyBuffer, term_putchar-IsOnScreen}
use d.Term.Clear.{term_init_lem}
use d.Term.Scroll.{term_scroll_lem}
use d.Term.Cells.{term_putchar-shows, next_x, next_y}
use d.Keybd.{Keyboard, take_line}
use d.Keybd.Line.{take_line_lem}
use d.Tests.Data.{texts, abc}
use d.Tests.Texts.{abc-IsText}
use d.Term.Texts.{term_writestring-write_text}

-- A screen of three columns and two rows behind the texts, with the cursor at its end.
abbrev screen : Screen
screen = record {
  width = 3;
  height = 2;
  color = 7;
  xpos = 2;
  ypos = 1;
  buffer = 100;
  mem = texts;
  log = [];
}

screen-IsOnScreen : IsOnScreen screen
screen-IsOnScreen = record {
  column = omega arith;
  row = omega arith;
  columns = omega arith;
  countable = omega arith;
}

-- A character that wraps and scrolls.
term_putchar-IsOnScreen_example :
    IsOnScreen (term_putchar b'a' screen) × OnlyBuffer screen (term_putchar b'a' screen)
term_putchar-IsOnScreen_example = term_putchar-IsOnScreen b'a' screen screen-IsOnScreen

term_writestring-write_text_example : term_writestring 4 1 screen ≡ some (write_text abc screen)
term_writestring-write_text_example =
    term_writestring-write_text 4 1 abc screen screen-IsOnScreen (omega arith) abc-IsText
      (omega arith)

term_scroll_lem_example :
    load16 (term_scroll screen).mem (cell_at 100 (1 * 3 + 2))
    ≡ load16 texts (cell_at 100 ((1 + 1) * 3 + 2))
term_scroll_lem_example = term_scroll_lem screen 2 1 (omega arith) (omega arith) (omega arith)

-- The same screen with the cursor at the end of the first row.
abbrev upper : Screen
upper = record screen { ypos = 0 }

upper-IsOnScreen : IsOnScreen upper
upper-IsOnScreen = record {
  column = omega arith;
  row = omega arith;
  columns = omega arith;
  countable = omega arith;
}

term_putchar-shows_example :
    let t = term_putchar b'a' upper in
    let index = next_y upper * 3 + next_x upper in
    (load16 t.mem (cell_at 100 index) ≡ b'a' + 7 * 256)
    × ((n : ℕ) → n ≢ index → load16 t.mem (cell_at 100 n) ≡ load16 texts (cell_at 100 n))
    × (t.xpos ≡ next_x upper + 1)
    × (t.ypos ≡ next_y upper)
term_putchar-shows_example =
    term_putchar-shows b'a' upper upper-IsOnScreen (omega arith) (omega arith) (omega arith)
      (omega arith) (omega arith)

-- Three keys in the buffer at 1.
abbrev keys : Keyboard
keys = record { screen = screen; kb_i = 3; kb_shifted = false; kb_buffer_pending = true }

take_line_lem_example :
    let k' = take_line 1 1000 keys in
    ((i : ℕ) → i + 1 < 3 → load8 k'.screen.mem (1000 + i) ≡ load8 texts (1 + i))
    × (load8 k'.screen.mem (1000 + 3) ≡ 0)
    × (load8 k'.screen.mem (1000 + (3 - 1)) ≡ load8 texts (1000 + (3 - 1)))
    × ((i : ℕ) → i < 255 → load8 k'.screen.mem (1 + i) ≡ 0)
    × (k'.kb_i ≡ 0)
    × (k'.kb_buffer_pending ≡ false)
take_line_lem_example = take_line_lem 1 1000 keys (omega arith) (omega arith) (omega arith)

-- The cell in column 1 of row 1, and the byte in front of the buffer.
term_init_lem_example :
    let s = term_init 3 2 7 0 100 texts [] in
    (load16 s.mem (cell_at 100 (1 * 3 + 1)) ≡ make_vgaentry (make_color 7 0) b' ')
    × (load8 s.mem 99 ≡ load8 texts 99)
    × (s ≡ record {
      width = 3;
      height = 2;
      color = make_color 7 0;
      xpos = 0;
      ypos = 0;
      buffer = 100;
      mem = s.mem;
      log = [];
    })
term_init_lem_example =
    term_init_lem 3 2 7 0 100 1 1 99 texts [] (omega arith) (omega arith) (omega arith)
      (omega arith)
