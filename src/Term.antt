-- ===== src/Term.antt =====
-- term.c: the text terminal on the VGA buffer. A `Screen` is a `term_t` with the memory that its
-- buffer lies in and the log of the ports, to which the cursor's position goes. `xpos` and `ypos` are
-- `int`s that are not negative.
pub mod Cells
pub mod Bounds
pub mod Scroll
pub mod Texts
pub mod Clear
pub mod Silent
use d.Base.{
  Option, bit_and, bit_or, if◌then◌else◌, leb, ltb, none, some, suc, zero, ℕ, ◌%◌, ◌&&◌, ◌*◌, ◌+◌,
  ◌-◌, ◌/◌, ◌==◌, ◌^◌, ◌||◌, List, [], ◌∷◌,
}
use d.Memory.{Mem, load8, store16}
use d.Ports.{Log, outb}
use d.Mm.Copy.{mem_cpy}
use d.Str.{strlen}

-- The colors of `vga_color` that the kernel uses.
abbrev pub color_black : ℕ
color_black = 0

abbrev pub color_red : ℕ
color_red = 4

abbrev pub color_light_grey : ℕ
color_light_grey = 7

pub record Screen : Type 0 where
  pub width : ℕ
  pub height : ℕ
  pub color : ℕ
  pub xpos : ℕ
  pub ypos : ℕ
  pub buffer : ℕ
  pub mem : Mem
  pub log : Log

unfoldable pub make_color : (fg bg : ℕ) → ℕ
make_color fg bg = bit_or fg (bg * 2 ^ 4) % 256

-- A `char` is extended by its sign when it becomes a `uint16_t`.
unfoldable pub make_vgaentry : (color c : ℕ) → ℕ
make_vgaentry color c =
    let c16 = if ltb c 128 then c else c + 2 ^ 16 - 256 in
    bit_or c16 (color * 2 ^ 8 % 2 ^ 32) % 2 ^ 16

-- The address of `term->buffer[index]`.
abbrev pub cell_at : (buffer index : ℕ) → ℕ
cell_at buffer index = buffer + 2 * index

unfoldable pub term_putentryat : (c x y : ℕ) → Screen → Screen
term_putentryat c x y s =
    let index = (y * s.width + x) % 2 ^ 32 in
    record s { mem = store16 s.mem (cell_at s.buffer index) (make_vgaentry s.color c) }

-- The inner loop of `term_clear`, over a row, and the outer loop, over the rows.
unfoldable pub clear_row : (left x y c : ℕ) → Screen → Screen
clear_row zero x y c s = s
clear_row (suc left) x y c s = clear_row left (x + 1) y c (term_putentryat c x y s)

unfoldable pub clear_rows : (left y c : ℕ) → Screen → Screen
unfolding clear_row
clear_rows zero y c s = s
clear_rows (suc left) y c s = clear_rows left (y + 1) c (clear_row s.width 0 y c s)

unfoldable pub term_clear : (c : ℕ) → Screen → Screen
term_clear c s = clear_rows s.height 0 c s

unfoldable pub term_init : (width height fg bg buffer : ℕ) → Mem → Log → Screen
term_init width height fg bg buffer mem log = term_clear b' ' (record {
  width = width;
  height = height;
  color = make_color fg bg;
  xpos = 0;
  ypos = 0;
  buffer = buffer;
  mem = mem;
  log = log;
})

-- `term->buffer + term->width` is arithmetic on a `uint16_t *`; the size is a `size_t`.
unfoldable pub term_scroll : Screen → Screen
term_scroll s = record s {
  mem = mem_cpy s.mem s.buffer (s.buffer + 2 * s.width) (s.width * s.height * 2 % 2 ^ 32);
}

unfoldable pub term_setcolor : (color : ℕ) → Screen → Screen
term_setcolor color s = record s { color = color % 256 }

unfoldable pub update_cursor : (row col : ℕ) → Log → Log
update_cursor row col log =
    let position = (row * 80 + col) % 2 ^ 16 in
    let low = outb 0x3D5 (bit_and position 0xFF) (outb 0x3D4 0x0F log) in
    outb 0x3D5 (bit_and (position / 2 ^ 8) 0xFF) (outb 0x3D4 0x0E low)

-- The parts of `term_putchar`: newline and backspace, the wrap, the scroll and the write.
unfoldable pub put_control : (c : ℕ) → Screen → Screen
put_control c s =
    if c == 10
    then record s { xpos = 0; ypos = s.ypos + 1 }
    else if (c == 8) && ltb 0 s.xpos
    then term_putentryat b' ' (s.xpos - 1) s.ypos (record s { xpos = s.xpos - 1 })
    else s

unfoldable pub put_wrap : Screen → Screen
put_wrap s = if leb s.width (s.xpos + 1) then record s { xpos = 0; ypos = s.ypos + 1 } else s

unfoldable pub put_scroll : Screen → Screen
put_scroll s =
    let up = term_scroll s in if leb s.height s.ypos then record up { ypos = s.ypos - 1 } else s

unfoldable pub put_char : (c : ℕ) → Screen → Screen
put_char c s =
    let drawn = term_putentryat c s.xpos s.ypos s in
    if (c == 10) || (c == 8)
    then s
    else if ltb s.xpos s.width
    then record drawn { xpos = s.xpos + 1 }
    else drawn

unfoldable pub put_cursor : Screen → Screen
put_cursor s = record s { log = update_cursor s.ypos s.xpos s.log }

unfoldable pub term_putchar : (c : ℕ) → Screen → Screen
term_putchar c s = put_cursor (put_char c (put_scroll (put_wrap (put_control c s))))

-- `for (i = 0; i < datalen; i++) term_putchar(term, data[i])`, over the text at `at`.
unfoldable pub write_loop : (left i at : ℕ) → Screen → Screen
write_loop zero i at s = s
write_loop (suc left) i at s = write_loop left (i + 1) at (term_putchar (load8 s.mem (at + i)) s)

-- `none` means that `strlen` met no terminator within the fuel.
unfoldable pub term_writestring : (fuel at : ℕ) → Screen → Option Screen
term_writestring fuel at s = elim (strlen fuel s.mem at) [
  | none ↦ none
  | some datalen ↦ some (write_loop datalen 0 at s)
]

-- `term_writestring` of a text that is given by its bytes, such as a literal.
unfoldable pub write_text : List ℕ → Screen → Screen
write_text [] s = s
write_text (c ∷ cs) s = write_text cs (term_putchar c s)
