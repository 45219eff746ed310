-- ===== src/Term/Scroll.antt =====
-- What `term_scroll` leaves in the cells.
use d.Base.{arith, true, ℕ, ◌*◌, ◌+◌, ◌-◌, ◌<◌, ◌∙◌, ◌≡◌, ◌≤◌, ◌%◌, ◌^◌}
use d.Memory.{Mem, load16, load8}
use d.Mm.Copy.{mem_cpy, within}
use d.Mm.Copy.Laws.{mem_cpy_lem}
use d.Term.{Screen, cell_at, term_scroll}

next_row : (x y w : ℕ) → (y + 1) * w + x ≡ y * w + x + w
next_row x y w = omega arith

in_area : (x y w h : ℕ) → x < w → y < h → 2 * (y * w + x) + 2 ≤ w * h * 2
in_area x y w h p q = grind arith

-- Where the copied cells lie in the memory, their number of bytes does not wrap around.
unwrapped : (a w h : ℕ) → 0 < w → a + 2 * (w * (h + 1)) ≤ 2 ^ 32 → w * h * 2 % 2 ^ 32 ≡ w * h * 2
unwrapped a w h p q = let area : w * (h + 1) ≡ w * h + w = omega arith in omega arith

moved :
    (m : Mem) (dst src size b c : ℕ)
    → dst ≤ b
    → b < dst + size
    → c + dst ≡ src + b
    → load8 (mem_cpy m dst src size) b ≡ load8 m c
moved m dst src size b c lo hi e =
    let inside : within dst size b ≡ true = ground arith in
    let from : src + (b - dst) ≡ c = omega arith in mem_cpy_lem m dst src size b ∙ rw (inside, from)

-- When the buffer and one more row behind it lie within the 4 GB of memory, after `term_scroll` every cell
-- of the screen holds what the cell below it held. For the last row that is the memory behind the
-- buffer, since a whole screen is copied from the second row on.
pub term_scroll_lem :
    (s : Screen) (x y : ℕ)
    → x < s.width
    → y < s.height
    → s.buffer + 2 * (s.width * (s.height + 1)) ≤ 2 ^ 32
    → load16 (term_scroll s).mem (cell_at s.buffer (y * s.width + x))
      ≡ load16 s.mem (cell_at s.buffer ((y + 1) * s.width + x))
unfolding term_scroll load16
term_scroll_lem s x y p q room =
    let fits = unwrapped s.buffer s.width s.height (omega arith) room in
    let a = s.buffer + 2 * (y * s.width + x) in
    let size = s.width * s.height * 2 in
    let src = s.buffer + 2 * s.width in
    let bound = in_area x y s.width s.height p q in
    let shift : s.buffer + 2 * ((y + 1) * s.width + x) ≡ a + 2 * s.width =
      omega (arith, next_row x y s.width) in
    let first : load8 (mem_cpy s.mem s.buffer src size) a ≡ load8 s.mem (a + 2 * s.width) =
      moved s.mem s.buffer src size a (a + 2 * s.width) (omega arith) (omega arith) (omega arith) in
    let second : load8 (mem_cpy s.mem s.buffer src size) (a + 1)
        ≡ load8 s.mem (a + 2 * s.width + 1) =
      moved s.mem s.buffer src size (a + 1) (a + 2 * s.width + 1) (omega arith) (omega arith)
        (omega arith) in
    rw (fits, shift, first, second)
