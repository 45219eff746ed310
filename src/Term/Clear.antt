-- ===== src/Term/Clear.antt =====
-- `term_clear` and `term_init`: every cell of the screen is blank.
use mathlib.Core.Path.{subst}
use d.Base.{
  ap, sym, ltb, Bool-cases, arith, if◌then◌else◌, inl, inr, leb, refl, suc, zero, ℕ, ◌%◌, ◌&&◌, ◌*◌,
  ◌+◌, ◌<◌, ◌==◌, ◌^◌, ◌∙◌, ◌≡◌, ◌≢◌, ◌≤◌,
}
use d.Memory.{Mem, load16, load8}
use d.Memory.Laws.{Apart, load16-store16_ne, load16-store16_self}
use d.Ports.{Log}
use d.Term.{
  Screen, cell_at, clear_row, clear_rows, make_color, make_vgaentry, term_clear, term_init,
  term_putentryat,
}
use d.Term.Bounds.{OnlyBuffer, OnlyBuffer-trans, index_in_range, putentryat-OnlyBuffer, same}

-- Two cells of a screen of width `w` that have one index are one cell.
index_once : (a b x y w : ℕ) → a < w → x < w → b * w + a ≡ y * w + x → (b ≡ y) × (a ≡ x)
index_once a b x y w h k e =
    let row : b ≡ y = elim (Bool-cases (ltb b y)) [
      | inl below ↦
          let rows : b + 1 ≤ y = ground arith in
          let up : (b + 1) * w ≤ y * w = grind arith in absurd (omega arith)
      | inr most ↦ elim (Bool-cases (ltb y b)) [
        | inl above ↦
            let rows : y + 1 ≤ b = ground arith in
            let up : (y + 1) * w ≤ b * w = grind arith in absurd (omega arith)
        | inr least ↦ ground arith
      ]
    ] in
    let offset : b * w ≡ y * w = ap (λ (r : ℕ). r * w) row in (row, omega arith)

module _ (c a b : ℕ) where
  -- The cell in column `a` of row `b`.
  abbrev cell : Screen → ℕ
  cell s = load16 s.mem (cell_at s.buffer (b * s.width + a))

  put-cell :
      (x y : ℕ) (s : Screen)
      → a < s.width
      → b < s.height
      → x < s.width
      → y < s.height
      → s.width * s.height < 2 ^ 32
      → cell (term_putentryat c x y s)
        ≡ (if (b == y) && (a == x) then make_vgaentry s.color c else cell s)
  unfolding term_putentryat make_vgaentry
  put-cell x y s ha hb hx hy n =
      let entry = make_vgaentry s.color c in
      let small : (y * s.width + x) % 2 ^ 32 ≡ y * s.width + x =
        omega (arith, index_in_range x y s.width s.height hx hy) in
      elim (Bool-cases ((b == y) && (a == x))) [
        | inl here ↦
            let row : b ≡ y = ground (arith, here) in
            let column : a ≡ x = ground (arith, here) in
            rw (here, small, row, column)
              (load16-store16_self s.mem (cell_at s.buffer (y * s.width + x)) entry ∙ omega arith)
        | inr other ↦
            let apart : b * s.width + a ≢ y * s.width + x =
              λ e. ground (arith, other, index_once a b x y s.width ha hx e) in
            rw (other, small)
              (load16-store16_ne s.mem (cell_at s.buffer (y * s.width + x)) entry
                (cell_at s.buffer (b * s.width + a)) (omega (arith, apart)))
      ]

  clear_row-cell :
      (left x y : ℕ) (s : Screen)
      → a < s.width
      → b < s.height
      → x + left ≡ s.width
      → y < s.height
      → s.width * s.height < 2 ^ 32
      → (cell (clear_row left x y c s)
          ≡ (if (b == y) && leb x a then make_vgaentry s.color c else cell s))
        × OnlyBuffer s (clear_row left x y c s)
        × (clear_row left x y c s ≡ record s { mem = (clear_row left x y c s).mem })
  unfolding clear_row term_putentryat
  clear_row-cell zero x y s ha hb e hy n = (ground arith, same refl refl refl refl refl, refl)
  clear_row-cell (suc left) x y s ha hb e hy n =
      let t = term_putentryat c x y s in
      let hx : x < s.width = omega arith in
      let (cells, only, kept) = clear_row-cell left (x + 1) y t ha hb (omega arith) hy n in
      let put = put-cell x y s ha hb hx hy n in
      (
        cells ∙ ground (arith, put),
        OnlyBuffer-trans (putentryat-OnlyBuffer c x y s hx hy n) only,
        kept,
      )

  clear_rows-cell :
      (left y : ℕ) (s : Screen)
      → a < s.width
      → b < s.height
      → y + left ≡ s.height
      → s.width * s.height < 2 ^ 32
      → (cell (clear_rows left y c s) ≡ (if leb y b then make_vgaentry s.color c else cell s))
        × OnlyBuffer s (clear_rows left y c s)
        × (clear_rows left y c s ≡ record s { mem = (clear_rows left y c s).mem })
  unfolding clear_rows
  clear_rows-cell zero y s ha hb e n = (ground arith, same refl refl refl refl refl, refl)
  clear_rows-cell (suc left) y s ha hb e n =
      let t = clear_row s.width 0 y c s in
      let hy : y < s.height = omega arith in
      let (row, first, kept) = clear_row-cell s.width 0 y s ha hb (omega arith) hy n in
      let u = record s { mem = t.mem } in
      let blank = make_vgaentry s.color c in
      let row' : cell u ≡ (if (b == y) && leb 0 a then blank else cell s) =
        subst (λ (v : Screen). cell v ≡ (if (b == y) && leb 0 a then blank else cell s)) kept row in
      let only : OnlyBuffer s u = subst (λ (v : Screen). OnlyBuffer s v) kept first in
      let (rest, more, end) = clear_rows-cell left (y + 1) u ha hb (omega arith) n in
      subst
        (λ (v : Screen).
          (cell (clear_rows left (y + 1) c v)
            ≡ (if leb y b then make_vgaentry s.color c else cell s))
          × OnlyBuffer s (clear_rows left (y + 1) c v)
          × (clear_rows left (y + 1) c v ≡ record s { mem = (clear_rows left (y + 1) c v).mem }))
        (sym kept) (rest ∙ ground (arith, row'), OnlyBuffer-trans only more, end)

-- On a screen of less than 2 ^ 32 cells `term_init` blanks the cell in every column and row, in the colors
-- that it was given, writes no byte off the screen and no port, and leaves the cursor in the corner.
pub term_init_lem :
    (width height fg bg buffer a b z : ℕ) (m : Mem) (log : Log)
    → width * height < 2 ^ 32
    → a < width
    → b < height
    → Apart buffer (2 * (width * height)) z 1
    → let s = term_init width height fg bg buffer m log in
      (load16 s.mem (cell_at buffer (b * width + a)) ≡ make_vgaentry (make_color fg bg) b' ')
      × (load8 s.mem z ≡ load8 m z)
      × (s ≡ record {
        width = width;
        height = height;
        color = make_color fg bg;
        xpos = 0;
        ypos = 0;
        buffer = buffer;
        mem = s.mem;
        log = log;
      })
unfolding term_init term_clear
term_init_lem width height fg bg buffer a b z m log n ha hb off =
    let s : Screen = record {
      width = width;
      height = height;
      color = make_color fg bg;
      xpos = 0;
      ypos = 0;
      buffer = buffer;
      mem = m;
      log = log;
    } in
    let (cells, only, kept) = clear_rows-cell b' ' a b height 0 s ha hb (omega arith) n in
    (ground (arith, cells), only.outside z off, kept)
