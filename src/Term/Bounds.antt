-- ===== src/Term/Bounds.antt =====
-- The cursor stays on the screen, and only the buffer is written.
use d.Base.{
  arith, refl, ℕ, ◌*◌, ◌+◌, ◌<◌, ◌^◌, ◌∙◌, ◌≡◌, ◌≤◌, Bool-cases, ap, inl, inr, leb, ltb, true, ◌&&◌,
  ◌-◌, ◌%◌, ◌==◌, ◌||◌, List, length, some, suc, zero,
}
use d.Memory.{load8, Mem}
use d.Memory.Laws.{Apart, load8-store16_ne}
use d.Mm.Copy.Laws.{mem_cpy_lem}
use d.Term.{
  Screen, term_putentryat, term_scroll, put_char, put_control, put_cursor, put_scroll, put_wrap,
  term_putchar, term_writestring, write_loop,
}
use d.Str.Scan.{strlen-length}
use d.Str.Texts.{IsText}

-- The cursor is on a screen of at least two columns whose cells a `size_t` can count.
pub record IsOnScreen (s : Screen) : Type 0 where
  pub column : s.xpos < s.width
  pub row : s.ypos < s.height
  pub columns : 2 ≤ s.width
  pub countable : s.width * s.height < 2 ^ 32

-- `t` has the geometry of `s`, and differs in memory at most in the buffer's cells.
pub record OnlyBuffer (s t : Screen) : Type 0 where
  pub width_eq : t.width ≡ s.width
  pub height_eq : t.height ≡ s.height
  pub color_eq : t.color ≡ s.color
  pub buffer_eq : t.buffer ≡ s.buffer
  pub outside :
      (a : ℕ) → Apart s.buffer (2 * (s.width * s.height)) a 1 → load8 t.mem a ≡ load8 s.mem a

pub index_in_range : (x y w h : ℕ) → x < w → y < h → y * w + x < w * h
index_in_range x y w h p q = grind arith

pub OnlyBuffer-trans : {s t u : Screen} → OnlyBuffer s t → OnlyBuffer t u → OnlyBuffer s u
OnlyBuffer-trans f g = record {
  width_eq = g.width_eq ∙ f.width_eq;
  height_eq = g.height_eq ∙ f.height_eq;
  color_eq = g.color_eq ∙ f.color_eq;
  buffer_eq = g.buffer_eq ∙ f.buffer_eq;
  outside = λ a o. g.outside a (rw (f.buffer_eq, f.width_eq, f.height_eq) o) ∙ f.outside a o;
}

pub putentryat-OnlyBuffer :
    (c x y : ℕ) (s : Screen)
    → x < s.width
    → y < s.height
    → s.width * s.height < 2 ^ 32
    → OnlyBuffer s (term_putentryat c x y s)
unfolding term_putentryat
putentryat-OnlyBuffer c x y s p q n = record {
  width_eq = refl;
  height_eq = refl;
  color_eq = refl;
  buffer_eq = refl;
  outside =
      λ a o. load8-store16_ne s.mem _ _ a (omega (arith, index_in_range x y s.width s.height p q));
}

scroll-OnlyBuffer : (s : Screen) → OnlyBuffer s (term_scroll s)
unfolding term_scroll
scroll-OnlyBuffer s = record {
  width_eq = refl;
  height_eq = refl;
  color_eq = refl;
  buffer_eq = refl;
  outside = λ a o. ground (
    arith,
    mem_cpy_lem s.mem s.buffer (s.buffer + 2 * s.width) (s.width * s.height * 2 % 2 ^ 32) a,
  );
}

pub same :
    {s t : Screen}
    → t.width ≡ s.width
    → t.height ≡ s.height
    → t.color ≡ s.color
    → t.buffer ≡ s.buffer
    → t.mem ≡ s.mem
    → OnlyBuffer s t
same w h c b m = record {
  width_eq = w;
  height_eq = h;
  color_eq = c;
  buffer_eq = b;
  outside = λ a o. ap (λ (x : Mem). load8 x a) m;
}

control-OnlyBuffer : (c : ℕ) (s : Screen) → IsOnScreen s → OnlyBuffer s (put_control c s)
unfolding put_control
control-OnlyBuffer c s is = elim (Bool-cases (c == 10)) [
  | inl newline ↦ rw newline (same refl refl refl refl refl)
  | inr other ↦ rw other (elim (Bool-cases ((c == 8) && ltb 0 s.xpos)) [
    | inl back ↦
        let moved = record s { xpos = s.xpos - 1 } in
        rw back (
          OnlyBuffer-trans (same {s = s} {t = moved} refl refl refl refl refl) (
            putentryat-OnlyBuffer b' ' (s.xpos - 1) s.ypos moved (omega (arith, is)) is.row
              is.countable))
    | inr stays ↦ rw stays (same refl refl refl refl refl)
  ])
]

wrap-OnlyBuffer : (s : Screen) → OnlyBuffer s (put_wrap s)
unfolding put_wrap
wrap-OnlyBuffer s = elim (Bool-cases (leb s.width (s.xpos + 1))) [
  | inl wraps ↦ rw wraps (same refl refl refl refl refl)
  | inr fits ↦ rw fits (same refl refl refl refl refl)
]

put_scroll-OnlyBuffer : (s : Screen) → OnlyBuffer s (put_scroll s)
unfolding put_scroll
put_scroll-OnlyBuffer s = elim (Bool-cases (leb s.height s.ypos)) [
  | inl below ↦ rw below (OnlyBuffer-trans (scroll-OnlyBuffer s) (same refl refl refl refl refl))
  | inr on ↦ rw on (same refl refl refl refl refl)
]

put_char-OnlyBuffer :
    (c : ℕ) (s : Screen)
    → s.xpos < s.width
    → s.ypos < s.height
    → s.width * s.height < 2 ^ 32
    → OnlyBuffer s (put_char c s)
unfolding put_char
put_char-OnlyBuffer c s p q n =
    let drawn = putentryat-OnlyBuffer c s.xpos s.ypos s p q n in
    let inside : ltb s.xpos s.width ≡ true = ground arith in
    elim (Bool-cases ((c == 10) || (c == 8))) [
      | inl control ↦ rw control (same refl refl refl refl refl)
      | inr plain ↦ rw (plain, inside) (OnlyBuffer-trans drawn (same refl refl refl refl refl))
    ]

-- Where the cursor stands after the first two parts of `term_putchar`, with a column to spare.
placed :
    (c : ℕ) (s : Screen)
    → IsOnScreen s
    → let t = put_wrap (put_control c s) in (t.xpos + 1 < s.width) × (t.ypos ≤ s.height)
unfolding put_wrap put_control term_putentryat
placed c s is = ground arith

scrolled :
    (s : Screen)
    → s.ypos ≤ s.height
    → 0 < s.height
    → ((put_scroll s).xpos ≡ s.xpos) × ((put_scroll s).ypos < s.height)
unfolding put_scroll term_scroll
scrolled s h p = ground arith

advanced :
    (c : ℕ) (s : Screen)
    → s.xpos + 1 < s.width
    → ((put_char c s).xpos < s.width) × ((put_char c s).ypos ≡ s.ypos)
unfolding put_char term_putentryat
advanced c s h = ground arith

-- From a cursor on the screen, `term_putchar` of any character leaves the cursor on the screen, the
-- size, the color and the place of the buffer as they were, and every byte outside the buffer's cells.
pub term_putchar-IsOnScreen :
    (c : ℕ) (s : Screen)
    → IsOnScreen s
    → IsOnScreen (term_putchar c s) × OnlyBuffer s (term_putchar c s)
unfolding term_putchar put_cursor
term_putchar-IsOnScreen c s is =
    let s₁ = put_control c s in
    let s₂ = put_wrap s₁ in
    let s₃ = put_scroll s₂ in
    let at = placed c s is in
    let f₂ = OnlyBuffer-trans (control-OnlyBuffer c s is) (wrap-OnlyBuffer s₁) in
    let up = scrolled s₂ (omega (arith, at, f₂.height_eq)) (omega (arith, is.row, f₂.height_eq)) in
    let f₃ = OnlyBuffer-trans f₂ (put_scroll-OnlyBuffer s₂) in
    let area : s₃.width * s₃.height < 2 ^ 32 = rw (f₃.width_eq, f₃.height_eq) is.countable in
    let room : s₃.xpos + 1 < s₃.width = omega (arith, at, up, f₃.width_eq) in
    let low : s₃.ypos < s₃.height = omega (arith, up, f₂.height_eq, f₃.height_eq) in
    let end = advanced c s₃ room in
    let f₄ = OnlyBuffer-trans f₃ (put_char-OnlyBuffer c s₃ (omega arith) low area) in
    (
      record {
        column = omega (arith, end, f₃.width_eq, f₄.width_eq);
        row = omega (arith, end, low, f₃.height_eq, f₄.height_eq);
        columns = omega (arith, is.columns, f₄.width_eq);
        countable = rw (f₄.width_eq, f₄.height_eq) is.countable;
      },
      record {
        width_eq = f₄.width_eq;
        height_eq = f₄.height_eq;
        color_eq = f₄.color_eq;
        buffer_eq = f₄.buffer_eq;
        outside = f₄.outside;
      },
    )

write_loop-IsOnScreen :
    (left i at : ℕ) (s : Screen)
    → IsOnScreen s
    → IsOnScreen (write_loop left i at s) × OnlyBuffer s (write_loop left i at s)
unfolding write_loop
write_loop-IsOnScreen zero i at s is = (is, same refl refl refl refl refl)
write_loop-IsOnScreen (suc left) i at s is =
    let (on, first) = term_putchar-IsOnScreen (load8 s.mem (at + i)) s is in
    let (end, rest) =
      write_loop-IsOnScreen left (i + 1) at (term_putchar (load8 s.mem (at + i)) s) on in
    (end, OnlyBuffer-trans first rest)

-- With more fuel than bytes, `term_writestring` of a text returns; it keeps the cursor on the screen
-- and writes to no byte outside the buffer's cells.
pub term_writestring-IsOnScreen :
    (fuel at : ℕ) (xs : List ℕ) (s : Screen)
    → IsText s.mem at xs
    → length xs < fuel
    → IsOnScreen s
    → (t : Screen) × (term_writestring fuel at s ≡ some t) × IsOnScreen t × OnlyBuffer s t
unfolding term_writestring
term_writestring-IsOnScreen fuel at xs s text enough is =
    let (end, only) = write_loop-IsOnScreen (length xs) 0 at s is in
    (
      write_loop (length xs) 0 at s,
      rw (strlen-length fuel s.mem at xs text enough, term_writestring),
      end,
      only,
    )
