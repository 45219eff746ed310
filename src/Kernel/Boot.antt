-- ===== src/Kernel/Boot.antt =====
-- The screen and the memory while `cmain` of kernel.c starts the kernel.
pub mod Memory
pub mod Welcome
pub mod Whole
pub mod December
use d.Base.{
  List, Bool-cases, inl, inr, leb, zero, suc, arith, ap, refl, sym, ◌-◌, ℕ, ◌+◌, ◌*◌, ◌<◌, ◌≡◌, ◌≤◌,
  ◌∙◌,
}
use d.Memory.{Mem, load32, load8}
use d.Memory.Laws.{Apart, load8-lt}
use d.Ports.{Log}
use d.Term.{Screen, term_init, write_text}
use d.Term.Bounds.{IsOnScreen}
use d.Term.Clear.{term_init_lem}
use d.Term.Texts.{write_text-IsOnScreen}

-- The cells of the VGA text buffer.
abbrev pub vga : ℕ
vga = 0xB8000

abbrev pub vga_size : ℕ
vga_size = 4000

-- The terminal is the VGA screen with the cursor on it, and off the screen memory is that of `m`.
pub record IsUp (m : Mem) (s : Screen) : Type 0 where
  pub on : IsOnScreen s
  pub wide : s.width ≡ 80
  pub high : s.height ≡ 25
  pub place : s.buffer ≡ vga
  pub same : (a : ℕ) → Apart vga vga_size a 1 → load8 s.mem a ≡ load8 m a

pub term_init-IsUp : (m : Mem) (log : Log) → IsUp m (term_init 80 25 7 0 vga m log)
term_init-IsUp m log =
    let s = term_init 80 25 7 0 vga m log in
    let whole =
      (term_init_lem 80 25 7 0 vga 0 0 0 m log (omega arith) (omega arith) (omega arith)
        (omega arith)).2 in
    let w : s.width ≡ 80 = ap (λ (t : Screen). t.width) whole in
    let h : s.height ≡ 25 = ap (λ (t : Screen). t.height) whole in
    let x : s.xpos ≡ 0 = ap (λ (t : Screen). t.xpos) whole in
    let y : s.ypos ≡ 0 = ap (λ (t : Screen). t.ypos) whole in
    record {
      on = record {
        column = omega arith;
        row = omega arith;
        columns = omega arith;
        countable = rw (w, h) (omega arith);
      };
      wide = w;
      high = h;
      place = ap (λ (t : Screen). t.buffer) whole;
      same = λ a o.
          (term_init_lem 80 25 7 0 vga 0 0 a m log (omega arith) (omega arith) (omega arith) o).1;
    }

pub write_text-IsUp : (xs : List ℕ) (m : Mem) (s : Screen) → IsUp m s → IsUp m (write_text xs s)
write_text-IsUp xs m s up =
    let (on, only) = write_text-IsOnScreen xs s up.on in
    record {
      on = on;
      wide = only.width_eq ∙ up.wide;
      high = only.height_eq ∙ up.high;
      place = only.buffer_eq ∙ up.place;
      same = λ a o. only.outside a (rw (up.place, up.wide, up.high) o) ∙ up.same a o;
    }

-- A change of the log, and one of memory.
pub log-IsUp : (m : Mem) (s : Screen) (log : Log) → IsUp m s → IsUp m (record s { log = log })
log-IsUp m s log up = record {
  on = record {
    column = up.on.column;
    row = up.on.row;
    columns = up.on.columns;
    countable = up.on.countable;
  };
  wide = up.wide;
  high = up.high;
  place = up.place;
  same = up.same;
}

pub mem-IsUp : (m m' : Mem) (s : Screen) → IsUp m s → IsUp m' (record s { mem = m' })
mem-IsUp m m' s up = record {
  on = record {
    column = up.on.column;
    row = up.on.row;
    columns = up.on.columns;
    countable = up.on.countable;
  };
  wide = up.wide;
  high = up.high;
  place = up.place;
  same = λ a o. refl;
}
