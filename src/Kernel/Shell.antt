-- ===== src/Kernel/Shell.antt =====
-- The command loop between two lines, and its answer to one.
pub mod Rounds
use d.Base.{
  ◌⊎◌, some, ◌∷◌, ◌++◌, ◌==◌, All, Bool-cases, ap, inl, inr, ◌∙◌, List, arith, codes, done, false,
  length, refl, ℕ, ◌+◌, ◌<◌, ◌≡◌, ◌≢◌, ◌≤◌,
}
use d.Kernel.{Globals, write_string}
use d.Kernel.Main.{reply, clear_buffer, shell_round, System, say, Places}
use d.Keybd.{get_kbd, take_line, Keyboard}
use d.Memory.{load8}
use d.Memory.Laws.{Apart}
use d.Ports.{Device}
use d.Str.Scan.{strcmp-eq}
use d.Str.Texts.{IsText, IsText-window}
use d.Term.{Screen, write_text}
use d.Term.Bounds.{IsOnScreen, OnlyBuffer}
use d.Term.Texts.{OffScreen, term_writestring-write_text, write_text-IsOnScreen}
use d.Keybd.Line.{take_line-screen, take_line_frame, take_line_lem}
use d.Keybd.Typing.{characters, Bytes-IsText, IsPlain, Line, get_kbd-Line, length-characters}
use d.Mm.Copy.{mem_set}
use d.Mm.Copy.Laws.{mem_set_lem}

-- The two buffers and the text "test" share no byte.
pub record IsLaid (places : Places) : Type 0 where
  pub buffers : Apart places.kb_buffer 256 places.buffer 256
  pub test_kb : Apart places.kb_buffer 256 places.test_text 5
  pub test_buffer : Apart places.buffer 256 places.test_text 5

-- The cursor is on the screen, no cell of it is in a buffer or the text "test", and that text stands.
pub record IsQuiet (places : Places) (s : Screen) : Type 0 where
  pub on : IsOnScreen s
  pub kb_off : OffScreen s places.kb_buffer 256
  pub buffer_off : OffScreen s places.buffer 256
  pub test_off : OffScreen s places.test_text 5
  pub test : IsText s.mem places.test_text (codes "test")

-- The keyboard waits for the first key of a line, and the line's buffer is clear.
pub record IsIdle (places : Places) (k : Keyboard) : Type 0 where
  pub quiet : IsQuiet places k.screen
  pub zeros : (i : ℕ) → i < 256 → load8 k.screen.mem (places.buffer + i) ≡ 0
  pub no_keys : k.kb_i ≡ 0
  pub unshifted : k.kb_shifted ≡ false
  pub not_pending : k.kb_buffer_pending ≡ false

pub IsQuiet-frame :
    (places : Places) (s t : Screen)
    → IsOnScreen t
    → t.width ≡ s.width
    → t.height ≡ s.height
    → t.buffer ≡ s.buffer
    → ((a : ℕ) → places.test_text ≤ a → a ≤ places.test_text + 4 → load8 t.mem a ≡ load8 s.mem a)
    → IsQuiet places s
    → IsQuiet places t
IsQuiet-frame places s t on w h b same q = record {
  on = on;
  kb_off = rw (b, w, h) q.kb_off;
  buffer_off = rw (b, w, h) q.buffer_off;
  test_off = rw (b, w, h) q.test_off;
  test = IsText-window s.mem t.mem places.test_text (codes "test") same q.test;
}

-- Output keeps all that.
pub IsQuiet-OnlyBuffer :
    (places : Places) (s t : Screen)
    → IsOnScreen t
    → OnlyBuffer s t
    → IsQuiet places s
    → IsQuiet places t
IsQuiet-OnlyBuffer places s t on only q =
    let off = q.test_off in
    IsQuiet-frame places s t on only.width_eq only.height_eq only.buffer_eq
      (λ a lo hi. only.outside a (omega arith)) q

-- The answer to a line: "AYYYYYY" for "test", and the line itself for every other one.
abbrev pub IsAnswer : (line answer : List ℕ) → Type 0
IsAnswer line answer =
    ((line ≡ codes "test") × (answer ≡ codes "AYYYYYY\n"))
    ⊎ ((line ≢ codes "test") × (answer ≡ line))

module _ (g : Globals) (dev : Device) (places : Places) where
  pub reply-IsAnswer :
      (s : Screen) (xs : List ℕ)
      → IsQuiet places s
      → IsText s.mem places.buffer xs
      → length xs < 256
      → length xs < g.fuel
      → (answer : List ℕ) × (reply g dev places s ≡ done (write_text answer s)) × IsAnswer xs answer
  unfolding reply write_string
  reply-IsAnswer s xs q line short enough =
      let (r, eq, small, iff) =
        strcmp-eq g.fuel s.mem places.buffer places.test_text xs (codes "test") line q.test
          enough in
      let off = q.buffer_off in
      let echoed =
        term_writestring-write_text g.fuel places.buffer xs s q.on (omega arith) line enough in
      elim (Bool-cases (r == 0)) [
        | inl differs ↦ (
          xs,
          rw (eq, reply) (rw differs (rw (echoed, write_string) refl)),
          inr ((λ e. ground (arith, differs, iff.1 e)), refl),
        )
        | inr equal ↦ (
          codes "AYYYYYY\n",
          rw (eq, reply) (rw equal refl),
          inl (iff.0 (ground (arith, equal, small)), refl),
        )
      ]
