-- ===== src/Kernel/Shell/Rounds.antt =====
-- The rounds of the command loop.
use d.Base.{
  [], some, ◌∷◌, ◌++◌, All, ap, ◌∙◌, List, arith, codes, done, false, length, refl, ℕ, ◌+◌, ◌<◌,
  ◌≡◌,
}
use d.Kernel.{Globals}
use d.Kernel.Main.{shell, clear_buffer, shell_round, System, say, Places}
use d.Keybd.{get_kbd, take_line, Keyboard}
use d.Memory.{load8}
use d.Ports.{Device}
use d.Str.Texts.{IsText}
use d.Term.{write_text}
use d.Term.Texts.{write_text-IsOnScreen}
use d.Keybd.Line.{take_line-screen, take_line_frame, take_line_lem}
use d.Keybd.Typing.{characters, Bytes-IsText, IsPlain, Line, get_kbd-Line, length-characters}
use d.Mm.Copy.{mem_set}
use d.Mm.Copy.Laws.{mem_set_lem}
use d.Kernel.Shell.{
  IsAnswer, IsIdle, IsLaid, IsQuiet, IsQuiet-OnlyBuffer, IsQuiet-frame, reply-IsAnswer,
}

-- After a line of keys was taken: its characters are the text in the buffer, and the keyboard waits.
record IsTaken (places : Places) (keys : List ℕ) (k : Keyboard) : Type 0 where
  quiet : IsQuiet places k.screen
  line : IsText k.screen.mem places.buffer (characters keys)
  no_keys : k.kb_i ≡ 0
  unshifted : k.kb_shifted ≡ false
  not_pending : k.kb_buffer_pending ≡ false

module _ (g : Globals) (dev : Device) (places : Places) where
  prompted : Keyboard → Keyboard
  prompted k = record k { screen = say "\n>>>" k.screen }

  prompted-IsIdle : (k : Keyboard) → IsIdle places k → IsIdle places (prompted k)
  unfolding prompted
  prompted-IsIdle k idle =
      let (on, only) = write_text-IsOnScreen (codes "\n>>>") k.screen idle.quiet.on in
      let off = idle.quiet.buffer_off in
      record {
        quiet = IsQuiet-OnlyBuffer places k.screen (say "\n>>>" k.screen) on only idle.quiet;
        zeros = λ i h. only.outside (places.buffer + i) (omega arith) ∙ idle.zeros i h;
        no_keys = idle.no_keys;
        unshifted = idle.unshifted;
        not_pending = idle.not_pending;
      }

  take_line-IsTaken :
      (keys : List ℕ) (k k' : Keyboard)
      → IsLaid places
      → IsIdle places k
      → All IsPlain keys
      → length keys < 255
      → Line places.kb_buffer k (characters keys) k'
      → IsTaken places keys (take_line places.kb_buffer places.buffer k')
  take_line-IsTaken keys k k' laid idle plain short line =
      let m' = k'.screen.mem in
      let t = take_line places.kb_buffer places.buffer k' in
      let count : k'.kb_i ≡ length keys + 1 =
        omega (arith, line.count, idle.no_keys, length-characters keys) in
      let (copied, ended, kept, clear, none_left, waits) =
        take_line_lem places.kb_buffer places.buffer k' (omega (arith, count))
          (omega (arith, count)) laid.buffers in
      let (on, w, h, b, shifted) =
        take_line-screen places.kb_buffer places.buffer k' line.typing.on in
      let buffer_off = idle.quiet.buffer_off in
      let test_off = idle.quiet.test_off in
      let apart = laid.buffers in
      let last : load8 t.screen.mem (places.buffer + length keys) ≡ 0 =
        ap (λ (a : ℕ). load8 t.screen.mem a) (omega (arith, count))
        ∙ kept
        ∙ ap (λ (a : ℕ). load8 m' a) (omega (arith, count))
        ∙ line.only.outside (places.buffer + length keys) (omega arith) (omega arith)
        ∙ idle.zeros (length keys) (omega arith) in
      record {
        quiet =
            IsQuiet-frame places k.screen t.screen on (w ∙ line.only.width_eq)
              (h ∙ line.only.height_eq) (b ∙ line.only.buffer_eq)
              (λ a lo hi.
                take_line_frame places.kb_buffer places.buffer k' (omega (arith, count))
                  (omega (arith, count)) a (omega (arith, laid.test_kb))
                  (omega (arith, laid.test_buffer))
                ∙ line.only.outside a (omega arith) (omega (arith, laid.test_kb)))
              idle.quiet;
        line =
            Bytes-IsText m' t.screen.mem (places.kb_buffer + k.kb_i) places.buffer keys plain
              line.typed
              (λ i l.
                copied i (omega (arith, count))
                ∙ ap (λ (a : ℕ). load8 m' a) (omega (arith, idle.no_keys)))
              last;
        no_keys = none_left;
        unshifted = shifted ∙ line.typing.unshifted;
        not_pending = waits;
      }

  clear_buffer-IsIdle :
      (keys : List ℕ) (k : Keyboard) (answer : List ℕ)
      → IsLaid places
      → IsTaken places keys k
      → IsIdle places (record k { screen = clear_buffer g dev places (write_text answer k.screen) })
  unfolding clear_buffer
  clear_buffer-IsIdle keys k answer laid taken =
      let (on, only) = write_text-IsOnScreen answer k.screen taken.quiet.on in
      let s = write_text answer k.screen in
      let q = IsQuiet-OnlyBuffer places k.screen s on only taken.quiet in
      let cleared = record s { mem = mem_set s.mem places.buffer 0 256 } in
      let apart = laid.test_buffer in
      record {
        quiet =
            IsQuiet-frame places s cleared
              (record {
                column = on.column;
                row = on.row;
                columns = on.columns;
                countable = on.countable;
              })
              refl refl refl (λ a lo hi. ground (arith, mem_set_lem s.mem places.buffer 0 256 a)) q;
        zeros = λ i h. ground (arith, mem_set_lem s.mem places.buffer 0 256 (places.buffer + i));
        no_keys = taken.no_keys;
        unshifted = taken.unshifted;
        not_pending = taken.not_pending;
      }

  -- Let the kernel wait for a line, with its buffers and the text "test" apart from one another and from
  -- the screen. When less than 255 plain keys are typed and the Enter key, a round of the loop returns:
  -- it has taken that line, its answer is "AYYYYYY" if the characters are "test" and the characters
  -- themselves if they are not, the buffer is clear, and the kernel waits for the next line.
  pub shell_round-IsIdle :
      (keys rest : List ℕ) (sys : System)
      → IsLaid places
      → IsIdle places sys.keyboard
      → All IsPlain keys
      → length keys < 255
      → length keys < g.fuel
      → (k : Keyboard) × (answer : List ℕ) × (sys' : System) × (get_kbd places.kb_buffer
            places.buffer
            (keys ++ (0x1C ∷ rest))
            (record sys.keyboard { screen = say "\n>>>" sys.keyboard.screen })
          ≡ some (k, rest))
        × (shell_round g dev places (keys ++ (0x1C ∷ rest)) sys ≡ done (sys', rest))
        × IsAnswer (characters keys) answer
        × (sys'.keyboard.screen ≡ clear_buffer g dev places (write_text answer k.screen))
        × IsIdle places sys'.keyboard
  unfolding shell_round prompted
  shell_round-IsIdle keys rest sys laid idle plain short enough =
      let k₀ = prompted sys.keyboard in
      let waits = prompted-IsIdle sys.keyboard idle in
      let (k', got, line, pressed) =
        get_kbd-Line places.kb_buffer places.buffer keys rest k₀ plain
          (record { on = waits.quiet.on; off = waits.quiet.kb_off; unshifted = waits.unshifted })
          waits.not_pending (omega (arith, waits.no_keys)) in
      let k = take_line places.kb_buffer places.buffer k' in
      let taken = take_line-IsTaken keys k₀ k' laid waits plain short line in
      let size = length-characters keys in
      let (answer, replied, is) =
        reply-IsAnswer g dev places k.screen (characters keys) taken.quiet taken.line (omega arith)
          (omega arith) in
      (
        k,
        answer,
        record sys {
          keyboard = record k { screen = clear_buffer g dev places (write_text answer k.screen) };
        },
        got,
        rw (got, shell_round) (rw replied refl),
        is,
        refl,
        clear_buffer-IsIdle keys k answer laid taken,
      )

  -- The scancodes of lines, each with the Enter key, and then `rest`.
  abbrev pub typed_lines : List (List ℕ) → (rest : List ℕ) → List ℕ
  typed_lines [] rest = rest
  typed_lines (keys ∷ lines) rest = keys ++ (0x1C ∷ typed_lines lines rest)

  abbrev pub IsShort : List ℕ → Type 0
  IsShort keys = All IsPlain keys × (length keys < 255) × (length keys < g.fuel)

  -- From a kernel that waits for a line, with its buffers and the text "test" apart from one another and
  -- from the screen, and any number of lines of less than 255 plain keys: as many rounds of the loop as
  -- there are lines return, use up just those lines, and leave the kernel waiting for the next one.
  pub shell-IsIdle :
      (lines : List (List ℕ)) (rest : List ℕ) (sys : System)
      → IsLaid places
      → IsIdle places sys.keyboard
      → All IsShort lines
      → (sys' : System) × (shell g dev places (length lines) (typed_lines lines rest) sys
          ≡ done (sys', rest))
        × IsIdle places sys'.keyboard
  unfolding shell
  shell-IsIdle [] rest sys laid idle short = (sys, refl, idle)
  shell-IsIdle (keys ∷ lines) rest sys laid idle short =
      let (plain, size, enough) = short.0 in
      let (k, answer, sys₁, got, run, is, shown, idle₁) =
        shell_round-IsIdle keys (typed_lines lines rest) sys laid idle plain size enough in
      let (sys', runs, end) = shell-IsIdle lines rest sys₁ laid idle₁ short.1 in
      (sys', rw (run, shell) runs, end)
