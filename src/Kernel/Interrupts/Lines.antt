-- ===== src/Kernel/Interrupts/Lines.antt =====
-- A line that is typed while the timer and other devices interrupt.
use d.Base.{All, List, [], ap, false, length, some, sym, ℕ, ◌%◌, ◌++◌, ◌+◌, ◌<◌, ◌^◌, ◌∙◌, ◌∷◌, ◌≡◌}
use d.Kernel.{Globals}
use d.Kernel.Interrupts.Runs.{Event, Interrupted, Interrupted-Refines, count_ticks, scancodes}
use d.Kernel.Main.{Places, System}
use d.Keybd.{Keyboard, get_kbd, take_line}
use d.Keybd.Silent.{muted}
use d.Keybd.Typing.{IsPlain, IsTyping, Line, characters, get_kbd-Line, typed}
use d.Ports.{Device}

-- Let a key of a line be able to come, with room in the buffer for a line of plain keys, and let
-- interrupts of the timer, of lines without a handler, and of the keyboard with those keys and then the Enter
-- key, come in any order. Then `get_kbd`, which is given the scancodes as a list, takes the line that the
-- interrupts have left in the kernel's state, but for the log of the ports; and `uptime` has counted the
-- ticks in between.
pub Interrupted-Line :
    (g : Globals) (dev : Device) (places : Places) (es : List Event) (keys rest : List ℕ)
    (s t : System)
    → All IsPlain keys
    → IsTyping places.kb_buffer s.keyboard
    → s.keyboard.kb_buffer_pending ≡ false
    → s.keyboard.kb_i + length keys < 255
    → s.uptime < 2 ^ 32
    → scancodes es ≡ keys ++ (0x1C ∷ [])
    → Interrupted g dev places es s t
    → (k : Keyboard) × (get_kbd places.kb_buffer places.buffer (keys ++ (0x1C ∷ rest)) s.keyboard
        ≡ some (take_line places.kb_buffer places.buffer k, rest))
      × Line places.kb_buffer s.keyboard (characters keys) k
      × (muted t.keyboard ≡ muted k)
      × (t.uptime ≡ (s.uptime + count_ticks es) % 2 ^ 32)
      × (t ≡ record s { keyboard = t.keyboard; uptime = t.uptime })
Interrupted-Line g dev places es keys rest s t plain typing idle room small codes run =
    let (same, up, kept) = Interrupted-Refines g dev places es s t small run in
    let (k, got, line, pressed) =
      get_kbd-Line places.kb_buffer places.buffer keys rest s.keyboard plain typing idle room in
    let matches : muted t.keyboard ≡ muted k =
      same
      ∙ ap (λ (cs : List ℕ). muted (typed places.kb_buffer cs s.keyboard)) codes
      ∙ ap (λ (j : Keyboard). muted j) (sym pressed) in
    (k, got, line, matches, up, kept)
