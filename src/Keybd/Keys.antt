-- ===== src/Keybd/Keys.antt =====
-- A printable key, from the interrupt to the buffer.
use d.Base.{
  Bool, get_or, if◌then◌else◌, ℕ, ◌%◌, ◌*◌, ◌+◌, ◌<◌, ◌==◌, ◌||◌, ◌≡◌, ◌≢◌, arith, false, ltb, refl,
  true, ◌∙◌,
}
use d.Memory.{load8}
use d.Memory.Laws.{Apart, load8-store8_ne, load8-store8_self}
use d.Term.Bounds.{IsOnScreen, term_putchar-IsOnScreen}
use d.Keybd.{Keyboard, take_key, on_scancode, kbdus, kbdus_shifted}
use d.Term.{term_putchar}

-- The character that a scancode stands for, with or without shift.
abbrev pub character : Bool → ℕ → ℕ
character shifted scancode =
    if shifted then get_or kbdus_shifted scancode 0 else get_or kbdus scancode 0

pub on_scancode-take_key :
    (kb_buffer scancode : ℕ) (k : Keyboard)
    → scancode < 0x58
    → get_or kbdus scancode 0 ≢ 0
    → on_scancode kb_buffer scancode k
      ≡ take_key kb_buffer scancode (character k.kb_shifted scancode) k
unfolding on_scancode
on_scancode-take_key kb_buffer scancode k low printable =
    let known : get_or kbdus scancode 0 == 0 ≡ false = ground (arith, printable) in
    let small : ltb scancode 0x58 ≡ true = ground (arith, low) in
    rw (known, on_scancode) (rw small refl)

take_key_lem :
    (kb_buffer scancode c : ℕ) (k : Keyboard)
    → IsOnScreen k.screen
    → k.kb_i < 256
    → Apart k.screen.buffer (2 * (k.screen.width * k.screen.height)) kb_buffer 256
    → let k' = take_key kb_buffer scancode c k in
      (load8 k'.screen.mem (kb_buffer + k.kb_i) ≡ c % 256)
      × ((i : ℕ)
          → i < k.kb_i
          → load8 k'.screen.mem (kb_buffer + i) ≡ load8 k.screen.mem (kb_buffer + i))
      × (k'.kb_i ≡ k.kb_i + 1)
      × (k'.kb_buffer_pending ≡ ((scancode == 0x1C) || k.kb_buffer_pending))
      × (k'.kb_shifted ≡ k.kb_shifted)
      × IsOnScreen k'.screen
unfolding take_key
take_key_lem kb_buffer scancode c k on room apart =
    let echoed = term_putchar c k.screen in
    let (stays, only) = term_putchar-IsOnScreen c k.screen on in
    (
      load8-store8_self echoed.mem (kb_buffer + k.kb_i) c,
      (λ i h.
          load8-store8_ne echoed.mem (kb_buffer + k.kb_i) c (kb_buffer + i) (omega arith)
          ∙ only.outside (kb_buffer + i) (omega arith)),
      omega arith,
      ground arith,
      refl,
      record {
        column = stays.column;
        row = stays.row;
        columns = stays.columns;
        countable = stays.countable;
      },
    )

-- With the cursor on the screen, room in the buffer of 256 bytes and that buffer apart from the screen's, a
-- scancode below 0x58 with a character puts the shifted or the plain character behind the ones in the
-- buffer, which stay; the line is pending if it was so before or the key is Enter; the shift state stays,
-- and the cursor is on the screen.
pub on_scancode-printable :
    (kb_buffer scancode : ℕ) (k : Keyboard)
    → IsOnScreen k.screen
    → k.kb_i < 256
    → Apart k.screen.buffer (2 * (k.screen.width * k.screen.height)) kb_buffer 256
    → scancode < 0x58
    → get_or kbdus scancode 0 ≢ 0
    → let k' = on_scancode kb_buffer scancode k in
      (load8 k'.screen.mem (kb_buffer + k.kb_i) ≡ character k.kb_shifted scancode % 256)
      × ((i : ℕ)
          → i < k.kb_i
          → load8 k'.screen.mem (kb_buffer + i) ≡ load8 k.screen.mem (kb_buffer + i))
      × (k'.kb_i ≡ k.kb_i + 1)
      × (k'.kb_buffer_pending ≡ ((scancode == 0x1C) || k.kb_buffer_pending))
      × (k'.kb_shifted ≡ k.kb_shifted)
      × IsOnScreen k'.screen
on_scancode-printable kb_buffer scancode k on room apart low printable =
    rw (on_scancode-take_key kb_buffer scancode k low printable)
      (take_key_lem kb_buffer scancode (character k.kb_shifted scancode) k on room apart)
