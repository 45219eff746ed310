-- ===== src/Keybd.antt =====
-- keybd.c: the keyboard's interrupt handler and the line that it collects. `screen` is `tty0`, with the
-- kernel's memory and the log of the ports; `kb_buffer` stands in that memory at an address.
pub mod Line
pub mod Keys
pub mod Shift
pub mod Typing
pub mod Silent
use d.Base.{
  Bool, List, Option, [], false, get_or, if◌then◌else◌, ltb, none, not, some, true, ℕ, ◌%◌, ◌&&◌,
  ◌+◌, ◌-◌, ◌==◌, ◌^◌, ◌||◌, ◌∷◌,
}
use d.Memory.{store8}
use d.Ports.{Device, inb}
use d.Mm.Copy.{mem_cpy, mem_set}
use d.Term.{Screen, term_putchar}

-- The characters of the scancodes; the rest of the 128 entries of each table is 0.
abbrev pub kbdus : List ℕ
kbdus =
    0 ∷ 27 ∷ 49 ∷ 50 ∷ 51 ∷ 52 ∷ 53 ∷ 54 ∷ 55 ∷ 56 ∷ 57 ∷ 48 ∷ 45 ∷ 61 ∷ 8 ∷ 9 ∷ 113 ∷ 119 ∷ 101
    ∷ 114 ∷ 116 ∷ 121 ∷ 117 ∷ 105 ∷ 111 ∷ 112 ∷ 91 ∷ 93 ∷ 10 ∷ 0 ∷ 97 ∷ 115 ∷ 100 ∷ 102 ∷ 103 ∷ 104
    ∷ 106 ∷ 107 ∷ 108 ∷ 59 ∷ 39 ∷ 96 ∷ 0 ∷ 92 ∷ 122 ∷ 120 ∷ 99 ∷ 118 ∷ 98 ∷ 110 ∷ 109 ∷ 44 ∷ 46 ∷ 47
    ∷ 0 ∷ 42 ∷ 0 ∷ 32 ∷ 0 ∷ 0 ∷ 0 ∷ 0 ∷ 0 ∷ 0 ∷ 0 ∷ 0 ∷ 0 ∷ 0 ∷ 0 ∷ 0 ∷ 0 ∷ 0 ∷ 0 ∷ 0 ∷ 45 ∷ 0 ∷ 0
    ∷ 0 ∷ 43 ∷ 0 ∷ 0 ∷ 0 ∷ 0 ∷ 0 ∷ 0 ∷ 0 ∷ 0 ∷ 0 ∷ 0 ∷ 0 ∷ []

abbrev pub kbdus_shifted : List ℕ
kbdus_shifted =
    0 ∷ 27 ∷ 33 ∷ 64 ∷ 35 ∷ 36 ∷ 37 ∷ 94 ∷ 38 ∷ 42 ∷ 40 ∷ 41 ∷ 95 ∷ 43 ∷ 8 ∷ 9 ∷ 81 ∷ 87 ∷ 69 ∷ 82
    ∷ 84 ∷ 89 ∷ 85 ∷ 73 ∷ 79 ∷ 80 ∷ 123 ∷ 125 ∷ 10 ∷ 0 ∷ 65 ∷ 83 ∷ 68 ∷ 70 ∷ 71 ∷ 72 ∷ 74 ∷ 75 ∷ 76
    ∷ 58 ∷ 34 ∷ 126 ∷ 0 ∷ 124 ∷ 90 ∷ 88 ∷ 67 ∷ 86 ∷ 66 ∷ 78 ∷ 77 ∷ 60 ∷ 62 ∷ 63 ∷ 0 ∷ 42 ∷ 0 ∷ 32
    ∷ 0 ∷ 0 ∷ 0 ∷ 0 ∷ 0 ∷ 0 ∷ 0 ∷ 0 ∷ 0 ∷ 0 ∷ 0 ∷ 0 ∷ 0 ∷ 0 ∷ 0 ∷ 0 ∷ 45 ∷ 0 ∷ 0 ∷ 0 ∷ 43 ∷ 0 ∷ 0
    ∷ 0 ∷ 0 ∷ 0 ∷ 0 ∷ 0 ∷ 0 ∷ 0 ∷ 0 ∷ 0 ∷ []

pub record Keyboard : Type 0 where
  pub screen : Screen
  pub kb_i : ℕ
  pub kb_shifted : Bool
  pub kb_buffer_pending : Bool

-- The printable case: the echo on the terminal, the end of a line, and the byte added to the buffer.
-- Nothing compares `kb_i` with the size of the buffer.
unfoldable pub take_key : (kb_buffer scancode c : ℕ) → Keyboard → Keyboard
take_key kb_buffer scancode c k =
    let echoed = term_putchar c k.screen in
    record k {
      screen = record echoed { mem = store8 echoed.mem (kb_buffer + k.kb_i) c };
      kb_i = (k.kb_i + 1) % 2 ^ 32;
      kb_buffer_pending = if scancode == 0x1C then true else k.kb_buffer_pending;
    }

-- A scancode of 128 or more is read behind the table, but then fails the test `scancode < 0x58`.
unfoldable pub on_scancode : (kb_buffer scancode : ℕ) → Keyboard → Keyboard
on_scancode kb_buffer scancode k =
    let c = if k.kb_shifted then get_or kbdus_shifted scancode 0 else get_or kbdus scancode 0 in
    if not (get_or kbdus scancode 0 == 0) && ltb scancode 0x58
    then take_key kb_buffer scancode c k
    else if (scancode == 0x2A) || (scancode == 0x36)
    then record k { kb_shifted = true }
    else if (scancode == 0xAA) || (scancode == 0xB6)
    then record k { kb_shifted = false }
    else if scancode == 0x3A
    then record k { kb_shifted = not k.kb_shifted }
    else k

unfoldable pub keyboard_handler : Device → (kb_buffer : ℕ) → Keyboard → Keyboard
keyboard_handler dev kb_buffer k =
    let (log', scancode) = inb dev 0x60 k.screen.log in
    on_scancode kb_buffer scancode (record k { screen = record k.screen { log = log' } })

unfoldable pub clear_kb_buffer : (kb_buffer : ℕ) → Keyboard → Keyboard
clear_kb_buffer kb_buffer k = record k {
  screen = record k.screen { mem = mem_set k.screen.mem kb_buffer 0 255 };
  kb_i = 0;
  kb_buffer_pending = false;
}

-- The buffer's address, cut to a `char`.
unfoldable pub get_kbd_buffer : (kb_buffer : ℕ) → ℕ
get_kbd_buffer kb_buffer = kb_buffer % 256

-- `get_kbd` behind its wait for `kb_buffer_pending`. `kb_i - 1` becomes a `size_t`.
unfoldable pub take_line : (kb_buffer dest : ℕ) → Keyboard → Keyboard
take_line kb_buffer dest k =
    let m = mem_cpy k.screen.mem dest kb_buffer ((k.kb_i + 2 ^ 32 - 1) % 2 ^ 32) in
    clear_kb_buffer kb_buffer
      (record k { screen = record k.screen { mem = store8 m (dest + k.kb_i) 0 } })

-- The wait, over the scancodes that arrive: the line is taken as soon as one is pending. `none` means
-- that none was when the scancodes were used up.
unfoldable pub get_kbd : (kb_buffer dest : ℕ) → List ℕ → Keyboard → Option (Keyboard × List ℕ)
get_kbd kb_buffer dest [] k =
    if k.kb_buffer_pending then some (take_line kb_buffer dest k, []) else none
get_kbd kb_buffer dest (scancode ∷ rest) k =
    let waited = get_kbd kb_buffer dest rest (on_scancode kb_buffer scancode k) in
    if k.kb_buffer_pending then some (take_line kb_buffer dest k, scancode ∷ rest) else waited
