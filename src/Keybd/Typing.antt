-- ===== src/Keybd/Typing.antt =====
-- A line, from its first key to the Enter key.
use mathlib.Core.Path.{subst}
use d.Base.{
  Bool, if◌then◌else◌, All, List, [], all_below, all_below_sound, ap, arith, eq_of_test, false,
  get_or, length, refl, ℕ, ◌%◌, ◌+◌, ◌<◌, ◌==◌, ◌||◌, ◌∙◌, ◌∷◌, ◌≡◌, ◌≢◌, some, true, ◌++◌,
}
use d.Str.Texts.{Bytes}
use d.Keybd.{get_kbd, take_line, kbdus, Keyboard, on_scancode, take_key}
use d.Keybd.Keys.{on_scancode-printable, on_scancode-take_key, character}
use d.Memory.{Mem, load8}
use d.Memory.Laws.{Apart, load8-store8_ne}
use d.Str.Texts.{IsText}
use d.Term.{Screen, term_putchar}
use d.Term.Bounds.{IsOnScreen, term_putchar-IsOnScreen}
use d.Term.Texts.{OffScreen}

-- A key with a character that is not the Enter key.
abbrev pub IsPlain : ℕ → Type 0
IsPlain key = (key < 0x58) × (get_or kbdus key 0 ≢ 0) × (key ≢ 0x1C)

abbrev pub characters : List ℕ → List ℕ
characters [] = []
characters (key ∷ keys) = get_or kbdus key 0 ∷ characters keys

-- The scancodes, one after the other.
abbrev pub typed : (kb_buffer : ℕ) → List ℕ → Keyboard → Keyboard
typed kb_buffer [] k = k
typed kb_buffer (c ∷ cs) k = typed kb_buffer cs (on_scancode kb_buffer c k)

pub length-characters : (keys : List ℕ) → length (characters keys) ≡ length keys
length-characters [] = refl
length-characters (key ∷ keys) = omega (arith, length-characters keys)

-- Bytes other than zero that were copied, and a zero byte behind them, are a text.
pub Bytes-IsText :
    (m m' : Mem) (p d : ℕ) (keys : List ℕ)
    → All IsPlain keys
    → Bytes m p (characters keys)
    → ((i : ℕ) → i < length keys → load8 m' (d + i) ≡ load8 m (p + i))
    → load8 m' (d + length keys) ≡ 0
    → IsText m' d (characters keys)
Bytes-IsText m m' p d [] plain bytes copied end = ap (λ (a : ℕ). load8 m' a) (omega arith) ∙ end
Bytes-IsText m m' p d (key ∷ keys) plain bytes copied end = (
  ap (λ (a : ℕ). load8 m' a) (omega arith)
      ∙ copied 0 (omega arith)
      ∙ ap (λ (a : ℕ). load8 m a) (omega arith)
      ∙ bytes.0,
  plain.0.1,
  Bytes-IsText m m' (p + 1) (d + 1) keys plain.1 bytes.1
      (λ i h.
        ap (λ (a : ℕ). load8 m' a) (omega arith)
        ∙ copied (i + 1) (omega arith)
        ∙ ap (λ (a : ℕ). load8 m a) (omega arith))
      (ap (λ (a : ℕ). load8 m' a) (omega arith) ∙ end),
)

-- `t` has the geometry of `s`, and differs in memory at most in the screen's cells and in the keyboard's
-- buffer.
pub record OnlyKeys (kb_buffer : ℕ) (s t : Screen) : Type 0 where
  pub width_eq : t.width ≡ s.width
  pub height_eq : t.height ≡ s.height
  pub buffer_eq : t.buffer ≡ s.buffer
  pub outside : (a : ℕ) → OffScreen s a 1 → Apart kb_buffer 256 a 1 → load8 t.mem a ≡ load8 s.mem a

pub OnlyKeys-keeps :
    {kb_buffer : ℕ} {s t : Screen} (at n : ℕ)
    → OnlyKeys kb_buffer s t
    → OffScreen s at n
    → OffScreen t at n
OnlyKeys-keeps at n f o = rw (f.buffer_eq, f.width_eq, f.height_eq) o

OnlyKeys-trans :
    {kb_buffer : ℕ} {s t u : Screen}
    → OnlyKeys kb_buffer s t
    → OnlyKeys kb_buffer t u
    → OnlyKeys kb_buffer s u
OnlyKeys-trans f g = record {
  width_eq = g.width_eq ∙ f.width_eq;
  height_eq = g.height_eq ∙ f.height_eq;
  buffer_eq = g.buffer_eq ∙ f.buffer_eq;
  outside = λ a o k. g.outside a (OnlyKeys-keeps a 1 f o) k ∙ f.outside a o k;
}

take_key-OnlyKeys :
    (kb_buffer scancode c : ℕ) (k : Keyboard)
    → IsOnScreen k.screen
    → k.kb_i < 256
    → OnlyKeys kb_buffer k.screen (take_key kb_buffer scancode c k).screen
unfolding take_key
take_key-OnlyKeys kb_buffer scancode c k on room =
    let only = (term_putchar-IsOnScreen c k.screen on).1 in
    record {
      width_eq = only.width_eq;
      height_eq = only.height_eq;
      buffer_eq = only.buffer_eq;
      outside = λ a o b.
          load8-store8_ne (term_putchar c k.screen).mem (kb_buffer + k.kb_i) c a (omega arith)
          ∙ only.outside a o;
    }

-- A state of the keyboard in which a key of the line can come.
pub record IsTyping (kb_buffer : ℕ) (k : Keyboard) : Type 0 where
  pub on : IsOnScreen k.screen
  pub off : OffScreen k.screen kb_buffer 256
  pub unshifted : k.kb_shifted ≡ false

byte_of : (key : ℕ) → key < 0x58 → get_or kbdus key 0 % 256 ≡ get_or kbdus key 0
unfolding all_below
byte_of key h =
    eq_of_test (get_or kbdus key 0 % 256) (get_or kbdus key 0)
      (all_below_sound 0x58 (λ key. get_or kbdus key 0 % 256 == get_or kbdus key 0) key refl h)

-- A key of the line.
press :
    (kb_buffer key : ℕ) (k : Keyboard)
    → IsTyping kb_buffer k
    → k.kb_i < 256
    → key < 0x58
    → get_or kbdus key 0 ≢ 0
    → let k' = on_scancode kb_buffer key k in
      IsTyping kb_buffer k'
      × OnlyKeys kb_buffer k.screen k'.screen
      × (load8 k'.screen.mem (kb_buffer + k.kb_i) ≡ get_or kbdus key 0)
      × ((i : ℕ)
          → i < k.kb_i
          → load8 k'.screen.mem (kb_buffer + i) ≡ load8 k.screen.mem (kb_buffer + i))
      × (k'.kb_i ≡ k.kb_i + 1)
      × (k'.kb_buffer_pending ≡ ((key == 0x1C) || k.kb_buffer_pending))
press kb_buffer key k is room low printable =
    let (here, before, count, pending, shifted, on) =
      on_scancode-printable kb_buffer key k is.on room is.off low printable in
    let only : OnlyKeys kb_buffer k.screen (on_scancode kb_buffer key k).screen =
      rw (on_scancode-take_key kb_buffer key k low printable)
        (take_key-OnlyKeys kb_buffer key (character k.kb_shifted key) k is.on room) in
    let unshifted = is.unshifted in
    (
      record {
        on = on;
        off = OnlyKeys-keeps kb_buffer 256 only is.off;
        unshifted = shifted ∙ is.unshifted;
      },
      only,
      here ∙ rw unshifted (byte_of key low),
      before,
      count,
      pending,
    )

-- The keyboard `k'` after the characters `cs` and the Enter key came to `k`.
pub record Line (kb_buffer : ℕ) (k : Keyboard) (cs : List ℕ) (k' : Keyboard) : Type 0 where
  pub typing : IsTyping kb_buffer k'
  pub only : OnlyKeys kb_buffer k.screen k'.screen
  pub count : k'.kb_i ≡ k.kb_i + length cs + 1
  pub typed : Bytes k'.screen.mem (kb_buffer + k.kb_i) cs
  pub before :
      (i : ℕ)
      → i < k.kb_i
      → load8 k'.screen.mem (kb_buffer + i) ≡ load8 k.screen.mem (kb_buffer + i)

get_kbd-pending :
    (kb_buffer dest : ℕ) (rest : List ℕ) (k : Keyboard)
    → k.kb_buffer_pending ≡ true
    → get_kbd kb_buffer dest rest k ≡ some (take_line kb_buffer dest k, rest)
unfolding get_kbd
get_kbd-pending kb_buffer dest [] k h = rw (h, get_kbd) refl
get_kbd-pending kb_buffer dest (x ∷ rest) k h = rw (h, get_kbd) refl

get_kbd-waits :
    (kb_buffer dest x : ℕ) (rest : List ℕ) (k : Keyboard)
    → k.kb_buffer_pending ≡ false
    → get_kbd kb_buffer dest (x ∷ rest) k ≡ get_kbd kb_buffer dest rest (on_scancode kb_buffer x k)
unfolding get_kbd
get_kbd-waits kb_buffer dest x rest k h =
    ap
      (λ (b : Bool).
        if b
        then some (take_line kb_buffer dest k, x ∷ rest)
        else get_kbd kb_buffer dest rest (on_scancode kb_buffer x k))
      h

-- With room in the buffer for a line of plain keys, `get_kbd` takes that line when the Enter key comes,
-- and leaves the scancodes behind it; that line is in the keyboard's state behind those keys.
pub get_kbd-Line :
    (kb_buffer dest : ℕ) (keys rest : List ℕ) (k : Keyboard)
    → All IsPlain keys
    → IsTyping kb_buffer k
    → k.kb_buffer_pending ≡ false
    → k.kb_i + length keys < 255
    → (k' : Keyboard) × (get_kbd kb_buffer dest (keys ++ (0x1C ∷ rest)) k
        ≡ some (take_line kb_buffer dest k', rest))
      × Line kb_buffer k (characters keys) k'
      × (k' ≡ typed kb_buffer (keys ++ (0x1C ∷ [])) k)
get_kbd-Line kb_buffer dest [] rest k plain is idle room =
    let (typing, only, here, before, count, pending) =
      press kb_buffer 0x1C k is (omega arith) (omega arith) (omega arith) in
    let k' = on_scancode kb_buffer 0x1C k in
    (
      k',
      get_kbd-waits kb_buffer dest 0x1C rest k idle
          ∙ get_kbd-pending kb_buffer dest rest k' (ground (arith, pending)),
      record {
        typing = typing;
        only = only;
        count = omega (arith, count);
        typed = tt;
        before = before;
      },
      refl,
    )
get_kbd-Line kb_buffer dest (key ∷ keys) rest k plain is idle room =
    let (low, printable, other) = plain.0 in
    let (typing, only, here, before, count, pending) =
      press kb_buffer key k is (omega arith) low printable in
    let k₁ = on_scancode kb_buffer key k in
    let waits : k₁.kb_buffer_pending ≡ false = ground (arith, pending, other, idle) in
    let (k', run, line, pressed) =
      get_kbd-Line kb_buffer dest keys rest k₁ plain.1 typing waits (omega (arith, count)) in
    let at : kb_buffer + k₁.kb_i ≡ kb_buffer + k.kb_i + 1 = omega (arith, count) in
    (
      k',
      get_kbd-waits kb_buffer dest key (keys ++ (0x1C ∷ rest)) k idle ∙ run,
      record {
        typing = line.typing;
        only = OnlyKeys-trans only line.only;
        count = omega (arith, line.count, count);
        typed = (
          line.before k.kb_i (omega (arith, count)) ∙ here,
          subst (λ (p : ℕ). Bytes k'.screen.mem p (characters keys)) at line.typed,
        );
        before = λ i h. line.before i (omega (arith, count)) ∙ before i h;
      },
      pressed,
    )
