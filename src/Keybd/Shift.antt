-- ===== src/Keybd/Shift.antt =====
-- The shift keys, and a letter between them.
use d.Base.{
  ◌⊎◌, inl, inr, leb, all_below, all_below_sound, ◌≤◌, Bool, false, get_or, refl, true, ℕ, ◌==◌,
  ◌≡◌, arith, if◌then◌else◌, ◌<◌, ◌∙◌, ◌+◌, ◌%◌, ap, ltb, ◌&&◌,
}
use d.Keybd.{Keyboard, kbdus, kbdus_shifted, on_scancode}
use d.Keybd.Keys.{on_scancode-printable}
use d.Memory.{load8}
use d.Term.Bounds.{IsOnScreen}
use d.Term.Texts.{OffScreen}

-- The left and the right shift key, and their releases.
abbrev pub IsShift : (down up : ℕ) → Type 0
IsShift down up = ((down ≡ 0x2A) ⊎ (down ≡ 0x36)) × ((up ≡ 0xAA) ⊎ (up ≡ 0xB6))

press_shift :
    (kb_buffer down : ℕ) (k : Keyboard)
    → (down ≡ 0x2A) ⊎ (down ≡ 0x36)
    → on_scancode kb_buffer down k ≡ record k { kb_shifted = true }
unfolding on_scancode
press_shift kb_buffer down k (inl e) = rw e refl
press_shift kb_buffer down k (inr e) = rw e refl

release_shift :
    (kb_buffer up : ℕ) (k : Keyboard)
    → (up ≡ 0xAA) ⊎ (up ≡ 0xB6)
    → on_scancode kb_buffer up k ≡ record k { kb_shifted = false }
unfolding on_scancode
release_shift kb_buffer up k (inl e) = rw e refl
release_shift kb_buffer up k (inr e) = rw e refl

-- Is `d` the capital of `c`, if that is a small letter?
abbrev is_capital : (c d : ℕ) → Bool
is_capital c d = if leb 97 c && ltb c 123 then d + 32 == c else true

-- The table with shift has the capital of each letter of the other one.
capitals :
    (key : ℕ) → key < 0x58 → is_capital (get_or kbdus key 0) (get_or kbdus_shifted key 0) ≡ true
unfolding all_below
capitals key low =
    all_below_sound 0x58 (λ key. is_capital (get_or kbdus key 0) (get_or kbdus_shifted key 0)) key
      refl low

capital_of : (c d : ℕ) → 97 ≤ c → c < 123 → is_capital c d ≡ true → d % 256 + 32 ≡ c
capital_of c d lo hi h = ground arith

-- With the cursor on the screen, room in the buffer of 256 bytes and that buffer apart from the screen's: a
-- letter's key between the press and the release of shift, of the same shift key or the two of them, puts
-- the letter's capital behind the characters in the buffer, which stay; then the keyboard is not shifted,
-- and the cursor is on the screen.
pub on_scancode-capital :
    (kb_buffer down key up : ℕ) (k : Keyboard)
    → IsShift down up
    → IsOnScreen k.screen
    → k.kb_i < 256
    → OffScreen k.screen kb_buffer 256
    → key < 0x58
    → 97 ≤ get_or kbdus key 0
    → get_or kbdus key 0 < 123
    → let k' =
        on_scancode kb_buffer up (on_scancode kb_buffer key (on_scancode kb_buffer down k)) in
      (load8 k'.screen.mem (kb_buffer + k.kb_i) + 32 ≡ get_or kbdus key 0)
      × ((i : ℕ)
          → i < k.kb_i
          → load8 k'.screen.mem (kb_buffer + i) ≡ load8 k.screen.mem (kb_buffer + i))
      × (k'.kb_i ≡ k.kb_i + 1)
      × (k'.kb_shifted ≡ false)
      × IsOnScreen k'.screen
on_scancode-capital kb_buffer down key up k shift on room off low lo hi =
    let k₁ : Keyboard = record k { kb_shifted = true } in
    let (here, before, count, pending, shifted, stays) =
      on_scancode-printable kb_buffer key k₁ on room off low (λ z. absurd (omega (arith, z, lo))) in
    rw (press_shift kb_buffer down k shift.0) (
      rw (release_shift kb_buffer up (on_scancode kb_buffer key k₁) shift.1) (
        ap (λ (b : ℕ). b + 32) here
            ∙ capital_of (get_or kbdus key 0) (get_or kbdus_shifted key 0) lo hi (capitals key low),
        before,
        count,
        refl,
        stays,
      ))
