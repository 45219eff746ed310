-- ===== src/Keybd/Silent.antt =====
-- What a scancode does but for the ports.
use d.Base.{
  Bool-cases, ap, get_or, if◌then◌else◌, inl, inr, ltb, not, refl, true, ℕ, ◌%◌, ◌&&◌, ◌+◌, ◌==◌,
  ◌^◌, ◌||◌, ◌≡◌,
}
use d.Keybd.{Keyboard, kbdus, kbdus_shifted, on_scancode, take_key}
use d.Memory.{store8}
use d.Term.{Screen}
use d.Term.Silent.{silent, term_putchar-silent}

-- The keyboard without the log of its screen.
abbrev pub muted : Keyboard → Keyboard
muted k = record k { screen = silent k.screen }

take_key-muted :
    (kb_buffer scancode c : ℕ) (k : Keyboard)
    → muted (take_key kb_buffer scancode c k) ≡ muted (take_key kb_buffer scancode c (muted k))
unfolding take_key
take_key-muted kb_buffer scancode c k =
    ap
      (λ (t : Screen). record k {
        screen = record t { mem = store8 t.mem (kb_buffer + k.kb_i) c };
        kb_i = (k.kb_i + 1) % 2 ^ 32;
        kb_buffer_pending = if scancode == 0x1C then true else k.kb_buffer_pending;
      })
      (term_putchar-silent c k.screen)

pub on_scancode-muted :
    (kb_buffer scancode : ℕ) (k : Keyboard)
    → muted (on_scancode kb_buffer scancode k) ≡ muted (on_scancode kb_buffer scancode (muted k))
unfolding on_scancode
on_scancode-muted kb_buffer scancode k =
    let c = if k.kb_shifted then get_or kbdus_shifted scancode 0 else get_or kbdus scancode 0 in
    elim (Bool-cases (not (get_or kbdus scancode 0 == 0) && ltb scancode 0x58)) [
      | inl shown ↦ rw shown (take_key-muted kb_buffer scancode c k)
      | inr hidden ↦ elim (Bool-cases ((scancode == 0x2A) || (scancode == 0x36))) [
        | inl shift ↦ rw (hidden, shift) refl
        | inr other ↦ elim (Bool-cases ((scancode == 0xAA) || (scancode == 0xB6))) [
          | inl release ↦ rw (hidden, other, release) refl
          | inr rest ↦ elim (Bool-cases (scancode == 0x3A)) [
            | inl lock ↦ rw (hidden, other, rest, lock) refl
            | inr nothing ↦ rw (hidden, other, rest, nothing) refl
          ]
        ]
      ]
    ]
