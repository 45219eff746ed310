-- ===== src/Term/Silent.antt =====
-- What `term_putchar` does but for the ports: the log plays no part in it.
use d.Base.{[], Bool-cases, ap, inl, inr, leb, ltb, refl, ℕ, ◌&&◌, ◌+◌, ◌==◌, ◌||◌, ◌≡◌, ◌∙◌, sym}
use d.Term.{
  Screen, put_char, put_control, put_cursor, put_scroll, put_wrap, term_putchar, term_putentryat,
  term_scroll,
}

-- The screen without its log.
abbrev pub silent : Screen → Screen
silent s = record s { log = [] }

put_control-silent : (c : ℕ) (s : Screen) → silent (put_control c s) ≡ put_control c (silent s)
unfolding put_control term_putentryat
put_control-silent c s = elim (Bool-cases (c == 10)) [
  | inl newline ↦ rw newline refl
  | inr other ↦ elim (Bool-cases ((c == 8) && ltb 0 s.xpos)) [
    | inl back ↦ rw (other, back) refl
    | inr plain ↦ rw (other, plain) refl
  ]
]

put_wrap-silent : (s : Screen) → silent (put_wrap s) ≡ put_wrap (silent s)
unfolding put_wrap
put_wrap-silent s = elim (Bool-cases (leb s.width (s.xpos + 1))) [
  | inl wraps ↦ rw wraps refl
  | inr fits ↦ rw fits refl
]

put_scroll-silent : (s : Screen) → silent (put_scroll s) ≡ put_scroll (silent s)
unfolding put_scroll term_scroll
put_scroll-silent s = elim (Bool-cases (leb s.height s.ypos)) [
  | inl below ↦ rw below refl
  | inr above ↦ rw above refl
]

put_char-silent : (c : ℕ) (s : Screen) → silent (put_char c s) ≡ put_char c (silent s)
unfolding put_char term_putentryat
put_char-silent c s = elim (Bool-cases ((c == 10) || (c == 8))) [
  | inl control ↦ rw control refl
  | inr plain ↦ elim (Bool-cases (ltb s.xpos s.width)) [
    | inl inside ↦ rw (plain, inside) refl
    | inr outside ↦ rw (plain, outside) refl
  ]
]

-- `term_putchar` up to the cursor.
drawn : (c : ℕ) → Screen → Screen
drawn c s = put_char c (put_scroll (put_wrap (put_control c s)))

drawn-silent : (c : ℕ) (s : Screen) → silent (drawn c s) ≡ drawn c (silent s)
unfolding drawn
drawn-silent c s =
    let controlled = put_control c s in
    let wrapped = put_wrap controlled in
    put_char-silent c (put_scroll wrapped)
    ∙ ap (λ (t : Screen). put_char c t) (put_scroll-silent wrapped)
    ∙ ap (λ (t : Screen). put_char c (put_scroll t)) (put_wrap-silent controlled)
    ∙ ap (λ (t : Screen). put_char c (put_scroll (put_wrap t))) (put_control-silent c s)

pub term_putchar-silent :
    (c : ℕ) (s : Screen) → silent (term_putchar c s) ≡ silent (term_putchar c (silent s))
unfolding term_putchar put_cursor drawn
term_putchar-silent c s = drawn-silent c s ∙ sym (drawn-silent c (silent s))
