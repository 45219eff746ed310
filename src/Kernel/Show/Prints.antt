-- ===== src/Kernel/Show/Prints.antt =====
-- What code prints, with the changes of the number buffer in between.
use d.Base.{List, [], refl, ℕ, ◌*◌, ◌++◌, ◌+◌, ◌<◌, ◌∷◌, ◌≡◌, ◌≤◌, ◌⊎◌, ◌∙◌}
use d.Memory.{Mem, load8}
use d.Memory.Laws.{Apart}
use d.Term.{Screen, term_putchar, write_text}
use d.Term.Bounds.{IsOnScreen, term_putchar-IsOnScreen}

-- The characters `xs` are put on the screen one after the other, and nothing else changes but the bytes of
-- the number buffer.
pub data Prints (buf : ℕ) : Screen → List ℕ → Screen → Type 0 where
  ended : {s : Screen} → Prints buf s [] s
  puts :
      {s t : Screen} {c : ℕ} {xs : List ℕ}
      → Prints buf (term_putchar c s) xs t
      → Prints buf s (c ∷ xs) t
  buffers :
      {s t : Screen} {xs : List ℕ} (m' : Mem)
      → ((a : ℕ) → (a ≤ buf) ⊎ (buf + 64 < a) → load8 m' a ≡ load8 s.mem a)
      → Prints buf (record s { mem = m' }) xs t
      → Prints buf s xs t

module _ (buf : ℕ) where
  pub Prints-append :
      (s t u : Screen) (xs ys : List ℕ)
      → Prints buf s xs t
      → Prints buf t ys u
      → Prints buf s (xs ++ ys) u
  Prints-append s _ u [] ys ended q = q
  Prints-append s t u (c ∷ xs) ys (puts p) q = puts (Prints-append _ t u xs ys p q)
  Prints-append s t u xs ys (buffers m' same p) q = buffers m' same (Prints-append _ t u xs ys p q)

  pub write_text-Prints : (xs : List ℕ) (s : Screen) → Prints buf s xs (write_text xs s)
  unfolding write_text
  write_text-Prints [] s = ended
  write_text-Prints (c ∷ xs) s = puts (write_text-Prints xs (term_putchar c s))

  -- The cursor stays on the screen, and every byte off the screen and the buffer stays.
  pub record IsKept (s t : Screen) : Type 0 where
    pub on : IsOnScreen t
    pub wide : t.width ≡ s.width
    pub high : t.height ≡ s.height
    pub place : t.buffer ≡ s.buffer
    pub same :
        (a : ℕ)
        → Apart s.buffer (2 * (s.width * s.height)) a 1
        → (a ≤ buf) ⊎ (buf + 64 < a)
        → load8 t.mem a ≡ load8 s.mem a

  pub IsKept-trans : (s t u : Screen) → IsKept s t → IsKept t u → IsKept s u
  IsKept-trans s t u p q = record {
    on = q.on;
    wide = q.wide ∙ p.wide;
    high = q.high ∙ p.high;
    place = q.place ∙ p.place;
    same = λ a o b. q.same a (rw (p.place, p.wide, p.high) o) b ∙ p.same a o b;
  }

  pub Prints-IsKept : (s t : Screen) (xs : List ℕ) → IsOnScreen s → Prints buf s xs t → IsKept s t
  Prints-IsKept s _ _ on ended = record {
    on = on;
    wide = refl;
    high = refl;
    place = refl;
    same = λ a o b. refl;
  }
  Prints-IsKept s t (c ∷ xs) on (puts p) =
      let (on', only) = term_putchar-IsOnScreen c s on in
      let rest = Prints-IsKept (term_putchar c s) t xs on' p in
      record {
        on = rest.on;
        wide = rest.wide ∙ only.width_eq;
        high = rest.high ∙ only.height_eq;
        place = rest.place ∙ only.buffer_eq;
        same = λ a o b.
            rest.same a (rw (only.buffer_eq, only.width_eq, only.height_eq) o) b ∙ only.outside a o;
      }
  Prints-IsKept s t xs on (buffers m' same p) =
      let rest =
        Prints-IsKept (record s { mem = m' }) t xs
          (record {
            column = on.column;
            row = on.row;
            columns = on.columns;
            countable = on.countable;
          })
          p in
      record {
        on = rest.on;
        wide = rest.wide;
        high = rest.high;
        place = rest.place;
        same = λ a o b. rest.same a o b ∙ same a b;
      }
