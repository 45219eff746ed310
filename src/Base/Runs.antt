-- ===== src/Base/Runs.antt =====
-- The outcome of code that loops or reads out of range: it returns, it still spins when the fuel is
-- used up, or it faults.
use mathlib.Core.Bool.{Bool, true, false}
use mathlib.Core.Path.{refl, ◌≡◌}

pub data Run (A : Type 0) : Type 0 where
  done : A → Run A
  spins : Run A
  faults : Run A

infixl 5 ◌>>=◌
abbrev pub ◌>>=◌ : {A B : Type 0} → Run A → (A → Run B) → Run B
done a >>= k = k a
spins >>= k = spins
faults >>= k = faults

abbrev pub is_done : {A : Type 0} → Run A → Bool
is_done (done a) = true
is_done spins = false
is_done faults = false

-- Code in a row returns only when the first of it does.
pub bind_done :
    {A B : Type 0} (o : Run A) (k : A → Run B) (r : B)
    → (o >>= k) ≡ done r
    → (a : A) × (o ≡ done a) × (k a ≡ done r)
bind_done (done a) k r h = (a, refl, h)
bind_done spins k r h = absurd (cc)
bind_done faults k r h = absurd (cc)
