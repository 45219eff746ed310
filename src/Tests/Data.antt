-- ===== src/Tests/Data.antt =====
-- Memories for the tests.
use d.Base.{List, [], get_or, ℕ, ◌∷◌}
use d.Memory.{Mem}

-- Bytes from address 0 on, and zeros behind them.
abbrev pub image : List ℕ → Mem
image xs a = get_or xs a 0

abbrev pub empty : Mem
empty a = 0

-- Two texts, "abc" at 1 and "ab" at 5, and the literal "0" at 8.
abbrev pub texts : Mem
texts = image (0 ∷ b'a' ∷ b'b' ∷ b'c' ∷ 0 ∷ b'a' ∷ b'b' ∷ 0 ∷ b'0' ∷ 0 ∷ b'4' ∷ b'2' ∷ 0 ∷ [])

abbrev pub abc : List ℕ
abc = b'a' ∷ b'b' ∷ b'c' ∷ []

abbrev pub ab : List ℕ
ab = b'a' ∷ b'b' ∷ []
