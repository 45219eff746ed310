-- ===== src/Tests/Small.antt =====
-- A small memory for the functions that print: the static data lie from 200 on.
use d.Base.{
  all_below, all_below_sound, codes, eq_of_test, if◌then◌else◌, leb, refl, ℕ, ◌++◌, ◌+◌, ◌-◌, ◌<◌,
  ◌==◌, ◌∷◌, ◌≡◌,
}
use d.Kernel.{Globals}
use d.Memory.{Mem, load8}
use d.Str.Numerals.{digit_char}
use d.Tests.Data.{image}

abbrev pub globals : Globals
globals = record {
  fuel = 65;
  mm_free = 600;
  mm_used = 620;
  mb_free = 200;
  used = 400;
  task_que = 0;
  itoa_buf = 5000;
  zero_text = 2022;
  digits_text = 2000;
}

-- From 2000 on the digits, the texts "test" and "0", and then zeros.
abbrev pub start : Mem
start a =
    if leb 2000 a
    then image (codes "0123456789abcdef" ++ (0 ∷ codes "test" ++ (0 ∷ codes "0"))) (a - 2000)
    else 0

pub hex : (k : ℕ) → k < 16 → load8 start (2000 + k) ≡ digit_char k
unfolding load8 all_below
hex k h =
    eq_of_test (load8 start (2000 + k)) (digit_char k)
      (all_below_sound 16 (λ k. load8 start (2000 + k) == digit_char k) k refl h)
