-- ===== src/Time/Sleeps.antt =====
-- `sleep` on a clock that moves on.
use d.Base.{
  All, ap, List, [], arith, done, false, length, refl, some, suc, true, zero, ℕ, ◌%◌, ◌++◌, ◌+◌,
  ◌-◌, ◌<◌, ◌^◌, ◌∷◌, ◌≡◌, ◌≤◌,
}
use d.Ports.{Device, Log}
use d.Time.{get_time, less_int, now, sleep, sleep_loop}

-- The clock gives these times one after the other, and `end` is the log behind them.
abbrev pub Readings : Device → Log → List ℕ → Log → Type 0
Readings dev log [] end = log ≡ end
Readings dev log (t ∷ ts) end =
    ((get_time dev log).1 ≡ some t) × Readings dev (get_time dev log).0 ts end

now-some :
    (dev : Device) (log : Log) (t : ℕ)
    → (get_time dev log).1 ≡ some t
    → now dev log ≡ done ((get_time dev log).0, t)
unfolding now
now-some dev log t e = rw (e, now) refl

module _ (dev : Device) (t first : ℕ) (seconds : first + t < 2 ^ 31) where
  -- Still less than `t` seconds behind the first time.
  abbrev pub IsEarly : ℕ → Type 0
  IsEarly x = (first ≤ x) × (x < first + t)

  early-less : (x : ℕ) → IsEarly x → less_int ((x + 2 ^ 32 - first) % 2 ^ 32) t ≡ true
  early-less x h = ground arith

  late-less :
      (x : ℕ) → first + t ≤ x → x < 2 ^ 31 → less_int ((x + 2 ^ 32 - first) % 2 ^ 32) t ≡ false
  late-less x h k = ground arith

  loop-returns :
      (fuel : ℕ) (early : List ℕ) (late : ℕ) (log end : Log)
      → All IsEarly early
      → first + t ≤ late
      → late < 2 ^ 31
      → length early < fuel
      → Readings dev log (early ++ (late ∷ [])) end
      → sleep_loop fuel dev t first log ≡ done end
  unfolding sleep_loop
  loop-returns zero early late log end es l m enough rs = absurd (omega arith)
  loop-returns (suc fuel) [] late log end es l m enough (read, same) =
      rw (now-some dev log late read, late-less late l m) (ap done same)
  loop-returns (suc fuel) (x ∷ early) late log end (e, es) l m enough (read, rest) =
      rw (now-some dev log x read, early-less x e)
        (loop-returns fuel early late (get_time dev log).0 end es l m (omega arith) rest)

  -- Let the clock show a first time, then times less than `t` seconds behind it, as many as there are, and then
  -- one `t` seconds or more behind it, all as nonnegative `int`s. With fuel for each of them `sleep` returns, and
  -- it has read the clock just that often.
  pub sleep-returns :
      (fuel : ℕ) (early : List ℕ) (late : ℕ) (log end : Log)
      → All IsEarly early
      → first + t ≤ late
      → late < 2 ^ 31
      → length early < fuel
      → Readings dev log (first ∷ (early ++ (late ∷ []))) end
      → sleep fuel dev t log ≡ done end
  unfolding sleep
  sleep-returns fuel early late log end es l m enough (read, rest) =
      rw (now-some dev log first read)
        (loop-returns fuel early late (get_time dev log).0 end es l m enough rest)
