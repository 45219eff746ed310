-- ===== src/Fat12/Digits.antt =====
-- `_FloppyDiskIRQ` behind the buffer of `itoa`, where the linker puts it: the first digit that `itoa` writes
-- is taken for an interrupt.
use mathlib.Core.Path.{subst}
use d.Base.{
  List, arith, done, length, map, suc, zero, ℕ, ◌+◌, ◌<◌, ◌^◌, ◌∷◌, ◌≡◌, ◌≢◌, ◌≤◌, [], ◌++◌, sym,
  ap, ◌*◌, ◌/◌, refl, length-append, ◌∙◌,
}
use d.Memory.{Mem, load8, store8}
use d.Memory.Laws.{Apart, load8-store8_ne, load8-store8_self}
use d.Ports.{Device, Log}
use d.Str.{itoa}
use d.Str.Itoa.{HasDigits, itoa-value, value-append}
use d.Str.Numerals.{IsBelow, digit_char, length-digits, value}
use d.Str.Texts.{IsText}
use d.Fat12.{Fdc, flpydsk_wait_irq}
use d.Fat12.Waits.{wait_passes}

IsText-at : (m : Mem) (p i : ℕ) (xs : List ℕ) → IsText m p xs → i < length xs → load8 m (p + i) ≢ 0
IsText-at m p i [] t h = absurd (omega arith)
IsText-at m p zero (x ∷ xs) t h = ground (arith, t)
IsText-at m p (suc i) (x ∷ xs) t h =
    let place : p + suc i ≡ p + 1 + i = omega arith in
    rw place (IsText-at m (p + 1) i xs t.2 (omega arith))

-- The last of some digits.
split_last : (ds : List ℕ) → 0 < length ds → (xs : List ℕ) × (x : ℕ) × (ds ≡ xs ++ (x ∷ []))
split_last [] h = absurd (omega arith)
split_last (d ∷ []) h = ([], d, refl)
split_last (d ∷ e ∷ ds) h =
    let (xs, x, same) = split_last (e ∷ ds) (omega arith) in (d ∷ xs, x, rw same refl)

-- A zero in the place of the last digit ends the text in front of it.
cut :
    (m : Mem) (p d : ℕ) (ds : List ℕ)
    → IsText m p (map digit_char (ds ++ (d ∷ [])))
    → IsText (store8 m (p + length ds) 0) p (map digit_char ds)
cut m p d [] t = let here : p + 0 ≡ p = omega arith in rw here (load8-store8_self m p 0)
cut m p d (x ∷ ds) t =
    let next : p + length (x ∷ ds) ≡ p + 1 + length ds = omega arith in
    (
      load8-store8_ne m (p + length (x ∷ ds)) 0 p (omega arith) ∙ t.0,
      t.1,
      subst (λ (a : ℕ). IsText (store8 m a 0) (p + 1) (map digit_char ds)) (sym next)
          (cut m (p + 1) d ds t.2),
    )

IsBelow-front : (base d : ℕ) (ds : List ℕ) → IsBelow base (ds ++ (d ∷ [])) → IsBelow base ds
IsBelow-front base d [] h = tt
IsBelow-front base d (x ∷ ds) h = (h.0, IsBelow-front base d ds h.1)

IsBelow-last : (base d : ℕ) (ds : List ℕ) → IsBelow base (ds ++ (d ∷ [])) → d < base
IsBelow-last base d [] h = h.0
IsBelow-last base d (x ∷ ds) h = IsBelow-last base d ds h.1

shortened : (v base d : ℕ) → d < base → v ≡ (v * base + d) / base
shortened v base d h = grind arith

nonempty : (base : ℕ) (ds : List ℕ) → 0 < value base ds → 0 < length ds
nonempty base [] h = absurd (omega arith)
nonempty base (d ∷ ds) h = omega arith

module _ (dev : Device) (garbage : Log → ℕ) (interrupts : Log → Mem → Log × Mem)
    (buf zero_text digits_text : ℕ) (apart : Apart buf 65 digits_text 16) where
  waits :
      (fuel : ℕ) (s : Fdc)
      → 0 < fuel
      → load8 s.mem (buf + 64) ≢ 0
      → flpydsk_wait_irq dev garbage (buf + 64) interrupts fuel s
        ≡ done (record s { mem = store8 s.mem (buf + 64) 0 })
  waits zero s some_fuel set = absurd (omega arith)
  waits (suc fuel) s some_fuel set = wait_passes dev garbage (buf + 64) interrupts fuel s set

  -- Let `_FloppyDiskIRQ` stand 64 bytes behind the start of the buffer of `itoa`, with a zero byte behind
  -- it, and let the digit characters be in memory apart from these 65 bytes. After `itoa` of a positive
  -- `int` in a base from 2 to 16, `flpydsk_wait_irq` with fuel for one round returns at once, whatever
  -- the interrupts do, and clears the flag: the text of `itoa` has then lost its last digit, and is
  -- that of the number divided by the base.
  pub wait_irq-itoa :
      (fuel val base : ℕ) (s : Fdc)
      → 0 < fuel
      → 0 < val
      → val < 2 ^ 31
      → 2 ≤ base
      → base ≤ 16
      → HasDigits buf zero_text digits_text apart s.mem
      → load8 s.mem (buf + 65) ≡ 0
      → let (m, p) = itoa buf zero_text digits_text s.mem val base in
        let m' = store8 m (buf + 64) 0 in
        (flpydsk_wait_irq dev garbage (buf + 64) interrupts fuel (record s { mem = m })
          ≡ done (record s { mem = m' }))
        × (ds : List ℕ) × IsText m' p (map digit_char ds)
        × IsBelow base ds
        × (value base ds ≡ val / base)
  wait_irq-itoa fuel val base s some_fuel pos small two up dig end =
      let (m, p) = itoa buf zero_text digits_text s.mem val base in
      let (ds, text, below, worth, lo, len, frame) =
        itoa-value buf zero_text digits_text apart val base s.mem pos small two up dig end in
      let (xs, x, same) = split_last ds (nonempty base ds (omega (arith, worth))) in
      let parts : IsText m p (map digit_char (xs ++ (x ∷ []))) =
        subst (λ (ys : List ℕ). IsText m p (map digit_char ys)) same text in
      let digits : IsBelow base (xs ++ (x ∷ [])) =
        subst (λ (ys : List ℕ). IsBelow base ys) same below in
      let count : length ds ≡ length xs + 1 =
        ap (λ (ys : List ℕ). length ys) same ∙ length-append xs (x ∷ []) in
      let place : p + length xs ≡ buf + 64 = omega (arith, len, count) in
      let set : load8 m (buf + 64) ≢ 0 =
        subst (λ (a : ℕ). load8 m a ≢ 0) place
          (IsText-at m p (length xs) (map digit_char ds) text
            (omega (arith, count, length-digits ds))) in
      let whole : value base xs * base + x ≡ val =
        sym (value-append base x xs) ∙ ap (λ (ys : List ℕ). value base ys) (sym same) ∙ worth in
      (
        waits fuel (record s { mem = m }) some_fuel set,
        xs,
        subst (λ (a : ℕ). IsText (store8 m a 0) p (map digit_char xs)) place (cut m p x xs parts),
        IsBelow-front base x xs digits,
        shortened (value base xs) base x (IsBelow-last base x xs digits)
            ∙ ap (λ (v : ℕ). v / base) whole,
      )
