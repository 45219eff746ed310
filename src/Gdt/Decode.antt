-- ===== src/Gdt/Decode.antt =====
-- The descriptors as the processor reads them.
use d.Base.{
  all_below, all_below_sound, arith, bit_and, bit_and_mask, bit_or, eq_of_test, refl, true, ℕ, ◌%◌,
  ◌*◌, ◌+◌, ◌/◌, ◌<◌, ◌==◌, ◌^◌, ◌≡◌, ◌≢◌, false, ◌-◌,
}
use d.Gdt.{Gdt, GdtEntry, gdt_entry, gdt_set_gate, gdt_install}

-- The fields of a descriptor, put together as the processor does.
abbrev pub base_of : GdtEntry → ℕ
base_of e = e.base_low + e.base_middle * 2 ^ 16 + e.base_high * 2 ^ 24

abbrev pub limit_of : GdtEntry → ℕ
limit_of e = e.limit_low + e.granularity % 16 * 2 ^ 16

abbrev pub flags_of : GdtEntry → ℕ
flags_of e = e.granularity / 16

high_nibble_table : all_below 256 (λ g. bit_and g 0xF0 == g / 16 * 16) ≡ true
unfolding all_below
high_nibble_table = refl

high_nibble : (g : ℕ) → g < 256 → bit_and g 0xF0 ≡ g / 16 * 16
high_nibble g h = eq_of_test _ _ (all_below_sound 256 _ g high_nibble_table h)

join_table : all_below 16 (λ l. all_below 16 (λ h. bit_or l (h * 16) == l + h * 16)) ≡ true
unfolding all_below
join_table = refl

join : (l h : ℕ) → l < 16 → h < 16 → bit_or l (h * 16) ≡ l + h * 16
join l h p q = eq_of_test _ _ (
    all_below_sound 16 (λ h. bit_or l (h * 16) == l + h * 16) h
      (all_below_sound 16 (λ l. all_below 16 (λ h. bit_or l (h * 16) == l + h * 16)) l join_table p)
      q)

granularity_lem :
    (base limit access gran : ℕ)
    → gran < 256
    → (gdt_entry base limit access gran).granularity ≡ limit / 2 ^ 16 % 16 + gran / 16 * 16
unfolding gdt_entry
granularity_lem base limit access gran h =
    rw (high_nibble gran h, bit_and_mask 4 (limit / 2 ^ 16))
      (omega (arith, join (limit / 2 ^ 16 % 16 % 256) (gran / 16) (omega arith) (omega arith)))

mask_base :
    (base limit access gran : ℕ)
    → base < 2 ^ 32
    → access < 256
    → let e = gdt_entry base limit access gran in
      (base_of e ≡ base) × (e.limit_low ≡ limit % 2 ^ 16) × (e.access ≡ access)
unfolding gdt_entry
mask_base base limit access gran b a =
    rw
      (
        bit_and_mask 16 base,
        bit_and_mask 8 (base / 2 ^ 16),
        bit_and_mask 8 (base / 2 ^ 24),
        bit_and_mask 16 limit,
      )
      (omega arith)

-- For a base and a limit of 32 bits, and bytes `access` and `gran`, the descriptor that
-- `gdt_set_gate` writes at `num` holds the base, the low 20 bits of the limit, the access byte and
-- the high four bits of `gran`; the other descriptors stay as they were.
pub gdt_set_gate_lem :
    (gdt : Gdt) (num base limit access gran : ℕ)
    → base < 2 ^ 32
    → limit < 2 ^ 32
    → access < 256
    → gran < 256
    → let gdt' = gdt_set_gate gdt num base limit access gran in
      (base_of (gdt' num) ≡ base)
      × (limit_of (gdt' num) ≡ limit % 2 ^ 20)
      × ((gdt' num).access ≡ access)
      × (flags_of (gdt' num) ≡ gran / 16)
      × ((n : ℕ) → n ≢ num → gdt' n ≡ gdt n)
unfolding gdt_set_gate
gdt_set_gate_lem gdt num base limit access gran b l a g =
    let e = mask_base base limit access gran b a in
    let f = granularity_lem base limit access gran g in
    let here : (num == num) ≡ true = ground arith in
    rw here (
      e.0,
      omega (arith, e, f),
      e.2,
      omega (arith, f),
      λ n o. let there : (n == num) ≡ false = ground arith in rw there,
    )

-- After `gdt_install` the pointer covers the three descriptors. The null descriptor is empty; the
-- code and the data segment start at 0 and have the greatest limit, in units of 4 KB and with
-- 32-bit operations (flags 0xC), and differ in the access byte alone.
pub gdt_install_lem :
    (at : ℕ) (gdt : Gdt)
    → let (ptr, gdt') = gdt_install at gdt in
      (ptr.limit + 1 ≡ 3 * 8)
      × (ptr.base ≡ at)
      × ((base_of (gdt' 0) ≡ 0) × (limit_of (gdt' 0) ≡ 0) × ((gdt' 0).access ≡ 0))
      × ((base_of (gdt' 1) ≡ 0)
          × (limit_of (gdt' 1) ≡ 2 ^ 20 - 1)
          × ((gdt' 1).access ≡ 0x9A)
          × (flags_of (gdt' 1) ≡ 0xC))
      × ((base_of (gdt' 2) ≡ 0)
          × (limit_of (gdt' 2) ≡ 2 ^ 20 - 1)
          × ((gdt' 2).access ≡ 0x92)
          × (flags_of (gdt' 2) ≡ 0xC))
unfolding gdt_install gdt_set_gate gdt_entry
gdt_install_lem at gdt =
    (refl, refl, (refl, refl, refl), (refl, refl, refl, refl), (refl, refl, refl, refl))
