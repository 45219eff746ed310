-- ===== src/Tests/Devices.antt =====
-- The descriptor tables and the drivers at concrete inputs.
use d.Base.{[], arith, get_or, refl, some, ℕ, ◌%◌, ◌*◌, ◌+◌, ◌-◌, ◌/◌, ◌<◌, ◌^◌, ◌∷◌, ◌≡◌, ◌≢◌, ◌≤◌}
use d.Ports.{Device, wrote, was_read}
use d.Gdt.{Gdt, gdt_set_gate, gdt_install}
use d.Gdt.Decode.{base_of, limit_of, flags_of, gdt_set_gate_lem, gdt_install_lem}
use d.Idt.{init_idt, irq_remap}
use d.Idt.Decode.{IsGate, init_idt-IsGate}
use d.Idt.Pic.{Pic, pic_after, irq_remap_lem}
use d.Time.{get_time}
use d.Time.Cmos.{HoldsRegisters}
use d.Time.Clock.{Date, IsDate, Shows, get_time-Date}

abbrev pub entries : Gdt
entries = λ n. record {
  limit_low = 0;
  base_low = 0;
  base_middle = 0;
  access = 0;
  granularity = 0;
  base_high = 0;
}

gdt_set_gate_lem_example :
    let gdt' = gdt_set_gate entries 1 0x12345678 0xABCDE 0x9A 0xCF in
    (base_of (gdt' 1) ≡ 0x12345678)
    × (limit_of (gdt' 1) ≡ 0xABCDE % 2 ^ 20)
    × ((gdt' 1).access ≡ 0x9A)
    × (flags_of (gdt' 1) ≡ 0xCF / 16)
    × ((n : ℕ) → n ≢ 1 → gdt' n ≡ entries n)
gdt_set_gate_lem_example =
    gdt_set_gate_lem entries 1 0x12345678 0xABCDE 0x9A 0xCF (omega arith) (omega arith)
      (omega arith) (omega arith)

gdt_install_lem_example :
    let (ptr, gdt') = gdt_install 0x8000 entries in
    (ptr.limit + 1 ≡ 3 * 8)
    × (ptr.base ≡ 0x8000)
    × ((base_of (gdt' 0) ≡ 0) × (limit_of (gdt' 0) ≡ 0) × ((gdt' 0).access ≡ 0))
    × ((base_of (gdt' 1) ≡ 0)
        × (limit_of (gdt' 1) ≡ 2 ^ 20 - 1)
        × ((gdt' 1).access ≡ 0x9A)
        × (flags_of (gdt' 1) ≡ 0xC))
    × ((base_of (gdt' 2) ≡ 0)
        × (limit_of (gdt' 2) ≡ 2 ^ 20 - 1)
        × ((gdt' 2).access ≡ 0x92)
        × (flags_of (gdt' 2) ≡ 0xC))
gdt_install_lem_example = gdt_install_lem 0x8000 entries

-- Stubs of 16 bytes each.
abbrev stub : ℕ → ℕ
stub n = 0x100000 + 16 * n

init_idt-IsGate_example :
    let (ptr, idt, log') = init_idt 0x9000 stub stub [] in
    (33 < 32 → IsGate (idt 33) (stub 33))
    × (32 ≤ 33 → 33 < 48 → IsGate (idt 33) (stub 33))
    × (48 ≤ 33 → (idt 33).flags ≡ 0)
    × (ptr.base ≡ 0x9000)
    × (ptr.limit + 1 ≡ 8 * 256)
init_idt-IsGate_example =
    init_idt-IsGate 0x9000 stub stub [] 33 (omega arith) (omega arith) (omega arith)

-- A controller that nothing was told yet.
abbrev untold : Pic
untold = record { stage = 0; vector = 8; wiring = 0; mode = 0; mask = 255 }

irq_remap_lem_example :
    (pic_after 0x20 untold (irq_remap [])
      ≡ record { stage = 0; vector = 0x20; wiring = 4; mode = 1; mask = 0 })
    × (pic_after 0xA0 untold (irq_remap [])
        ≡ record { stage = 0; vector = 0x28; wiring = 2; mode = 1; mask = 0 })
irq_remap_lem_example = irq_remap_lem untold untold []

-- 12 March 2014, 10:20:30.
abbrev pub date : Date
date = record { year = 2014; month = 3; day = 12; hours = 10; minutes = 20; seconds = 30 }

abbrev pub registers : ℕ → ℕ
registers index = get_or (0x30 ∷ 0 ∷ 0x20 ∷ 0 ∷ 0x10 ∷ 0 ∷ 0 ∷ 0x12 ∷ 0x03 ∷ 0x14 ∷ []) index 0x20

-- The clock, as a device: it answers the register that the newest operation selected.
pub clock : Device
clock [] port = 0
clock (was_read p v ∷ log) port = 0
clock (wrote p v ∷ log) port = registers v

pub date-IsDate : IsDate date
date-IsDate = record {
  year_from = omega arith;
  year_to = omega arith;
  month_from = omega arith;
  month_to = omega arith;
  day_to = omega arith;
  hours_to = omega arith;
  minutes_to = omega arith;
  seconds_to = omega arith;
}

pub clock-Shows : Shows registers date
clock-Shows = record {
  seconds_at = refl;
  minutes_at = refl;
  hours_at = refl;
  day_at = refl;
  month_at = refl;
  year_at = refl;
  century_at = refl;
}

pub clock-HoldsRegisters : HoldsRegisters clock registers
unfolding clock
clock-HoldsRegisters log index h = refl

get_time-Date_example :
    (get_time clock []).1 ≡ some (30 + 20 * 60 + 10 * 3600 + (12 + 30) * 86400 + 14 * 31557600)
get_time-Date_example =
    get_time-Date clock registers date [] clock-HoldsRegisters date-IsDate clock-Shows
