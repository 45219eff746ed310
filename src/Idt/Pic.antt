-- ===== src/Idt/Pic.antt =====
-- What `irq_remap` tells the two interrupt controllers, read by a description of the 8259: a write
-- of a command word with bit 4 starts the initialisation, the three data words after it are the
-- first vector, the wiring and the mode, and any later data word is the mask.
use d.Base.{[], if◌then◌else◌, refl, ℕ, ◌%◌, ◌+◌, ◌/◌, ◌==◌, ◌∷◌, ◌≡◌}
use d.Ports.{Log, PortOp, was_read, wrote}
use d.Idt.{irq_remap}

pub record Pic : Type 0 where
  pub stage : ℕ
  pub vector : ℕ
  pub wiring : ℕ
  pub mode : ℕ
  pub mask : ℕ

abbrev data_word : ℕ → Pic → Pic
data_word v p =
    if p.stage == 1
    then record p { stage = 2; vector = v }
    else if p.stage == 2
    then record p { stage = 3; wiring = v }
    else if p.stage == 3
    then record p { stage = 0; mode = v }
    else record p { mask = v }

abbrev pic_step : (command : ℕ) → PortOp → Pic → Pic
pic_step command (wrote port v) p =
    if port == command
    then (if v / 16 % 2 == 1 then record p { stage = 1 } else p)
    else if port == command + 1
    then data_word v p
    else p
pic_step command (was_read port v) p = p

-- The controller at the port `command` after a history, from a state at the beginning.
abbrev pub pic_after : (command : ℕ) → Pic → Log → Pic
pic_after command p [] = p
pic_after command p (op ∷ log) = pic_step command op (pic_after command p log)

-- Whatever the controllers were told before, after `irq_remap` the first one raises its lines from
-- vector 0x20 on and the second one from 0x28 on, the second is wired to line 2 of the first, both
-- are in 8086 mode, have no line masked and are through with the initialisation.
pub irq_remap_lem :
    (p q : Pic) (log : Log)
    → (pic_after 0x20 p (irq_remap log)
        ≡ record { stage = 0; vector = 0x20; wiring = 4; mode = 1; mask = 0 })
      × (pic_after 0xA0 q (irq_remap log)
          ≡ record { stage = 0; vector = 0x28; wiring = 2; mode = 1; mask = 0 })
unfolding irq_remap
irq_remap_lem p q log = (refl, refl)
