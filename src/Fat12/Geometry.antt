-- ===== src/Fat12/Geometry.antt =====
-- Sectors and the parameters of the drive.
use d.Base.{
  arith, bit_or, true, ℕ, ◌*◌, ◌+◌, ◌-◌, ◌<◌, ◌≡◌, ◌≤◌, bit_or_fields, false, ◌%◌, ◌/◌, ◌==◌, ◌^◌,
}
use d.Memory.{Mem}
use d.Ports.{Device, Log}
use d.Fat12.{Fdc, flpydsk_drive_data, flpydsk_lba_to_chs, sectors_per_track}

-- The head, the track and the sector of a block are in range for two heads and 18 sectors a track,
-- the track also for 80 tracks when the block is one of 2880; and they determine the block: it is
-- the one at that place when the tracks are counted head by head.
pub flpydsk_lba_to_chs_lem :
    (lba : ℕ)
    → let (head, track, sector) = flpydsk_lba_to_chs lba in
      (head < 2)
      × (1 ≤ sector)
      × (sector ≤ 18)
      × ((track * 2 + head) * 18 + (sector - 1) ≡ lba)
      × (lba < 2880 → track < 80)
unfolding flpydsk_lba_to_chs
flpydsk_lba_to_chs_lem lba = omega arith

place :
    (head track sector : ℕ)
    → head < 2
    → 1 ≤ sector
    → sector ≤ 18
    → let lba = (track * 2 + head) * 18 + (sector - 1) in
      (lba % (sectors_per_track * 2) / sectors_per_track ≡ head)
      × (lba / (sectors_per_track * 2) ≡ track)
      × (lba % sectors_per_track + 1 ≡ sector)
place head track sector h l u = omega arith

-- For a head below 2 and a sector from 1 to 18, the block that stands there on a track, counted
-- head by head, is taken back to the head, the track and the sector.
pub flpydsk_lba_to_chs-surjective :
    (head track sector : ℕ)
    → head < 2
    → 1 ≤ sector
    → sector ≤ 18
    → flpydsk_lba_to_chs ((track * 2 + head) * 18 + (sector - 1)) ≡ (head, track, sector)
unfolding flpydsk_lba_to_chs
flpydsk_lba_to_chs-surjective head track sector h l u =
    let e = place head track sector h l u in λ i. (e.0 i, e.1 i, e.2 i)

low_bit : (loadt : ℕ) → (bit_or (loadt * 2 % 2 ^ 32) 1 == 0) ≡ false
low_bit loadt =
    let q = loadt * 2 % 2 ^ 32 / 2 in
    let even : loadt * 2 % 2 ^ 32 ≡ q * 2 ^ 1 = omega arith in
    rw (even, bit_or_fields 1 q 1 (omega arith)) (ground arith)

-- With DMA, `flpydsk_drive_data` sends the same three bytes for every load time, and the third one is 1:
-- the head load time never reaches the controller.
pub flpydsk_drive_data-loadt :
    (dev : Device) (garbage : Log → ℕ) (flag_at : ℕ) (interrupts : Log → Mem → Log × Mem)
    → (stepr loadt loadt' unloadt : ℕ) (s : Fdc)
    → flpydsk_drive_data dev garbage flag_at interrupts stepr loadt unloadt true s
      ≡ flpydsk_drive_data dev garbage flag_at interrupts stepr loadt' unloadt true s
unfolding flpydsk_drive_data
flpydsk_drive_data-loadt dev garbage flag_at interrupts stepr loadt loadt' unloadt s =
    rw (low_bit loadt, low_bit loadt')
