-- ===== src/Fat12.antt =====
-- fat12.c: the floppy controller's driver, over the ports and memory, in which `_FloppyDiskIRQ` lies.
-- `drive` is `_CurrentDrive`, to which nothing assigns. The loops that wait run on fuel.
pub mod Polls
pub mod Drive
pub mod Geometry
pub mod Kept
pub mod Waits
pub mod Seek
pub mod Digits
pub mod Registers
pub use Registers.*
use d.Base.{
  Bool, Run, bit_and, bit_or, done, if◌then◌else◌, ltb, not, spins, suc, zero, ℕ, ◌%◌, ◌*◌, ◌+◌,
  ◌/◌, ◌==◌, ◌>>=◌, ◌^◌,
}
use d.Memory.{Mem, load8, store8}
use d.Ports.{Device, Log, inb, outb}
use d.Time.{sleep}

pub record Fdc : Type 0 where
  pub log : Log
  pub mem : Mem
  pub drive : ℕ

abbrev pub put : (port value : ℕ) → Fdc → Fdc
put port value s = record s { log = outb port value s.log }

abbrev pub sectors_per_track : ℕ
sectors_per_track = 18

unfoldable pub flpydsk_initialize_dma : Fdc → Fdc
flpydsk_initialize_dma s₀ =
    let s₁ = put 0x0a 0x06 s₀ in
    let s₂ = put 0xd8 0xff s₁ in
    let s₃ = put 0x04 0 s₂ in
    let s₄ = put 0x04 0x10 s₃ in
    let s₅ = put 0xd8 0xff s₄ in
    let s₆ = put 0x05 0xff s₅ in
    let s₇ = put 0x05 0x23 s₆ in let s₈ = put 0x80 0 s₇ in put 0x0a 0x02 s₈

unfoldable pub flpydsk_dma_read : Fdc → Fdc
flpydsk_dma_read s = put 0x0a 0x02 (put 0x0b 0x56 (put 0x0a 0x06 s))

unfoldable pub flpydsk_dma_write : Fdc → Fdc
flpydsk_dma_write s = put 0x0a 0x02 (put 0x0b 0x5a (put 0x0a 0x06 s))

unfoldable pub flpydsk_write_dor : (val : ℕ) → Fdc → Fdc
flpydsk_write_dor val s = put port_dor val s

unfoldable pub flpydsk_write_ccr : (val : ℕ) → Fdc → Fdc
flpydsk_write_ccr val s = put port_ctrl val s

unfoldable pub flpydsk_disable_controller : Fdc → Fdc
unfolding flpydsk_write_dor
flpydsk_disable_controller s = flpydsk_write_dor 0 s

unfoldable pub flpydsk_enable_controller : Fdc → Fdc
unfolding flpydsk_write_dor
flpydsk_enable_controller s = flpydsk_write_dor (bit_or dor_reset dor_dma) s

-- `lba` is not negative; the result is the head, the track and the sector.
unfoldable pub flpydsk_lba_to_chs : (lba : ℕ) → ℕ × ℕ × ℕ
flpydsk_lba_to_chs lba = (
  lba % (sectors_per_track * 2) / sectors_per_track,
  lba / (sectors_per_track * 2),
  lba % sectors_per_track + 1,
)

-- The devices, the value that a function which falls off its end leaves to its caller, the address of
-- `_FloppyDiskIRQ`, and what the interrupts do to the ports and to memory by the time that the flag is read
-- again.
module _ (dev : Device) (garbage : Log → ℕ) (flag_at : ℕ) (interrupts : Log → Mem → Log × Mem) where
  unfoldable pub flpydsk_read_status : Fdc → Fdc × ℕ
  flpydsk_read_status s = let (log', v) = inb dev port_msr s.log in (record s { log = log' }, v)

  abbrev pub is_ready : ℕ → Bool
  is_ready status = not (bit_and status msr_datareg == 0)

  -- The loop of `flpydsk_send_command`, with `left` rounds to go.
  unfoldable pub send_loop : (left cmd : ℕ) → Fdc → Fdc
  unfolding flpydsk_read_status
  send_loop zero cmd s = s
  send_loop (suc left) cmd s =
      let (s', status) = flpydsk_read_status s in
      let rest = send_loop left cmd s' in if is_ready status then put port_fifo cmd s' else rest

  unfoldable pub flpydsk_send_command : (cmd : ℕ) → Fdc → Fdc
  flpydsk_send_command cmd s = send_loop 500 cmd s

  unfoldable pub read_loop : (left : ℕ) → Fdc → Fdc × ℕ
  unfolding flpydsk_read_status
  read_loop zero s = (s, garbage s.log)
  read_loop (suc left) s =
      let (s', status) = flpydsk_read_status s in
      let rest = read_loop left s' in
      if is_ready status
      then (let (log', v) = inb dev port_fifo s'.log in (record s' { log = log' }, v))
      else rest

  unfoldable pub flpydsk_read_data : Fdc → Fdc × ℕ
  flpydsk_read_data s = read_loop 500 s

  -- `while (_FloppyDiskIRQ == 0); _FloppyDiskIRQ = 0;`
  unfoldable pub flpydsk_wait_irq : (fuel : ℕ) → Fdc → Run Fdc
  flpydsk_wait_irq zero s = spins
  flpydsk_wait_irq (suc fuel) s =
      let (log', m) = interrupts s.log s.mem in
      let rest = flpydsk_wait_irq fuel (record s { log = log'; mem = m }) in
      if load8 s.mem flag_at == 0 then rest else done (record s { mem = store8 s.mem flag_at 0 })

  -- The two results are `st0` and `cyl`.
  unfoldable pub flpydsk_check_int : Fdc → Fdc × ℕ × ℕ
  flpydsk_check_int s =
      let s₁ = flpydsk_send_command cmd_check_int s in
      let (s₂, st0) = flpydsk_read_data s₁ in let (s₃, cyl) = flpydsk_read_data s₂ in (s₃, st0, cyl)

  -- `1 << 4` and so on: the motor's bit of a drive.
  abbrev pub motor_of : ℕ → ℕ
  motor_of drive =
      if drive == 0
      then dor_drive0_motor
      else if drive == 1
      then dor_drive1_motor
      else if drive == 2
      then dor_drive2_motor
      else if drive == 3
      then dor_drive3_motor
      else 0

  unfoldable pub flpydsk_control_motor : (fuel : ℕ) (b : Bool) → Fdc → Run Fdc
  unfolding flpydsk_write_dor
  flpydsk_control_motor fuel b s =
      if ltb 3 s.drive
      then done s
      else (let s' =
            if b
            then flpydsk_write_dor
                (bit_or (bit_or (bit_or s.drive (motor_of s.drive)) dor_reset) dor_dma) s
            else flpydsk_write_dor dor_reset s in
          sleep fuel dev 20 s'.log >>= λ log'. done (record s' { log = log' }))

  -- `data` is `((loadt << 1) | (dma == true)) ? 1 : 0`, as the C precedences have it.
  unfoldable pub flpydsk_drive_data : (stepr loadt unloadt : ℕ) (dma : Bool) → Fdc → Fdc
  flpydsk_drive_data stepr loadt unloadt dma s =
      let s₁ = flpydsk_send_command cmd_specify s in
      let s₂ =
        flpydsk_send_command (bit_or (bit_and stepr 0xf * 2 ^ 4 % 2 ^ 32) (bit_and unloadt 0xf))
          s₁ in
      let word = bit_or (loadt * 2 % 2 ^ 32) (if dma then 1 else 0) in
      flpydsk_send_command (if word == 0 then 0 else 1) s₂
