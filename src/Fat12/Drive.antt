-- ===== src/Fat12/Drive.antt =====
-- The operations of fat12.c that wait for an interrupt: calibration, seeking, the reset and the
-- transfer of a sector.
use d.Base.{
  Bool, Run, bit_or, done, false, if◌then◌else◌, leb, suc, true, zero, ℕ, ◌%◌, ◌*◌, ◌+◌, ◌-◌, ◌==◌,
  ◌>>=◌, ◌^◌,
}
use d.Memory.{Mem}
use d.Ports.{Device, Log}
use d.Fat12.{
  cmd_calibrate, cmd_seek, cmd_read_sect, ext_multitrack, ext_skip, ext_density, sector_dtl_512,
  gap3_length_3_5, Fdc, flpydsk_check_int, flpydsk_control_motor, flpydsk_disable_controller,
  flpydsk_dma_read, flpydsk_drive_data, flpydsk_enable_controller, flpydsk_read_data,
  flpydsk_send_command, flpydsk_wait_irq, flpydsk_write_ccr, sectors_per_track,
}

-- -1 and -2 as the bit patterns of an `int`.
abbrev pub minus_one : ℕ
minus_one = 2 ^ 32 - 1

abbrev pub minus_two : ℕ
minus_two = 2 ^ 32 - 2

module _ (dev : Device) (garbage : Log → ℕ) (flag_at : ℕ) (interrupts : Log → Mem → Log × Mem)
    (fuel : ℕ) where
  abbrev send : ℕ → Fdc → Fdc
  send = flpydsk_send_command dev garbage flag_at interrupts

  abbrev motor : Bool → Fdc → Run Fdc
  motor = flpydsk_control_motor dev garbage flag_at interrupts fuel

  abbrev wait : Fdc → Run Fdc
  wait = flpydsk_wait_irq dev garbage flag_at interrupts fuel

  abbrev check_int : Fdc → Fdc × ℕ × ℕ
  check_int = flpydsk_check_int dev garbage flag_at interrupts

  abbrev drive_data : (stepr loadt unloadt : ℕ) (dma : Bool) → Fdc → Fdc
  drive_data = flpydsk_drive_data dev garbage flag_at interrupts

  -- The tries of `flpydsk_calibrate`, `left` of them to go.
  unfoldable pub calibrate_loop : (left drive : ℕ) → Fdc → Run (Fdc × ℕ)
  calibrate_loop zero drive s = motor false s >>= λ s'. done (s', minus_one)
  calibrate_loop (suc left) drive s = wait (send drive (send cmd_calibrate s)) >>= λ s₁.
      let (s₂, st0, cyl) = check_int s₁ in
      let rest = calibrate_loop left drive s₂ in
      if cyl == 0 then (motor false s₂ >>= λ s₃. done (s₃, 0)) else rest

  unfoldable pub flpydsk_calibrate : (drive : ℕ) → Fdc → Run (Fdc × ℕ)
  flpydsk_calibrate drive s =
      if leb 4 drive then done (s, minus_two) else motor true s >>= calibrate_loop 10 drive

  -- The tries of `flpydsk_seek`.
  unfoldable pub seek_loop : (left cyl head : ℕ) → Fdc → Run (Fdc × ℕ)
  seek_loop zero cyl head s = done (s, minus_one)
  seek_loop (suc left) cyl head s =
      wait (send cyl (send (bit_or (head * 2 ^ 2 % 2 ^ 32) s.drive) (send cmd_seek s))) >>= λ s₁.
      let (s₂, st0, cyl0) = check_int s₁ in
      let rest = seek_loop left cyl head s₂ in if cyl0 == cyl then done (s₂, 0) else rest

  unfoldable pub flpydsk_seek : (cyl head : ℕ) → Fdc → Run (Fdc × ℕ)
  flpydsk_seek cyl head s = if leb 4 s.drive then done (s, minus_one) else seek_loop 10 cyl head s

  -- `for (j = 0; j < 7; j++) flpydsk_read_data();`
  unfoldable pub read_results : (left : ℕ) → Fdc → Fdc
  read_results zero s = s
  read_results (suc left) s =
      read_results left (flpydsk_read_data dev garbage flag_at interrupts s).0

  unfoldable pub flpydsk_read_sector_imp : (head track sector : ℕ) → Fdc → Run Fdc
  flpydsk_read_sector_imp head track sector s =
      let s₁ = flpydsk_dma_read s in
      let s₂ =
        send (bit_or (bit_or (bit_or cmd_read_sect ext_multitrack) ext_skip) ext_density) s₁ in
      let s₃ = send (bit_or (head * 2 ^ 2) s.drive) s₂ in
      let s₄ = send sector (send head (send track s₃)) in
      let s₅ = send sector_dtl_512 s₄ in
      let s₆ =
        send (if leb sectors_per_track (sector + 1) then sectors_per_track else sector + 1) s₅ in
      let s₇ = send 0xff (send gap3_length_3_5 s₆) in
      wait s₇ >>= λ s₈. done (check_int (read_results 7 s₈)).0

  -- `for (i = 0; i < 4; i++) flpydsk_check_int(&st0, &cyl);`
  unfoldable pub check_all : (left : ℕ) → Fdc → Fdc
  check_all zero s = s
  check_all (suc left) s = check_all left (check_int s).0

  unfoldable pub flpydsk_reset : Fdc → Run (Fdc × ℕ)
  flpydsk_reset s = wait (flpydsk_enable_controller (flpydsk_disable_controller s)) >>= λ s₁.
      let s₂ = flpydsk_write_ccr 0 (check_all 4 s₁) in
      let s₃ = drive_data 3 16 240 true s₂ in flpydsk_calibrate s₃.drive s₃
