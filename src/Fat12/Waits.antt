-- ===== src/Fat12/Waits.antt =====
-- The waits of fat12.c for the interrupt, when no handler writes to `_FloppyDiskIRQ`.
use d.Base.{
  Bool-cases, Run, arith, bind_done, done, false, inl, inr, leb, refl, spins, suc, true, zero, ℕ,
  ◌<◌, ◌==◌, ◌>>=◌, ◌∙◌, ◌≡◌, ◌≢◌,
}
use d.Memory.{Mem, load8, store8}
use d.Memory.Laws.{load8-store8_self}
use d.Ports.{Device, Log}
use d.Fat12.{
  Fdc, cmd_calibrate, flpydsk_control_motor, flpydsk_disable_controller, flpydsk_drive_data,
  flpydsk_enable_controller, flpydsk_send_command, flpydsk_wait_irq, flpydsk_write_ccr,
}
use d.Fat12.Drive.{calibrate_loop, check_all, flpydsk_calibrate, flpydsk_reset}
use d.Fat12.Kept.{
  Keeps, Keeps-trans, returned, motor-Keeps, check_all-Keeps, drive_data-Keeps, send-Keeps,
}

-- The interrupts that come during a wait leave the byte of the flag as it is.
abbrev pub LeaveFlag : (flag_at : ℕ) → (Log → Mem → Log × Mem) → Type 0
LeaveFlag flag_at interrupts =
    (log : Log) (m : Mem) → load8 (interrupts log m).1 flag_at ≡ load8 m flag_at

module _ (dev : Device) (garbage : Log → ℕ) (flag_at : ℕ) (interrupts : Log → Mem → Log × Mem) where
  abbrev wait : (fuel : ℕ) → Fdc → Run Fdc
  wait = flpydsk_wait_irq dev garbage flag_at interrupts

  pub wait_passes :
      (fuel : ℕ) (s : Fdc)
      → load8 s.mem flag_at ≢ 0
      → wait (suc fuel) s ≡ done (record s { mem = store8 s.mem flag_at 0 })
  unfolding flpydsk_wait_irq
  wait_passes fuel s set = let test : (load8 s.mem flag_at == 0) ≡ false = ground arith in rw test

  pub wait_spins :
      (fuel : ℕ) (s : Fdc)
      → LeaveFlag flag_at interrupts
      → load8 s.mem flag_at ≡ 0
      → wait fuel s ≡ spins
  unfolding flpydsk_wait_irq
  wait_spins zero s leave e = refl
  wait_spins (suc fuel) s leave e =
      let (log', m) = interrupts s.log s.mem in
      rw e (wait_spins fuel (record s { log = log'; mem = m }) leave (leave s.log s.mem ∙ e))

  pub cleared : (s : Fdc) → load8 (store8 s.mem flag_at 0) flag_at ≡ 0
  cleared s = load8-store8_self s.mem flag_at 0

  -- A wait that returns leaves the flag clear.
  wait_clears :
      (fuel : ℕ) (s t : Fdc)
      → wait fuel s ≡ done t
      → (load8 t.mem flag_at ≡ 0) × (t.drive ≡ s.drive)
  unfolding flpydsk_wait_irq
  wait_clears zero s t h = absurd (cc)
  wait_clears (suc fuel) s t h =
      let (log', m) = interrupts s.log s.mem in
      elim (Bool-cases (load8 s.mem flag_at == 0)) [
        | inl clear ↦ wait_clears fuel (record s { log = log'; mem = m }) t (rw clear at h)
        | inr set ↦
            let ended : done (record s { mem = store8 s.mem flag_at 0 }) ≡ done t = rw set at h in
            let kept = returned (record s { mem = store8 s.mem flag_at 0 }) t ended in
            (rw kept.mem_eq (cleared s), kept.drive_eq)
      ]

  calibrate_loop-spins :
      (fuel left drive : ℕ) (s : Fdc)
      → LeaveFlag flag_at interrupts
      → load8 s.mem flag_at ≡ 0
      → calibrate_loop dev garbage flag_at interrupts fuel (suc left) drive s ≡ spins
  unfolding calibrate_loop
  calibrate_loop-spins fuel left drive s leave e =
      let send = flpydsk_send_command dev garbage flag_at interrupts in
      let s₁ = send cmd_calibrate s in
      let same : (send drive s₁).mem ≡ s.mem =
        (send-Keeps dev garbage flag_at interrupts drive s₁).mem_eq
        ∙ (send-Keeps dev garbage flag_at interrupts cmd_calibrate s).mem_eq in
      rw (wait_spins fuel (send drive s₁) leave (rw same e))

  calibrate_never :
      (fuel : ℕ) (s : Fdc) (r : Fdc × ℕ)
      → LeaveFlag flag_at interrupts
      → s.drive < 4
      → load8 s.mem flag_at ≡ 0
      → flpydsk_calibrate dev garbage flag_at interrupts fuel s.drive s ≢ done r
  unfolding flpydsk_calibrate
  calibrate_never fuel s r leave there e h =
      let exists : leb 4 s.drive ≡ false = ground arith in
      let motor = flpydsk_control_motor dev garbage flag_at interrupts fuel true s in
      let loop = calibrate_loop dev garbage flag_at interrupts fuel 10 s.drive in
      let on : (motor >>= loop) ≡ done r = rw exists at h in
      let (t, turned, tries) = bind_done motor loop r on in
      let kept = (motor-Keeps dev garbage flag_at interrupts fuel true s t turned).mem_eq in
      let stuck : loop t ≡ spins = calibrate_loop-spins fuel 9 s.drive t leave (rw kept e) in
      absurd (cc)

  -- When the interrupts during a wait leave the flag's byte as it is, `flpydsk_reset` of an existing drive
  -- never returns, whatever the flag and the rest of memory hold: a flag that is set lets the first wait
  -- through, and then `flpydsk_calibrate` waits with a clear one.
  pub flpydsk_reset-never :
      (fuel : ℕ) (s : Fdc) (r : Fdc × ℕ)
      → LeaveFlag flag_at interrupts
      → s.drive < 4
      → flpydsk_reset dev garbage flag_at interrupts fuel s ≢ done r
  unfolding flpydsk_reset
  flpydsk_reset-never fuel s r leave there h =
      let s₀ = flpydsk_enable_controller (flpydsk_disable_controller s) in
      let same : s₀.drive ≡ s.drive =
        unfold flpydsk_enable_controller flpydsk_disable_controller in refl in
      let go = λ (s₁ : Fdc).
        let s₂ = flpydsk_write_ccr 0 (check_all dev garbage flag_at interrupts fuel 4 s₁) in
        let s₃ = flpydsk_drive_data dev garbage flag_at interrupts 3 16 240 true s₂ in
        flpydsk_calibrate dev garbage flag_at interrupts fuel s₃.drive s₃ in
      let (t, waited, calibrated) = bind_done (wait fuel s₀) go r h in
      let (clear, drive) = wait_clears fuel s₀ t waited in
      let t₁ = check_all dev garbage flag_at interrupts fuel 4 t in
      let t₂ = flpydsk_write_ccr 0 t₁ in
      let t₃ = flpydsk_drive_data dev garbage flag_at interrupts 3 16 240 true t₂ in
      let kept : Keeps t t₃ =
        Keeps-trans (check_all-Keeps dev garbage flag_at interrupts fuel 4 t) (
          Keeps-trans {t = t₂}
            (unfold flpydsk_write_ccr in record { mem_eq = refl; drive_eq = refl })
            (drive_data-Keeps dev garbage flag_at interrupts 3 16 240 true t₂)) in
      calibrate_never fuel t₃ r leave (omega (arith, kept.drive_eq, drive, same, there))
        (rw kept.mem_eq clear) calibrated
