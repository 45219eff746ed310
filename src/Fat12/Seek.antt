-- ===== src/Fat12/Seek.antt =====
-- The tries of `flpydsk_seek`, when no handler writes to `_FloppyDiskIRQ`.
use d.Base.{
  arith, bit_or, done, false, if◌then◌else◌, leb, refl, spins, suc, zero, ℕ, ◌%◌, ◌*◌, ◌<◌, ◌==◌,
  ◌^◌, ◌≡◌, ◌≢◌,
}
use d.Memory.{Mem, load8, store8}
use d.Ports.{Device, Log}
use d.Fat12.{Fdc, cmd_seek, flpydsk_check_int, flpydsk_send_command}
use d.Fat12.Drive.{flpydsk_seek, seek_loop}
use d.Fat12.Kept.{Keeps, Keeps-trans, check_int-Keeps, send-Keeps}
use d.Fat12.Waits.{LeaveFlag, cleared, wait_passes, wait_spins}

module _ (dev : Device) (garbage : Log → ℕ) (flag_at : ℕ) (interrupts : Log → Mem → Log × Mem) where
  abbrev send : ℕ → Fdc → Fdc
  send = flpydsk_send_command dev garbage flag_at interrupts

  -- The command of a try.
  abbrev pub asked : (cyl head : ℕ) → Fdc → Fdc
  asked cyl head s = send cyl (send (bit_or (head * 2 ^ 2 % 2 ^ 32) s.drive) (send cmd_seek s))

  -- What the controller reports once the flag was taken, with the number of the cylinder.
  abbrev pub reported : (cyl head : ℕ) → Fdc → Fdc × ℕ
  reported cyl head s =
      let s₁ = asked cyl head s in
      let (s₂, st0, cyl0) =
        flpydsk_check_int dev garbage flag_at interrupts
          (record s₁ { mem = store8 s₁.mem flag_at 0 }) in
      (s₂, cyl0)

  asked-Keeps : (cyl head : ℕ) (s : Fdc) → Keeps s (asked cyl head s)
  asked-Keeps cyl head s =
      let s₁ = send cmd_seek s in
      let s₂ = send (bit_or (head * 2 ^ 2 % 2 ^ 32) s.drive) s₁ in
      Keeps-trans (send-Keeps dev garbage flag_at interrupts cmd_seek s) (
        Keeps-trans (send-Keeps dev garbage flag_at interrupts _ s₁)
          (send-Keeps dev garbage flag_at interrupts cyl s₂))

  reported-clear : (cyl head : ℕ) (s : Fdc) → load8 (reported cyl head s).0.mem flag_at ≡ 0
  reported-clear cyl head s =
      let s₁ = asked cyl head s in
      rw
        (check_int-Keeps dev garbage flag_at interrupts
          (record s₁ { mem = store8 s₁.mem flag_at 0 })).mem_eq
        (cleared dev garbage flag_at interrupts s₁)

  seek_loop-spins :
      (fuel left cyl head : ℕ) (s : Fdc)
      → LeaveFlag flag_at interrupts
      → load8 s.mem flag_at ≡ 0
      → seek_loop dev garbage flag_at interrupts fuel (suc left) cyl head s ≡ spins
  unfolding seek_loop
  seek_loop-spins fuel left cyl head s leave e =
      let clear : load8 (asked cyl head s).mem flag_at ≡ 0 = rw (asked-Keeps cyl head s).mem_eq e in
      rw (wait_spins dev garbage flag_at interrupts fuel (asked cyl head s) leave clear)

  seek_loop-once :
      (fuel left cyl head : ℕ) (s : Fdc)
      → LeaveFlag flag_at interrupts
      → load8 s.mem flag_at ≢ 0
      → seek_loop dev garbage flag_at interrupts (suc fuel) (suc (suc left)) cyl head s
        ≡ (if (reported cyl head s).1 == cyl then done ((reported cyl head s).0, 0) else spins)
  seek_loop-once fuel left cyl head s leave set =
      let set' : load8 (asked cyl head s).mem flag_at ≢ 0 =
        rw (asked-Keeps cyl head s).mem_eq set in
      let again =
        seek_loop-spins (suc fuel) left cyl head (reported cyl head s).0 leave
          (reported-clear cyl head s) in
      unfold seek_loop in
      rw (wait_passes dev garbage flag_at interrupts fuel (asked cyl head s) set') (rw again refl)

  -- Let the interrupts during a wait leave the flag's byte as it is, let the drive exist, and let there
  -- be fuel for one round of a wait. With the flag clear `flpydsk_seek` spins. With the flag set it
  -- sends one command without waiting, clears the flag, and returns 0 if the controller then reports the
  -- wanted cylinder; if it reports another one, the second try spins.
  pub flpydsk_seek-once :
      (fuel cyl head : ℕ) (s : Fdc)
      → LeaveFlag flag_at interrupts
      → s.drive < 4
      → 0 < fuel
      → let (t, cyl0) = reported cyl head s in
        (load8 s.mem flag_at ≡ 0
          → flpydsk_seek dev garbage flag_at interrupts fuel cyl head s ≡ spins)
        × (load8 s.mem flag_at ≢ 0
            → flpydsk_seek dev garbage flag_at interrupts fuel cyl head s
              ≡ (if cyl0 == cyl then done (t, 0) else spins))
  unfolding flpydsk_seek
  flpydsk_seek-once zero cyl head s leave there some_fuel = absurd (omega arith)
  flpydsk_seek-once (suc fuel) cyl head s leave there some_fuel =
      let exists : leb 4 s.drive ≡ false = ground arith in
      rw exists (
        (λ e. seek_loop-spins (suc fuel) 9 cyl head s leave e),
        λ e. seek_loop-once fuel 8 cyl head s leave e,
      )
