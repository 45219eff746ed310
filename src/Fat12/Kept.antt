-- ===== src/Fat12/Kept.antt =====
-- The operations of fat12.c that only reach the ports: memory and the drive stay.
use d.Base.{
  Bool, done, ap, ltb, bind_done, ◌>>=◌, Bool-cases, bit_and, bit_or, if◌then◌else◌, inl, inr, refl,
  suc, zero, ℕ, ◌%◌, ◌*◌, ◌^◌, ◌∙◌, ◌≡◌,
}
use d.Memory.{Mem}
use d.Ports.{Device, Log, inb}
use d.Fat12.{
  Fdc, cmd_check_int, flpydsk_control_motor, flpydsk_write_dor, motor_of, dor_dma, dor_reset,
  flpydsk_check_int, flpydsk_drive_data, flpydsk_read_data, flpydsk_send_command, is_ready,
  port_msr, read_loop, send_loop,
}
use d.Time.{sleep}
use d.Fat12.Drive.{check_all}

-- `t` has the memory and the drive of `s`.
pub record Keeps (s t : Fdc) : Type 0 where
  pub mem_eq : t.mem ≡ s.mem
  pub drive_eq : t.drive ≡ s.drive

pub Keeps-trans : {s t u : Fdc} → Keeps s t → Keeps t u → Keeps s u
Keeps-trans f g = record { mem_eq = g.mem_eq ∙ f.mem_eq; drive_eq = g.drive_eq ∙ f.drive_eq }

pub returned : (s t : Fdc) → done s ≡ done t → Keeps s t
returned s t h =
    let e : t ≡ s = cc in
    record { mem_eq = ap (λ (x : Fdc). x.mem) e; drive_eq = ap (λ (x : Fdc). x.drive) e }

module _ (dev : Device) (garbage : Log → ℕ) (flag_at : ℕ) (interrupts : Log → Mem → Log × Mem) where
  polled : (s : Fdc) → Keeps s (record s { log = (inb dev port_msr s.log).0 })
  polled s = record { mem_eq = refl; drive_eq = refl }

  send_loop-Keeps :
      (left cmd : ℕ) (s : Fdc) → Keeps s (send_loop dev garbage flag_at interrupts left cmd s)
  unfolding send_loop
  send_loop-Keeps zero cmd s = record { mem_eq = refl; drive_eq = refl }
  send_loop-Keeps (suc left) cmd s =
      let s' = record s { log = (inb dev port_msr s.log).0 } in
      elim (Bool-cases (is_ready dev garbage flag_at interrupts (inb dev port_msr s.log).1)) [
        | inl ready ↦ rw ready (record { mem_eq = refl; drive_eq = refl })
        | inr busy ↦ rw busy (Keeps-trans (polled s) (send_loop-Keeps left cmd s'))
      ]

  pub send-Keeps :
      (cmd : ℕ) (s : Fdc) → Keeps s (flpydsk_send_command dev garbage flag_at interrupts cmd s)
  unfolding flpydsk_send_command
  send-Keeps cmd s = send_loop-Keeps 500 cmd s

  read_loop-Keeps :
      (left : ℕ) (s : Fdc) → Keeps s (read_loop dev garbage flag_at interrupts left s).0
  unfolding read_loop
  read_loop-Keeps zero s = record { mem_eq = refl; drive_eq = refl }
  read_loop-Keeps (suc left) s =
      let s' = record s { log = (inb dev port_msr s.log).0 } in
      elim (Bool-cases (is_ready dev garbage flag_at interrupts (inb dev port_msr s.log).1)) [
        | inl ready ↦ rw ready (record { mem_eq = refl; drive_eq = refl })
        | inr busy ↦ rw busy (Keeps-trans (polled s) (read_loop-Keeps left s'))
      ]

  pub check_int-Keeps : (s : Fdc) → Keeps s (flpydsk_check_int dev garbage flag_at interrupts s).0
  unfolding flpydsk_check_int flpydsk_read_data
  check_int-Keeps s =
      let s₁ = flpydsk_send_command dev garbage flag_at interrupts cmd_check_int s in
      let s₂ = (read_loop dev garbage flag_at interrupts 500 s₁).0 in
      Keeps-trans (send-Keeps cmd_check_int s)
        (Keeps-trans (read_loop-Keeps 500 s₁) (read_loop-Keeps 500 s₂))

  pub check_all-Keeps :
      (fuel left : ℕ) (s : Fdc) → Keeps s (check_all dev garbage flag_at interrupts fuel left s)
  unfolding check_all
  check_all-Keeps fuel zero s = record { mem_eq = refl; drive_eq = refl }
  check_all-Keeps fuel (suc left) s =
      let s₁ = (flpydsk_check_int dev garbage flag_at interrupts s).0 in
      Keeps-trans (check_int-Keeps s) (check_all-Keeps fuel left s₁)

  pub drive_data-Keeps :
      (stepr loadt unloadt : ℕ) (dma : Bool) (s : Fdc)
      → Keeps s (flpydsk_drive_data dev garbage flag_at interrupts stepr loadt unloadt dma s)
  unfolding flpydsk_drive_data
  drive_data-Keeps stepr loadt unloadt dma s =
      let send = flpydsk_send_command dev garbage flag_at interrupts in
      let s₁ = send 3 s in
      let step = bit_or (bit_and stepr 0xf * 2 ^ 4 % 2 ^ 32) (bit_and unloadt 0xf) in
      let s₂ = send step s₁ in
      Keeps-trans (send-Keeps 3 s) (Keeps-trans (send-Keeps step s₁) (send-Keeps _ s₂))

  pub motor-Keeps :
      (fuel : ℕ) (b : Bool) (s t : Fdc)
      → flpydsk_control_motor dev garbage flag_at interrupts fuel b s ≡ done t
      → Keeps s t
  unfolding flpydsk_control_motor flpydsk_write_dor
  motor-Keeps fuel b s t h = elim (Bool-cases (ltb 3 s.drive)) [
    | inl beyond ↦ let same : done s ≡ done t = rw beyond at h in returned s t same
    | inr within ↦
        let turned =
          if b
          then flpydsk_write_dor
              (bit_or
                (bit_or (bit_or s.drive (motor_of dev garbage flag_at interrupts s.drive))
                  dor_reset)
                dor_dma)
              s
          else flpydsk_write_dor dor_reset s in
        let slept : (sleep fuel dev 20 turned.log >>= λ log'. done (record turned { log = log' }))
            ≡ done t =
          rw within at h in
        let (log', woke, ended) =
          bind_done (sleep fuel dev 20 turned.log) (λ log'. done (record turned { log = log' })) t
            slept in
        let wrote : Keeps s turned = elim (Bool-cases b) [
          | inl on ↦ rw on (record { mem_eq = refl; drive_eq = refl })
          | inr off ↦ rw off (record { mem_eq = refl; drive_eq = refl })
        ] in
        Keeps-trans (Keeps-trans wrote (record { mem_eq = refl; drive_eq = refl }))
          (returned (record turned { log = log' }) t ended)
  ]
