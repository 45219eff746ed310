-- ===== src/Kernel/Floppy.antt =====
-- `flpydsk_read_sector` and `init_fat12` of fat12.c: the floppy driver with its messages on `tty0`.
use d.Base.{Run, codes, done, false, if◌then◌else◌, leb, true, ℕ, ◌%◌, ◌==◌, ◌>>=◌}
use d.Fat12.{
  Fdc, flpydsk_control_motor, flpydsk_drive_data, flpydsk_initialize_dma, flpydsk_lba_to_chs,
}
use d.Fat12.Drive.{flpydsk_read_sector_imp, flpydsk_reset, flpydsk_seek}
use d.Kernel.{Globals, kernel_panic}
use d.Kernel.Main.{say}
use d.Kernel.Show.{mem_dump}
use d.Memory.{Mem}
use d.Ports.{Device, Log}
use d.Term.{Screen}

-- `tty0`, with memory and the log of the ports, and the driver's variable outside memory.
pub record Disk : Type 0 where
  pub screen : Screen
  pub drive : ℕ

-- The driver's view of the state, and the state with the driver's part of it changed.
abbrev pub fdc_of : Disk → Fdc
fdc_of d = record { log = d.screen.log; mem = d.screen.mem; drive = d.drive }

abbrev pub with_fdc : Disk → Fdc → Disk
with_fdc d s = record { screen = record d.screen { log = s.log; mem = s.mem }; drive = s.drive }

abbrev pub on_disk : (Fdc → Run Fdc) → Disk → Run Disk
on_disk f d = f (fdc_of d) >>= λ s. done (with_fdc d s)

-- The result of `flpydsk_seek` goes with the state.
abbrev pub seek_disk : (Fdc → Run (Fdc × ℕ)) → Disk → Run (Disk × ℕ)
seek_disk f d = f (fdc_of d) >>= λ r. done (with_fdc d r.0, r.1)

abbrev pub dma_buffer : ℕ
dma_buffer = 0x1000

-- `transfer` is memory once the controller has moved a sector there; the other parameters are those of
-- the driver.
module _ (g : Globals) (dev : Device) (garbage : Log → ℕ) (flag_at : ℕ)
    (interrupts : Log → Mem → Log × Mem) (transfer : Log → Mem → Mem) where
  abbrev pub transferred : Disk → Disk
  transferred d = record d { screen = record d.screen { mem = transfer d.screen.log d.screen.mem } }

  -- Behind a seek that found the track.
  unfoldable pub read_found : (head track sector : ℕ) → Disk → Run (Disk × ℕ)
  read_found head track sector d₀ = do
    let d₁ = record d₀ { screen = say "Reading Sector...\n" d₀.screen }
    d₂ ←
        on_disk
          (flpydsk_read_sector_imp dev garbage flag_at interrupts g.fuel (head % 256) (track % 256)
            (sector % 256))
          d₁
    d₃ ←
        on_disk (flpydsk_control_motor dev garbage flag_at interrupts g.fuel false) (transferred d₂)
    done (d₃, dma_buffer)

  -- Behind one that failed; 0 is the null pointer.
  unfoldable pub seek_failed : Disk → Run (Disk × ℕ)
  unfolding kernel_panic
  seek_failed d = kernel_panic g.fuel (codes "Seek failure\n") d.screen >>= λ s.
      done (record d { screen = s }, 0)

  unfoldable pub flpydsk_read_sector : (sector_lba : ℕ) → Disk → Run (Disk × ℕ)
  unfolding read_found seek_failed
  flpydsk_read_sector sector_lba d =
      let d₁ = record d { screen = say "\nCalculating location...\n" d.screen } in
      let (head, track, sector) = flpydsk_lba_to_chs sector_lba in
      let run : Run (Disk × ℕ) = (do
        d₂ ← on_disk (flpydsk_control_motor dev garbage flag_at interrupts g.fuel true) d₁
        let d₃ = record d₂ { screen = say "Spinning up...\n" d₂.screen }
        r ← seek_disk (flpydsk_seek dev garbage flag_at interrupts g.fuel track head) d₃
        if r.1 == 0 then read_found head track sector r.0 else seek_failed r.0) in
      if leb 4 d.drive then done (d, 0) else run

  unfoldable pub init_fat12 : Disk → Run Disk
  unfolding flpydsk_read_sector mem_dump
  init_fat12 d = do
    let d₁ = with_fdc d (flpydsk_initialize_dma (fdc_of d))
    r ← seek_disk (flpydsk_reset dev garbage flag_at interrupts g.fuel) d₁
    let d₂ =
        with_fdc r.0 (flpydsk_drive_data dev garbage flag_at interrupts 13 1 0xf true (fdc_of r.0))
    sector ← flpydsk_read_sector 10 d₂
    s ← mem_dump g sector.1 32 sector.0.screen
    done (record sector.0 { screen = s })
