-- ===== src/Tests/Kernels.antt =====
-- The kernel from its first line, where its linker places it, on a machine of 128 MB.
use d.Base.{
  [], all_below, all_below_sound, arith, codes, done, ◌⊎◌, ◌≤◌, eq_of_test, if◌then◌else◌, leb, map,
  none, refl, ℕ, ◌+◌, ◌-◌, ◌<◌, ◌==◌, ◌∷◌, ◌≡◌,
}
use d.Idt.{Routines}
use d.Kernel.Boot.Memory.{IsLoaded, IsStill}
use d.Kernel.Boot.Whole.{IsPlaced, cmain-IsIdle}
use d.Kernel.Main.{Places, System, cmain, port_op}
use d.Kernel.Shell.{IsIdle, IsLaid}
use d.Kernel.Shell.Rounds.{typed_lines}
use d.Memory.{Mem, load32, load8, store32, store8}
use d.Mm.Init.Lists.{test_page}
use d.Mm.Init.Whole.{IsHanded}
use d.Str.Numerals.{digit_char}
use d.Tests.Boot.{globals, separate, two_entries}
use d.Tests.Data.{image}
use d.Tests.Devices.{
  clock, clock-HoldsRegisters, clock-Shows, date, date-IsDate, entries, registers,
}
use d.Tests.Shells.{test_keys, test_keys-IsPlain}

abbrev pub places : Places
places = record {
  gdt_at = 0x107144;
  idt_at = 0x107180;
  isr = λ n. 0x100000 + n;
  irq = λ n. 0x100100 + n;
  mbd = 0x10000;
  mmap_var = 0x10ce00;
  kb_buffer = 0x108de0;
  buffer = 0x10cc00;
  test_text = 0x10408c;
}

-- The map and the boot loader's record are low; the kernel has its texts where its linker places them, and
-- the rest is zeros.
abbrev pub start : Mem
start a =
    if leb 0x1040d6 a
    then image (codes "0123456789abcdef") (a - 0x1040d6)
    else if leb 0x10408c a
    then image (codes "test") (a - 0x10408c)
    else two_entries a

abbrev pub no_routines : Routines port_op
no_routines = λ n. none

handed :
    IsHanded globals 0x10000 0x10ce00 0x10040 0x10070 separate
      (omega arith)
      start
      (0x10040 ∷ 0x10058 ∷ [])
unfolding load32 load8 store32 store8
handed = record {
  map = (refl, omega arith, omega arith, (refl, omega arith, omega arith, refl));
  from = omega arith;
  ends = refl;
  few = omega arith;
  fuel_left = omega arith;
}

pub loaded :
    IsLoaded globals 0x10000 0x10ce00 0x10040 0x10070 separate
      (omega arith)
      start
      (0x10040 ∷ 0x10058 ∷ [])
      []
      0x10040
      1048576
      0x7ee0000
unfolding load32 load8 store32 store8
loaded = record {
  handed = handed;
  last = refl;
  from = omega arith;
  to = omega arith;
  few = omega arith;
  below = omega arith;
  at = refl;
  size = refl;
  roomy = record {
    room = omega arith;
    no_wrap = omega arith;
    heads = omega arith;
    free_fits = omega arith;
    used_fits = omega arith;
    free_up = omega arith;
    used_up = omega arith;
    free_off = omega arith;
    used_off = omega arith;
    fuel_left = omega arith;
  };
  map_off = omega arith;
  record_off = omega arith;
}

still :
    (at n : ℕ)
    → (0x104000 ≤ at) × (at + n < 0x107000) ⊎ (0x107200 < at) × (at + n < 0x10ce00)
    → IsStill globals 0x10ce00 (test_page 1048576 0x7ee0000) at n
still at n range = record {
  screen = omega arith;
  high = omega arith;
  free_stack = omega arith;
  used_stack = omega arith;
  variable = omega arith;
  free_head = omega arith;
  used_head = omega arith;
  test = omega arith;
}

clear : (i : ℕ) → i < 256 → load8 start (0x10cc00 + i) ≡ 0
unfolding load8 all_below
clear i h =
    eq_of_test (load8 start (0x10cc00 + i)) 0
      (all_below_sound 256 (λ i. load8 start (0x10cc00 + i) == 0) i refl h)

pub hex : (k : ℕ) → k < 16 → load8 start (0x1040d6 + k) ≡ digit_char k
unfolding load8 all_below
hex k h =
    eq_of_test (load8 start (0x1040d6 + k)) (digit_char k)
      (all_below_sound 16 (λ k. load8 start (0x1040d6 + k) == digit_char k) k refl h)

data_set : IsPlaced globals places (test_page 1048576 0x7ee0000) start
unfolding load8
data_set = record {
  buffer = still 0x10cc00 256 (omega arith);
  test = still 0x10408c 5 (omega arith);
  digits = still 0x1040d6 16 (omega arith);
  number = still 0x108ee0 66 (omega arith);
  kb_off = omega arith;
  number_digits = omega arith;
  number_buffer = omega arith;
  number_test = omega arith;
  clear = clear;
  text = (refl, omega arith, (refl, omega arith, (refl, omega arith, (refl, omega arith, refl))));
  hex = hex;
  end = refl;
  fuel_left = omega arith;
}

laid : IsLaid places
laid = record { buffers = omega arith; test_kb = omega arith; test_buffer = omega arith }

-- The lines "test" and "a" after that.
cmain-IsIdle_example :
    (sys : System) × (cmain globals clock places 2
        (typed_lines globals clock places (test_keys ∷ (30 ∷ []) ∷ []) [])
        start
        entries
        no_routines
        []
      ≡ done (sys, []))
    × IsIdle places sys.keyboard
cmain-IsIdle_example =
    cmain-IsIdle globals clock places 0x10040 0x10070 separate (omega arith) start
      (0x10040 ∷ 0x10058 ∷ []) [] 0x10040 1048576 0x7ee0000 loaded data_set registers date
      clock-HoldsRegisters date-IsDate clock-Shows (omega arith) (test_keys ∷ (30 ∷ []) ∷ []) []
      entries no_routines [] laid
      (
        (test_keys-IsPlain, omega arith, omega arith),
        ((((omega arith, omega arith, omega arith), tt), omega arith, omega arith), tt),
      )
