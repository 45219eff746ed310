-- ===== src/Tests/Shells.antt =====
-- The command loop with a small screen, for the line "test".
use d.Base.{
  all_below, all_below_sound, eq_of_test, ◌+◌, ◌==◌, All, List, [], arith, codes, false, refl, some,
  done, ℕ, ◌++◌, ◌<◌, ◌≡◌, ◌∷◌,
}
use d.Kernel.{Globals}
use d.Kernel.Main.{Places, System, clear_buffer, shell_round}
use d.Kernel.Shell.{IsAnswer, IsIdle, IsLaid}
use d.Kernel.Shell.Rounds.{shell_round-IsIdle}
use d.Keybd.{Keyboard, get_kbd}
use d.Keybd.Typing.{IsPlain, characters}
use d.Memory.{Mem, load8}
use d.Ports.{Device}
use d.Term.{Screen, write_text}
use d.Tests.Data.{image}

abbrev pub globals : Globals
globals = record {
  fuel = 8;
  mm_free = 0;
  mm_used = 0;
  mb_free = 0;
  used = 0;
  task_que = 0;
  itoa_buf = 0;
  zero_text = 0;
  digits_text = 0;
}

abbrev pub places : Places
places = record {
  gdt_at = 0;
  idt_at = 0;
  isr = λ n. 0;
  irq = λ n. 0;
  mbd = 0;
  mmap_var = 0;
  kb_buffer = 100;
  buffer = 400;
  test_text = 0;
}

no_device : Device
no_device log port = 0

-- The text "test" at 0, and zeros behind it.
abbrev test_only : Mem
test_only = image (codes "test")

abbrev small : Screen
small = record {
  width = 3;
  height = 2;
  color = 7;
  xpos = 0;
  ypos = 0;
  buffer = 1000;
  mem = test_only;
  log = [];
}

abbrev pub waiting : System
waiting = record {
  keyboard = record { screen = small; kb_i = 0; kb_shifted = false; kb_buffer_pending = false };
  gp = record { limit = 0; base = 0 };
  gdt = λ n. record {
    limit_low = 0;
    base_low = 0;
    base_middle = 0;
    access = 0;
    granularity = 0;
    base_high = 0;
  };
  idtp = record { limit = 0; base = 0 };
  idt = λ n. record { base_lo = 0; sel = 0; always0 = 0; flags = 0; base_hi = 0 };
  heap = record { mem_size = 0; bottom = 0; top = 0 };
  uptime = 0;
  t_hz = 100;
}

laid : IsLaid places
laid = record { buffers = omega arith; test_kb = omega arith; test_buffer = omega arith }

zeros_behind : (i : ℕ) → i < 256 → load8 test_only (400 + i) ≡ 0
unfolding load8 all_below
zeros_behind i h =
    eq_of_test (load8 test_only (400 + i)) 0
      (all_below_sound 256 (λ i. load8 test_only (400 + i) == 0) i refl h)

pub idle : IsIdle places waiting.keyboard
unfolding load8
idle = record {
  quiet = record {
    on = record {
      column = omega arith;
      row = omega arith;
      columns = omega arith;
      countable = omega arith;
    };
    kb_off = omega arith;
    buffer_off = omega arith;
    test_off = omega arith;
    test = (refl, omega arith, (refl, omega arith, (refl, omega arith, (refl, omega arith, refl))));
  };
  zeros = zeros_behind;
  no_keys = refl;
  unshifted = refl;
  not_pending = refl;
}

-- The keys T, E, S and T.
abbrev pub test_keys : List ℕ
test_keys = 20 ∷ 18 ∷ 31 ∷ 20 ∷ []

pub test_keys-IsPlain : All IsPlain test_keys
test_keys-IsPlain = (
  (omega arith, omega arith, omega arith),
  (
    (omega arith, omega arith, omega arith),
    ((omega arith, omega arith, omega arith), ((omega arith, omega arith, omega arith), tt)),
  ),
)

shell_round-IsIdle_example :
    (k : Keyboard) × (answer : List ℕ) × (sys' : System) × (get_kbd 100 400
        (test_keys ++ (0x1C ∷ []))
        (record waiting.keyboard { screen = write_text (codes "\n>>>") small })
      ≡ some (k, []))
    × (shell_round globals no_device places (test_keys ++ (0x1C ∷ [])) waiting ≡ done (sys', []))
    × IsAnswer (characters test_keys) answer
    × (sys'.keyboard.screen ≡ clear_buffer globals no_device places (write_text answer k.screen))
    × IsIdle places sys'.keyboard
shell_round-IsIdle_example =
    shell_round-IsIdle globals no_device places test_keys [] waiting laid idle test_keys-IsPlain
      (omega arith) (omega arith)
