-- ===== src/Kernel/Boot/Whole.antt =====
-- `cmain` from its first line to its loop, and the rounds of the loop after that.
use d.Base.{
  List, All, arith, codes, done, false, length, map, refl, some, ℕ, ◌*◌, ◌+◌, ◌-◌, ◌<◌, ◌==◌, ◌∙◌,
  ◌^◌, ◌≡◌, ◌≢◌, ◌≤◌,
}
use d.Gdt.{Gdt, init_gdt}
use d.Idt.{Routines, init_idt}
use d.Kernel.{Globals}
use d.Kernel.Boot.{log-IsUp, mem-IsUp, vga, vga_size, write_text-IsUp}
use d.Kernel.Boot.Welcome.{greeted, welcome, welcome-IsUp}
use d.Kernel.Boot.Memory.{IsLoaded, IsStill, heap_of, init_mm-IsUp, still_bytes}
use d.Kernel.Main.{Places, System, boot, cmain, init_keybd, install_timer, port_op, say}
use d.Kernel.Numbers.{write_number-digits}
use d.Kernel.Shell.{IsIdle, IsLaid}
use d.Kernel.Shell.Rounds.{IsShort, shell-IsIdle, typed_lines}
use d.Memory.{Mem, load8}
use d.Memory.Laws.{Apart}
use d.Mm.Init.Lists.{test_page}
use d.Mm.Init.Map.{IsSeparate}
use d.Ports.{Device, Log}
use d.Str.Itoa.{HasDigits}
use d.Str.Numerals.{digit_char, value}
use d.Str.Texts.{IsText, IsText-window}
use d.Term.{Screen, write_text}
use d.Time.{get_time, init_timer}
use d.Time.Clock.{Date, IsDate, Shows, days_of_next_month, get_time-Date}
use d.Time.Cmos.{HoldsRegisters}

-- Where the kernel's static data stand, and what they hold at the start: the line's buffer is clear, and the
-- texts are in place.
pub record IsPlaced (g : Globals) (places : Places) (page : ℕ) (m : Mem) : Type 0 where
  pub buffer : IsStill g places.mmap_var page places.buffer 256
  pub test : IsStill g places.mmap_var page places.test_text 5
  pub digits : IsStill g places.mmap_var page g.digits_text 16
  pub number : IsStill g places.mmap_var page g.itoa_buf 66
  pub kb_off : Apart vga vga_size places.kb_buffer 256
  pub number_digits : Apart g.itoa_buf 65 g.digits_text 16
  pub number_buffer : Apart g.itoa_buf 65 places.buffer 256
  pub number_test : Apart g.itoa_buf 65 places.test_text 5
  pub clear : (i : ℕ) → i < 256 → load8 m (places.buffer + i) ≡ 0
  pub text : IsText m places.test_text (codes "test")
  pub hex : HasDigits g.itoa_buf g.zero_text g.digits_text number_digits m
  pub end : load8 m (g.itoa_buf + 65) ≡ 0
  pub fuel_left : 64 < g.fuel

-- The number that `get_time` returns on a date outside December.
abbrev pub seconds_of : Date → ℕ
seconds_of d =
    d.seconds
    + d.minutes * 60
    + d.hours * 3600
    + (d.day + days_of_next_month d.month) * 86400
    + (d.year - 2000) * 31557600

seconds_of-bounds : (d : Date) → IsDate d → (0 < seconds_of d) × (seconds_of d < 2 ^ 31)
seconds_of-bounds d is = (ground arith, ground arith)

module _ (g : Globals) (dev : Device) (places : Places) (base end : ℕ)
    (sep : IsSeparate g places.mbd places.mmap_var base end) (fits : end < 2 ^ 32) (m : Mem)
    (es ys : List ℕ) (e bottom len : ℕ)
    (loaded : IsLoaded g places.mbd places.mmap_var base end sep fits m es ys e bottom len)
    (set : IsPlaced g places (test_page bottom len) m) (cmos : ℕ → ℕ) (d : Date)
    (holds : HoldsRegisters dev cmos) (is : IsDate d) (shows : Shows cmos d)
    (no_december : d.month ≢ 12) where
  time_lem : (log : Log) → (get_time dev log).1 ≡ some (seconds_of d)
  time_lem log =
      let other : (d.month == 12) ≡ false = ground arith in
      get_time-Date dev cmos d log holds is shows ∙ rw other refl

  pub boot-IsIdle :
      (gdt₀ : Gdt) (routines : Routines port_op) (log : Log)
      → (sys : System) × (before : Screen) × (ds : List ℕ) × (boot g dev places m gdt₀ routines log
          ≡ done (sys, install_timer g dev places (init_keybd g dev places routines)))
        × IsIdle places sys.keyboard
        × (sys.heap ≡ heap_of m places.mbd bottom)
        × (sys.keyboard.screen ≡ write_text (map digit_char ds) before)
        × (value 10 ds ≡ seconds_of d)
  unfolding boot welcome greeted
  boot-IsIdle gdt₀ routines log =
      let (m₁, run, spares) =
        init_mm-IsUp g places.mbd places.mmap_var base end sep fits m es ys e bottom len loaded
          (welcome places m log) (welcome-IsUp places m log) in
      let s₄ = welcome places m log in
      let s₅ = say "[OK]\n" (record s₄ { mem = m₁ }) in
      let u₅ =
        write_text-IsUp (codes "[OK]\n") m₁ _ (mem-IsUp m m₁ s₄ (welcome-IsUp places m log)) in
      let clock = get_time dev (init_timer s₅.log).2 in
      let s₆ = record s₅ { log = clock.0 } in
      let u₆ = log-IsUp m₁ s₅ clock.0 u₅ in
      let here =
        λ (at n : ℕ) (still : IsStill g places.mmap_var (test_page bottom len) at n) (size : 4 ≤ n)
            (a : ℕ) (lo : at ≤ a) (hi : a < at + n).
          u₆.same a (omega (arith, still.screen))
          ∙ still_bytes g places.mbd places.mmap_var base end sep fits m es ys e bottom len loaded
              s₄ (welcome-IsUp places m log) m₁ at n spares still size a lo hi in
      let bounds = seconds_of-bounds d is in
      let (ds, m₂, below, worth, shown, frame) =
        write_number-digits g (seconds_of d) 10 s₆ set.number_digits bounds.0 bounds.1 (omega arith)
          (omega arith)
          (λ k h.
            here g.digits_text 16 set.digits (omega arith) (g.digits_text + k) (omega arith)
              (omega arith)
            ∙ set.hex k h)
          (here g.itoa_buf 66 set.number (omega arith) (g.itoa_buf + 65) (omega arith) (omega arith)
            ∙ set.end)
          u₆.on (rw (u₆.place, u₆.wide, u₆.high) set.number.screen) set.fuel_left in
      let before = record s₆ { mem = m₂ } in
      let final = write_text (map digit_char ds) before in
      let u₇ = write_text-IsUp (map digit_char ds) m₂ before (mem-IsUp m₁ m₂ s₆ u₆) in
      let kept =
        λ (at n : ℕ) (still : IsStill g places.mmap_var (test_page bottom len) at n) (size : 4 ≤ n)
            (off : Apart g.itoa_buf 65 at n) (a : ℕ) (lo : at ≤ a) (hi : a < at + n).
          u₇.same a (omega (arith, still.screen))
          ∙ frame a (omega (arith, off))
          ∙ here at n still size a lo hi in
      let time = time_lem (init_timer s₅.log).2 in
      let tables = init_gdt places.gdt_at gdt₀ in
      let vectors = init_idt places.idt_at places.isr places.irq (greeted places m log).log in
      let sys : System = record {
        keyboard = record {
          screen = final;
          kb_i = 0;
          kb_shifted = false;
          kb_buffer_pending = false;
        };
        gp = tables.0;
        gdt = tables.1;
        idtp = vectors.0;
        idt = vectors.1;
        heap = heap_of m places.mbd bottom;
        uptime = (init_timer s₅.log).0;
        t_hz = (init_timer s₅.log).1;
      } in
      (
        sys,
        before,
        ds,
        rw run (rw time (rw shown refl)),
        record {
          quiet = record {
            on = u₇.on;
            kb_off = rw (u₇.place, u₇.wide, u₇.high) set.kb_off;
            buffer_off = rw (u₇.place, u₇.wide, u₇.high) set.buffer.screen;
            test_off = rw (u₇.place, u₇.wide, u₇.high) set.test.screen;
            test =
                IsText-window m final.mem places.test_text (codes "test")
                  (λ a lo hi.
                    kept places.test_text 5 set.test (omega arith) set.number_test a lo
                      (omega arith))
                  set.text;
          };
          zeros = λ i h.
              kept places.buffer 256 set.buffer (omega arith) set.number_buffer (places.buffer + i)
                (omega arith) (omega arith)
              ∙ set.clear i h;
          no_keys = refl;
          unshifted = refl;
          not_pending = refl;
        },
        refl,
        refl,
        worth,
      )

  -- Under the same conditions, with the keyboard's and the line's buffer and the text "test" apart
  -- from one another: when any number of lines of less than 255 plain keys, with fuel for each, are
  -- typed, `cmain` gets from its first line through the start and as many rounds as there are lines,
  -- has used up just those lines, and waits for the next one.
  pub cmain-IsIdle :
      (lines : List (List ℕ)) (rest : List ℕ) (gdt₀ : Gdt) (routines : Routines port_op) (log : Log)
      → IsLaid places
      → All (IsShort g dev places) lines
      → (sys : System) × (cmain g dev places
            (length lines)
            (typed_lines g dev places lines rest)
            m
            gdt₀
            routines
            log
          ≡ done (sys, rest))
        × IsIdle places sys.keyboard
  unfolding cmain
  cmain-IsIdle lines rest gdt₀ routines log laid short =
      let (sys, before, ds, booted, idle, heap, shown, worth) = boot-IsIdle gdt₀ routines log in
      let (sys', runs, end) = shell-IsIdle g dev places lines rest sys laid idle short in
      (sys', rw booted runs, end)
