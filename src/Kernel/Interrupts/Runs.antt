-- ===== src/Kernel/Interrupts/Runs.antt =====
-- Sequences of interrupts, in any order, with the routines that `cmain` installs.
use d.Base.{
  Bool-cases, List, [], ap, arith, inl, inr, leb, none, refl, suc, sym, ℕ, ◌%◌, ◌+◌, ◌<◌, ◌^◌, ◌∙◌,
  ◌++◌, ◌∷◌, ◌≡◌, ◌≤◌,
}
use mathlib.Core.Path.{subst}
use d.Idt.{Routines, irq_handler}
use d.Kernel.{Globals}
use d.Kernel.Interrupts.{installed, irq_handler-installed}
use d.Kernel.Main.{Places, System, port_op}
use d.Keybd.{Keyboard, on_scancode}
use d.Keybd.Typing.{typed}
use d.Keybd.Silent.{muted, on_scancode-muted}
use d.Ports.{Device, inb}

-- The timer, the keyboard with the scancode that its port gives, and a line without a handler.
pub data Event : Type 0 where
  tick : Event
  key : (scancode : ℕ) → Event
  spare : (line : ℕ) → Event

abbrev pub scancodes : List Event → List ℕ
scancodes [] = []
scancodes (tick ∷ es) = scancodes es
scancodes (key c ∷ es) = c ∷ scancodes es
scancodes (spare line ∷ es) = scancodes es

abbrev pub count_ticks : List Event → ℕ
count_ticks [] = 0
count_ticks (tick ∷ es) = suc (count_ticks es)
count_ticks (key c ∷ es) = count_ticks es
count_ticks (spare line ∷ es) = count_ticks es

typed-muted :
    (kb_buffer : ℕ) (cs : List ℕ) (k : Keyboard)
    → muted (typed kb_buffer cs k) ≡ muted (typed kb_buffer cs (muted k))
typed-muted kb_buffer [] k = refl
typed-muted kb_buffer (c ∷ cs) k =
    typed-muted kb_buffer cs (on_scancode kb_buffer c k)
    ∙ ap (λ (j : Keyboard). muted (typed kb_buffer cs j)) (on_scancode-muted kb_buffer c k)
    ∙ sym (typed-muted kb_buffer cs (on_scancode kb_buffer c (muted k)))

-- Keyboards that differ in the log alone still do after the same scancodes.
pub typed-same :
    (kb_buffer : ℕ) (cs : List ℕ) (j k : Keyboard)
    → muted j ≡ muted k
    → muted (typed kb_buffer cs j) ≡ muted (typed kb_buffer cs k)
typed-same kb_buffer cs j k e =
    typed-muted kb_buffer cs j
    ∙ ap (λ (i : Keyboard). muted (typed kb_buffer cs i)) e
    ∙ sym (typed-muted kb_buffer cs k)

pub typed-append :
    (kb_buffer : ℕ) (cs ds : List ℕ) (k : Keyboard)
    → typed kb_buffer (cs ++ ds) k ≡ typed kb_buffer ds (typed kb_buffer cs k)
typed-append kb_buffer [] ds k = refl
typed-append kb_buffer (c ∷ cs) ds k = typed-append kb_buffer cs ds (on_scancode kb_buffer c k)

module _ (g : Globals) (dev : Device) (places : Places) where
  -- `irq_routines` is all zeros before `cmain` installs its two.
  abbrev pub routines : Routines port_op
  routines = installed g dev places (λ n. none)

  -- The interrupts `es` come one after the other.
  pub data Interrupted : List Event → System → System → Type 0 where
    ended : {s : System} → Interrupted [] s s
    ticks :
        {es : List Event} {s t : System}
        → Interrupted es (irq_handler port_op routines 32 s) t
        → Interrupted (tick ∷ es) s t
    keys :
        {es : List Event} {s t : System} {c : ℕ}
        → (inb dev 0x60 s.keyboard.screen.log).1 ≡ c
        → Interrupted es (irq_handler port_op routines 33 s) t
        → Interrupted (key c ∷ es) s t
    spares :
        {es : List Event} {s t : System} {line : ℕ}
        → 2 ≤ line
        → line < 16
        → Interrupted es (irq_handler port_op routines (32 + line) s) t
        → Interrupted (spare line ∷ es) s t

  -- What the interrupts come to: the scancodes at the keyboard, and the ticks in `uptime`.
  abbrev pub Refines : (cs : List ℕ) (count : ℕ) (s t : System) → Type 0
  Refines cs count s t =
      (muted t.keyboard ≡ muted (typed places.kb_buffer cs s.keyboard))
      × (t.uptime ≡ (s.uptime + count) % 2 ^ 32)
      × (t ≡ record s { keyboard = t.keyboard; uptime = t.uptime })

  Refines-trans :
      (cs ds : List ℕ) (n count total : ℕ) (s s₁ t : System)
      → n + count ≡ total
      → Refines cs n s s₁
      → Refines ds count s₁ t
      → Refines (cs ++ ds) total s t
  Refines-trans cs ds n count total s s₁ t sum (typing, up, kept) (typing', up', kept') = (
    typing'
        ∙ typed-same places.kb_buffer ds s₁.keyboard (typed places.kb_buffer cs s.keyboard) typing
        ∙ ap (λ (k : Keyboard). muted k) (sym (typed-append places.kb_buffer cs ds s.keyboard)),
    omega arith,
    kept' ∙ ap (λ (r : System). record r { keyboard = t.keyboard; uptime = t.uptime }) kept,
  )

  tick-Refines : (s : System) → Refines [] 1 s (irq_handler port_op routines 32 s)
  tick-Refines s =
      let run =
        (irq_handler-installed g dev places (λ n. none) 2 s (omega arith) (omega arith)
          (omega arith)).0 in
      subst (λ (t : System). Refines [] 1 s t) (sym run) (refl, refl, refl)

  key-Refines :
      (c : ℕ) (s : System)
      → s.uptime < 2 ^ 32
      → (inb dev 0x60 s.keyboard.screen.log).1 ≡ c
      → Refines (c ∷ []) 0 s (irq_handler port_op routines 33 s)
  key-Refines c s small code =
      let run =
        (irq_handler-installed g dev places (λ n. none) 2 s (omega arith) (omega arith)
          (omega arith)).1 in
      let k = s.keyboard in
      let heard = record k { screen = record k.screen { log = (inb dev 0x60 k.screen.log).0 } } in
      let same : muted (on_scancode places.kb_buffer (inb dev 0x60 k.screen.log).1 heard)
          ≡ muted (on_scancode places.kb_buffer c k) =
        ap (λ (x : ℕ). muted (on_scancode places.kb_buffer x heard)) code
        ∙ on_scancode-muted places.kb_buffer c heard
        ∙ sym (on_scancode-muted places.kb_buffer c k) in
      subst (λ (t : System). Refines (c ∷ []) 0 s t) (sym run) (same, omega arith, refl)

  spare-Refines :
      (line : ℕ) (s : System)
      → s.uptime < 2 ^ 32
      → 2 ≤ line
      → line < 16
      → Refines [] 0 s (irq_handler port_op routines (32 + line) s)
  unfolding irq_handler
  spare-Refines line s small lo hi =
      let run : irq_handler port_op routines (32 + line) s
          ≡ irq_handler port_op (λ n. none) (32 + line) s =
        (irq_handler-installed g dev places (λ n. none) line s hi (omega arith) (omega arith)).2 in
      let quiet : Refines [] 0 s (irq_handler port_op (λ n. none) (32 + line) s) =
        elim (Bool-cases (leb 40 (32 + line))) [
          | inl second ↦ rw second (refl, omega arith, refl)
          | inr first ↦ rw first (refl, omega arith, refl)
        ] in
      subst (λ (t : System). Refines [] 0 s t) (sym run) quiet

  -- Whatever the order in which interrupts of the timer, the keyboard and the lines without a handler come:
  -- what the keyboard's state is then is what the scancodes alone, in their order, make of it, but for the
  -- log of the ports; `uptime` has counted the ticks; and nothing else of the kernel's state has changed.
  pub Interrupted-Refines :
      (es : List Event) (s t : System)
      → s.uptime < 2 ^ 32
      → Interrupted es s t
      → Refines (scancodes es) (count_ticks es) s t
  Interrupted-Refines [] s _ small ended = (refl, omega arith, refl)
  Interrupted-Refines (tick ∷ es) s t small (ticks rest) =
      let s₁ = irq_handler port_op routines 32 s in
      let first = tick-Refines s in
      Refines-trans [] (scancodes es) 1 (count_ticks es) (suc (count_ticks es)) s s₁ t (omega arith)
        first (Interrupted-Refines es s₁ t (omega (arith, first.1)) rest)
  Interrupted-Refines (key c ∷ es) s t small (keys code rest) =
      let s₁ = irq_handler port_op routines 33 s in
      let first = key-Refines c s small code in
      Refines-trans (c ∷ []) (scancodes es) 0 (count_ticks es) (count_ticks es) s s₁ t (omega arith)
        first (Interrupted-Refines es s₁ t (omega (arith, first.1)) rest)
  Interrupted-Refines (spare line ∷ es) s t small (spares lo hi rest) =
      let s₁ = irq_handler port_op routines (32 + line) s in
      let first = spare-Refines line s small lo hi in
      Refines-trans [] (scancodes es) 0 (count_ticks es) (count_ticks es) s s₁ t (omega arith) first
        (Interrupted-Refines es s₁ t (omega (arith, first.1)) rest)
