-- ===== src/Kernel/Show/Registers.antt =====
-- What `vm_dump_registers` prints.
use mathlib.Core.Path.{subst}
use d.Base.{
  All, List, Run, [], arith, codes, done, refl, ℕ, ◌++◌, ◌+◌, ◌<◌, ◌>>=◌, ◌∙◌, ◌∷◌, ◌^◌, ◌≡◌, ◌≤◌,
}
use d.Kernel.{Globals, write_number}
use d.Kernel.Show.{show_register, vm_dump_registers}
use d.Kernel.Show.Dump.{IsNumeral, IsPrinter, IsPrinter-IsKept}
use d.Kernel.Show.MemMap.{numbered}
use d.Kernel.Show.Prints.{IsKept, Prints, Prints-IsKept, Prints-append, ended, write_text-Prints}
use d.Memory.{Mem, load16, load8}
use d.Memory.Laws.{Apart}
use d.Memory.Words.{half-same}
use d.Str.{sign_extend8}
use d.Term.{Screen, write_text}
use d.Term.Texts.{OffScreen}
use d.Vm.{bp_at, flags_at, ip_at, regs_at, sign_extend16, sizeof_vm, sp_at}

-- A register that is shown: its label and its place.
abbrev pub Shown : Type 0
Shown = List ℕ × ℕ

abbrev pub shown_registers : (vm : ℕ) → List Shown
shown_registers vm =
    (codes "  ip: ", ip_at vm)
    ∷ (codes "  sp: ", sp_at vm)
    ∷ (codes "  bp: ", bp_at vm)
    ∷ (codes "  r0: ", regs_at vm)
    ∷ (codes "  r1: ", regs_at vm + 2)
    ∷ (codes "  r2: ", regs_at vm + 4)
    ∷ (codes "  r3: ", regs_at vm + 6)
    ∷ []

-- The labels, each with the number of the register in hexadecimal behind it.
abbrev pub AreShown : Mem → List Shown → List ℕ → Type 0
AreShown m [] xs = xs ≡ []
AreShown m ((label, at) ∷ rs) xs =
    (number : List ℕ) × (rest : List ℕ) × (xs ≡ (label ++ number) ++ rest)
    × IsNumeral 16 (load16 m at) number
    × AreShown m rs rest

module _ (g : Globals) (vm : ℕ) where
  -- The record of the machine is off the screen and the number buffer.
  pub record IsApart (s : Screen) : Type 0 where
    pub off : OffScreen s vm sizeof_vm
    pub apart : Apart g.itoa_buf 65 vm sizeof_vm

  -- The register is one of the machine's, and its value not negative.
  abbrev pub IsRegister : Mem → Shown → Type 0
  IsRegister m r = (vm ≤ r.1) × (r.1 + 2 ≤ vm + sizeof_vm) × (load16 m r.1 < 2 ^ 15)

  IsApart-IsKept : (s t : Screen) → IsKept g.itoa_buf s t → IsApart s → IsApart t
  IsApart-IsKept s t kept is = record {
    off = rw (kept.place, kept.wide, kept.high) is.off;
    apart = is.apart;
  }

  machine-same :
      (s t : Screen) (a : ℕ)
      → IsKept g.itoa_buf s t
      → IsApart s
      → vm ≤ a
      → a < vm + sizeof_vm
      → load8 t.mem a ≡ load8 s.mem a
  machine-same s t a kept is lo hi =
      let off = is.off in let apart = is.apart in kept.same a (omega arith) (omega arith)

  -- The registers of a list, and what comes behind them.
  abbrev chain : List Shown → (Screen → Run Screen) → Screen → Run Screen
  chain [] k s = k s
  chain ((label, at) ∷ rs) k s = show_register g label at s >>= λ t. chain rs k t

  chain-AreShown :
      (m : Mem) (rs : List Shown) (k : Screen → Run Screen) (s : Screen)
      → IsPrinter g s
      → IsApart s
      → All (IsRegister m) rs
      → ((a : ℕ) → vm ≤ a → a < vm + sizeof_vm → load8 s.mem a ≡ load8 m a)
      → (t : Screen) × (xs : List ℕ) × (chain rs k s ≡ k t)
        × AreShown m rs xs
        × Prints g.itoa_buf s xs t
        × IsPrinter g t
        × IsKept g.itoa_buf s t
  unfolding show_register
  chain-AreShown m [] k s p is rs same =
      (s, [], refl, refl, ended, p, Prints-IsKept g.itoa_buf s s [] p.on ended)
  chain-AreShown m ((label, at) ∷ rs) k s p is ((lo, hi, small), regs) same =
      let buf = g.itoa_buf in
      let s₁ = write_text label s in
      let kept₁ = Prints-IsKept buf s s₁ label p.on (write_text-Prints buf label s) in
      let value : load16 s₁.mem at ≡ load16 m at = half-same m s₁.mem at λ a l h.
        machine-same s s₁ a kept₁ is (omega arith) (omega arith)
        ∙ same a (omega arith) (omega arith) in
      let n = sign_extend16 (load16 s₁.mem at) in
      let worth : n ≡ load16 m at = ground (arith, value, small) in
      let (t, number, run, is_n, prints, kept, p') =
        numbered g label n 16 s p (omega arith) (omega arith) (omega arith) in
      let (u, rest, more, shown, prints', p'', kept') =
        chain-AreShown m rs k t p' (IsApart-IsKept s t kept is) regs
          (λ a l h. machine-same s t a kept is l h ∙ same a l h) in
      let whole = Prints-append buf s t u (label ++ number) rest prints prints' in
      (
        u,
        (label ++ number) ++ rest,
        rw run more,
        (number, rest, refl, subst (λ x. IsNumeral 16 x number) worth is_n, shown),
        whole,
        p'',
        Prints-IsKept buf s u ((label ++ number) ++ rest) p.on whole,
      )

  -- Let the record of the machine stand off the screen and apart from the number buffer, with no register
  -- negative and the flags below 128; let the number buffer and the texts of `itoa` be in place, the cursor on the
  -- screen, and fuel be there for more than 64 characters. Then `vm_dump_registers` returns. It has printed each
  -- register with its label in hexadecimal, the flags in binary and a new line, and nothing else has changed but
  -- the number buffer.
  pub vm_dump_registers-AreShown :
      (s : Screen)
      → IsPrinter g s
      → IsApart s
      → All (IsRegister s.mem) (shown_registers vm)
      → load8 s.mem (flags_at vm) < 128
      → (t : Screen) × (xs : List ℕ) × (number : List ℕ) × (vm_dump_registers g vm s ≡ done t)
        × AreShown s.mem (shown_registers vm) xs
        × IsNumeral 2 (load8 s.mem (flags_at vm)) number
        × Prints g.itoa_buf s (xs ++ ((codes "  fr: " ++ number) ++ codes "\n")) t
        × IsPrinter g t
        × IsKept g.itoa_buf s t
  unfolding vm_dump_registers
  vm_dump_registers-AreShown s p is regs small =
      let buf = g.itoa_buf in
      let last : Screen → Run Screen = λ h.
        let i = write_text (codes "  fr: ") h in
        write_number g (sign_extend8 (load8 i.mem (flags_at vm))) 2 i >>= λ j.
        done (write_text (codes "\n") j) in
      let (h, xs, run, shown, prints, p', kept) =
        chain-AreShown s.mem (shown_registers vm) last s p is regs (λ a l h. refl) in
      let i = write_text (codes "  fr: ") h in
      let kept' =
        Prints-IsKept buf h i (codes "  fr: ") p'.on (write_text-Prints buf (codes "  fr: ") h) in
      let value : load8 i.mem (flags_at vm) ≡ load8 s.mem (flags_at vm) =
        machine-same h i (flags_at vm) kept' (IsApart-IsKept s h kept is) (omega arith)
          (omega arith)
        ∙ machine-same s h (flags_at vm) kept is (omega arith) (omega arith) in
      let n = sign_extend8 (load8 i.mem (flags_at vm)) in
      let worth : n ≡ load8 s.mem (flags_at vm) = ground (arith, value, small) in
      let (j, number, run', is_n, prints', kept₂, p₂) =
        numbered g (codes "  fr: ") n 2 h p' (omega arith) (omega arith) (omega arith) in
      let t = write_text (codes "\n") j in
      let line = codes "  fr: " ++ number in
      let through : vm_dump_registers g vm s ≡ chain (shown_registers vm) last s = refl in
      let ends : last h ≡ done t = rw run' refl in
      let whole = Prints-append buf s h t xs (line ++ codes "\n") prints (
        Prints-append buf h j t line (codes "\n") prints' (write_text-Prints buf (codes "\n") j)) in
      let kept_all = Prints-IsKept buf s t (xs ++ (line ++ codes "\n")) p.on whole in
      (
        t,
        xs,
        number,
        through ∙ run ∙ ends,
        shown,
        subst (λ x. IsNumeral 2 x number) worth is_n,
        whole,
        IsPrinter-IsKept g s t kept_all p,
        kept_all,
      )
