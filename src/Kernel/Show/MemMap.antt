-- ===== src/Kernel/Show/MemMap.antt =====
-- The line of a page in what `print_mem_map` prints.
pub mod Lists
use mathlib.Core.Path.{subst}
use d.Base.{
  ap, sym, All, List, [], arith, codes, done, false, length, refl, suc, true, zero, ℕ, ◌%◌, ◌*◌,
  ◌++◌, ◌+◌, ◌<◌, ◌==◌, ◌>>=◌, ◌∙◌, ◌∷◌, ◌^◌, ◌≡◌, ◌≢◌, ◌≤◌,
}
use d.Kernel.{Globals, write_number}
use d.Kernel.Show.{print_mem_map, show_page, show_pages}
use d.Kernel.Show.Dump.{IsNumeral, IsPrinter, IsPrinter-IsKept, write_number-Prints}
use d.Kernel.Show.Prints.{IsKept, Prints, Prints-IsKept, Prints-append, ended, write_text-Prints}
use d.Memory.{Mem, load32}
use d.Memory.Laws.{Apart}
use d.Memory.Words.{word-same}
use d.Mm.Pages.{address_at, next_at, size_at, sizeof_mp}
use d.Term.{Screen, write_text}
use d.Term.Texts.{OffScreen}

module _ (g : Globals) where
  -- The page record at `p` is off the screen and the number buffer, stands there as in `m`, and its numbers
  -- are below 2 ^ 31.
  pub record IsRecord (m : Mem) (s : Screen) (p : ℕ) : Type 0 where
    pub off : OffScreen s p sizeof_mp
    pub apart : Apart g.itoa_buf 65 p sizeof_mp
    pub same : (w : ℕ) → p ≤ w → w + 4 ≤ p + sizeof_mp → load32 s.mem w ≡ load32 m w
    pub size : load32 m (size_at p) < 2 ^ 31
    pub address : load32 m (address_at p) < 2 ^ 31
    pub end : (load32 m (address_at p) + load32 m (size_at p)) % 2 ^ 32 < 2 ^ 31

  pub IsRecord-IsKept :
      (m : Mem) (s t : Screen) (p : ℕ) → IsKept g.itoa_buf s t → IsRecord m s p → IsRecord m t p
  IsRecord-IsKept m s t p kept r =
      let off = r.off in
      let apart = r.apart in
      record {
        off = rw (kept.place, kept.wide, kept.high) r.off;
        apart = r.apart;
        same = λ w lo hi.
            word-same s.mem t.mem w (λ a l h. kept.same a (omega arith) (omega arith))
            ∙ r.same w lo hi;
        size = r.size;
        address = r.address;
        end = r.end;
      }

  -- A text with a number behind it.
  pub numbered :
      (label : List ℕ) (n base : ℕ) (s : Screen)
      → IsPrinter g s
      → n < 2 ^ 31
      → 2 ≤ base
      → base ≤ 16
      → (t : Screen) × (xs : List ℕ) × (write_number g n base (write_text label s) ≡ done t)
        × IsNumeral base n xs
        × Prints g.itoa_buf s (label ++ xs) t
        × IsKept g.itoa_buf s t
        × IsPrinter g t
  numbered label n base s p small two up =
      let buf = g.itoa_buf in
      let s₁ = write_text label s in
      let first = write_text-Prints buf label s in
      let p₁ = IsPrinter-IsKept g s s₁ (Prints-IsKept buf s s₁ label p.on first) p in
      let (t, xs, run, is, prints) = write_number-Prints g n base s₁ p₁ small two up in
      let whole = Prints-append buf s s₁ t label xs first prints in
      let kept = Prints-IsKept buf s t (label ++ xs) p.on whole in
      (t, xs, run, is, whole, kept, IsPrinter-IsKept g s t kept p)

  -- The line of a page: its size in decimal, its address and its end in hexadecimal, and the label.
  abbrev pub IsLine : Mem → (label : List ℕ) (p : ℕ) → List ℕ → Type 0
  IsLine m label p xs =
      (size : List ℕ) × (from : List ℕ) × (to : List ℕ) × (xs
        ≡ (codes "\n    " ++ size) ++ ((codes "  0x" ++ from) ++ ((codes "-" ++ to) ++ label)))
      × IsNumeral 10 (load32 m (size_at p)) size
      × IsNumeral 16 (load32 m (address_at p)) from
      × IsNumeral 16 ((load32 m (address_at p) + load32 m (size_at p)) % 2 ^ 32) to

  pub show_page-IsLine :
      (m : Mem) (label : List ℕ) (p : ℕ) (s : Screen)
      → IsPrinter g s
      → IsRecord m s p
      → (t : Screen) × (xs : List ℕ) × (show_page g p label s ≡ done t)
        × IsLine m label p xs
        × Prints g.itoa_buf s xs t
        × IsKept g.itoa_buf s t
  unfolding show_page
  show_page-IsLine m label p s ok r =
      let buf = g.itoa_buf in
      let at = r.same (size_at p) (omega arith) (omega arith) in
      let (a, size, run, is, prints, kept, ok') =
        numbered (codes "\n    ") (load32 s.mem (size_at p)) 10 s ok (omega (arith, at, r.size))
          (omega arith) (omega arith) in
      let ra = IsRecord-IsKept m s a p kept r in
      let at' = ra.same (address_at p) (omega arith) (omega arith) in
      let (b, from, run', is', prints', kept', ok₂) =
        numbered (codes "  0x") (load32 a.mem (address_at p)) 16 a ok'
          (omega (arith, at', r.address)) (omega arith) (omega arith) in
      let rb = IsRecord-IsKept m a b p kept' ra in
      let at₂ : (load32 b.mem (address_at p) + load32 b.mem (size_at p)) % 2 ^ 32
          ≡ (load32 m (address_at p) + load32 m (size_at p)) % 2 ^ 32 =
        rw
          (
            rb.same (address_at p) (omega arith) (omega arith),
            rb.same (size_at p) (omega arith) (omega arith),
          )
          refl in
      let (c, to, run₂, is₂, prints₂, kept₂, ok₃) =
        numbered (codes "-") ((load32 b.mem (address_at p) + load32 b.mem (size_at p)) % 2 ^ 32) 16
          b ok₂ (omega (arith, at₂, r.end)) (omega arith) (omega arith) in
      let t = write_text label c in
      let end =
        Prints-append buf b c t (codes "-" ++ to) label prints₂ (write_text-Prints buf label c) in
      let rest =
        Prints-append buf a b t (codes "  0x" ++ from) ((codes "-" ++ to) ++ label) prints' end in
      let line =
        Prints-append buf s a t (codes "\n    " ++ size)
          ((codes "  0x" ++ from) ++ ((codes "-" ++ to) ++ label)) prints rest in
      let text =
        (codes "\n    " ++ size) ++ ((codes "  0x" ++ from) ++ ((codes "-" ++ to) ++ label)) in
      (
        t,
        text,
        rw run (rw run' (rw run₂ refl)),
        (
          size,
          from,
          to,
          refl,
          subst (λ (n : ℕ). IsNumeral 10 n size) at is,
          subst (λ (n : ℕ). IsNumeral 16 n from) at' is',
          subst (λ (n : ℕ). IsNumeral 16 n to) at₂ is₂,
        ),
        line,
        Prints-IsKept buf s t text ok.on line,
      )
