-- ===== src/Dasm/Machine.antt =====
-- The assembler of the kernel, src/dasm.c: the instance that calls the kernel's functions.
use d.Base.{Option, Run, done, none, some, spins, suc, zero, ℕ, ◌*◌, ◌+◌, ◌>>=◌}
use d.Dasm.{Services, Tables, code_loop, op_at, m0_at, a0_at, m1_at, a1_at, sizeof_ins}
use d.Kernel.{Globals, write_string}
use d.Memory.{Mem, load16, load32, load8, store16, store8}
use d.Mm.Copy.{mem_cpy}
use d.Mm.Init.{malloc_page, malloc_raw}
use d.Mm.Malloc.{free}
use d.Mm.Pages.{address_at}
use d.Str.{atoi, strchr, strcmp, strlen}
use d.Term.{Screen}

-- An answer that needs more fuel is not there yet.
abbrev pub or_spins : Option ℕ → Run ℕ
or_spins none = spins
or_spins (some n) = done n

abbrev pub kernel_services : Globals → Services Screen
kernel_services g = record {
  mem = λ s. s.mem;
  set_mem = λ m s. record s { mem = m };
  malloc_raw = λ s size. malloc_raw g s.mem size >>= λ r. done (record s { mem = r.0 }, r.1);
  mem_cpy = mem_cpy;
  strlen = λ m str. or_spins (strlen g.fuel m str);
  strcmp = λ m p₁ p₂. or_spins (strcmp g.fuel m p₁ p₂);
  strchr = λ m str c. or_spins (strchr g.fuel m str c);
  atoi = λ m str. or_spins (atoi g.fuel m str);
  echo = λ s text. write_string g.fuel text s;
}

-- One instruction of the machine from one of the assembler: `out->ins[i] = vm_in`, but for the two bytes
-- of padding.
unfoldable pub emit : (ins out : ℕ) → Mem → Mem
emit ins out m =
    let m₁ = store8 (store8 m out 15) (out + 1) (load8 m (op_at ins)) in
    let m₂ = store8 m₁ (out + 2) (load8 m (m0_at ins)) in
    let m₃ = store16 m₂ (out + 4) (load16 m (a0_at ins)) in
    store16 (store8 m₃ (out + 6) (load8 m (m1_at ins))) (out + 8) (load16 m (a1_at ins))

unfoldable pub emit_loop : (left ins out : ℕ) → Mem → Mem
unfolding emit
emit_loop zero ins out m = m
emit_loop (suc left) ins out m = emit_loop left (ins + sizeof_ins) (out + 10) (emit ins out m)

-- The result is the address of the machine's instructions.
unfoldable pub dasm : Globals → Tables → (code : ℕ) → Screen → Run (Screen × ℕ)
unfolding malloc_page malloc_raw code_loop emit_loop
dasm g texts code s = do
  page ← malloc_page g s.mem (255 * sizeof_ins)
  let ins = load32 page.0 (address_at page.1)
  len ← or_spins (strlen g.fuel page.0 code)
  let s₁ : Screen = record s { mem = page.0 }
  r ← code_loop (kernel_services g) texts (len + 1) code ins len 0 0 0 s₁
  out ← malloc_raw g r.0.mem (255 * 10)
  let m = free (emit_loop r.1 ins out.1 out.0) g.mm_free page.1
  done (record r.0 { mem = m }, out.1)
