-- ===== src/Dasm/Host.antt =====
-- The assembler for the host, src/dasm/dasm.c: the instance that calls the C library.
pub mod Names
use d.Base.{◌>>=◌, List, Run, [], done, suc, zero, ℕ, ◌*◌, ◌+◌, ◌∷◌}
use d.Dasm.{
  parse, sizeof_ins, Services, Tables, a0_at, a1_at, code_loop, get_reg, m0_at, m1_at, op_at,
  op_mask_at, parse_arg,
}
use d.Memory.{Mem, load16, load8, store16, store8}

-- What the C library does is a parameter; the host's `parse` writes nothing to a terminal.
abbrev pub host_services : {S : Type 0} → Services S → Services S
host_services sv = record sv { echo = λ s text. done s }

-- The host's `num_ops`, one less than the kernel's.
abbrev pub host_tables : Tables → Tables
host_tables texts = record texts { num_ops = 4 }

-- The fields of the host's `vm_ins_t`, of 10 bytes.
abbrev sizeof_out : ℕ
sizeof_out = 10

-- One instruction of the output, whose mask is that of the assembler, but for the two bytes of padding.
unfoldable pub host_emit : (ins out : ℕ) → Mem → Mem
host_emit ins out m =
    let m₁ = store8 (store8 m out (load8 m (op_mask_at ins))) (out + 1) (load8 m (op_at ins)) in
    let m₂ = store8 m₁ (out + 2) (load8 m (m0_at ins)) in
    let m₃ = store16 m₂ (out + 4) (load16 m (a0_at ins)) in
    store16 (store8 m₃ (out + 6) (load8 m (m1_at ins))) (out + 8) (load16 m (a1_at ins))

unfoldable pub host_emit_loop : (left ins out : ℕ) → Mem → Mem
unfolding host_emit
host_emit_loop zero ins out m = m
host_emit_loop (suc left) ins out m =
    host_emit_loop left (ins + sizeof_ins) (out + sizeof_out) (host_emit ins out m)

-- What `fwrite` is given: `size` bytes from `at` on.
unfoldable pub written_bytes : Mem → (size at : ℕ) → List ℕ
written_bytes m zero at = []
written_bytes m (suc size) at = load8 m at ∷ written_bytes m size (at + 1)

module _ {S : Type 0} (sv : Services S) (texts : Tables) where
  unfoldable pub host_get_reg : Mem → (reg : ℕ) → Run ℕ
  host_get_reg m reg = get_reg (host_services sv) (host_tables texts) m reg

  unfoldable pub host_parse_arg : (ins t : ℕ) → S → Run S
  host_parse_arg ins t s = parse_arg (host_services sv) (host_tables texts) ins t s

  unfoldable pub host_parse : (ins : ℕ) → S → Run S
  host_parse ins s = parse (host_services sv) (host_tables texts) ins s

  -- The loop of `main` over the code.
  unfoldable pub host_code_loop : (len code ins : ℕ) → S → Run (S × ℕ)
  host_code_loop len code ins s =
      code_loop (host_services sv) (host_tables texts) (len + 1) code ins len 0 0 0 s

  -- `main`, with the places of `code`, `ins` and `out`, and with what it writes to the file.
  unfoldable pub host_main : (code ins out : ℕ) → S → Run (S × List ℕ)
  unfolding host_code_loop host_emit_loop written_bytes
  host_main code ins out s = sv.strlen (sv.mem s) code >>= λ len.
      host_code_loop len code ins s >>= λ r.
      let m = host_emit_loop r.1 ins out (sv.mem r.0) in
      done (sv.set_mem m r.0, written_bytes m (sizeof_out * r.1) out)
