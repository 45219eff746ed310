-- ===== src/Dasm/Comments.antt =====
-- What a comment does to the rest of the code.
use d.Base.{arith, done, refl, suc, zero, ℕ, ◌+◌, ◌-◌, ◌≡◌, ◌≤◌}
use d.Memory.{load8}
use d.Dasm.{Services, Tables, code_loop}

-- When the line that is being read begins with '#', the loop of `dasm` makes no instruction of it nor of
-- any line behind it, however many there are: it ends with the state and the count it had.
pub code_loop-comment :
    {S : Type 0} (sv : Services S) (texts : Tables)
    → (rounds code ins len ptr tok_len cur_ins : ℕ) (s : S) → tok_len ≤ ptr
    → load8 (sv.mem s) (code + (ptr - tok_len)) ≡ b'#'
    → code_loop sv texts rounds code ins len ptr tok_len cur_ins s ≡ done (s, cur_ins)
unfolding code_loop
code_loop-comment sv texts zero code ins len ptr tok_len cur_ins s le hash = refl
code_loop-comment sv texts (suc rounds) code ins len ptr tok_len cur_ins s le hash =
    let start : ptr + 1 - (tok_len + 1) ≡ ptr - tok_len = omega arith in
    let next =
      code_loop-comment sv texts rounds code ins len (ptr + 1) (tok_len + 1) cur_ins s (omega arith)
        (rw start hash) in
    ground (arith, next, hash)
