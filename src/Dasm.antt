-- ===== src/Dasm.antt =====
-- The assembler, src/dasm.c, whose code src/dasm/dasm.c repeats for the host: both are instances of
-- the definitions here, over what they call.
pub mod Lookup
pub mod Machine
pub mod Args
pub mod Comments
pub mod Host
use d.Base.{
  Bool, Option, Run, done, false, if◌then◌else◌, ltb, none, not, some, suc, zero, ℕ, ◌%◌, ◌&&◌, ◌*◌,
  ◌+◌, ◌-◌, ◌==◌, ◌>>=◌, ◌^◌, ◌||◌,
}
use d.Memory.{Mem, load8, load32, store8, store16, store32}

-- The functions that the assembler calls, over the state `S` that holds the memory. `echo` is the write
-- of the first token to the terminal.
pub record Services (S : Type 0) : Type 0 where
  pub mem : S → Mem
  pub set_mem : Mem → S → S
  pub malloc_raw : S → (size : ℕ) → Run (S × ℕ)
  pub mem_cpy : Mem → (dst src size : ℕ) → Mem
  pub strlen : Mem → (str : ℕ) → Run ℕ
  pub strcmp : Mem → (p₁ p₂ : ℕ) → Run ℕ
  pub strchr : Mem → (str c : ℕ) → Run ℕ
  pub atoi : Mem → (str : ℕ) → Run ℕ
  pub echo : S → (text : ℕ) → Run S

-- The addresses of the texts of `ops`, `regs` and the two literals, and `num_ops`.
pub record Tables : Type 0 where
  pub num_ops : ℕ
  pub ops : ℕ → ℕ
  pub regs : ℕ → ℕ
  pub risbp : ℕ
  pub digits : ℕ

-- The fields of an `ins_t`, of 28 bytes.
abbrev pub raw_at : ℕ → ℕ
raw_at ins = ins

abbrev pub token_at : (ins t : ℕ) → ℕ
token_at ins t = ins + 4 + 4 * t

abbrev pub op_mask_at : ℕ → ℕ
op_mask_at ins = ins + 16

abbrev pub op_at : ℕ → ℕ
op_at ins = ins + 17

abbrev pub m0_at : ℕ → ℕ
m0_at ins = ins + 18

abbrev pub a0_at : ℕ → ℕ
a0_at ins = ins + 20

abbrev pub m1_at : ℕ → ℕ
m1_at ins = ins + 22

abbrev pub a1_at : ℕ → ℕ
a1_at ins = ins + 24

abbrev pub sizeof_ins : ℕ
sizeof_ins = 28

module _ {S : Type 0} (sv : Services S) (texts : Tables) where
  -- A change of memory alone.
  abbrev pub on_mem : (Mem → Mem) → S → S
  on_mem f s = sv.set_mem (f (sv.mem s)) s

  -- `for (i = 0; i < count; i++) if (strcmp(name, table[i]) == 0) { … break; }`, as in `get_reg` and in
  -- the search for the operation of `parse`. `table i` is the address of the text of entry `i`.
  unfoldable pub find : Mem → (table : ℕ → ℕ) (name left i : ℕ) → Run (Option ℕ)
  find m table name zero i = done none
  find m table name (suc left) i = sv.strcmp m name (table i) >>= λ r.
      let rest = find m table name left (i + 1) in if r == 0 then done (some i) else rest

  -- -1, as the bit pattern of an `int`, if no name is found.
  unfoldable pub get_reg : Mem → (reg : ℕ) → Run ℕ
  unfolding find
  get_reg m reg = find m texts.regs reg 7 0 >>= λ found. elim found [
    | none ↦ done (2 ^ 32 - 1)
    | some i ↦ done i
  ]

  -- The operation of the first token; with no match `op` and `op_mask` stay as they were.
  unfoldable pub set_op : (ins : ℕ) → S → Run S
  unfolding find
  set_op ins s = do
    found ← find (sv.mem s) texts.ops (load32 (sv.mem s) (token_at ins 0)) texts.num_ops 0
    elim found [
      | none ↦ done s
      | some o ↦ done (on_mem (λ m. store8 (store8 m (op_at ins) o) (op_mask_at ins) 0) s)
    ]

  -- `strchr(literal, c) != NULL`.
  unfoldable pub is_in : Mem → (literal c : ℕ) → Run Bool
  is_in m literal c = sv.strchr m literal c >>= λ r. done (not (r == 0))

  -- A register's name is copied, and its terminator is put one byte too far.
  unfoldable pub register_arg : (from : ℕ) → S → Run (S × ℕ)
  unfolding get_reg
  register_arg from s = do
    r ← sv.malloc_raw s 3
    let t = on_mem (λ m. store8 (sv.mem_cpy m r.1 from 2) (r.1 + 3) 0) r.0
    a ← get_reg (sv.mem t) r.1
    done (t, a % 2 ^ 16)

  -- A number in brackets is copied without its last character and without a terminator.
  unfoldable pub pointer_arg : (token : ℕ) → S → Run (S × ℕ)
  pointer_arg token s = do
    n ← sv.strlen (sv.mem s) token
    r ← sv.malloc_raw s ((n + 2 ^ 32 - 1) % 2 ^ 32)
    k ← sv.strlen (sv.mem r.0) token
    let t = on_mem (λ m. sv.mem_cpy m r.1 (token + 1) ((k + 2 ^ 32 - 2) % 2 ^ 32)) r.0
    a ← sv.atoi (sv.mem t) r.1
    done (t, a % 2 ^ 16)

  -- The mask and the value of an argument, `m` and `a`, both 0 where no test succeeds.
  unfoldable pub read_arg : (token : ℕ) → S → Run (S × ℕ × ℕ)
  unfolding is_in register_arg pointer_arg
  read_arg token s = do
    let m = sv.mem s
    let bracket = load8 m token == b'['
    name ← if bracket then is_in m texts.risbp (load8 m (token + 1)) else done false
    let by_name = register_arg (token + 1) s >>= λ r. done (r.0, 3, r.1)
    let others = do
      number ← is_in m texts.digits (load8 m token)
      let value = sv.atoi m token >>= λ a. done (s, 0, a % 2 ^ 16)
      let rest = do
        plain ← is_in m texts.risbp (load8 m token)
        let register = register_arg token s >>= λ r. done (r.0, 1, r.1)
        let last = do
          place ← if bracket then is_in m texts.digits (load8 m (token + 1)) else done false
          let pointer = pointer_arg token s >>= λ r. done (r.0, 2, r.1)
          if place then pointer else done (s, 0, 0)
        if plain then register else last
      if number then value else rest
    if name then by_name else others

  unfoldable pub parse_arg : (ins t : ℕ) → S → Run S
  unfolding read_arg
  parse_arg ins t s = read_arg (load32 (sv.mem s) (token_at ins t)) s >>= λ r.
      let first = on_mem (λ m. store16 (store8 m (m0_at ins) r.1) (a0_at ins) r.2) r.0 in
      let second = on_mem (λ m. store16 (store8 m (m1_at ins) r.1) (a1_at ins) r.2) r.0 in
      if t == 1 then done first else if t == 2 then done second else done r.0

  -- A token from its bytes: the copy, and its terminator one byte too far.
  unfoldable pub copy_text : (slot : ℕ) (from : Mem → ℕ) (size : ℕ) → S → Run S
  copy_text slot from size s = do
    r ← sv.malloc_raw s (size + 1)
    done (
        on_mem
          (λ m.
            let m₁ = store32 m slot r.1 in
            let m' = sv.mem_cpy m₁ r.1 (from m₁) size in store8 m' (r.1 + size + 1) 0)
          r.0)

  unfoldable pub take_token : (ins t i tok_len : ℕ) → S → Run S
  unfolding copy_text set_op parse_arg
  take_token ins t i tok_len s = do
    s₁ ← copy_text (token_at ins t) (λ m. load32 m (raw_at ins) + (i - tok_len)) tok_len s
    let op = sv.echo s₁ (load32 (sv.mem s₁) (token_at ins 0)) >>= λ s₂. set_op ins s₂
    if t == 0 then op else parse_arg ins t s₁

  -- The loop of `parse`, on the rounds that it can have at most.
  unfoldable pub token_loop : (rounds ins len i t tok_len : ℕ) → S → Run S
  unfolding take_token
  token_loop zero ins len i t tok_len s = done s
  token_loop (suc rounds) ins len i t tok_len s =
      let c = load8 (sv.mem s) (load32 (sv.mem s) (raw_at ins) + i) in
      let taken =
        take_token ins t i tok_len s >>= λ s'. token_loop rounds ins len (i + 2) (t + 1) 1 s' in
      let passed = token_loop rounds ins len (i + 1) t (tok_len + 1) s in
      if ltb i (len + 1) then (if (c == b' ') || (c == 0) then taken else passed) else done s

  unfoldable pub parse : (ins : ℕ) → S → Run S
  unfolding token_loop
  parse ins s = sv.strlen (sv.mem s) (load32 (sv.mem s) (raw_at ins)) >>= λ len.
      token_loop (len + 1) ins len 0 0 0 s

  unfoldable pub take_line : (code ins ptr tok_len : ℕ) → S → Run S
  unfolding copy_text parse
  take_line code ins ptr tok_len s =
      copy_text (raw_at ins) (λ m. code + (ptr - tok_len)) tok_len s >>= λ s'. parse ins s'

  -- The loop of `dasm` over the code, on the rounds that it can have at most; with `cur_ins`. The
  -- instructions stand from `ins` on.
  unfoldable pub code_loop : (rounds code ins len ptr tok_len cur_ins : ℕ) → S → Run (S × ℕ)
  unfolding take_line
  code_loop zero code ins len ptr tok_len cur_ins s = done (s, cur_ins)
  code_loop (suc rounds) code ins len ptr tok_len cur_ins s =
      let m = sv.mem s in
      let c = load8 m (code + ptr) in
      let taken = take_line code (ins + sizeof_ins * cur_ins) ptr tok_len s >>= λ s'.
      code_loop rounds code ins len (ptr + 2) 1 (cur_ins + 1) s' in
      let passed = code_loop rounds code ins len (ptr + 1) (tok_len + 1) cur_ins s in
      let ends = (c == 10) || (c == 0) in
      let comment = load8 m (code + (ptr - tok_len)) == b'#' in
      if ltb ptr (len + 1)
      then (if ends && not comment then taken else passed)
      else done (s, cur_ins)
