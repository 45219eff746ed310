-- ===== src/Mm/Pages.antt =====
-- The page lists of mem.c: `mp_t` records in memory, linked by `next`, with NULL (0) at the end.
pub mod Links
pub mod Dropped
use d.Base.{ℕ, ◌+◌}
use d.Memory.{Mem, load32, store32}

-- The fields of the `mp_t` at an address, and `sizeof(mp_t)`.
abbrev pub prev_at : ℕ → ℕ
prev_at p = p

abbrev pub next_at : ℕ → ℕ
next_at p = p + 4

abbrev pub address_at : ℕ → ℕ
address_at p = p + 8

abbrev pub size_at : ℕ → ℕ
size_at p = p + 12

abbrev pub sizeof_mp : ℕ
sizeof_mp = 16

unfoldable pub add_mm_list_entry : Mem → (entry new : ℕ) → Mem
add_mm_list_entry m entry new =
    let m₁ = store32 m (prev_at new) entry in
    let m₂ = store32 m₁ (next_at new) (load32 m₁ (next_at entry)) in store32 m₂ (next_at entry) new

unfoldable pub remove_mm_list_entry : Mem → (entry : ℕ) → Mem
remove_mm_list_entry m entry =
    let prev = load32 m (prev_at entry) in
    let next = load32 m (next_at entry) in
    let m₁ = store32 m (next_at prev) next in
    let m₂ = store32 m₁ (prev_at next) prev in
    let m₃ = store32 m₂ (prev_at entry) 0 in store32 m₃ (next_at entry) 0
