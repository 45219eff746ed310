-- ===== src/Mm/Pages/Links.antt =====
-- What the two list operations leave in memory.
use d.Base.{arith, ℕ, ◌<◌, ◌^◌, ◌≡◌}
use d.Memory.{Mem, load32}
use d.Memory.Laws.{Apart, load32-lt, load32-store32_ne, load32-store32_self}
use d.Mm.Pages.{add_mm_list_entry, next_at, prev_at, sizeof_mp, remove_mm_list_entry}

-- Two `mp_t` records that share no byte.
abbrev pub Distinct : ℕ → ℕ → Type 0
Distinct p q = Apart p sizeof_mp q sizeof_mp

module _ (m : Mem) (entry new : ℕ) (apart : Distinct entry new) (fits : new < 2 ^ 32)
    (fits' : entry < 2 ^ 32) where
  pub add_lem :
      let m' = add_mm_list_entry m entry new in
      (load32 m' (next_at entry) ≡ new)
      × (load32 m' (prev_at new) ≡ entry)
      × (load32 m' (next_at new) ≡ load32 m (next_at entry))
  unfolding add_mm_list_entry
  add_lem = grind (arith, load32-store32_self, load32-store32_ne, load32-lt)

  pub add_frame :
      (b : ℕ)
      → Apart new 8 b 4
      → Apart (next_at entry) 4 b 4
      → load32 (add_mm_list_entry m entry new) b ≡ load32 m b
  unfolding add_mm_list_entry
  add_frame b h k = grind (arith, load32-store32_ne)

-- An entry between two others is unlinked on both sides, and its own links are cleared.
module _ (m : Mem) (e prev next : ℕ) (p : load32 m (prev_at e) ≡ prev)
    (n : load32 m (next_at e) ≡ next) (apart_p : Distinct prev e) (apart_n : Distinct next e)
    (apart : Distinct prev next) where
  pub remove_lem :
      let m' = remove_mm_list_entry m e in
      (load32 m' (next_at prev) ≡ next)
      × (load32 m' (prev_at next) ≡ prev)
      × (load32 m' (prev_at e) ≡ 0)
      × (load32 m' (next_at e) ≡ 0)
  unfolding remove_mm_list_entry
  remove_lem = grind (arith, load32-store32_self, load32-store32_ne, load32-lt)

  pub remove_frame :
      (b : ℕ)
      → Apart e 8 b 4
      → Apart (next_at prev) 4 b 4
      → Apart (prev_at next) 4 b 4
      → load32 (remove_mm_list_entry m e) b ≡ load32 m b
  unfolding remove_mm_list_entry
  remove_frame b h k l = grind (arith, load32-store32_ne)
