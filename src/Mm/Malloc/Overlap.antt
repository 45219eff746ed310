-- ===== src/Mm/Malloc/Overlap.antt =====
-- Consecutive calls of `malloc` on a free list of one page, as `init_mm` leaves it.
use d.Base.{arith, inr, refl, some, suc, ℕ, ◌*◌, ◌+◌, ◌<◌, ◌^◌, ◌≡◌, ◌≤◌, ◌⊎◌, ◌↔◌, inl, ◌∙◌}
use d.Memory.{Mem, load32}
use d.Mm.Pages.{address_at, next_at, size_at, sizeof_mp}
use d.Mm.Malloc.{allocated, carve, malloc}
use d.Mm.Malloc.Carve.{Fits, carve_frame, carve_lem}
use d.Mm.Pages.Links.{Distinct}
use d.Memory.Laws.{Apart}

-- With one page on the free list the walk ends at once.
pub malloc_single :
    (fuel : ℕ) (m : Mem) (mm_free mm_used size : ℕ)
    → load32 m (next_at mm_free) ≡ 0
    → Fits m mm_used size mm_free
    → let (m', temp) = carve m mm_used size mm_free in
      malloc (suc fuel) m mm_free mm_used size ≡ some (allocated m' temp)
unfolding malloc
malloc_single fuel m mm_free mm_used size e ok = ground (arith, ok.room)

module _ (m : Mem) (mm_free mm_used first second : ℕ) (single : load32 m (next_at mm_free) ≡ 0)
    (heads : Distinct mm_free mm_used) (used_fits : mm_used < 2 ^ 32)
    (room : first + second + 2 * sizeof_mp ≤ load32 m (size_at mm_free))
    (no_wrap : load32 m (address_at mm_free) + load32 m (size_at mm_free) + 256 < 2 ^ 32)
    (from_free : mm_free + sizeof_mp ≤ load32 m (address_at mm_free))
    (from_used : mm_used + sizeof_mp ≤ load32 m (address_at mm_free)) where
  Fits-first : Fits m mm_used first mm_free
  Fits-first = omega arith

  abbrev after : Mem
  after = (carve m mm_used first mm_free).0

  kept : (b : ℕ) → b ≡ next_at mm_free ⊎ b ≡ address_at mm_free → load32 after b ≡ load32 m b
  kept b h =
      carve_frame m mm_used first mm_free Fits-first b (omega arith) (omega arith) (omega arith)

  Fits-second : Fits after mm_used second mm_free
  Fits-second =
      omega
        (arith, carve_lem m mm_used first mm_free Fits-first, kept (address_at mm_free) (inr refl))

  kept_address : load32 after (address_at mm_free) ≡ load32 m (address_at mm_free)
  kept_address = kept (address_at mm_free) (inr refl)

  -- Take a free list of one page that has room for two requests and their records, whose memory
  -- lies above both list heads and does not wrap around; the heads share no byte. Then two calls
  -- of `malloc` succeed, and the bytes that the second page hands out (its address and size) are
  -- apart from the record of the first page exactly when the second request is for at most 224
  -- bytes.
  pub malloc-malloc :
      (fuel : ℕ)
      → (m₁ m₂ : Mem) × (p₁ p₂ : ℕ) × (malloc (suc fuel) m mm_free mm_used first
          ≡ some (allocated m₁ p₁))
        × (malloc (suc fuel) m₁ mm_free mm_used second ≡ some (allocated m₂ p₂))
        × (Apart (load32 m₂ (address_at p₂)) (load32 m₂ (size_at p₂)) p₁ sizeof_mp ↔ (second ≤ 224))
  malloc-malloc fuel =
      let first_cut = carve_lem m mm_used first mm_free Fits-first in
      let second_cut = carve_lem after mm_used second mm_free Fits-second in
      (
        after,
        (carve after mm_used second mm_free).0,
        (carve m mm_used first mm_free).1,
        (carve after mm_used second mm_free).1,
        malloc_single fuel m mm_free mm_used first single Fits-first,
        malloc_single fuel after mm_free mm_used second (kept (next_at mm_free) (inl refl) ∙ single)
            Fits-second,
        (
          (λ h. omega (arith, first_cut, second_cut, kept_address)),
          λ h. omega (arith, first_cut, second_cut, kept_address),
        ),
      )
