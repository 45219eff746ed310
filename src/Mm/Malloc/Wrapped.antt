-- ===== src/Mm/Malloc/Wrapped.antt =====
-- A request that fits in the largest page but leaves no room for the new page's record.
use d.Base.{arith, some, suc, ℕ, ◌%◌, ◌*◌, ◌+◌, ◌-◌, ◌<◌, ◌^◌, ◌∙◌, ◌≡◌, ◌≤◌, ap}
use d.Memory.{Mem, load32, store32}
use d.Memory.Laws.{load32-store32_ne, load32-store32_self}
use d.Mm.Pages.{address_at, next_at, size_at, sizeof_mp, add_mm_list_entry}
use d.Mm.Pages.Links.{Distinct, add_frame}
use d.Mm.Malloc.{allocated, carve, malloc}

module _ (m : Mem) (mm_free mm_used size : ℕ) (single : load32 m (next_at mm_free) ≡ 0)
    (enough : size ≤ load32 m (size_at mm_free))
    (no_room : load32 m (size_at mm_free) < size + sizeof_mp)
    (no_wrap : load32 m (address_at mm_free) + load32 m (size_at mm_free) < 2 ^ 32)
    (heads : Distinct mm_free mm_used)
    (from_free : mm_free + 2 * sizeof_mp ≤ load32 m (address_at mm_free))
    (from_used : mm_used + 2 * sizeof_mp ≤ load32 m (address_at mm_free)) where
  abbrev wrapped : ℕ
  wrapped = (load32 m (size_at mm_free) + 2 ^ 32 - (size + sizeof_mp) % 2 ^ 32) % 2 ^ 32

  wrapped_lem : wrapped + (size + sizeof_mp) ≡ load32 m (size_at mm_free) + 2 ^ 32
  wrapped_lem = omega arith

  abbrev shrunk : Mem
  shrunk = store32 m (size_at mm_free) wrapped

  -- Where the new record is put: up to 16 bytes below the page.
  abbrev under : ℕ
  under = load32 m (address_at mm_free) + load32 m (size_at mm_free) - (size + sizeof_mp)

  shrunk_size : load32 shrunk (size_at mm_free) ≡ wrapped
  shrunk_size = omega (arith, load32-store32_self m (size_at mm_free) wrapped)

  under_lem :
      (load32 shrunk (address_at mm_free) + load32 shrunk (size_at mm_free)) % 2 ^ 32 ≡ under
  under_lem = omega (
    arith,
    wrapped_lem,
    shrunk_size,
    load32-store32_ne m (size_at mm_free) wrapped (address_at mm_free) (omega arith),
  )

  abbrev filled : Mem
  filled =
      store32 (store32 shrunk (size_at under) size) (address_at under)
        ((under + sizeof_mp * sizeof_mp) % 2 ^ 32)

  carve-under : carve m mm_used size mm_free ≡ (add_mm_list_entry filled mm_used under, under)
  unfolding carve
  carve-under = rw under_lem

  malloc_carves :
      (fuel : ℕ)
      → let (m', temp) = carve m mm_used size mm_free in
        malloc (suc fuel) m mm_free mm_used size ≡ some (allocated m' temp)
  unfolding malloc
  malloc_carves fuel = ground arith

  malloc-under :
      (fuel : ℕ)
      → malloc (suc fuel) m mm_free mm_used size
        ≡ some (allocated (add_mm_list_entry filled mm_used under) under)
  malloc-under fuel = malloc_carves fuel ∙ ap (λ r. some (allocated r.0 r.1)) carve-under

  size_after : load32 (add_mm_list_entry filled mm_used under) (size_at mm_free) ≡ wrapped
  size_after =
      add_frame filled mm_used under (omega arith) (omega arith) (omega arith) (size_at mm_free)
        (omega arith) (omega arith)
      ∙ load32-store32_ne (store32 shrunk (size_at under) size) (address_at under) _
          (size_at mm_free) (omega arith)
      ∙ load32-store32_ne shrunk (size_at under) size (size_at mm_free) (omega arith)
      ∙ shrunk_size

  -- Take a free list of one page, whose memory lies 16 bytes above both list heads' records and does not
  -- wrap around, and a request that is no larger than the page but leaves no room for a record. Then
  -- `malloc` succeeds: it puts the record below the page's memory, and the size of the free page wraps
  -- around to more than it was.
  pub malloc-wrapped :
      (fuel : ℕ)
      → (m' : Mem) × (temp : ℕ) × (malloc (suc fuel) m mm_free mm_used size
          ≡ some (allocated m' temp))
        × (temp < load32 m (address_at mm_free))
        × (load32 m' (size_at mm_free) + (size + sizeof_mp) ≡ load32 m (size_at mm_free) + 2 ^ 32)
        × (load32 m (size_at mm_free) < load32 m' (size_at mm_free))
  malloc-wrapped fuel = (
    add_mm_list_entry filled mm_used under,
    under,
    malloc-under fuel,
    omega arith,
    omega (arith, size_after, wrapped_lem),
    omega (arith, size_after, wrapped_lem),
  )
