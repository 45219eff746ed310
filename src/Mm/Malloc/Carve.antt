-- ===== src/Mm/Malloc/Carve.antt =====
-- What `malloc` does to memory when no page fits and it cuts a new page off the largest.
use d.Base.{ℕ, ◌+◌, ◌-◌, ◌<◌, ◌^◌, ◌≡◌, ◌≤◌, arith, ◌%◌, ◌*◌, ◌∙◌, ap, refl}
use d.Memory.{Mem, load32, store32}
use d.Mm.Pages.{address_at, size_at, sizeof_mp, add_mm_list_entry, next_at, prev_at}
use d.Mm.Pages.Links.{Distinct, add_lem, add_frame}
use d.Mm.Malloc.{carve}
use d.Memory.Laws.{Apart, load32-lt, load32-store32_ne, load32-store32_self}

-- Where the new page's record is placed: just below the last `size` bytes of `big`.
abbrev pub record_of : Mem → (size big : ℕ) → ℕ
record_of m size big = load32 m (address_at big) + (load32 m (size_at big) - (size + sizeof_mp))

-- The page `big` covers enough memory, nothing wraps, and the three records share no byte.
pub record Fits (m : Mem) (mm_used size big : ℕ) : Type 0 where
  pub room : size + sizeof_mp ≤ load32 m (size_at big)
  pub no_wrap : load32 m (address_at big) + load32 m (size_at big) < 2 ^ 32
  pub used_fits : mm_used < 2 ^ 32
  pub heads : Distinct big mm_used
  pub off_big : Distinct big (record_of m size big)
  pub off_used : Distinct mm_used (record_of m size big)

module _ (m : Mem) (mm_used size big : ℕ) (ok : Fits m mm_used size big) where
  abbrev left : ℕ
  left = (load32 m (size_at big) + 2 ^ 32 - (size + sizeof_mp) % 2 ^ 32) % 2 ^ 32

  left_lem : left ≡ load32 m (size_at big) - (size + sizeof_mp)
  left_lem = omega (arith, load32-lt m (size_at big), ok)

  abbrev shrunk : Mem
  shrunk = store32 m (size_at big) left

  temp_lem :
      (load32 shrunk (address_at big) + load32 shrunk (size_at big)) % 2 ^ 32 ≡ record_of m size big
  temp_lem = omega (
    arith,
    ok,
    left_lem,
    load32-store32_self m (size_at big) left,
    load32-store32_ne m (size_at big) left (address_at big) (omega arith),
  )

  -- The memory before the new page is linked into the used list.
  abbrev filled : Mem
  filled =
      let temp = record_of m size big in
      store32 (store32 shrunk (size_at temp) size) (address_at temp)
        ((temp + sizeof_mp * sizeof_mp) % 2 ^ 32)

  pub carve_eq :
      carve m mm_used size big
      ≡ (add_mm_list_entry filled mm_used (record_of m size big), record_of m size big)
  unfolding carve
  carve_eq = rw temp_lem

  apart_used : Distinct mm_used (record_of m size big)
  apart_used = omega (arith, ok)

  below : record_of m size big < 2 ^ 32
  below = omega (arith, ok)

  linked :
      (load32 (carve m mm_used size big).0 (next_at mm_used) ≡ record_of m size big)
      × (load32 (carve m mm_used size big).0 (prev_at (record_of m size big)) ≡ mm_used)
      × (load32 (carve m mm_used size big).0 (next_at (record_of m size big))
          ≡ load32 filled (next_at mm_used))
  linked = rw carve_eq (add_lem filled mm_used (record_of m size big) apart_used below ok.used_fits)

  filled_frame :
      (b : ℕ)
      → Apart (record_of m size big) sizeof_mp b 4
      → Apart (size_at big) 4 b 4
      → load32 filled b ≡ load32 m b
  filled_frame b h k =
      let temp = record_of m size big in
      load32-store32_ne (store32 shrunk (size_at temp) size) (address_at temp) _ b (omega arith)
      ∙ load32-store32_ne shrunk (size_at temp) size b (omega arith)
      ∙ load32-store32_ne m (size_at big) left b (omega arith)

  filled_sizes :
      (load32 filled (size_at big) ≡ load32 m (size_at big) - (size + sizeof_mp))
      × (load32 filled (size_at (record_of m size big)) ≡ size % 2 ^ 32)
      × (load32 filled (address_at (record_of m size big)) ≡ (record_of m size big + 256) % 2 ^ 32)
  filled_sizes =
      let temp = record_of m size big in
      let named = store32 shrunk (size_at temp) size in
      let addr = (temp + sizeof_mp * sizeof_mp) % 2 ^ 32 in
      (
        load32-store32_ne named (address_at temp) addr (size_at big) (omega (arith, ok))
            ∙ load32-store32_ne shrunk (size_at temp) size (size_at big) (omega (arith, ok))
            ∙ load32-store32_self m (size_at big) left
            ∙ omega (arith, left_lem),
        load32-store32_ne named (address_at temp) addr (size_at temp) (omega arith)
            ∙ load32-store32_self shrunk (size_at temp) size,
        omega (arith, load32-store32_self named (address_at temp) addr),
      )

  linked_frame :
      (b : ℕ)
      → Apart (record_of m size big) 8 b 4
      → Apart (next_at mm_used) 4 b 4
      → load32 (carve m mm_used size big).0 b ≡ load32 filled b
  linked_frame b h k =
      rw carve_eq
        (add_frame filled mm_used (record_of m size big) apart_used below ok.used_fits b h k)

  -- A word that is neither a field of the new record, nor `big->size`, nor `mm_used.next`.
  pub carve_frame :
      (b : ℕ)
      → Apart (record_of m size big) sizeof_mp b 4
      → Apart (size_at big) 4 b 4
      → Apart (next_at mm_used) 4 b 4
      → load32 (carve m mm_used size big).0 b ≡ load32 m b
  carve_frame b h k l = linked_frame b (omega arith) l ∙ filled_frame b h k

  pub carve_snd : (carve m mm_used size big).1 ≡ record_of m size big
  carve_snd = ap (λ r. r.1) carve_eq

  -- When `big` has room for `size` bytes and a record, its memory does not wrap around, and its own
  -- record, the head of the used list and the place of the new record share no byte, `carve`
  -- takes exactly these bytes off its size, places the new record below the freed bytes, records
  -- the size, sets the page's address 256 bytes above the record, and links the record in as the
  -- first of the used list.
  pub carve_lem :
      let (m', temp) = carve m mm_used size big in
      (temp ≡ record_of m size big)
      × (load32 m' (size_at big) + size + sizeof_mp ≡ load32 m (size_at big))
      × (load32 m' (size_at temp) ≡ size)
      × (load32 m' (address_at temp) ≡ (temp + 256) % 2 ^ 32)
      × (load32 m' (next_at mm_used) ≡ temp)
      × (load32 m' (prev_at temp) ≡ mm_used)
      × (load32 m' (next_at temp) ≡ load32 m (next_at mm_used))
  carve_lem =
      let temp = record_of m size big in
      let frame =
        λ (b : ℕ) (h : Apart temp 8 b 4) (k : Apart (next_at mm_used) 4 b 4). linked_frame b h k in
      rw carve_snd (
        refl,
        omega
            (arith, ok, filled_sizes, frame (size_at big) (omega (arith, ok)) (omega (arith, ok))),
        omega (
          arith,
          ok,
          load32-lt m (size_at big),
          filled_sizes,
          frame (size_at temp) (omega arith) (omega (arith, ok)),
        ),
        omega (arith, filled_sizes, frame (address_at temp) (omega arith) (omega (arith, ok))),
        linked.0,
        linked.1,
        linked.2 ∙ filled_frame (next_at mm_used) (omega (arith, ok)) (omega (arith, ok)),
      )
