-- ===== src/Mm/Malloc.antt =====
-- `malloc`, `malloc_raw` and `free` of mem.c, over the addresses of the list heads `mm_free` and
-- `mm_used`. The comparison `temp->size <= size * 1.25` is exact in double precision, and reads
-- `4 * temp->size <= 5 * size` here.
pub mod Carve
pub mod Choice
pub mod Free
pub mod Overlap
pub mod Walk
pub mod Wrapped
use d.Base.{
  Bool, Option, if◌then◌else◌, leb, ltb, none, some, suc, zero, ℕ, ◌%◌, ◌&&◌, ◌*◌, ◌+◌, ◌-◌, ◌==◌,
  ◌^◌,
}
use d.Memory.{Mem, load32, store32}
use d.Mm.Pages.{add_mm_list_entry, address_at, next_at, remove_mm_list_entry, size_at, sizeof_mp}

-- How the walk along the free list ends: at a page that fits, or with the largest page it saw.
pub data Search : Type 0 where
  fitting : ℕ → Search
  no_fit : ℕ → Search

-- Is the page no smaller than asked for, and at most a quarter larger?
unfoldable pub fits : Mem → (size page : ℕ) → Bool
fits m size page =
    leb size (load32 m (size_at page)) && leb (4 * load32 m (size_at page)) (5 * size)

unfoldable pub larger : Mem → (best page : ℕ) → ℕ
larger m best page = if ltb (load32 m (size_at best)) (load32 m (size_at page)) then page else best

-- The `while(temp->next != NULL)` loop; `none` means that the fuel ran out.
unfoldable pub scan : (fuel : ℕ) → Mem → (size temp best : ℕ) → Option Search
unfolding fits larger
scan zero m size temp best = none
scan (suc fuel) m size temp best =
    let rest = scan fuel m size (load32 m (next_at temp)) (larger m best temp) in
    if load32 m (next_at temp) == 0
    then some (no_fit best)
    else if fits m size temp
    then some (fitting temp)
    else rest

-- `panic` is the call of `kernel_panic`, which does not return.
pub data Alloc : Type 0 where
  allocated : Mem → ℕ → Alloc
  panic : Alloc

-- Cut `size` bytes and a header off the end of the page `big`. `temp + sizeof(mp_t)` is pointer
-- arithmetic on an `mp_t *`, so it moves by `sizeof(mp_t)` records.
unfoldable pub carve : Mem → (mm_used size big : ℕ) → Mem × ℕ
carve m mm_used size big =
    let left = (load32 m (size_at big) + 2 ^ 32 - (size + sizeof_mp) % 2 ^ 32) % 2 ^ 32 in
    let m₁ = store32 m (size_at big) left in
    let temp = (load32 m₁ (address_at big) + load32 m₁ (size_at big)) % 2 ^ 32 in
    let m₂ = store32 m₁ (size_at temp) size in
    let m₃ = store32 m₂ (address_at temp) ((temp + sizeof_mp * sizeof_mp) % 2 ^ 32) in
    (add_mm_list_entry m₃ mm_used temp, temp)

unfoldable pub finish : Mem → (mm_used size : ℕ) → Search → Alloc
finish m mm_used size (fitting temp) =
    allocated (add_mm_list_entry (remove_mm_list_entry m temp) mm_used temp) temp
finish m mm_used size (no_fit big) =
    if ltb (load32 m (size_at big)) size
    then panic
    else (let (m', temp) = carve m mm_used size big in allocated m' temp)

unfoldable pub malloc : (fuel : ℕ) → Mem → (mm_free mm_used size : ℕ) → Option Alloc
unfolding scan finish
malloc fuel m mm_free mm_used size = elim (scan fuel m size mm_free mm_free) [
  | none ↦ none
  | some found ↦ some (finish m mm_used size found)
]

unfoldable pub free : Mem → (mm_free entry : ℕ) → Mem
free m mm_free entry = add_mm_list_entry (remove_mm_list_entry m entry) mm_free entry
