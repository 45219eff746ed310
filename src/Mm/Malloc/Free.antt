-- ===== src/Mm/Malloc/Free.antt =====
-- `free` of the page that was allocated last.
use d.Base.{arith, refl, ℕ, ◌<◌, ◌^◌, ◌∙◌, ◌≡◌}
use d.Memory.{Mem, load32}
use d.Memory.Laws.{Apart}
use d.Mm.Pages.{next_at, prev_at, remove_mm_list_entry, size_at}
use d.Mm.Pages.Links.{Distinct, add_frame, add_lem, remove_frame, remove_lem}
use d.Mm.Malloc.{free}

-- When `entry` stands first on the used list, `entry` and the head of the free list are 32-bit
-- addresses, and the records of `entry`, of both heads and of the next used entry share no byte
-- where it matters, `free` makes it the first of the free list, in front of the pages that were
-- there, with its size unchanged, and leaves the used list with the entries behind it.
pub free_lem :
    (m : Mem) (mm_free mm_used entry : ℕ)
    → load32 m (prev_at entry) ≡ mm_used
    → entry < 2 ^ 32
    → mm_free < 2 ^ 32
    → Distinct mm_used entry
    → Distinct mm_free entry
    → Distinct mm_free mm_used
    → Distinct (load32 m (next_at entry)) entry
    → Distinct mm_used (load32 m (next_at entry))
    → Distinct mm_free (load32 m (next_at entry))
    → let m' = free m mm_free entry in
      (load32 m' (next_at mm_used) ≡ load32 m (next_at entry))
      × (load32 m' (next_at mm_free) ≡ entry)
      × (load32 m' (prev_at entry) ≡ mm_free)
      × (load32 m' (next_at entry) ≡ load32 m (next_at mm_free))
      × (load32 m' (size_at entry) ≡ load32 m (size_at entry))
unfolding free
free_lem m mm_free mm_used entry first e f ue fe fu ne un fn =
    let next = load32 m (next_at entry) in
    let m₁ = remove_mm_list_entry m entry in
    let removed = remove_lem m entry mm_used next first refl ue ne un in
    let same =
      λ (b : ℕ) (h : Apart entry 8 b 4) (k : Apart (next_at mm_used) 4 b 4)
          (l : Apart (prev_at next) 4 b 4).
        remove_frame m entry mm_used next first refl ue ne un b h k l in
    let added = add_lem m₁ mm_free entry fe e f in
    let kept = λ (b : ℕ) (h : Apart entry 8 b 4) (k : Apart (next_at mm_free) 4 b 4).
      add_frame m₁ mm_free entry fe e f b h k in
    (
      kept (next_at mm_used) (omega arith) (omega arith) ∙ removed.0,
      added.0,
      added.1,
      added.2 ∙ same (next_at mm_free) (omega arith) (omega arith) (omega arith),
      kept (size_at entry) (omega arith) (omega arith)
          ∙ same (size_at entry) (omega arith) (omega arith) (omega arith),
    )
