-- ===== src/Tests/Machines.antt =====
-- The stacks, the page lists and the virtual machine at concrete inputs.
use d.Base.{◌∷◌, ◌↔◌, [], arith, refl, some, ℕ, ◌%◌, ◌+◌, ◌<◌, ◌^◌, ◌↔◌, ◌≡◌, ◌≤◌}
use d.Memory.{Mem, load8, load32, store16, store8, store32}
use d.Mm.Stack.{stack_push, stack_pop}
use d.Mm.Stack.Laws.{pop-push}
use d.Mm.Pages.{
  add_mm_list_entry, remove_mm_list_entry, next_at, prev_at, size_at, address_at, sizeof_mp,
}
use d.Mm.Pages.Dropped.{remove-add-add}
use d.Mm.Malloc.{fits, malloc, carve, allocated}
use d.Mm.Malloc.Carve.{carve_lem, Fits, record_of}
use d.Mm.Malloc.Overlap.{malloc-malloc}
use d.Mm.Malloc.Wrapped.{malloc-wrapped}
use d.Mm.Malloc.Choice.{chosen, first_fitting, malloc-chosen}
use d.Memory.Laws.{Apart}
use d.Tests.Data.{empty}

-- A stack at 0 with two entries, and the word to push at 200.
abbrev stacked : Mem
stacked = store8 (store8 (store8 empty 128 2) 200 7) 12 9

pop-push_example :
    let m' = stack_push stacked 0 200 in
    let (m'', popped) = stack_pop m' 0 in (load32 m' 8 ≡ 7) × (load32 m'' 128 ≡ 2) × (popped ≡ 9)
unfolding load8 load32 store8
pop-push_example = pop-push stacked 0 200 (omega arith)

-- The head of a list at 16, and two entries at 32 and 64.
remove-add-add_example :
    let two = add_mm_list_entry (add_mm_list_entry empty 16 32) 16 64 in
    let m' = remove_mm_list_entry two 32 in
    (load32 two (next_at 16) ≡ 64)
    × (load32 two (next_at 64) ≡ 32)
    × (load32 m' (next_at 16) ≡ load32 empty (next_at 16))
    × (load32 m' (next_at 64) ≡ 32)
unfolding load8 load32
remove-add-add_example =
    remove-add-add empty 16 32 64 (omega arith) (omega arith) (omega arith) (omega arith)
      (omega arith) (omega arith) (omega arith) (omega arith) (omega arith)

-- A page of 1024 bytes at 4096 in the free list at 16; the used list is at 32.
abbrev paged : Mem
paged = store8 (store8 empty 25 16) 29 4

paged-Fits : Fits paged 32 100 16
unfolding load8 load32 store8
paged-Fits = record {
  room = omega arith;
  no_wrap = omega arith;
  used_fits = omega arith;
  heads = omega arith;
  off_big = omega arith;
  off_used = omega arith;
}

carve_lem_example :
    let (m', temp) = carve paged 32 100 16 in
    (temp ≡ record_of paged 100 16)
    × (load32 m' (size_at 16) + 100 + sizeof_mp ≡ load32 paged (size_at 16))
    × (load32 m' (size_at temp) ≡ 100)
    × (load32 m' (address_at temp) ≡ (temp + 256) % 2 ^ 32)
    × (load32 m' (next_at 32) ≡ temp)
    × (load32 m' (prev_at temp) ≡ 32)
    × (load32 m' (next_at temp) ≡ load32 paged (next_at 32))
carve_lem_example = carve_lem paged 32 100 16 paged-Fits

malloc-malloc_example :
    (m₁ m₂ : Mem) × (p₁ p₂ : ℕ) × (malloc 1 paged 16 32 100 ≡ some (allocated m₁ p₁))
    × (malloc 1 m₁ 16 32 300 ≡ some (allocated m₂ p₂))
    × (Apart (load32 m₂ (address_at p₂)) (load32 m₂ (size_at p₂)) p₁ sizeof_mp ↔ (300 ≤ 224))
unfolding load8 load32 store8
malloc-malloc_example =
    malloc-malloc paged 16 32 100 300 refl (omega arith) (omega arith) (omega arith) (omega arith)
      (omega arith) (omega arith) 0

-- A head and the pages of 500 and 100 bytes before the last one.
abbrev three_pages : Mem
three_pages =
    store32
      (store32 (store32 (store32 (store32 empty (next_at 16) 48) (next_at 48) 80) (next_at 80) 112)
        (size_at 48) 500)
      (size_at 80) 100

malloc-chosen_example :
    malloc 4 three_pages 16 200 90 ≡ some (chosen three_pages 16 200 90 (16 ∷ 48 ∷ 80 ∷ []))
unfolding load8 load32 store8 store32
malloc-chosen_example =
    malloc-chosen three_pages 90 16 200 4 (16 ∷ 48 ∷ 80 ∷ [])
      (refl, omega arith, (refl, omega arith, (refl, omega arith, refl))) (omega arith)

-- The page of 100 bytes is the first that fits.
chosen_run : first_fitting three_pages 90 (16 ∷ 48 ∷ 80 ∷ []) ≡ some 80
unfolding fits load8 load32 store8 store32
chosen_run = refl

-- A request for all of the page.
malloc-wrapped_example :
    (m' : Mem) × (temp : ℕ) × (malloc 1 paged 16 32 1024 ≡ some (allocated m' temp))
    × (temp < load32 paged (address_at 16))
    × (load32 m' (size_at 16) + (1024 + sizeof_mp) ≡ load32 paged (size_at 16) + 2 ^ 32)
    × (load32 paged (size_at 16) < load32 m' (size_at 16))
unfolding load8 load32 store8
malloc-wrapped_example =
    malloc-wrapped paged 16 32 1024 refl (omega arith) (omega arith) (omega arith) (omega arith)
      (omega arith) (omega arith) 0

-- A machine at 0 whose heap's page record is at 64 and whose heap is at 256; its register AX is
-- 0x1234, `sp` is 4, and an instruction at 100 pops into AX.
abbrev machine : Mem
machine = store16 (store8 (store8 (store8 (store8 empty 28 64) 73 1) 22 4) 102 1) 12 0x1234
