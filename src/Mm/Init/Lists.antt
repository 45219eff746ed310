-- ===== src/Mm/Init/Lists.antt =====
-- The lists that `init_mm` leaves, behind the walk.
use mathlib.Core.Path.{subst}
use d.Base.{ap, arith, done, refl, true, ltb, ℕ, suc, some, ◌%◌, ◌+◌, ◌-◌, ◌<◌, ◌^◌, ◌∙◌, ◌≡◌, ◌≤◌}
use d.Kernel.{Globals}
use d.Memory.{Mem, load32, store32}
use d.Memory.Laws.{Apart, load32-store32_ne, load32-store32_self}
use d.Mm.Init.{malloc_page, mm_heap_size, set_lists, set_up, last_free, load64, addr_at, len_at}
use d.Mm.Init.Stacks.{sizeof_stack}
use d.Mm.Malloc.{allocated, carve, free, malloc}
use d.Mm.Malloc.Carve.{Fits, carve_frame, carve_lem}
use d.Mm.Malloc.Overlap.{malloc_single}
use d.Mm.Pages.{address_at, next_at, prev_at, size_at, sizeof_mp, remove_mm_list_entry}
use d.Mm.Pages.Links.{Distinct, add_frame, add_lem, remove_frame, remove_lem}

-- The page that is allocated for a test, and freed again.
abbrev pub test_page : (bottom len : ℕ) → ℕ
test_page bottom len = bottom + (len - (1024 + sizeof_mp))

-- The region at `bottom` of `len` bytes has room for the bookkeeping and the page of 1024 bytes with its
-- record and does not wrap around; the two list heads and the record of that page share no byte, and the
-- heads are addresses of 32 bits above the first 16 bytes.
pub record IsRoomy (g : Globals) (bottom len : ℕ) : Type 0 where
  pub room : mm_heap_size + 1024 + sizeof_mp ≤ len
  pub no_wrap : bottom + len < 2 ^ 32
  pub heads : Distinct g.mm_free g.mm_used
  pub free_fits : g.mm_free < 2 ^ 32
  pub used_fits : g.mm_used < 2 ^ 32
  pub free_up : sizeof_mp ≤ g.mm_free
  pub used_up : sizeof_mp ≤ g.mm_used
  pub free_off : Distinct g.mm_free (test_page bottom len)
  pub used_off : Distinct g.mm_used (test_page bottom len)
  pub fuel_left : 0 < g.fuel

-- The free list leads from its head, with what is left of the region, to the test page; the used list is
-- empty behind its head. Since the page was the last one of its list, its removal wrote the head's address
-- to address 0.
abbrev pub AreLists : Globals → (len : ℕ) → Mem → (page : ℕ) → Type 0
AreLists g len m page =
    (load32 m (next_at g.mm_free) ≡ page)
    × (load32 m (size_at g.mm_free) ≡ len - (mm_heap_size + 1024 + sizeof_mp))
    × (load32 m (next_at page) ≡ 0)
    × (load32 m (size_at page) ≡ 1024)
    × (load32 m (next_at g.mm_used) ≡ 0)
    × (load32 m 0 ≡ g.mm_used)

-- A word that shares no byte with the two list heads, the record of the test page and address 0.
pub record IsSpared (g : Globals) (page w : ℕ) : Type 0 where
  pub high : 4 ≤ w
  pub free_off : Apart g.mm_free sizeof_mp w 4
  pub used_off : Apart g.mm_used sizeof_mp w 4
  pub page_off : Apart page sizeof_mp w 4

-- The words that `init_mm` does not write: those that share no byte with any of that, nor with the two
-- stacks and the variable of the walk.
abbrev pub Spares : (g : Globals) (var page : ℕ) (m m' : Mem) → Type 0
Spares g var page m m' =
    (w : ℕ)
    → Apart g.mb_free sizeof_stack w 4
    → Apart g.used sizeof_stack w 4
    → Apart var 4 w 4
    → IsSpared g page w
    → load32 m' w ≡ load32 m w

module _ (g : Globals) (m : Mem) (bottom len : ℕ) (ok : IsRoomy g bottom len) where
  lists : Mem
  lists = set_lists g m bottom len

  lists_lem :
      (load32 lists (next_at g.mm_free) ≡ 0)
      × (load32 lists (address_at g.mm_free) ≡ bottom + mm_heap_size)
      × (load32 lists (size_at g.mm_free) ≡ len - mm_heap_size)
      × (load32 lists (next_at g.mm_used) ≡ 0)
      × (load32 lists (size_at g.mm_used) ≡ mm_heap_size)
  unfolding lists set_lists
  lists_lem =
      let f = g.mm_free in
      let u = g.mm_used in
      let heads = ok.heads in
      let m₀ = store32 m (next_at f) 0 in
      let m₁ = store32 m₀ (prev_at f) 0 in
      let m₂ = store32 m₁ (address_at f) ((bottom + mm_heap_size) % 2 ^ 32) in
      let m₃ = store32 m₂ (size_at f) ((len - mm_heap_size) % 2 ^ 32) in
      let m₄ = store32 m₃ (next_at u) 0 in
      let m₅ = store32 m₄ (prev_at u) 0 in
      let m₆ = store32 m₅ (address_at u) (bottom % 2 ^ 32) in
      let later = λ (b : ℕ) (h : Apart u 16 b 4).
        load32-store32_ne m₆ (size_at u) mm_heap_size b (omega arith)
        ∙ load32-store32_ne m₅ (address_at u) (bottom % 2 ^ 32) b (omega arith)
        ∙ load32-store32_ne m₄ (prev_at u) 0 b (omega arith)
        ∙ load32-store32_ne m₃ (next_at u) 0 b (omega arith) in
      (
        later (next_at f) (omega arith)
            ∙ load32-store32_ne m₂ (size_at f) _ (next_at f) (omega arith)
            ∙ load32-store32_ne m₁ (address_at f) _ (next_at f) (omega arith)
            ∙ load32-store32_ne m₀ (prev_at f) 0 (next_at f) (omega arith)
            ∙ load32-store32_self m (next_at f) 0,
        later (address_at f) (omega arith)
            ∙ load32-store32_ne m₂ (size_at f) _ (address_at f) (omega arith)
            ∙ load32-store32_self m₁ (address_at f) ((bottom + mm_heap_size) % 2 ^ 32)
            ∙ omega (arith, ok),
        later (size_at f) (omega arith)
            ∙ load32-store32_self m₂ (size_at f) ((len - mm_heap_size) % 2 ^ 32)
            ∙ omega (arith, ok),
        load32-store32_ne m₆ (size_at u) mm_heap_size (next_at u) (omega arith)
            ∙ load32-store32_ne m₅ (address_at u) (bottom % 2 ^ 32) (next_at u) (omega arith)
            ∙ load32-store32_ne m₄ (prev_at u) 0 (next_at u) (omega arith)
            ∙ load32-store32_self m₃ (next_at u) 0,
        load32-store32_self m₆ (size_at u) mm_heap_size ∙ omega arith,
      )

  lists-Fits : Fits lists g.mm_used 1024 g.mm_free
  lists-Fits = omega (arith, ok, lists_lem)

  cut : Mem
  cut = (carve lists g.mm_used 1024 g.mm_free).0

  page : ℕ
  page = (carve lists g.mm_used 1024 g.mm_free).1

  page_lem : page ≡ test_page bottom len
  unfolding page
  page_lem = (carve_lem lists g.mm_used 1024 g.mm_free lists-Fits).0 ∙ omega (arith, ok, lists_lem)

  tested : Mem
  tested = free cut g.mm_free page

  tested-AreLists : AreLists g len tested page
  unfolding tested free cut page
  tested-AreLists =
      let f = g.mm_free in
      let u = g.mm_used in
      let heads = ok.heads in
      let place = page_lem in
      let (next, address, size, used_next, used_size) = lists_lem in
      let made = carve_lem lists u 1024 f lists-Fits in
      let last : load32 cut (next_at page) ≡ 0 = made.6 ∙ used_next in
      let first : load32 cut (prev_at page) ≡ u = made.5 in
      let e : page < 2 ^ 32 = omega (arith, ok) in
      let ue : Distinct u page = omega (arith, ok) in
      let fe : Distinct f page = omega (arith, ok) in
      let ne : Distinct 0 page = omega (arith, ok) in
      let un : Distinct u 0 = omega (arith, ok) in
      let m₁ = remove_mm_list_entry cut page in
      let removed = remove_lem cut page u 0 first last ue ne un in
      let same = remove_frame cut page u 0 first last ue ne un in
      let added = add_lem m₁ f page fe e (omega (arith, ok)) in
      let kept = add_frame m₁ f page fe e (omega (arith, ok)) in
      (
        added.0,
        kept (size_at f) (omega (arith, ok)) (omega arith)
            ∙ same (size_at f) (omega (arith, ok)) (omega (arith, ok)) (omega (arith, ok))
            ∙ omega (arith, made.1, size, ok),
        added.2
            ∙ same (next_at f) (omega (arith, ok)) (omega (arith, ok)) (omega (arith, ok))
            ∙ carve_frame lists u 1024 f lists-Fits (next_at f) (omega (arith, ok, lists_lem))
                (omega arith) (omega (arith, ok))
            ∙ next,
        kept (size_at page) (omega arith) (omega (arith, ok))
            ∙ same (size_at page) (omega arith) (omega (arith, ok)) (omega (arith, ok))
            ∙ made.2,
        kept (next_at u) (omega (arith, ok)) (omega (arith, ok)) ∙ removed.0,
        kept 0 (omega (arith, ok)) (omega (arith, ok)) ∙ removed.1,
      )

  lists_frame :
      (w : ℕ)
      → Apart g.mm_free sizeof_mp w 4
      → Apart g.mm_used sizeof_mp w 4
      → load32 lists w ≡ load32 m w
  unfolding lists set_lists
  lists_frame w f u = grind (arith, load32-store32_ne)

  tested_frame : (w : ℕ) → IsSpared g (test_page bottom len) w → load32 tested w ≡ load32 m w
  unfolding tested free cut page
  tested_frame w s =
      let f = g.mm_free in
      let u = g.mm_used in
      let heads = ok.heads in
      let place = page_lem in
      let (next, address, size, used_next, used_size) = lists_lem in
      let made = carve_lem lists u 1024 f lists-Fits in
      let m₁ = remove_mm_list_entry cut page in
      add_frame m₁ f page (omega (arith, ok)) (omega (arith, ok)) (omega (arith, ok)) w
        (omega (arith, s)) (omega (arith, s))
      ∙ remove_frame cut page u 0 made.5 (made.6 ∙ used_next) (omega (arith, ok))
          (omega (arith, ok)) (omega (arith, ok)) w (omega (arith, s)) (omega (arith, s))
          (omega (arith, s))
      ∙ carve_frame lists u 1024 f lists-Fits w (omega (arith, ok, lists_lem, s)) (omega (arith, s))
          (omega (arith, s))
      ∙ lists_frame w (omega (arith, s)) (omega (arith, s))

  -- What follows the walk, from a memory in which the last free region has that place and length.
  pub set_up_lem :
      (mem_size : ℕ)
      → load64 m (addr_at (last_free g m)) ≡ bottom
      → load64 m (len_at (last_free g m)) ≡ len
      → (m' : Mem) × (set_up g mem_size m
          ≡ done (m', record { mem_size = mem_size; bottom = bottom; top = bottom + mm_heap_size }))
        × AreLists g len m' (test_page bottom len)
        × ((w : ℕ) → IsSpared g (test_page bottom len) w → load32 m' w ≡ load32 m w)
  unfolding set_up malloc_page tested cut page lists
  set_up_lem mem_size at size =
      let big : ltb mm_heap_size len ≡ true = ground (arith, ok) in
      let fuel : g.fuel ≡ suc (g.fuel - 1) = omega (arith, ok) in
      let found : malloc g.fuel lists g.mm_free g.mm_used 1024 ≡ some (allocated cut page) =
        ap (λ (n : ℕ). malloc n lists g.mm_free g.mm_used 1024) fuel
        ∙ malloc_single (g.fuel - 1) lists g.mm_free g.mm_used 1024 lists_lem.0 lists-Fits in
      let top : (bottom + mm_heap_size) % 2 ^ 64 ≡ bottom + mm_heap_size = omega (arith, ok) in
      (
        tested,
        rw (at, size, set_up) (rw big (rw (found, malloc_page) (rw top refl))),
        subst (λ (p : ℕ). AreLists g len tested p) page_lem tested-AreLists,
        tested_frame,
      )
