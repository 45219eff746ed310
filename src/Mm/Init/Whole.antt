-- ===== src/Mm/Init/Whole.antt =====
-- `init_mm` from the boot loader's record to the lists.
use mathlib.Core.Path.{subst}
use d.Base.{
  List, [], ap, arith, done, length, ℕ, ◌%◌, ◌++◌, ◌+◌, ◌-◌, ◌<◌, ◌^◌, ◌∙◌, ◌∷◌, ◌≡◌, ◌≤◌,
  length-append, sym,
}
use d.Kernel.{Globals}
use d.Memory.{Mem, load32, store32}
use d.Memory.Laws.{Apart, load32-store32_ne, load32-store32_self}
use d.Mm.Init.{
  init_mm, mm_heap_size, last_free, load64, addr_at, len_at, mem_lower_at, mem_upper_at,
  mmap_addr_at, mmap_length_at,
}
use d.Mm.Init.Lists.{AreLists, IsRoomy, Spares, set_up_lem, test_page}
use d.Mm.Init.Map.{IsMap, IsMap-frame, IsSeparate, available, parts-frame}
use d.Mm.Init.Stacks.{Holds, IsStack, sizeof_stack}
use d.Mm.Init.Walk.{IsReady, map_loop-Splits}
use d.Mm.Stack.{init_stack, slot, top_at}

pub load64-frame :
    (m m' : Mem) (a : ℕ)
    → load32 m' a ≡ load32 m a
    → load32 m' (a + 4) ≡ load32 m (a + 4)
    → load64 m' a ≡ load64 m a
load64-frame m m' a lo hi = omega (arith, lo, hi)

-- The last word of those that the slots hold.
Holds-last :
    (m : Mem) (s i x : ℕ) (xs : List ℕ)
    → Holds m s i (xs ++ (x ∷ []))
    → load32 m (slot s (i + length xs)) ≡ x
Holds-last m s i x [] h = ap (λ (k : ℕ). load32 m (slot s k)) (omega arith) ∙ h.0
Holds-last m s i x (y ∷ xs) h =
    ap (λ (k : ℕ). load32 m (slot s k)) (omega arith) ∙ Holds-last m s (i + 1) x xs h.1

last_free_lem :
    (g : Globals) (m : Mem) (xs : List ℕ) (x : ℕ)
    → IsStack m g.mb_free (xs ++ (x ∷ []))
    → length xs < 32
    → g.mb_free + sizeof_stack ≤ 2 ^ 32
    → x < 2 ^ 32
    → last_free g m ≡ x
unfolding last_free
last_free_lem g m xs x on room below small =
    let top : load32 m (top_at g.mb_free) ≡ length xs + 1 =
      omega (arith, on.0, length-append xs (x ∷ [])) in
    let at : slot g.mb_free ((load32 m (top_at g.mb_free) + 2 ^ 32 - 1) % 2 ^ 32) % 2 ^ 32
        ≡ slot g.mb_free (0 + length xs) =
      omega (arith, top) in
    rw at (Holds-last m g.mb_free 0 x xs on.1)

module _ (g : Globals) (mbd var base end : ℕ) (sep : IsSeparate g mbd var base end)
    (fits : end < 2 ^ 32) (m : Mem) where
  -- The memory in which the walk starts: both stacks are empty.
  abbrev emptied : Mem
  emptied = store32 (store32 m (top_at g.mb_free) 0) (top_at g.used) 0

  emptied_frame :
      (w : ℕ)
      → Apart g.mb_free sizeof_stack w 4
      → Apart g.used sizeof_stack w 4
      → load32 emptied w ≡ load32 m w
  emptied_frame w a b =
      load32-store32_ne (store32 m (top_at g.mb_free) 0) (top_at g.used) 0 w (omega arith)
      ∙ load32-store32_ne m (top_at g.mb_free) 0 w (omega arith)

  in_map : (w : ℕ) → base ≤ w → w + 4 ≤ end → load32 emptied w ≡ load32 m w
  in_map w lo hi = emptied_frame w (omega (arith, sep.free_map)) (omega (arith, sep.used_map))

  in_record : (w : ℕ) → mbd ≤ w → w + 4 ≤ mbd + 52 → load32 emptied w ≡ load32 m w
  in_record w lo hi = emptied_frame w (omega (arith, sep.free_mbd)) (omega (arith, sep.used_mbd))

  -- What the boot loader handed over: a map of at most 32 entries from `base` to `end`.
  pub record IsHanded (es : List ℕ) : Type 0 where
    pub map : IsMap m (load32 m (mmap_addr_at mbd)) es end
    pub from : base ≤ load32 m (mmap_addr_at mbd)
    pub ends : load32 m (mmap_addr_at mbd) + load32 m (mmap_length_at mbd) ≡ end
    pub few : length es ≤ 32
    pub fuel_left : length es < g.fuel

  emptied-IsReady :
      (es : List ℕ)
      → IsHanded es
      → IsReady g mbd var base end sep fits emptied (load32 emptied (mmap_addr_at mbd)) es [] []
  emptied-IsReady es handed =
      let at = in_record (mmap_addr_at mbd) (omega arith) (omega arith) in
      let len = in_record (mmap_length_at mbd) (omega arith) (omega arith) in
      let stacks = sep.stacks in
      record {
        map =
            subst (λ (p : ℕ). IsMap emptied p es end) (sym at)
              (IsMap-frame m emptied base end in_map (load32 m (mmap_addr_at mbd)) es handed.from
                handed.map);
        from = omega (arith, at, handed.from);
        ends = omega (arith, at, len, handed.ends);
        frees = (
          load32-store32_ne (store32 m (top_at g.mb_free) 0) (top_at g.used) 0 (top_at g.mb_free)
                (omega (arith, stacks))
              ∙ load32-store32_self m (top_at g.mb_free) 0,
          tt,
        );
        useds = (load32-store32_self (store32 m (top_at g.mb_free) 0) (top_at g.used) 0, tt);
        free_room = omega (arith, handed.few);
        used_room = omega (arith, handed.few);
      }

  -- Let the boot loader hand over a map of at most 32 entries, apart from the stacks and the variable
  -- of the walk, whose last entry of available memory is `e`, a region that does not wrap around, with
  -- room for the bookkeeping and the test page; the two list heads and that page's record share no
  -- byte, and there is fuel for the map. Then `init_mm` returns, with the heap's bounds from that entry,
  -- the sum of the two sizes in the boot loader's record, and the lists set up; the word at address 0
  -- is overwritten, and every word apart from it, the stacks, the variable, the list heads and the
  -- test page's record stays.
  pub init_mm_lem :
      (es ys : List ℕ) (e bottom len : ℕ)
      → IsHanded es
      → available m es ≡ ys ++ (e ∷ [])
      → base ≤ e
      → e + 24 ≤ end
      → length ys < 32
      → g.mb_free + sizeof_stack ≤ 2 ^ 32
      → load64 m (addr_at e) ≡ bottom
      → load64 m (len_at e) ≡ len
      → IsRoomy g bottom len
      → (m' : Mem) × (init_mm g mbd var m
          ≡ done (
            m',
            record {
              mem_size =
                  (load32 m (mem_lower_at mbd) + load32 m (mem_upper_at mbd) + 1024) % 2 ^ 32;
              bottom = bottom;
              top = bottom + mm_heap_size;
            },
          ))
        × AreLists g len m' (test_page bottom len)
        × Spares g var (test_page bottom len) m m'
  unfolding init_mm init_stack
  init_mm_lem es ys e bottom len handed last lo hi few below at size roomy =
      let ready = emptied-IsReady es handed in
      let p = load32 emptied (mmap_addr_at mbd) in
      let (m₂, walk, frees, useds, keeps) =
        map_loop-Splits g mbd var base end sep fits g.fuel emptied p es [] [] ready
          handed.fuel_left in
      let kept = λ (w : ℕ) (l : base ≤ w) (h : w + 4 ≤ end).
        keeps w (omega (arith, sep.free_map)) (omega (arith, sep.used_map))
          (omega (arith, sep.var_map))
        ∙ in_map w l h in
      let same : available emptied es ≡ ys ++ (e ∷ []) =
        (parts-frame m emptied base end in_map (load32 m (mmap_addr_at mbd)) es handed.from
          handed.map).0
        ∙ last in
      let region : last_free g m₂ ≡ e =
        last_free_lem g m₂ ys e (subst (λ (xs : List ℕ). IsStack m₂ g.mb_free xs) same frees) few
          below (omega arith) in
      let at' : load64 m₂ (addr_at (last_free g m₂)) ≡ bottom =
        ap (λ (x : ℕ). load64 m₂ (addr_at x)) region
        ∙ load64-frame m m₂ (addr_at e) (kept (addr_at e) (omega arith) (omega arith))
            (kept (addr_at e + 4) (omega arith) (omega arith))
        ∙ at in
      let size' : load64 m₂ (len_at (last_free g m₂)) ≡ len =
        ap (λ (x : ℕ). load64 m₂ (len_at x)) region
        ∙ load64-frame m m₂ (len_at e) (kept (len_at e) (omega arith) (omega arith))
            (kept (len_at e + 4) (omega arith) (omega arith))
        ∙ size in
      let total : (load32 emptied (mem_lower_at mbd) + load32 emptied (mem_upper_at mbd) + 1024)
            % 2 ^ 32
          ≡ (load32 m (mem_lower_at mbd) + load32 m (mem_upper_at mbd) + 1024) % 2 ^ 32 =
        omega (
          arith,
          in_record (mem_lower_at mbd) (omega arith) (omega arith),
          in_record (mem_upper_at mbd) (omega arith) (omega arith),
        ) in
      let (m', run, lists, kept') =
        set_up_lem g m₂ bottom len roomy
          ((load32 m (mem_lower_at mbd) + load32 m (mem_upper_at mbd) + 1024) % 2 ^ 32) at' size' in
      (
        m',
        rw (walk, init_mm) (rw total run),
        lists,
        λ w a b c s. kept' w s ∙ keeps w a b c ∙ emptied_frame w a b,
      )
