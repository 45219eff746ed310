-- ===== src/Kernel/Boot/Memory.antt =====
-- `init_mm` where `cmain` calls it: with the screen already written to.
use mathlib.Core.Path.{subst}
use d.Base.{
  List, [], arith, done, length, sym, ℕ, ◌%◌, ◌++◌, ◌+◌, ◌<◌, ◌^◌, ◌∙◌, ◌∷◌, ◌≡◌, ◌≤◌, ◌⊎◌,
}
use d.Kernel.{Globals}
use d.Kernel.Boot.{IsUp, vga, vga_size}
use d.Memory.{Mem, load32, load8}
use d.Memory.Laws.{Apart}
use d.Memory.Words.{bytes-same, word-same}
use d.Mm.Init.{
  Heap, addr_at, init_mm, len_at, load64, mem_lower_at, mem_upper_at, mm_heap_size, mmap_addr_at,
  mmap_length_at,
}
use d.Mm.Init.Lists.{IsRoomy, Spares, test_page}
use d.Mm.Init.Map.{IsMap, IsMap-frame, IsSeparate, available, parts-frame}
use d.Mm.Init.Stacks.{sizeof_stack}
use d.Mm.Init.Whole.{IsHanded, init_mm_lem, load64-frame}
use d.Mm.Pages.{sizeof_mp}
use d.Term.{Screen}

-- The range of `n` bytes is no part of the screen and of what `init_mm` writes, when its test page has
-- its record at `page`.
pub record IsStill (g : Globals) (var page at n : ℕ) : Type 0 where
  pub screen : Apart vga vga_size at n
  pub high : 4 ≤ at
  pub free_stack : Apart g.mb_free sizeof_stack at n
  pub used_stack : Apart g.used sizeof_stack at n
  pub variable : Apart var 4 at n
  pub free_head : Apart g.mm_free sizeof_mp at n
  pub used_head : Apart g.mm_used sizeof_mp at n
  pub test : Apart page sizeof_mp at n

-- The boot loader handed over a map from `base` to `end` with the entries `es`, of which `e` is the last
-- one of available memory, `len` bytes at `bottom`; neither the map nor the record is in the screen.
pub record IsLoaded (g : Globals) (mbd var base end : ℕ) (sep : IsSeparate g mbd var base end)
    (fits : end < 2 ^ 32) (m : Mem) (es ys : List ℕ) (e bottom len : ℕ) : Type 0 where
  pub handed : IsHanded g mbd var base end sep fits m es
  pub last : available m es ≡ ys ++ (e ∷ [])
  pub from : base ≤ e
  pub to : e + 24 ≤ end
  pub few : length ys < 32
  pub below : g.mb_free + sizeof_stack ≤ 2 ^ 32
  pub at : load64 m (addr_at e) ≡ bottom
  pub size : load64 m (len_at e) ≡ len
  pub roomy : IsRoomy g bottom len
  pub map_off : (vga + vga_size ≤ base) ⊎ (end ≤ vga)
  pub record_off : Apart vga vga_size mbd 52

-- The heap that `init_mm` announces.
abbrev pub heap_of : Mem → (mbd bottom : ℕ) → Heap
heap_of m mbd bottom = record {
  mem_size = (load32 m (mem_lower_at mbd) + load32 m (mem_upper_at mbd) + 1024) % 2 ^ 32;
  bottom = bottom;
  top = bottom + mm_heap_size;
}

module _ (g : Globals) (mbd var base end : ℕ) (sep : IsSeparate g mbd var base end)
    (fits : end < 2 ^ 32) (m : Mem) (es ys : List ℕ) (e bottom len : ℕ)
    (loaded : IsLoaded g mbd var base end sep fits m es ys e bottom len) (s : Screen)
    (up : IsUp m s) where
  off_screen : (w : ℕ) → Apart vga vga_size w 4 → load32 s.mem w ≡ load32 m w
  off_screen w o = word-same m s.mem w (λ a lo hi. up.same a (omega arith))

  in_map : (w : ℕ) → base ≤ w → w + 4 ≤ end → load32 s.mem w ≡ load32 m w
  in_map w lo hi = off_screen w (omega (arith, loaded.map_off))

  in_record : (w : ℕ) → mbd ≤ w → w + 4 ≤ mbd + 52 → load32 s.mem w ≡ load32 m w
  in_record w lo hi = off_screen w (omega (arith, loaded.record_off))

  shown-IsHanded : IsHanded g mbd var base end sep fits s.mem es
  shown-IsHanded =
      let handed = loaded.handed in
      let at = in_record (mmap_addr_at mbd) (omega arith) (omega arith) in
      let size = in_record (mmap_length_at mbd) (omega arith) (omega arith) in
      record {
        map =
            subst (λ (p : ℕ). IsMap s.mem p es end) (sym at)
              (IsMap-frame m s.mem base end in_map (load32 m (mmap_addr_at mbd)) es handed.from
                handed.map);
        from = omega (arith, at, handed.from);
        ends = omega (arith, at, size, handed.ends);
        few = handed.few;
        fuel_left = handed.fuel_left;
      }

  -- `init_mm` returns with the heap that the record in `m` stands for, and keeps what is still.
  pub init_mm-IsUp :
      (m' : Mem) × (init_mm g mbd var s.mem ≡ done (m', heap_of m mbd bottom))
      × Spares g var (test_page bottom len) s.mem m'
  init_mm-IsUp =
      let last : available s.mem es ≡ ys ++ (e ∷ []) =
        (parts-frame m s.mem base end in_map (load32 m (mmap_addr_at mbd)) es loaded.handed.from
          loaded.handed.map).0
        ∙ loaded.last in
      let at =
        load64-frame m s.mem (addr_at e)
          (in_map (addr_at e) (omega (arith, loaded.from)) (omega (arith, loaded.to)))
          (in_map (addr_at e + 4) (omega (arith, loaded.from)) (omega (arith, loaded.to)))
        ∙ loaded.at in
      let size =
        load64-frame m s.mem (len_at e)
          (in_map (len_at e) (omega (arith, loaded.from)) (omega (arith, loaded.to)))
          (in_map (len_at e + 4) (omega (arith, loaded.from)) (omega (arith, loaded.to)))
        ∙ loaded.size in
      let (m', run, lists, spares) =
        init_mm_lem g mbd var base end sep fits s.mem es ys e bottom len shown-IsHanded last
          loaded.from loaded.to loaded.few loaded.below at size loaded.roomy in
      let lower = in_record (mem_lower_at mbd) (omega arith) (omega arith) in
      let upper = in_record (mem_upper_at mbd) (omega arith) (omega arith) in
      (m', rw (sym lower, sym upper) run, spares)

  -- The bytes of a range that is still.
  pub still_bytes :
      (m' : Mem) (at n : ℕ)
      → Spares g var (test_page bottom len) s.mem m'
      → IsStill g var (test_page bottom len) at n
      → 4 ≤ n
      → (a : ℕ) → at ≤ a
      → a < at + n
      → load8 m' a ≡ load8 m a
  still_bytes m' at n spares still size a lo hi =
      bytes-same s.mem m' at n size
        (λ w l h.
          spares w (omega (arith, still.free_stack)) (omega (arith, still.used_stack))
            (omega (arith, still.variable))
            (record {
              high = omega (arith, still.high);
              free_off = omega (arith, still.free_head);
              used_off = omega (arith, still.used_head);
              page_off = omega (arith, still.test);
            }))
        a lo hi
      ∙ up.same a (omega (arith, still.screen))
