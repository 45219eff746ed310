-- ===== src/Mm/Init.antt =====
-- `init_mm` of mem.c, `malloc_raw`, and `malloc` where its caller goes on.
pub mod Walk
pub mod Whole
pub mod Lists
pub mod Map
pub mod Stacks
use d.Base.{
  Run, done, if◌then◌else◌, ltb, none, some, spins, suc, zero, ℕ, ◌%◌, ◌*◌, ◌+◌, ◌-◌, ◌==◌, ◌>>=◌,
  ◌^◌,
}
use d.Kernel.{Globals}
use d.Memory.{Mem, load32, store32}
use d.Mm.Malloc.{allocated, free, malloc, panic}
use d.Mm.Pages.{address_at, next_at, prev_at, size_at}
use d.Mm.Stack.{init_stack, slot, stack_push, top_at}

-- The fields of a `multiboot_info_t`, and of a `multiboot_memory_map_t`, which is packed.
abbrev pub mem_lower_at : ℕ → ℕ
mem_lower_at mbd = mbd + 4

abbrev pub mem_upper_at : ℕ → ℕ
mem_upper_at mbd = mbd + 8

abbrev pub mmap_length_at : ℕ → ℕ
mmap_length_at mbd = mbd + 44

abbrev pub mmap_addr_at : ℕ → ℕ
mmap_addr_at mbd = mbd + 48

abbrev pub addr_at : ℕ → ℕ
addr_at mmap = mmap + 4

abbrev pub len_at : ℕ → ℕ
len_at mmap = mmap + 12

abbrev pub type_at : ℕ → ℕ
type_at mmap = mmap + 20

-- A `uint64_t`.
abbrev pub load64 : Mem → ℕ → ℕ
load64 m a = load32 m a + 2 ^ 32 * load32 m (a + 4)

-- `mm_heap_size`, 256 records of `mp_t`.
abbrev pub mm_heap_size : ℕ
mm_heap_size = 16 * 256

-- `mem_size`, `mm_heap_bottom` and `mm_heap_top`.
pub record Heap : Type 0 where
  pub mem_size : ℕ
  pub bottom : ℕ
  pub top : ℕ

module _ (g : Globals) where
  -- A panic does not return.
  unfoldable pub malloc_page : Mem → (size : ℕ) → Run (Mem × ℕ)
  malloc_page m size = elim (malloc g.fuel m g.mm_free g.mm_used size) [
    | none ↦ spins
    | some (allocated m' page) ↦ done (m', page)
    | some panic ↦ spins
  ]

  unfoldable pub malloc_raw : Mem → (size : ℕ) → Run (Mem × ℕ)
  unfolding malloc_page
  malloc_raw m size = malloc_page m size >>= λ r. done (r.0, load32 r.0 (address_at r.1))

  -- The walk along the memory map. `mmap_var` is where the variable `mmap` stands, whose address is
  -- handed to `stack_push`.
  unfoldable pub map_loop : (fuel : ℕ) (mbd mmap_var : ℕ) → Mem → (mmap : ℕ) → Run Mem
  map_loop zero mbd mmap_var m mmap = spins
  map_loop (suc fuel) mbd mmap_var m mmap =
      let end = (load32 m (mmap_addr_at mbd) + load32 m (mmap_length_at mbd)) % 2 ^ 32 in
      let stack = if load32 m (type_at mmap) == 1 then g.mb_free else g.used in
      let m' = stack_push (store32 m mmap_var mmap) stack mmap_var in
      let rest = map_loop fuel mbd mmap_var m' ((mmap + load32 m' mmap + 4) % 2 ^ 32) in
      if ltb mmap end then rest else done m

  -- The first entries of the two lists, on the memory behind the bookkeeping's.
  unfoldable pub set_lists : Mem → (bottom len : ℕ) → Mem
  set_lists m bottom len =
      let m₁ = store32 (store32 m (next_at g.mm_free) 0) (prev_at g.mm_free) 0 in
      let m₂ = store32 m₁ (address_at g.mm_free) ((bottom + mm_heap_size) % 2 ^ 32) in
      let m₃ = store32 m₂ (size_at g.mm_free) ((len - mm_heap_size) % 2 ^ 32) in
      let m₄ = store32 (store32 m₃ (next_at g.mm_used) 0) (prev_at g.mm_used) 0 in
      store32 (store32 m₄ (address_at g.mm_used) (bottom % 2 ^ 32)) (size_at g.mm_used) mm_heap_size

  -- `mb_free.data[mb_free.top - 1]`, the last free region.
  unfoldable pub last_free : Mem → ℕ
  last_free m =
      load32 m (slot g.mb_free ((load32 m (top_at g.mb_free) + 2 ^ 32 - 1) % 2 ^ 32) % 2 ^ 32)

  -- What follows the walk. With too little memory the kernel panics.
  unfoldable pub set_up : (mem_size : ℕ) → Mem → Run (Mem × Heap)
  unfolding malloc_page
  set_up mem_size m =
      let free_top = last_free m in
      let bottom = load64 m (addr_at free_top) in
      let len = load64 m (len_at free_top) in
      let heap : Heap = record {
        mem_size = mem_size;
        bottom = bottom;
        top = (bottom + mm_heap_size) % 2 ^ 64;
      } in
      let tried =
        malloc_page (set_lists m bottom len) 1024 >>= λ r. done (free r.0 g.mm_free r.1, heap) in
      if ltb mm_heap_size len then tried else spins

  unfoldable pub init_mm : (mbd mmap_var : ℕ) → Mem → Run (Mem × Heap)
  unfolding map_loop set_up
  init_mm mbd mmap_var m =
      let m₁ = init_stack (init_stack m g.mb_free) g.used in
      let total = (load32 m₁ (mem_lower_at mbd) + load32 m₁ (mem_upper_at mbd) + 1024) % 2 ^ 32 in
      map_loop g.fuel mbd mmap_var m₁ (load32 m₁ (mmap_addr_at mbd)) >>= λ m₂. set_up total m₂
