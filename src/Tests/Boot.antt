-- ===== src/Tests/Boot.antt =====
-- `init_mm` on a map of two entries.
use d.Tests.Data.{empty}
use d.Base.{[], arith, refl, ◌∷◌}
use d.Kernel.{Globals}
use d.Memory.{Mem, load32, load8, store32, store8}
use d.Mm.Init.{
  addr_at, len_at, init_mm, mem_lower_at, mem_upper_at, mmap_addr_at, mmap_length_at, type_at,
}
use d.Base.{done, ◌%◌, ◌^◌, ◌+◌, ◌≡◌}
use d.Mm.Init.Lists.{AreLists, Spares, test_page, IsRoomy}
use d.Mm.Init.Whole.{init_mm_lem, IsHanded}
use d.Mm.Init.Map.{IsSeparate}

-- The kernel's data as its linker places them.
abbrev pub globals : Globals
globals = record {
  fuel = 65;
  mm_free = 0x107160;
  mm_used = 0x107094;
  mb_free = 0x107000;
  used = 0x1070c0;
  task_que = 0x1079a8;
  itoa_buf = 0x108ee0;
  zero_text = 0x104307;
  digits_text = 0x1040d6;
}

-- A map from 0x10040 to 0x10070, of which the first entry is the available memory of a
-- machine of 128 MB from 1 MB on.
abbrev pub two_entries : Mem
two_entries =
    let m = store32 (store32 empty (mmap_addr_at 0x10000) 0x10040) (mmap_length_at 0x10000) 48 in
    let m' = store32 (store32 m (addr_at 0x10040) 1048576) (len_at 0x10040) 0x7ee0000 in
    store32 (store32 (store32 (store32 m' 0x10040 20) (type_at 0x10040) 1) 0x10058 20)
      (type_at 0x10058) 2

pub separate : IsSeparate globals 0x10000 0x10ce00 0x10040 0x10070
separate = record {
  stacks = omega arith;
  free_var = omega arith;
  used_var = omega arith;
  free_mbd = omega arith;
  used_mbd = omega arith;
  var_mbd = omega arith;
  free_map = omega arith;
  used_map = omega arith;
  var_map = omega arith;
}

handed :
    IsHanded globals 0x10000 0x10ce00 0x10040 0x10070 separate
      (omega arith)
      two_entries
      (0x10040 ∷ 0x10058 ∷ [])
unfolding load32 load8 store32 store8
handed = record {
  map = (refl, omega arith, omega arith, (refl, omega arith, omega arith, refl));
  from = omega arith;
  ends = refl;
  few = omega arith;
  fuel_left = omega arith;
}

roomy : IsRoomy globals 1048576 0x7ee0000
roomy = record {
  room = omega arith;
  no_wrap = omega arith;
  heads = omega arith;
  free_fits = omega arith;
  used_fits = omega arith;
  free_up = omega arith;
  used_up = omega arith;
  free_off = omega arith;
  used_off = omega arith;
  fuel_left = omega arith;
}

init_mm_lem_example :
    (m' : Mem) × (init_mm globals 0x10000 0x10ce00 two_entries
      ≡ done (
        m',
        record {
          mem_size =
              (load32 two_entries (mem_lower_at 0x10000)
                + load32 two_entries (mem_upper_at 0x10000)
                + 1024)
              % 2 ^ 32;
          bottom = 1048576;
          top = 1048576 + 4096;
        },
      ))
    × AreLists globals 0x7ee0000 m' (test_page 1048576 0x7ee0000)
    × Spares globals 0x10ce00 (test_page 1048576 0x7ee0000) two_entries m'
unfolding load32 load8 store32 store8
init_mm_lem_example =
    init_mm_lem globals 0x10000 0x10ce00 0x10040 0x10070 separate (omega arith) two_entries
      (0x10040 ∷ 0x10058 ∷ []) [] 0x10040 1048576 0x7ee0000 handed refl (omega arith) (omega arith)
      (omega arith) (omega arith) refl refl roomy
