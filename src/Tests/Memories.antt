-- ===== src/Tests/Memories.antt =====
-- mem.c at concrete inputs.
use d.Base.{◌≡◌}
use d.Memory.{load8}
use d.Mm.Copy.{mem_cpy, mem_set}
use d.Mm.Copy.Laws.{mem_cpy_lem, mem_set_lem}
use d.Tests.Data.{texts}

-- An overlapping move, upwards by one.
mem_cpy_lem_example : load8 (mem_cpy texts 2 1 3) 4 ≡ b'c'
unfolding load8
mem_cpy_lem_example = mem_cpy_lem texts 2 1 3 4

mem_set_lem_example : load8 (mem_set texts 1 0x141 3) 3 ≡ 0x41
unfolding load8
mem_set_lem_example = mem_set_lem texts 1 0x141 3 3
