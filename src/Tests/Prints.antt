-- ===== src/Tests/Prints.antt =====
-- What the functions of mem.c print, at concrete memories.
use d.Base.{[]}
use d.Kernel.Show.Prints.{Prints}
use d.Memory.{Mem, store32}
use d.Term.{Screen}
use d.Tests.Small.{start}

abbrev screen : Screen
screen = record {
  width = 3;
  height = 2;
  color = 7;
  xpos = 0;
  ypos = 0;
  buffer = 9000;
  mem = start;
  log = [];
}

-- The free list with one page behind its head.
abbrev two_pages : Mem
two_pages = store32 start 604 6000

abbrev listed : Screen
listed = record screen { mem = two_pages }
