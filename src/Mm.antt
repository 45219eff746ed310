-- ===== src/Mm.antt =====
-- mem.c: block operations, the fixed stacks of `init_mm` and the page lists of `malloc`.
pub mod Copy
pub mod Stack
pub mod Pages
pub mod Malloc
pub mod Init
