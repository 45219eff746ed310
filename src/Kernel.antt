-- ===== src/Kernel.antt =====
-- What the parts of the kernel share: the addresses of the objects that the C code defines, and the
-- calls that print and that stop.
pub mod Show
pub mod Main
pub mod Vmm
pub mod Shell
pub mod Floppy
pub mod Numbers
pub mod Boot
pub mod Interrupts
use d.Base.{List, Run, codes, done, none, some, spins, suc, zero, ℕ}
use d.Str.{itoa}
use d.Term.{
  color_light_grey, color_red, Screen, make_color, term_setcolor, term_writestring, write_text,
}

-- Where the linker puts the static objects: the list heads, the two stacks and the sizes of the memory
-- manager, the task queue, the buffer and the literals of `itoa`. `fuel` bounds the loops over texts and
-- lists.
pub record Globals : Type 0 where
  pub fuel : ℕ
  pub mm_free : ℕ
  pub mm_used : ℕ
  pub mb_free : ℕ
  pub used : ℕ
  pub task_que : ℕ
  pub itoa_buf : ℕ
  pub zero_text : ℕ
  pub digits_text : ℕ

-- `term_writestring` of the text at an address: with no terminator within the fuel it spins.
unfoldable pub write_string : (fuel at : ℕ) → Screen → Run Screen
write_string fuel at s = elim (term_writestring fuel at s) [ none ↦ spins | some t ↦ done t ]

-- `term_writestring(term, itoa(val, base))`.
unfoldable pub write_number : Globals → (val base : ℕ) → Screen → Run Screen
unfolding write_string
write_number g val base s =
    let (m, text) = itoa g.itoa_buf g.zero_text g.digits_text s.mem val base in
    write_string g.fuel text (record s { mem = m })

-- What `kernel_panic` shows before its endless loop.
unfoldable pub panic_screen : (message : List ℕ) → Screen → Screen
panic_screen message s = write_text message (
    write_text (codes "\n**KERNEL PANIC**:\n     ")
      (term_setcolor (make_color color_light_grey color_red) s))

-- `while(1){}`: no fuel is enough.
unfoldable pub forever : (fuel : ℕ) → Screen → Run Screen
forever zero s = spins
forever (suc fuel) s = forever fuel s

unfoldable pub kernel_panic : (fuel : ℕ) (message : List ℕ) → Screen → Run Screen
unfolding panic_screen forever
kernel_panic fuel message s = forever fuel (panic_screen message s)
