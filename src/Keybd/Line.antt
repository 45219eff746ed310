-- ===== src/Keybd/Line.antt =====
-- The line that `get_kbd` hands over.
use d.Base.{arith, false, refl, true, ℕ, ◌%◌, ◌+◌, ◌-◌, ◌<◌, ◌^◌, ◌∙◌, ◌≡◌, ◌≤◌}
use d.Memory.{Mem, load8, store8}
use d.Memory.Laws.{Apart, load8-store8, load8-store8_self}
use d.Mm.Copy.{mem_cpy, within}
use d.Mm.Copy.Laws.{mem_cpy_lem, mem_set_lem}
use d.Keybd.{Keyboard, clear_kb_buffer, take_line}
use d.Term.Bounds.{IsOnScreen}

at_offset :
    (m : Mem) (dst src size i : ℕ)
    → i < size
    → load8 (mem_cpy m dst src size) (dst + i) ≡ load8 m (src + i)
at_offset m dst src size i h =
    let inside : within dst size (dst + i) ≡ true = ground arith in
    let from : src + (dst + i - dst) ≡ src + i = omega arith in
    mem_cpy_lem m dst src size (dst + i) ∙ rw (inside, from)

-- After `take_line` of a line of `kb_i` keys, the last one the Enter key, into a destination apart from the
-- buffer: the destination holds the keys before the Enter key, and a zero byte at `kb_i`; but the byte
-- between them, at `kb_i - 1`, is what stood there before. The buffer and the line's state are clear.
pub take_line_lem :
    (kb_buffer dest : ℕ) (k : Keyboard)
    → 0 < k.kb_i
    → k.kb_i ≤ 255
    → Apart kb_buffer 256 dest 256
    → let k' = take_line kb_buffer dest k in
      ((i : ℕ)
        → i + 1 < k.kb_i
        → load8 k'.screen.mem (dest + i) ≡ load8 k.screen.mem (kb_buffer + i))
      × (load8 k'.screen.mem (dest + k.kb_i) ≡ 0)
      × (load8 k'.screen.mem (dest + (k.kb_i - 1)) ≡ load8 k.screen.mem (dest + (k.kb_i - 1)))
      × ((i : ℕ) → i < 255 → load8 k'.screen.mem (kb_buffer + i) ≡ 0)
      × (k'.kb_i ≡ 0)
      × (k'.kb_buffer_pending ≡ false)
unfolding take_line clear_kb_buffer
take_line_lem kb_buffer dest k lo hi apart =
    let size : (k.kb_i + 2 ^ 32 - 1) % 2 ^ 32 ≡ k.kb_i - 1 = omega arith in
    let m₁ = mem_cpy k.screen.mem dest kb_buffer (k.kb_i - 1) in
    let m₂ = store8 m₁ (dest + k.kb_i) 0 in
    rw size (
      (λ i h. ground (
        arith,
        mem_set_lem m₂ kb_buffer 0 255 (dest + i),
        load8-store8 m₁ (dest + k.kb_i) 0 (dest + i),
        at_offset k.screen.mem dest kb_buffer (k.kb_i - 1) i,
      )),
      ground (
        arith,
        mem_set_lem m₂ kb_buffer 0 255 (dest + k.kb_i),
        load8-store8_self m₁ (dest + k.kb_i) 0,
      ),
      ground (
        arith,
        mem_set_lem m₂ kb_buffer 0 255 (dest + (k.kb_i - 1)),
        load8-store8 m₁ (dest + k.kb_i) 0 (dest + (k.kb_i - 1)),
        mem_cpy_lem k.screen.mem dest kb_buffer (k.kb_i - 1) (dest + (k.kb_i - 1)),
      ),
      (λ i h. ground (arith, mem_set_lem m₂ kb_buffer 0 255 (kb_buffer + i))),
      refl,
      refl,
    )

-- What `take_line` leaves as it is.
pub take_line_frame :
    (kb_buffer dest : ℕ) (k : Keyboard)
    → 0 < k.kb_i
    → k.kb_i ≤ 255
    → (a : ℕ) → Apart kb_buffer 256 a 1
    → Apart dest 256 a 1
    → load8 (take_line kb_buffer dest k).screen.mem a ≡ load8 k.screen.mem a
unfolding take_line clear_kb_buffer
take_line_frame kb_buffer dest k lo hi a b d =
    let size : (k.kb_i + 2 ^ 32 - 1) % 2 ^ 32 ≡ k.kb_i - 1 = omega arith in
    let m₁ = mem_cpy k.screen.mem dest kb_buffer (k.kb_i - 1) in
    let m₂ = store8 m₁ (dest + k.kb_i) 0 in
    rw size (
      ground (
        arith,
        mem_set_lem m₂ kb_buffer 0 255 a,
        load8-store8 m₁ (dest + k.kb_i) 0 a,
        mem_cpy_lem k.screen.mem dest kb_buffer (k.kb_i - 1) a,
      ))

-- The screen differs in its memory alone.
pub take_line-screen :
    (kb_buffer dest : ℕ) (k : Keyboard)
    → IsOnScreen k.screen
    → let t = (take_line kb_buffer dest k).screen in
      IsOnScreen t
      × (t.width ≡ k.screen.width)
      × (t.height ≡ k.screen.height)
      × (t.buffer ≡ k.screen.buffer)
      × ((take_line kb_buffer dest k).kb_shifted ≡ k.kb_shifted)
unfolding take_line clear_kb_buffer
take_line-screen kb_buffer dest k on = (
  record { column = on.column; row = on.row; columns = on.columns; countable = on.countable },
  refl,
  refl,
  refl,
  refl,
)
