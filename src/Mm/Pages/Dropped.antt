-- ===== src/Mm/Pages/Dropped.antt =====
-- A removal behind two insertions at one head.
use d.Base.{arith, ℕ, ◌<◌, ◌^◌, ◌≡◌, ◌∙◌}
use d.Memory.{Mem, load32}
use d.Mm.Pages.{add_mm_list_entry, next_at, prev_at, remove_mm_list_entry}
use d.Mm.Pages.Links.{Distinct, add_frame, add_lem, remove_frame, remove_lem}

module _ (m : Mem) (head a b : ℕ) (head_fits : head < 2 ^ 32) (a_fits : a < 2 ^ 32)
    (b_fits : b < 2 ^ 32) (head_a : Distinct head a) (head_b : Distinct head b) (a_b : Distinct a b)
    (head_rest : Distinct head (load32 m (next_at head)))
    (a_rest : Distinct a (load32 m (next_at head)))
    (b_rest : Distinct b (load32 m (next_at head))) where
  abbrev one : Mem
  one = add_mm_list_entry m head a

  abbrev two : Mem
  two = add_mm_list_entry one head b

  links_of_a : (load32 two (prev_at a) ≡ head) × (load32 two (next_at a) ≡ load32 m (next_at head))
  links_of_a = grind (arith, add_lem m head a, add_frame one head b)

  -- Insert `a` and then `b` at the head of a list, where the records of the head, `a` and `b`
  -- share no byte with each other or with the first old entry, and their addresses have 32 bits.
  -- The list is then `b`, `a`, and the old entries, but `a->prev` still names the head. So the
  -- removal of `a` makes the head point at the old entries: `b`, which was in front of `a`, is no
  -- longer on the list, and still points at `a`.
  pub remove-add-add :
      let m' = remove_mm_list_entry two a in
      (load32 two (next_at head) ≡ b)
      × (load32 two (next_at b) ≡ a)
      × (load32 m' (next_at head) ≡ load32 m (next_at head))
      × (load32 m' (next_at b) ≡ a)
  remove-add-add =
      let first = add_lem m head a head_a a_fits head_fits in
      let second = add_lem one head b head_b b_fits head_fits in
      let rest = load32 m (next_at head) in
      (
        second.0,
        second.2 ∙ first.0,
        (remove_lem two a head rest links_of_a.0 links_of_a.1 head_a (omega arith) head_rest).0,
        remove_frame two a head rest links_of_a.0 links_of_a.1 head_a (omega arith) head_rest
              (next_at b) (omega arith) (omega arith) (omega arith)
            ∙ second.2
            ∙ first.0,
      )
