-- ===== src/Vm/Compare.antt =====
-- The flags after a comparison.
use d.Base.{
  Bool, all_below, all_below_sound, eq_of_test, false, refl, true, ℕ, ◌%◌, ◌*◌, ◌+◌, ◌/◌, ◌<◌, ◌==◌,
  ◌≡◌, ◌≢◌, ◌∙◌,
}
use d.Memory.{Mem, load8, store8}
use d.Vm.{flags_at, vm_read}
use d.Vm.Ops.{arg0_mask_of, arg0_of, arg1_mask_of, arg1_of, geq_short, op_cmp, put_flag}
use d.Memory.Laws.{load8-lt, load8-store8_ne, load8-store8_self}

abbrev pub bit : Bool → ℕ
bit true = 1
bit false = 0

three_flags : (e g l : Bool) (f : ℕ) → ℕ
unfolding put_flag
three_flags e g l f = put_flag 4 l (put_flag 2 g (put_flag 1 e f % 256) % 256) % 256

abbrev agrees : (e g l : Bool) → ℕ → Bool
agrees e g l f = three_flags e g l f == f / 8 * 8 + bit e + 2 * bit g + 4 * bit l

table : (e g l : Bool) → all_below 256 (agrees e g l) ≡ true
unfolding all_below three_flags
table true true true = refl
table true true false = refl
table true false true = refl
table true false false = refl
table false true true = refl
table false true false = refl
table false false true = refl
table false false false = refl

three_flags_lem :
    (e g l : Bool) (f : ℕ)
    → f < 256
    → three_flags e g l f ≡ f / 8 * 8 + bit e + 2 * bit g + 4 * bit l
three_flags_lem e g l f h = eq_of_test _ _ (all_below_sound 256 (agrees e g l) f (table e g l) h)

-- `op_cmp` sets the flags EQ, GTE and LTE to whether the first operand, as a signed 16-bit number, is
-- equal to, at least or at most the second one, keeps the other five flags, and changes no other byte.
pub op_cmp_lem :
    (m : Mem) (vm ins : ℕ)
    → let a0 = vm_read m vm (arg0_mask_of m ins) (arg0_of m ins) in
      let a1 = vm_read m vm (arg1_mask_of m ins) (arg1_of m ins) in
      let m' = op_cmp m vm ins in
      (load8 m' (flags_at vm)
        ≡ load8 m (flags_at vm) / 8 * 8
          + bit (a0 == a1)
          + 2 * bit (geq_short a0 a1)
          + 4 * bit (geq_short a1 a0))
      × ((b : ℕ) → b ≢ flags_at vm → load8 m' b ≡ load8 m b)
unfolding op_cmp
op_cmp_lem m vm ins =
    let f = load8 m (flags_at vm) in
    let a0 = vm_read m vm (arg0_mask_of m ins) (arg0_of m ins) in
    let a1 = vm_read m vm (arg1_mask_of m ins) (arg1_of m ins) in
    let at = flags_at vm in
    let m₁ = store8 m at (put_flag 1 (a0 == a1) f) in
    let m₂ = store8 m₁ at (put_flag 2 (geq_short a0 a1) (load8 m₁ at)) in
    let e₁ = load8-store8_self m at (put_flag 1 (a0 == a1) f) in
    let e₂ = load8-store8_self m₁ at (put_flag 2 (geq_short a0 a1) (load8 m₁ at)) in
    let v = put_flag 4 (geq_short a1 a0) (load8 m₂ at) in
    (
      load8-store8_self m₂ at v
          ∙ rw (e₂, e₁)
              (unfold three_flags in
                three_flags_lem (a0 == a1) (geq_short a0 a1) (geq_short a1 a0) f (load8-lt m at)),
      λ b o. load8-store8_ne m₂ at v b o ∙ load8-store8_ne m₁ at _ b o ∙ load8-store8_ne m at _ b o,
    )
