-- ===== src/Mm/Init/Stacks.antt =====
-- A stack of addresses, and a push as `init_mm` makes it, through a variable.
use d.Base.{
  List, [], ap, arith, length, length-append, refl, ℕ, ◌%◌, ◌++◌, ◌+◌, ◌<◌, ◌^◌, ◌∙◌, ◌∷◌, ◌≡◌, ◌≤◌,
}
use d.Memory.{Mem, load32, store32}
use d.Memory.Laws.{Apart, load32-store32_ne, load32-store32_self}
use d.Mm.Stack.{slot, stack_push, top_at}

abbrev pub sizeof_stack : ℕ
sizeof_stack = 132

-- The slots from `i` on hold `xs`.
abbrev pub Holds : Mem → (s i : ℕ) → List ℕ → Type 0
Holds m s i [] = Unit {0}
Holds m s i (x ∷ xs) = (load32 m (slot s i) ≡ x) × Holds m s (i + 1) xs

abbrev pub IsStack : Mem → (s : ℕ) → List ℕ → Type 0
IsStack m s xs = (load32 m (top_at s) ≡ length xs) × Holds m s 0 xs

Holds-frame :
    (m m' : Mem) (s i : ℕ) (xs : List ℕ)
    → ((k : ℕ) → k < i + length xs → load32 m' (slot s k) ≡ load32 m (slot s k))
    → Holds m s i xs
    → Holds m' s i xs
Holds-frame m m' s i [] same h = tt
Holds-frame m m' s i (x ∷ xs) same h =
    (same i (omega arith) ∙ h.0, Holds-frame m m' s (i + 1) xs (λ k l. same k (omega arith)) h.1)

Holds-snoc :
    (m : Mem) (s i x : ℕ) (xs : List ℕ)
    → Holds m s i xs
    → load32 m (slot s (i + length xs)) ≡ x
    → Holds m s i (xs ++ (x ∷ []))
Holds-snoc m s i x [] h e = (ap (λ (k : ℕ). load32 m (slot s k)) (omega arith) ∙ e, tt)
Holds-snoc m s i x (y ∷ xs) h e =
    (h.0, Holds-snoc m s (i + 1) x xs h.1 (ap (λ (k : ℕ). load32 m (slot s k)) (omega arith) ∙ e))

-- A stack is kept by what changes none of its words.
pub IsStack-frame :
    (m m' : Mem) (s : ℕ) (xs : List ℕ)
    → length xs ≤ 32
    → ((w : ℕ) → s ≤ w → w + 4 ≤ s + sizeof_stack → load32 m' w ≡ load32 m w)
    → IsStack m s xs
    → IsStack m' s xs
IsStack-frame m m' s xs room same h = (
  same (top_at s) (omega arith) (omega arith) ∙ h.0,
  Holds-frame m m' s 0 xs (λ k l. same (slot s k) (omega arith) (omega arith)) h.1,
)

-- The memory after `x` was pushed by way of the variable at `var`.
abbrev pub pushed : Mem → (var s x : ℕ) → Mem
pushed m var s x = stack_push (store32 m var x) s var

module _ (m : Mem) (var s x : ℕ) (xs : List ℕ) (h : IsStack m s xs) (room : length xs < 32)
    (fits : x < 2 ^ 32) (apart : Apart s sizeof_stack var 4) where
  pushed_eq :
      pushed m var s x
      ≡ store32
          (store32 (store32 m var x) (slot s (length xs)) x)
          (top_at s)
          ((length xs + 1) % 2 ^ 32)
  unfolding stack_push
  pushed_eq =
      let m₁ = store32 m var x in
      let top : load32 m₁ (top_at s) ≡ length xs =
        load32-store32_ne m var x (top_at s) (omega arith) ∙ h.0 in
      let value : load32 m₁ var ≡ x = load32-store32_self m var x ∙ omega arith in
      let still : load32 (store32 m₁ (slot s (length xs)) x) (top_at s) ≡ length xs =
        load32-store32_ne m₁ (slot s (length xs)) x (top_at s) (omega arith) ∙ top in
      rw top (rw value (rw still refl))

  pub pushed_frame :
      (w : ℕ)
      → Apart s sizeof_stack w 4
      → Apart var 4 w 4
      → load32 (pushed m var s x) w ≡ load32 m w
  pushed_frame w o v = rw pushed_eq (
      load32-store32_ne _ (top_at s) _ w (omega arith)
      ∙ load32-store32_ne _ (slot s (length xs)) x w (omega arith)
      ∙ load32-store32_ne m var x w (omega arith))

  pub pushed-IsStack : IsStack (pushed m var s x) s (xs ++ (x ∷ []))
  pushed-IsStack =
      let m₁ = store32 m var x in
      let m₂ = store32 m₁ (slot s (length xs)) x in
      let count = (length xs + 1) % 2 ^ 32 in
      let m₃ = store32 m₂ (top_at s) count in
      let old =
        Holds-frame m m₃ s 0 xs
          (λ k l.
            load32-store32_ne m₂ (top_at s) count (slot s k) (omega arith)
            ∙ load32-store32_ne m₁ (slot s (length xs)) x (slot s k) (omega arith)
            ∙ load32-store32_ne m var x (slot s k) (omega arith))
          h.1 in
      let new : load32 m₃ (slot s (0 + length xs)) ≡ x =
        ap (λ (k : ℕ). load32 m₃ (slot s k)) (omega arith)
        ∙ load32-store32_ne m₂ (top_at s) count (slot s (length xs)) (omega arith)
        ∙ load32-store32_self m₁ (slot s (length xs)) x
        ∙ omega arith in
      rw pushed_eq (
        load32-store32_self m₂ (top_at s) count ∙ omega (arith, length-append xs (x ∷ [])),
        Holds-snoc m₃ s 0 x xs old new,
      )
