-- ===== src/Mm/Malloc/Walk.antt =====
-- The walk of `malloc` along the free list, which passes over the last page, and what it decides.
use d.Base.{
  All, List, [], arith, false, length, some, suc, true, zero, ℕ, ◌<◌, ◌==◌, ◌||◌, ◌∷◌, ◌≡◌, ◌≢◌,
  ◌≤◌, Bool-cases, inl, inr, ◌↔◌, has,
}
use d.Memory.{Mem, load32}
use d.Mm.Pages.{next_at, size_at}
use d.Mm.Malloc.{Search, fits, fitting, larger, no_fit, scan, Alloc, finish, malloc, panic}

-- The pages `xs` stand on the list from `temp` on, each with a successor, and one more ends it.
abbrev pub Walks : Mem → ℕ → List ℕ → Type 0
Walks m temp [] = load32 m (next_at temp) ≡ 0
Walks m temp (x ∷ xs) = (temp ≡ x) × (load32 m (next_at x) ≢ 0) × Walks m (load32 m (next_at x)) xs

-- A page that fits is one of the list. Otherwise none fits, and the page found is the largest of
-- `best` and the list.
abbrev pub Found : Mem → (size best : ℕ) → List ℕ → Search → Type 0
Found m size best xs (fitting t) = (has t xs ≡ true) × (fits m size t ≡ true)
Found m size best xs (no_fit big) =
    ((big == best) || has big xs ≡ true)
    × (load32 m (size_at best) ≤ load32 m (size_at big))
    × All (λ x. (fits m size x ≡ false) × (load32 m (size_at x) ≤ load32 m (size_at big))) xs

module _ (m : Mem) (size : ℕ) where
  larger_lem :
      (best page : ℕ)
      → (load32 m (size_at best) ≤ load32 m (size_at (larger m best page)))
        × (load32 m (size_at page) ≤ load32 m (size_at (larger m best page)))
        × ((larger m best page == best) || (larger m best page == page) ≡ true)
  unfolding larger
  larger_lem best page = ground arith

  Found-cons :
      (best x : ℕ) (xs : List ℕ) (r : Search)
      → fits m size x ≡ false
      → Found m size (larger m best x) xs r
      → Found m size best (x ∷ xs) r
  Found-cons best x xs (fitting t) miss f = ground arith
  Found-cons best x xs (no_fit big) miss f = (
    ground (arith, larger_lem best x),
    omega (arith, larger_lem best x, f.1),
    ((miss, omega (arith, larger_lem best x, f.1)), f.2),
  )

  -- With more fuel than pages `scan` ends, and its result is right for the list.
  pub scan-Found :
      (fuel temp best : ℕ) (xs : List ℕ)
      → Walks m temp xs
      → length xs < fuel
      → (r : Search) × (scan fuel m size temp best ≡ some r) × Found m size best xs r
  unfolding scan
  scan-Found zero temp best xs w h = absurd (omega arith)
  scan-Found (suc fuel) temp best [] w h = (no_fit best, rw w, (ground arith, omega arith, tt))
  scan-Found (suc fuel) temp best (x ∷ xs) (e, more, w) h = elim (Bool-cases (fits m size x)) [
    | inl hit ↦ (fitting x, ground arith, ground arith)
    | inr miss ↦
        let (r, eq, found) =
          scan-Found fuel (load32 m (next_at x)) (larger m best x) xs w (omega arith) in
        (r, ground arith, Found-cons best x xs r miss found)
  ]

  fits-le : (t : ℕ) → fits m size t ≡ true → size ≤ load32 m (size_at t)
  fits-le t h = unfold fits in ground arith

  All-has :
      (t : ℕ) (xs : List ℕ)
      → has t xs ≡ true
      → All (λ x. load32 m (size_at x) < size) xs
      → load32 m (size_at t) < size
  All-has t [] h a = cc
  All-has t (x ∷ xs) h a = ground (arith, All-has t xs)

  All-lt :
      (best big : ℕ) (xs : List ℕ)
      → All (λ x. (fits m size x ≡ false) × (load32 m (size_at x) ≤ load32 m (size_at big))) xs
      → load32 m (size_at big) < size
      → All (λ x. load32 m (size_at x) < size) xs
  All-lt best big [] a h = tt
  All-lt best big (x ∷ xs) a h = (omega arith, All-lt best big xs a.1 h)

  finish-panic :
      (mm_free mm_used : ℕ) (xs : List ℕ) (r : Search)
      → Found m size mm_free xs r
      → ((finish m mm_used size r ≡ panic)
          ↔ (All (λ x. load32 m (size_at x) < size) xs × (load32 m (size_at mm_free) < size)))
  unfolding finish
  finish-panic mm_free mm_used xs (fitting t) f =
      ((λ e. cc), λ a. absurd (omega (arith, fits-le t f.1, All-has t xs f.0 a.0)))
  finish-panic mm_free mm_used xs (no_fit big) f = (
    (λ e.
        let small : load32 m (size_at big) < size = ground arith in
        (All-lt mm_free big xs f.2 small, omega (arith, f.1))),
    λ a. let small : load32 m (size_at big) < size = ground (arith, All-has big xs) in ground arith,
  )

  -- With more fuel than pages before the last, `malloc` ends; and it panics for want of memory
  -- exactly when the head of the free list and every page of it before the last are smaller than
  -- the request.
  pub malloc-panic :
      (mm_free mm_used fuel : ℕ) (xs : List ℕ)
      → Walks m mm_free xs
      → length xs < fuel
      → (r : Alloc) × (malloc fuel m mm_free mm_used size ≡ some r)
        × ((r ≡ panic)
            ↔ (All (λ x. load32 m (size_at x) < size) xs × (load32 m (size_at mm_free) < size)))
  unfolding malloc finish
  malloc-panic mm_free mm_used fuel xs w h =
      let (r, eq, found) = scan-Found fuel mm_free mm_free xs w h in
      (finish m mm_used size r, rw (eq, malloc), finish-panic mm_free mm_used xs r found)
