-- ===== src/Mm/Malloc/Choice.antt =====
-- Which page `malloc` takes: the search in one walk against a description in two.
use d.Base.{
  Bool-cases, List, Option, [], arith, if◌then◌else◌, inl, inr, length, ltb, none, refl, sym, some,
  suc, false, zero, ℕ, ◌<◌, ◌==◌, ◌∙◌, ◌∷◌, ◌≡◌, ◌≤◌, ap,
}
use mathlib.Core.Path.{subst}
use d.Memory.{Mem, load32}
use d.Mm.Pages.{add_mm_list_entry, next_at, remove_mm_list_entry, size_at}
use d.Mm.Malloc.{
  Alloc, Search, allocated, carve, finish, fits, fitting, larger, malloc, no_fit, panic, scan,
}
use d.Mm.Malloc.Walk.{Walks}

-- The first of the pages that fits.
abbrev pub first_fitting : Mem → (size : ℕ) → List ℕ → Option ℕ
first_fitting m size [] = none
first_fitting m size (x ∷ xs) =
    let rest = first_fitting m size xs in if fits m size x then some x else rest

-- The size of the largest of the pages.
abbrev pub greatest : Mem → List ℕ → ℕ
greatest m [] = 0
greatest m (x ∷ xs) =
    let rest = greatest m xs in
    if ltb rest (load32 m (size_at x)) then load32 m (size_at x) else rest

-- The first of the pages that has the size.
abbrev pub first_of_size : Mem → (size : ℕ) → List ℕ → ℕ
first_of_size m size [] = 0
first_of_size m size (x ∷ xs) =
    let rest = first_of_size m size xs in if load32 m (size_at x) == size then x else rest

-- The page that fits is moved to the used list. If there is none, a page is cut off the page `big`, of `most`
-- bytes; and if that is too small, the kernel stops.
abbrev pub grant : Mem → (mm_used size most big : ℕ) → Option ℕ → Alloc
grant m mm_used size most big (some t) =
    allocated (add_mm_list_entry (remove_mm_list_entry m t) mm_used t) t
grant m mm_used size most big none =
    let (m', t) = carve m mm_used size big in if ltb most size then panic else allocated m' t

-- What a request of `size` bytes comes to with the pages `xs` before the last one: the first that fits, or else
-- the first of the largest.
abbrev pub chosen : Mem → (mm_free mm_used size : ℕ) → List ℕ → Alloc
chosen m mm_free mm_used size xs =
    let most = greatest m (mm_free ∷ xs) in
    grant m mm_used size most (first_of_size m most (mm_free ∷ xs)) (first_fitting m size xs)

module _ (m : Mem) (size : ℕ) where
  abbrev best_of : (best : ℕ) → List ℕ → ℕ
  best_of best [] = best
  best_of best (x ∷ xs) = best_of (larger m best x) xs

  abbrev outcome : (best : ℕ) → Option ℕ → Search
  outcome best (some t) = fitting t
  outcome best none = no_fit best

  abbrev search : (best : ℕ) → List ℕ → Search
  search best xs = outcome (best_of best xs) (first_fitting m size xs)

  scan-search :
      (fuel temp best : ℕ) (xs : List ℕ)
      → Walks m temp xs
      → length xs < fuel
      → scan fuel m size temp best ≡ some (search best xs)
  unfolding scan
  scan-search zero temp best xs w h = absurd (omega arith)
  scan-search (suc fuel) temp best [] w h = rw w refl
  scan-search (suc fuel) temp best (x ∷ xs) (e, more, w) h =
      let rest = scan-search fuel (load32 m (next_at x)) (larger m best x) xs w (omega arith) in
      let on : load32 m (next_at x) == 0 ≡ false = ground (arith, more) in
      elim (Bool-cases (fits m size x)) [
        | inl hit ↦ rw (e, on, hit) refl
        | inr miss ↦ rw (e, on, miss) rest
      ]

  greatest-le : (best : ℕ) (xs : List ℕ) → load32 m (size_at best) ≤ greatest m (best ∷ xs)
  greatest-le best xs = ground arith

  best_of-up :
      (best x : ℕ) (xs : List ℕ)
      → load32 m (size_at best) < load32 m (size_at x)
      → (greatest m (best ∷ x ∷ xs) ≡ greatest m (x ∷ xs))
        × (first_of_size m (greatest m (best ∷ x ∷ xs)) (best ∷ x ∷ xs)
            ≡ first_of_size m (greatest m (x ∷ xs)) (x ∷ xs))
  best_of-up best x xs up =
      let big = greatest-le x xs in
      let same : greatest m (best ∷ x ∷ xs) ≡ greatest m (x ∷ xs) = ground arith in
      let skip : load32 m (size_at best) == greatest m (x ∷ xs) ≡ false = ground (arith, big, up) in
      (same, ap (λ n. first_of_size m n (best ∷ x ∷ xs)) same ∙ rw skip refl)

  best_of-down :
      (best x : ℕ) (xs : List ℕ)
      → load32 m (size_at x) ≤ load32 m (size_at best)
      → (greatest m (best ∷ x ∷ xs) ≡ greatest m (best ∷ xs))
        × (first_of_size m (greatest m (best ∷ x ∷ xs)) (best ∷ x ∷ xs)
            ≡ first_of_size m (greatest m (best ∷ xs)) (best ∷ xs))
  best_of-down best x xs down =
      let same : greatest m (best ∷ x ∷ xs) ≡ greatest m (best ∷ xs) = ground arith in
      let big = greatest-le best xs in
      (same, ap (λ n. first_of_size m n (best ∷ x ∷ xs)) same ∙ ground (arith, big, down))

  -- The page `c` is the first of the largest of `best` and the others.
  abbrev IsFirst : (c best : ℕ) → List ℕ → Type 0
  IsFirst c best xs =
      (c ≡ first_of_size m (greatest m (best ∷ xs)) (best ∷ xs))
      × (load32 m (size_at c) ≡ greatest m (best ∷ xs))

  IsFirst-cons :
      (best x next : ℕ) (xs : List ℕ)
      → larger m best x ≡ next
      → (greatest m (best ∷ x ∷ xs) ≡ greatest m (next ∷ xs))
        × (first_of_size m (greatest m (best ∷ x ∷ xs)) (best ∷ x ∷ xs)
            ≡ first_of_size m (greatest m (next ∷ xs)) (next ∷ xs))
      → IsFirst (best_of (larger m best x) xs) (larger m best x) xs
      → IsFirst (best_of (larger m best x) xs) best (x ∷ xs)
  IsFirst-cons best x next xs is same rest =
      let first = subst (λ b. IsFirst (best_of b xs) b xs) is rest in
      subst (λ b. IsFirst (best_of b xs) best (x ∷ xs)) (sym is)
        (first.0 ∙ sym same.1, first.1 ∙ sym same.0)

  best_of-IsFirst : (best : ℕ) (xs : List ℕ) → IsFirst (best_of best xs) best xs
  best_of-IsFirst best [] = ground arith
  best_of-IsFirst best (x ∷ xs) =
      let rest = best_of-IsFirst (larger m best x) xs in
      elim (Bool-cases (ltb (load32 m (size_at best)) (load32 m (size_at x)))) [
        | inl up ↦
            let is : larger m best x ≡ x = unfold larger in rw up refl in
            IsFirst-cons best x x xs is (best_of-up best x xs (ground arith)) rest
        | inr down ↦
            let is : larger m best x ≡ best = unfold larger in rw down refl in
            IsFirst-cons best x best xs is (best_of-down best x xs (ground arith)) rest
      ]

  finish-grant :
      (mm_used best most big : ℕ) (fit : Option ℕ)
      → best ≡ big
      → load32 m (size_at best) ≡ most
      → finish m mm_used size (outcome best fit) ≡ grant m mm_used size most big fit
  unfolding finish
  finish-grant mm_used best most big (some t) e f = refl
  finish-grant mm_used best most big none e f = rw (sym e, f) refl

  -- With more fuel than pages before the last one of the free list, `malloc` moves the first of them that fits
  -- the request to the used list. If none fits, it cuts a page off the first of the largest among the head and
  -- them, or panics if that is smaller than the request.
  pub malloc-chosen :
      (mm_free mm_used fuel : ℕ) (xs : List ℕ)
      → Walks m mm_free xs
      → length xs < fuel
      → malloc fuel m mm_free mm_used size ≡ some (chosen m mm_free mm_used size xs)
  unfolding malloc
  malloc-chosen mm_free mm_used fuel xs w h =
      let found = scan-search fuel mm_free mm_free xs w h in
      let (first, most) = best_of-IsFirst mm_free xs in
      rw (found, malloc) (ap some (finish-grant mm_used _ _ _ (first_fitting m size xs) first most))
