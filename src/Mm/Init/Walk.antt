-- ===== src/Mm/Init/Walk.antt =====
-- What the walk of `init_mm` leaves on its two stacks.
use mathlib.Core.Path.{subst}
use mathlib.Core.List.{append-nil, append_assoc}
use d.Base.{
  List, [], arith, length, ℕ, ◌++◌, ◌+◌, ◌<◌, ◌^◌, ◌∷◌, ◌≡◌, ◌≤◌, done, false, ltb, refl, suc, zero,
  ◌%◌, ◌⊎◌, true, Bool-cases, inl, inr, ◌==◌, length-append, ◌∙◌, ap,
}
use d.Kernel.{Globals}
use d.Memory.{Mem, load32}
use d.Memory.Laws.{Apart}
use d.Mm.Init.{mmap_addr_at, mmap_length_at, map_loop, type_at}
use d.Mm.Init.Stacks.{IsStack, pushed, pushed-IsStack, pushed_frame, sizeof_stack, IsStack-frame}
use d.Mm.Init.Map.{IsMap, IsMap-frame, IsSeparate, available, parts-frame, reserved}

module _ (g : Globals) (mbd var base end : ℕ) (sep : IsSeparate g mbd var base end)
    (fits : end < 2 ^ 32) where
  -- What holds before a round: the rest of the map, and what is on the stacks.
  pub record IsReady (m : Mem) (p : ℕ) (es fs us : List ℕ) : Type 0 where
    pub map : IsMap m p es end
    pub from : base ≤ p
    pub ends : load32 m (mmap_addr_at mbd) + load32 m (mmap_length_at mbd) ≡ end
    pub frees : IsStack m g.mb_free fs
    pub useds : IsStack m g.used us
    pub free_room : length fs + length es ≤ 32
    pub used_room : length us + length es ≤ 32

  -- The words that the walk does not write.
  abbrev Keeps : Mem → Mem → Type 0
  Keeps m m' =
      (w : ℕ)
      → Apart g.mb_free sizeof_stack w 4
      → Apart g.used sizeof_stack w 4
      → Apart var 4 w 4
      → load32 m' w ≡ load32 m w

  -- The push of the entry `e` on either stack.
  module _ (s : ℕ) (s_var : Apart s sizeof_stack var 4) (s_mbd : Apart s sizeof_stack mbd 52)
      (s_map : (s + sizeof_stack ≤ base) ⊎ (end ≤ s)) (m : Mem) (e : ℕ) (es xs : List ℕ)
      (on : IsStack m s xs) (room : length xs < 32) (from : base ≤ e) (map : IsMap m e (e ∷ es) end)
      (ends : load32 m (mmap_addr_at mbd) + load32 m (mmap_length_at mbd) ≡ end) where
    abbrev m' : Mem
    m' = pushed m var s e

    frame : (w : ℕ) → Apart s sizeof_stack w 4 → Apart var 4 w 4 → load32 m' w ≡ load32 m w
    frame = pushed_frame m var s e xs on room (omega (arith, map.1)) s_var

    same : (w : ℕ) → base ≤ w → w + 4 ≤ end → load32 m' w ≡ load32 m w
    same w lo hi = frame w (omega arith) (omega (arith, sep.var_map))

    abbrev next : ℕ
    next = e + load32 m e + 4

    round :
        IsMap m' next es end
        × (load32 m' (mmap_addr_at mbd) + load32 m' (mmap_length_at mbd) ≡ end)
        × IsStack m' s (xs ++ (e ∷ []))
        × (load32 m' e ≡ load32 m e)
        × (available m' es ≡ available m es)
        × (reserved m' es ≡ reserved m es)
    round =
        let lo : base ≤ next = omega arith in
        let parts = parts-frame m m' base end same next es lo map.3 in
        let addr = frame (mmap_addr_at mbd) (omega arith) (omega (arith, sep.var_mbd)) in
        let len = frame (mmap_length_at mbd) (omega arith) (omega (arith, sep.var_mbd)) in
        (
          IsMap-frame m m' base end same next es lo map.3,
          omega arith,
          pushed-IsStack m var s e xs on room (omega (arith, map.1)) s_var,
          same e (omega arith) (omega (arith, map.1)),
          parts.0,
          parts.1,
        )

  -- The walk of the entries `es` ends, and leaves those of available memory on the one stack and the
  -- others on the other one, behind what they hold.
  abbrev pub Splits : (fuel : ℕ) → Mem → (p : ℕ) (es fs us : List ℕ) → Type 0
  Splits fuel m p es fs us =
      (m' : Mem) × (map_loop g fuel mbd var m p ≡ done m')
      × IsStack m' g.mb_free (fs ++ available m es)
      × IsStack m' g.used (us ++ reserved m es)
      × Keeps m m'

  joined :
      (fuel : ℕ) (m m₁ : Mem) (p q : ℕ) (es es₁ fs us fs₁ us₁ : List ℕ)
      → map_loop g (suc fuel) mbd var m p ≡ map_loop g fuel mbd var m₁ q
      → fs₁ ++ available m₁ es₁ ≡ fs ++ available m es
      → us₁ ++ reserved m₁ es₁ ≡ us ++ reserved m es
      → Keeps m m₁
      → Splits fuel m₁ q es₁ fs₁ us₁
      → Splits (suc fuel) m p es fs us
  joined fuel m m₁ p q es es₁ fs us fs₁ us₁ go f u keeps rest = (
    rest.0,
    go ∙ rest.1,
    subst (λ (xs : List ℕ). IsStack rest.0 g.mb_free xs) f rest.2,
    subst (λ (xs : List ℕ). IsStack rest.0 g.used xs) u rest.3,
    λ w a b c. rest.4 w a b c ∙ keeps w a b c,
  )

  -- From a ready state, with more fuel than entries, the walk ends, and leaves the entries of available
  -- memory on the one stack and the others on the other one, in the order of the map, each behind what the
  -- stack held; what shares no byte with the stacks and the variable stays.
  pub map_loop-Splits :
      (fuel : ℕ) (m : Mem) (p : ℕ) (es fs us : List ℕ)
      → IsReady m p es fs us
      → length es < fuel
      → Splits fuel m p es fs us
  unfolding map_loop
  map_loop-Splits zero m p es fs us r h = absurd (omega arith)
  map_loop-Splits (suc fuel) m p [] fs us r h =
      let stop : ltb p ((load32 m (mmap_addr_at mbd) + load32 m (mmap_length_at mbd)) % 2 ^ 32)
          ≡ false =
        ground (arith, r.map, r.ends) in
      (m, rw (stop, map_loop) refl, rw append-nil r.frees, rw append-nil r.useds, λ w a b c. refl)
  map_loop-Splits (suc fuel) m p (e ∷ es) fs us r h =
      let at : p ≡ e = r.map.0 in
      let go : ltb e ((load32 m (mmap_addr_at mbd) + load32 m (mmap_length_at mbd)) % 2 ^ 32)
          ≡ true =
        ground (arith, r.map, r.ends) in
      let map : IsMap m e (e ∷ es) end = (refl, r.map.1, r.map.2, r.map.3) in
      elim (Bool-cases (load32 m (type_at e) == 1)) [
        | inl is ↦
            let step =
              round g.mb_free sep.free_var sep.free_mbd sep.free_map m e es fs r.frees
                (omega (arith, r.free_room)) (omega (arith, r.from)) map r.ends in
            let m₁ = pushed m var g.mb_free e in
            let kept =
              pushed_frame m var g.mb_free e fs r.frees (omega (arith, r.free_room))
                (omega (arith, map.1)) sep.free_var in
            let ready : IsReady m₁ (e + load32 m e + 4) es (fs ++ (e ∷ [])) us = record {
              map = step.0;
              from = omega (arith, r.from);
              ends = step.1;
              frees = step.2;
              useds =
                  IsStack-frame m m₁ g.used us (omega (arith, r.used_room))
                    (λ w lo hi. kept w (omega (arith, sep.stacks)) (omega (arith, sep.used_var)))
                    r.useds;
              free_room = omega (arith, r.free_room, length-append fs (e ∷ []));
              used_room = omega (arith, r.used_room, length-append us (e ∷ []));
            } in
            let to : (e + load32 m₁ e + 4) % 2 ^ 32 ≡ e + load32 m e + 4 =
              omega (arith, step.3, map.2) in
            joined fuel m m₁ p (e + load32 m e + 4) (e ∷ es) es _ _ _ _
              (ap (λ (x : ℕ). map_loop g (suc fuel) mbd var m x) at
                ∙ rw (go, is, to, map_loop) refl)
              (rw (is, step.4) (append_assoc fs (e ∷ []) (available m es))) (rw (is, step.5) refl)
              (λ w a b c. kept w a c)
              (map_loop-Splits fuel m₁ (e + load32 m e + 4) es _ _ ready (omega arith))
        | inr is ↦
            let step =
              round g.used sep.used_var sep.used_mbd sep.used_map m e es us r.useds
                (omega (arith, r.used_room)) (omega (arith, r.from)) map r.ends in
            let m₁ = pushed m var g.used e in
            let kept =
              pushed_frame m var g.used e us r.useds (omega (arith, r.used_room))
                (omega (arith, map.1)) sep.used_var in
            let ready : IsReady m₁ (e + load32 m e + 4) es fs (us ++ (e ∷ [])) = record {
              map = step.0;
              from = omega (arith, r.from);
              ends = step.1;
              frees =
                  IsStack-frame m m₁ g.mb_free fs (omega (arith, r.free_room))
                    (λ w lo hi. kept w (omega (arith, sep.stacks)) (omega (arith, sep.free_var)))
                    r.frees;
              useds = step.2;
              free_room = omega (arith, r.free_room, length-append fs (e ∷ []));
              used_room = omega (arith, r.used_room, length-append us (e ∷ []));
            } in
            let to : (e + load32 m₁ e + 4) % 2 ^ 32 ≡ e + load32 m e + 4 =
              omega (arith, step.3, map.2) in
            joined fuel m m₁ p (e + load32 m e + 4) (e ∷ es) es _ _ _ _
              (ap (λ (x : ℕ). map_loop g (suc fuel) mbd var m x) at
                ∙ rw (go, is, to, map_loop) refl)
              (rw (is, step.4) refl) (rw (is, step.5) (append_assoc us (e ∷ []) (reserved m es)))
              (λ w a b c. kept w b c)
              (map_loop-Splits fuel m₁ (e + load32 m e + 4) es _ _ ready (omega arith))
      ]
