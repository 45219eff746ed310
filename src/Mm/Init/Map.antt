-- ===== src/Mm/Init/Map.antt =====
-- The memory map that the boot loader hands over, and its walk.
use d.Base.{List, [], arith, if◌then◌else◌, refl, ℕ, ◌+◌, ◌==◌, ◌∷◌, ◌≡◌, ◌≤◌, ◌⊎◌}
use d.Kernel.{Globals}
use d.Memory.{Mem, load32}
use d.Memory.Laws.{Apart}
use d.Mm.Init.{type_at}
use d.Mm.Init.Stacks.{sizeof_stack}

-- The entries `es` of the map stand one behind the other from `p` to `end`, each of them leading to the
-- next one by its size.
abbrev pub IsMap : Mem → (p : ℕ) → List ℕ → (end : ℕ) → Type 0
IsMap m p [] end = p ≡ end
IsMap m p (e ∷ es) end =
    (p ≡ e) × (e + 24 ≤ end) × (e + load32 m e + 4 ≤ end) × IsMap m (e + load32 m e + 4) es end

-- The entries of available memory, and the others.
abbrev pub available : Mem → List ℕ → List ℕ
available m [] = []
available m (e ∷ es) = if load32 m (type_at e) == 1 then e ∷ available m es else available m es

abbrev pub reserved : Mem → List ℕ → List ℕ
reserved m [] = []
reserved m (e ∷ es) = if load32 m (type_at e) == 1 then reserved m es else e ∷ reserved m es

-- Nothing that the walk writes, the two stacks and the variable, is read as part of the map or of the
-- boot loader's record, and they share no byte with one another.
pub record IsSeparate (g : Globals) (mbd var base end : ℕ) : Type 0 where
  pub stacks : Apart g.mb_free sizeof_stack g.used sizeof_stack
  pub free_var : Apart g.mb_free sizeof_stack var 4
  pub used_var : Apart g.used sizeof_stack var 4
  pub free_mbd : Apart g.mb_free sizeof_stack mbd 52
  pub used_mbd : Apart g.used sizeof_stack mbd 52
  pub var_mbd : Apart var 4 mbd 52
  pub free_map : (g.mb_free + sizeof_stack ≤ base) ⊎ (end ≤ g.mb_free)
  pub used_map : (g.used + sizeof_stack ≤ base) ⊎ (end ≤ g.used)
  pub var_map : (var + 4 ≤ base) ⊎ (end ≤ var)

module _ (m m' : Mem) (base end : ℕ)
    (same : (w : ℕ) → base ≤ w → w + 4 ≤ end → load32 m' w ≡ load32 m w) where
  pub IsMap-frame : (p : ℕ) (es : List ℕ) → base ≤ p → IsMap m p es end → IsMap m' p es end
  IsMap-frame p [] lo h = h
  IsMap-frame p (e ∷ es) lo h =
      let size : load32 m' e ≡ load32 m e = same e (omega arith) (omega arith) in
      (h.0, h.1, omega arith, rw size (IsMap-frame (e + load32 m e + 4) es (omega arith) h.3))

  pub parts-frame :
      (p : ℕ) (es : List ℕ)
      → base ≤ p
      → IsMap m p es end
      → (available m' es ≡ available m es) × (reserved m' es ≡ reserved m es)
  parts-frame p [] lo h = (refl, refl)
  parts-frame p (e ∷ es) lo h =
      let kind : load32 m' (type_at e) ≡ load32 m (type_at e) =
        same (type_at e) (omega arith) (omega arith) in
      let rest = parts-frame (e + load32 m e + 4) es (omega arith) h.3 in
      rw kind (rw (rest.0, rest.1) (refl, refl))
