-- ===== src/Kernel/Show/MemMap/Lists.antt =====
-- The lines of the two lists in what `print_mem_map` prints.
use d.Base.{List, [], ℕ, ◌++◌, ◌∷◌, ◌≡◌, ◌≢◌}
use d.Kernel.{Globals}
use d.Kernel.Show.Prints.{Prints}
use d.Memory.{Mem, load32}
use d.Mm.Pages.{next_at}
use d.Term.{Screen}
use d.Kernel.Show.MemMap.{IsRecord, IsLine}

module _ (g : Globals) where
  -- The list from `entry` has the pages `ps` and then `last`, which has no successor.
  abbrev pub IsList : Mem → (entry : ℕ) (ps : List ℕ) (last : ℕ) → Type 0
  IsList m entry [] last = (entry ≡ last) × (load32 m (next_at entry) ≡ 0)
  IsList m entry (p ∷ ps) last =
      (entry ≡ p) × (load32 m (next_at entry) ≢ 0) × IsList m (load32 m (next_at entry)) ps last

  -- The records of the list.
  abbrev pub AreRecords : Mem → Screen → (ps : List ℕ) (last : ℕ) → Type 0
  AreRecords m s [] last = IsRecord g m s last
  AreRecords m s (p ∷ ps) last = IsRecord g m s p × AreRecords m s ps last

  -- A line for each of the pages.
  abbrev pub AreLines : Mem → (label : List ℕ) (ps : List ℕ) → List ℕ → Type 0
  AreLines m label [] xs = xs ≡ []
  AreLines m label (p ∷ ps) xs =
      (line : List ℕ) × (rest : List ℕ) × (xs ≡ line ++ rest)
      × IsLine g m label p line
      × AreLines m label ps rest
