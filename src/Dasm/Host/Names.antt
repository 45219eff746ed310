-- ===== src/Dasm/Host/Names.antt =====
-- What the lookup of a register's name finds on the host, whose `strcmp` is the C library's.
use d.Base.{
  Option, none, some, Bool-cases, inl, inr, Run, zero, suc, List, ap, arith, done, none, refl, some,
  suc, zero, ℕ, ℕ_discrete, ◌+◌, ◌-◌, ◌<◌, ◌==◌, ◌^◌, ◌↔◌, ◌∙◌, ◌≡◌, ◌≢◌,
}
use d.Dasm.{find, Services, Tables, get_reg}
use d.Dasm.Host.{host_get_reg, host_services, host_tables}
use d.Memory.{Mem}

-- What a search for the text `xs` among the first `count` names finds: the first one that is equal.
abbrev pub IsFound : (names : ℕ → List ℕ) (xs : List ℕ) (count : ℕ) → Option ℕ → Type 0
IsFound names xs count none = (k : ℕ) → k < count → xs ≢ names k
IsFound names xs count (some j) = (j < count) × (xs ≡ names j) × ((k : ℕ) → k < j → xs ≢ names k)

-- The answer of `get_reg`: the number of the register, or -1.
abbrev pub register_number : Option ℕ → ℕ
register_number none = 2 ^ 32 - 1
register_number (some j) = j

module _ {S : Type 0} (sv : Services S) (texts : Tables) (m : Mem) (table : ℕ → ℕ) (name : ℕ)
    (xs : List ℕ) (names : ℕ → List ℕ) (count : ℕ)
    (compares : (i : ℕ)
      → i < count
      → (r : ℕ) × (sv.strcmp m name (table i) ≡ done r) × ((r ≡ 0) ↔ (xs ≡ names i))) where
  find-IsFound :
      (left i : ℕ)
      → i + left ≡ count
      → ((k : ℕ) → k < i → xs ≢ names k)
      → (found : Option ℕ) × (find sv texts m table name left i ≡ done found)
        × IsFound names xs count found
  unfolding find
  find-IsFound zero i room before = (none, refl, λ k h. before k (omega arith))
  find-IsFound (suc left) i room before =
      let (r, eq, iff) = compares i (omega arith) in
      elim (Bool-cases (r == 0)) [
        | inl equal ↦ (
          some i,
          rw (eq, find) (rw equal refl),
          (omega arith, iff.0 (ground (arith, equal)), before),
        )
        | inr other ↦
            let differs : xs ≢ names i = λ e. ground (arith, other, iff.1 e) in
            let passed : (k : ℕ) → k < i + 1 → xs ≢ names k = λ k h. elim (ℕ_discrete k i) [
              | yes same ↦ λ e. differs (e ∙ ap names same)
              | no away ↦ before k (omega arith)
            ] in
            let (found, run, is) = find-IsFound left (i + 1) (omega arith) passed in
            (found, rw (eq, find) (rw other run), is)
      ]

-- Where `strcmp` answers 0 just for equal texts, as it is documented, on the name and each of the seven
-- names of registers: `get_reg` of the host returns the number of the first register with that name, and
-- -1 if no register has it.
pub host_get_reg-IsFound :
    {S : Type 0} (sv : Services S) (texts : Tables) (m : Mem) (reg : ℕ) (xs : List ℕ)
    (names : ℕ → List ℕ)
    → ((i : ℕ)
        → i < 7
        → (r : ℕ) × (sv.strcmp m reg (texts.regs i) ≡ done r) × ((r ≡ 0) ↔ (xs ≡ names i)))
    → (found : Option ℕ) × IsFound names xs 7 found
      × (host_get_reg sv texts m reg ≡ done (register_number found))
unfolding host_get_reg get_reg
host_get_reg-IsFound sv texts m reg xs names compares =
    let (found, run, is) =
      find-IsFound (host_services sv) (host_tables texts) m texts.regs reg xs names 7 compares 7 0
        refl (λ k h. absurd (omega arith)) in
    (found, is, rw run (answers found))
  where
    answers :
        (found : Option ℕ)
        → elim found as (λ _. Run ℕ) [ none ↦ done (2 ^ 32 - 1) | some i ↦ done i ]
          ≡ done (register_number found)
    answers none = refl
    answers (some i) = refl
