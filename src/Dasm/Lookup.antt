-- ===== src/Dasm/Lookup.antt =====
-- What the lookups of dasm.c find, whose test of `strcmp` is for the answer 0.

use d.Base.{
  List, [], arith, done, length, refl, some, suc, sym, zero, ℕ, ◌<◌, ◌∙◌, ◌∷◌, ◌≡◌, ◌≢◌, ◌≤◌, ap,
  get_or,
}
use d.Memory.{Mem}
use d.Str.Scan.{strcmp-eq}
use d.Str.Texts.{IsText}
use d.Dasm.{find, get_reg, Tables}
use d.Dasm.Machine.{kernel_services}
use d.Kernel.{Globals}

differ : (r : ℕ) → r ≤ 1 → (r ≡ 1 → ⊥) → r ≡ 0
differ zero h n = refl
differ (suc zero) h n = absurd (n refl)
differ (suc (suc r)) h n = absurd (omega arith)

abbrev pub r0_text : List ℕ
r0_text = b'r' ∷ b'0' ∷ []

abbrev pub r1_text : List ℕ
r1_text = b'r' ∷ b'1' ∷ []

abbrev pub hlt_text : List ℕ
hlt_text = b'h' ∷ b'l' ∷ b't' ∷ []

abbrev pub mov_text : List ℕ
mov_text = b'm' ∷ b'o' ∷ b'v' ∷ []

r0-ne-r1 : r0_text ≢ r1_text
r0-ne-r1 p = let bytes : ◌≡◌ {A = ℕ} 48 49 = ap (λ l. get_or l 1 0) p in absurd (omega arith)

hlt-ne-mov : hlt_text ≢ mov_text
hlt-ne-mov p = let bytes : ◌≡◌ {A = ℕ} 104 109 = ap (λ l. get_or l 0 0) p in absurd (omega arith)

module _ (g : Globals) (texts : Tables) (m : Mem) (table : ℕ → ℕ) (name : ℕ)
    (xs first second : List ℕ) (text : IsText m name xs) (text₀ : IsText m (table 0) first)
    (text₁ : IsText m (table 1) second) (distinct : first ≢ second)
    (enough : length xs < g.fuel) where
  find-other :
      (left : ℕ)
      → xs ≢ first
      → find (kernel_services g) texts m table name (suc left) 0 ≡ done (some 0)
  unfolding find
  find-other left ne =
      let (r, eq, small, iff) = strcmp-eq g.fuel m name (table 0) xs first text text₀ enough in
      let zero_answer : r ≡ 0 = differ r small (λ one. ne (iff.0 one)) in
      rw (eq, find) (rw zero_answer)

  find-first :
      (left : ℕ)
      → xs ≡ first
      → find (kernel_services g) texts m table name (suc (suc left)) 0 ≡ done (some 1)
  unfolding find
  find-first left e =
      let (r, eq, small, iff) = strcmp-eq g.fuel m name (table 0) xs first text text₀ enough in
      let (q, eq', small', iff') = strcmp-eq g.fuel m name (table 1) xs second text text₁ enough in
      let one : r ≡ 1 = iff.1 e in
      let zero_answer : q ≡ 0 = differ q small' (λ two. distinct (sym e ∙ iff'.0 two)) in
      rw (eq, find) (rw one (rw (eq', find) (rw zero_answer)))

-- With the names of the registers in memory, "r0" and "r1" first, and more fuel than bytes, `get_reg`
-- of the kernel answers 1 for the text "r0" and 0 for every other text, since it takes the first name
-- that differs.
pub get_reg_lem :
    (g : Globals) (texts : Tables) (m : Mem) (reg : ℕ) (xs : List ℕ)
    → IsText m reg xs
    → IsText m (texts.regs 0) r0_text
    → IsText m (texts.regs 1) r1_text
    → length xs < g.fuel
    → ((xs ≡ r0_text) → get_reg (kernel_services g) texts m reg ≡ done 1)
      × ((xs ≢ r0_text) → get_reg (kernel_services g) texts m reg ≡ done 0)
unfolding get_reg
get_reg_lem g texts m reg xs t t₀ t₁ h = (
  (λ e. rw (find-first g texts m texts.regs reg xs r0_text r1_text t t₀ t₁ r0-ne-r1 h 5 e)),
  λ n. rw (find-other g texts m texts.regs reg xs r0_text r1_text t t₀ t₁ r0-ne-r1 h 6 n),
)

-- With the names of four operations or more in memory, "hlt" and "mov" first, and more fuel than bytes,
-- the search of `parse` in the kernel takes the token "hlt" for `mov` and every other token for `hlt`.
pub find_op_lem :
    (g : Globals) (texts : Tables) (left : ℕ) (m : Mem) (token : ℕ) (xs : List ℕ)
    → IsText m token xs
    → IsText m (texts.ops 0) hlt_text
    → IsText m (texts.ops 1) mov_text
    → length xs < g.fuel
    → ((xs ≡ hlt_text)
        → find (kernel_services g) texts m texts.ops token (suc (suc left)) 0 ≡ done (some 1))
      × ((xs ≢ hlt_text)
          → find (kernel_services g) texts m texts.ops token (suc (suc left)) 0 ≡ done (some 0))
find_op_lem g texts left m token xs t t₀ t₁ h = (
  (λ e. find-first g texts m texts.ops token xs hlt_text mov_text t t₀ t₁ hlt-ne-mov h left e),
  λ n. find-other g texts m texts.ops token xs hlt_text mov_text t t₀ t₁ hlt-ne-mov h (suc left) n,
)
