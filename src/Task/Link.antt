-- ===== src/Task/Link.antt =====
-- How `task_schedule` lengthens the queue.
use d.Base.{
  All, List, [], ap, arith, length, refl, sym, ℕ, ◌%◌, ◌++◌, ◌+◌, ◌<◌, ◌^◌, ◌∙◌, ◌∷◌, ◌≡◌, ◌⊎◌,
  false, ◌&&◌, ◌==◌, All-append, length-append, true,
}
use d.Memory.{Mem, load32, store32}
use d.Memory.Laws.{Apart, load32-lt, load32-store32_ne, load32-store32_self}
use d.Task.{head_at, link, next_at, prev_at, sizeof_proc, tail_at, tasks_at}
use d.Task.Queue.{All-last, Chain, Chain-first, IsNew, IsQueue}

module _ (m m' : Mem) (que proc b : ℕ) (new : load32 m' (next_at b) ≡ proc)
    (back : load32 m' (prev_at proc) ≡ b)
    (same_next : (z : ℕ)
      → Apart z sizeof_proc b sizeof_proc
      → Apart z sizeof_proc proc sizeof_proc
      → Apart z sizeof_proc que 16
      → load32 m' (next_at z) ≡ load32 m (next_at z))
    (same_prev : (z : ℕ)
      → (z ≡ b) ⊎ Apart z sizeof_proc b sizeof_proc
      → Apart z sizeof_proc proc sizeof_proc
      → Apart z sizeof_proc que 16
      → load32 m' (prev_at z) ≡ load32 m (prev_at z)) where
  -- `proc` is linked in behind `b`, and the links of the processes before it stay.
  Chain-snoc :
      (a : ℕ) (ys : List ℕ)
      → Chain m a ys b
      → All (λ z. Apart z sizeof_proc proc sizeof_proc) (a ∷ ys)
      → All (λ z. Apart z sizeof_proc que 16) (a ∷ ys)
      → Chain m' a (ys ++ (proc ∷ [])) proc
  Chain-snoc a [] c apart off =
      (ap (λ (z : ℕ). load32 m' (next_at z)) c ∙ new, back ∙ sym c, apart.0, refl)
  Chain-snoc a (y ∷ ys) c apart off = (
    same_next a c.2 apart.0 off.0 ∙ c.0,
    same_prev y (Chain-first m y ys b c.3) apart.1.0 off.1.0 ∙ c.1,
    apart.0,
    Chain-snoc y ys c.3 apart.1 off.1,
  )

module _ (m : Mem) (que a : ℕ) (ys : List ℕ) (b proc : ℕ) (q : IsQueue m que a ys b)
    (fresh : IsNew que proc (a ∷ ys)) where
  que_b : Apart b sizeof_proc que 16
  que_b = All-last (λ z. Apart z sizeof_proc que 16) m a ys b q.chain q.que_apart

  pub proc_b : Apart b sizeof_proc proc sizeof_proc
  proc_b = All-last (λ z. Apart z sizeof_proc proc sizeof_proc) m a ys b q.chain fresh.from_tasks

  b_fits : b < 2 ^ 32
  b_fits = omega (arith, q.tail, load32-lt m (tail_at que))

  abbrev linked : Mem
  linked =
      let m₂ = store32 (store32 m (next_at proc) a) (prev_at proc) b in
      store32 (store32 (store32 m₂ (next_at b) proc) (tail_at que) proc) (tasks_at que)
        ((length ys + 1 + 1) % 2 ^ 32)

  link_eq : link que proc m ≡ linked
  unfolding link
  link_eq =
      let later : (load32 m (head_at que) == 0) && (load32 m (tail_at que) == 0) ≡ false =
        ground (arith, q.head, q.nonzero) in
      let m₁ = store32 m (next_at proc) a in
      let m₂ = store32 m₁ (prev_at proc) b in
      let m₃ = store32 (store32 m₂ (next_at b) proc) (tail_at que) proc in
      let new = fresh.from_que in
      let tail₁ : load32 m₁ (tail_at que) ≡ b =
        load32-store32_ne m (next_at proc) a (tail_at que) (omega arith) ∙ q.tail in
      let tail₂ : load32 m₂ (tail_at que) ≡ b =
        load32-store32_ne m₁ (prev_at proc) b (tail_at que) (omega arith) ∙ tail₁ in
      let count : load32 m₃ (tasks_at que) ≡ length ys + 1 =
        load32-store32_ne _ (tail_at que) proc (tasks_at que) (omega arith)
        ∙ load32-store32_ne m₂ (next_at b) proc (tasks_at que) (omega (arith, que_b))
        ∙ load32-store32_ne m₁ (prev_at proc) b (tasks_at que) (omega arith)
        ∙ load32-store32_ne m (next_at proc) a (tasks_at que) (omega arith)
        ∙ q.count in
      rw later (rw q.head (rw tail₁ (rw tail₂ (rw count refl))))

  -- A word that is none of the five that are written.
  pub link_frame :
      (w : ℕ)
      → Apart (prev_at proc) 8 w 4
      → Apart (next_at b) 4 w 4
      → Apart (tail_at que) 4 w 4
      → Apart (tasks_at que) 4 w 4
      → load32 (link que proc m) w ≡ load32 m w
  link_frame w h k l n = rw link_eq (
      load32-store32_ne _ (tasks_at que) _ w (omega arith)
      ∙ load32-store32_ne _ (tail_at que) proc w (omega arith)
      ∙ load32-store32_ne _ (next_at b) proc w (omega arith)
      ∙ load32-store32_ne _ (prev_at proc) b w (omega arith)
      ∙ load32-store32_ne m (next_at proc) a w (omega arith))

  written :
      length ys + 2 < 2 ^ 32
      → (load32 (link que proc m) (next_at b) ≡ proc)
        × (load32 (link que proc m) (prev_at proc) ≡ b)
        × (load32 (link que proc m) (next_at proc) ≡ a)
        × (load32 (link que proc m) (tail_at que) ≡ proc)
        × (load32 (link que proc m) (tasks_at que) ≡ length ys + 2)
  written small =
      let m₁ = store32 m (next_at proc) a in
      let m₂ = store32 m₁ (prev_at proc) b in
      let m₃ = store32 m₂ (next_at b) proc in
      let m₄ = store32 m₃ (tail_at que) proc in
      let count = (length ys + 1 + 1) % 2 ^ 32 in
      let new = fresh.from_que in
      let proc_fits = fresh.fits in
      let outer =
        λ (w : ℕ) (h : Apart (tasks_at que) 4 w 4). load32-store32_ne m₄ (tasks_at que) count w h in
      let inner =
        λ (w : ℕ) (h : Apart (tail_at que) 4 w 4). load32-store32_ne m₃ (tail_at que) proc w h in
      rw link_eq (
        outer (next_at b) (omega (arith, que_b))
            ∙ inner (next_at b) (omega (arith, que_b))
            ∙ load32-store32_self m₂ (next_at b) proc
            ∙ omega arith,
        outer (prev_at proc) (omega arith)
            ∙ inner (prev_at proc) (omega arith)
            ∙ load32-store32_ne m₂ (next_at b) proc (prev_at proc) (omega (arith, proc_b))
            ∙ load32-store32_self m₁ (prev_at proc) b
            ∙ omega (arith, b_fits),
        outer (next_at proc) (omega arith)
            ∙ inner (next_at proc) (omega arith)
            ∙ load32-store32_ne m₂ (next_at b) proc (next_at proc) (omega (arith, proc_b))
            ∙ load32-store32_ne m₁ (prev_at proc) b (next_at proc) (omega arith)
            ∙ load32-store32_self m (next_at proc) a
            ∙ omega (arith, q.head, load32-lt m (head_at que)),
        outer (tail_at que) (omega arith) ∙ load32-store32_self m₃ (tail_at que) proc ∙ omega arith,
        load32-store32_self m₄ (tasks_at que) count ∙ omega arith,
      )

  -- The process is the last one of the queue then.
  pub link-IsQueue :
      length ys + 2 < 2 ^ 32 → IsQueue (link que proc m) que a (ys ++ (proc ∷ [])) proc
  link-IsQueue small =
      let (new, back, ring, tail, count) = written small in
      let apart_a : Apart a sizeof_proc que 16 = q.que_apart.0 in
      let proc_a : Apart a sizeof_proc proc sizeof_proc = fresh.from_tasks.0 in
      let first = Chain-first m a ys b q.chain in
      let from_que = fresh.from_que in
      record {
        head =
            link_frame (head_at que) (omega arith) (omega (arith, que_b)) (omega arith)
              (omega arith)
            ∙ q.head;
        tail = tail;
        chain =
            Chain-snoc m (link que proc m) que proc b new back
              (λ z h k o.
                link_frame (next_at z) (omega arith) (omega arith) (omega arith) (omega arith))
              (λ z h k o.
                link_frame (prev_at z) (omega arith) (omega arith) (omega arith) (omega arith))
              a ys q.chain fresh.from_tasks q.que_apart;
        back = ring;
        self =
            link_frame (prev_at a) (omega arith) (omega (arith, first)) (omega arith) (omega arith)
            ∙ q.self;
        count = omega (arith, count, length-append ys (proc ∷ []));
        nonzero = q.nonzero;
        que_apart =
            All-append (λ z. Apart z sizeof_proc que 16) (a ∷ ys) (proc ∷ []) q.que_apart
              (from_que, tt);
      }

-- The only process of a queue that was empty.
pub first-IsQueue :
    (m : Mem) (que proc : ℕ)
    → load32 m (head_at que) ≡ 0
    → load32 m (tail_at que) ≡ 0
    → load32 m (tasks_at que) ≡ 0
    → IsNew que proc []
    → IsQueue (link que proc m) que proc [] proc
unfolding link
first-IsQueue m que proc h t n fresh =
    let none_yet : (load32 m (head_at que) == 0) && (load32 m (tail_at que) == 0) ≡ true =
      ground (arith, h, t) in
    let m₁ = store32 m (head_at que) proc in
    let m₂ = store32 m₁ (tail_at que) proc in
    let m₃ = store32 m₂ (prev_at proc) proc in
    let m₄ = store32 m₃ (next_at proc) proc in
    let from_que = fresh.from_que in
    let fits = fresh.fits in
    let count : load32 m₄ (tasks_at que) ≡ 0 =
      load32-store32_ne m₃ (next_at proc) proc (tasks_at que) (omega arith)
      ∙ load32-store32_ne m₂ (prev_at proc) proc (tasks_at que) (omega arith)
      ∙ load32-store32_ne m₁ (tail_at que) proc (tasks_at que) (omega arith)
      ∙ load32-store32_ne m (head_at que) proc (tasks_at que) (omega arith)
      ∙ n in
    let outer = λ (w : ℕ) (a : Apart (tasks_at que) 4 w 4).
      load32-store32_ne m₄ (tasks_at que) ((0 + 1) % 2 ^ 32) w a in
    let inner = λ (w : ℕ) (a : Apart (prev_at proc) 8 w 4).
      load32-store32_ne m₃ (next_at proc) proc w (omega arith)
      ∙ load32-store32_ne m₂ (prev_at proc) proc w (omega arith) in
    rw none_yet (
      rw count (record {
        head =
            outer (head_at que) (omega arith)
            ∙ inner (head_at que) (omega arith)
            ∙ load32-store32_ne m₁ (tail_at que) proc (head_at que) (omega arith)
            ∙ load32-store32_self m (head_at que) proc
            ∙ omega arith;
        tail =
            outer (tail_at que) (omega arith)
            ∙ inner (tail_at que) (omega arith)
            ∙ load32-store32_self m₁ (tail_at que) proc
            ∙ omega arith;
        chain = refl;
        back =
            outer (next_at proc) (omega arith)
            ∙ load32-store32_self m₃ (next_at proc) proc
            ∙ omega arith;
        self =
            outer (prev_at proc) (omega arith)
            ∙ load32-store32_ne m₃ (next_at proc) proc (prev_at proc) (omega arith)
            ∙ load32-store32_self m₂ (prev_at proc) proc
            ∙ omega arith;
        count = load32-store32_self m₄ (tasks_at que) ((0 + 1) % 2 ^ 32) ∙ omega arith;
        nonzero = fresh.nonzero;
        que_apart = (from_que, tt);
      }))
