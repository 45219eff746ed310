-- ===== src/Task/Queue.antt =====
-- The queue as a ring of processes.
use d.Base.{All, List, [], arith, inl, inr, length, ℕ, ◌+◌, ◌<◌, ◌^◌, ◌∙◌, ◌∷◌, ◌≡◌, ◌≢◌, ◌⊎◌}
use d.Memory.{Mem, load32}
use d.Memory.Laws.{Apart}
use d.Task.{head_at, next_at, prev_at, sizeof_proc, tail_at, tasks_at}

-- The processes `ys` follow `a`, each linked to the one before it in both directions, up to `b`; those
-- before `b` share no byte with it.
abbrev pub Chain : Mem → (a : ℕ) → List ℕ → (b : ℕ) → Type 0
Chain m a [] b = a ≡ b
Chain m a (y ∷ ys) b =
    (load32 m (next_at a) ≡ y)
    × (load32 m (prev_at y) ≡ a)
    × Apart a sizeof_proc b sizeof_proc
    × Chain m y ys b

-- The queue holds `a` and then `ys`, of which `b` is the last one, and the last one leads back to `a`.
-- The link back from `a` is that of a queue of one process: it names `a` itself.
pub record IsQueue (m : Mem) (que a : ℕ) (ys : List ℕ) (b : ℕ) : Type 0 where
  pub head : load32 m (head_at que) ≡ a
  pub tail : load32 m (tail_at que) ≡ b
  pub chain : Chain m a ys b
  pub back : load32 m (next_at b) ≡ a
  pub self : load32 m (prev_at a) ≡ a
  pub count : load32 m (tasks_at que) ≡ length ys + 1
  pub nonzero : a ≢ 0
  pub que_apart : All (λ z. Apart z sizeof_proc que 16) (a ∷ ys)

-- A process that shares no byte with the queue nor with the processes of it.
pub record IsNew (que proc : ℕ) (zs : List ℕ) : Type 0 where
  pub fits : proc < 2 ^ 32
  pub nonzero : proc ≢ 0
  pub from_que : Apart proc sizeof_proc que 16
  pub from_tasks : All (λ z. Apart z sizeof_proc proc sizeof_proc) zs

pub Chain-first :
    (m : Mem) (a : ℕ) (ys : List ℕ) (b : ℕ)
    → Chain m a ys b
    → (a ≡ b) ⊎ Apart a sizeof_proc b sizeof_proc
Chain-first m a [] b c = inl c
Chain-first m a (y ∷ ys) b c = inr c.2

pub All-last :
    (P : ℕ → Type 0) (m : Mem) (a : ℕ) (ys : List ℕ) (b : ℕ) → Chain m a ys b → All P (a ∷ ys) → P b
All-last P m a [] b c h = rw (← c) h.0
All-last P m a (y ∷ ys) b c h = All-last P m y ys b c.3 h.1

-- What changes a process outside the queue changes nothing of it.
module _ (m m' : Mem) (que proc : ℕ)
    (same_word : (w : ℕ) → Apart proc sizeof_proc w 4 → load32 m' w ≡ load32 m w) where
  Chain-frame :
      (a : ℕ) (ys : List ℕ) (b : ℕ)
      → Chain m a ys b
      → All (λ z. Apart z sizeof_proc proc sizeof_proc) (a ∷ ys)
      → Chain m' a ys b
  Chain-frame a [] b c h = c
  Chain-frame a (y ∷ ys) b c h =
      let here = h.0 in
      let there = h.1.0 in
      (
        same_word (next_at a) (omega arith) ∙ c.0,
        same_word (prev_at y) (omega arith) ∙ c.1,
        c.2,
        Chain-frame y ys b c.3 h.1,
      )

  pub IsQueue-frame :
      (a : ℕ) (ys : List ℕ) (b : ℕ)
      → IsQueue m que a ys b
      → IsNew que proc (a ∷ ys)
      → IsQueue m' que a ys b
  IsQueue-frame a ys b q fresh =
      let from_que = fresh.from_que in
      let last =
        All-last (λ z. Apart z sizeof_proc proc sizeof_proc) m a ys b q.chain fresh.from_tasks in
      let start = fresh.from_tasks.0 in
      record {
        head = same_word (head_at que) (omega arith) ∙ q.head;
        tail = same_word (tail_at que) (omega arith) ∙ q.tail;
        chain = Chain-frame a ys b q.chain fresh.from_tasks;
        back = same_word (next_at b) (omega arith) ∙ q.back;
        self = same_word (prev_at a) (omega arith) ∙ q.self;
        count = same_word (tasks_at que) (omega arith) ∙ q.count;
        nonzero = q.nonzero;
        que_apart = q.que_apart;
      }
