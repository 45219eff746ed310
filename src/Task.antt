-- ===== src/Task.antt =====
-- task.c: processes and their queue, as records in memory. A call of a function pointer, and
-- `switchTask`, which is assembler, are parameters.
pub mod Layout
pub mod Schedule
pub mod Link
pub mod Queue
pub mod TestTasks
pub use Layout.*
use d.Base.{
  Run, done, if◌then◌else◌, ℕ, ◌*◌, ◌+◌, ◌==◌, List, Option, [], codes, faults, get_elem?, none,
  some, spins, suc, zero, ◌%◌, ◌&&◌, ◌>>=◌, ◌^◌, ◌∷◌,
}
use d.Memory.{Mem, load32, store32}
use d.Term.{Screen, write_text}
use d.Kernel.{Globals, write_string}
use d.Mm.Malloc.{free}
use d.Mm.Init.{malloc_page, malloc_raw}
use d.Mm.Pages.{address_at}

-- A change of memory alone.
abbrev pub on_mem : (Mem → Mem) → Screen → Screen
on_mem f s = record s { mem = f s.mem }

-- A callback of `proc_t`: `if(proc->f != NULL) proc->f(proc);`
abbrev pub Calls : Type 0
Calls = (function proc : ℕ) → Screen → Run Screen

unfoldable pub call_if : Calls → (field proc : ℕ) → Screen → Run Screen
call_if call field proc s =
    if load32 s.mem field == 0 then done s else call (load32 s.mem field) proc s

-- `proc->status = …`.
unfoldable pub set_status : (proc status : ℕ) → Screen → Screen
set_status proc status s = on_mem (λ m. store32 m (status_at proc) status) s

-- The queue's links after `task_schedule` of `proc`.
unfoldable pub link : (que proc : ℕ) → Mem → Mem
link que proc m =
    let first =
      let m₁ = store32 (store32 m (head_at que) proc) (tail_at que) proc in
      store32 (store32 m₁ (prev_at proc) proc) (next_at proc) proc in
    let later =
      let m₁ = store32 m (next_at proc) (load32 m (head_at que)) in
      let m₂ = store32 m₁ (prev_at proc) (load32 m₁ (tail_at que)) in
      store32 (store32 m₂ (next_at (load32 m₂ (tail_at que))) proc) (tail_at que) proc in
    let m' =
      if (load32 m (head_at que) == 0) && (load32 m (tail_at que) == 0) then first else later in
    store32 m' (tasks_at que) ((load32 m' (tasks_at que) + 1) % 2 ^ 32)

-- The removal of `task_kill`.
unfoldable pub unlink : (proc : ℕ) → Mem → Mem
unlink proc m =
    let prev = load32 m (prev_at proc) in
    let next = load32 m (next_at proc) in
    let m₁ = store32 (store32 m (next_at prev) next) (prev_at next) prev in
    store32 (store32 m₁ (next_at proc) 0) (prev_at proc) 0

-- `switch_task` is `switchTask(old, new)`.
module _ (g : Globals) (call : Calls) (switch_task : (old new : ℕ) → Screen → Run Screen) where
  unfoldable pub task_schedule : (proc : ℕ) → Screen → Run Screen
  unfolding link call_if set_status
  task_schedule proc s = do
    t ← call_if call (schedule_at proc) proc (set_status proc schedule s)
    done (on_mem (link g.task_que proc) t)

  unfoldable pub task_run : (proc : ℕ) → Screen → Run Screen
  unfolding call_if set_status
  task_run proc s =
      let t = on_mem (λ m. store32 m (current_at g.task_que) proc) (set_status proc running s) in
      call_if call (main_at proc) proc t

  unfoldable pub task_init : (proc : ℕ) → Screen → Run Screen
  unfolding call_if set_status
  task_init proc s = do
    t ← call_if call (init_at proc) proc (set_status proc init s)
    done (set_status proc ready t)

  -- `free` takes a page's record; the second argument here is the context that the page holds.
  unfoldable pub task_deinit : (proc : ℕ) → Screen → Run Screen
  unfolding call_if set_status
  task_deinit proc s = do
    t ← call_if call (deinit_at proc) proc (set_status proc deinit s)
    let m₁ = free t.mem g.mm_free (load32 t.mem (heap_at (load32 t.mem (ctx_at proc))))
    let m₂ = free m₁ g.mm_free (load32 m₁ (ctx_at proc))
    done (set_status proc task_done (record t { mem = m₂ }))

  unfoldable pub task_kill : (proc : ℕ) → Screen → Run Screen
  unfolding task_deinit unlink
  task_kill proc s =
      let ended =
        if load32 s.mem (status_at proc) == task_done then done s else task_deinit proc s in
      ended >>= λ t. done (on_mem (unlink proc) t)

  unfoldable pub task_yield : (proc : ℕ) → Screen → Run Screen
  unfolding call_if set_status
  task_yield proc s = do
    t ← call_if call (yield_at proc) proc (set_status proc yielding s)
    let next = load32 t.mem (next_at proc)
    u ← switch_task (load32 t.mem (ctx_at proc)) (load32 t.mem (ctx_at next)) t
    done (set_status proc ready u)

  -- The loop of `run_que`.
  unfoldable pub que_loop : (fuel current : ℕ) → Screen → Run Screen
  unfolding task_run task_kill
  que_loop zero current s = spins
  que_loop (suc fuel) current s =
      let round = (do
        t ← write_string g.fuel (load32 s.mem (name_at current)) s
        u ← task_run current t
        let next = load32 u.mem (next_at current)
        let killed =
            if load32 u.mem (status_at current) == task_done
            then task_kill (load32 u.mem (prev_at next)) u
            else done u
        v ← killed
        que_loop fuel next v) in
      if load32 s.mem (next_at current) == 0 then done s else round

  unfoldable pub run_que : (fuel : ℕ) → Screen → Run Screen
  unfolding que_loop
  run_que fuel s = que_loop fuel (load32 s.mem (head_at g.task_que)) s

  -- The context of `init_task`: its page, the page of its heap, and the registers.
  unfoldable pub make_ctx : (proc main : ℕ) → Mem → Run Mem
  unfolding malloc_page malloc_raw
  make_ctx proc main m = do
    r ← malloc_raw g m sizeof_ctx
    let m₁ = store32 r.0 (ctx_at proc) r.1
    q ← malloc_page g m₁ 4096
    let ctx = load32 q.0 (ctx_at proc)
    let m₂ = store32 q.0 (heap_at ctx) q.1
    let m₃ = store32 (store32 m₂ (register_at ctx 0) 0) (register_at ctx 1) 0
    let m₄ = store32 (store32 m₃ (register_at ctx 2) 0) (register_at ctx 3) 0
    let m₅ = store32 (store32 m₄ (register_at ctx 4) 0) (register_at ctx 5) 0
    let esp = (load32 m₅ (address_at (load32 m₅ (heap_at ctx))) + 4096) % 2 ^ 32
    let m₆ = store32 (store32 m₅ (register_at ctx 6) esp) (register_at ctx 7) 0
    done (store32 m₆ (register_at ctx 8) main)

  unfoldable pub init_task : (proc name main init deinit schedule yield : ℕ) → Screen → Run Screen
  unfolding make_ctx task_init
  init_task proc name main init deinit schedule yield s = do
    let m₁ = store32 (store32 s.mem (name_at proc) name) (main_at proc) main
    let m₂ = store32 (store32 m₁ (init_at proc) init) (deinit_at proc) deinit
    let m₃ = store32 (store32 m₂ (schedule_at proc) schedule) (yield_at proc) yield
    m ← make_ctx proc main m₃
    task_init proc (record s { mem = m })

  -- `test_a` and `test_b` are the places of the two local records, `name_a` and `name_b` those of their
  -- names, and `main_a` and `main_b` the addresses of the test tasks.
  unfoldable pub init_tasker : (test_a name_a main_a test_b name_b main_b : ℕ) → Screen → Run Screen
  unfolding init_task task_schedule
  init_tasker test_a name_a main_a test_b name_b main_b s = do
    let m₁ = store32 s.mem (tasks_at g.task_que) 0
    let m₂ = store32 (store32 m₁ (head_at g.task_que) 0) (tail_at g.task_que) 0
    t ← init_task test_a name_a main_a 0 0 0 0 (record s { mem = m₂ })
    u ← init_task test_b name_b main_b 0 0 0 0 t
    v ← task_schedule test_a u
    task_schedule test_b v

-- `proc_status_names`, and `task_log_status`. A status that is none of them reads behind the array.
unfoldable pub proc_status_names : (status : ℕ) → Option (List ℕ)
proc_status_names status =
    get_elem?
      (codes "SCHEDULE"
        ∷ codes "RUNNING"
        ∷ codes "YIELDING"
        ∷ codes "DONE"
        ∷ codes "INIT"
        ∷ codes "DEINIT"
        ∷ codes "READY"
        ∷ [])
      status

unfoldable pub task_log_status : Globals → (proc : ℕ) → Screen → Run Screen
unfolding proc_status_names
task_log_status g proc s = do
  let s₁ = write_text (codes "\n") s
  t ← write_string g.fuel (load32 s₁.mem (name_at proc)) s₁
  let u = write_text (codes ":") t
  elim (proc_status_names (load32 u.mem (status_at proc))) [
    | none ↦ faults
    | some label ↦ done (write_text (codes "\n") (write_text label u))
  ]
