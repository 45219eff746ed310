-- ===== src/Task/Schedule.antt =====
-- `task_schedule` on a queue, and the end of `run_que` after a kill.
use d.Base.{List, Run, [], arith, done, length, ℕ, ◌++◌, ◌+◌, ◌<◌, ◌^◌, ◌∷◌, ◌≡◌, refl, suc, ◌∙◌}
use d.Kernel.{Globals}
use d.Memory.{load32, store32}
use d.Memory.Laws.{Apart, load32-store32_ne, load32-store32_self}
use d.Task.{
  prev_at, next_at, status_at, Calls, link, schedule, schedule_at, sizeof_proc, task_schedule,
  head_at, que_loop, run_que, unlink, task_done, task_kill,
}
use d.Task.Queue.{IsQueue, IsNew, IsQueue-frame}
use d.Task.Link.{link_frame, proc_b, link-IsQueue}
use d.Term.{Screen}

module _ (g : Globals) (call : Calls) (switch_task : (old new : ℕ) → Screen → Run Screen) where
  -- Take a queue whose count has room, and a new process with no callback for its scheduling, which
  -- shares no byte with the queue or the processes on it. `task_schedule` returns, gives the process its
  -- status, and makes it the last one of the queue, with the order of the others as it was.
  pub task_schedule-IsQueue :
      (proc a : ℕ) (ys : List ℕ) (b : ℕ) (s : Screen)
      → IsQueue s.mem g.task_que a ys b
      → IsNew g.task_que proc (a ∷ ys)
      → length ys + 2 < 2 ^ 32
      → load32 s.mem (schedule_at proc) ≡ 0
      → (t : Screen) × (task_schedule g call switch_task proc s ≡ done t)
        × IsQueue t.mem g.task_que a (ys ++ (proc ∷ [])) proc
        × (load32 t.mem (status_at proc) ≡ schedule)
  unfolding task_schedule
  task_schedule-IsQueue proc a ys b s q fresh room none_set =
      let m = store32 s.mem (status_at proc) schedule in
      let kept = λ (w : ℕ) (h : Apart proc sizeof_proc w 4).
        load32-store32_ne s.mem (status_at proc) schedule w (omega arith) in
      let called : load32 m (schedule_at proc) ≡ 0 =
        load32-store32_ne s.mem (status_at proc) schedule (schedule_at proc) (omega arith)
        ∙ none_set in
      let q' = IsQueue-frame s.mem m g.task_que proc kept a ys b q fresh in
      (
        record s { mem = link g.task_que proc m },
        rw (called, task_schedule) refl,
        link-IsQueue m g.task_que a ys b proc q' fresh room,
        link_frame m g.task_que a ys b proc q' fresh (status_at proc) (omega arith)
              (omega (arith, proc_b m g.task_que a ys b proc q' fresh))
              (omega (arith, fresh.from_que)) (omega (arith, fresh.from_que))
            ∙ load32-store32_self s.mem (status_at proc) schedule,
      )

  -- Let `a` be the head of the queue and DONE, and `b` before it and `y` behind it, none of which shares a
  -- byte with the queue. `task_kill` of `a` returns, and leaves the queue's head as it is, with no next
  -- process: `run_que` returns at once from there and runs none of the others.
  pub run_que-task_kill :
      (fuel a y b : ℕ) (s : Screen)
      → load32 s.mem (head_at g.task_que) ≡ a
      → load32 s.mem (status_at a) ≡ task_done
      → load32 s.mem (prev_at a) ≡ b
      → load32 s.mem (next_at a) ≡ y
      → Apart a sizeof_proc g.task_que 16
      → Apart b sizeof_proc g.task_que 16
      → Apart y sizeof_proc g.task_que 16
      → (t : Screen) × (task_kill g call switch_task a s ≡ done t)
        × (load32 t.mem (head_at g.task_que) ≡ a)
        × (run_que g call switch_task (suc fuel) t ≡ done t)
  unfolding run_que task_kill unlink
  run_que-task_kill fuel a y b s head ended prev next a_que b_que y_que =
      let m = s.mem in
      let m₁ = store32 m (next_at b) y in
      let m₂ = store32 m₁ (prev_at y) b in
      let m₃ = store32 m₂ (next_at a) 0 in
      let m₄ = store32 m₃ (prev_at a) 0 in
      let stays : load32 m₄ (head_at g.task_que) ≡ a =
        load32-store32_ne m₃ (prev_at a) 0 (head_at g.task_que) (omega arith)
        ∙ load32-store32_ne m₂ (next_at a) 0 (head_at g.task_que) (omega arith)
        ∙ load32-store32_ne m₁ (prev_at y) b (head_at g.task_que) (omega arith)
        ∙ load32-store32_ne m (next_at b) y (head_at g.task_que) (omega arith)
        ∙ head in
      let last : load32 m₄ (next_at a) ≡ 0 =
        load32-store32_ne m₃ (prev_at a) 0 (next_at a) (omega arith)
        ∙ load32-store32_self m₂ (next_at a) 0 in
      let t : Screen = record s { mem = m₄ } in
      (
        t,
        rw (ended, task_kill) (rw prev (rw next refl)),
        stays,
        rw (stays, run_que) (rw (last, que_loop) refl),
      )
