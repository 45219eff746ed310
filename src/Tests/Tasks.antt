-- ===== src/Tests/Tasks.antt =====
-- task.c at concrete queues.
use d.Tests.Data.{empty}
use d.Base.{Run, [], arith, done, refl, spins, ℕ, ◌∷◌, ◌≡◌}
use d.Kernel.{Globals}
use d.Memory.{Mem, load32, load8, store32, store8}
use d.Task.{
  status_at, prev_at, next_at, link, Calls, head_at, run_que, task_done, task_kill, task_schedule,
  schedule,
}
use d.Task.Queue.{IsQueue}
use d.Task.Link.{first-IsQueue}
use d.Task.Schedule.{run_que-task_kill, task_schedule-IsQueue}
use d.Term.{Screen}

abbrev globals : Globals
globals = record {
  fuel = 8;
  mm_free = 0;
  mm_used = 0;
  mb_free = 0;
  used = 0;
  task_que = 4;
  itoa_buf = 0;
  zero_text = 0;
  digits_text = 0;
}

-- No process has a callback here, and nothing is switched.
abbrev no_call : Calls
no_call function proc s = spins

abbrev no_switch : (old new : ℕ) → Screen → Run Screen
no_switch old new s = spins

abbrev screen_on : Mem → Screen
screen_on m = record {
  width = 3;
  height = 2;
  color = 7;
  xpos = 0;
  ypos = 0;
  buffer = 1000;
  mem = m;
  log = [];
}

first-IsQueue_run : IsQueue (link 4 100 empty) 4 100 [] 100
unfolding load32 load8
first-IsQueue_run =
    first-IsQueue empty 4 100 refl refl refl (record {
      fits = omega arith;
      nonzero = omega arith;
      from_que = omega arith;
      from_tasks = tt;
    })

task_schedule-IsQueue_example :
    (t : Screen) × (task_schedule globals no_call no_switch 200 (screen_on (link 4 100 empty))
      ≡ done t)
    × IsQueue t.mem 4 100 (200 ∷ []) 200
    × (load32 t.mem (status_at 200) ≡ schedule)
unfolding load32 load8 link store32 store8
task_schedule-IsQueue_example =
    task_schedule-IsQueue globals no_call no_switch 200 100 [] 100 (screen_on (link 4 100 empty))
      first-IsQueue_run
      (record {
        fits = omega arith;
        nonzero = omega arith;
        from_que = omega arith;
        from_tasks = (omega arith, tt);
      })
      (omega arith) refl

-- Three processes in a ring, of which the head is done.
abbrev ring : Mem
ring =
    store32
      (store32 (store32 (store32 empty (head_at 4) 100) (status_at 100) task_done) (prev_at 100)
        300)
      (next_at 100) 200

run_que-task_kill_example :
    (t : Screen) × (task_kill globals no_call no_switch 100 (screen_on ring) ≡ done t)
    × (load32 t.mem (head_at 4) ≡ 100)
    × (run_que globals no_call no_switch 1 t ≡ done t)
unfolding load32 load8 store32 store8
run_que-task_kill_example =
    run_que-task_kill globals no_call no_switch 0 100 200 300 (screen_on ring) refl refl refl refl
      (omega arith) (omega arith) (omega arith)
