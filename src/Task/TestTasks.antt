-- ===== src/Task/TestTasks.antt =====
-- `test_task_A` and `test_task_B` of task.c. They call `itoa`, which has two parameters, with one
-- argument: `base` is what the second one happens to be.
use d.Base.{Run, codes, done, suc, zero, ℕ, ◌+◌, ◌>>=◌}
use d.Kernel.{Globals, write_number, write_string}
use d.Memory.{load32}
use d.Task.{Calls, name_at, task_kill, task_yield}
use d.Term.{Screen, write_text}

module _ (g : Globals) (call : Calls) (switch_task : (old new : ℕ) → Screen → Run Screen)
    (base : ℕ) where
  -- `for(i = 0; i < 5; i++)`, with `left` rounds to go. `task_yield` returns when the process is
  -- switched to again.
  unfoldable pub test_loop : (left i self : ℕ) → Screen → Run Screen
  unfolding write_string write_number task_yield
  test_loop zero i self s = done s
  test_loop (suc left) i self s = do
    let s₁ = write_text (codes "\n") s
    t ← write_string g.fuel (load32 s₁.mem (name_at self)) s₁
    u ← write_number g i base t
    v ← task_yield g call switch_task self u
    test_loop left (i + 1) self v

  -- What a test task that falls off its end returns is not used.
  unfoldable pub test_task_a : (self : ℕ) → Screen → Run Screen
  unfolding test_loop task_kill
  test_task_a self s = test_loop 5 0 self s >>= λ t. task_kill g call switch_task self t

  unfoldable pub test_task_b : (self : ℕ) → Screen → Run Screen
  unfolding test_loop task_kill
  test_task_b self s = test_loop 5 0 self s >>= λ t. task_kill g call switch_task self t
