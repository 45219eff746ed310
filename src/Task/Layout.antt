-- ===== src/Task/Layout.antt =====
-- The statuses and the records of task.h.
use d.Base.{ℕ, ◌*◌, ◌+◌}

-- `enum proc_status`.
abbrev pub schedule : ℕ
schedule = 0

abbrev pub running : ℕ
running = 1

abbrev pub yielding : ℕ
yielding = 2

abbrev pub task_done : ℕ
task_done = 3

abbrev pub init : ℕ
init = 4

abbrev pub deinit : ℕ
deinit = 5

abbrev pub ready : ℕ
ready = 6

-- The fields of a `proc_t`, of 40 bytes.
abbrev pub name_at : ℕ → ℕ
name_at proc = proc

abbrev pub main_at : ℕ → ℕ
main_at proc = proc + 4

abbrev pub init_at : ℕ → ℕ
init_at proc = proc + 8

abbrev pub deinit_at : ℕ → ℕ
deinit_at proc = proc + 12

abbrev pub yield_at : ℕ → ℕ
yield_at proc = proc + 16

abbrev pub schedule_at : ℕ → ℕ
schedule_at proc = proc + 20

abbrev pub status_at : ℕ → ℕ
status_at proc = proc + 24

abbrev pub ctx_at : ℕ → ℕ
ctx_at proc = proc + 28

abbrev pub prev_at : ℕ → ℕ
prev_at proc = proc + 32

abbrev pub next_at : ℕ → ℕ
next_at proc = proc + 36

abbrev pub sizeof_proc : ℕ
sizeof_proc = 40

-- The fields of a `task_que_t`.
abbrev pub tasks_at : ℕ → ℕ
tasks_at que = que

abbrev pub head_at : ℕ → ℕ
head_at que = que + 4

abbrev pub tail_at : ℕ → ℕ
tail_at que = que + 8

abbrev pub current_at : ℕ → ℕ
current_at que = que + 12

-- A `ctx_t`: the heap's page, then eleven registers, EAX first.
abbrev pub heap_at : ℕ → ℕ
heap_at ctx = ctx

abbrev pub register_at : (ctx register : ℕ) → ℕ
register_at ctx register = ctx + 4 + 4 * register

abbrev pub sizeof_ctx : ℕ
sizeof_ctx = 48
