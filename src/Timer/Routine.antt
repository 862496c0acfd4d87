-- ===== src/Timer/Routine.antt =====
-- The loop that runs the tasks that are due: timer_task_routine of src/clang/lib/core/timer.c.
use beehive_im.Common.{ℕ, ◌≤◌, ◌==◌, nat_key, leb}
use beehive_im.Timer.{Timer}
use beehive_im.Timer.Sift.{count}

-- How many tasks of the heap are due
abbrev pub due : Timer → ℕ → ℕ
due ctx now = count (λ task. leb (ctx.ttl task) now) ctx.e ctx.len

-- No task is twice in the heap.
abbrev pub Once : Timer → Type 0
Once ctx = (task : ℕ) → count (λ x. x == task) ctx.e ctx.len ≤ 1
