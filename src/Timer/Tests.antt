-- ===== src/Timer/Tests.antt =====
-- The theorems of the heap of tasks at concrete inputs.
use beehive_im.Common.{
  ◌≢◌, leb, ℕ, zero, suc, ◌+◌, ◌≡◌, ◌≤◌, ◌<◌, ◌⊎◌, refl, Bool, none, some, [], ◌∷◌, if◌then◌else◌,
  nat_key, arith, get_or,
}
use beehive_im.Chat.{ok, fail}
use beehive_im.Timer.{Timer, sift_stop, timer_task_start, timer_task_pop, timer_task_stop}
use beehive_im.Timer.Sift.{IsHeap, count}
use beehive_im.Timer.Heap.{IsTimer, timer_task_start-IsTimer, timer_task_pop-IsTimer}
use beehive_im.Timer.Stop.{timer_task_stop-count, timer_task_stop_missed}

-- Task 1 is due at 10, task 2 at 20, task 3 at 30, any other at 40.
abbrev times : ℕ → ℕ
times task = get_or (40 ∷ 10 ∷ 20 ∷ 30 ∷ []) task 40

abbrev three : Timer
three = record { len = 3; cap = 128; e = λ i. suc i; ttl = times; idx = λ task. 0 }

three-IsHeap : IsHeap times (λ i. suc i) 3
three-IsHeap zero p q = absurd (omega (arith, p))
three-IsHeap (suc zero) p q = omega arith
three-IsHeap (suc (suc zero)) p q = omega arith
three-IsHeap (suc (suc (suc i))) p q = absurd (omega (arith, q))

three-IsTimer : IsTimer three
three-IsTimer = record { heap = three-IsHeap; within = omega arith; room = omega arith }

timer_task_start-IsTimer_example :
    (ctx' : Timer) × (timer_task_start three 4 ≡ some (ok, ctx'))
    × IsTimer ctx'
    × (ctx'.len ≡ 4)
    × (ctx'.ttl ≡ times)
    × ((p : ℕ → Bool) → count p ctx'.e ctx'.len ≡ count p three.e 3 + (if p 4 then 1 else 0))
timer_task_start-IsTimer_example = timer_task_start-IsTimer three 4 three-IsTimer

timer_task_pop-IsTimer_example :
    ((timer_task_pop three ≡ some (none, three)) × (three.len ≡ 0))
    ⊎ ((task : ℕ) × (ctx' : Timer) × (timer_task_pop three ≡ some (some task, ctx'))
        × IsTimer ctx'
        × (suc ctx'.len ≡ 3)
        × (ctx'.ttl ≡ times)
        × ((p : ℕ → Bool) → count p ctx'.e ctx'.len + (if p task then 1 else 0) ≡ count p three.e 3)
        × ((i : ℕ) → i < 3 → times task ≤ times (suc i)))
timer_task_pop-IsTimer_example = timer_task_pop-IsTimer three three-IsTimer

-- From 25 to 27, when two of the tasks are due
abbrev clock : ℕ → ℕ
clock k = if leb k 2 then 25 else 27

timer_task_stop-count_example :
    ((timer_task_stop three 1 ≡ some (fail, three))
      × ((3 ≤ three.idx 1) ⊎ (three.e (three.idx 1) ≢ 1)))
    ⊎ ((ctx' : Timer) × (timer_task_stop three 1 ≡ some (ok, ctx'))
        × (three.idx 1 < 3)
        × (three.e (three.idx 1) ≡ 1)
        × (suc ctx'.len ≡ 3)
        × ((p : ℕ → Bool) → count p ctx'.e ctx'.len + (if p 1 then 1 else 0) ≡ count p three.e 3))
timer_task_stop-count_example = timer_task_stop-count three 1

abbrev alone : Timer
alone = record { len = 1; cap = 128; e = λ i. 2; ttl = times; idx = λ task. 0 }

timer_task_stop_missed_example :
    (ctx' : Timer) × (timer_task_start alone 1 ≡ some (ok, ctx'))
    × (ctx'.len ≡ 2)
    × (ctx'.e 1 ≡ 2)
    × (timer_task_stop ctx' 2 ≡ some (fail, ctx'))
timer_task_stop_missed_example =
    timer_task_stop_missed alone 2 1 refl refl refl (omega arith) (omega arith)

-- A heap of seven tasks, each at its index
abbrev seven : Timer
seven = record {
  len = 7;
  cap = 128;
  e = λ i. i;
  ttl = λ task. get_or (1 ∷ 2 ∷ 10 ∷ 3 ∷ 11 ∷ 12 ∷ 4 ∷ []) task 0;
  idx = λ task. task;
}

-- When task 4 is stopped, task 6 comes below task 2, which is due later than it.
stop-seven :
    (ctx' : Timer) × (timer_task_stop seven 4 ≡ some (ok, ctx'))
    × (ctx'.e 4 ≡ 6)
    × (ctx'.e 2 ≡ 2)
    × (seven.ttl 6 < seven.ttl 2)
unfolding timer_task_stop sift_stop
stop-seven = (_, refl, refl, refl, omega arith)
