-- ===== src/Timer.antt =====
-- The heap of timed tasks: src/clang/lib/core/timer.c, types of src/clang/incl/timer.h. A task is a number, the
-- pointer to it; `ttl` and `idx` are the fields of the tasks, `e` the array. Entry 0 is the parent of entry 1, and any
-- other entry `i` is that of `2 * i` and `2 * i + 1`.
pub mod Sift
pub mod Sink
pub mod Heap
pub mod Stop
pub mod Routine
mod Tests
use beehive_im.Common.{
  ℕ, zero, suc, ◌+◌, ◌-◌, ◌*◌, ◌/◌, Bool, true, false, Option, none, some, List, [], ◌∷◌,
  if◌then◌else◌, ◌==◌, nat_key, leb, ltb,
}
use beehive_im.Chat.{Status, ok, fail}

pub record Timer : Type 0 where
  pub len : ℕ
  pub cap : ℕ
  pub e : ℕ → ℕ
  pub ttl : ℕ → ℕ
  pub idx : ℕ → ℕ

-- TIMER_CAP
abbrev pub timer_cap : ℕ
timer_cap = 128

-- The fields of the tasks are those that `timer_task_init` gave.
abbrev pub timer_cntx_init : (ℕ → ℕ) → (ℕ → ℕ) → Timer
timer_cntx_init ttl idx = record { len = 0; cap = timer_cap; e = λ i. 0; ttl = ttl; idx = idx }

-- A write into an array or into a field of a task
abbrev pub write : (ℕ → ℕ) → ℕ → ℕ → ℕ → ℕ
write f i v j = if i == j then v else f j

-- The loop of `timer_task_start`: the array with the hole moved up, and where it is
unfoldable pub sift_up : ℕ → (ℕ → ℕ) → (ℕ → ℕ) → ℕ → ℕ → Option ((ℕ → ℕ) × ℕ)
sift_up zero ttl e task idx = none
sift_up (suc fuel) ttl e task idx =
    let parent = idx / 2 in
    let rest = sift_up fuel ttl (write e idx (e parent)) task parent in
    if idx == parent
    then some (e, idx)
    else if ltb (ttl task) (ttl (e parent))
    then rest
    else some (e, idx)

unfoldable pub timer_task_start : Timer → ℕ → Option (Status × Timer)
timer_task_start ctx task =
    let cap = if leb ctx.cap ctx.len then 2 * ctx.cap else ctx.cap in
    if ctx.len == 0
    then some
        (ok, record ctx { cap = cap; len = 1; e = write ctx.e 0 task; idx = write ctx.idx task 0 })
    else (elim (sift_up (suc ctx.len) ctx.ttl ctx.e task ctx.len) [
      | none ↦ none
      | some (e, idx) ↦ some (
        ok,
        record ctx {
          cap = cap;
          len = suc ctx.len;
          e = write e idx task;
          idx = write ctx.idx task idx;
        },
      )
    ])

-- The child to compare with, of which there is at least the left one
abbrev pub min_child : (ℕ → ℕ) → (ℕ → ℕ) → ℕ → ℕ → ℕ → ℕ
min_child ttl e len left right =
    if ltb right len then if leb (ttl (e left)) (ttl (e right)) then left else right else left

-- The loop of `timer_task_pop` over the first `len` entries, and where `task` goes
unfoldable pub sift_down : ℕ → (ℕ → ℕ) → (ℕ → ℕ) → ℕ → ℕ → ℕ → ℕ → ℕ → Option ((ℕ → ℕ) × ℕ)
sift_down zero ttl e len task idx left right = none
sift_down (suc fuel) ttl e len task idx left right =
    let min = min_child ttl e len left right in
    let rest = sift_down fuel ttl (write e idx (e min)) len task min (2 * min) (2 * min + 1) in
    if leb len left
    then some (e, idx)
    else if leb (ttl task) (ttl (e min))
    then some (e, idx)
    else rest

-- NULL is no task.
unfoldable pub timer_task_pop : Timer → Option (Option ℕ × Timer)
timer_task_pop ctx =
    if ctx.len == 0
    then some (none, ctx)
    else let len = ctx.len - 1 in
      let task = ctx.e len in
      (elim (sift_down (suc len) ctx.ttl ctx.e len task 0 1 2) [
        | none ↦ none
        | some (e, idx) ↦ some (some (ctx.e 0), record ctx { len = len; e = write e idx task })
      ])

-- The loop of `timer_task_stop`, with the `idx` fields that it sets
unfoldable pub sift_stop :
    ℕ → (ℕ → ℕ) → (ℕ → ℕ) → (ℕ → ℕ) → ℕ → ℕ → ℕ → ℕ → ℕ → ℕ → Option ((ℕ → ℕ) × (ℕ → ℕ))
sift_stop zero ttl e idxs len task item idx left right = none
sift_stop (suc fuel) ttl e idxs len task item idx left right =
    let min = min_child ttl e len left right in
    let rest =
      sift_stop fuel ttl (write e idx (e min)) (write idxs (e min) idx) len task item min (2 * min)
        (2 * min + 1) in
    if leb len left
    then some (write e idx item, write idxs task idx)
    else if leb (ttl item) (ttl (e min))
    then some (write e idx item, write idxs item idx)
    else rest

unfoldable pub timer_task_stop : Timer → ℕ → Option (Status × Timer)
timer_task_stop ctx task =
    let idx = ctx.idx task in
    let len = ctx.len - 1 in
    if leb ctx.len idx
    then some (fail, ctx)
    else if ctx.e idx == task
    then (elim (sift_stop (suc len) ctx.ttl ctx.e ctx.idx len task (ctx.e len) idx
        (if idx == 0 then 1 else 2 * idx) (if idx == 0 then 2 else 2 * idx + 1)) [
          | none ↦ none
          | some (e, idxs) ↦ some (ok, record ctx { len = len; e = e; idx = idxs })
        ])
    else some (fail, ctx)

-- `now` is the time.
unfoldable pub timer_task_is_timeout : Timer → ℕ → Bool
timer_task_is_timeout ctx now =
    if ctx.len == 0
    then false
    else let timeout = if ltb now (ctx.ttl (ctx.e 0)) then ctx.ttl (ctx.e 0) - now else 0 in
      if ltb 0 timeout then false else true

-- The inner loop of `timer_task_routine`: the tasks that were run, one after the other. `clock k` is what `time` gives
-- when it is called for the `k`-th time: for each test, and again after the callbacks of a task.
unfoldable pub timer_task_round : ℕ → (ℕ → ℕ) → (ℕ → ℕ) → ℕ → Timer → Option (List ℕ × Timer)
timer_task_round zero interval clock k ctx = none
timer_task_round (suc fuel) interval clock k ctx = elim (timer_task_is_timeout ctx (clock k)) [
  | false ↦ some ([], ctx)
  | true ↦ elim (timer_task_pop ctx) [
    | none ↦ none
    | some (none, ctx') ↦ some ([], ctx')
    | some (some task, ctx') ↦
        elim (timer_task_start
          (record ctx' { ttl = write ctx'.ttl task (clock (suc k) + interval task) }) task) [
            | none ↦ none
            | some (status, ctx'') ↦
                elim (timer_task_round fuel interval clock (suc (suc k)) ctx'') [
                  | none ↦ none
                  | some (run, last) ↦ some (task ∷ run, last)
                ]
          ]
  ]
]
