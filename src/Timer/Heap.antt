-- ===== src/Timer/Heap.antt =====
-- The calls on the heap: timer_task_start and timer_task_pop of src/clang/lib/core/timer.c.
use mathlib.Core.Path.{subst}
use beehive_im.Common.{
  ℕ, zero, suc, ◌+◌, ◌-◌, ◌*◌, ◌/◌, ◌≡◌, ◌≤◌, ◌<◌, ◌⊎◌, inl, inr, refl, ap, sym, ◌∙◌, Bool,
  Bool-cases, none, some, if◌then◌else◌, ◌==◌, nat_key, nat_beq_iff, leb, arith,
}
use beehive_im.Chat.{ok}
use beehive_im.Timer.{Timer, write, sift_down, timer_task_start, timer_task_pop}
use beehive_im.Timer.Sift.{IsHeap, count, count-write, count-write_end, Rising, sift_up-IsHeap}
use beehive_im.Timer.Sink.{Sinking, sift_down-IsHeap}

-- In heap order, with its entries within the array
pub record IsTimer (ctx : Timer) : Type 0 where
  pub heap : IsHeap ctx.ttl ctx.e ctx.len
  pub within : ctx.len ≤ ctx.cap
  pub room : 0 < ctx.cap

-- The first entry is due before all others.
pub first_from :
    (ttl e : ℕ → ℕ) (len n i : ℕ) → IsHeap ttl e len → i < n → i < len → ttl (e 0) ≤ ttl (e i)
first_from ttl e len zero i h below p = absurd (omega (arith, below))
first_from ttl e len (suc n) zero h below p = omega arith
first_from ttl e len (suc n) (suc i) h below p = omega (
  arith,
  h (suc i) (omega arith) p,
  first_from ttl e len n (suc i / 2) h (omega (arith, below)) (omega (arith, p)),
)

fresh_Rising : (ttl e : ℕ → ℕ) (len task : ℕ) → IsHeap ttl e len → Rising ttl e (suc len) task len
fresh_Rising ttl e len task h = record {
  elsewhere = λ i p q other apart. h i p (omega (arith, q, other));
  below = λ i p q under other. absurd (omega (arith, p, q, under));
  across = λ i p q under other pos. absurd (omega (arith, p, q, under, other));
}

top_Sinking : (ttl e : ℕ → ℕ) (len task : ℕ) → IsHeap ttl e (suc len) → Sinking ttl e len task 0
top_Sinking ttl e len task h = record {
  elsewhere = λ i p q other apart. h i p (omega (arith, q));
  across = λ i p q under other pos. absurd (omega (arith, pos));
  above = λ pos. absurd (omega (arith, pos));
}

-- Starting a task puts it into the heap, and nothing else in or out. The heap stays in order and within its array.
pub timer_task_start-IsTimer :
    (ctx : Timer) (task : ℕ)
    → IsTimer ctx
    → (ctx' : Timer) × (timer_task_start ctx task ≡ some (ok, ctx'))
      × IsTimer ctx'
      × (ctx'.len ≡ suc ctx.len)
      × (ctx'.ttl ≡ ctx.ttl)
      × ((p : ℕ → Bool)
          → count p ctx'.e ctx'.len ≡ count p ctx.e ctx.len + (if p task then 1 else 0))
unfolding timer_task_start
timer_task_start-IsTimer ctx task v =
    let cap = if leb ctx.cap ctx.len then 2 * ctx.cap else ctx.cap in
    let grows : suc ctx.len ≤ cap = ground (arith, v.within, v.room) in
    elim (Bool-cases (ctx.len == 0)) [
      | inl empty ↦
          let none_in : ctx.len ≡ 0 = ground (arith, empty, nat_beq_iff ctx.len 0) in
          (
            record ctx { cap = cap; len = 1; e = write ctx.e 0 task; idx = write ctx.idx task 0 },
            rw (timer_task_start, empty) refl,
            record {
              heap = λ i p q. absurd (omega (arith, p, q));
              within = omega (arith, grows);
              room = omega (arith, grows);
            },
            omega (arith, none_in),
            refl,
            λ p. rw none_in (omega arith),
          )
      | inr full ↦
          let (e', idx', found, heap, same) =
            sift_up-IsHeap ctx.ttl (suc ctx.len) task (suc ctx.len) ctx.e ctx.len (omega arith)
              (omega arith) (fresh_Rising ctx.ttl ctx.e ctx.len task v.heap) in
          (
            record ctx {
              cap = cap;
              len = suc ctx.len;
              e = write e' idx' task;
              idx = write ctx.idx task idx';
            },
            rw (timer_task_start, full, found) refl,
            record { heap = heap; within = omega (arith, grows); room = omega (arith, grows) },
            refl,
            refl,
            λ p. same p ∙ count-write_end p ctx.e task ctx.len,
          )
    ]

sift_top :
    (ttl e : ℕ → ℕ) (n : ℕ)
    → IsHeap ttl e (suc n)
    → (e' : ℕ → ℕ) × (idx' : ℕ) × (sift_down (suc n) ttl e n (e n) 0 1 2 ≡ some (e', idx'))
      × IsHeap ttl (write e' idx' (e n)) n
      × ((p : ℕ → Bool)
          → count p (write e' idx' (e n)) n + (if p (e 0) then 1 else 0) ≡ count p e (suc n))
unfolding sift_down
sift_top ttl e zero h = (e, 0, refl, λ i pos q. absurd (omega (arith, q)), λ p. omega arith)
sift_top ttl e (suc m) h =
    let n = suc m in
    let (e', idx', found, heap, same) =
      sift_down-IsHeap ttl n (e n) (suc n) e 0 1 2 (omega arith) (omega arith) (refl, refl)
        (top_Sinking ttl e n (e n) h) in
    (e', idx', found, heap, λ p. omega (arith, same p, count-write p e 0 (e n) n (omega arith)))

-- The task that is popped is due no later than any other in the heap. It leaves the heap, and nothing else goes in or
-- out, and the heap stays in order. An empty heap gives NULL.
pub timer_task_pop-IsTimer :
    (ctx : Timer)
    → IsTimer ctx
    → ((timer_task_pop ctx ≡ some (none, ctx)) × (ctx.len ≡ 0))
      ⊎ ((task : ℕ) × (ctx' : Timer) × (timer_task_pop ctx ≡ some (some task, ctx'))
          × IsTimer ctx'
          × (suc ctx'.len ≡ ctx.len)
          × (ctx'.ttl ≡ ctx.ttl)
          × ((p : ℕ → Bool)
              → count p ctx'.e ctx'.len + (if p task then 1 else 0) ≡ count p ctx.e ctx.len)
          × ((i : ℕ) → i < ctx.len → ctx.ttl task ≤ ctx.ttl (ctx.e i)))
unfolding timer_task_pop
timer_task_pop-IsTimer ctx v = elim (Bool-cases (ctx.len == 0)) [
  | inl empty ↦ inl (rw (timer_task_pop, empty) refl, ground (arith, empty, nat_beq_iff ctx.len 0))
  | inr full ↦
      let n = ctx.len - 1 in
      let is : suc n ≡ ctx.len = ground (arith, full, nat_beq_iff ctx.len 0) in
      let (e', idx', found, heap, same) =
        sift_top ctx.ttl ctx.e n (subst (IsHeap ctx.ttl ctx.e) (sym is) v.heap) in
      inr (
        ctx.e 0,
        record ctx { len = n; e = write e' idx' (ctx.e n) },
        rw (timer_task_pop, full, found) refl,
        record { heap = heap; within = omega (arith, v.within, is); room = v.room },
        is,
        refl,
        λ p. same p ∙ ap (count p ctx.e) is,
        λ i q. first_from ctx.ttl ctx.e ctx.len (suc i) i v.heap (omega arith) q,
      )
]
