-- ===== src/Timer/Stop.antt =====
-- Stopping a task: timer_task_stop of src/clang/lib/core/timer.c.
use beehive_im.Common.{
  ℕ, zero, suc, ◌+◌, ◌-◌, ◌*◌, ◌≡◌, ◌≢◌, ◌≤◌, ◌<◌, ◌⊎◌, inl, inr, ◌∙◌, ap, refl, Bool, Bool-cases,
  true, some, if◌then◌else◌, ◌==◌, nat_key, nat_beq_iff, leb, arith,
}
use beehive_im.Chat.{ok, fail}
use beehive_im.Timer.{
  Timer, write, min_child, sift_up, sift_stop, timer_task_start, timer_task_stop,
}
use beehive_im.Timer.Sift.{count, count-write, count-write_beyond, count-move}
use beehive_im.Timer.Sink.{Children}

-- A task alone in the heap, at its index 0, is pushed down when another that is due earlier is started. It does not learn
-- of its new place, and stopping it then fails although it is in the heap, at 1.
pub timer_task_stop_missed :
    (ctx : Timer) (task earlier : ℕ)
    → ctx.len ≡ 1
    → ctx.e 0 ≡ task
    → ctx.idx task ≡ 0
    → task ≢ earlier
    → ctx.ttl earlier < ctx.ttl task
    → (ctx' : Timer) × (timer_task_start ctx earlier ≡ some (ok, ctx'))
      × (ctx'.len ≡ 2)
      × (ctx'.e 1 ≡ task)
      × (timer_task_stop ctx' task ≡ some (fail, ctx'))
unfolding timer_task_start sift_up timer_task_stop
timer_task_stop_missed ctx task earlier one first at_top apart before =
    let cap = if leb ctx.cap ctx.len then 2 * ctx.cap else ctx.cap in
    let moved : sift_up (suc ctx.len) ctx.ttl ctx.e earlier ctx.len
        ≡ some (write ctx.e 1 (ctx.e 0), 0) =
      rw one (ground (arith, first, before)) in
    (
      record ctx {
        cap = cap;
        len = suc ctx.len;
        e = write (write ctx.e 1 (ctx.e 0)) 0 earlier;
        idx = write ctx.idx earlier 0;
      },
      ground (arith, one, moved),
      ground (arith, one),
      first,
      ground (arith, one, at_top, apart, nat_beq_iff earlier task),
    )

sift_stop-count :
    (fuel : ℕ) (ttl e idxs : ℕ → ℕ) (len task item idx left right : ℕ)
    → len < fuel + idx
    → idx < len
    → Children idx left right
    → (e' : ℕ → ℕ) × (idxs' : ℕ → ℕ) × (sift_stop fuel ttl e idxs len task item idx left right
        ≡ some (e', idxs'))
      × ((p : ℕ → Bool) → count p e' len ≡ count p (write e idx item) len)
unfolding sift_stop
sift_stop-count zero ttl e idxs len task item idx left right f h kids = absurd (omega (arith, f, h))
sift_stop-count (suc fuel) ttl e idxs len task item idx left right f h kids =
    elim (Bool-cases (leb len left)) [
      | inl leaf ↦ (write e idx item, write idxs task idx, rw (sift_stop, leaf) refl, λ p. refl)
      | inr inner ↦
          let min = min_child ttl e len left right in
          let within : min < len = ground (arith, inner, kids) in
          let low : idx < min = ground (arith, kids, nat_beq_iff idx 0) in
          elim (Bool-cases (leb (ttl item) (ttl (e min)))) [
            | inl stays ↦ (
              write e idx item,
              write idxs item idx,
              rw (sift_stop, inner, stays) refl,
              λ p. refl,
            )
            | inr goes ↦
                let (e', idxs', found, same) =
                  sift_stop-count fuel ttl (write e idx (e min)) (write idxs (e min) idx) len task
                    item min (2 * min) (2 * min + 1) (omega (arith, f, low)) within
                    (ground (arith, low, nat_beq_iff min 0)) in
                (
                  e',
                  idxs',
                  rw (sift_stop, inner, goes) found,
                  λ p. omega (
                    arith,
                    same p,
                    count-move p e idx min item len h within (omega (arith, low)),
                  ),
                )
          ]
    ]

-- The last task fills the place of the one at `idx`, which may be the last one itself.
refill :
    (ttl e idxs : ℕ → ℕ) (len task idx : ℕ)
    → idx ≤ len
    → (e' : ℕ → ℕ) × (idxs' : ℕ → ℕ) × (sift_stop
          (suc len)
          ttl
          e
          idxs
          len
          task
          (e len)
          idx
          (if idx == 0 then 1 else 2 * idx)
          (if idx == 0 then 2 else 2 * idx + 1)
        ≡ some (e', idxs'))
      × ((p : ℕ → Bool) → count p e' len + (if p (e idx) then 1 else 0) ≡ count p e (suc len))
unfolding sift_stop
refill ttl e idxs len task idx h = elim (Bool-cases (idx == len)) [
  | inl last ↦
      let same : idx ≡ len = (nat_beq_iff idx len).0 last in
      let leaf : leb len (if idx == 0 then 1 else 2 * idx) ≡ true = ground (arith, same) in
      (
        write e idx (e len),
        write idxs task idx,
        rw (sift_stop, leaf) refl,
        λ p. rw same (omega (arith, count-write_beyond p e len (e len) len (omega arith))),
      )
  | inr inner ↦
      let less : idx < len = ground (arith, h, inner, nat_beq_iff idx len) in
      let (e', idxs', found, same) =
        sift_stop-count (suc len) ttl e idxs len task (e len) idx (if idx == 0 then 1 else 2 * idx)
          (if idx == 0 then 2 else 2 * idx + 1) (omega arith) less (ground arith) in
      (e', idxs', found, λ p. omega (arith, same p, count-write p e idx (e len) len less))
]

-- Stopping a task always ends. It fails without a change just where the task's own index lies beyond the heap, or another
-- task stands there; else it takes the task out of the heap once, and nothing else in or out.
pub timer_task_stop-count :
    (ctx : Timer) (task : ℕ)
    → ((timer_task_stop ctx task ≡ some (fail, ctx))
        × ((ctx.len ≤ ctx.idx task) ⊎ (ctx.e (ctx.idx task) ≢ task)))
      ⊎ ((ctx' : Timer) × (timer_task_stop ctx task ≡ some (ok, ctx'))
          × (ctx.idx task < ctx.len)
          × (ctx.e (ctx.idx task) ≡ task)
          × (suc ctx'.len ≡ ctx.len)
          × ((p : ℕ → Bool)
              → count p ctx'.e ctx'.len + (if p task then 1 else 0) ≡ count p ctx.e ctx.len))
unfolding timer_task_stop
timer_task_stop-count ctx task = elim (Bool-cases (leb ctx.len (ctx.idx task))) [
  | inl out ↦ inl (rw (timer_task_stop, out) refl, inl (ground (arith, out)))
  | inr in_heap ↦ elim (Bool-cases (ctx.e (ctx.idx task) == task)) [
    | inr other ↦ inl (
      rw (timer_task_stop, in_heap, other) refl,
      inr (λ same. ground (arith, same, other, nat_beq_iff (ctx.e (ctx.idx task)) task)),
    )
    | inl found ↦
        let idx = ctx.idx task in
        let len = ctx.len - 1 in
        let is : suc len ≡ ctx.len = ground (arith, in_heap) in
        let below : idx < ctx.len = ground (arith, in_heap) in
        let holds : ctx.e idx ≡ task = (nat_beq_iff (ctx.e idx) task).0 found in
        let (e', idxs', done, counts) =
          refill ctx.ttl ctx.e ctx.idx len task idx (omega (arith, is, below)) in
        inr (
          record ctx { len = len; e = e'; idx = idxs' },
          rw (timer_task_stop, in_heap, found, done) refl,
          below,
          holds,
          is,
          λ p. (rw holds at (counts p)) ∙ ap (count p ctx.e) is,
        )
  ]
]
