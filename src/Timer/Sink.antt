-- ===== src/Timer/Sink.antt =====
-- The heap order through the loop of timer_task_pop, src/clang/lib/core/timer.c.
use beehive_im.Common.{
  ℕ, zero, suc, ◌+◌, ◌*◌, ◌/◌, ◌≡◌, ◌≢◌, ◌≤◌, ◌<◌, ◌⊎◌, inl, inr, refl, ◌∙◌, Bool, Bool-cases, some,
  if◌then◌else◌, ◌==◌, nat_key, nat_beq_iff, leb, arith,
}
use beehive_im.Timer.{write, sift_down, min_child}
use beehive_im.Timer.Sift.{IsHeap, count, count-move}

-- The heap order with a hole at `idx`, for a task that is not due before its parent
pub record Sinking (ttl e : ℕ → ℕ) (len task idx : ℕ) : Type 0 where
  pub elsewhere : (i : ℕ) → 0 < i → i < len → i ≢ idx → i / 2 ≢ idx → ttl (e (i / 2)) ≤ ttl (e i)
  pub across :
      (i : ℕ) → 0 < i → i < len → i / 2 ≡ idx → i ≢ idx → 0 < idx → ttl (e (idx / 2)) ≤ ttl (e i)
  pub above : 0 < idx → ttl (e (idx / 2)) ≤ ttl task

-- Where the children of an entry lie
abbrev pub Children : ℕ → ℕ → ℕ → Type 0
Children idx left right = (left ≡ (if idx == 0 then 1 else 2 * idx)) × (right ≡ suc left)

module _ (ttl : ℕ → ℕ) (len task : ℕ) where
  -- The child chosen is one, and is due no later than any other.
  min_child-least :
      (e : ℕ → ℕ) (idx left right : ℕ)
      → Children idx left right
      → left < len
      → Sinking ttl e len task idx
      → (min_child ttl e len left right < len)
        × (min_child ttl e len left right / 2 ≡ idx)
        × (idx < min_child ttl e len left right)
        × ((i : ℕ)
            → 0 < i
            → i < len
            → i / 2 ≡ idx
            → i ≢ idx
            → ttl (e (min_child ttl e len left right)) ≤ ttl (e i))
  min_child-least e idx left right kids h r =
      let second : 2 < len → ttl (e 1) ≤ ttl (e 2) ⊎ (idx ≡ 1) ⊎ (idx ≡ 2) = λ q.
        elim (Bool-cases (idx == 1)) [
          | inl one ↦ inr (inl (ground (arith, one, nat_beq_iff idx 1)))
          | inr other ↦ elim (Bool-cases (idx == 2)) [
            | inl two ↦ inr (inr (ground (arith, two, nat_beq_iff idx 2)))
            | inr off ↦ inl (
                r.elsewhere 2 (omega arith) q (λ same. ground (arith, off, same, nat_beq_iff idx 2))
                  (λ same. ground (arith, other, same, nat_beq_iff idx 1)))
          ]
        ] in
      (
        ground (arith, kids, h),
        ground (arith, kids, h, second, nat_beq_iff idx 0),
        ground (arith, kids, h, nat_beq_iff idx 0),
        λ i pos q under other.
            ground
              (arith, kids, h, second, nat_beq_iff idx 0, nat_beq_iff i left, nat_beq_iff i right),
      )

  settle_down :
      (e : ℕ → ℕ) (idx : ℕ)
      → idx < len
      → Sinking ttl e len task idx
      → ((i : ℕ) → 0 < i → i < len → i / 2 ≡ idx → i ≢ idx → ttl task ≤ ttl (e i))
      → IsHeap ttl (write e idx task) len
  settle_down e idx h r least i p q =
      ground
        (arith, r.above, r.elsewhere i p q, least i p q, nat_beq_iff idx i, nat_beq_iff idx (i / 2))

  sink :
      (e : ℕ → ℕ) (idx min : ℕ)
      → min < len
      → min / 2 ≡ idx
      → idx < min
      → ((i : ℕ) → 0 < i → i < len → i / 2 ≡ idx → i ≢ idx → ttl (e min) ≤ ttl (e i))
      → Sinking ttl e len task idx
      → ttl (e min) < ttl task
      → Sinking ttl (write e idx (e min)) len task min
  sink e idx min h under low least r less = record {
    elsewhere = λ i p q other apart. ground (
      arith,
      r.elsewhere i p q,
      r.across min (omega (arith, low)) h under,
      least i p q,
      nat_beq_iff idx i,
      nat_beq_iff idx (i / 2),
    );
    across = λ i p q under' other q'.
        ground (arith, r.elsewhere i p q, nat_beq_iff idx i, nat_beq_iff idx (min / 2));
    above = λ q. ground (arith, less, nat_beq_iff idx (min / 2));
  }

  -- A task that comes in at the front finds its place within as many rounds as there are entries.
  pub sift_down-IsHeap :
      (fuel : ℕ) (e : ℕ → ℕ) (idx left right : ℕ)
      → len < fuel + idx
      → idx < len
      → Children idx left right
      → Sinking ttl e len task idx
      → (e' : ℕ → ℕ) × (idx' : ℕ) × (sift_down fuel ttl e len task idx left right ≡ some (e', idx'))
        × IsHeap ttl (write e' idx' task) len
        × ((p : ℕ → Bool) → count p (write e' idx' task) len ≡ count p (write e idx task) len)
  unfolding sift_down
  sift_down-IsHeap zero e idx left right f h kids r = absurd (omega (arith, f, h))
  sift_down-IsHeap (suc fuel) e idx left right f h kids r = elim (Bool-cases (leb len left)) [
    | inl leaf ↦ (
      e,
      idx,
      rw (sift_down, leaf) refl,
      settle_down e idx h r
          (λ i pos q under other. absurd (ground (arith, leaf, kids, nat_beq_iff idx 0))),
      λ p. refl,
    )
    | inr inner ↦
        let min = min_child ttl e len left right in
        let has : left < len = ground (arith, inner) in
        let (within, under, low, least) = min_child-least e idx left right kids has r in
        elim (Bool-cases (leb (ttl task) (ttl (e min)))) [
          | inl stays ↦ (
            e,
            idx,
            rw (sift_down, inner, stays) refl,
            settle_down e idx h r
                (λ i pos q under' other. ground (arith, stays, least i pos q under' other)),
            λ p. refl,
          )
          | inr goes ↦
              let less : ttl (e min) < ttl task = ground (arith, goes) in
              let (e', idx', found, heap, same) =
                sift_down-IsHeap fuel (write e idx (e min)) min (2 * min) (2 * min + 1)
                  (omega (arith, f, low)) within (ground (arith, low, nat_beq_iff min 0))
                  (sink e idx min within under low least r less) in
              (
                e',
                idx',
                rw (sift_down, inner, goes) found,
                heap,
                λ p. same p ∙ count-move p e idx min task len h within (omega (arith, low)),
              )
        ]
  ]
