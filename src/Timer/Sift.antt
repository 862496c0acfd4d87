-- ===== src/Timer/Sift.antt =====
-- The heap order through the loop of timer_task_start, src/clang/lib/core/timer.c.
use beehive_im.Common.{
  ℕ, zero, suc, ◌+◌, ◌/◌, ◌≡◌, ◌≢◌, ◌≤◌, ◌<◌, ◌⊎◌, inl, inr, refl, ap, ◌∙◌, Bool, Bool-cases, some,
  if◌then◌else◌, ◌==◌, nat_key, nat_beq_iff, ltb, arith,
}
use beehive_im.Timer.{write, sift_up}

-- No task of the first `len` is due before its parent.
abbrev pub IsHeap : (ℕ → ℕ) → (ℕ → ℕ) → ℕ → Type 0
IsHeap ttl e len = (i : ℕ) → 0 < i → i < len → ttl (e (i / 2)) ≤ ttl (e i)

-- The heap order with a hole at `idx`, for a task that is due before all below the hole
pub record Rising (ttl e : ℕ → ℕ) (len task idx : ℕ) : Type 0 where
  pub elsewhere : (i : ℕ) → 0 < i → i < len → i ≢ idx → i / 2 ≢ idx → ttl (e (i / 2)) ≤ ttl (e i)
  pub below : (i : ℕ) → 0 < i → i < len → i / 2 ≡ idx → i ≢ idx → ttl task ≤ ttl (e i)
  pub across :
      (i : ℕ) → 0 < i → i < len → i / 2 ≡ idx → i ≢ idx → 0 < idx → ttl (e (idx / 2)) ≤ ttl (e i)

module _ (ttl : ℕ → ℕ) (len task : ℕ) where
  place :
      (e : ℕ → ℕ) (idx : ℕ)
      → idx < len
      → Rising ttl e len task idx
      → (idx ≡ 0) ⊎ (ttl (e (idx / 2)) ≤ ttl task)
      → IsHeap ttl (write e idx task) len
  place e idx h r top i p q =
      ground
        (arith, top, r.elsewhere i p q, r.below i p q, nat_beq_iff idx i, nat_beq_iff idx (i / 2))

  rise :
      (e : ℕ → ℕ) (idx : ℕ)
      → 0 < idx
      → idx < len
      → Rising ttl e len task idx
      → ttl task < ttl (e (idx / 2))
      → Rising ttl (write e idx (e (idx / 2))) len task (idx / 2)
  rise e idx pos h r less =
      let parent = idx / 2 in
      let smaller : parent < idx = omega (arith, pos) in
      let up : 0 < parent → ttl (e (parent / 2)) ≤ ttl (e parent) = λ q.
        r.elsewhere parent q (omega (arith, smaller, h)) (omega (arith, smaller))
          (omega (arith, q, smaller)) in
      record {
        elsewhere = λ i p q other apart.
            ground (
              arith,
              r.elsewhere i p q,
              r.across i p q,
              nat_beq_iff idx i,
              nat_beq_iff idx (i / 2),
            );
        below = λ i p q under other.
            ground (arith, less, r.elsewhere i p q, nat_beq_iff idx i, smaller);
        across = λ i p q under other q'. ground (
          arith,
          up q',
          r.elsewhere i p q,
          nat_beq_iff idx i,
          nat_beq_iff idx (parent / 2),
          smaller,
        );
      }

-- How many of the first `n` entries satisfy the test
abbrev pub count : (ℕ → Bool) → (ℕ → ℕ) → ℕ → ℕ
count p e zero = 0
count p e (suc n) = (if p (e n) then 1 else 0) + count p e n

pub count-write_beyond :
    (p : ℕ → Bool) (e : ℕ → ℕ) (i x n : ℕ) → n ≤ i → count p (write e i x) n ≡ count p e n
count-write_beyond p e i x zero h = refl
count-write_beyond p e i x (suc n) h =
    ground (arith, h, count-write_beyond p e i x n, nat_beq_iff i n)

pub count-write :
    (p : ℕ → Bool) (e : ℕ → ℕ) (i x n : ℕ)
    → i < n
    → count p (write e i x) n + (if p (e i) then 1 else 0) ≡ count p e n + (if p x then 1 else 0)
count-write p e i x zero h = absurd (omega (arith, h))
count-write p e i x (suc n) h =
    ground (arith, h, count-write p e i x n, count-write_beyond p e i x n, nat_beq_iff i n)

pub count-write_end :
    (p : ℕ → Bool) (e : ℕ → ℕ) (x n : ℕ)
    → count p (write e n x) (suc n) ≡ count p e n + (if p x then 1 else 0)
count-write_end p e x n = ground (arith, count-write_beyond p e n x n, nat_beq_iff n n)

-- The entry `j` moves into the hole at `i`, and the hole to `j`.
pub count-move :
    (p : ℕ → Bool) (e : ℕ → ℕ) (i j x n : ℕ)
    → i < n
    → j < n
    → i ≢ j
    → count p (write (write e i (e j)) j x) n ≡ count p (write e i x) n
count-move p e i j x n h k apart =
    let same : write e i (e j) j ≡ e j = ground (arith, apart, nat_beq_iff i j) in
    omega (
      arith,
      count-write p (write e i (e j)) j x n k,
      count-write p e i (e j) n h,
      count-write p e i x n h,
      ap {B = ℕ} (λ (y : ℕ). if p y then 1 else 0) same,
    )

module _ (ttl : ℕ → ℕ) (len task : ℕ) where
  -- A task that came in at the end finds its place within as many rounds as there are entries.
  pub sift_up-IsHeap :
      (fuel : ℕ) (e : ℕ → ℕ) (idx : ℕ)
      → idx < fuel
      → idx < len
      → Rising ttl e len task idx
      → (e' : ℕ → ℕ) × (idx' : ℕ) × (sift_up fuel ttl e task idx ≡ some (e', idx'))
        × IsHeap ttl (write e' idx' task) len
        × ((p : ℕ → Bool) → count p (write e' idx' task) len ≡ count p (write e idx task) len)
  unfolding sift_up
  sift_up-IsHeap zero e idx f h r = absurd (omega (arith, f))
  sift_up-IsHeap (suc fuel) e idx f h r = elim (Bool-cases (idx == idx / 2)) [
    | inl root ↦
        let at_root : idx ≡ 0 = ground (arith, root, nat_beq_iff idx (idx / 2)) in
        (e, idx, rw (sift_up, root) refl, place ttl len task e idx h r (inl at_root), λ p. refl)
    | inr inner ↦
        let pos : 0 < idx = ground (arith, inner, nat_beq_iff idx (idx / 2)) in
        elim (Bool-cases (ltb (ttl task) (ttl (e (idx / 2))))) [
          | inr stays ↦ (
            e,
            idx,
            rw (sift_up, inner, stays) refl,
            place ttl len task e idx h r (inr (ground (arith, stays))),
            λ p. refl,
          )
          | inl goes ↦
              let less : ttl task < ttl (e (idx / 2)) = ground (arith, goes) in
              let (e', idx', found, heap, same) =
                sift_up-IsHeap fuel (write e idx (e (idx / 2))) (idx / 2) (omega (arith, f, pos))
                  (omega (arith, h)) (rise ttl len task e idx pos h r less) in
              (
                e',
                idx',
                rw (sift_up, inner, goes) found,
                heap,
                λ p.
                    same p
                    ∙ count-move p e idx (idx / 2) task len h (omega (arith, h))
                        (omega (arith, pos)),
              )
        ]
  ]
