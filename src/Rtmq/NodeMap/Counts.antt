-- ===== src/Rtmq/NodeMap/Counts.antt =====
-- How often a service occurs among the entries in use: arrays of src/clang/lib/rtmq/server/rtmq_comm.c.
use beehive_im.Common.{
  ℕ, zero, suc, ◌+◌, ◌-◌, ◌≡◌, ◌≢◌, ◌≤◌, ◌<◌, ◌⊎◌, none, some, List, [], ◌∷◌, if◌then◌else◌, ◌==◌,
  nat_key, nat_beq_iff, arith, refl, inl, inr, get_or, set, length, Bool-cases,
}
use beehive_im.Rtmq.NodeMap.{map_index}

-- How often `x` occurs among the first `n`.
abbrev pub count : ℕ → ℕ → List ℕ → ℕ
count x zero arr = 0
count x (suc n) [] = 0
count x (suc n) (a ∷ arr) = (if a == x then 1 else 0) + count x n arr

abbrev pub hit : ℕ → ℕ → ℕ
hit a x = if a == x then 1 else 0

pub count-suc :
    (x n : ℕ) (arr : List ℕ)
    → n < length arr
    → count x (suc n) arr ≡ count x n arr + hit (get_or arr n 0) x
count-suc x n [] h = absurd (omega (arith, h))
count-suc x zero (a ∷ arr) h = omega arith
count-suc x (suc n) (a ∷ arr) h = omega (arith, count-suc x n arr (omega (arith, h)))

-- An entry behind those in use takes a new service in.
pub count-append :
    (x n y : ℕ) (arr : List ℕ)
    → n < length arr
    → count x (suc n) (set arr n y) ≡ count x n arr + hit y x
count-append x n y [] h = absurd (omega (arith, h))
count-append x zero y (a ∷ arr) h = omega arith
count-append x (suc n) y (a ∷ arr) h = omega (arith, count-append x n y arr (omega (arith, h)))

-- The last entry in the place of another: that other one is gone.
pub count-drop :
    (x n i : ℕ) (arr : List ℕ)
    → n < length arr
    → i ≤ n
    → count x n (set arr i (get_or arr n 0)) + hit (get_or arr i 0) x ≡ count x (suc n) arr
count-drop x n i [] h below = absurd (omega (arith, h))
count-drop x zero zero (a ∷ arr) h below = omega arith
count-drop x zero (suc i) (a ∷ arr) h below = absurd (omega (arith, below))
count-drop x (suc n) zero (a ∷ arr) h below = omega (arith, count-suc x n arr (omega (arith, h)))
count-drop x (suc n) (suc i) (a ∷ arr) h below =
    omega (arith, count-drop x n i arr (omega (arith, h)) (omega (arith, below)))

-- The same, for all the entries in use.
pub count-drop_used :
    (x n i : ℕ) (arr : List ℕ)
    → n ≤ length arr
    → i < n
    → count x (n - 1) (set arr i (get_or arr (n - 1) 0)) + hit (get_or arr i 0) x ≡ count x n arr
count-drop_used x zero i arr h below = absurd (omega (arith, below))
count-drop_used x (suc n) i arr h below =
    let pred : suc n - 1 ≡ n = omega arith in
    rw pred (count-drop x n i arr (omega (arith, h)) (omega (arith, below)))

-- The loop finds an entry, or there is none among those in use.
pub map_index-cases :
    (arr : List ℕ) (x i n : ℕ)
    → ((map_index arr x i n ≡ none) × ((j : ℕ) → i ≤ j → j < i + n → get_or arr j 0 ≢ x))
      ⊎ ((k : ℕ) × (map_index arr x i n ≡ some k) × (i ≤ k) × (k < i + n) × (get_or arr k 0 ≡ x))
unfolding map_index
map_index-cases arr x i zero = inl (refl, λ j low high. absurd (omega (arith, low, high)))
map_index-cases arr x i (suc n) = elim (Bool-cases (get_or arr i 0 == x)) [
  | inl found ↦
      inr (i, rw (map_index, found) refl, omega arith, omega arith, (nat_beq_iff _ _).0 found)
  | inr other ↦ elim (map_index-cases arr x (suc i) n) [
    | inl (run, away) ↦ inl (
      rw (map_index, other) run,
      λ j low high e. ground (arith, other, away j, e, low, high, nat_beq_iff (get_or arr i 0) x),
    )
    | inr (k, run, low, high, e) ↦
        inr (k, rw (map_index, other) run, omega (arith, low), omega (arith, high), e)
  ]
]

pub count-none :
    (x n : ℕ) (arr : List ℕ)
    → n ≤ length arr
    → ((j : ℕ) → j < n → get_or arr j 0 ≢ x)
    → count x n arr ≡ 0
count-none x zero arr h away = refl
count-none x (suc n) [] h away = refl
count-none x (suc n) (a ∷ arr) h away =
    let first : a ≢ x = away 0 (omega arith) in
    ground (
      arith,
      first,
      nat_beq_iff a x,
      count-none x n arr (omega (arith, h)) (λ j below. away (suc j) (omega (arith, below))),
    )

pub count-get : (n i : ℕ) (arr : List ℕ) → n ≤ length arr → i < n → 0 < count (get_or arr i 0) n arr
count-get zero i arr h below = absurd (omega (arith, below))
count-get (suc n) i [] h below = absurd (omega (arith, h))
count-get (suc n) zero (a ∷ arr) h below = ground (arith, nat_beq_iff a a)
count-get (suc n) (suc i) (a ∷ arr) h below =
    omega (arith, count-get n i arr (omega (arith, h)) (omega (arith, below)))
