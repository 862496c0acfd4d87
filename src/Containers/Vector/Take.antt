-- ===== src/Containers/Vector/Take.antt =====
-- What is left when an entry is taken out of a vector: src/clang/lib/core/vector.c.
use beehive_im.Common.{
  ℕ, zero, suc, ◌+◌, ◌≡◌, ◌⊎◌, Bool, true, Bool-cases, none, some, List, [], ◌∷◌, ◌++◌,
  if◌then◌else◌, arith, refl, inl, inr, length, get_elem?,
}
use beehive_im.Containers.Vector.{
  Vector, vector_find_and_del, init, last_or, drop_entry, entry_index,
}

-- How many entries satisfy the test.
abbrev pub tally : {A : Type 0} → (A → Bool) → List A → ℕ
tally p [] = 0
tally p (x ∷ arr) = (if p x then 1 else 0) + tally p arr

module _ {A : Type 0} (p : A → Bool) where
  tally-init :
      (x : A) (arr : List A)
      → tally p (init (x ∷ arr)) + tally p (last_or x arr ∷ []) ≡ tally p (x ∷ arr)
  tally-init x [] = omega arith
  tally-init x (y ∷ arr) = omega (arith, tally-init y arr)

  -- Taking an entry out takes just that entry out.
  pub tally-drop_entry :
      (arr : List A) (idx : ℕ) (x : A)
      → get_elem? arr idx ≡ some x
      → tally p (drop_entry arr idx) + (if p x then 1 else 0) ≡ tally p arr
  unfolding drop_entry
  tally-drop_entry [] idx x h = absurd (ground (arith, h))
  tally-drop_entry (y ∷ []) zero x h = ground (arith, h)
  tally-drop_entry (y ∷ z ∷ arr) zero x h = ground (arith, h, tally-init z arr)
  tally-drop_entry (y ∷ []) (suc idx) x h = absurd (ground (arith, h))
  tally-drop_entry (y ∷ z ∷ arr) (suc idx) x h = omega (arith, tally-drop_entry (z ∷ arr) idx x h)

  pub tally-append : (xs ys : List A) → tally p (xs ++ ys) ≡ tally p xs + tally p ys
  tally-append [] ys = omega arith
  tally-append (x ∷ xs) ys = omega (arith, tally-append xs ys)

  -- The first entry that satisfies the test, or none does.
  pub entry_index-cases :
      (arr : List A)
      → ((entry_index p arr ≡ none) × (tally p arr ≡ 0))
        ⊎ ((idx : ℕ) × (x : A) × (entry_index p arr ≡ some idx)
            × (get_elem? arr idx ≡ some x)
            × (p x ≡ true))
  unfolding entry_index
  entry_index-cases [] = inl (refl, refl)
  entry_index-cases (x ∷ arr) = elim (Bool-cases (p x)) [
    | inl here ↦ inr (0, x, rw (entry_index, here) refl, refl, here)
    | inr other ↦ elim (entry_index-cases arr) [
      | inl (e, n) ↦ inl (rw (entry_index, other, e) refl, ground (arith, other, n))
      | inr (idx, y, e, at, t) ↦ inr (suc idx, y, rw (entry_index, other, e) refl, at, t)
    ]
  ]

pub length-drop_entry :
    {A : Type 0} (arr : List A) (idx : ℕ) (x : A)
    → get_elem? arr idx ≡ some x
    → suc (length (drop_entry arr idx)) ≡ length arr
unfolding drop_entry
length-drop_entry [] idx x h = absurd (ground (arith, h))
length-drop_entry (y ∷ []) zero x h = refl
length-drop_entry (y ∷ z ∷ arr) zero x h = omega (arith, length-init z arr)
  where
    length-init :
        {A : Type 0} (z : A) (arr : List A) → suc (length (init (z ∷ arr))) ≡ suc (length arr)
    length-init z [] = refl
    length-init z (y ∷ arr) = omega (arith, length-init y arr)
length-drop_entry (y ∷ []) (suc idx) x h = absurd (ground (arith, h))
length-drop_entry (y ∷ z ∷ arr) (suc idx) x h = omega (arith, length-drop_entry (z ∷ arr) idx x h)

-- An entry that satisfies the test is taken out of the vector, once, and nothing else goes in or out. Where there is none
-- the vector stays as it is.
pub vector_find_and_del-tally :
    {A : Type 0} (find : A → Bool) (vec : Vector A)
    → ((vector_find_and_del vec find ≡ (none, vec)) × (tally find vec.arr ≡ 0))
      ⊎ ((x : A) × (vec' : Vector A) × (vector_find_and_del vec find ≡ (some x, vec'))
          × (find x ≡ true)
          × (suc (length vec'.arr) ≡ length vec.arr)
          × ((p : A → Bool) → tally p vec'.arr + (if p x then 1 else 0) ≡ tally p vec.arr))
unfolding vector_find_and_del
vector_find_and_del-tally find vec = elim (entry_index-cases find vec.arr) [
  | inl (e, absent) ↦ inl (rw (vector_find_and_del, e) refl, absent)
  | inr (idx, x, e, at, holds) ↦ inr (
    x,
    record vec { arr = drop_entry vec.arr idx },
    rw (vector_find_and_del, e, at) refl,
    holds,
    length-drop_entry vec.arr idx x at,
    λ p. tally-drop_entry p vec.arr idx x at,
  )
]
