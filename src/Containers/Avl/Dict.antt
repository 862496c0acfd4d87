-- ===== src/Containers/Avl/Dict.antt =====
-- What a tree stands for: a list of items in ascending order of their keys. The specification of
-- src/clang/lib/core/avl_tree.c.

use beehive_im.Common.{
  ℕ, suc, ◌≡◌, ◌≤◌, ◌<◌, refl, Option, none, some, List, [], ◌∷◌, ◌++◌, if◌then◌else◌, ltb, ◌==◌,
  nat_key, nat_beq_iff, arith, length,
}

module _ {A : Type 0} (key : A → ℕ) where
  -- The keys ascend, from `lo` on and below `hi`.
  abbrev pub Ascends : ℕ → ℕ → List A → Type 0
  Ascends lo hi [] = Unit {0}
  Ascends lo hi (x ∷ xs) = (lo ≤ key x) × (key x < hi) × Ascends (suc (key x)) hi xs

  -- An item takes its place, unless there is one of its key.
  abbrev pub put : A → List A → List A
  put item [] = item ∷ []
  put item (x ∷ xs) =
      let rest = put item xs in
      if ltb (key item) (key x)
      then item ∷ x ∷ xs
      else if key item == key x
      then x ∷ xs
      else x ∷ rest

  abbrev pub seek : ℕ → List A → Option A
  seek k [] = none
  seek k (x ∷ xs) = let rest = seek k xs in if k == key x then some x else rest

  abbrev pub without : ℕ → List A → List A
  without k [] = []
  without k (x ∷ xs) = let rest = without k xs in if k == key x then xs else x ∷ rest

  pub Ascends-weaken :
      (lo lo' hi : ℕ) (xs : List A) → lo' ≤ lo → Ascends lo hi xs → Ascends lo' hi xs
  Ascends-weaken lo lo' hi [] h a = tt
  Ascends-weaken lo lo' hi (x ∷ xs) h a = (omega (arith, h, a.0), a.1, a.2)

  pub Ascends-split :
      (lo hi : ℕ) (xs ys : List A) (x : A)
      → Ascends lo hi (xs ++ (x ∷ ys))
      → Ascends lo (key x) xs × (lo ≤ key x) × (key x < hi) × Ascends (suc (key x)) hi ys
  Ascends-split lo hi [] ys x a = (tt, a.0, a.1, a.2)
  Ascends-split lo hi (y ∷ xs) ys x a =
      let (l, m, n, r) = Ascends-split (suc (key y)) hi xs ys x a.2 in
      ((a.0, omega (arith, m), l), omega (arith, m, a.0), n, r)

  pub seek_below : (k lo hi : ℕ) (xs : List A) → Ascends lo hi xs → k < lo → seek k xs ≡ none
  seek_below k lo hi [] a h = refl
  seek_below k lo hi (x ∷ xs) a h = ground (arith, a, h, seek_below k (suc (key x)) hi xs a.2)

  pub put_left :
      (item x : A) (xs ys : List A)
      → key item < key x
      → put item (xs ++ (x ∷ ys)) ≡ put item xs ++ (x ∷ ys)
  put_left item x [] ys h = ground (arith, h)
  put_left item x (y ∷ xs) ys h = ground (arith, h, put_left item x xs ys h)

  pub put_right :
      (lo : ℕ) (item x : A) (xs ys : List A)
      → Ascends lo (key x) xs
      → key x < key item
      → put item (xs ++ (x ∷ ys)) ≡ xs ++ (x ∷ put item ys)
  put_right lo item x [] ys a h = ground (arith, h)
  put_right lo item x (y ∷ xs) ys a h =
      ground (arith, h, a, put_right (suc (key y)) item x xs ys a.2 h)

  pub put_here :
      (lo : ℕ) (item x : A) (xs ys : List A)
      → Ascends lo (key x) xs
      → key item ≡ key x
      → put item (xs ++ (x ∷ ys)) ≡ xs ++ (x ∷ ys)
  put_here lo item x [] ys a h = ground (arith, h)
  put_here lo item x (y ∷ xs) ys a h =
      ground (arith, h, a, put_here (suc (key y)) item x xs ys a.2 h)

  pub seek_left :
      (k hi : ℕ) (x : A) (xs ys : List A)
      → Ascends (suc (key x)) hi ys
      → k < key x
      → seek k (xs ++ (x ∷ ys)) ≡ seek k xs
  seek_left k hi x [] ys a h = ground (arith, h, seek_below k (suc (key x)) hi ys a)
  seek_left k hi x (y ∷ xs) ys a h = ground (arith, h, seek_left k hi x xs ys a h)

  pub seek_right :
      (k lo : ℕ) (x : A) (xs ys : List A)
      → Ascends lo (key x) xs
      → key x < k
      → seek k (xs ++ (x ∷ ys)) ≡ seek k ys
  seek_right k lo x [] ys a h = ground (arith, h)
  seek_right k lo x (y ∷ xs) ys a h = ground (arith, h, a, seek_right k (suc (key y)) x xs ys a.2 h)

  pub seek_here :
      (lo : ℕ) (x : A) (xs ys : List A)
      → Ascends lo (key x) xs
      → seek (key x) (xs ++ (x ∷ ys)) ≡ some x
  seek_here lo x [] ys a = ground arith
  seek_here lo x (y ∷ xs) ys a = ground (arith, a, seek_here (suc (key y)) x xs ys a.2)

  pub without_left :
      (k : ℕ) (x : A) (xs ys : List A)
      → k < key x
      → (hi : ℕ) → Ascends (suc (key x)) hi ys
      → without k (xs ++ (x ∷ ys)) ≡ without k xs ++ (x ∷ ys)
  without_left k x [] ys h hi a = ground (arith, h, without_absent k (suc (key x)) hi ys a)
    where
      without_absent : (k lo hi : ℕ) (xs : List A) → Ascends lo hi xs → k < lo → without k xs ≡ xs
      without_absent k lo hi [] a h = refl
      without_absent k lo hi (y ∷ xs) a h =
          ground (arith, a, h, without_absent k (suc (key y)) hi xs a.2)
  without_left k x (y ∷ xs) ys h hi a = ground (arith, h, without_left k x xs ys h hi a)

  pub without_right :
      (k lo : ℕ) (x : A) (xs ys : List A)
      → Ascends lo (key x) xs
      → key x < k
      → without k (xs ++ (x ∷ ys)) ≡ xs ++ (x ∷ without k ys)
  without_right k lo x [] ys a h = ground (arith, h)
  without_right k lo x (y ∷ xs) ys a h =
      ground (arith, h, a, without_right k (suc (key y)) x xs ys a.2 h)

  pub without_here :
      (lo : ℕ) (x : A) (xs ys : List A)
      → Ascends lo (key x) xs
      → without (key x) (xs ++ (x ∷ ys)) ≡ xs ++ ys
  without_here lo x [] ys a = ground arith
  without_here lo x (y ∷ xs) ys a = ground (arith, a, without_here (suc (key y)) x xs ys a.2)

  pub Ascends-put :
      (lo hi : ℕ) (item : A) (xs : List A)
      → Ascends lo hi xs
      → lo ≤ key item
      → key item < hi
      → Ascends lo hi (put item xs)
  Ascends-put lo hi item [] a l h = (l, h, tt)
  Ascends-put lo hi item (x ∷ xs) a l h =
      ground
        (arith, a, l, h, Ascends-put (suc (key x)) hi item xs a.2, nat_beq_iff (key item) (key x))

  pub Ascends-without :
      (lo hi k : ℕ) (xs : List A) → Ascends lo hi xs → Ascends lo hi (without k xs)
  Ascends-without lo hi k [] a = tt
  Ascends-without lo hi k (x ∷ xs) a =
      ground
        (arith, a, Ascends-without (suc (key x)) hi k xs a.2, Ascends-weaken (suc (key x)) lo hi xs)

  pub length-put :
      (lo hi : ℕ) (item : A) (xs : List A)
      → Ascends lo hi xs
      → length (put item xs)
        ≡ elim (seek (key item) xs) [ none ↦ suc (length xs) | some _ ↦ length xs ]
  length-put lo hi item [] a = refl
  length-put lo hi item (x ∷ xs) a = ground (
    arith,
    a,
    length-put (suc (key x)) hi item xs a.2,
    seek_below (key item) (suc (key x)) hi xs a.2,
  )

  pub length-without :
      (k : ℕ) (xs : List A)
      → length xs
        ≡ elim (seek k xs) [ none ↦ length (without k xs) | some _ ↦ suc (length (without k xs)) ]
  length-without k [] = refl
  length-without k (x ∷ xs) = ground (arith, length-without k xs)
