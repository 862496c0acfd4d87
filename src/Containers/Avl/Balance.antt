-- ===== src/Containers/Avl/Balance.antt =====
-- The tree stays balanced when items are put in, whatever the comparison says: src/clang/lib/core/avl_tree.c.
use Prim.Native.Nat.{Ordering, max}
use Prim.Native.Nat.Ordering.{lt, eq, gt}
use beehive_im.Common.{ℕ, suc, ◌+◌, ◌≡◌, ◌⊎◌, inl, inr, refl, Bool, true, false, some, arith}
use beehive_im.Containers.Avl.{
  Bf, lh, eh, rh, Node, nil, node, AvlErr, avl_ok, node_exist, avl_right_balance, avl_left_balance,
  avl_rr_balance, avl_rl_balance, avl_ll_balance, avl_lr_balance, avl_insert_right, avl_insert_left,
  avl_insert_raw,
}

abbrev pub height : {A : Type 0} → Node A → ℕ
height nil = 0
height (node bf l x r) = suc (max (height l) (height r))

pub Ordering-cases : (o : Ordering) → (o ≡ lt) ⊎ (o ≡ eq) ⊎ (o ≡ gt)
Ordering-cases lt = inl refl
Ordering-cases eq = inr (inl refl)
Ordering-cases gt = inr (inr refl)

-- The balance factor says how the heights of the children differ.
abbrev pub Skewed : Bf → ℕ → ℕ → Type 0
Skewed lh m n = m ≡ suc n
Skewed eh m n = m ≡ n
Skewed rh m n = n ≡ suc m

abbrev pub Balanced : {A : Type 0} → Node A → Type 0
Balanced nil = Unit {0}
Balanced (node bf l x r) = Balanced l × Balanced r × Skewed bf (height l) (height r)

-- A subtree of two levels or more is higher on one side.
abbrev pub Tilted : {A : Type 0} → Node A → Type 0
Tilted nil = ⊥
Tilted (node lh l x r) = Unit {0}
Tilted (node eh l x r) = height l ≡ 0
Tilted (node rh l x r) = Unit {0}

-- What an insertion makes of a balanced subtree of height `h`
abbrev pub Grown : {A : Type 0} → ℕ → Bool → Node A → Type 0
Grown h false t = Balanced t × (height t ≡ h)
Grown h true t = Balanced t × (height t ≡ suc h) × Tilted t

abbrev pub Inserted : {A : Type 0} → ℕ → AvlErr × Bool × Node A → Type 0
Inserted h (node_exist, true, t) = ⊥
Inserted h (node_exist, false, t) = Grown h false t
Inserted h (avl_ok, taller, t) = Grown h taller t

module _ {A : Type 0} where
  right_balance-Balanced :
      (l r : Node A) (x : A)
      → Balanced l
      → Balanced r
      → Tilted r
      → height r ≡ height l + 2
      → (t : Node A) × (avl_right_balance (node rh l x r) ≡ some t)
        × Balanced t
        × (height t ≡ height r)
  unfolding avl_right_balance avl_rr_balance avl_rl_balance
  right_balance-Balanced l nil x bl br lean h = absurd lean
  right_balance-Balanced l (node eh cl c cr) x bl br lean h = absurd (omega (arith, lean, h, br.2))
  right_balance-Balanced l (node rh cl c cr) x bl br lean h =
      (node eh (node eh l x cl) c cr, refl, ground arith, ground arith)
  right_balance-Balanced l (node lh nil c cr) x bl br lean h = absurd (omega (arith, br.2))
  right_balance-Balanced l (node lh (node lh dl d dr) c cr) x bl br lean h =
      (_, refl, ground arith, ground arith)
  right_balance-Balanced l (node lh (node eh dl d dr) c cr) x bl br lean h =
      (_, refl, ground arith, ground arith)
  right_balance-Balanced l (node lh (node rh dl d dr) c cr) x bl br lean h =
      (_, refl, ground arith, ground arith)

  left_balance-Balanced :
      (l r : Node A) (x : A)
      → Balanced l
      → Balanced r
      → Tilted l
      → height l ≡ height r + 2
      → (t : Node A) × (avl_left_balance (node lh l x r) ≡ some t)
        × Balanced t
        × (height t ≡ height l)
  unfolding avl_left_balance avl_ll_balance avl_lr_balance
  left_balance-Balanced nil r x bl br lean h = absurd lean
  left_balance-Balanced (node eh cl c cr) r x bl br lean h = absurd (omega (arith, lean, h, bl.2))
  left_balance-Balanced (node lh cl c cr) r x bl br lean h = (_, refl, ground arith, ground arith)
  left_balance-Balanced (node rh cl c nil) r x bl br lean h = absurd (omega (arith, bl.2))
  left_balance-Balanced (node rh cl c (node lh dl d dr)) r x bl br lean h =
      (_, refl, ground arith, ground arith)
  left_balance-Balanced (node rh cl c (node eh dl d dr)) r x bl br lean h =
      (_, refl, ground arith, ground arith)
  left_balance-Balanced (node rh cl c (node rh dl d dr)) r x bl br lean h =
      (_, refl, ground arith, ground arith)

  insert_right-Inserted :
      (bf : Bf) (l r : Node A) (x : A) (o : AvlErr × Bool × Node A)
      → Balanced (node bf l x r)
      → Inserted (height r) o
      → (o' : AvlErr × Bool × Node A) × (avl_insert_right bf l x o ≡ some o')
        × Inserted (height (node bf l x r)) o'
  unfolding avl_insert_right
  insert_right-Inserted bf l r x (node_exist, true, t) b g = absurd g
  insert_right-Inserted bf l r x (node_exist, false, t) b g = (_, refl, ground arith)
  insert_right-Inserted bf l r x (avl_ok, false, t) b g = (_, refl, ground arith)
  insert_right-Inserted lh l r x (avl_ok, true, t) b g = (_, refl, ground arith)
  insert_right-Inserted eh l r x (avl_ok, true, t) b g = (_, refl, ground arith)
  insert_right-Inserted rh l r x (avl_ok, true, t) b g =
      let (t', e, bal, same) = right_balance-Balanced l t x b.0 g.0 g.2 (omega (arith, g, b)) in
      ((avl_ok, false, t'), rw (avl_insert_right, e) refl, (bal, omega (arith, same, g, b)))

  insert_left-Inserted :
      (bf : Bf) (l r : Node A) (x : A) (o : AvlErr × Bool × Node A)
      → Balanced (node bf l x r)
      → Inserted (height l) o
      → (o' : AvlErr × Bool × Node A) × (avl_insert_left bf x r o ≡ some o')
        × Inserted (height (node bf l x r)) o'
  unfolding avl_insert_left
  insert_left-Inserted bf l r x (node_exist, true, t) b g = absurd g
  insert_left-Inserted bf l r x (node_exist, false, t) b g = (_, refl, ground arith)
  insert_left-Inserted bf l r x (avl_ok, false, t) b g = (_, refl, ground arith)
  insert_left-Inserted rh l r x (avl_ok, true, t) b g = (_, refl, ground arith)
  insert_left-Inserted eh l r x (avl_ok, true, t) b g = (_, refl, ground arith)
  insert_left-Inserted lh l r x (avl_ok, true, t) b g =
      let (t', e, bal, same) = left_balance-Balanced t r x g.0 b.1 g.2 (omega (arith, g, b)) in
      ((avl_ok, false, t'), rw (avl_insert_left, e) refl, (bal, omega (arith, same, g, b)))

  -- An insertion does not step through NULL, keeps the balance, and reports rightly whether the tree got higher.
  pub insert_raw-Inserted :
      (cmp : A → A → Ordering) (item : A) (t : Node A)
      → Balanced t
      → (o : AvlErr × Bool × Node A) × (avl_insert_raw cmp item t ≡ some o) × Inserted (height t) o
  unfolding avl_insert_raw
  insert_raw-Inserted cmp item nil b =
      ((avl_ok, true, node eh nil item nil), refl, ((tt, tt, refl), refl, refl))
  insert_raw-Inserted cmp item (node bf l x r) b = elim (Ordering-cases (cmp item x)) [
    | inl below ↦
        let (o, e, g) = insert_raw-Inserted cmp item l b.0 in
        let (o', e', g') = insert_left-Inserted bf l r x o b g in
        (o', rw (avl_insert_raw, below, e) e', g')
    | inr (inl same) ↦
        ((node_exist, false, node bf l x r), rw (avl_insert_raw, same) refl, (b, refl))
    | inr (inr above) ↦
        let (o, e, g) = insert_raw-Inserted cmp item r b.1 in
        let (o', e', g') = insert_right-Inserted bf l r x o b g in
        (o', rw (avl_insert_raw, above, e) e', g')
  ]
