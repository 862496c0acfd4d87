-- ===== src/Containers/Avl/Lower.antt =====
-- The tree stays balanced when items are taken out: src/clang/lib/core/avl_tree.c.
use Prim.Native.Nat.{Ordering}
use beehive_im.Common.{ℕ, suc, ◌≡◌, inl, inr, refl, Bool, true, false, Option, none, some, arith}
use beehive_im.Containers.Avl.{
  Bf, lh, eh, rh, Node, nil, node, avl_rl_balance, avl_lr_balance, avl_delete_left_balance,
  avl_delete_right_balance, settle, avl_replace_and_delete, avl_delete_found, avl_delete_raw,
}
use beehive_im.Containers.Avl.Balance.{Ordering-cases, height, Balanced}

-- What a deletion makes of a balanced subtree of height `h`
abbrev pub Shrunk : {A : Type 0} → ℕ → Bool → Node A → Type 0
Shrunk h false t = Balanced t × (height t ≡ h)
Shrunk h true t = Balanced t × (suc (height t) ≡ h)

module _ {A : Type 0} where
  left_lower :
      (l0 l r : Node A) (bf : Bf) (x y : A)
      → Balanced (node bf l0 x r)
      → Shrunk (height l0) true l
      → (o : Bool × Node A) × (avl_delete_left_balance (node bf l y r) ≡ some o)
        × Shrunk (height (node bf l0 x r)) o.0 o.1
  unfolding avl_delete_left_balance avl_rl_balance
  left_lower l0 l r lh x y b s = (_, refl, ground arith)
  left_lower l0 l r eh x y b s = (_, refl, ground arith)
  left_lower l0 l nil rh x y b s = absurd (omega (arith, b))
  left_lower l0 l (node eh cl c cr) rh x y b s = (_, refl, ground arith)
  left_lower l0 l (node rh cl c cr) rh x y b s = (_, refl, ground arith)
  left_lower l0 l (node lh nil c cr) rh x y b s = absurd (omega (arith, b))
  left_lower l0 l (node lh (node lh dl d dr) c cr) rh x y b s = (_, refl, ground arith)
  left_lower l0 l (node lh (node eh dl d dr) c cr) rh x y b s = (_, refl, ground arith)
  left_lower l0 l (node lh (node rh dl d dr) c cr) rh x y b s = (_, refl, ground arith)

  right_lower :
      (r0 l r : Node A) (bf : Bf) (x : A)
      → Balanced (node bf l x r0)
      → Shrunk (height r0) true r
      → (o : Bool × Node A) × (avl_delete_right_balance (node bf l x r) ≡ some o)
        × Shrunk (height (node bf l x r0)) o.0 o.1
  unfolding avl_delete_right_balance avl_lr_balance
  right_lower r0 l r rh x b s = (_, refl, ground arith)
  right_lower r0 l r eh x b s = (_, refl, ground arith)
  right_lower r0 nil r lh x b s = absurd (omega (arith, b))
  right_lower r0 (node eh cl c cr) r lh x b s = (_, refl, ground arith)
  right_lower r0 (node lh cl c cr) r lh x b s = (_, refl, ground arith)
  right_lower r0 (node rh cl c nil) r lh x b s = absurd (omega (arith, b))
  right_lower r0 (node rh cl c (node lh dl d dr)) r lh x b s = (_, refl, ground arith)
  right_lower r0 (node rh cl c (node eh dl d dr)) r lh x b s = (_, refl, ground arith)
  right_lower r0 (node rh cl c (node rh dl d dr)) r lh x b s = (_, refl, ground arith)

  left_settle :
      {D : Type 0} (d : D) (lower : Bool) (l0 l r : Node A) (bf : Bf) (x y : A)
      → Balanced (node bf l0 x r)
      → Shrunk (height l0) lower l
      → (t : Node A) × (b : Bool) × (settle avl_delete_left_balance d lower (node bf l y r)
          ≡ some (d, b, t))
        × Shrunk (height (node bf l0 x r)) b t
  left_settle d false l0 l r bf x y b s = (node bf l y r, false, refl, ground arith)
  left_settle d true l0 l r bf x y b s =
      let (o, e, g) = left_lower l0 l r bf x y b s in (o.1, o.0, rw e refl, g)

  right_settle :
      {D : Type 0} (d : D) (lower : Bool) (r0 l r : Node A) (bf : Bf) (x : A)
      → Balanced (node bf l x r0)
      → Shrunk (height r0) lower r
      → (t : Node A) × (b : Bool) × (settle avl_delete_right_balance d lower (node bf l x r)
          ≡ some (d, b, t))
        × Shrunk (height (node bf l x r0)) b t
  right_settle d false r0 l r bf x b s = (node bf l x r, false, refl, ground arith)
  right_settle d true r0 l r bf x b s =
      let (o, e, g) = right_lower r0 l r bf x b s in (o.1, o.0, rw e refl, g)

  replace-Shrunk :
      (bf : Bf) (l r : Node A) (x : A)
      → Balanced (node bf l x r)
      → (d : A) × (t : Node A) × (b : Bool) × (avl_replace_and_delete (node bf l x r)
          ≡ some (d, b, t))
        × Shrunk (height (node bf l x r)) b t
  unfolding avl_replace_and_delete
  replace-Shrunk bf l nil x b = (x, l, true, refl, ground arith)
  replace-Shrunk bf l (node cbf cl c cr) x b =
      let (d, t, lower, e, s) = replace-Shrunk cbf cl cr c b.1 in
      let (t', lower', e', s') = right_settle d lower (node cbf cl c cr) l t bf x b s in
      (d, t', lower', rw (avl_replace_and_delete, e) e', s')

  delete_found-Shrunk :
      (bf : Bf) (l r : Node A) (x : A)
      → Balanced (node bf l x r)
      → (t : Node A) × (b : Bool) × (avl_delete_found bf l x r ≡ some (some x, b, t))
        × Shrunk (height (node bf l x r)) b t
  unfolding avl_delete_found
  delete_found-Shrunk bf l nil x b = (l, true, refl, ground arith)
  delete_found-Shrunk bf nil (node cbf cl c cr) x b = (node cbf cl c cr, true, refl, ground arith)
  delete_found-Shrunk bf (node dbf dl d dr) (node cbf cl c cr) x b =
      let (y, t, lower, e, s) = replace-Shrunk dbf dl dr d b.0 in
      let (t', lower', e', s') =
        left_settle (some x) lower (node dbf dl d dr) t (node cbf cl c cr) bf x y b s in
      (t', lower', rw (avl_delete_found, e) e', s')

  -- A deletion does not step through NULL, keeps the balance, and reports rightly whether the tree got lower.
  pub delete_raw-Shrunk :
      (cmp : A → A → Ordering) (key : A) (t : Node A)
      → Balanced t
      → (d : Option A) × (t' : Node A) × (b : Bool) × (avl_delete_raw cmp key t ≡ some (d, b, t'))
        × Shrunk (height t) b t'
  unfolding avl_delete_raw
  delete_raw-Shrunk cmp key nil b = (none, nil, false, refl, (tt, refl))
  delete_raw-Shrunk cmp key (node bf l x r) b = elim (Ordering-cases (cmp key x)) [
    | inl below ↦
        let (d, t, lower, e, s) = delete_raw-Shrunk cmp key l b.0 in
        let (t', lower', e', s') = left_settle d lower l t r bf x x b s in
        (d, t', lower', rw (avl_delete_raw, below, e) e', s')
    | inr (inl same) ↦
        let (t, lower, e, s) = delete_found-Shrunk bf l r x b in
        (some x, t, lower, rw (avl_delete_raw, same) e, s)
    | inr (inr above) ↦
        let (d, t, lower, e, s) = delete_raw-Shrunk cmp key r b.1 in
        let (t', lower', e', s') = right_settle d lower r l t bf x b s in
        (d, t', lower', rw (avl_delete_raw, above, e) e', s')
  ]
