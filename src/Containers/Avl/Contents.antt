-- ===== src/Containers/Avl/Contents.antt =====
-- What is in the tree after each operation: src/clang/lib/core/avl_tree.c.

use mathlib.Core.Option
use beehive_im.Common.{
  ◌≡◌, refl, Bool, true, false, Option, none, some, List, ◌∷◌, ◌++◌, append_assoc,
}
use beehive_im.Containers.Avl.{
  Bf, lh, eh, rh, Node, nil, node, AvlErr, avl_ok, node_exist, avl_right_balance, avl_left_balance,
  avl_rr_balance, avl_rl_balance, avl_ll_balance, avl_lr_balance, avl_insert_right, avl_insert_left,
  avl_delete_left_balance, avl_delete_right_balance, settle, avl_trav,
}

-- What holds of the result, if there is one
abbrev pub Gives : {X : Type 0} → (X → Type 0) → Option X → Type 0
Gives P none = Unit {0}
Gives P (some x) = P x

pub Gives-some : {X : Type 0} (P : X → Type 0) (o : Option X) (x : X) → Gives P o → o ≡ some x → P x
Gives-some P o x g e = rw e at g

Gives-map :
    {X Y : Type 0} (P : X → Type 0) (Q : Y → Type 0) (f : X → Y) (o : Option X)
    → Gives P o
    → ((x : X) → P x → Q (f x))
    → Gives Q (Option.map f o)
Gives-map P Q f none g h = tt
Gives-map P Q f (some x) g h = h x g

module _ {A : Type 0} where
  -- Rotations leave the traversal as it is.
  right_balance-trav : (t : Node A) → Gives (λ t'. avl_trav t' ≡ avl_trav t) (avl_right_balance t)
  unfolding avl_trav avl_right_balance avl_rr_balance avl_rl_balance
  right_balance-trav nil = tt
  right_balance-trav (node bf l x nil) = tt
  right_balance-trav (node bf l x (node eh cl c cr)) = refl
  right_balance-trav (node bf l x (node rh cl c cr)) = simp append_assoc
  right_balance-trav (node bf l x (node lh nil c cr)) = tt
  right_balance-trav (node bf l x (node lh (node dbf dl d dr) c cr)) = simp append_assoc

  left_balance-trav : (t : Node A) → Gives (λ t'. avl_trav t' ≡ avl_trav t) (avl_left_balance t)
  unfolding avl_trav avl_left_balance avl_ll_balance avl_lr_balance
  left_balance-trav nil = tt
  left_balance-trav (node bf nil x r) = tt
  left_balance-trav (node bf (node eh cl c cr) x r) = refl
  left_balance-trav (node bf (node lh cl c cr) x r) = simp append_assoc
  left_balance-trav (node bf (node rh cl c nil) x r) = tt
  left_balance-trav (node bf (node rh cl c (node dbf dl d dr)) x r) = simp append_assoc

  delete_left-trav :
      (t : Node A)
      → Gives (λ (o : Bool × Node A). avl_trav o.1 ≡ avl_trav t) (avl_delete_left_balance t)
  unfolding avl_trav avl_delete_left_balance avl_rl_balance
  delete_left-trav nil = tt
  delete_left-trav (node lh l x r) = refl
  delete_left-trav (node eh l x r) = refl
  delete_left-trav (node rh l x nil) = tt
  delete_left-trav (node rh l x (node eh cl c cr)) = simp append_assoc
  delete_left-trav (node rh l x (node rh cl c cr)) = simp append_assoc
  delete_left-trav (node rh l x (node lh nil c cr)) = tt
  delete_left-trav (node rh l x (node lh (node dbf dl d dr) c cr)) = simp append_assoc

  delete_right-trav :
      (t : Node A)
      → Gives (λ (o : Bool × Node A). avl_trav o.1 ≡ avl_trav t) (avl_delete_right_balance t)
  unfolding avl_trav avl_delete_right_balance avl_lr_balance
  delete_right-trav nil = tt
  delete_right-trav (node rh l x r) = refl
  delete_right-trav (node eh l x r) = refl
  delete_right-trav (node lh nil x r) = tt
  delete_right-trav (node lh (node eh cl c cr) x r) = simp append_assoc
  delete_right-trav (node lh (node lh cl c cr) x r) = simp append_assoc
  delete_right-trav (node lh (node rh cl c nil) x r) = tt
  delete_right-trav (node lh (node rh cl c (node dbf dl d dr)) x r) = simp append_assoc

  abbrev pub Same : {D : Type 0} → D → List A → D × Bool × Node A → Type 0
  Same d xs o = (o.0 ≡ d) × (avl_trav o.2 ≡ xs)

  pub settle_left-trav :
      {D : Type 0} (d : D) (lower : Bool) (t : Node A)
      → Gives (Same d (avl_trav t)) (settle avl_delete_left_balance d lower t)
  settle_left-trav d false t = (refl, refl)
  settle_left-trav d true t =
      Gives-map (λ (o : Bool × Node A). avl_trav o.1 ≡ avl_trav t) (Same d (avl_trav t))
        (λ o. (d, o.0, o.1)) (avl_delete_left_balance t) (delete_left-trav t) (λ o e. (refl, e))

  pub settle_right-trav :
      {D : Type 0} (d : D) (lower : Bool) (t : Node A)
      → Gives (Same d (avl_trav t)) (settle avl_delete_right_balance d lower t)
  settle_right-trav d false t = (refl, refl)
  settle_right-trav d true t =
      Gives-map (λ (o : Bool × Node A). avl_trav o.1 ≡ avl_trav t) (Same d (avl_trav t))
        (λ o. (d, o.0, o.1)) (avl_delete_right_balance t) (delete_right-trav t) (λ o e. (refl, e))

  pub insert_right-trav :
      (bf : Bf) (l : Node A) (x : A) (o : AvlErr × Bool × Node A)
      → Gives (Same o.0 (avl_trav l ++ (x ∷ avl_trav o.2))) (avl_insert_right bf l x o)
  unfolding avl_insert_right avl_trav
  insert_right-trav bf l x (node_exist, taller, r) = (refl, refl)
  insert_right-trav bf l x (avl_ok, false, r) = (refl, refl)
  insert_right-trav lh l x (avl_ok, true, r) = (refl, refl)
  insert_right-trav eh l x (avl_ok, true, r) = (refl, refl)
  insert_right-trav rh l x (avl_ok, true, r) =
      Gives-map (λ t'. avl_trav t' ≡ avl_trav (node rh l x r))
        (Same avl_ok (avl_trav l ++ (x ∷ avl_trav r))) (λ t. (avl_ok, false, t))
        (avl_right_balance (node rh l x r)) (right_balance-trav (node rh l x r)) (λ t e. (refl, e))

  pub insert_left-trav :
      (bf : Bf) (x : A) (r : Node A) (o : AvlErr × Bool × Node A)
      → Gives (Same o.0 (avl_trav o.2 ++ (x ∷ avl_trav r))) (avl_insert_left bf x r o)
  unfolding avl_insert_left avl_trav
  insert_left-trav bf x r (node_exist, taller, l) = (refl, refl)
  insert_left-trav bf x r (avl_ok, false, l) = (refl, refl)
  insert_left-trav rh x r (avl_ok, true, l) = (refl, refl)
  insert_left-trav eh x r (avl_ok, true, l) = (refl, refl)
  insert_left-trav lh x r (avl_ok, true, l) =
      Gives-map (λ t'. avl_trav t' ≡ avl_trav (node lh l x r))
        (Same avl_ok (avl_trav l ++ (x ∷ avl_trav r))) (λ t. (avl_ok, false, t))
        (avl_left_balance (node lh l x r)) (left_balance-trav (node lh l x r)) (λ t e. (refl, e))
