-- ===== src/Containers/Avl.antt =====
-- The balanced tree: src/clang/lib/core/avl_tree.c, types of src/clang/incl/avl_tree.h. A node stands for the whole
-- subtree below it, so that the parent pointers and the places where a subtree is hung in again leave no trace. What
-- a step through NULL would do is `none`.
pub mod Balance
pub mod Lower
pub mod Dict
pub mod Contents
pub mod Refine
pub mod Remove
pub mod Correct
pub mod Depth
pub mod Client
mod Tests
use Prim.Native.Nat.{Ordering}
use Prim.Native.Nat.Ordering.{lt, eq, gt}
use mathlib.Core.Option
use beehive_im.Common.{ℕ, ◌+◌, ◌-◌, Bool, true, false, Option, none, some, List, [], ◌∷◌, ◌++◌}
use beehive_im.Chat.{inc64, dec64}

-- AVL_LH, AVL_EH and AVL_RH: the left subtree is the higher one, both are equal, the right one is.
pub data Bf : Type 0 where
  lh eh rh : Bf

-- NULL, or a node with its balance factor, its left child, its data and its right child
pub data Node (A : Type 0) : Type 0 where
  nil : Node A
  node : Bf → Node A → A → Node A → Node A

pub record AvlTree (A : Type 0) : Type 0 where
  pub num : ℕ
  pub root : Node A

-- What `avl_insert` returns: AVL_OK, AVL_NODE_EXIST.
pub data AvlErr : Type 0 where
  avl_ok node_exist : AvlErr

abbrev pub avl_creat : {A : Type 0} → AvlTree A
avl_creat = record { num = 0; root = nil }

-- The factors that a double rotation leaves on its left and on its right, by that of the node that comes to the top
abbrev pub left_bf : Bf → Bf
left_bf rh = lh
left_bf bf = eh

abbrev pub right_bf : Bf → Bf
right_bf lh = rh
right_bf bf = eh

module _ {A : Type 0} where
  unfoldable pub avl_rr_balance : Node A → Option (Node A)
  avl_rr_balance (node bf l x (node cbf cl c cr)) = some (node eh (node eh l x cl) c cr)
  avl_rr_balance t = none

  unfoldable pub avl_rl_balance : Node A → Option (Node A)
  avl_rl_balance (node bf l x (node cbf (node bbf bl b br) c cr)) =
      some (node eh (node (left_bf bbf) l x bl) b (node (right_bf bbf) br c cr))
  avl_rl_balance t = none

  -- With AVL_EH on the right child it is AVL_ERR, which the caller does not look at, and the tree stays.
  unfoldable pub avl_right_balance : Node A → Option (Node A)
  unfolding avl_rr_balance avl_rl_balance
  avl_right_balance nil = none
  avl_right_balance (node bf l x nil) = none
  avl_right_balance (node bf l x (node rh cl c cr)) = avl_rr_balance (node bf l x (node rh cl c cr))
  avl_right_balance (node bf l x (node lh cl c cr)) = avl_rl_balance (node bf l x (node lh cl c cr))
  avl_right_balance (node bf l x (node eh cl c cr)) = some (node bf l x (node eh cl c cr))

  unfoldable pub avl_ll_balance : Node A → Option (Node A)
  avl_ll_balance (node bf (node cbf cl c cr) x r) = some (node eh cl c (node eh cr x r))
  avl_ll_balance t = none

  unfoldable pub avl_lr_balance : Node A → Option (Node A)
  avl_lr_balance (node bf (node cbf cl c (node bbf bl b br)) x r) =
      some (node eh (node (left_bf bbf) cl c bl) b (node (right_bf bbf) br x r))
  avl_lr_balance t = none

  unfoldable pub avl_left_balance : Node A → Option (Node A)
  unfolding avl_ll_balance avl_lr_balance
  avl_left_balance nil = none
  avl_left_balance (node bf nil x r) = none
  avl_left_balance (node bf (node lh cl c cr) x r) = avl_ll_balance (node bf (node lh cl c cr) x r)
  avl_left_balance (node bf (node rh cl c cr) x r) = avl_lr_balance (node bf (node rh cl c cr) x r)
  avl_left_balance (node bf (node eh cl c cr) x r) = some (node bf (node eh cl c cr) x r)

  -- What `avl_insert_right` does with what the insertion into the right child gave: the result, `taller`, the child
  unfoldable pub avl_insert_right :
      Bf → Node A → A → AvlErr × Bool × Node A → Option (AvlErr × Bool × Node A)
  avl_insert_right bf l x (node_exist, taller, r) = some (node_exist, taller, node bf l x r)
  avl_insert_right bf l x (avl_ok, false, r) = some (avl_ok, false, node bf l x r)
  avl_insert_right lh l x (avl_ok, true, r) = some (avl_ok, false, node eh l x r)
  avl_insert_right eh l x (avl_ok, true, r) = some (avl_ok, true, node rh l x r)
  avl_insert_right rh l x (avl_ok, true, r) =
      Option.map (λ t. (avl_ok, false, t)) (avl_right_balance (node rh l x r))

  unfoldable pub avl_insert_left :
      Bf → A → Node A → AvlErr × Bool × Node A → Option (AvlErr × Bool × Node A)
  avl_insert_left bf x r (node_exist, taller, l) = some (node_exist, taller, node bf l x r)
  avl_insert_left bf x r (avl_ok, false, l) = some (avl_ok, false, node bf l x r)
  avl_insert_left rh x r (avl_ok, true, l) = some (avl_ok, false, node eh l x r)
  avl_insert_left eh x r (avl_ok, true, l) = some (avl_ok, true, node lh l x r)
  avl_insert_left lh x r (avl_ok, true, l) =
      Option.map (λ t. (avl_ok, false, t)) (avl_left_balance (node lh l x r))

  -- The subtree on the left got lower: whether the whole got lower, and what it is now
  unfoldable pub avl_delete_left_balance : Node A → Option (Bool × Node A)
  unfolding avl_rl_balance
  avl_delete_left_balance nil = none
  avl_delete_left_balance (node lh l x r) = some (true, node eh l x r)
  avl_delete_left_balance (node eh l x r) = some (false, node rh l x r)
  avl_delete_left_balance (node rh l x nil) = none
  avl_delete_left_balance (node rh l x (node eh cl c cr)) =
      some (false, node lh (node rh l x cl) c cr)
  avl_delete_left_balance (node rh l x (node rh cl c cr)) =
      some (true, node eh (node eh l x cl) c cr)
  avl_delete_left_balance (node rh l x (node lh cl c cr)) =
      Option.map (λ t. (true, t)) (avl_rl_balance (node rh l x (node lh cl c cr)))

  unfoldable pub avl_delete_right_balance : Node A → Option (Bool × Node A)
  unfolding avl_lr_balance
  avl_delete_right_balance nil = none
  avl_delete_right_balance (node rh l x r) = some (true, node eh l x r)
  avl_delete_right_balance (node eh l x r) = some (false, node lh l x r)
  avl_delete_right_balance (node lh nil x r) = none
  avl_delete_right_balance (node lh (node eh cl c cr) x r) =
      some (false, node rh cl c (node lh cr x r))
  avl_delete_right_balance (node lh (node lh cl c cr) x r) =
      some (true, node eh cl c (node eh cr x r))
  avl_delete_right_balance (node lh (node rh cl c cr) x r) =
      Option.map (λ t. (true, t)) (avl_lr_balance (node lh (node rh cl c cr) x r))

  -- A balance that is done only where a child got lower; `d` goes along
  abbrev pub settle :
      {D : Type 0}
      → (Node A → Option (Bool × Node A))
      → D
      → Bool
      → Node A
      → Option (D × Bool × Node A)
  settle balance d true t = Option.map (λ o. (d, o.0, o.1)) (balance t)
  settle balance d false t = some (d, false, t)

  -- `prev` gives up its rightmost node: the data of that node, whether `prev` got lower, what it is now
  unfoldable pub avl_replace_and_delete : Node A → Option (A × Bool × Node A)
  avl_replace_and_delete nil = none
  avl_replace_and_delete (node bf l x nil) = some (x, true, l)
  avl_replace_and_delete (node bf l x (node cbf cl c cr)) =
      elim (avl_replace_and_delete (node cbf cl c cr)) [
        | none ↦ none
        | some (d, lower, r) ↦ settle avl_delete_right_balance d lower (node bf l x r)
      ]

  -- The part of `_avl_delete` after the node was found
  unfoldable pub avl_delete_found : Bf → Node A → A → Node A → Option (Option A × Bool × Node A)
  avl_delete_found bf l x nil = some (some x, true, l)
  avl_delete_found bf nil x (node cbf cl c cr) = some (some x, true, node cbf cl c cr)
  avl_delete_found bf (node dbf dl d dr) x (node cbf cl c cr) =
      elim (avl_replace_and_delete (node dbf dl d dr)) [
        | none ↦ none
        | some (y, lower, l) ↦
            settle avl_delete_left_balance (some x) lower (node bf l y (node cbf cl c cr))
      ]

  unfoldable pub avl_trav : Node A → List A
  avl_trav nil = []
  avl_trav (node bf l x r) = avl_trav l ++ (x ∷ avl_trav r)

  unfoldable pub avl_find : (A → Bool) → Node A → Option A
  avl_find find nil = none
  avl_find find (node bf l x r) =
      let below = avl_find find r in
      elim (avl_find find l) [
        | some y ↦ some y
        | none ↦ elim (find x) [ true ↦ some x | false ↦ below ]
      ]

-- The comparison that the tree was created with, by the sign of what it returns
module _ {A : Type 0} (cmp : A → A → Ordering) where
  -- `_avl_insert`: the result, `taller`, the subtree
  unfoldable pub avl_insert_raw : A → Node A → Option (AvlErr × Bool × Node A)
  avl_insert_raw item nil = some (avl_ok, true, node eh nil item nil)
  avl_insert_raw item (node bf l x r) = elim (cmp item x) [
    | eq ↦ some (node_exist, false, node bf l x r)
    | lt ↦ elim (avl_insert_raw item l) [ none ↦ none | some o ↦ avl_insert_left bf x r o ]
    | gt ↦ elim (avl_insert_raw item r) [ none ↦ none | some o ↦ avl_insert_right bf l x o ]
  ]

  unfoldable pub avl_insert : AvlTree A → A → Option (AvlErr × AvlTree A)
  avl_insert tree item = elim tree.root [
    | nil ↦ some (avl_ok, record { num = 1; root = node eh nil item nil })
    | node bf l x r ↦ elim (avl_insert_raw item (node bf l x r)) [
      | none ↦ none
      | some (avl_ok, taller, root) ↦ some (avl_ok, record { num = inc64 tree.num; root = root })
      | some (node_exist, taller, root) ↦ some (node_exist, record { num = tree.num; root = root })
    ]
  ]

  unfoldable pub avl_query : Node A → A → Option A
  avl_query nil key = none
  avl_query (node bf l x r) key = elim (cmp key x) [
    | eq ↦ some x
    | lt ↦ avl_query l key
    | gt ↦ avl_query r key
  ]

  -- `_avl_delete`: the data taken out, `lower`, the subtree
  unfoldable pub avl_delete_raw : A → Node A → Option (Option A × Bool × Node A)
  avl_delete_raw key nil = some (none, false, nil)
  avl_delete_raw key (node bf l x r) = elim (cmp key x) [
    | eq ↦ avl_delete_found bf l x r
    | lt ↦ elim (avl_delete_raw key l) [
      | none ↦ none
      | some (d, lower, l') ↦ settle avl_delete_left_balance d lower (node bf l' x r)
    ]
    | gt ↦ elim (avl_delete_raw key r) [
      | none ↦ none
      | some (d, lower, r') ↦ settle avl_delete_right_balance d lower (node bf l x r')
    ]
  ]

  unfoldable pub avl_delete : AvlTree A → A → Option (Option A × AvlTree A)
  avl_delete tree key = elim (avl_delete_raw key tree.root) [
    | none ↦ none
    | some (some x, lower, root) ↦ some (some x, record { num = dec64 tree.num; root = root })
    | some (none, lower, root) ↦ some (none, record { num = tree.num; root = root })
  ]
