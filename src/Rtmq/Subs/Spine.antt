-- ===== src/Rtmq/Subs/Spine.antt =====
-- Where the comparison of groups never says less, a search runs down the right side of the tree, and finds what was
-- inserted: rtmq_sub_group_cmp_cb of src/clang/lib/rtmq/server/rtmq_comm.c with src/clang/lib/core/avl_tree.c.
use Prim.Native.Nat.{Ordering}
use Prim.Native.Nat.Ordering.{lt, eq, gt}
use mathlib.Core.Option
use beehive_im.Common.{
  ℕ, ◌^◌, ◌≡◌, ◌≢◌, ◌<◌, ◌⊎◌, refl, ap, Bool, true, false, none, some, arith, inl, inr, nat_key,
}
use beehive_im.Containers.Avl.{
  Bf, lh, eh, rh, Node, nil, node, AvlTree, AvlErr, avl_ok, avl_insert, avl_insert_raw,
  avl_insert_right, avl_right_balance, avl_rr_balance, avl_query,
}
use beehive_im.Containers.Avl.Balance.{Ordering-cases}
use beehive_im.Chat.{inc64}
use beehive_im.Rtmq.Compare.{rtmq_sub_group_cmp_cb}

pub never_less : (a b : ℕ) → rtmq_sub_group_cmp_cb a b ≢ lt
unfolding rtmq_sub_group_cmp_cb
never_less a b h = ground (arith, h)

pub same_gid : (a : ℕ) → a < 2 ^ 32 → rtmq_sub_group_cmp_cb a a ≡ eq
unfolding rtmq_sub_group_cmp_cb
same_gid a h = ground (arith, h)

-- A subtree that got higher is a leaf, or higher on its right.
abbrev Leans : {A : Type 0} → Bool → Node A → Type 0
Leans false t = Unit {0}
Leans true nil = ⊥
Leans true (node lh l x r) = ⊥
Leans true (node eh l x r) = (l ≡ nil) × (r ≡ nil)
Leans true (node rh l x r) = Unit {0}

module _ {A : Type 0} (cmp : A → A → Ordering) (item : A) (same : cmp item item ≡ eq)
    (right : (x : A) → cmp item x ≢ lt) where
  -- The insertion went through, its item is found, and the subtree leans to the right.
  abbrev Finds : AvlErr × Bool × Node A → Type 0
  Finds o = (o.0 ≡ avl_ok) × (avl_query cmp o.2 item ≡ some item) × Leans o.1 o.2

  balance-finds :
      (l r : Node A) (x : A)
      → cmp item x ≡ gt
      → avl_query cmp r item ≡ some item
      → Leans true r
      → (t : Node A) × (avl_right_balance (node rh l x r) ≡ some t)
        × (avl_query cmp t item ≡ some item)
  unfolding avl_query avl_right_balance avl_rr_balance
  balance-finds l nil x above found lean = absurd lean
  balance-finds l (node lh cl c cr) x above found lean = absurd lean
  balance-finds l (node eh cl c cr) x above found lean =
      (node rh l x (node eh cl c cr), refl, rw (avl_query, above) found)
  balance-finds l (node rh cl c cr) x above found lean = (
    node eh (node eh l x cl) c cr,
    refl,
    elim (Ordering-cases (cmp item c)) [
      | inl below ↦ absurd (right c below)
      | inr (inl here) ↦ ground (arith, found, here)
      | inr (inr on) ↦ ground (arith, found, on)
    ],
  )

  insert_right-finds :
      (bf : Bf) (l r : Node A) (x : A) (taller : Bool)
      → cmp item x ≡ gt
      → avl_query cmp r item ≡ some item
      → Leans taller r
      → (taller' : Bool) × (t : Node A) × (avl_insert_right bf l x (avl_ok, taller, r)
          ≡ some (avl_ok, taller', t))
        × (avl_query cmp t item ≡ some item)
        × Leans taller' t
  unfolding avl_insert_right avl_query
  insert_right-finds bf l r x false above found lean =
      (false, node bf l x r, refl, rw (avl_query, above) found, tt)
  insert_right-finds lh l r x true above found lean =
      (false, node eh l x r, refl, rw (avl_query, above) found, tt)
  insert_right-finds eh l r x true above found lean =
      (true, node rh l x r, refl, rw (avl_query, above) found, tt)
  insert_right-finds rh l r x true above found lean =
      let (t, e, q) = balance-finds l r x above found lean in
      (false, t, ap (Option.map (λ t. (avl_ok, false, t))) e, q, tt)

  -- An item that is not found goes into the tree, and then is found.
  insert_raw-finds :
      (t : Node A)
      → avl_query cmp t item ≡ none
      → (taller : Bool) × (t' : Node A) × (avl_insert_raw cmp item t ≡ some (avl_ok, taller, t'))
        × (avl_query cmp t' item ≡ some item)
        × Leans taller t'
  unfolding avl_insert_raw avl_query
  insert_raw-finds nil q =
      (true, node eh nil item nil, refl, rw (avl_query, same) refl, (refl, refl))
  insert_raw-finds (node bf l x r) q = elim (Ordering-cases (cmp item x)) [
    | inl below ↦ absurd (right x below)
    | inr (inl found) ↦ absurd (ground (arith, q, found))
    | inr (inr above) ↦
        let (taller, r', e, found, lean) = insert_raw-finds r (ground (arith, q, above)) in
        let (taller', t, e', found', lean') =
          insert_right-finds bf l r' x taller above found lean in
        (taller', t, rw (avl_insert_raw, above, e) e', found', lean')
  ]

  insert-root :
      (num : ℕ) (root : Node A)
      → avl_query cmp root item ≡ none
      → (tree' : AvlTree A) × (avl_insert cmp (record { num = num; root = root }) item
          ≡ some (avl_ok, tree'))
        × (avl_query cmp tree'.root item ≡ some item)
        × (taller : Bool) × (avl_insert_raw cmp item root ≡ some (avl_ok, taller, tree'.root))
        × (((root ≡ nil) × (tree'.num ≡ 1)) ⊎ (tree'.num ≡ inc64 num))
  unfolding avl_insert avl_insert_raw avl_query
  insert-root num nil q = (
    record { num = 1; root = node eh nil item nil },
    refl,
    rw (avl_query, same) refl,
    true,
    refl,
    inl (refl, refl),
  )
  insert-root num (node bf l x r) q =
      let (taller, t, e, found, lean) = insert_raw-finds (node bf l x r) q in
      (record { num = inc64 num; root = t }, rw (avl_insert, e) refl, found, taller, e, inr refl)

  pub avl_insert-finds :
      (tree : AvlTree A)
      → avl_query cmp tree.root item ≡ none
      → (tree' : AvlTree A) × (avl_insert cmp tree item ≡ some (avl_ok, tree'))
        × (avl_query cmp tree'.root item ≡ some item)
        × (taller : Bool) × (avl_insert_raw cmp item tree.root ≡ some (avl_ok, taller, tree'.root))
        × (((tree.root ≡ nil) × (tree'.num ≡ 1)) ⊎ (tree'.num ≡ inc64 tree.num))
  unfolding avl_insert avl_query
  avl_insert-finds tree q = insert-root tree.num tree.root q
