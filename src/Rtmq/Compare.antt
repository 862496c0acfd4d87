-- ===== src/Rtmq/Compare.antt =====
-- The comparisons that the trees of src/clang/lib/rtmq/server are created with, by the sign of the int64_t that they
-- return.
mod Tests
use Prim.Native.Nat.{Ordering, compare}
use Prim.Native.Nat.Ordering.{lt, eq, gt}
use beehive_im.Common.{
  ℕ, ◌+◌, ◌-◌, ◌%◌, ◌^◌, ◌≡◌, ◌≢◌, ◌<◌, refl, sym, Option, none, some, [], ◌∷◌, if◌then◌else◌, ltb,
  ◌==◌, nat_key, arith,
}
use beehive_im.Containers.Avl.{
  lh, eh, rh, Node, nil, node, AvlTree, AvlErr, avl_ok, avl_creat, avl_insert, avl_insert_raw,
  avl_insert_right, avl_right_balance, avl_rr_balance, avl_query, avl_trav,
}
use beehive_im.Containers.Avl.Refine.{Orders}
use beehive_im.Containers.Avl.Client.{inserts, avl_run}
use beehive_im.Rtmq.NodeMap.{NodeMap}

-- The sign of an int64_t, by its bits
abbrev pub int64_sign : ℕ → Ordering
int64_sign n = if n == 0 then eq else if ltb n (2 ^ 63) then gt else lt

-- The ids are ints, and so is their difference, which int64_t takes over with its sign. For ids from 0 on.
unfoldable pub rtmq_node_to_svr_map_cmp_cb : NodeMap → NodeMap → Ordering
rtmq_node_to_svr_map_cmp_cb map1 map2 = int64_sign ((map1.nid + (2 ^ 64 - map2.nid)) % 2 ^ 64)

-- The ids are uint32_t, and so is their difference, which int64_t takes over without a sign.
unfoldable pub rtmq_sub_group_cmp_cb : ℕ → ℕ → Ordering
rtmq_sub_group_cmp_cb gid1 gid2 = int64_sign ((gid1 + (2 ^ 32 - gid2)) % 2 ^ 32)

-- The comparison of node maps orders them by their ids, as far as these are ints that are not negative.
pub rtmq_node_to_svr_map_cmp_cb-Orders :
    Orders rtmq_node_to_svr_map_cmp_cb (λ map. map.nid) (2 ^ 31)
unfolding rtmq_node_to_svr_map_cmp_cb
rtmq_node_to_svr_map_cmp_cb-Orders a b p q = ground (arith, p, q)

never_left : (a b : ℕ) → a < 2 ^ 32 → b < 2 ^ 32 → a ≢ b → rtmq_sub_group_cmp_cb a b ≡ gt
unfolding rtmq_sub_group_cmp_cb
never_left a b p q h = ground (arith, p, q, h)

-- Of three groups that are put into the tree of a subscription list, the first is not found any more, although it
-- is in the tree, and another group of the same id is let in.
pub group-lost :
    (a b c : ℕ)
    → a < 2 ^ 32
    → b < 2 ^ 32
    → c < 2 ^ 32
    → a ≢ b
    → a ≢ c
    → b ≢ c
    → (tree : AvlTree ℕ) × (tree' : AvlTree ℕ) × (avl_run rtmq_sub_group_cmp_cb
          (inserts a ∷ inserts b ∷ inserts c ∷ [])
          avl_creat
        ≡ some tree)
      × (avl_trav tree.root ≡ a ∷ b ∷ c ∷ [])
      × (avl_query rtmq_sub_group_cmp_cb tree.root a ≡ none)
      × (avl_insert rtmq_sub_group_cmp_cb tree a ≡ some (avl_ok, tree'))
unfolding avl_run avl_insert avl_insert_raw avl_insert_right avl_right_balance avl_rr_balance
    avl_query avl_trav
group-lost a b c p q r h k j =
    let ab = never_left a b p q h in
    let ac = never_left a c p r k in
    let ba = never_left b a q p (λ e. h (sym e)) in
    let ca = never_left c a r p (λ e. k (sym e)) in
    let cb = never_left c b r q (λ e. j (sym e)) in
    (
      record { num = 3; root = node eh (node eh nil a nil) b (node eh nil c nil) },
      record { num = 4; root = node rh (node eh nil a nil) b (node rh nil c (node eh nil a nil)) },
      rw (avl_run, avl_insert, avl_insert_raw, ba, ca, cb) refl,
      refl,
      rw (avl_query, ab, ac) refl,
      rw (avl_insert, avl_insert_raw, ab, ac) refl,
    )
