-- ===== src/Rtmq/Compare/Tests.antt =====
-- The theorems of the comparisons at concrete inputs.

use beehive_im.Common.{ℕ, ◌^◌, ◌≡◌, none, some, [], ◌∷◌, arith}
use beehive_im.Containers.Avl.{AvlTree, avl_ok, avl_creat, avl_insert, avl_query, avl_trav}
use beehive_im.Containers.Avl.Client.{inserts, deletes, avl_run, avl_run-replay}
use beehive_im.Containers.Avl.Correct.{IsAvl}
use beehive_im.Rtmq.NodeMap.{NodeMap, new_map}
use beehive_im.Rtmq.Compare.{
  rtmq_node_to_svr_map_cmp_cb, rtmq_sub_group_cmp_cb, rtmq_node_to_svr_map_cmp_cb-Orders,
  group-lost,
}

group-lost_example :
    (tree : AvlTree ℕ) × (tree' : AvlTree ℕ) × (avl_run rtmq_sub_group_cmp_cb
        (inserts 1 ∷ inserts 2 ∷ inserts 3 ∷ [])
        avl_creat
      ≡ some tree)
    × (avl_trav tree.root ≡ 1 ∷ 2 ∷ 3 ∷ [])
    × (avl_query rtmq_sub_group_cmp_cb tree.root 1 ≡ none)
    × (avl_insert rtmq_sub_group_cmp_cb tree 1 ≡ some (avl_ok, tree'))
group-lost_example =
    group-lost 1 2 3 (omega arith) (omega arith) (omega arith) (omega arith) (omega arith)
      (omega arith)

avl_run-replay_example :
    (tree : AvlTree NodeMap) × (avl_run rtmq_node_to_svr_map_cmp_cb
        (inserts (new_map 5) ∷ inserts (new_map 3) ∷ inserts (new_map 9) ∷ deletes (new_map 3) ∷ [])
        avl_creat
      ≡ some tree)
    × IsAvl (λ map. map.nid) (2 ^ 31) tree
    × (avl_query rtmq_node_to_svr_map_cmp_cb tree.root (new_map 9) ≡ some (new_map 9))
avl_run-replay_example =
    avl_run-replay rtmq_node_to_svr_map_cmp_cb (λ map. map.nid) (2 ^ 31)
      rtmq_node_to_svr_map_cmp_cb-Orders
      (inserts (new_map 5) ∷ inserts (new_map 3) ∷ inserts (new_map 9) ∷ deletes (new_map 3) ∷ [])
      (new_map 9) (ground arith) (omega arith)
