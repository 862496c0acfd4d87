-- ===== src/Rtmq/NodeMap/Tests.antt =====
-- The theorems of the node map at concrete inputs.
use beehive_im.Common.{
  ℕ, ◌+◌, ◌-◌, ◌≡◌, ◌⊎◌, ◌&&◌, some, [], ◌∷◌, if◌then◌else◌, ◌==◌, nat_key, nat_beq_iff, arith,
  refl, replicate,
}
use beehive_im.Table.{Table, lookup}
use beehive_im.Chat.{ok, fail}
use beehive_im.Rtmq.NodeMap.{NodeMap, max_len, rtmq_node_to_svr_map_add, rtmq_node_to_svr_map_del}
use beehive_im.Rtmq.NodeMap.Linking.{add-links}
use beehive_im.Rtmq.NodeMap.Valid.{AreMaps, links, del-links}

-- Node 3 is linked to the services 4 and 7.
abbrev node3 : NodeMap
node3 = record { nid = 3; num = 2; rsvr_id = 4 ∷ 7 ∷ replicate 30 0 }

abbrev linked : Table ℕ NodeMap
linked = (3, node3) ∷ []

linked-AreMaps : AreMaps linked
unfolding lookup
linked-AreMaps = record {
  distinct = (refl, tt);
  each = λ nid m h. ground (arith, h, nat_beq_iff 3 nid);
}

add-links_example :
    ((rtmq_node_to_svr_map_add linked 5 4 ≡ (fail, linked))
      × ((map : NodeMap) × (lookup 5 linked ≡ some map) × (map.num ≡ max_len)))
    ⊎ ((maps : Table ℕ NodeMap) × (rtmq_node_to_svr_map_add linked 5 4 ≡ (ok, maps))
        × AreMaps maps
        × ((n x : ℕ) → links maps n x ≡ links linked n x + (if 5 == n && 4 == x then 1 else 0)))
add-links_example = add-links linked 5 4 linked-AreMaps

del-links_example :
    AreMaps (rtmq_node_to_svr_map_del linked 3 4).1
    × ((n x : ℕ)
        → links (rtmq_node_to_svr_map_del linked 3 4).1 n x
          ≡ links linked n x - (if 3 == n && 4 == x then 1 else 0))
del-links_example = del-links linked 3 4 linked-AreMaps
