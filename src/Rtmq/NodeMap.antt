-- ===== src/Rtmq/NodeMap.antt =====
-- Which receive services a node is connected to: rtmq_node_to_svr_map_* of src/clang/lib/rtmq/server/rtmq_comm.c.
-- The tree of maps is a table by node id.
pub mod Counts
pub mod Valid
pub mod Linking
mod Tests
use beehive_im.Common.{
  ℕ, zero, suc, ◌+◌, ◌-◌, ◌%◌, Bool, true, false, Option, none, some, List, [], ◌∷◌, if◌then◌else◌,
  ◌==◌, nat_key, leb, get_or, set, replicate,
}
use beehive_im.Table
use beehive_im.Table.{Table, lookup, update}
use beehive_im.Chat.{Status, ok, fail}

-- RTRD_NODE_TO_SVR_MAX_LEN
abbrev pub max_len : ℕ
max_len = 32

-- `rsvr_id` is the whole array; the first `num` of it are in use.
pub record NodeMap : Type 0 where
  pub nid : ℕ
  pub num : ℕ
  pub rsvr_id : List ℕ

-- A map fresh from calloc.
abbrev pub new_map : ℕ → NodeMap
new_map nid = record { nid = nid; num = 0; rsvr_id = replicate max_len 0 }

-- The part of `rtmq_node_to_svr_map_add` on a map of the tree.
unfoldable pub map_append : Table ℕ NodeMap → NodeMap → ℕ → Status × Table ℕ NodeMap
map_append maps map rsvr_id = if leb max_len map.num then (fail, maps) else (
  ok,
  update map.nid (record map { num = map.num + 1; rsvr_id = set map.rsvr_id map.num rsvr_id }) maps,
)

unfoldable pub rtmq_node_to_svr_map_add : Table ℕ NodeMap → ℕ → ℕ → Status × Table ℕ NodeMap
rtmq_node_to_svr_map_add maps nid rsvr_id = elim (lookup nid maps) [
  | some map ↦ map_append maps map rsvr_id
  | none ↦ elim (Table.insert nid (new_map nid) maps) [
    | none ↦ (fail, maps)
    | some maps' ↦ map_append maps' (new_map nid) rsvr_id
  ]
]

-- The loop of `rtmq_node_to_svr_map_del` over the `n` entries from `i` on: the first index of `rsvr_id`.
unfoldable pub map_index : List ℕ → ℕ → ℕ → ℕ → Option ℕ
map_index arr rsvr_id i zero = none
map_index arr rsvr_id i (suc n) =
    let rest = map_index arr rsvr_id (suc i) n in if get_or arr i 0 == rsvr_id then some i else rest

-- The last entry in use takes the place of the one at `i`.
unfoldable pub map_drop : NodeMap → ℕ → NodeMap
map_drop map i = record map {
  num = map.num - 1;
  rsvr_id = set map.rsvr_id i (get_or map.rsvr_id (map.num - 1) 0);
}

unfoldable pub rtmq_node_to_svr_map_del : Table ℕ NodeMap → ℕ → ℕ → Status × Table ℕ NodeMap
rtmq_node_to_svr_map_del maps nid rsvr_id = elim (lookup nid maps) [
  | none ↦ (fail, maps)
  | some map ↦ elim (map_index map.rsvr_id rsvr_id 0 map.num) [
    | none ↦ (ok, maps)
    | some i ↦
        if map.num - 1 == 0
        then (ok, Table.delete nid maps)
        else (ok, update nid (map_drop map i) maps)
  ]
]

-- `random` is what `rand()` gives. A node that is not known gives -1, which is `none`.
unfoldable pub rtmq_node_to_svr_map_rand : Table ℕ NodeMap → ℕ → ℕ → Option ℕ
rtmq_node_to_svr_map_rand maps random nid = elim (lookup nid maps) [
  | none ↦ none
  | some map ↦ some (get_or map.rsvr_id (random % map.num) 0)
]
