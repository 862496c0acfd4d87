-- ===== src/Rtmq/Subs.antt =====
-- Who subscribes to which messages: rtmq_sub_add and rtmq_sub_del of src/clang/lib/rtmq/server/rtmq_comm.c, rtmq_publish of
-- rtmq_recv.c, types of src/clang/incl/rtmq/rtmq_sub.h. The hash table of subscription lists is a table by message
-- type, as long as none of its slots holds more than two lists. `none` is what a step through NULL or a write beyond a
-- block would do.
pub mod Place
pub mod Spine
pub mod Found
pub mod Add
pub mod Del
pub mod Publish
mod Tests
use Prim.Native.Nat.{Ordering}
use Prim.Native.Nat.Ordering.{lt, eq, gt}
use beehive_im.Common.{
  ℕ, zero, suc, ◌+◌, ◌%◌, Bool, true, false, Option, none, some, List, [], ◌∷◌, ◌++◌, if◌then◌else◌,
  ◌==◌, nat_key, leb, length,
}
use beehive_im.Table
use beehive_im.Table.{Table, lookup, update}
use beehive_im.Chat.{Status, ok, fail}
use beehive_im.Containers.Avl.{
  Node, nil, node, AvlTree, AvlErr, avl_creat, avl_insert, avl_query, avl_delete, avl_trav,
}
use beehive_im.Containers.Vector.{
  Vector, vector_creat, vector_append, vector_get, vector_find, vector_find_and_del,
}
use beehive_im.Rtmq.Compare.{rtmq_sub_group_cmp_cb}
use beehive_im.Rtmq.Wire.{Message, chksum_val}

pub record SubNode : Type 0 where
  pub sid : ℕ
  pub nid : ℕ

pub record SubGroup : Type 0 where
  pub gid : ℕ
  pub nodes : Vector SubNode

abbrev pub SubList : Type 0
SubList = AvlTree SubGroup

abbrev pub SubTab : Type 0
SubTab = Table ℕ SubList

-- What a link says of itself when it subscribes: `nid`, `gid` and `sid` of rtmq_sck_t
pub record Subscriber : Type 0 where
  pub nid : ℕ
  pub gid : ℕ
  pub sid : ℕ

abbrev pub group_cmp : SubGroup → SubGroup → Ordering
group_cmp g h = rtmq_sub_group_cmp_cb g.gid h.gid

-- A group fresh from rtmq_sub_group_alloc; as a key it counts by its id only.
abbrev pub rtmq_sub_group_alloc : ℕ → SubGroup
rtmq_sub_group_alloc gid = record { gid = gid; nodes = vector_creat 512 128 }

abbrev pub find_sid : ℕ → SubNode → Bool
find_sid sid n = n.sid == sid

-- A write through the pointer that `avl_query` returned for the key
unfoldable pub write_item : {A : Type 0} → (A → A → Ordering) → A → A → Node A → Node A
write_item cmp key y nil = nil
write_item cmp key y (node bf l x r) = elim (cmp key x) [
  | eq ↦ node bf l y r
  | lt ↦ node bf (write_item cmp key y l) x r
  | gt ↦ node bf l x (write_item cmp key y r)
]

abbrev pub write_group : Subscriber → SubGroup → SubList → SubList
write_group sck group list = record list {
  root = write_item group_cmp (rtmq_sub_group_alloc sck.gid) group list.root;
}

-- Steps 3 and 4 of `rtmq_sub_add` on the group found. `moved` says whether `realloc` gives another block.
unfoldable pub sub_add_node :
    Bool → SubTab → ℕ → SubList → SubGroup → Subscriber → Option (Status × SubTab)
sub_add_node moved sub type list group sck = elim (vector_find group.nodes (find_sid sck.sid)) [
  | some _ ↦ some (ok, sub)
  | none ↦ elim (vector_append group.nodes (record { sid = sck.sid; nid = sck.nid }) moved) [
    | none ↦ none
    | some (st, nodes) ↦
        some (st, update type (write_group sck (record group { nodes = nodes }) list) sub)
  ]
]

-- From QUERY_SUB_GROUP on, by the rounds that the `goto`s may take
unfoldable pub sub_add_group :
    ℕ → Bool → SubTab → ℕ → SubList → Subscriber → Option (Status × SubTab)
sub_add_group zero moved sub type list sck = none
sub_add_group (suc rounds) moved sub type list sck =
    elim (avl_query group_cmp list.root (rtmq_sub_group_alloc sck.gid)) [
      | some group ↦ sub_add_node moved sub type list group sck
      | none ↦ elim (avl_insert group_cmp list (rtmq_sub_group_alloc sck.gid)) [
        | none ↦ none
        | some (err, list') ↦ sub_add_group rounds moved (update type list' sub) type list' sck
      ]
    ]

-- The number of slots that `rtmq_sub_init` asks for
abbrev pub sub_tab_len : ℕ
sub_tab_len = 100

-- How many lists a slot of the hash table holds
abbrev pub in_slot : ℕ → SubTab → ℕ
in_slot slot [] = 0
in_slot slot ((type, list) ∷ sub) = (if type % sub_tab_len == slot then 1 else 0) + in_slot slot sub

-- From QUERY_SUB_TAB on. The comparison of lists is never negative, so that the tree of a slot finds both of two lists,
-- but not each of three: a third list in a slot is left open, as `none`.
unfoldable pub sub_add_list : ℕ → Bool → SubTab → ℕ → Subscriber → Option (Status × SubTab)
sub_add_list zero moved sub type sck = none
sub_add_list (suc rounds) moved sub type sck = elim (lookup type sub) [
  | some list ↦ sub_add_group 2 moved sub type list sck
  | none ↦ elim (leb 2 (in_slot (type % sub_tab_len) sub)) [
    | true ↦ none
    | false ↦ elim (Table.insert type avl_creat sub) [
      | none ↦ some (fail, sub)
      | some sub' ↦ sub_add_list rounds moved sub' type sck
    ]
  ]
]

unfoldable pub rtmq_sub_add : Bool → SubTab → Subscriber → ℕ → Option (Status × SubTab)
unfolding sub_add_list
rtmq_sub_add moved sub sck type = sub_add_list 2 moved sub type sck

-- Step 4 of `rtmq_sub_del`: a group, and a list, that got empty go.
unfoldable pub sub_drop_group : SubTab → ℕ → SubList → SubGroup → Subscriber → Option SubTab
sub_drop_group sub type list group sck =
    let written = write_group sck group list in
    elim (length group.nodes.arr == 0) [
      | false ↦ some (update type written sub)
      | true ↦ elim (avl_delete group_cmp written (rtmq_sub_group_alloc sck.gid)) [
        | none ↦ none
        | some (_, list') ↦
            if list'.num == 0 then some (Table.delete type sub) else some (update type list' sub)
      ]
    ]

-- By what `vector_find_and_del` gave, and made of the nodes
unfoldable pub sub_del_node :
    SubTab → ℕ → SubList → SubGroup → Subscriber → Option SubNode × Vector SubNode → Option SubTab
sub_del_node sub type list group sck (none, nodes) = some sub
sub_del_node sub type list group sck (some _, nodes) =
    sub_drop_group sub type list (record group { nodes = nodes }) sck

abbrev pub unlocked : Option SubTab → Option (Bool × SubTab)
unlocked none = none
unlocked (some sub) = some (false, sub)

-- It returns 0 on every path. Whether it returns with the lock of the list's slot held, and the table.
unfoldable pub rtmq_sub_del : SubTab → Subscriber → ℕ → Option (Bool × SubTab)
unfolding sub_del_node
rtmq_sub_del sub sck type = elim (lookup type sub) [
  | none ↦ some (false, sub)
  | some list ↦ elim (avl_query group_cmp list.root (rtmq_sub_group_alloc sck.gid)) [
    | none ↦ some (true, sub)
    | some group ↦
        unlocked (
          sub_del_node sub type list group sck (vector_find_and_del group.nodes (find_sid sck.sid)))
  ]
]

-- The message that `rtmq_async_send` hands to a distribution queue
abbrev pub rtmq_async_send : ℕ → ℕ → List ℕ → Message
rtmq_async_send type dest bytes = record {
  head = record { type = type; nid = dest; flag = 1; length = length bytes; chksum = chksum_val };
  body = bytes;
}

-- The calls of `rtmq_pub_group_trav_cb` for the groups one after the other; `random k` is what `Random()` gives the
-- `k`-th time. A group without nodes would be a division by zero.
unfoldable pub pub_groups : (ℕ → ℕ) → ℕ → ℕ → List ℕ → List SubGroup → Option (List Message)
pub_groups random k type bytes [] = some []
pub_groups random k type bytes (g ∷ groups) =
    let rest = pub_groups random (suc k) type bytes groups in
    if length g.nodes.arr == 0
    then none
    else elim (vector_get g.nodes (random k % length g.nodes.arr)) [
      | none ↦ rest
      | some n ↦ elim rest [
        | none ↦ none
        | some sent ↦ some (rtmq_async_send type n.nid bytes ∷ sent)
      ]
    ]

unfoldable pub rtmq_publish : (ℕ → ℕ) → SubTab → ℕ → List ℕ → Option (Status × List Message)
unfolding pub_groups
rtmq_publish random sub type bytes = elim (lookup type sub) [
  | none ↦ some (fail, [])
  | some list ↦ elim (pub_groups random 0 type bytes (avl_trav list.root)) [
    | none ↦ none
    | some sent ↦ some (ok, sent)
  ]
]
