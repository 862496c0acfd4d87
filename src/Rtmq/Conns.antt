-- ===== src/Rtmq/Conns.antt =====
-- How a receive service closes links: rtmq_rsvr_del_conn_hdl, rtmq_rsvr_sck_free, rtmq_rsvr_event_timeout_hdl and
-- rtmq_rsvr_del_all_conn_hdl of src/clang/lib/rtmq/server/rtmq_rsvr.c, with the counts of references of
-- src/clang/lib/core/mref.c. `none` is what a step through NULL or a failed `assert` would do.
pub mod Close
pub mod Sweep
mod Tests
use beehive_im.Common.{
  ℕ, ◌+◌, ◌-◌, ◌%◌, ◌^◌, Bool, true, false, Option, none, some, List, [], ◌∷◌, ◌++◌, ◌==◌, nat_key,
  leb, if◌then◌else◌,
}
use beehive_im.Table.{Table, lookup}
use beehive_im.Containers.Avl.{Node, nil, node, AvlTree, avl_query}
use beehive_im.Containers.Vector.{vector_find_and_del}
use beehive_im.Rtmq.NodeMap.{NodeMap, rtmq_node_to_svr_map_del}
use beehive_im.Rtmq.Subs.{
  SubTab, Subscriber, group_cmp, rtmq_sub_group_alloc, find_sid, sub_del_node,
}

-- A link as it counts when it is closed: its descriptor, who it is, when it was last read from, what it subscribed to,
-- the address of its receive buffer.
pub record Conn : Type 0 where
  pub fd : ℕ
  pub who : Subscriber
  pub rdtm : ℕ
  pub sub_list : AvlTree ℕ
  pub base : ℕ

-- A receive service with what it shares with the others; `closed` are the descriptors that it closed,
-- `refs` the table of references, by address: 0 where it has no item.
pub record Service : Type 0 where
  pub id : ℕ
  pub maps : Table ℕ NodeMap
  pub sub : SubTab
  pub conns : List Conn
  pub connections : ℕ
  pub closed : List ℕ
  pub refs : ℕ → ℕ

-- One reference less; the item, and the memory, go with the last one. Without an item it is `assert(0)`.
unfoldable pub mref_dec : (ℕ → ℕ) → ℕ → Option (ℕ → ℕ)
mref_dec refs addr = elim (refs addr == 0) [
  | true ↦ none
  | false ↦ some (λ a. refs a - (if addr == a then 1 else 0))
]

-- It returns 0 on every path.
unfoldable pub rtmq_rsvr_sck_sub_item_free : SubTab → Subscriber → ℕ → Option SubTab
rtmq_rsvr_sck_sub_item_free sub sck type = elim (lookup type sub) [
  | none ↦ some sub
  | some list ↦ elim (avl_query group_cmp list.root (rtmq_sub_group_alloc sck.gid)) [
    | none ↦ some sub
    | some group ↦
        sub_del_node sub type list group sck (vector_find_and_del group.nodes (find_sid sck.sid))
  ]
]

-- The order in which `avl_destroy` comes by the data
abbrev pub avl_destroy : Node ℕ → List ℕ
avl_destroy nil = []
avl_destroy (node bf l x r) = avl_destroy l ++ (avl_destroy r ++ (x ∷ []))

unfoldable pub sub_free : SubTab → Subscriber → List ℕ → Option SubTab
unfolding rtmq_rsvr_sck_sub_item_free
sub_free sub sck [] = some sub
sub_free sub sck (type ∷ types) = elim (rtmq_rsvr_sck_sub_item_free sub sck type) [
  | none ↦ none
  | some sub' ↦ sub_free sub' sck types
]

abbrev pub rtmq_rsvr_sck_sub_free : SubTab → Conn → Option SubTab
rtmq_rsvr_sck_sub_free sub c = sub_free sub c.who (avl_destroy c.sub_list.root)

-- What the link had to send goes with its memory.
unfoldable pub rtmq_rsvr_sck_free : Service → Conn → Option Service
rtmq_rsvr_sck_free s c = elim (mref_dec s.refs c.base) [
  | none ↦ none
  | some refs ↦ elim (rtmq_rsvr_sck_sub_free s.sub c) [
    | none ↦ none
    | some sub ↦ some (record s { sub = sub; closed = s.closed ++ (c.fd ∷ []); refs = refs })
  ]
]

-- The link `c` stands between the others of the list.
unfoldable pub rtmq_rsvr_del_conn_hdl : Service → List Conn → Conn → List Conn → Option Service
unfolding rtmq_rsvr_sck_free
rtmq_rsvr_del_conn_hdl s front c back =
    let maps = (rtmq_node_to_svr_map_del s.maps c.who.nid s.id).1 in
    elim (rtmq_rsvr_sck_free (record s { conns = front ++ back; maps = maps }) c) [
      | none ↦ none
      | some s' ↦ some (record s' { connections = (s'.connections + (2 ^ 32 - 1)) % 2 ^ 32 })
    ]

-- The loop over the links, up to the requests to the workers after it; `front` are those that it went by, and left.
unfoldable pub close_idle : ℕ → Service → List Conn → List Conn → Option Service
unfolding rtmq_rsvr_del_conn_hdl
close_idle ctm s front [] = some s
close_idle ctm s front (c ∷ back) = elim (leb 60 (ctm - c.rdtm)) [
  | false ↦ close_idle ctm s (front ++ (c ∷ [])) back
  | true ↦ elim (mref_dec s.refs c.base) [
    | none ↦ none
    | some refs ↦ elim (rtmq_rsvr_del_conn_hdl (record s { refs = refs }) front c back) [
      | none ↦ none
      | some s' ↦ close_idle ctm s' front back
    ]
  ]
]

-- `ctm` is what `time` gives.
unfoldable pub rtmq_rsvr_event_timeout_hdl : Service → ℕ → Option Service
unfolding close_idle
rtmq_rsvr_event_timeout_hdl s ctm = close_idle ctm s [] s.conns

-- The links of the list one after the other
unfoldable pub close_all : Service → List Conn → Option Service
unfolding rtmq_rsvr_del_conn_hdl
close_all s [] = some s
close_all s (c ∷ back) = elim (rtmq_rsvr_del_conn_hdl s [] c back) [
  | none ↦ none
  | some s' ↦ close_all s' back
]

unfoldable pub rtmq_rsvr_del_all_conn_hdl : Service → Option Service
unfolding close_all
rtmq_rsvr_del_all_conn_hdl s = elim (close_all s s.conns) [
  | none ↦ none
  | some s' ↦ some (record s' { connections = 0 })
]
