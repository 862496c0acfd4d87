-- ===== src/Rtmq/Dist.antt =====
-- How messages get to the links that they are for: rtmq_dsvr_dist_data_hdl of
-- src/clang/lib/rtmq/server/rtmq_dist.c hands them to receive services, rtmq_rsvr_dist_data of rtmq_rsvr.c to links. The
-- rings hold the addresses of messages; `mesg` is what stands there. `rand` gives what the calls of `rand()` give.
pub mod Peers
pub mod Deliver
pub mod Queues
pub mod Route
pub mod Dispatch
mod Tests
use Prim.Native.Nat.{min}
use beehive_im.Common.{
  Bool, true, false, ℕ, zero, suc, ◌%◌, Option, none, some, List, [], ◌∷◌, ◌++◌, if◌then◌else◌,
  ◌==◌, nat_key, length, get_elem?, set,
}
use beehive_im.Table.{Table}
use beehive_im.Chat.{ok, fail}
use beehive_im.Containers.Ring.{Ring, ring_mpop, ring_push}
use beehive_im.Rtmq.Wire.{Message}
use beehive_im.Rtmq.NodeMap.{NodeMap, rtmq_node_to_svr_map_rand}

-- A link, by its node and what it has to send.
pub record Peer : Type 0 where
  pub nid : ℕ
  pub mesg_list : List ℕ

-- The links of a receive service, the messages whose reference it gave back, and how often it called `rand()`
pub record Handout : Type 0 where
  pub conns : List Peer
  pub freed : List ℕ
  pub drawn : ℕ

-- The traversal with `rtmq_rsvr_get_conn_list_by_nodeid`: which links from the `i`-th on are links of the node
unfoldable pub conns_of : ℕ → ℕ → List Peer → List ℕ
conns_of nid i [] = []
conns_of nid i (c ∷ conns) =
    let rest = conns_of nid (suc i) conns in if c.nid == nid then i ∷ rest else rest

abbrev pub push_mesg : List Peer → ℕ → ℕ → List Peer
push_mesg [] k addr = []
push_mesg (c ∷ conns) zero addr = record c { mesg_list = c.mesg_list ++ (addr ∷ []) } ∷ conns
push_mesg (c ∷ conns) (suc k) addr = c ∷ push_mesg conns k addr

-- RTRD_POP_MAX_NUM and RTRD_DISP_POP_NUM
abbrev pub pop_max_num : ℕ
pop_max_num = 1024

-- What was put where by the distribution: the send queues of the receive services, the messages whose reference was given
-- back, the services that were sent a request, and how often `rand()` was called
pub record Routed : Type 0 where
  pub sendq : List Ring
  pub freed : List ℕ
  pub reqs : List ℕ
  pub drawn : ℕ

module _ (mesg : ℕ → Message) (rand : ℕ → ℕ) where
  -- For one message. `none` is a step through NULL.
  unfoldable pub dist_mesg : Handout → ℕ → Option Handout
  unfolding conns_of
  dist_mesg h addr =
      let found = conns_of (mesg addr).head.nid 0 h.conns in
      if length found == 0
      then some (record h { freed = h.freed ++ (addr ∷ []) })
      else elim (get_elem? found (rand h.drawn % length found)) [
        | none ↦ none
        | some k ↦ some (record h { conns = push_mesg h.conns k addr; drawn = suc h.drawn })
      ]

  unfoldable pub dist_each : Handout → List ℕ → Option Handout
  unfolding dist_mesg
  dist_each h [] = some h
  dist_each h (addr ∷ data_) = elim (dist_mesg h addr) [
    | none ↦ none
    | some h' ↦ dist_each h' data_
  ]

  -- By the rounds of its loop
  unfoldable pub rtmq_rsvr_dist_data : ℕ → Ring → Handout → Option (Ring × Handout)
  unfolding dist_each
  rtmq_rsvr_dist_data zero rq h = none
  rtmq_rsvr_dist_data (suc rounds) rq h = elim (min rq.num pop_max_num == 0) [
    | true ↦ some (rq, h)
    | false ↦ elim (ring_mpop rq (min rq.num pop_max_num)) [
      | none ↦ none
      | some (data_, rq') ↦ elim (dist_each h data_) [
        | none ↦ none
        | some h' ↦ rtmq_rsvr_dist_data rounds rq' h'
      ]
    ]
  ]

  -- For one message; `none` where a service has no queue.
  unfoldable pub route_mesg : Table ℕ NodeMap → Routed → ℕ → Option Routed
  route_mesg maps s addr =
      let freed : Routed = record s { freed = s.freed ++ (addr ∷ []); drawn = suc s.drawn } in
      elim (rtmq_node_to_svr_map_rand maps (rand s.drawn) (mesg addr).head.nid) [
        | none ↦ some (record freed { drawn = s.drawn })
        | some idx ↦ elim (get_elem? s.sendq idx) [
          | none ↦ none
          | some rq ↦ elim (ring_push rq addr) [
            | none ↦ none
            | some (fail, rq') ↦ some freed
            | some (ok, rq') ↦ some (record s {
              sendq = set s.sendq idx rq';
              reqs = s.reqs ++ (idx ∷ []);
              drawn = suc s.drawn;
            })
          ]
        ]
      ]

  unfoldable pub route_each : Table ℕ NodeMap → Routed → List ℕ → Option Routed
  unfolding route_mesg
  route_each maps s [] = some s
  route_each maps s (addr ∷ data_) = elim (route_mesg maps s addr) [
    | none ↦ none
    | some s' ↦ route_each maps s' data_
  ]

  -- What `rtmq_dsvr_dist_data_hdl` does with one of the queues
  unfoldable pub route_queue : Table ℕ NodeMap → Ring → Routed → Option (Ring × Routed)
  unfolding route_each
  route_queue maps rq s = elim (min rq.num pop_max_num == 0) [
    | true ↦ some (rq, s)
    | false ↦ elim (ring_mpop rq (min rq.num pop_max_num)) [
      | none ↦ none
      | some (data_, rq') ↦ elim (route_each maps s data_) [
        | none ↦ none
        | some s' ↦ some (rq', s')
      ]
    ]
  ]

  unfoldable pub rtmq_dsvr_dist_data_hdl :
      Table ℕ NodeMap → List Ring → Routed → Option (List Ring × Routed)
  unfolding route_queue
  rtmq_dsvr_dist_data_hdl maps [] s = some ([], s)
  rtmq_dsvr_dist_data_hdl maps (rq ∷ distq) s = elim (route_queue maps rq s) [
    | none ↦ none
    | some (rq', s') ↦ elim (rtmq_dsvr_dist_data_hdl maps distq s') [
      | none ↦ none
      | some (distq', s'') ↦ some (rq' ∷ distq', s'')
    ]
  ]
