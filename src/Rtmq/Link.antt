-- ===== src/Rtmq/Link.antt =====
-- What the server does with the messages of a link: rtmq_rsvr_sys_mesg_proc, rtmq_rsvr_exp_mesg_proc and their handlers, of
-- src/clang/lib/rtmq/server/rtmq_rsvr.c, as the handlers that the receive buffer calls.
pub mod Guard
mod Tests
use Prim.Native.Nat.{Ordering}
use beehive_im.Common.{
  ℕ, zero, suc, ◌+◌, ◌-◌, ◌/◌, ◌%◌, ◌^◌, Bool, true, false, not, Option, none, some, List, [], ◌∷◌,
  ◌++◌, if◌then◌else◌, ◌==◌, nat_key, leb, ltb, length, drop, get_elem?, set,
}
use beehive_im.Table.{Table}
use beehive_im.Chat.{Status, ok, fail, inc64}
use beehive_im.Containers.Avl.{AvlTree, avl_ok, node_exist, avl_creat, avl_insert, avl_query}
use beehive_im.Rtmq.Wire.{Message, chksum_val, sys_mesg, ntohl, htonl}
use beehive_im.Rtmq.NodeMap.{NodeMap, rtmq_node_to_svr_map_add}
use beehive_im.Rtmq.Compare.{int64_sign}
use beehive_im.Rtmq.Auth.{AuthTab, rtmq_auth_check}
use beehive_im.Rtmq.Subs.{SubTab, Subscriber, rtmq_sub_add, rtmq_sub_del}

-- A receive queue: how many slots are free, and what was pushed
pub record RecvQueue : Type 0 where
  pub free : ℕ
  pub items : List Message

-- What the handlers of a receive thread and its link read and write. `conf_nid` is the server's own node; `id`,
-- `recv_total` and `drop_total` are the thread's; `cmds` are the commands written to the worker's pipe, each with its
-- queue. `rand` is what the calls of `rand()` give, `drawn` how many there were. `moved` says whether `realloc` gives
-- another block. The fields from `nid` on are the link's; `mesg_list` holds what it has to send.
pub record Link : Type 0 where
  pub conf_nid : ℕ
  pub auth : AuthTab
  pub maps : Table ℕ NodeMap
  pub sub : SubTab
  pub recvq : List RecvQueue
  pub cmds : List (ℕ × ℕ)
  pub rand : ℕ → ℕ
  pub drawn : ℕ
  pub moved : Bool
  pub id : ℕ
  pub recv_total : ℕ
  pub drop_total : ℕ
  pub nid : ℕ
  pub gid : ℕ
  pub sid : ℕ
  pub auth_succ : Bool
  pub sub_list : AvlTree ℕ
  pub mesg_list : List Message

-- The commands of rtmq_mesg_e that are sent or answered here
abbrev pub auth_req : ℕ
auth_req = 1

abbrev pub auth_ack : ℕ
auth_ack = 2

abbrev pub kpalive_req : ℕ
kpalive_req = 3

abbrev pub kpalive_ack : ℕ
kpalive_ack = 4

abbrev pub sub_req : ℕ
sub_req = 5

-- RTMQ_WORKER_HDL_QNUM
abbrev pub worker_hdl_qnum : ℕ
worker_hdl_qnum = 2

abbrev pub rtmq_rsvr_cmd_proc_req : Link → ℕ → Link
rtmq_rsvr_cmd_proc_req link rqid = record link {
  cmds = link.cmds ++ ((rqid / worker_hdl_qnum, rqid) ∷ []);
}

-- For the `n` queues from `idx` on
abbrev pub rtmq_rsvr_cmd_proc_all_req : Link → ℕ → ℕ → Link
rtmq_rsvr_cmd_proc_all_req link idx zero = link
rtmq_rsvr_cmd_proc_all_req link idx (suc n) =
    rtmq_rsvr_cmd_proc_all_req (rtmq_rsvr_cmd_proc_req link idx) (suc idx) n

-- A queue without a free slot drops the message. Where there are no queues, it would be a division by zero.
unfoldable pub push_recvq : Link → Message → ℕ → RecvQueue → Status × Link
push_recvq link m rqid rq =
    if rq.free == 0
    then (
      fail,
      rtmq_rsvr_cmd_proc_all_req (record link { drop_total = inc64 link.drop_total }) 0
          (length link.recvq),
    )
    else (
      ok,
      rtmq_rsvr_cmd_proc_req
          (record link {
            recvq =
                set link.recvq rqid (record { free = rq.free - 1; items = rq.items ++ (m ∷ []) });
          })
          rqid,
    )

unfoldable pub rtmq_rsvr_exp_mesg_proc : Link → Message → Option (Status × Link)
unfolding push_recvq
rtmq_rsvr_exp_mesg_proc link m =
    let counted : Link = record link { recv_total = inc64 link.recv_total } in
    let drawn : Link = record counted { drawn = suc link.drawn } in
    if not link.auth_succ
    then some (fail, link)
    else if m.head.nid == link.nid
    then elim (get_elem? link.recvq (link.rand link.drawn % length link.recvq)) [
      | none ↦ none
      | some rq ↦ some (push_recvq drawn m (link.rand link.drawn % length link.recvq) rq)
    ]
    else some (fail, record counted { drop_total = inc64 link.drop_total })

abbrev pub reply : Link → ℕ → List ℕ → Link
reply link type body = record link {
  mesg_list =
      link.mesg_list
      ++ (record {
        head = record {
          type = type;
          nid = link.conf_nid;
          flag = sys_mesg;
          length = length body;
          chksum = chksum_val;
        };
        body = body;
      }
          ∷ []);
}

unfoldable pub rtmq_rsvr_keepalive_req_hdl : Link → Status × Link
rtmq_rsvr_keepalive_req_hdl link =
    if not link.auth_succ then (fail, link) else (ok, reply link kpalive_ack [])

abbrev pub rtmq_rsvr_link_auth_rsp : Link → Link
rtmq_rsvr_link_auth_rsp link = reply link auth_ack (htonl (if link.auth_succ then 1 else 0))

-- sizeof(rtmq_link_auth_req_t), and where in it the name and the password stand
abbrev pub auth_req_size : ℕ
auth_req_size = 52

abbrev pub usr_offset : ℕ
usr_offset = 4

abbrev pub passwd_offset : ℕ
passwd_offset = 36

-- The part of `rtmq_rsvr_link_auth_req_hdl` from the result of the check on
unfoldable pub link_auth : Link → ℕ → Bool → Status × Link
link_auth link nid false = (ok, rtmq_rsvr_link_auth_rsp (record link { auth_succ = false }))
link_auth link nid true =
    let known : Link = record link { auth_succ = true; nid = nid } in
    let (st, maps) = rtmq_node_to_svr_map_add link.maps nid link.id in
    elim st [
      | ok ↦ (ok, rtmq_rsvr_link_auth_rsp (record known { maps = maps }))
      | fail ↦ (fail, record known { maps = maps })
    ]

-- `none` where the code reads beyond the message, whose length it does not check.
unfoldable pub rtmq_rsvr_link_auth_req_hdl : Link → Message → Option (Status × Link)
unfolding link_auth
rtmq_rsvr_link_auth_req_hdl link m =
    if ltb (length m.body) auth_req_size
    then none
    else if ntohl m.body == 0
    then some (fail, link)
    else elim (rtmq_auth_check link.auth (drop usr_offset m.body) (drop passwd_offset m.body)) [
      | none ↦ none
      | some allowed ↦ some (link_auth (record link { gid = ntohl m.body }) m.head.nid allowed)
    ]

-- The types are uint32_t, and so is their difference, which int64_t takes over without a sign.
unfoldable pub rtmq_sub_list_cmp_cb : ℕ → ℕ → Ordering
rtmq_sub_list_cmp_cb type1 type2 = int64_sign ((type1 + (2 ^ 32 - type2)) % 2 ^ 32)

unfoldable pub rtmq_rsvr_sck_add_sub : AvlTree ℕ → ℕ → Option (Status × AvlTree ℕ)
rtmq_rsvr_sck_add_sub subs type = elim (avl_query rtmq_sub_list_cmp_cb subs.root type) [
  | some _ ↦ some (ok, subs)
  | none ↦ elim (avl_insert rtmq_sub_list_cmp_cb subs type) [
    | none ↦ none
    | some (avl_ok, subs') ↦ some (ok, subs')
    | some (node_exist, subs') ↦ some (fail, subs')
  ]
]

abbrev pub subscriber : Link → Subscriber
subscriber link = record { nid = link.nid; gid = link.gid; sid = link.sid }

-- The part of `rtmq_rsvr_sub_req_hdl` after `rtmq_sub_add` returned 0. `none` where the lock of the table stays held.
unfoldable pub sub_link : Link → ℕ → Option (Status × Link)
unfolding rtmq_rsvr_sck_add_sub
sub_link link type = elim (rtmq_rsvr_sck_add_sub link.sub_list type) [
  | none ↦ none
  | some (ok, subs) ↦ some (ok, record link { sub_list = subs })
  | some (fail, subs) ↦ elim (rtmq_sub_del link.sub (subscriber link) type) [
    | none ↦ none
    | some (true, sub) ↦ none
    | some (false, sub) ↦ some (fail, record link { sub = sub })
  ]
]

-- sizeof(rtmq_sub_req_t)
abbrev pub sub_req_size : ℕ
sub_req_size = 4

unfoldable pub rtmq_rsvr_sub_req_hdl : Link → Message → Option (Status × Link)
unfolding sub_link
rtmq_rsvr_sub_req_hdl link m =
    if not link.auth_succ
    then some (fail, link)
    else if ltb (length m.body) sub_req_size
    then none
    else elim (rtmq_sub_add link.moved link.sub (subscriber link) (ntohl m.body)) [
      | none ↦ none
      | some (fail, sub) ↦ some (fail, record link { sub = sub })
      | some (ok, sub) ↦ sub_link (record link { sub = sub }) (ntohl m.body)
    ]

unfoldable pub rtmq_rsvr_sys_mesg_proc : Link → Message → Option (Status × Link)
unfolding rtmq_rsvr_link_auth_req_hdl rtmq_rsvr_sub_req_hdl rtmq_rsvr_keepalive_req_hdl
rtmq_rsvr_sys_mesg_proc link m =
    if m.head.type == auth_req
    then rtmq_rsvr_link_auth_req_hdl link m
    else if m.head.type == sub_req
    then rtmq_rsvr_sub_req_hdl link m
    else if m.head.type == kpalive_req
    then some (rtmq_rsvr_keepalive_req_hdl link)
    else some (fail, link)

-- The part of `rtmq_rsvr_data_proc` for a whole message: whether the link fails, and what becomes of it. What
-- `rtmq_rsvr_exp_mesg_proc` returns is not looked at.
unfoldable pub mesg_proc : Link → Message → Option (Bool × Link)
unfolding rtmq_rsvr_sys_mesg_proc rtmq_rsvr_exp_mesg_proc
mesg_proc link m =
    if m.head.flag == sys_mesg
    then elim (rtmq_rsvr_sys_mesg_proc link m) [
      | none ↦ none
      | some (ok, link') ↦ some (false, link')
      | some (fail, link') ↦ some (true, link')
    ]
    else elim (rtmq_rsvr_exp_mesg_proc link m) [
      | none ↦ none
      | some (st, link') ↦ some (false, link')
    ]

-- As the receive buffer calls it; `none` is the state after a read or a write beyond a block.
abbrev pub handle : Option Link → Message → Bool × Option Link
handle none m = (true, none)
handle (some link) m = elim (mesg_proc link m) [
  | none ↦ (true, none)
  | some (failed, link') ↦ (failed, some link')
]
