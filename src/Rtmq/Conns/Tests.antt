-- ===== src/Rtmq/Conns/Tests.antt =====
-- The theorems of the links that are closed at concrete inputs.
use beehive_im.Common.{
  ℕ, ◌≡◌, ◌==◌, if◌then◌else◌, none, [], ◌∷◌, refl, arith, replicate, nat_key, nat_beq_iff,
}
use beehive_im.Table.{Table, lookup}
use beehive_im.Containers.Avl.{eh, nil, node, avl_creat, avl_trav}
use beehive_im.Rtmq.NodeMap.{NodeMap}
use beehive_im.Rtmq.NodeMap.Valid.{AreMaps}
use beehive_im.Rtmq.Subs.{SubGroup, SubList, SubTab}
use beehive_im.Rtmq.Subs.Found.{IsSubTab}
use beehive_im.Rtmq.Conns.{Conn, Service, rtmq_rsvr_event_timeout_hdl}
use beehive_im.Rtmq.Conns.Sweep.{IsService, rtmq_rsvr_event_timeout_hdl_aborts}

-- A link of the node 7 that nothing was read from since 100, and one of the node 8
abbrev idle : Conn
idle = record {
  fd = 11;
  who = record { nid = 7; gid = 3; sid = 21 };
  rdtm = 100;
  sub_list = record { num = 1; root = node eh nil 0x0301 nil };
  base = 4096;
}

abbrev busy : Conn
busy = record {
  fd = 12;
  who = record { nid = 8; gid = 3; sid = 22 };
  rdtm = 150;
  sub_list = avl_creat;
  base = 8192;
}

-- Both of them subscribe to 0x0301, in one group.
abbrev group3 : SubGroup
group3 = record {
  gid = 3;
  nodes = record {
    cap = 512;
    incr = 128;
    arr = record { sid = 21; nid = 7 } ∷ record { sid = 22; nid = 8 } ∷ [];
  };
}

abbrev list3 : SubList
list3 = record { num = 1; root = node eh nil group3 nil }

abbrev tab3 : SubTab
tab3 = (0x0301, list3) ∷ []

tab3-IsSubTab : IsSubTab 2 tab3
unfolding lookup avl_trav
tab3-IsSubTab type list e =
    let it : list ≡ list3 = ground (arith, e, nat_beq_iff 0x0301 type) in
    rw it (record {
      balanced = ground arith;
      groups = (record { sized = refl; used = omega arith; most = omega arith }, tt);
      counted = refl;
      few = omega arith;
    })

-- The service 2 with these links, each of which its node is linked by
abbrev nodes : Table ℕ NodeMap
nodes =
    (7, record { nid = 7; num = 1; rsvr_id = 2 ∷ replicate 31 0 })
    ∷ (8, record { nid = 8; num = 1; rsvr_id = 2 ∷ replicate 31 0 })
    ∷ []

nodes-AreMaps : AreMaps nodes
unfolding lookup
nodes-AreMaps = record {
  distinct = (refl, (refl, tt));
  each = λ nid m h. ground (arith, h, nat_beq_iff 7 nid, nat_beq_iff 8 nid);
}

abbrev service : Service
service = record {
  id = 2;
  maps = nodes;
  sub = tab3;
  conns = idle ∷ busy ∷ [];
  connections = 2;
  closed = [];
  refs = λ a. if a == 4096 then 2 else 1;
}

service-IsService : IsService 2 service
service-IsService = record {
  counted = refl;
  few = omega arith;
  are_maps = nodes-AreMaps;
  is_tab = tab3-IsSubTab;
}

-- At 220 both are idle, and the buffer of the second has one reference.
rtmq_rsvr_event_timeout_hdl_aborts_example : rtmq_rsvr_event_timeout_hdl service 220 ≡ none
rtmq_rsvr_event_timeout_hdl_aborts_example =
    rtmq_rsvr_event_timeout_hdl_aborts 2 220 8192 service (omega arith) service-IsService
      (omega arith)
