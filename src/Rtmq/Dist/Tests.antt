-- ===== src/Rtmq/Dist/Tests.antt =====
-- The theorems of the distribution at concrete inputs.
use beehive_im.Common.{
  ℕ, ◌^◌, ◌-◌, ◌≡◌, refl, arith, some, List, [], ◌∷◌, get_or, replicate, nat_beq_iff, nat_key,
}
use beehive_im.Table.{Table, lookup}
use beehive_im.Containers.Ring.{Ring}
use beehive_im.Containers.Ring.Queue.{IsRing, contents}
use beehive_im.Rtmq.Wire.{Message, chksum_val}
use beehive_im.Rtmq.NodeMap.{NodeMap}
use beehive_im.Rtmq.NodeMap.Valid.{AreMaps, links}
use beehive_im.Rtmq.Dist.{Handout, Routed, rtmq_rsvr_dist_data, rtmq_dsvr_dist_data_hdl}
use beehive_im.Rtmq.Dist.Peers.{Handed}
use beehive_im.Rtmq.Dist.Deliver.{rtmq_rsvr_dist_data-Handed}
use beehive_im.Rtmq.Dist.Queues.{AreRings}
use beehive_im.Rtmq.Dist.Route.{Serves, Sent}
use beehive_im.Rtmq.Dist.Dispatch.{popped, AreLeft, rtmq_dsvr_dist_data_hdl-Sent}

-- A message for the node whose number is its address
abbrev store : ℕ → Message
store addr = record {
  head = record { type = 0x0301; nid = addr; flag = 1; length = 0; chksum = chksum_val };
  body = [];
}

-- Four slots with a message for the node 71 and one for the node 72; a counter has wrapped.
abbrev two_mesgs : Ring
two_mesgs = record {
  max = 4;
  mask = 3;
  num = 2;
  slots = λ i. get_or (72 ∷ 0 ∷ 0 ∷ 71 ∷ []) i 0;
  prod_head = 1;
  prod_tail = 1;
  cons_head = 2 ^ 32 - 1;
  cons_tail = 2 ^ 32 - 1;
}

two_mesgs-IsRing : IsRing 2 two_mesgs
two_mesgs-IsRing = record {
  small = omega arith;
  size = refl;
  masks = refl;
  produced = refl;
  consumed = refl;
  prod_word = omega arith;
  cons_word = omega arith;
  fits = omega arith;
  counted = refl;
}

-- Two links of the node 71, one of them with a message already, and one of another node
abbrev three_links : Handout
three_links = record {
  conns =
      record { nid = 71; mesg_list = 8 ∷ [] }
      ∷ record { nid = 5; mesg_list = [] }
      ∷ record { nid = 71; mesg_list = [] }
      ∷ [];
  freed = [];
  drawn = 0;
}

rtmq_rsvr_dist_data-Handed_example :
    (rq' : Ring) × (h' : Handout) × (rtmq_rsvr_dist_data store (λ n. 3) 3 two_mesgs three_links
      ≡ some (rq', h'))
    × IsRing 2 rq'
    × (contents rq' ≡ [])
    × Handed store three_links h' (71 ∷ 72 ∷ [])
rtmq_rsvr_dist_data-Handed_example =
    rtmq_rsvr_dist_data-Handed store (λ n. 3) 2 3 two_mesgs three_links two_mesgs-IsRing
      (omega arith)

-- The node 71 is linked to the service 1.
abbrev one_node : Table ℕ NodeMap
one_node = (71, record { nid = 71; num = 1; rsvr_id = 1 ∷ replicate 31 0 }) ∷ []

one_node-AreMaps : AreMaps one_node
unfolding lookup
one_node-AreMaps = record {
  distinct = (refl, tt);
  each = λ nid map e. ground (arith, e, nat_beq_iff 71 nid);
}

one_node-Serves : Serves one_node 2
unfolding links lookup
one_node-Serves nid x h = ground (arith, h, nat_beq_iff 71 nid, nat_beq_iff 1 x)

abbrev two_services : Routed
two_services = record { sendq = two_mesgs ∷ two_mesgs ∷ []; freed = []; reqs = []; drawn = 0 }

rtmq_dsvr_dist_data_hdl-Sent_example :
    (distq' : List Ring) × (s' : Routed) × (rtmq_dsvr_dist_data_hdl store
        (λ n. 3)
        one_node
        (two_mesgs ∷ [])
        two_services
      ≡ some (distq', s'))
    × AreRings 2 distq'
    × AreLeft (two_mesgs ∷ []) distq'
    × Sent store one_node 2 two_services s' (popped (two_mesgs ∷ []))
rtmq_dsvr_dist_data_hdl-Sent_example =
    rtmq_dsvr_dist_data_hdl-Sent store (λ n. 3) one_node 2 2 (two_mesgs ∷ []) two_services
      one_node-AreMaps one_node-Serves (two_mesgs-IsRing, (two_mesgs-IsRing, tt))
      (two_mesgs-IsRing, tt)
