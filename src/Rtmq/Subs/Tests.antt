-- ===== src/Rtmq/Subs/Tests.antt =====
-- The theorems of the subscriptions at concrete inputs.
use beehive_im.Common.{
  ℕ, ◌≡◌, ◌⊎◌, Bool, true, false, some, [], ◌∷◌, arith, refl, nat_beq_iff, nat_key,
}
use beehive_im.Table.{lookup}
use beehive_im.Chat.{ok}
use beehive_im.Containers.Avl.{eh, nil, node, avl_trav}
use beehive_im.Containers.Vector.{vector_get}
use beehive_im.Rtmq.Subs.{
  SubGroup, SubList, SubTab, Subscriber, rtmq_sub_add, rtmq_sub_del, rtmq_async_send, rtmq_publish,
  pub_groups,
}
use beehive_im.Rtmq.Subs.Found.{IsSubTab, Subscribed, Added, Spread, HasSlot}
use beehive_im.Rtmq.Subs.Add.{rtmq_sub_add-Added}
use beehive_im.Rtmq.Subs.Del.{Dropped, Missing, rtmq_sub_del-Dropped}

abbrev link_of : ℕ → ℕ → Subscriber
link_of gid sid = record { nid = 7; gid = gid; sid = sid }

-- Session 11 of group 3 subscribes to messages 0x0301.
abbrev group3 : SubGroup
group3 = record {
  gid = 3;
  nodes = record { cap = 512; incr = 128; arr = record { sid = 11; nid = 7 } ∷ [] };
}

abbrev list3 : SubList
list3 = record { num = 1; root = node eh nil group3 nil }

abbrev tab3 : SubTab
tab3 = (0x0301, list3) ∷ []

tab3-IsSubTab : IsSubTab 1 tab3
unfolding lookup avl_trav
tab3-IsSubTab type list e =
    let it : list ≡ list3 = ground (arith, e, nat_beq_iff 0x0301 type) in
    rw it (record {
      balanced = ground arith;
      groups = (record { sized = refl; used = omega arith; most = omega arith }, tt);
      counted = refl;
      few = omega arith;
    })

tab3-Spread : Spread tab3
tab3-Spread slot = ground arith

tab3-HasSlot : HasSlot tab3 0x0301
tab3-HasSlot e = ground arith

rtmq_sub_add-Added_example :
    (sub' : SubTab) × (rtmq_sub_add true tab3 (link_of 5 12) 0x0301 ≡ some (ok, sub'))
    × Added 1 tab3 sub' 0x0301 (link_of 5 12)
    × Spread sub'
rtmq_sub_add-Added_example =
    rtmq_sub_add-Added 1 true tab3 (link_of 5 12) 0x0301 (omega arith) (omega arith) tab3-IsSubTab
      tab3-Spread tab3-HasSlot

rtmq_sub_del-Dropped_example :
    ((held : Bool) × (rtmq_sub_del tab3 (link_of 3 11) 0x0301 ≡ some (held, tab3))
      × (Subscribed tab3 0x0301 (link_of 3 11) → ⊥)
      × (held ≡ true → Missing tab3 0x0301 (link_of 3 11))
      × (Missing tab3 0x0301 (link_of 3 11) → held ≡ true))
    ⊎ ((sub' : SubTab) × (rtmq_sub_del tab3 (link_of 3 11) 0x0301 ≡ some (false, sub'))
        × Dropped 1 tab3 sub' 0x0301 (link_of 3 11))
rtmq_sub_del-Dropped_example =
    rtmq_sub_del-Dropped 1 tab3 (link_of 3 11) 0x0301 (omega arith) tab3-IsSubTab tab3-Spread

-- Publishing to the list of one group sends one message.
publish_one :
    rtmq_publish (λ n. n) tab3 0x0301 (1 ∷ []) ≡ some (ok, rtmq_async_send 0x0301 7 (1 ∷ []) ∷ [])
unfolding rtmq_publish pub_groups lookup avl_trav vector_get
publish_one = refl
