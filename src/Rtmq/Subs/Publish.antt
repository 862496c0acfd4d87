-- ===== src/Rtmq/Subs/Publish.antt =====
-- Publishing to the subscribers: rtmq_publish and rtmq_pub_group_trav_cb of src/clang/lib/rtmq/server/rtmq_recv.c, after a
-- subscription.
use beehive_im.Common.{ℕ, ◌≡◌, List, [], ◌∷◌, nat_key, Occurs}
use beehive_im.Containers.Vector.{Vector}
use beehive_im.Rtmq.Wire.{Message}
use beehive_im.Rtmq.Subs.{SubNode, SubGroup, rtmq_async_send}

-- One message for each group, to a node of it, in the order of the groups.
abbrev pub Reaches : ℕ → List ℕ → List SubGroup → List Message → Type 0
Reaches type bytes [] [] = Unit {0}
Reaches type bytes [] (m ∷ ms) = ⊥
Reaches type bytes (g ∷ gs) [] = ⊥
Reaches type bytes (g ∷ gs) (m ∷ ms) =
    ((x : SubNode) × Occurs x g.nodes.arr × (m ≡ rtmq_async_send type x.nid bytes))
    × Reaches type bytes gs ms
