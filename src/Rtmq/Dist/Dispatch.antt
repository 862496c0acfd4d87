-- ===== src/Rtmq/Dist/Dispatch.antt =====
-- One pass of the distribution: rtmq_dsvr_dist_data_hdl of src/clang/lib/rtmq/server/rtmq_dist.c.
use Prim.Native.Nat.{min}
use beehive_im.Common.{
  ℕ, ◌≡◌, ◌∙◌, refl, sym, ap, Bool-cases, some, List, [], ◌∷◌, ◌++◌, arith, inl, inr, ◌==◌, nat_key,
  nat_beq_iff, length, take, drop,
}
use beehive_im.Table.{Table}
use beehive_im.Containers.Ring.{Ring}
use beehive_im.Containers.Ring.Queue.{IsRing, contents, ring_mpop-contents}
use beehive_im.Rtmq.Wire.{Message}
use beehive_im.Rtmq.NodeMap.{NodeMap}
use beehive_im.Rtmq.NodeMap.Valid.{AreMaps}
use beehive_im.Rtmq.Dist.{Routed, pop_max_num, route_each, route_queue, rtmq_dsvr_dist_data_hdl}
use beehive_im.Rtmq.Dist.Queues.{AreRings}
use beehive_im.Rtmq.Dist.Route.{Serves, Sent, route_each-Sent, route_each-append}

-- What each of the queues has for the handler: its first messages, up to 1024
abbrev pub popped : List Ring → List ℕ
popped [] = []
popped (rq ∷ distq) = take (min rq.num pop_max_num) (contents rq) ++ popped distq

-- What the queues keep for later
abbrev pub AreLeft : List Ring → List Ring → Type 0
AreLeft [] [] = Unit {0}
AreLeft [] (r' ∷ distq') = ⊥
AreLeft (r ∷ distq) [] = ⊥
AreLeft (r ∷ distq) (r' ∷ distq') =
    (contents r' ≡ drop (min r.num pop_max_num) (contents r)) × AreLeft distq distq'

module _ (mesg : ℕ → Message) (rand : ℕ → ℕ) (maps : Table ℕ NodeMap) (k j : ℕ) where
  route_queue-each :
      (rq : Ring) (s s' : Routed)
      → IsRing j rq
      → route_each mesg rand maps s (take (min rq.num pop_max_num) (contents rq)) ≡ some s'
      → (rq' : Ring) × (route_queue mesg rand maps rq s ≡ some (rq', s'))
        × IsRing j rq'
        × (contents rq' ≡ drop (min rq.num pop_max_num) (contents rq))
  unfolding route_queue route_each
  route_queue-each rq s s' v e = elim (Bool-cases (min rq.num pop_max_num == 0)) [
    | inl empty ↦
        let none_ : min rq.num pop_max_num ≡ 0 = (nat_beq_iff (min rq.num pop_max_num) 0).0 empty in
        let same : s ≡ s' = ground (arith, rw none_ at e) in
        (rq, rw (route_queue, empty) (ap (λ (t : Routed). some (rq, t)) same), v, rw none_ refl)
    | inr more ↦ elim (ring_mpop-contents j rq v (min rq.num pop_max_num)) [
      | inr (few, f) ↦ absurd (omega (arith, few, v.counted))
      | inl (enough, rq', f, w, rest) ↦ (rq', rw (route_queue, more, f, e) refl, w, rest)
    ]
  ]

  dist_data_hdl-each :
      (distq : List Ring) (s s' : Routed)
      → AreMaps maps
      → Serves maps (length s.sendq)
      → AreRings k s.sendq
      → AreRings j distq
      → route_each mesg rand maps s (popped distq) ≡ some s'
      → (distq' : List Ring) × (rtmq_dsvr_dist_data_hdl mesg rand maps distq s ≡ some (distq', s'))
        × AreRings j distq'
        × AreLeft distq distq'
  unfolding rtmq_dsvr_dist_data_hdl route_each
  dist_data_hdl-each [] s s' v serves rings w e =
      ([], ap (λ (t : Routed). some ([], t)) (ground (arith, e)), tt, tt)
  dist_data_hdl-each (rq ∷ distq) s s' v serves rings w e =
      let first = take (min rq.num pop_max_num) (contents rq) in
      let (s1, e1, sent) = route_each-Sent mesg rand maps k s first v serves rings in
      let on = sym (route_each-append mesg rand maps k s s1 first (popped distq) e1) ∙ e in
      let (rq', f, z, left) = route_queue-each rq s s1 w.0 e1 in
      let serves' : Serves maps (length s1.sendq) =
        λ nid x h. omega (arith, sent.size, serves nid x h) in
      let (distq', g, zs, lefts) = dist_data_hdl-each distq s1 s' v serves' sent.rings w.1 on in
      (rq' ∷ distq', rw (rtmq_dsvr_dist_data_hdl, f, g) refl, (z, zs), (left, lefts))

  -- Over well-formed maps whose services have queues, one pass takes up to 1024 messages from each distribution queue, in
  -- its order, and leaves the rest. Each service's queue gets only messages whose node is linked to the service, behind
  -- those that it had and in the order of the pass; each message is kept once, in the queue of a service or among those
  -- given back, and as many requests are sent to services as messages are queued. A message is given back only where its
  -- node is not known, or linked to a service whose queue is full after the pass.
  pub rtmq_dsvr_dist_data_hdl-Sent :
      (distq : List Ring) (s : Routed)
      → AreMaps maps
      → Serves maps (length s.sendq)
      → AreRings k s.sendq
      → AreRings j distq
      → (distq' : List Ring) × (s' : Routed) × (rtmq_dsvr_dist_data_hdl mesg rand maps distq s
          ≡ some (distq', s'))
        × AreRings j distq'
        × AreLeft distq distq'
        × Sent mesg maps k s s' (popped distq)
  rtmq_dsvr_dist_data_hdl-Sent distq s v serves rings w =
      let (s', e, sent) = route_each-Sent mesg rand maps k s (popped distq) v serves rings in
      let (distq', f, z, left) = dist_data_hdl-each distq s s' v serves rings w e in
      (distq', s', f, z, left, sent)
