-- ===== src/Rtmq/Dist/Deliver.antt =====
-- Which link gets which message: rtmq_rsvr_dist_data of src/clang/lib/rtmq/server/rtmq_rsvr.c.
use Prim.Native.Nat.{min}
use native.Mathlib.Nat.{mod-lt}
use mathlib.Core.Path.{subst}
use beehive_im.Common.{
  ℕ, zero, suc, ◌-◌, ◌%◌, ◌≡◌, ◌<◌, ◌⊎◌, ◌∙◌, refl, sym, ap, true, false, Bool-cases, Option-cases,
  some, List, [], ◌∷◌, ◌++◌, append_assoc, arith, inl, inr, ◌==◌, nat_key, length, length-drop,
  take-drop, take, drop, append-nil,
}
use beehive_im.Containers.Ring.{Ring}
use beehive_im.Containers.Ring.Queue.{IsRing, contents, used, ring_mpop-contents}
use beehive_im.Containers.Vector.Take.{tally-append}
use beehive_im.Rtmq.Wire.{Message}
use beehive_im.Rtmq.Dist.Queues.{length-contents}
use beehive_im.Rtmq.Dist.{
  Handout, conns_of, push_mesg, pop_max_num, dist_mesg, dist_each, rtmq_rsvr_dist_data,
}
use beehive_im.Rtmq.Dist.Peers.{
  names, PeerAt, to_nobody, Handed, Grown-same, Grown-skip, Grown-push, to_nobody-push, held-push,
  conns_of-PeerAt, conns_of-names, get_elem?-below,
}

module _ (mesg : ℕ → Message) (rand : ℕ → ℕ) where
  abbrev pushed : Handout → ℕ → ℕ → Handout
  pushed h addr k = record h { conns = push_mesg h.conns k addr; drawn = suc h.drawn }

  dist_mesg-cases :
      (h : Handout) (addr : ℕ)
      → ((names (mesg addr).head.nid h.conns ≡ false)
          × (dist_mesg mesg rand h addr ≡ some (record h { freed = h.freed ++ (addr ∷ []) })))
        ⊎ ((k : ℕ) × (names (mesg addr).head.nid h.conns ≡ true)
            × PeerAt (mesg addr).head.nid h.conns k
            × (dist_mesg mesg rand h addr ≡ some (pushed h addr k)))
  unfolding dist_mesg
  dist_mesg-cases h addr =
      let nid = (mesg addr).head.nid in
      let found = conns_of nid 0 h.conns in
      let same = conns_of-names nid 0 h.conns in
      elim (Bool-cases (length found == 0)) [
        | inl none_ ↦ inl (ground (arith, none_, same), rw (dist_mesg, none_) refl)
        | inr some_ ↦
            let below : rand h.drawn % length found < length found =
              mod-lt (rand h.drawn) (ground (arith, some_)) in
            let (k, e) = get_elem?-below found (rand h.drawn % length found) below in
            let (m, at, p) = conns_of-PeerAt nid 0 h.conns (rand h.drawn % length found) k e in
            inr (
              k,
              ground (arith, some_, same),
              let here : m ≡ k = omega (arith, at) in subst (PeerAt nid h.conns) here p,
              rw (dist_mesg, some_, e) refl,
            )
      ]

  dist_each-Handed :
      (h : Handout) (q : List ℕ)
      → (h' : Handout) × (dist_each mesg rand h q ≡ some h') × Handed mesg h h' q
  unfolding dist_each
  dist_each-Handed h [] = (
    h,
    refl,
    record {
      grown = Grown-same mesg h.conns;
      freed = sym (append-nil h.freed);
      kept = λ a. omega arith;
    },
  )
  dist_each-Handed h (addr ∷ q) = elim (dist_mesg-cases h addr) [
    | inl (nobody, e) ↦
        let next : Handout = record h { freed = h.freed ++ (addr ∷ []) } in
        let (h', f, v) = dist_each-Handed next q in
        (
          h',
          rw (dist_each, e) f,
          record {
            grown = Grown-skip mesg h.conns h'.conns addr q v.grown;
            freed =
                v.freed
                ∙ append_assoc h.freed (addr ∷ []) (to_nobody mesg h.conns q)
                ∙ ap (λ xs. h.freed ++ xs) (rw nobody refl);
            kept = λ a. ground (arith, v.kept a, tally-append (λ b. a == b) h.freed (addr ∷ []));
          },
        )
    | inr (k, known, p, e) ↦
        let next : Handout = pushed h addr k in
        let (h', f, v) = dist_each-Handed next q in
        (
          h',
          rw (dist_each, e) f,
          record {
            grown = Grown-push mesg h.conns h'.conns k addr q p v.grown;
            freed =
                v.freed
                ∙ ap (λ xs. h.freed ++ xs) (to_nobody-push mesg h.conns k addr q ∙ rw known refl);
            kept = λ a.
                ground (arith, v.kept a, held-push mesg h.conns k addr a (mesg addr).head.nid p);
          },
        )
  ]

  dist_each-append :
      (h h' : Handout) (xs ys : List ℕ)
      → dist_each mesg rand h xs ≡ some h'
      → dist_each mesg rand h (xs ++ ys) ≡ dist_each mesg rand h' ys
  unfolding dist_each
  dist_each-append h h' [] ys e = ap (λ g. dist_each mesg rand g ys) (ground (arith, e))
  dist_each-append h h' (x ∷ xs) ys e = elim (Option-cases (dist_mesg mesg rand h x)) [
    | inl f ↦ ground (arith, e, f)
    | inr (next, f) ↦ rw (dist_each, f) (dist_each-append next h' xs ys (rw (dist_each, f) at e))
  ]

  -- The rounds of the loop come to one pass over what is in the ring.
  rounds-each :
      (k rounds : ℕ) (rq : Ring) (h h' : Handout)
      → IsRing k rq
      → used rq < rounds
      → dist_each mesg rand h (contents rq) ≡ some h'
      → (rq' : Ring) × (rtmq_rsvr_dist_data mesg rand rounds rq h ≡ some (rq', h'))
        × IsRing k rq'
        × (contents rq' ≡ [])
  unfolding rtmq_rsvr_dist_data
  rounds-each k zero rq h h' v small e = absurd (omega (arith, small))
  rounds-each k (suc rounds) rq h h' v small e = elim (Bool-cases (min rq.num pop_max_num == 0)) [
    | inl empty ↦
        let none_ : used rq ≡ 0 = ground (arith, empty, v.counted) in
        let nothing : contents rq ≡ [] = rw none_ refl in
        (
          rq,
          rw (rtmq_rsvr_dist_data, empty)
              (ap (λ (g : Handout). some (rq, g)) (ground (arith, rw nothing at e))),
          v,
          nothing,
        )
    | inr more ↦ elim (ring_mpop-contents k rq v (min rq.num pop_max_num)) [
      | inr (few, f) ↦ absurd (omega (arith, few, v.counted))
      | inl (enough, next, f, w, rest) ↦
          let n : ℕ = min rq.num pop_max_num in
          let (h1, e1, v1) = dist_each-Handed h (take n (contents rq)) in
          let on : dist_each mesg rand h1 (contents next) ≡ some h' =
            ap (dist_each mesg rand h1) rest
            ∙ sym (dist_each-append h h1 (take n (contents rq)) (drop n (contents rq)) e1)
            ∙ ap (dist_each mesg rand h) (take-drop n (contents rq))
            ∙ e in
          let less : used next ≡ used rq - n = omega (
            arith,
            length-contents next,
            length-contents rq,
            ap length rest,
            length-drop n (contents rq),
          ) in
          let some_ : 0 < n = ground (arith, more) in
          let (rq', g, z, nothing) =
            rounds-each k rounds next h1 h' w (omega (arith, less, some_, small, enough)) on in
          (rq', rw (rtmq_rsvr_dist_data, more, f, e1) g, z, nothing)
    ]
  ]

  -- The receive service hands out all that is in its ring, within more rounds than there are messages. Each link gets
  -- messages for its own node only, behind what it had and in the order of the ring; a message is given back just when no
  -- link is of its node; and each message is kept once, by a link or among those given back.
  pub rtmq_rsvr_dist_data-Handed :
      (k rounds : ℕ) (rq : Ring) (h : Handout)
      → IsRing k rq
      → used rq < rounds
      → (rq' : Ring) × (h' : Handout) × (rtmq_rsvr_dist_data mesg rand rounds rq h ≡ some (rq', h'))
        × IsRing k rq'
        × (contents rq' ≡ [])
        × Handed mesg h h' (contents rq)
  rtmq_rsvr_dist_data-Handed k rounds rq h v small =
      let (h', e, w) = dist_each-Handed h (contents rq) in
      let (rq', f, z, empty) = rounds-each k rounds rq h h' v small e in (rq', h', f, z, empty, w)
