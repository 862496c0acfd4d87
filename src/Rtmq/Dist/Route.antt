-- ===== src/Rtmq/Dist/Route.antt =====
-- Which receive service gets which message: rtmq_dsvr_dist_data_hdl of src/clang/lib/rtmq/server/rtmq_dist.c.

use mathlib.Core.Path.{subst}
use beehive_im.Common.{
  ℕ, suc, ◌+◌, ◌^◌, append_assoc, append-nil, Occurs, none, ◌≡◌, ◌<◌, ◌⊎◌, ◌∙◌, refl, sym, ap,
  Option-cases, some, List, [], ◌∷◌, ◌++◌, arith, inl, inr, ◌==◌, nat_key, length, length-append,
  get_elem?, set, length-set,
}
use beehive_im.Table.{Table, lookup}
use beehive_im.Containers.Ring.{Ring}
use beehive_im.Containers.Ring.Queue.{IsRing, contents, used, ring_mpush-contents}
use beehive_im.Containers.Vector.Take.{tally, tally-append}
use beehive_im.Rtmq.Wire.{Message}
use beehive_im.Rtmq.NodeMap.{NodeMap}
use beehive_im.Rtmq.NodeMap.Valid.{AreMaps, links, rand-links}
use beehive_im.Rtmq.Dist.{Routed, route_mesg, route_each}
use beehive_im.Rtmq.Dist.Peers.{get_elem?-below}
use beehive_im.Rtmq.Dist.Queues.{
  AreRings, queued, AreRings-get, AreRings-set, queued-set, Filled, Filled-same, Filled-skip,
  Filled-push, Filled-get, length-contents,
}

-- The services that nodes are linked to have a queue.
abbrev pub Serves : Table ℕ NodeMap → ℕ → Type 0
Serves maps n = (nid x : ℕ) → 0 < links maps nid x → x < n

module _ (mesg : ℕ → Message) (maps : Table ℕ NodeMap) (k : ℕ) where
  -- The node of the message is not known, or linked to a service whose queue is full.
  abbrev pub Excused : Routed → ℕ → Type 0
  Excused s a =
      (lookup (mesg a).head.nid maps ≡ none)
      ⊎ ((x : ℕ) × (rq : Ring) × (0 < links maps (mesg a).head.nid x)
          × (get_elem? s.sendq x ≡ some rq)
          × (used rq ≡ 2 ^ k))

  -- What routing the messages comes to: `lost` are those that no service got.
  pub record Sent (s s' : Routed) (q : List ℕ) : Type 0 where
    pub lost : List ℕ
    pub freed : s'.freed ≡ s.freed ++ lost
    pub excused : (a : ℕ) → Occurs a lost → Excused s' a
    pub rings : AreRings k s'.sendq
    pub size : length s'.sendq ≡ length s.sendq
    pub filled : Filled mesg maps 0 s.sendq s'.sendq q
    pub kept :
        (a : ℕ)
        → queued a s'.sendq + tally (λ b. a == b) s'.freed
          ≡ queued a s.sendq + tally (λ b. a == b) s.freed + tally (λ b. a == b) q
    pub asked : length s'.reqs + length s'.freed ≡ length s.reqs + length s.freed + length q

module _ (mesg : ℕ → Message) (rand : ℕ → ℕ) (maps : Table ℕ NodeMap) (k : ℕ) where
  -- The message is given back.
  record Dropped (s s1 : Routed) (a : ℕ) : Type 0 where
    sendq : s1.sendq ≡ s.sendq
    freed : s1.freed ≡ s.freed ++ (a ∷ [])
    reqs : s1.reqs ≡ s.reqs
    excused : Excused mesg maps k s1 a

  -- The message is put into the queue of a service.
  record Queued (s s1 : Routed) (a : ℕ) : Type 0 where
    x : ℕ
    rq : Ring
    rq' : Ring
    there : get_elem? s.sendq x ≡ some rq
    is_ring : IsRing k rq'
    more : contents rq' ≡ contents rq ++ (a ∷ [])
    link : 0 < links maps (mesg a).head.nid x
    sendq : s1.sendq ≡ set s.sendq x rq'
    freed : s1.freed ≡ s.freed
    reqs : s1.reqs ≡ s.reqs ++ (x ∷ [])

  route_mesg-cases :
      (s : Routed) (a : ℕ)
      → AreMaps maps
      → Serves maps (length s.sendq)
      → AreRings k s.sendq
      → (s1 : Routed) × (route_mesg mesg rand maps s a ≡ some s1) × (Dropped s s1 a ⊎ Queued s s1 a)
  unfolding route_mesg
  route_mesg-cases s a v serves rings =
      let unknown : Routed = record s { freed = s.freed ++ (a ∷ []) } in
      let no_room : Routed = record unknown { drawn = suc s.drawn } in
      elim (rand-links maps (rand s.drawn) (mesg a).head.nid v) [
        | inl (e, absent) ↦ (
          unknown,
          rw (route_mesg, e) refl,
          inl (record { sendq = refl; freed = refl; reqs = refl; excused = inl absent }),
        )
        | inr (x, e, link) ↦
            let (rq, there) = get_elem?-below s.sendq x (serves (mesg a).head.nid x link) in
            elim (ring_mpush-contents k rq (AreRings-get k s.sendq x rq rings there) (a ∷ [])) [
              | inr (full, f) ↦ (
                no_room,
                rw (route_mesg, e, there, f) refl,
                inl (record {
                  sendq = refl;
                  freed = refl;
                  reqs = refl;
                  excused = inr (
                    x,
                    rq,
                    link,
                    there,
                    omega (arith, full, (AreRings-get k s.sendq x rq rings there).fits),
                  );
                }),
              )
              | inl (room, rq', f, w, more) ↦
                  let next : Routed = record s {
                    sendq = set s.sendq x rq';
                    reqs = s.reqs ++ (x ∷ []);
                    drawn = suc s.drawn;
                  } in
                  (
                    next,
                    rw (route_mesg, e, there, f) refl,
                    inr (record {
                      x = x;
                      rq = rq;
                      rq' = rq';
                      there = there;
                      is_ring = w;
                      more = more;
                      link = link;
                      sendq = refl;
                      freed = refl;
                      reqs = refl;
                    }),
                  )
            ]
      ]

  -- A full queue stays full.
  Excused-on :
      (s1 s' : Routed) (a : ℕ) (q : List ℕ)
      → Sent mesg maps k s1 s' q
      → Excused mesg maps k s1 a
      → Excused mesg maps k s' a
  Excused-on s1 s' a q w (inl absent) = inl absent
  Excused-on s1 s' a q w (inr (x, rq, link, there, full)) =
      let (rq', extra, there', more) =
        Filled-get mesg maps 0 s1.sendq s'.sendq q x rq w.filled there in
      let v = AreRings-get k s'.sendq x rq' w.rings there' in
      let still : used rq' ≡ 2 ^ k = omega (
        arith,
        full,
        v.fits,
        ap length more,
        length-append (contents rq) extra,
        length-contents rq,
        length-contents rq',
      ) in
      inr (x, rq', link, there', still)

  -- What is done with the first message goes before what is done with the rest.
  Sent-after :
      (s s1 s' : Routed) (a : ℕ) (q : List ℕ)
      → Dropped s s1 a ⊎ Queued s s1 a
      → Sent mesg maps k s1 s' q
      → Sent mesg maps k s s' (a ∷ q)
  Sent-after s s1 s' a q (inl d) w = record {
    lost = a ∷ w.lost;
    freed = w.freed ∙ ap (λ xs. xs ++ w.lost) d.freed ∙ append_assoc s.freed (a ∷ []) w.lost;
    excused = λ b o. elim o [
      | inl this ↦ subst (Excused mesg maps k s') (sym this) (Excused-on s1 s' a q w d.excused)
      | inr later ↦ w.excused b later
    ];
    rings = w.rings;
    size = w.size ∙ ap length d.sendq;
    filled =
        Filled-skip mesg maps 0 s.sendq s'.sendq a q
          (subst (λ z. Filled mesg maps 0 z s'.sendq q) d.sendq w.filled);
    kept = λ b. omega (
      arith,
      w.kept b,
      ap (queued b) d.sendq,
      ap (tally (λ z. b == z)) d.freed,
      tally-append (λ z. b == z) s.freed (a ∷ []),
    );
    asked =
        omega (arith, w.asked, ap length d.freed, ap length d.reqs, length-append s.freed (a ∷ []));
  }
  Sent-after s s1 s' a q (inr d) w = record {
    lost = w.lost;
    freed = w.freed ∙ ap (λ xs. xs ++ w.lost) d.freed;
    excused = w.excused;
    rings = w.rings;
    size = w.size ∙ ap length d.sendq ∙ length-set s.sendq d.x d.rq';
    filled =
        Filled-push mesg maps 0 s.sendq s'.sendq d.x a q d.rq d.rq' d.there d.more
          (subst (λ z. 0 < links maps (mesg a).head.nid z) (omega arith) d.link)
          (subst (λ z. Filled mesg maps 0 z s'.sendq q) d.sendq w.filled);
    kept = λ b. omega (
      arith,
      w.kept b,
      ap (queued b) d.sendq,
      ap (tally (λ z. b == z)) d.freed,
      queued-set s.sendq d.x a b d.rq d.rq' d.there d.more,
    );
    asked =
        omega
          (arith, w.asked, ap length d.freed, ap length d.reqs, length-append s.reqs (d.x ∷ []));
  }

  rings-after :
      (s s1 : Routed) (a : ℕ)
      → AreRings k s.sendq
      → Dropped s s1 a ⊎ Queued s s1 a
      → AreRings k s1.sendq × (length s1.sendq ≡ length s.sendq)
  rings-after s s1 a v (inl d) = (subst (AreRings k) (sym d.sendq) v, ap length d.sendq)
  rings-after s s1 a v (inr d) = (
    subst (AreRings k) (sym d.sendq) (AreRings-set k s.sendq d.x d.rq' v d.is_ring),
    ap length d.sendq ∙ length-set s.sendq d.x d.rq',
  )

  pub route_each-Sent :
      (s : Routed) (q : List ℕ)
      → AreMaps maps
      → Serves maps (length s.sendq)
      → AreRings k s.sendq
      → (s' : Routed) × (route_each mesg rand maps s q ≡ some s') × Sent mesg maps k s s' q
  unfolding route_each
  route_each-Sent s [] v serves rings = (
    s,
    refl,
    record {
      lost = [];
      freed = sym (append-nil s.freed);
      excused = λ a o. absurd o;
      rings = rings;
      size = refl;
      filled = Filled-same mesg maps 0 s.sendq;
      kept = λ a. omega arith;
      asked = omega arith;
    },
  )
  route_each-Sent s (a ∷ q) v serves rings =
      let (s1, e, step) = route_mesg-cases s a v serves rings in
      let (rings', size) = rings-after s s1 a rings step in
      let serves' : Serves maps (length s1.sendq) =
        λ nid x h. omega (arith, size, serves nid x h) in
      let (s', f, w) = route_each-Sent s1 q v serves' rings' in
      (s', rw (route_each, e) f, Sent-after s s1 s' a q step w)

  pub route_each-append :
      (s s' : Routed) (xs ys : List ℕ)
      → route_each mesg rand maps s xs ≡ some s'
      → route_each mesg rand maps s (xs ++ ys) ≡ route_each mesg rand maps s' ys
  unfolding route_each
  route_each-append s s' [] ys e = ap (λ t. route_each mesg rand maps t ys) (ground (arith, e))
  route_each-append s s' (x ∷ xs) ys e = elim (Option-cases (route_mesg mesg rand maps s x)) [
    | inl f ↦ ground (arith, e, f)
    | inr (next, f) ↦ rw (route_each, f) (route_each-append next s' xs ys (rw (route_each, f) at e))
  ]
