-- ===== src/Rtmq/Dist/Peers.antt =====
-- Links of a node, and what a queue of messages adds to them: for rtmq_rsvr_dist_data of src/clang/lib/rtmq/server/rtmq_rsvr.c.

use beehive_im.Common.{
  ℕ, zero, suc, ◌+◌, ◌≡◌, ◌<◌, ◌⊎◌, ◌∙◌, refl, sym, ap, Bool, true, false, not, Bool-cases, some,
  List, [], ◌∷◌, ◌++◌, append_assoc, arith, inl, inr, if◌then◌else◌, ◌==◌, ◌||◌, nat_key,
  nat_beq_iff, length, get_elem?, append-nil,
}
use beehive_im.Containers.Vector.Take.{tally, tally-append}
use beehive_im.Rtmq.Wire.{Message}
use beehive_im.Rtmq.Dist.{Peer, Handout, conns_of, push_mesg}

-- Whether a link is one of the node
abbrev pub names : ℕ → List Peer → Bool
names nid [] = false
names nid (c ∷ conns) = c.nid == nid || names nid conns

-- The links have a link of the node at that place.
abbrev pub PeerAt : ℕ → List Peer → ℕ → Type 0
PeerAt nid [] k = ⊥
PeerAt nid (c ∷ conns) zero = c.nid ≡ nid
PeerAt nid (c ∷ conns) (suc k) = PeerAt nid conns k

-- The first list is what is left of the second when some are taken out.
abbrev pub Sub : List ℕ → List ℕ → Type 0
Sub [] ys = Unit {0}
Sub (x ∷ xs) [] = ⊥
Sub (x ∷ xs) (y ∷ ys) = ((x ≡ y) × Sub xs ys) ⊎ Sub (x ∷ xs) ys

pub Sub-skip : (xs ys : List ℕ) (y : ℕ) → Sub xs ys → Sub xs (y ∷ ys)
Sub-skip [] ys y s = tt
Sub-skip (x ∷ xs) ys y s = inr s

-- How often an address stands in what the links have to send
abbrev pub held : ℕ → List Peer → ℕ
held a [] = 0
held a (c ∷ conns) = tally (λ b. a == b) c.mesg_list + held a conns

module _ (mesg : ℕ → Message) where
  -- The messages for a node
  abbrev pub to_node : ℕ → List ℕ → List ℕ
  to_node nid [] = []
  to_node nid (a ∷ q) = if (mesg a).head.nid == nid then a ∷ to_node nid q else to_node nid q

  -- The messages for a node that no link is of
  abbrev pub to_nobody : List Peer → List ℕ → List ℕ
  to_nobody conns [] = []
  to_nobody conns (a ∷ q) =
      if names (mesg a).head.nid conns then to_nobody conns q else a ∷ to_nobody conns q

  -- Each link has got messages for its node behind what it had, in the order in which they are in the queue.
  abbrev pub Grown : List Peer → List Peer → List ℕ → Type 0
  Grown [] [] q = Unit {0}
  Grown [] (d ∷ conns') q = ⊥
  Grown (c ∷ conns) [] q = ⊥
  Grown (c ∷ conns) (d ∷ conns') q =
      ((d.nid ≡ c.nid)
        × (extra : List ℕ) × (d.mesg_list ≡ c.mesg_list ++ extra)
        × Sub extra (to_node c.nid q))
      × Grown conns conns' q

  -- What handing the messages of a queue out comes to.
  pub record Handed (h h' : Handout) (q : List ℕ) : Type 0 where
    pub grown : Grown h.conns h'.conns q
    pub freed : h'.freed ≡ h.freed ++ to_nobody h.conns q
    pub kept :
        (a : ℕ)
        → held a h'.conns + tally (λ b. a == b) h'.freed
          ≡ held a h.conns + tally (λ b. a == b) h.freed + tally (λ b. a == b) q

  pub Grown-same : (conns : List Peer) → Grown conns conns []
  Grown-same [] = tt
  Grown-same (c ∷ conns) = ((refl, [], sym (append-nil c.mesg_list), tt), Grown-same conns)

  to_node-skip : (nid a : ℕ) (q xs : List ℕ) → Sub xs (to_node nid q) → Sub xs (to_node nid (a ∷ q))
  to_node-skip nid a q xs s = elim (Bool-cases ((mesg a).head.nid == nid)) [
    | inl e ↦ rw e (Sub-skip xs (to_node nid q) a s)
    | inr e ↦ rw e s
  ]

  pub Grown-skip :
      (conns conns' : List Peer) (a : ℕ) (q : List ℕ)
      → Grown conns conns' q
      → Grown conns conns' (a ∷ q)
  Grown-skip [] [] a q g = tt
  Grown-skip [] (d ∷ conns') a q g = absurd g
  Grown-skip (c ∷ conns) [] a q g = absurd g
  Grown-skip (c ∷ conns) (d ∷ conns') a q g =
      let (same, extra, e, s) = g.0 in
      ((same, extra, e, to_node-skip c.nid a q extra s), Grown-skip conns conns' a q g.1)

  pub Grown-push :
      (conns conns' : List Peer) (k a : ℕ) (q : List ℕ)
      → PeerAt (mesg a).head.nid conns k
      → Grown (push_mesg conns k a) conns' q
      → Grown conns conns' (a ∷ q)
  Grown-push [] conns' k a q p g = absurd p
  Grown-push (c ∷ conns) [] zero a q p g = absurd g
  Grown-push (c ∷ conns) [] (suc k) a q p g = absurd g
  Grown-push (c ∷ conns) (d ∷ conns') zero a q p g =
      let (same, extra, e, s) = g.0 in
      let hit : ((mesg a).head.nid == c.nid) ≡ true =
        (nat_beq_iff (mesg a).head.nid c.nid).1 (sym p) in
      (
        (same, a ∷ extra, e ∙ append_assoc c.mesg_list (a ∷ []) extra, rw hit (inl (refl, s))),
        Grown-skip conns conns' a q g.1,
      )
  Grown-push (c ∷ conns) (d ∷ conns') (suc k) a q p g =
      let (same, extra, e, s) = g.0 in
      ((same, extra, e, to_node-skip c.nid a q extra s), Grown-push conns conns' k a q p g.1)

  names-push :
      (nid : ℕ) (conns : List Peer) (k a : ℕ) → names nid (push_mesg conns k a) ≡ names nid conns
  names-push nid [] k a = refl
  names-push nid (c ∷ conns) zero a = refl
  names-push nid (c ∷ conns) (suc k) a = ap (λ b. c.nid == nid || b) (names-push nid conns k a)

  pub to_nobody-push :
      (conns : List Peer) (k a : ℕ) (q : List ℕ)
      → to_nobody (push_mesg conns k a) q ≡ to_nobody conns q
  to_nobody-push conns k a [] = refl
  to_nobody-push conns k a (b ∷ q) =
      ground (arith, names-push (mesg b).head.nid conns k a, to_nobody-push conns k a q)

  pub held-push :
      (conns : List Peer) (k a b nid : ℕ)
      → PeerAt nid conns k
      → held b (push_mesg conns k a) ≡ held b conns + (if b == a then 1 else 0)
  held-push [] k a b nid p = absurd p
  held-push (c ∷ conns) zero a b nid p =
      let more = tally-append (λ x. b == x) c.mesg_list (a ∷ []) in ground (arith, more)
  held-push (c ∷ conns) (suc k) a b nid p = omega (arith, held-push conns k a b nid p)

PeerAt-cons :
    (nid i : ℕ) (c : Peer) (conns : List Peer) (found : List ℕ) (j k : ℕ)
    → (c.nid == nid) ≡ true
    → ((l : ℕ) → get_elem? found l ≡ some k → (m : ℕ) × (k ≡ suc i + m) × PeerAt nid conns m)
    → get_elem? (i ∷ found) j ≡ some k
    → (m : ℕ) × (k ≡ i + m) × PeerAt nid (c ∷ conns) m
PeerAt-cons nid i c conns found zero k here rest e =
    (0, ground (arith, e), (nat_beq_iff c.nid nid).0 here)
PeerAt-cons nid i c conns found (suc j) k here rest e =
    let (m, at, p) = rest j e in (suc m, omega (arith, at), p)

pub conns_of-PeerAt :
    (nid i : ℕ) (conns : List Peer) (j k : ℕ)
    → get_elem? (conns_of nid i conns) j ≡ some k
    → (m : ℕ) × (k ≡ i + m) × PeerAt nid conns m
unfolding conns_of
conns_of-PeerAt nid i [] j k e = absurd (ground (arith, e))
conns_of-PeerAt nid i (c ∷ conns) j k e = elim (Bool-cases (c.nid == nid)) [
  | inl here ↦
      PeerAt-cons nid i c conns (conns_of nid (suc i) conns) j k here
        (λ l. conns_of-PeerAt nid (suc i) conns l k) (rw here at e)
  | inr on ↦
      let (m, at, p) = conns_of-PeerAt nid (suc i) conns j k (rw on at e) in
      (suc m, omega (arith, at), p)
]

pub conns_of-names :
    (nid i : ℕ) (conns : List Peer) → (length (conns_of nid i conns) == 0) ≡ not (names nid conns)
unfolding conns_of
conns_of-names nid i [] = refl
conns_of-names nid i (c ∷ conns) = ground (arith, conns_of-names nid (suc i) conns)

pub get_elem?-below :
    {A : Type 0} (xs : List A) (j : ℕ) → j < length xs → (x : A) × (get_elem? xs j ≡ some x)
get_elem?-below [] j h = absurd (omega (arith, h))
get_elem?-below (x ∷ xs) zero h = (x, refl)
get_elem?-below (x ∷ xs) (suc j) h = get_elem?-below xs j (omega (arith, h))
