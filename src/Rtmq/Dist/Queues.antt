-- ===== src/Rtmq/Dist/Queues.antt =====
-- The queues of the receive services and what a queue of messages adds to them: for rtmq_dsvr_dist_data_hdl of src/clang/lib/rtmq/server/rtmq_dist.c.

use mathlib.Core.Path.{subst}
use beehive_im.Common.{
  length, ℕ, zero, suc, ◌+◌, ◌≡◌, ◌<◌, ◌∙◌, refl, sym, ap, true, Bool-cases, some, List, [], ◌∷◌,
  ◌++◌, append_assoc, arith, inl, inr, if◌then◌else◌, ◌==◌, nat_key, ltb, get_elem?, set,
  append-nil,
}
use beehive_im.Table.{Table}
use beehive_im.Containers.Ring.{Ring, get_slots}
use beehive_im.Containers.Ring.Queue.{IsRing, contents, used}
use beehive_im.Containers.Vector.Take.{tally, tally-append}
use beehive_im.Rtmq.Wire.{Message}
use beehive_im.Rtmq.NodeMap.{NodeMap}
use beehive_im.Rtmq.NodeMap.Valid.{links}
use beehive_im.Rtmq.Dist.Peers.{Sub, Sub-skip}

-- Rings of 2 ^ k slots each
abbrev pub AreRings : ℕ → List Ring → Type 0
AreRings k [] = Unit {0}
AreRings k (rq ∷ rqs) = IsRing k rq × AreRings k rqs

-- How often an address stands in the queues
abbrev pub queued : ℕ → List Ring → ℕ
queued a [] = 0
queued a (rq ∷ rqs) = tally (λ b. a == b) (contents rq) + queued a rqs

pub AreRings-get :
    (k : ℕ) (rqs : List Ring) (m : ℕ) (rq : Ring)
    → AreRings k rqs
    → get_elem? rqs m ≡ some rq
    → IsRing k rq
AreRings-get k [] m rq v e = absurd (ground (arith, e))
AreRings-get k (r ∷ rqs) zero rq v e =
    let it : r ≡ rq = ground (arith, e) in subst (IsRing k) it v.0
AreRings-get k (r ∷ rqs) (suc m) rq v e = AreRings-get k rqs m rq v.1 e

pub AreRings-set :
    (k : ℕ) (rqs : List Ring) (m : ℕ) (rq : Ring)
    → AreRings k rqs
    → IsRing k rq
    → AreRings k (set rqs m rq)
AreRings-set k [] m rq v w = tt
AreRings-set k (r ∷ rqs) zero rq v w = (w, v.1)
AreRings-set k (r ∷ rqs) (suc m) rq v w = (v.0, AreRings-set k rqs m rq v.1 w)

pub queued-set :
    (rqs : List Ring) (m a b : ℕ) (rq rq' : Ring)
    → get_elem? rqs m ≡ some rq
    → contents rq' ≡ contents rq ++ (a ∷ [])
    → queued b (set rqs m rq') ≡ queued b rqs + (if b == a then 1 else 0)
queued-set [] m a b rq rq' e f = absurd (ground (arith, e))
queued-set (r ∷ rqs) zero a b rq rq' e f =
    let it : r ≡ rq = ground (arith, e) in
    let more = tally-append (λ x. b == x) (contents rq) (a ∷ []) in
    let there = ap (tally (λ x. b == x)) f in
    let same = ap (λ (x : Ring). tally (λ y. b == y) (contents x)) it in
    omega (arith, more, there, same)
queued-set (r ∷ rqs) (suc m) a b rq rq' e f = omega (arith, queued-set rqs m a b rq rq' e f)

module _ (mesg : ℕ → Message) (maps : Table ℕ NodeMap) where
  -- The messages whose node is linked to a service
  abbrev pub linked : ℕ → List ℕ → List ℕ
  linked x [] = []
  linked x (a ∷ q) = if ltb 0 (links maps (mesg a).head.nid x) then a ∷ linked x q else linked x q

  -- The services' queues, the first of which is that of the service `i`: each has got messages whose node is linked to the
  -- service, behind those that it had, in their order.
  abbrev pub Filled : ℕ → List Ring → List Ring → List ℕ → Type 0
  Filled i [] [] q = Unit {0}
  Filled i [] (r' ∷ rqs') q = ⊥
  Filled i (r ∷ rqs) [] q = ⊥
  Filled i (r ∷ rqs) (r' ∷ rqs') q =
      ((extra : List ℕ) × (contents r' ≡ contents r ++ extra) × Sub extra (linked i q))
      × Filled (suc i) rqs rqs' q

  pub Filled-same : (i : ℕ) (rqs : List Ring) → Filled i rqs rqs []
  Filled-same i [] = tt
  Filled-same i (r ∷ rqs) = (([], sym (append-nil (contents r)), tt), Filled-same (suc i) rqs)

  linked-skip : (x a : ℕ) (q xs : List ℕ) → Sub xs (linked x q) → Sub xs (linked x (a ∷ q))
  linked-skip x a q xs s = elim (Bool-cases (ltb 0 (links maps (mesg a).head.nid x))) [
    | inl e ↦ rw e (Sub-skip xs (linked x q) a s)
    | inr e ↦ rw e s
  ]

  pub Filled-skip :
      (i : ℕ) (rqs rqs' : List Ring) (a : ℕ) (q : List ℕ)
      → Filled i rqs rqs' q
      → Filled i rqs rqs' (a ∷ q)
  Filled-skip i [] [] a q g = tt
  Filled-skip i [] (r' ∷ rqs') a q g = absurd g
  Filled-skip i (r ∷ rqs) [] a q g = absurd g
  Filled-skip i (r ∷ rqs) (r' ∷ rqs') a q g =
      let (extra, e, s) = g.0 in
      ((extra, e, linked-skip i a q extra s), Filled-skip (suc i) rqs rqs' a q g.1)

  pub Filled-push :
      (i : ℕ) (rqs rqs' : List Ring) (m a : ℕ) (q : List ℕ) (rq rq' : Ring)
      → get_elem? rqs m ≡ some rq
      → contents rq' ≡ contents rq ++ (a ∷ [])
      → 0 < links maps (mesg a).head.nid (i + m)
      → Filled i (set rqs m rq') rqs' q
      → Filled i rqs rqs' (a ∷ q)
  Filled-push i [] rqs' m a q rq rq' e f p g = absurd (ground (arith, e))
  Filled-push i (r ∷ rqs) [] zero a q rq rq' e f p g = absurd g
  Filled-push i (r ∷ rqs) [] (suc m) a q rq rq' e f p g = absurd g
  Filled-push i (r ∷ rqs) (r' ∷ rqs') zero a q rq rq' e f p g =
      let (extra, o, s) = g.0 in
      let it : rq ≡ r = ground (arith, e) in
      let here : i + 0 ≡ i = omega arith in
      let hit : ltb 0 (links maps (mesg a).head.nid i) ≡ true = ground (arith, p, here) in
      (
        (
          a ∷ extra,
          o
              ∙ ap (λ xs. xs ++ extra) f
              ∙ append_assoc (contents rq) (a ∷ []) extra
              ∙ ap (λ (x : Ring). contents x ++ (a ∷ extra)) it,
          rw hit (inl (refl, s)),
        ),
        Filled-skip (suc i) rqs rqs' a q g.1,
      )
  Filled-push i (r ∷ rqs) (r' ∷ rqs') (suc m) a q rq rq' e f p g =
      let (extra, o, s) = g.0 in
      let on : i + suc m ≡ suc i + m = omega arith in
      (
        (extra, o, linked-skip i a q extra s),
        Filled-push (suc i) rqs rqs' m a q rq rq' e f (rw on at p) g.1,
      )

  -- A queue that got messages holds what it had, and more.
  pub Filled-get :
      (i : ℕ) (rqs rqs' : List Ring) (q : List ℕ) (m : ℕ) (rq : Ring)
      → Filled i rqs rqs' q
      → get_elem? rqs m ≡ some rq
      → (rq' : Ring) × (extra : List ℕ) × (get_elem? rqs' m ≡ some rq')
        × (contents rq' ≡ contents rq ++ extra)
  Filled-get i [] rqs' q m rq g e = absurd (ground (arith, e))
  Filled-get i (r ∷ rqs) [] q m rq g e = absurd g
  Filled-get i (r ∷ rqs) (r' ∷ rqs') q zero rq g e =
      let it : r ≡ rq = ground (arith, e) in
      (r', g.0.0, refl, g.0.1 ∙ ap (λ (x : Ring). contents x ++ g.0.0) it)
  Filled-get i (r ∷ rqs) (r' ∷ rqs') q (suc m) rq g e = Filled-get (suc i) rqs rqs' q m rq g.1 e

length-slots : (slots : ℕ → ℕ) (mask head n : ℕ) → length (get_slots slots mask head n) ≡ n
length-slots slots mask head zero = refl
length-slots slots mask head (suc n) = ap suc (length-slots slots mask (suc head) n)

pub length-contents : (rq : Ring) → length (contents rq) ≡ used rq
length-contents rq = length-slots rq.slots rq.mask rq.cons_head (used rq)
