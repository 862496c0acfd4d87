-- ===== src/Containers/Ring/Tests.antt =====
-- The theorems of the ring at concrete inputs.

use beehive_im.Common.{ℕ, ◌+◌, ◌-◌, ◌^◌, ◌≡◌, ◌≤◌, ◌<◌, ◌⊎◌, refl, some, [], ◌∷◌, get_or, arith}
use beehive_im.Chat.{ok, fail}
use beehive_im.Containers.Ring.{Ring, ring_creat, ring_mpush, ring_mpop}
use beehive_im.Containers.Ring.Creat.{ring_creat-IsRing}
use beehive_im.Containers.Ring.Queue.{IsRing, contents, ring_mpush-contents, ring_mpop-contents}

-- Four slots, two of which are in use; the counter of the producers has wrapped.
abbrev wrapped_ring : Ring
wrapped_ring = record {
  max = 4;
  mask = 3;
  num = 2;
  slots = λ i. get_or (72 ∷ 0 ∷ 0 ∷ 71 ∷ []) i 0;
  prod_head = 1;
  prod_tail = 1;
  cons_head = 2 ^ 32 - 1;
  cons_tail = 2 ^ 32 - 1;
}

wrapped_ring-IsRing : IsRing 2 wrapped_ring
wrapped_ring-IsRing = record {
  small = omega arith;
  size = refl;
  masks = refl;
  produced = refl;
  consumed = refl;
  prod_word = omega arith;
  cons_word = omega arith;
  fits = omega arith;
  counted = refl;
}

ring_mpush-contents_example :
    ((2 + 2 ≤ 4)
      × (rq' : Ring) × (ring_mpush wrapped_ring (73 ∷ 74 ∷ []) ≡ some (ok, rq'))
      × IsRing 2 rq'
      × (contents rq' ≡ 71 ∷ 72 ∷ 73 ∷ 74 ∷ []))
    ⊎ ((4 < 2 + 2) × (ring_mpush wrapped_ring (73 ∷ 74 ∷ []) ≡ some (fail, wrapped_ring)))
ring_mpush-contents_example = ring_mpush-contents 2 wrapped_ring wrapped_ring-IsRing (73 ∷ 74 ∷ [])

ring_mpop-contents_example :
    ((1 ≤ 2)
      × (rq' : Ring) × (ring_mpop wrapped_ring 1 ≡ some (71 ∷ [], rq'))
      × IsRing 2 rq'
      × (contents rq' ≡ 72 ∷ []))
    ⊎ ((2 < 1) × (ring_mpop wrapped_ring 1 ≡ some ([], wrapped_ring)))
ring_mpop-contents_example = ring_mpop-contents 2 wrapped_ring wrapped_ring-IsRing 1

-- A ring that is asked to hold 5 pointers
ring_creat-IsRing_example :
    (k : ℕ) × IsRing k (ring_creat 5) × (5 ≤ 2 ^ k) × (contents (ring_creat 5) ≡ [])
ring_creat-IsRing_example = ring_creat-IsRing 5 (omega arith) (omega arith)
