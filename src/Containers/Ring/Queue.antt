-- ===== src/Containers/Ring/Queue.antt =====
-- The ring as a queue: src/clang/lib/core/ring.c.
use native.Mathlib.Nat.{pow-le-pow_right}
use beehive_im.Common.{
  ℕ, ◌+◌, ◌-◌, ◌%◌, ◌^◌, ◌≡◌, ◌≤◌, ◌<◌, ◌⊎◌, ◌∙◌, sym, ap, refl, inl, inr, true, Bool-cases, some,
  List, [], ◌++◌, ◌==◌, nat_key, nat_beq_iff, ltb, length, take, drop, arith,
}
use beehive_im.Chat.{ok, fail}
use beehive_im.Containers.Ring.{Ring, minus32, put_slots, get_slots, ring_mpush, ring_mpop}
use beehive_im.Containers.Ring.Slots.{
  word-mod, put_slots-cong, get_slots-cong, get-put_slots, get_slots-take,
}

-- How many pointers are in the ring
abbrev pub used : Ring → ℕ
used rq = minus32 rq.prod_head rq.cons_head

-- The pointers in the ring, the oldest first
abbrev pub contents : Ring → List ℕ
contents rq = get_slots rq.slots rq.mask rq.cons_head (used rq)

-- A ring of 2 ^ k slots that no thread is working on
pub record IsRing (k : ℕ) (rq : Ring) : Type 0 where
  pub small : k < 32
  pub size : rq.max ≡ 2 ^ k
  pub masks : rq.mask ≡ 2 ^ k - 1
  pub produced : rq.prod_tail ≡ rq.prod_head
  pub consumed : rq.cons_tail ≡ rq.cons_head
  pub prod_word : rq.prod_head < 2 ^ 32
  pub cons_word : rq.cons_head < 2 ^ 32
  pub fits : used rq ≤ 2 ^ k
  pub counted : rq.num ≡ used rq

pub bounded : (k : ℕ) → k < 32 → 2 ^ k ≤ 2 ^ 31
bounded k h = pow-le-pow_right {n = 2} (omega arith) {i = k} {j = 31} (omega (arith, h))

module _ (k : ℕ) (rq : Ring) (v : IsRing k rq) where
  -- A push puts all its pointers behind those that are there, in their order, or changes nothing where there is no
  -- room for all of them. The counters may wrap.
  pub ring_mpush-contents :
      (addr : List ℕ)
      → ((used rq + length addr ≤ 2 ^ k)
          × (rq' : Ring) × (ring_mpush rq addr ≡ some (ok, rq'))
          × IsRing k rq'
          × (contents rq' ≡ contents rq ++ addr))
        ⊎ ((2 ^ k < used rq + length addr) × (ring_mpush rq addr ≡ some (fail, rq)))
  unfolding ring_mpush
  ring_mpush-contents addr =
      let most = bounded k v.small in
      let free : minus32 ((rq.max + rq.cons_tail) % 2 ^ 32) rq.prod_head ≡ 2 ^ k - used rq =
        omega (arith, most, v.size, v.consumed, v.prod_word, v.cons_word, v.fits) in
      let idle : (rq.prod_tail == rq.prod_head) ≡ true =
        (nat_beq_iff rq.prod_tail rq.prod_head).1 v.produced in
      elim (Bool-cases
        (ltb (minus32 ((rq.max + rq.cons_tail) % 2 ^ 32) rq.prod_head) (length addr))) [
          | inl full ↦ inr (ground (arith, full, free, v.fits), rw (ring_mpush, full) refl)
          | inr room ↦
              let enough : used rq + length addr ≤ 2 ^ k = ground (arith, room, free, v.fits) in
              let next : ℕ = (rq.prod_head + length addr) % 2 ^ 32 in
              let more : minus32 next rq.cons_head ≡ used rq + length addr =
                omega (arith, enough, most, v.prod_word, v.cons_word) in
              let at_end : rq.prod_head ≡ (rq.cons_head + used rq) % 2 ^ 32 =
                omega (arith, v.prod_word, v.cons_word) in
              let there : rq.prod_head % 2 ^ k ≡ (rq.cons_head + used rq) % 2 ^ k =
                ap (λ (n : ℕ). n % 2 ^ k) at_end ∙ word-mod k (rq.cons_head + used rq) v.small in
              let rq' : Ring = record rq {
                num = (rq.num + length addr) % 2 ^ 32;
                slots = put_slots rq.slots rq.mask rq.prod_head addr;
                prod_head = next;
                prod_tail = next;
              } in
              inl (
                enough,
                rq',
                rw (ring_mpush, room, idle) refl,
                record {
                  small = v.small;
                  size = v.size;
                  masks = v.masks;
                  produced = refl;
                  consumed = v.consumed;
                  prod_word = omega arith;
                  cons_word = v.cons_word;
                  fits = omega (arith, more, enough);
                  counted = omega (arith, more, v.counted, enough, most);
                },
                rw (more, v.masks)
                    (ap
                        (λ (s : ℕ → ℕ).
                          get_slots s (2 ^ k - 1) rq.cons_head (used rq + length addr))
                        (put_slots-cong k v.small rq.slots rq.prod_head (rq.cons_head + used rq)
                          addr there)
                      ∙ get-put_slots k v.small rq.slots rq.cons_head (used rq) addr enough),
              )
        ]

  -- A pop takes as many pointers as are asked for, the oldest first, or nothing where there are fewer.
  pub ring_mpop-contents :
      (num : ℕ)
      → ((num ≤ used rq)
          × (rq' : Ring) × (ring_mpop rq num ≡ some (take num (contents rq), rq'))
          × IsRing k rq'
          × (contents rq' ≡ drop num (contents rq)))
        ⊎ ((used rq < num) × (ring_mpop rq num ≡ some ([], rq)))
  unfolding ring_mpop
  ring_mpop-contents num =
      let most = bounded k v.small in
      let there : minus32 rq.prod_tail rq.cons_head ≡ used rq =
        ap (λ (n : ℕ). minus32 n rq.cons_head) v.produced in
      let idle : (rq.cons_tail == rq.cons_head) ≡ true =
        (nat_beq_iff rq.cons_tail rq.cons_head).1 v.consumed in
      elim (Bool-cases (ltb (minus32 rq.prod_tail rq.cons_head) num)) [
        | inl few ↦ inr (ground (arith, few, there), rw (ring_mpop, few) refl)
        | inr many ↦
            let enough : num ≤ used rq = ground (arith, many, there) in
            let next : ℕ = (rq.cons_head + num) % 2 ^ 32 in
            let less : minus32 rq.prod_head next ≡ used rq - num =
              omega (arith, enough, v.fits, most, v.prod_word, v.cons_word) in
            let on : next % 2 ^ k ≡ (rq.cons_head + num) % 2 ^ k =
              word-mod k (rq.cons_head + num) v.small in
            let parts = get_slots-take k v.small rq.slots rq.cons_head num (used rq) enough in
            let rq' : Ring = record rq {
              num = minus32 rq.num num;
              cons_head = next;
              cons_tail = next;
            } in
            inl (
              enough,
              rq',
              rw (ring_mpop, many, idle)
                  (ap (λ (xs : List ℕ). some (xs, rq')) (rw v.masks (sym parts.0))),
              record {
                small = v.small;
                size = v.size;
                masks = v.masks;
                produced = v.produced;
                consumed = refl;
                prod_word = v.prod_word;
                cons_word = omega arith;
                fits = omega (arith, less, v.fits);
                counted = omega (arith, less, v.counted, enough, v.fits, most);
              },
              rw (less, v.masks)
                  (get_slots-cong k v.small rq.slots next (rq.cons_head + num) (used rq - num) on
                    ∙ sym parts.1),
            )
      ]
