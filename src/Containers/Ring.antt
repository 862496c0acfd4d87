-- ===== src/Containers/Ring.antt =====
-- The ring queue: src/clang/lib/core/ring.c, types of src/clang/incl/ring.h, and power2 of src/clang/lib/core/comm.c.
-- One thread at a time: the counters do not move between a read and the exchange of them.
pub mod Slots
pub mod Queue
pub mod Creat
mod Tests
use Prim.Native.Nat.{bit_and}
use beehive_im.Common.{
  ℕ, zero, suc, ◌+◌, ◌-◌, ◌*◌, ◌/◌, ◌%◌, ◌^◌, Bool, true, false, Option, none, some, List, [], ◌∷◌,
  if◌then◌else◌, ◌==◌, nat_key, leb, ltb, length,
}
use beehive_im.Chat.{Status, ok, fail}

-- A pointer is a number, NULL is 0. The counters are unsigned ints.
pub record Ring : Type 0 where
  pub max : ℕ
  pub mask : ℕ
  pub num : ℕ
  pub slots : ℕ → ℕ
  pub prod_head : ℕ
  pub prod_tail : ℕ
  pub cons_head : ℕ
  pub cons_tail : ℕ

-- The index of the highest bit of `v` among those from `i` on, or else `idx`; `n` bits are left
abbrev pub top_bit : ℕ → ℕ → ℕ → ℕ → ℕ
top_bit zero v i idx = idx
top_bit (suc n) v i idx = top_bit n v (suc i) (if v / 2 ^ i % 2 == 1 then i else idx)

-- For `v` from 1 on.
abbrev pub power2 : ℕ → ℕ
power2 v = if bit_and (v - 1) v == 0 then v else 2 ^ (top_bit 32 v 0 0 + 1)

unfoldable pub ring_creat : ℕ → Ring
ring_creat max = record {
  max = power2 max;
  mask = power2 max - 1;
  num = 0;
  slots = λ i. 0;
  prod_head = 0;
  prod_tail = 0;
  cons_head = 0;
  cons_tail = 0;
}

-- A difference of unsigned ints
abbrev pub minus32 : ℕ → ℕ → ℕ
minus32 a b = (a + (2 ^ 32 - b)) % 2 ^ 32

abbrev pub put_slots : (ℕ → ℕ) → ℕ → ℕ → List ℕ → ℕ → ℕ
put_slots slots mask head [] = slots
put_slots slots mask head (a ∷ addr) =
    let at = bit_and (head % 2 ^ 32) mask in
    put_slots (λ j. if at == j then a else slots j) mask (suc head) addr

abbrev pub get_slots : (ℕ → ℕ) → ℕ → ℕ → ℕ → List ℕ
get_slots slots mask head zero = []
get_slots slots mask head (suc num) =
    slots (bit_and (head % 2 ^ 32) mask) ∷ get_slots slots mask (suc head) num

-- The wait for earlier producers would not end where there are none: `none`.
unfoldable pub ring_mpush : Ring → List ℕ → Option (Status × Ring)
ring_mpush rq addr =
    let num = length addr in
    let next = (rq.prod_head + num) % 2 ^ 32 in
    if ltb (minus32 ((rq.max + rq.cons_tail) % 2 ^ 32) rq.prod_head) num
    then some (fail, rq)
    else if rq.prod_tail == rq.prod_head
    then some (
      ok,
      record rq {
        num = (rq.num + num) % 2 ^ 32;
        slots = put_slots rq.slots rq.mask rq.prod_head addr;
        prod_head = next;
        prod_tail = next;
      },
    )
    else none

-- What was popped, nothing where 0 is returned
unfoldable pub ring_mpop : Ring → ℕ → Option (List ℕ × Ring)
ring_mpop rq num =
    let next = (rq.cons_head + num) % 2 ^ 32 in
    if ltb (minus32 rq.prod_tail rq.cons_head) num
    then some ([], rq)
    else if rq.cons_tail == rq.cons_head
    then some (
      get_slots rq.slots rq.mask rq.cons_head num,
      record rq { num = minus32 rq.num num; cons_head = next; cons_tail = next },
    )
    else none

abbrev pub ring_push : Ring → ℕ → Option (Status × Ring)
ring_push rq addr = ring_mpush rq (addr ∷ [])

unfoldable pub ring_pop : Ring → Option (ℕ × Ring)
ring_pop rq = elim (ring_mpop rq 1) [
  | none ↦ none
  | some ([], rq') ↦ some (0, rq')
  | some (a ∷ addr, rq') ↦ some (a, rq')
]
