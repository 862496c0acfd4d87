-- ===== src/Rtmq/Recv/Bounds.antt =====
-- The receive buffer does not overflow: rtmq_rsvr_data_proc and rtmq_rsvr_switch_recv_buff of
-- src/clang/lib/rtmq/server/rtmq_rsvr.c.
use Prim.Native.Nat.{min}
use beehive_im.Common.{
  ℕ, zero, suc, ◌+◌, ◌≡◌, ◌≤◌, ◌<◌, ◌⊎◌, refl, Bool, Bool-cases, List, [], ◌∷◌, ◌++◌, nat_key,
  nat_beq_iff, ◌==◌, length, length-append, length-take, take, drop, arith, inl, inr,
}
use beehive_im.Rtmq.Wire.{Message, head_size}
use beehive_im.Rtmq.Recv.{
  Snap, short, next_mesg, Answer, got, eof, again, interrupted, broken, Outcome, waits, failed,
  closed, aborted, overrun, stuck, proceed, left_of, switch_recv_buff, data_proc, recv_proc,
}
use beehive_im.Rtmq.Recv.Split.{next_mesg_whole}
use beehive_im.Rtmq.Recv.Consume.{Cut-cases}

-- `iptr <= end`
abbrev pub Fits : ℕ → Snap → Type 0
Fits size snap = snap.optr + length snap.pending ≤ size

module _ {S : Type 0} (size : ℕ) (handle : S → Message → Bool × S) where
  -- A link that waits after its messages were handled has its bytes within the buffer. It has room for the next read,
  -- unless the buffer is full of part of a message.
  pub data_proc-Fits :
      (n : ℕ) (snap snap' : Snap) (s s' : S)
      → Fits size snap
      → data_proc size handle n snap s ≡ waits snap' s'
      → Fits size snap'
        × ((snap'.optr + length snap'.pending < size)
            ⊎ ((length snap'.pending ≡ size) × (next_mesg snap'.pending ≡ short)))
  unfolding data_proc switch_recv_buff
  data_proc-Fits zero snap snap' s s' fits h = absurd (cc)
  data_proc-Fits (suc n) snap snap' s s' fits h = elim (Cut-cases (next_mesg snap.pending)) [
    | inl e ↦ ground (arith, h, e, fits, nat_beq_iff (snap.optr + length snap.pending) size)
    | inr (inl e) ↦ ground (arith, h, e)
    | inr (inr (inl e)) ↦ ground (arith, h, e)
    | inr (inr (inr (m, rest, e))) ↦
        let less = next_mesg_whole snap.pending m rest e in
        let next : Snap = record {
          optr = snap.optr + (head_size + m.head.length);
          pending = rest;
        } in
        elim (Bool-cases (handle s m).0) [
          | inl stop ↦ absurd (ground (arith, h, e, stop))
          | inr go ↦
              data_proc-Fits n next snap' (handle s m).1 s' (omega (arith, fits, less))
                (rw (e, data_proc, go) at h)
        ]
  ]

  went_on :
      (o : Outcome S) (k : Snap → S → Outcome S) (snap' : Snap) (s' : S)
      → ((snap1 : Snap) (s1 : S)
          → o ≡ waits snap1 s1
          → k snap1 s1 ≡ waits snap' s'
          → Fits size snap')
      → proceed o k ≡ waits snap' s'
      → Fits size snap'
  went_on (waits snap1 s1) k snap' s' f h = f snap1 s1 refl h
  went_on (failed s) k snap' s' f h = absurd (cc)
  went_on (closed s) k snap' s' f h = absurd (cc)
  went_on aborted k snap' s' f h = absurd (cc)
  went_on overrun k snap' s' f h = absurd (cc)
  went_on stuck k snap' s' f h = absurd (cc)

  -- Where the bytes of a link are within its buffer, then however much comes in at a time, they stay within it: what the reads leave there when the link waits ends
  -- no later than the buffer does, whatever the peer sends.
  pub recv_proc-Fits :
      (answers : List Answer) (wire : List ℕ) (snap snap' : Snap) (s s' : S)
      → Fits size snap
      → recv_proc size handle answers wire snap s ≡ waits snap' s'
      → Fits size snap'
  unfolding recv_proc
  recv_proc-Fits [] wire snap snap' s s' fits h = ground (arith, h, fits)
  recv_proc-Fits (eof ∷ answers) wire snap snap' s s' fits h = absurd (cc)
  recv_proc-Fits (again ∷ answers) wire snap snap' s s' fits h = ground (arith, h, fits)
  recv_proc-Fits (interrupted ∷ answers) wire snap snap' s s' fits h =
      recv_proc-Fits answers wire snap snap' s s' fits h
  recv_proc-Fits (broken ∷ answers) wire snap snap' s s' fits h = absurd (cc)
  recv_proc-Fits (got n ∷ answers) wire snap snap' s s' fits h =
      let bytes = take (min n (left_of size handle snap)) wire in
      let next : Snap = record snap { pending = snap.pending ++ bytes } in
      let few = length-take (min n (left_of size handle snap)) wire in
      let within : Fits size next = omega (arith, fits, few, length-append snap.pending bytes) in
      elim (Bool-cases (left_of size handle snap == 0)) [
        | inl full ↦ absurd (ground (arith, h, full))
        | inr room ↦ elim (Bool-cases (length bytes == 0)) [
          | inl none_ ↦ ground (arith, h, fits, room, none_)
          | inr some_ ↦
              went_on (data_proc size handle (suc (length next.pending)) next s)
                (recv_proc size handle answers (drop (min n (left_of size handle snap)) wire)) snap'
                s'
                (λ snap1 s1 e.
                  recv_proc-Fits answers (drop (min n (left_of size handle snap)) wire) snap1 snap'
                    s1 s' (data_proc-Fits (suc (length next.pending)) next snap1 s s1 within e).0)
                (rw (recv_proc, room, some_) at h)
        ]
      ]
