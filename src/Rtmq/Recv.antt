-- ===== src/Rtmq/Recv.antt =====
-- The receive buffer of a link: rtmq_rsvr_recv_proc, rtmq_rsvr_data_proc and rtmq_rsvr_switch_recv_buff of
-- src/clang/lib/rtmq/server/rtmq_rsvr.c. The handlers of a message are an argument.
pub mod Split
pub mod Consume
pub mod Stream
pub mod Bounds
mod Tests
use Prim.Native.Nat.{min}
use beehive_im.Common.{
  ℕ, zero, suc, ◌+◌, ◌-◌, ◌%◌, ◌^◌, Bool, true, false, List, [], ◌∷◌, ◌++◌, if◌then◌else◌, ◌==◌,
  nat_key, leb, length, take, drop,
}
use beehive_im.Rtmq.Wire.{Header, Message, head_size, chksum_val, ntohl, head_ntoh}

-- `optr - base`, and the bytes from `optr` to `iptr`.
pub record Snap : Type 0 where
  pub optr : ℕ
  pub pending : List ℕ

-- What the bytes from `optr` on begin with: part of a message; a header with another checksum; a header with a
-- length so large that that of the message wraps in 32 bits; or a message, and what follows it.
pub data Cut : Type 0 where
  short bad_chksum wrapped : Cut
  whole : Message → List ℕ → Cut

unfoldable pub next_mesg : List ℕ → Cut
unfolding head_ntoh
next_mesg bytes =
    let head = head_ntoh bytes in
    if leb head_size (length bytes)
    then if head.chksum == chksum_val
      then if leb ((head_size + head.length) % 2 ^ 32) (length bytes)
        then if leb (2 ^ 32) (head_size + head.length)
          then wrapped
          else whole (record { head = head; body = take head.length (drop head_size bytes) })
              (drop head.length (drop head_size bytes))
        else short
      else bad_chksum
    else short

-- What `read` finds: up to so many bytes of the stream that came in, the end of the stream, or a failure, by `errno`.
pub data Answer : Type 0 where
  got : ℕ → Answer
  eof again interrupted broken : Answer

-- How the receive functions end: the link waits for more; it failed, RTMQ_ERR; it was closed; the server
-- aborted at `assert(0)`; a handler was called
-- with a message that goes beyond the buffer; or the rounds given did not do.
pub data Outcome (S : Type 0) : Type 0 where
  waits : Snap → S → Outcome S
  failed : S → Outcome S
  closed : S → Outcome S
  aborted : Outcome S
  overrun : Outcome S
  stuck : Outcome S

-- A link that waits goes on.
abbrev pub proceed : {S : Type 0} → Outcome S → (Snap → S → Outcome S) → Outcome S
proceed (waits snap s) next = next snap s
proceed (failed s) next = failed s
proceed (closed s) next = closed s
proceed aborted next = aborted
proceed overrun next = overrun
proceed stuck next = stuck

-- RTMQ_BUFF_SIZE is `size`. `handle` says whether a message fails the link.
module _ {S : Type 0} (size : ℕ) (handle : S → Message → Bool × S) where
  -- The part of `rtmq_rsvr_data_proc` for less than a message, with `rtmq_rsvr_switch_recv_buff`. The test that is
  -- to prevent overwriting compares an offset with `end - iptr`, which is 0 here, and never holds.
  unfoldable pub switch_recv_buff : Snap → Snap
  switch_recv_buff snap =
      if snap.optr + length snap.pending == size then record snap { optr = 0 } else snap

  unfoldable pub data_proc : ℕ → Snap → S → Outcome S
  unfolding switch_recv_buff
  data_proc zero snap s = stuck
  data_proc (suc fuel) snap s = elim (next_mesg snap.pending) [
    | short ↦ waits (switch_recv_buff snap) s
    | bad_chksum ↦ aborted
    | wrapped ↦ overrun
    | whole m rest ↦ elim (handle s m).0 [
      | true ↦ failed (handle s m).1
      | false ↦
          data_proc fuel (record { optr = snap.optr + (head_size + m.head.length); pending = rest })
            (handle s m).1
    ]
  ]

  -- `end - iptr`
  abbrev pub left_of : Snap → ℕ
  left_of snap = size - (snap.optr + length snap.pending)

  -- `rtmq_rsvr_recv_proc`, by what `read` finds each time; `wire` is what the peer sent and was not read yet. A read of no
  -- bytes, into a full buffer, gives 0 like the end of the stream; where nothing is there, it fails by EAGAIN. Where the
  -- answers given end, the link waits.
  unfoldable pub recv_proc : List Answer → List ℕ → Snap → S → Outcome S
  recv_proc [] wire snap s = waits snap s
  recv_proc (eof ∷ answers) wire snap s = closed s
  recv_proc (again ∷ answers) wire snap s = waits snap s
  recv_proc (interrupted ∷ answers) wire snap s = recv_proc answers wire snap s
  recv_proc (broken ∷ answers) wire snap s = failed s
  recv_proc (got n ∷ answers) wire snap s =
      let bytes = take (min n (left_of snap)) wire in
      let pending = snap.pending ++ bytes in
      elim (left_of snap == 0) [
        | true ↦ closed s
        | false ↦ elim (length bytes == 0) [
          | true ↦ waits snap s
          | false ↦
              proceed (data_proc (suc (length pending)) (record snap { pending = pending }) s)
                (recv_proc answers (drop (min n (left_of snap)) wire))
        ]
      ]
