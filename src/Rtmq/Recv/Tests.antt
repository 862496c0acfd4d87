-- ===== src/Rtmq/Recv/Tests.antt =====
-- The theorems of the receive buffer at concrete inputs.
use beehive_im.Common.{
  ℕ, ◌≡◌, Bool, false, List, [], ◌∷◌, ◌++◌, map, arith, refl, length, replicate,
}
use beehive_im.Rtmq.Wire.{Message, chksum_val, head_hton, mesg_hton}
use beehive_im.Rtmq.Recv.{Snap, next_mesg, got, data_proc, recv_proc}
use beehive_im.Rtmq.Recv.Stream.{AreMessages, encoded, recv_proc-deliver}
use beehive_im.Rtmq.Recv.Consume.{view, keeps}
use beehive_im.Rtmq.Recv.Bounds.{Fits, recv_proc-Fits}

abbrev mesg_of : ℕ → List ℕ → Message
mesg_of type body = record {
  head = record { type = type; nid = 7; flag = 1; length = length body; chksum = chksum_val };
  body = body;
}

-- Two messages, the second without a body.
abbrev sent : List Message
sent = mesg_of 0x0301 (10 ∷ 11 ∷ 12 ∷ []) ∷ mesg_of 0x0302 [] ∷ []

sent-AreMessages : AreMessages sent
sent-AreMessages = (
  record {
    type_fits = omega arith;
    nid_fits = omega arith;
    flag_fits = omega arith;
    sized = refl;
    fits = omega arith;
    checked = refl;
  },
  (
    record {
      type_fits = omega arith;
      nid_fits = omega arith;
      flag_fits = omega arith;
      sized = refl;
      fits = omega arith;
      checked = refl;
    },
    tt,
  ),
)

-- A handler that notes the messages and never fails.
abbrev note : List Message → Message → Bool × List Message
note s m = (false, s ++ (m ∷ []))

-- The 43 bytes of the stream in several reads, the first of which do not end with a message
abbrev reads : List ℕ
reads = 7 ∷ 18 ∷ 17 ∷ replicate 40 1

recv_proc-deliver_example :
    view (recv_proc 64 note (map got reads) (encoded sent) (record { optr = 0; pending = [] }) [])
    ≡ keeps [] sent
recv_proc-deliver_example =
    recv_proc-deliver note 64 sent reads [] (omega arith) sent-AreMessages (ground arith)
      (ground arith) (unfold mesg_hton head_hton in omega arith)

-- A read of four bytes was kept before.
abbrev begun : Snap
begun = record { optr = 4; pending = 0 ∷ 0 ∷ 3 ∷ 1 ∷ [] }

recv_proc-Fits_example : Fits 24 (record { optr = 4; pending = 0 ∷ 0 ∷ 3 ∷ 1 ∷ 0 ∷ 0 ∷ 0 ∷ [] })
unfolding recv_proc data_proc next_mesg
recv_proc-Fits_example =
    recv_proc-Fits 24 note (got 5 ∷ []) (0 ∷ 0 ∷ 0 ∷ []) begun
      (record { optr = 4; pending = 0 ∷ 0 ∷ 3 ∷ 1 ∷ 0 ∷ 0 ∷ 0 ∷ [] }) [] [] (omega arith) refl
