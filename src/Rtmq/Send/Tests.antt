-- ===== src/Rtmq/Send/Tests.antt =====
-- The theorems of the sending side at concrete inputs.
use beehive_im.Common.{ℕ, ◌≡◌, none, some, List, [], ◌∷◌, ◌++◌, map, arith, refl, length, replicate}
use beehive_im.Rtmq.Wire.{Message, head_hton, mesg_hton, chksum_val}
use beehive_im.Rtmq.Recv.Stream.{AreMessages, concat}
use beehive_im.Rtmq.Send.{Outbox, wiov_init, trav_send_link, adjust, rtmq_rsvr_wiov_add}
use beehive_im.Rtmq.Send.Flow.{IsOutbox, unsent, history}
use beehive_im.Rtmq.Send.Drain.{pushed, writable, send_run, send_run-stream, send_run-drains}

abbrev mesg_of : List ℕ → Message
mesg_of body = record {
  head = record { type = 0x0301; nid = 7; flag = 1; length = length body; chksum = chksum_val };
  body = body;
}

-- A link with room for one entry at a time
abbrev narrow : Outbox
narrow = record { mesg_list = []; send = wiov_init 1; released = [] }

narrow-IsOutbox : IsOutbox narrow
narrow-IsOutbox = record {
  messages = tt;
  is_wiov = record { fits = omega arith; some_room = omega arith; rewound = λ e. refl; live = tt };
}

abbrev two : List Message
two = mesg_of (10 ∷ 11 ∷ 12 ∷ []) ∷ mesg_of [] ∷ []

two-AreMessages : AreMessages two
two-AreMessages = ground arith

send_run-stream_example :
    (bytes : List ℕ) × (out' : Outbox) × (send_run
        (pushed (mesg_of (10 ∷ 11 ∷ 12 ∷ [])) ∷ writable 5 ∷ pushed (mesg_of []) ∷ writable 30 ∷ [])
        narrow
      ≡ some (bytes, out'))
    × IsOutbox out'
    × (bytes ++ unsent out' ≡ concat (map mesg_hton two))
    × (history out' ≡ map mesg_hton two)
send_run-stream_example =
    send_run-stream
      (pushed (mesg_of (10 ∷ 11 ∷ 12 ∷ [])) ∷ writable 5 ∷ pushed (mesg_of []) ∷ writable 30 ∷ [])
      narrow narrow-IsOutbox two-AreMessages

abbrev loaded : Outbox
loaded = record narrow { mesg_list = two }

loaded-IsOutbox : IsOutbox loaded
loaded-IsOutbox = record { messages = two-AreMessages; is_wiov = narrow-IsOutbox.is_wiov }

-- 43 bytes, one at a time
abbrev slow : List ℕ
slow = replicate 43 1

send_run-drains_example :
    (out' : Outbox) × (send_run (map writable slow) loaded ≡ some (unsent loaded, out'))
    × (out'.mesg_list ≡ [])
    × (out'.send.iov ≡ [])
    × (out'.released ≡ history loaded)
send_run-drains_example =
    send_run-drains slow loaded loaded-IsOutbox (ground arith)
      (unfold mesg_hton head_hton in omega arith)

-- The first message goes out in two parts.
send_run_parts :
    ◌≡◌ {A = ℕ}
      (elim (send_run (writable 5 ∷ writable 30 ∷ []) loaded) [
        | some (bytes, out') ↦ length bytes
        | none ↦ 0
      ])
      23
unfolding send_run trav_send_link adjust rtmq_rsvr_wiov_add mesg_hton head_hton
send_run_parts = refl
