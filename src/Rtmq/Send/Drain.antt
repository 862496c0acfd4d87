-- ===== src/Rtmq/Send/Drain.antt =====
-- A link over any sequence of messages given to it and of times when it is writable: rtmq_rsvr_trav_send of
-- src/clang/lib/rtmq/server/rtmq_rsvr.c.
use beehive_im.Common.{
  ℕ, suc, ◌+◌, ◌≡◌, ◌≤◌, ◌<◌, refl, sym, ap, ◌∙◌, append-nil, append_assoc, Option, none, some,
  List, [], ◌∷◌, ◌++◌, map, arith, length, length-append,
}
use mathlib.Core.List.{map-append}
use beehive_im.Chat.{ok}
use beehive_im.Rtmq.Wire.{Message, head_hton, mesg_hton}
use beehive_im.Rtmq.Recv.Split.{IsMessage}
use beehive_im.Rtmq.Recv.Stream.{AreMessages, concat}
use beehive_im.Rtmq.Send.{Entry, Outbox, concat_rest, trav_send_link}
use beehive_im.Rtmq.Send.Adjust.{origs, Live}
use beehive_im.Rtmq.Send.Flow.{IsOutbox, unsent, history, trav_send_link-unsent}

-- A message is put at the end of `mesg_list`; or the socket is writable, and takes so many bytes.
pub data SendEvent : Type 0 where
  pushed : Message → SendEvent
  writable : ℕ → SendEvent

-- The bytes that went out, and the link; `none` where the server aborted or the link failed.
unfoldable pub send_run : List SendEvent → Outbox → Option (List ℕ × Outbox)
send_run [] out = some ([], out)
send_run (pushed m ∷ events) out =
    send_run events (record out { mesg_list = out.mesg_list ++ (m ∷ []) })
send_run (writable r ∷ events) out = elim (trav_send_link (some r) out) [
  | some (ok, bytes, out') ↦ elim (send_run events out') [
    | some (more, last) ↦ some (bytes ++ more, last)
    | none ↦ none
  ]
  | o ↦ none
]

abbrev pub given : List SendEvent → List Message
given [] = []
given (pushed m ∷ events) = m ∷ given events
given (writable r ∷ events) = given events

concat-append : (xs ys : List (List ℕ)) → concat (xs ++ ys) ≡ concat xs ++ concat ys
concat-append [] ys = refl
concat-append (x ∷ xs) ys = simp (concat-append xs ys, append_assoc)

AreMessages-append :
    (ms : List Message) (m : Message) → AreMessages ms → IsMessage m → AreMessages (ms ++ (m ∷ []))
AreMessages-append [] m a v = (v, tt)
AreMessages-append (x ∷ ms) m a v = (a.0, AreMessages-append ms m a.1 v)

-- Whatever messages a link is given between the times that it is writable, and however few bytes the socket takes, the
-- server does not abort. What went out and what is left are the stream of the link's messages; what was released, the
-- entries and the list are these messages in the order in which they were given; and the entries keep within their
-- array.
pub send_run-stream :
    (events : List SendEvent) (out : Outbox)
    → IsOutbox out
    → AreMessages (given events)
    → (bytes : List ℕ) × (out' : Outbox) × (send_run events out ≡ some (bytes, out'))
      × IsOutbox out'
      × (bytes ++ unsent out' ≡ unsent out ++ concat (map mesg_hton (given events)))
      × (history out' ≡ history out ++ map mesg_hton (given events))
unfolding send_run
send_run-stream [] out v a =
    ([], out, refl, v, sym (append-nil (unsent out)), sym (append-nil (history out)))
send_run-stream (pushed m ∷ events) out v a =
    let next : Outbox = record out { mesg_list = out.mesg_list ++ (m ∷ []) } in
    let v' : IsOutbox next = record {
      messages = AreMessages-append out.mesg_list m v.messages a.0;
      is_wiov = v.is_wiov;
    } in
    let (bytes, out', e, w, flow, order) = send_run-stream events next v' a.1 in
    (
      bytes,
      out',
      e,
      w,
      flow ∙ simp (map-append, concat-append, append_assoc),
      order ∙ simp (map-append, append_assoc),
    )
send_run-stream (writable r ∷ events) out v a =
    let (bytes, next, e, v', flow, order, progress) = trav_send_link-unsent r out v in
    let (more, out', f, w, flows, orders) = send_run-stream events next v' a in
    (
      bytes ++ more,
      out',
      rw (send_run, e, f) refl,
      w,
      append_assoc bytes more (unsent out')
          ∙ ap (λ (rest : List ℕ). bytes ++ rest) flows
          ∙ sym (append_assoc bytes (unsent next) (concat (map mesg_hton (given events))))
          ∙ ap (λ (front : List ℕ). front ++ concat (map mesg_hton (given events))) flow,
      orders ∙ ap (λ l. l ++ map mesg_hton (given events)) order,
    )

abbrev pub Positive : List ℕ → Type 0
Positive [] = Unit {0}
Positive (r ∷ rs) = (0 < r) × Positive rs

no_entries : (xs : List Entry) → Live xs → length (concat_rest xs) ≡ 0 → xs ≡ []
no_entries [] l e = refl
no_entries (x ∷ xs) l e = absurd (omega (arith, l.0, e, length-append x.rest (concat_rest xs)))

no_messages : (ms : List Message) → length (concat (map mesg_hton ms)) ≡ 0 → ms ≡ []
no_messages [] e = refl
no_messages (m ∷ ms) e = absurd (unfold mesg_hton head_hton in omega (arith, e))

no_bytes : (xs : List ℕ) → length xs ≡ 0 → xs ≡ []
no_bytes [] e = refl
no_bytes (x ∷ xs) e = absurd (omega (arith, e))

shorter :
    (all bytes rounds : List ℕ) {left : ℕ}
    → length bytes + left ≡ length all
    → (0 < length all → 0 < length bytes)
    → length all ≤ suc (length rounds)
    → left ≤ length rounds
shorter [] bytes rounds sizes progress enough = omega (arith, sizes)
shorter (x ∷ all) bytes rounds sizes progress enough =
    omega (arith, sizes, enough, progress (omega arith))

-- Where the socket takes a byte at least each time it is writable, a link that is given nothing more has sent all its
-- bytes after as many times as there are bytes, and has released the memory of all its messages.
pub send_run-drains :
    (rounds : List ℕ) (out : Outbox)
    → IsOutbox out
    → Positive rounds
    → length (unsent out) ≤ length rounds
    → (out' : Outbox) × (send_run (map writable rounds) out ≡ some (unsent out, out'))
      × (out'.mesg_list ≡ [])
      × (out'.send.iov ≡ [])
      × (out'.released ≡ history out)
unfolding send_run
send_run-drains [] out v p enough =
    let front = concat_rest out.send.iov in
    let behind = concat (map mesg_hton out.mesg_list) in
    let both = length-append front behind in
    let e : out.send.iov ≡ [] =
      no_entries out.send.iov v.is_wiov.live (omega (arith, enough, both)) in
    let f : out.mesg_list ≡ [] = no_messages out.mesg_list (omega (arith, enough, both)) in
    (
      out,
      ap (λ (b : List ℕ). some (b, out)) (sym (no_bytes (unsent out) (omega (arith, enough)))),
      f,
      e,
      sym (
          ap (λ l. out.released ++ (origs l ++ map mesg_hton out.mesg_list)) e
          ∙ ap (λ l. out.released ++ map mesg_hton l) f
          ∙ append-nil out.released),
    )
send_run-drains (r ∷ rounds) out v p enough =
    let (bytes, next, e, v', flow, order, progress) = trav_send_link-unsent r out v in
    let sizes : length bytes + length (unsent next) ≡ length (unsent out) =
      sym (length-append bytes (unsent next)) ∙ ap length flow in
    let (out', f, g, h, k) =
      send_run-drains rounds next v' p.1
        (shorter (unsent out) bytes rounds sizes (progress p.0) enough) in
    (out', rw (send_run, e, f) (ap (λ (b : List ℕ). some (b, out')) flow), g, h, k ∙ order)
