-- ===== src/Rtmq/Send/Flow.antt =====
-- What a link sends is the stream of the messages it was given: rtmq_rsvr_wiov_add and rtmq_rsvr_trav_send of
-- src/clang/lib/rtmq/server/rtmq_rsvr.c.
use Prim.Native.Nat.{min}
use mathlib.Core.List.{map-append}
use beehive_im.Common.{
  true, ℕ, zero, suc, ◌+◌, ◌≡◌, ◌≤◌, ◌<◌, refl, sym, ap, ◌∙◌, append-nil, append_assoc, Bool-cases,
  some, List, [], ◌∷◌, ◌++◌, map, arith, inl, inr, ◌==◌, nat_key, nat_beq_iff, length, take,
  length-append, length-take,
}
use beehive_im.Chat.{ok}
use beehive_im.Rtmq.Wire.{Message, head_size, chksum_val, head_hton, mesg_hton}
use beehive_im.Rtmq.Recv.Split.{IsMessage}
use beehive_im.Rtmq.Recv.Stream.{AreMessages, concat}
use beehive_im.Rtmq.Send.{
  Entry, Wiov, wiov_isfull, wiov_isempty, wiov_item_add, wiov_item_adjust, Outbox, mesg_bytes,
  rtmq_rsvr_wiov_add, concat_rest, trav_send_link, adjust,
}
use beehive_im.Rtmq.Send.Adjust.{
  origs, Live, Live-append, adjust-Live, concat_rest-append, adjust-sent, adjust-origs,
  adjust-moved,
}

take_all : {A : Type 0} (n : ℕ) (xs : List A) → n ≡ length xs → take n xs ≡ xs
take_all zero [] h = refl
take_all (suc n) [] h = absurd (omega (arith, h))
take_all zero (x ∷ xs) h = absurd (omega (arith, h))
take_all (suc n) (x ∷ xs) h = ap (λ ys. x ∷ ys) (take_all n xs (omega (arith, h)))

mesg_bytes_lem : (m : Message) → IsMessage m → mesg_bytes m ≡ mesg_hton m
unfolding mesg_hton head_hton
mesg_bytes_lem m v = take_all (head_size + m.head.length) (mesg_hton m) (omega (arith, v.sized))

-- The array of entries has room for them, and is used from its start when it is empty.
pub record IsWiov (send : Wiov) : Type 0 where
  pub fits : send.iov_idx + length send.iov ≤ send.iov_max
  pub some_room : 0 < send.iov_max
  pub rewound : length send.iov ≡ 0 → send.iov_idx ≡ 0
  pub live : Live send.iov

-- How entries are filled: nothing is lost or reordered, and something is offered if there is anything.
record Fills (ms : List Message) (send : Wiov) (ms' : List Message) (send' : Wiov) : Type 0 where
  rest :
      concat_rest send'.iov ++ concat (map mesg_hton ms')
      ≡ concat_rest send.iov ++ concat (map mesg_hton ms)
  whole : origs send'.iov ++ map mesg_hton ms' ≡ origs send.iov ++ map mesg_hton ms
  messages : AreMessages ms'
  is_wiov : IsWiov send'
  offered : length send'.iov ≡ 0 → length ms' ≡ 0

wiov_add-Fills :
    (ms : List Message) (send : Wiov)
    → AreMessages ms
    → IsWiov send
    → (ms' : List Message) × (send' : Wiov) × (rtmq_rsvr_wiov_add ms send ≡ some (ms', send'))
      × Fills ms send ms' send'
unfolding rtmq_rsvr_wiov_add
wiov_add-Fills [] send a w = (
  [],
  send,
  refl,
  record { rest = refl; whole = refl; messages = a; is_wiov = w; offered = λ e. refl },
)
wiov_add-Fills (m ∷ ms) send a w = elim (Bool-cases (wiov_isfull send)) [
  | inl full ↦ (
    m ∷ ms,
    send,
    rw full refl,
    record {
      rest = refl;
      whole = refl;
      messages = a;
      is_wiov = w;
      offered = λ e. absurd (ground (arith, full, e, w.rewound e, w.some_room));
    },
  )
  | inr open_ ↦
      let next : Wiov = wiov_item_add send (mesg_bytes m) in
      let longer : length next.iov ≡ length send.iov + 1 =
        length-append send.iov (record { orig = mesg_bytes m; rest = mesg_bytes m } ∷ [])
        ∙ omega arith in
      let filled : 0 < length (mesg_bytes m) =
        rw (mesg_bytes_lem m a.0) (unfold mesg_hton head_hton in omega arith) in
      let w' : IsWiov next = record {
        fits = ground (arith, open_, w.fits, longer);
        some_room = w.some_room;
        rewound = λ e. absurd (omega (arith, e, longer));
        live = Live-append send.iov _ w.live (filled, tt);
      } in
      let (ms', send', e, f) = wiov_add-Fills ms next a.1 w' in
      let checked : (m.head.chksum == chksum_val) ≡ true =
        (nat_beq_iff m.head.chksum chksum_val).1 a.0.checked in
      (
        ms',
        send',
        rw (open_, checked) e,
        record {
          rest = f.rest ∙ simp (concat_rest-append, append_assoc, append-nil, mesg_bytes_lem m a.0);
          whole = f.whole ∙ simp (map-append, append_assoc, mesg_bytes_lem m a.0);
          messages = f.messages;
          is_wiov = f.is_wiov;
          offered = f.offered;
        },
      )
]

pub record IsOutbox (out : Outbox) : Type 0 where
  pub messages : AreMessages out.mesg_list
  pub is_wiov : IsWiov out.send

-- The bytes that still have to go out.
abbrev pub unsent : Outbox → List ℕ
unsent out = concat_rest out.send.iov ++ concat (map mesg_hton out.mesg_list)

-- All messages of the link in the order that they were given in: those that were released, those in the entries, and
-- those in the list.
abbrev pub history : Outbox → List (List ℕ)
history out = out.released ++ (origs out.send.iov ++ map mesg_hton out.mesg_list)

nothing :
    (xs : List Entry) (ms : List Message)
    → length xs ≡ 0
    → length ms ≡ 0
    → length (concat_rest xs ++ concat (map mesg_hton ms)) ≡ 0
nothing [] [] e f = refl
nothing [] (m ∷ ms) e f = absurd (omega (arith, f))
nothing (x ∷ xs) ms e f = absurd (omega (arith, e))

something : (xs : List Entry) → Live xs → 0 < length xs → 0 < length (concat_rest xs)
something [] l h = absurd (omega (arith, h))
something (x ∷ xs) l h = omega (arith, l.0, length-append x.rest (concat_rest xs))

adjust-IsWiov : (send : Wiov) (n : ℕ) → IsWiov send → IsWiov (wiov_item_adjust send n).1
unfolding wiov_item_adjust
adjust-IsWiov send n w = record {
  fits = ground (arith, adjust-moved n 0 send.iov, w.fits);
  some_room = w.some_room;
  rewound = λ e. ground (arith, e);
  live = adjust-Live n 0 send.iov (omega arith) w.live;
}

-- What a writable link does with the bytes that the socket takes: they are the next of the stream, nothing is lost, and
-- the entries stay in their array. At least one byte goes out if the socket takes one and any is left.
pub trav_send_link-unsent :
    (r : ℕ) (out : Outbox)
    → IsOutbox out
    → (bytes : List ℕ) × (out' : Outbox) × (trav_send_link (some r) out ≡ some (ok, bytes, out'))
      × IsOutbox out'
      × (bytes ++ unsent out' ≡ unsent out)
      × (history out' ≡ history out)
      × (0 < r → 0 < length (unsent out) → 0 < length bytes)
unfolding trav_send_link
trav_send_link-unsent r out v =
    let (ms, send, e, f) = wiov_add-Fills out.mesg_list out.send v.messages v.is_wiov in
    elim (Bool-cases (wiov_isempty send)) [
      | inl empty ↦ (
        [],
        record out { mesg_list = ms; send = send },
        rw (trav_send_link, e, empty) refl,
        record { messages = f.messages; is_wiov = f.is_wiov },
        f.rest,
        ap (λ (l : List (List ℕ)). out.released ++ l) f.whole,
        λ takes left.
            let none_left : length send.iov ≡ 0 = ground (arith, empty) in
            absurd (
              omega (
                arith,
                left,
                ap length f.rest,
                nothing send.iov ms none_left (f.offered none_left),
              )),
      )
      | inr some_ ↦
          let offered = concat_rest send.iov in
          let n = min r (length offered) in
          (
            take n offered,
            record {
              mesg_list = ms;
              send = (wiov_item_adjust send n).1;
              released = out.released ++ (wiov_item_adjust send n).0;
            },
            rw (trav_send_link, e, some_) refl,
            record { messages = f.messages; is_wiov = adjust-IsWiov send n f.is_wiov },
            sym (
                  append_assoc (take n offered) (concat_rest (adjust n 0 send.iov).2)
                    (concat (map mesg_hton ms)))
                ∙ ap (λ (all : List ℕ). all ++ concat (map mesg_hton ms)) (adjust-sent n send.iov)
                ∙ f.rest,
            append_assoc out.released (adjust n 0 send.iov).0 _
                ∙ ap (λ l. out.released ++ l)
                    (sym (
                        append_assoc (adjust n 0 send.iov).0 (origs (adjust n 0 send.iov).2)
                          (map mesg_hton ms))
                      ∙ ap (λ l. l ++ map mesg_hton ms) (adjust-origs n 0 send.iov)
                      ∙ f.whole),
            λ takes left.
                let more : 0 < length send.iov = ground (arith, some_, f.is_wiov.rewound) in
                omega (arith, takes, something send.iov f.is_wiov.live more, length-take n offered),
          )
    ]
