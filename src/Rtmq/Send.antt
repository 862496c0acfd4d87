-- ===== src/Rtmq/Send.antt =====
-- The sending side of a link: the list of messages to send, src/clang/lib/core/iovec.c, and rtmq_rsvr_wiov_add and
-- rtmq_rsvr_trav_send of src/clang/lib/rtmq/server/rtmq_rsvr.c.
pub mod Adjust
pub mod Flow
pub mod Drain
mod Tests
use Prim.Native.Nat.{min}
use beehive_im.Common.{
  ℕ, zero, suc, ◌+◌, ◌-◌, ◌*◌, Bool, Option, none, some, List, [], ◌∷◌, ◌++◌, if◌then◌else◌, ◌==◌,
  nat_key, leb, ltb, length, take, drop,
}
use beehive_im.Chat.{Status, ok, fail}
use beehive_im.Rtmq.Wire.{Message, head_size, chksum_val, mesg_hton}

-- An entry of `iov` with that of `orig`: what is left to send, and the whole.
pub record Entry : Type 0 where
  pub orig : List ℕ
  pub rest : List ℕ

-- `iov` holds the entries from `iov_idx` up to `iov_cnt`; those before were reset.
pub record Wiov : Type 0 where
  pub iov_max : ℕ
  pub iov_idx : ℕ
  pub iov : List Entry

-- IOV_MAX of limits.h
abbrev pub sys_iov_max : ℕ
sys_iov_max = 1024

abbrev pub wiov_init : ℕ → Wiov
wiov_init max = record {
  iov_max = if ltb sys_iov_max max then sys_iov_max else max;
  iov_idx = 0;
  iov = [];
}

abbrev pub wiov_isfull : Wiov → Bool
wiov_isfull wiov = wiov.iov_max == wiov.iov_idx + length wiov.iov

abbrev pub wiov_isempty : Wiov → Bool
wiov_isempty wiov = wiov.iov_idx + length wiov.iov == 0

abbrev pub wiov_item_add : Wiov → List ℕ → Wiov
wiov_item_add wiov bytes = record wiov {
  iov = wiov.iov ++ (record { orig = bytes; rest = bytes } ∷ []);
}

-- The loop of `wiov_item_adjust` from `iov_idx` on: the entries that `succ` is called for, by how much the index moves,
-- and the entries left.
unfoldable pub adjust : ℕ → ℕ → List Entry → List (List ℕ) × ℕ × List Entry
adjust n len [] = ([], 0, [])
adjust n len (x ∷ xs) =
    let rest = adjust n (len + length x.rest) xs in
    if leb (len + length x.rest) n
    then (x.orig ∷ rest.0, suc rest.1, rest.2)
    else ([], 0, record x { rest = drop (n - len) x.rest } ∷ xs)

unfoldable pub wiov_item_adjust : Wiov → ℕ → List (List ℕ) × Wiov
unfolding adjust
wiov_item_adjust wiov n =
    let (succ, moved, iov) = adjust n 0 wiov.iov in
    (succ, record wiov { iov_idx = if length iov == 0 then 0 else wiov.iov_idx + moved; iov = iov })

-- A link's `mesg_list` and `send`, and the messages whose memory was given back after they were sent.
pub record Outbox : Type 0 where
  pub mesg_list : List Message
  pub send : Wiov
  pub released : List (List ℕ)

-- The `sizeof(rtmq_header_t) + head->length` bytes at the address of a message, once its header is in network order
abbrev pub mesg_bytes : Message → List ℕ
mesg_bytes m = take (head_size + m.head.length) (mesg_hton m)

-- The loop of `rtmq_rsvr_wiov_add`; `none` is `assert(0)`.
unfoldable pub rtmq_rsvr_wiov_add : List Message → Wiov → Option (List Message × Wiov)
rtmq_rsvr_wiov_add [] send = some ([], send)
rtmq_rsvr_wiov_add (m ∷ ms) send =
    let rest = rtmq_rsvr_wiov_add ms (wiov_item_add send (mesg_bytes m)) in
    if wiov_isfull send
    then some (m ∷ ms, send)
    else if m.head.chksum == chksum_val
    then rest
    else none

abbrev pub concat_rest : List Entry → List ℕ
concat_rest [] = []
concat_rest (x ∷ xs) = x.rest ++ concat_rest xs

-- What `rtmq_rsvr_trav_send` does with a link that is writable: whether the link stays, the bytes that went out, the
-- link. `room` is how many bytes the socket takes, of those that it is offered, or `none` where `writev` fails.
unfoldable pub trav_send_link : Option ℕ → Outbox → Option (Status × List ℕ × Outbox)
unfolding wiov_item_adjust
trav_send_link room out = elim (rtmq_rsvr_wiov_add out.mesg_list out.send) [
  | none ↦ none
  | some (ms, send) ↦
      if wiov_isempty send
      then some (ok, [], record out { mesg_list = ms; send = send })
      else elim room [
        | none ↦ some (fail, [], record out { mesg_list = ms; send = send })
        | some r ↦
            let offered = concat_rest send.iov in
            let n = min r (length offered) in
            let (succ, send') = wiov_item_adjust send n in
            some (
              ok,
              take n offered,
              record { mesg_list = ms; send = send'; released = out.released ++ succ },
            )
      ]
]
