-- ===== src/Rtmq/Recv/Split.antt =====
-- Cutting messages off the bytes received: the tests of rtmq_rsvr_data_proc, src/clang/lib/rtmq/server/rtmq_rsvr.c.
use mathlib.Core.Path.{subst}
use beehive_im.Common.{
  ℕ, ◌+◌, ◌^◌, ◌≡◌, ◌≤◌, ◌<◌, refl, Bool-cases, List, [], ◌∷◌, ◌++◌, nat_key, leb, length, take,
  drop, arith, inl, inr, length-append, length-drop, drop-append, take-append, take-length,
  drop-length,
}
use beehive_im.Rtmq.Wire.{
  Message, head_size, chksum_val, ntohl, htonl, head_ntoh, head_hton, mesg_hton,
}
use beehive_im.Rtmq.Recv.{Cut, short, bad_chksum, wrapped, whole, next_mesg}

ntohl-append : (xs ys : List ℕ) → 4 ≤ length xs → ntohl (xs ++ ys) ≡ ntohl xs
ntohl-append [] ys h = absurd (omega (arith, h))
ntohl-append (a ∷ []) ys h = absurd (omega (arith, h))
ntohl-append (a ∷ b ∷ []) ys h = absurd (omega (arith, h))
ntohl-append (a ∷ b ∷ c ∷ []) ys h = absurd (omega (arith, h))
ntohl-append (a ∷ b ∷ c ∷ d ∷ xs) ys h = refl

field-append :
    (n : ℕ) (xs ys : List ℕ) → n + 4 ≤ length xs → ntohl (drop n (xs ++ ys)) ≡ ntohl (drop n xs)
field-append n xs ys h =
    rw (drop-append n xs ys (omega (arith, h)))
      (ntohl-append (drop n xs) ys (omega (arith, h, length-drop n xs)))

head_ntoh-append : (xs ys : List ℕ) → head_size ≤ length xs → head_ntoh (xs ++ ys) ≡ head_ntoh xs
unfolding head_ntoh
head_ntoh-append xs ys h = λ i. record {
  type = field-append 0 xs ys (omega (arith, h)) i;
  nid = field-append 4 xs ys (omega (arith, h)) i;
  flag = field-append 8 xs ys (omega (arith, h)) i;
  length = field-append 12 xs ys (omega (arith, h)) i;
  chksum = field-append 16 xs ys (omega (arith, h)) i;
}

-- What follows in the stream when more comes in behind.
abbrev pub behind : Cut → List ℕ → Cut → Cut
behind short more later = later
behind bad_chksum more later = bad_chksum
behind wrapped more later = wrapped
behind (whole m rest) more later = whole m (rest ++ more)

-- What was cut stays cut when more bytes come in.
pub next_mesg-append :
    (xs ys : List ℕ) → next_mesg (xs ++ ys) ≡ behind (next_mesg xs) ys (next_mesg (xs ++ ys))
unfolding next_mesg
next_mesg-append xs ys = elim (Bool-cases (leb head_size (length xs))) [
  | inr no_head ↦ rw no_head refl
  | inl has_head ↦
      let enough : head_size ≤ length xs = ground (arith, has_head) in
      let n = (head_ntoh xs).length in
      let same = head_ntoh-append xs ys enough in
      let longer = length-append xs ys in
      ground (
        arith,
        enough,
        same,
        longer,
        length-drop head_size xs,
        drop-append head_size xs ys,
        drop-append n (drop head_size xs) ys,
        take-append n (drop head_size xs) ys,
      )
]

-- A message that was cut off, with the bytes that are left.
pub next_mesg_whole :
    (xs : List ℕ) (m : Message) (rest : List ℕ)
    → next_mesg xs ≡ whole m rest
    → head_size + m.head.length + length rest ≡ length xs
unfolding next_mesg
next_mesg_whole xs m rest h =
    ground
      (arith, h, length-drop head_size xs, length-drop (head_ntoh xs).length (drop head_size xs))

-- A message that can be sent: its fields are words, its length is that of its body and does not wrap with that of the
-- header, and its checksum is the one agreed.
pub record IsMessage (m : Message) : Type 0 where
  pub type_fits : m.head.type < 2 ^ 32
  pub nid_fits : m.head.nid < 2 ^ 32
  pub flag_fits : m.head.flag < 2 ^ 32
  pub sized : length m.body ≡ m.head.length
  pub fits : head_size + m.head.length < 2 ^ 32
  pub checked : m.head.chksum ≡ chksum_val

pub ntohl-htonl : (n : ℕ) (rest : List ℕ) → n < 2 ^ 32 → ntohl (htonl n ++ rest) ≡ n
ntohl-htonl n rest h = omega (arith, h)

head_ntoh-mesg_hton :
    (m : Message) (rest : List ℕ) → IsMessage m → head_ntoh (mesg_hton m ++ rest) ≡ m.head
unfolding head_ntoh mesg_hton head_hton
head_ntoh-mesg_hton m rest v = λ i. record {
  type = ntohl-htonl m.head.type [] v.type_fits i;
  nid = ntohl-htonl m.head.nid [] v.nid_fits i;
  flag = ntohl-htonl m.head.flag [] v.flag_fits i;
  length = ntohl-htonl m.head.length [] (omega (arith, v.fits)) i;
  chksum = ntohl-htonl m.head.chksum [] (omega (arith, v.checked)) i;
}

-- The server cuts off the message that was sent, and leaves what follows it.
pub next_mesg-mesg_hton :
    (m : Message) (rest : List ℕ) → IsMessage m → next_mesg (mesg_hton m ++ rest) ≡ whole m rest
unfolding next_mesg
next_mesg-mesg_hton m rest v =
    let bytes = mesg_hton m ++ rest in
    let same = head_ntoh-mesg_hton m rest v in
    let behind_head : drop head_size (mesg_hton m ++ rest) ≡ m.body ++ rest =
      unfold mesg_hton head_hton in refl in
    let longer : length (mesg_hton m ++ rest) ≡ head_size + length (m.body ++ rest) =
      unfold mesg_hton head_hton in omega arith in
    let front : take m.head.length (m.body ++ rest) ≡ m.body =
      subst (λ (n : ℕ). take n (m.body ++ rest) ≡ m.body) v.sized (take-length m.body rest) in
    let back : drop m.head.length (m.body ++ rest) ≡ rest =
      subst (λ (n : ℕ). drop n (m.body ++ rest) ≡ rest) v.sized (drop-length m.body rest) in
    ground (arith, same, behind_head, longer, length-append m.body rest, front, back)
