-- ===== src/Rtmq/Wire.antt =====
-- Messages on the wire: rtmq_header_t and its byte order, src/clang/incl/rtmq/rtmq_mesg.h.
use beehive_im.Common.{ℕ, ◌+◌, ◌*◌, ◌/◌, ◌%◌, ◌^◌, List, [], ◌∷◌, ◌++◌, nat_key, drop}

pub record Header : Type 0 where
  pub type : ℕ
  pub nid : ℕ
  pub flag : ℕ
  pub length : ℕ
  pub chksum : ℕ

-- A header in the host's byte order, and the `length` bytes behind it.
pub record Message : Type 0 where
  pub head : Header
  pub body : List ℕ

-- sizeof(rtmq_header_t)
abbrev pub head_size : ℕ
head_size = 20

-- RTMQ_CHKSUM_VAL
abbrev pub chksum_val : ℕ
chksum_val = 0x1FE2_3DC4

-- RTMQ_SYS_MESG
abbrev pub sys_mesg : ℕ
sys_mesg = 0

-- `ntohl` of the first four bytes
abbrev pub ntohl : List ℕ → ℕ
ntohl (a ∷ b ∷ c ∷ d ∷ bytes) = ((a * 256 + b) * 256 + c) * 256 + d
ntohl bytes = 0

-- `htonl`
abbrev pub htonl : ℕ → List ℕ
htonl n = n / 2 ^ 24 % 256 ∷ n / 2 ^ 16 % 256 ∷ n / 2 ^ 8 % 256 ∷ n % 256 ∷ []

-- RTMQ_HEAD_NTOH of the header that the bytes begin with
unfoldable pub head_ntoh : List ℕ → Header
head_ntoh bytes = record {
  type = ntohl bytes;
  nid = ntohl (drop 4 bytes);
  flag = ntohl (drop 8 bytes);
  length = ntohl (drop 12 bytes);
  chksum = ntohl (drop 16 bytes);
}

-- RTMQ_HEAD_HTON
unfoldable pub head_hton : Header → List ℕ
head_hton head =
    htonl head.type
    ++ (htonl head.nid ++ (htonl head.flag ++ (htonl head.length ++ htonl head.chksum)))

-- A message as its sender writes it.
unfoldable pub mesg_hton : Message → List ℕ
unfolding head_hton
mesg_hton m = head_hton m.head ++ m.body
