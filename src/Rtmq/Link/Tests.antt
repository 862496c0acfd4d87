-- ===== src/Rtmq/Link/Tests.antt =====
-- The theorem of a link that was not let in at a concrete input.
use beehive_im.Common.{ℕ, true, false, List, [], ◌∷◌, ◌++◌, zero, suc, length, replicate}
use beehive_im.Containers.Avl.{avl_creat}
use beehive_im.Rtmq.Wire.{Message, chksum_val}
use beehive_im.Rtmq.Auth.{rtmq_auth_init}
use beehive_im.Rtmq.Link.{Link}

abbrev locked : Link
locked = record {
  conf_nid = 1;
  auth = (rtmq_auth_init ((b'q' ∷ [], b'z' ∷ []) ∷ []) []).1;
  maps = [];
  sub = [];
  recvq = record { free = 8; items = [] } ∷ [];
  cmds = [];
  rand = λ n. n;
  drawn = 0;
  moved = true;
  id = 2;
  recv_total = 0;
  drop_total = 0;
  nid = 4294967295;
  gid = 0;
  sid = 21;
  auth_succ = false;
  sub_list = avl_creat;
  mesg_list = [];
}

abbrev zeros : ℕ → List ℕ
zeros zero = []
zeros (suc n) = 0 ∷ zeros n

-- A request with the right name and a wrong password, then a message for the workers
abbrev guess : List ℕ
guess = 0 ∷ 0 ∷ 0 ∷ 3 ∷ b'q' ∷ (zeros 31 ++ (b'y' ∷ zeros 15))

abbrev attempt : List Message
attempt =
    record {
      head = record { type = 1; nid = 7; flag = 0; length = 52; chksum = chksum_val };
      body = guess;
    }
    ∷ record {
      head = record { type = 0x0301; nid = 7; flag = 1; length = 2; chksum = chksum_val };
      body = 8 ∷ 9 ∷ [];
    }
    ∷ []

-- Each read gives up to 20 bytes.
abbrev reads : List ℕ
reads = replicate 100 20
