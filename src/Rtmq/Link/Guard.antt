-- ===== src/Rtmq/Link/Guard.antt =====
-- A link that was not let in reaches nothing: rtmq_rsvr_sys_mesg_proc and rtmq_rsvr_exp_mesg_proc of
-- src/clang/lib/rtmq/server/rtmq_rsvr.c.
use beehive_im.Common.{◌≤◌, ◌⊎◌, ◌≡◌, false, Option, none, some, nat_key, length, drop}
use beehive_im.Chat.{Status}
use beehive_im.Rtmq.Wire.{Message, sys_mesg, ntohl}
use beehive_im.Rtmq.Recv.Consume.{Verdict, keeps, fails, shut, aborts, beyond, lost}
use beehive_im.Rtmq.Auth.{rtmq_auth_check}
use beehive_im.Rtmq.Link.{Link, auth_req}

-- If a message asks to let the link in, it is whole, and names no group or gives no name and password of a user.
abbrev pub Refused : Link → Message → Type 0
Refused link m =
    m.head.flag ≡ sys_mesg
    → m.head.type ≡ auth_req
    → (52 ≤ length m.body)
      × ((ntohl m.body ≡ 0)
          ⊎ (rtmq_auth_check link.auth (drop 4 m.body) (drop 36 m.body) ≡ some false))

-- The link is out, and what it shares with others is as it was.
pub record Outside (link link' : Link) : Type 0 where
  pub out : link'.auth_succ ≡ false
  pub same_auth : link'.auth ≡ link.auth
  pub same_recvq : link'.recvq ≡ link.recvq
  pub same_cmds : link'.cmds ≡ link.cmds
  pub same_sub : link'.sub ≡ link.sub
  pub same_maps : link'.maps ≡ link.maps
  pub same_total : link'.recv_total ≡ link.recv_total

abbrev pub Leaves : (Link → Type 0) → Option Link → Type 0
Leaves P none = ⊥
Leaves P (some link) = P link

abbrev second : Option (Status × Link) → Option Link
second none = none
second (some o) = some o.1

-- A link that came to its end, or goes on, in a state
abbrev pub Ends : (Option Link → Type 0) → Verdict (Option Link) → Type 0
Ends P (keeps rest l) = P l
Ends P (fails l) = P l
Ends P (shut l) = P l
Ends P aborts = ⊥
Ends P beyond = ⊥
Ends P lost = ⊥
