-- ===== src/Rtmq/Proxy/Tests.antt =====
-- The theorem of a client that connects at a concrete input.
use beehive_im.Common.{
  ℕ, ◌+◌, ◌≡◌, ◌&&◌, true, false, some, List, [], ◌∷◌, map, arith, refl, if◌then◌else◌, ◌==◌,
  nat_key, Occurs, inl, replicate,
}
use beehive_im.Table.{lookup, insert}
use beehive_im.Containers.Avl.{avl_creat}
use beehive_im.Rtmq.Wire.{htonl, head_hton, mesg_hton}
use beehive_im.Rtmq.Recv.{got, recv_proc}
use beehive_im.Rtmq.Recv.Consume.{keeps, view}
use beehive_im.Rtmq.Recv.Stream.{encoded}
use beehive_im.Rtmq.NodeMap.Valid.{AreMaps, links}
use beehive_im.Rtmq.Auth.{rtmq_auth_init, rtmq_auth_add}
use beehive_im.Rtmq.Subs.Found.{Subscribed}
use beehive_im.Rtmq.Link.{Link, auth_ack, reply, subscriber, handle}
use beehive_im.Rtmq.Proxy.{ProxyConf, rtmq_proxy_tsvr_reconn, rtmq_link_auth_req, rtmq_add_sub_req}
use beehive_im.Rtmq.Proxy.Fields.{IsConf}
use beehive_im.Rtmq.Proxy.Connect.{Knows, rtmq_proxy_tsvr_reconn-admitted}

-- The user "qf" with the password "z1"
abbrev one_user : List (List ℕ × List ℕ)
one_user = (b'q' ∷ b'f' ∷ [], b'z' ∷ b'1' ∷ []) ∷ []

abbrev client : ProxyConf
client = record { nid = 7; gid = 3; usr = b'q' ∷ b'f' ∷ []; passwd = b'z' ∷ b'1' ∷ [] }

client-IsConf : IsConf client
client-IsConf = record {
  nid_fits = omega arith;
  gid_fits = omega arith;
  grouped = λ e. absurd (omega arith);
  usr_text = ground arith;
  usr_fits = omega arith;
  passwd_text = ground arith;
  passwd_fits = omega arith;
}

-- A link that was just made, on a server where nobody subscribed yet
abbrev fresh : Link
fresh = record {
  conf_nid = 1;
  auth = (rtmq_auth_init one_user []).1;
  maps = [];
  sub = [];
  recvq = record { free = 8; items = [] } ∷ [];
  cmds = [];
  rand = λ n. n;
  drawn = 0;
  moved = true;
  id = 2;
  recv_total = 0;
  drop_total = 0;
  nid = 4294967295;
  gid = 0;
  sid = 21;
  auth_succ = false;
  sub_list = avl_creat;
  mesg_list = [];
}

fresh-Knows : Knows one_user client fresh
unfolding rtmq_auth_init rtmq_auth_add lookup insert
fresh-Knows = record { table = refl; all = refl; texts = ground arith; known = inl refl }

no_maps-AreMaps : AreMaps []
unfolding lookup
no_maps-AreMaps = record { distinct = tt; each = λ nid m e. absurd (ground (arith, e)) }

-- Each read gives up to 20 bytes.
abbrev reads : List ℕ
reads = replicate 100 20

rtmq_proxy_tsvr_reconn-admitted_example :
    (link' : Link) × (view (
        recv_proc 4096 handle
          (map got reads)
          (encoded (rtmq_proxy_tsvr_reconn client (0x0301 ∷ [])))
          (record { optr = 0; pending = [] })
          (some fresh))
      ≡ keeps [] (some link'))
    × (link'.auth_succ ≡ true)
    × (link'.nid ≡ 7)
    × (link'.gid ≡ 3)
    × ((node x : ℕ)
        → links link'.maps node x ≡ links [] node x + (if 7 == node && 2 == x then 1 else 0))
    × ((type : ℕ) → Occurs type (0x0301 ∷ []) → Subscribed link'.sub type (subscriber link'))
    × (link'.mesg_list ≡ (reply fresh auth_ack (htonl 1)).mesg_list)
rtmq_proxy_tsvr_reconn-admitted_example =
    rtmq_proxy_tsvr_reconn-admitted one_user client (0x0301 ∷ []) fresh 0 4096 reads client-IsConf
      (omega arith) fresh-Knows no_maps-AreMaps (λ m e. absurd (unfold lookup in ground (arith, e)))
      (λ t l e. absurd (unfold lookup in ground (arith, e))) (omega arith) (λ i. ground arith)
      (omega arith) (ground arith)
      (unfold mesg_hton head_hton rtmq_link_auth_req rtmq_add_sub_req in omega arith)
