-- ===== src/Rtmq/Proxy/Connect.antt =====
-- A client connects: the requests of rtmq_proxy_tsvr_reconn, src/clang/lib/rtmq/proxy/rtmq_proxy_tsvr.c, on a link of the
-- server, src/clang/lib/rtmq/server/rtmq_rsvr.c.
use mathlib.Core.Path.{subst}
use Prim.Native.Nat.Ordering.{lt, eq}
use beehive_im.Common.{
  ℕ, suc, ◌+◌, ◌-◌, ◌%◌, ◌^◌, ◌≡◌, ◌≢◌, ◌≤◌, ◌<◌, ◌∙◌, refl, sym, ap, true, false, Bool-cases,
  Option-cases, some, List, [], ◌∷◌, ◌++◌, map, arith, ltb, inl, inr, if◌then◌else◌, ◌==◌, nat_key,
  nat_beq_iff, ◌&&◌, length, drop, Occurs, append-nil, replicate,
}
use beehive_im.Table.{Table, lookup}
use beehive_im.Chat.{ok}
use beehive_im.Containers.Avl.{AvlTree, avl_query}
use beehive_im.Rtmq.Wire.{Message, htonl, ntohl}
use beehive_im.Rtmq.Recv.{got, recv_proc}
use beehive_im.Rtmq.Recv.Split.{ntohl-htonl}
use beehive_im.Rtmq.Recv.Consume.{keeps, view}
use beehive_im.Rtmq.Recv.Stream.{encoded, Positive, deliver, recv_proc-deliver}
use beehive_im.Rtmq.NodeMap.{NodeMap, max_len, rtmq_node_to_svr_map_add}
use beehive_im.Rtmq.NodeMap.Valid.{AreMaps, links}
use beehive_im.Rtmq.NodeMap.Linking.{add-links}
use beehive_im.Rtmq.Auth.{rtmq_auth_init, rtmq_auth_check, usr_max_len, pwd_max_len}
use beehive_im.Rtmq.Auth.Known.{AreTexts, rtmq_auth_check-init}
use beehive_im.Rtmq.Subs.{SubTab, Subscriber, rtmq_sub_add, in_slot, sub_tab_len}
use beehive_im.Rtmq.Subs.Spine.{avl_insert-finds}
use beehive_im.Rtmq.Subs.Found.{IsSubTab, Subscribed, Added, Spread, HasSlot, added_in}
use beehive_im.Rtmq.Subs.Add.{rtmq_sub_add-Added}
use beehive_im.Rtmq.Link.{
  Link, auth_ack, reply, subscriber, handle, mesg_proc, link_auth, rtmq_rsvr_sys_mesg_proc,
  rtmq_rsvr_link_auth_req_hdl, rtmq_rsvr_sub_req_hdl, rtmq_rsvr_sck_add_sub, sub_link,
  rtmq_sub_list_cmp_cb,
}
use beehive_im.Rtmq.Proxy.{
  ProxyConf, text_field, rtmq_link_auth_req, rtmq_add_sub_req, rtmq_sub_req, rtmq_proxy_tsvr_reconn,
}
use beehive_im.Rtmq.Proxy.Fields.{IsConf, TypesFit, auth_body, reconn-AreMessages, reconn-Fitting}

type_never_less : (a b : ℕ) → rtmq_sub_list_cmp_cb a b ≢ lt
unfolding rtmq_sub_list_cmp_cb
type_never_less a b h = ground (arith, h)

same_type : (a : ℕ) → a < 2 ^ 32 → rtmq_sub_list_cmp_cb a a ≡ eq
unfolding rtmq_sub_list_cmp_cb
same_type a h = ground (arith, h)

-- The link's own list of types takes any type.
sck_add_sub-ok :
    (subs : AvlTree ℕ) (type : ℕ)
    → type < 2 ^ 32
    → (subs' : AvlTree ℕ) × (rtmq_rsvr_sck_add_sub subs type ≡ some (ok, subs'))
unfolding rtmq_rsvr_sck_add_sub
sck_add_sub-ok subs type h = elim (Option-cases (avl_query rtmq_sub_list_cmp_cb subs.root type)) [
  | inr (x, e) ↦ (subs, rw (rtmq_rsvr_sck_add_sub, e) refl)
  | inl e ↦
      let (subs', made, there, taller, raw, counts) =
        avl_insert-finds rtmq_sub_list_cmp_cb type (same_type type h) (λ t. type_never_less type t)
          subs e in
      (subs', rw (rtmq_rsvr_sck_add_sub, e, made) refl)
]

ap_tab : (n m : ℕ) (sub : SubTab) → n ≡ m → IsSubTab n sub → IsSubTab m sub
ap_tab n m sub e v = subst (λ k. IsSubTab k sub) e v

handle_sys :
    (link link' : Link) (m : Message)
    → (m.head.flag == 0) ≡ true
    → rtmq_rsvr_sys_mesg_proc link m ≡ some (ok, link')
    → handle (some link) m ≡ (false, some link')
unfolding mesg_proc
handle_sys link link' m f e = ground (arith, f, e)

sub_hdl :
    (link : Link) (m : Message) (type : ℕ) (sub' : SubTab) (subs' : AvlTree ℕ)
    → link.auth_succ ≡ true
    → ltb (length m.body) 4 ≡ false
    → ntohl m.body ≡ type
    → rtmq_sub_add link.moved link.sub (subscriber link) type ≡ some (ok, sub')
    → rtmq_rsvr_sck_add_sub link.sub_list type ≡ some (ok, subs')
    → rtmq_rsvr_sub_req_hdl link m ≡ some (ok, record link { sub = sub'; sub_list = subs' })
unfolding rtmq_rsvr_sub_req_hdl sub_link
sub_hdl link m type sub' subs' a l r e f = ground (arith, a, l, r, e, f)

-- One request of a link that is let in
sub_req-Added :
    (n : ℕ) (conf : ProxyConf) (link : Link) (type : ℕ)
    → n < 512
    → link.auth_succ ≡ true
    → link.gid < 2 ^ 32
    → type < 2 ^ 32
    → IsSubTab n link.sub
    → Spread link.sub
    → HasSlot link.sub type
    → (sub' : SubTab) × (subs' : AvlTree ℕ) × (handle (some link) (rtmq_add_sub_req conf type)
        ≡ (false, some (record link { sub = sub'; sub_list = subs' })))
      × Added n link.sub sub' type (subscriber link)
      × Spread sub'
unfolding rtmq_add_sub_req rtmq_rsvr_sys_mesg_proc
sub_req-Added n conf link type small open_ gid fits v spread slot =
    let m = rtmq_add_sub_req conf type in
    let (sub', e, added, spread') =
      rtmq_sub_add-Added n link.moved link.sub (subscriber link) type small gid v spread slot in
    let (subs', f) = sck_add_sub-ok link.sub_list type fits in
    let read : ntohl (htonl type) ≡ type =
      ap ntohl (sym (append-nil (htonl type))) ∙ ntohl-htonl type [] fits in
    (
      sub',
      subs',
      handle_sys link (record link { sub = sub'; sub_list = subs' }) m refl
          (sub_hdl link m type sub' subs' open_ refl read e f),
      added,
      spread',
    )

-- How many of the types belong to a slot of the server's table
abbrev pub types_in : ℕ → List ℕ → ℕ
types_in slot [] = 0
types_in slot (type ∷ types) = (if type % sub_tab_len == slot then 1 else 0) + types_in slot types

-- With a list for each of the types, no slot would have more than two.
abbrev pub HaveSlots : SubTab → List ℕ → Type 0
HaveSlots sub types = (slot : ℕ) → in_slot slot sub + types_in slot types ≤ 2

HasSlot-first :
    (sub : SubTab) (type : ℕ) (types : List ℕ) → HaveSlots sub (type ∷ types) → HasSlot sub type
HasSlot-first sub type types slots missing =
    ground
      (arith, slots (type % sub_tab_len), nat_beq_iff (type % sub_tab_len) (type % sub_tab_len))

-- What a list takes of a slot is no more than its type may.
added_in-most :
    (slot type : ℕ) (sub : SubTab)
    → added_in slot type (lookup type sub) ≤ (if type % sub_tab_len == slot then 1 else 0)
added_in-most slot type sub = elim (Option-cases (lookup type sub)) [
  | inl e ↦ rw e (omega arith)
  | inr (list, e) ↦ rw e (omega arith)
]

HaveSlots-rest :
    (n : ℕ) (sub sub' : SubTab) (type : ℕ) (types : List ℕ) (sck : Subscriber)
    → HaveSlots sub (type ∷ types)
    → Added n sub sub' type sck
    → HaveSlots sub' types
HaveSlots-rest n sub sub' type types sck slots added slot =
    omega (arith, slots slot, added.slots slot, added_in-most slot type sub)

-- The link after its requests
record Joined (n : ℕ) (types : List ℕ) (link link' : Link) : Type 0 where
  others :
      (sub_ : SubTab) × (subs : AvlTree ℕ) × (link' ≡ record link { sub = sub_; sub_list = subs })
  is_tab : IsSubTab (n + length types) link'.sub
  joined : (type : ℕ) → Occurs type types → Subscribed link'.sub type (subscriber link)
  kept :
      (type : ℕ)
      → Subscribed link.sub type (subscriber link)
      → Subscribed link'.sub type (subscriber link)

moved_on :
    (sub sub' : SubTab) (type t : ℕ) (sck : Subscriber) (n : ℕ)
    → Added n sub sub' type sck
    → Subscribed sub t sck
    → Subscribed sub' t sck
moved_on sub sub' type t sck n a s = elim (Bool-cases (type == t)) [
  | inl same ↦ subst (λ u. Subscribed sub' u sck) ((nat_beq_iff type t).0 same) a.subscribed
  | inr other ↦
      let apart : type ≢ t = λ p. ground (arith, p, other, nat_beq_iff type t) in
      (s.0, s.1, s.2, a.others t apart ∙ s.3, s.4, s.5, s.6)
]

sub_reqs-Joined :
    (n : ℕ) (conf : ProxyConf) (types : List ℕ) (link : Link)
    → n + length types ≤ 512
    → link.auth_succ ≡ true
    → link.gid < 2 ^ 32
    → TypesFit types
    → IsSubTab n link.sub
    → HaveSlots link.sub types
    → (link' : Link) × (deliver handle (rtmq_sub_req conf types) (some link)
        ≡ keeps [] (some link'))
      × Joined n types link link'
sub_reqs-Joined n conf [] link h a g f v slots = (
  link,
  refl,
  record {
    others = (link.sub, link.sub_list, refl);
    is_tab = ap_tab n (n + 0) link.sub (omega arith) v;
    joined = λ t o. absurd o;
    kept = λ t s. s;
  },
)
sub_reqs-Joined n conf (type ∷ types) link h a g f v slots =
    let (sub', subs', e, added, _) =
      sub_req-Added n conf link type (omega (arith, h)) a g f.0 v (λ i. omega (arith, slots i))
        (HasSlot-first link.sub type types slots) in
    let next : Link = record link { sub = sub'; sub_list = subs' } in
    let (link', d, j) =
      sub_reqs-Joined (suc n) conf types next (omega (arith, h)) a g f.1 added.is_tab
        (HaveSlots-rest n link.sub sub' type types (subscriber link) slots added) in
    (
      link',
      rw e d,
      record {
        others = j.others;
        is_tab =
            ap_tab (suc n + length types) (n + suc (length types)) link'.sub (omega arith) j.is_tab;
        joined = λ t o. elim o [
          | inl this ↦
              j.kept t
                (subst (λ u. Subscribed sub' u (subscriber link)) (sym this) added.subscribed)
          | inr later ↦ j.joined t later
        ];
        kept = λ t s. j.kept t (moved_on link.sub sub' type t (subscriber link) n added s);
      },
    )

-- A link to which the client's request got through
abbrev admitted : ProxyConf → Link → Table ℕ NodeMap → Link
admitted conf link maps =
    reply (record link { gid = conf.gid; auth_succ = true; nid = conf.nid; maps = maps }) auth_ack
      (htonl 1)

auth_hdl :
    (conf : ProxyConf) (link : Link) (m : Message) (maps : Table ℕ NodeMap)
    → ltb (length m.body) 52 ≡ false
    → ntohl m.body ≡ conf.gid
    → conf.gid ≢ 0
    → m.head.nid ≡ conf.nid
    → rtmq_auth_check link.auth (drop 4 m.body) (drop 36 m.body) ≡ some true
    → rtmq_node_to_svr_map_add link.maps conf.nid link.id ≡ (ok, maps)
    → rtmq_rsvr_link_auth_req_hdl link m ≡ some (ok, admitted conf link maps)
unfolding rtmq_rsvr_link_auth_req_hdl link_auth
auth_hdl conf link m maps l r z n c e = ground (arith, l, r, z, n, c, e)

long_enough : (n : ℕ) → n ≡ 52 → ltb n 52 ≡ false
long_enough n e = ground (arith, e)

-- The users that are let in, and the client among them
pub record Knows (users : List (List ℕ × List ℕ)) (conf : ProxyConf) (link : Link) : Type 0 where
  pub table : link.auth ≡ (rtmq_auth_init users []).1
  pub all : (rtmq_auth_init users []).0 ≡ ok
  pub texts : AreTexts users
  pub known : Occurs (conf.usr, conf.passwd) users

auth_req-admitted :
    (users : List (List ℕ × List ℕ)) (conf : ProxyConf) (link : Link) (maps : Table ℕ NodeMap)
    → IsConf conf
    → Knows users conf link
    → rtmq_node_to_svr_map_add link.maps conf.nid link.id ≡ (ok, maps)
    → handle (some link) (rtmq_link_auth_req conf) ≡ (false, some (admitted conf link maps))
unfolding rtmq_link_auth_req rtmq_rsvr_sys_mesg_proc
auth_req-admitted users conf link maps v k e =
    let m = rtmq_link_auth_req conf in
    let (size, gid, name, word) = auth_body conf v in
    let after_name =
      replicate (usr_max_len - length conf.usr - 1) 0 ++ text_field pwd_max_len conf.passwd in
    let after_passwd = replicate (pwd_max_len - length conf.passwd - 1) 0 in
    let (allowed, checked, exactly) =
      rtmq_auth_check-init users conf.usr conf.passwd after_name after_passwd k.all k.texts
        v.usr_text v.passwd_text in
    let yes_ : allowed ≡ true = exactly.1 (conf.usr, conf.passwd, k.known, refl, refl) in
    let result : rtmq_auth_check link.auth (drop 4 m.body) (drop 36 m.body) ≡ some true =
      ap (λ t. rtmq_auth_check t (drop 4 m.body) (drop 36 m.body)) k.table
      ∙ ap (λ b. rtmq_auth_check (rtmq_auth_init users []).1 b (drop 36 m.body)) name
      ∙ ap (λ b. rtmq_auth_check (rtmq_auth_init users []).1 (conf.usr ++ (0 ∷ after_name)) b) word
      ∙ checked
      ∙ ap some yes_ in
    handle_sys link (admitted conf link maps) m refl
      (auth_hdl conf link m maps (long_enough (length m.body) size) gid v.grouped refl result e)

-- A client connects to a server that knows its name and password, and has room for its node; it has not more types to
-- subscribe to than the groups have room for, and with a list for each no slot of the table of lists has more than two.
-- The buffer of the link takes at least 72 bytes. However the network cuts its requests, where each read gives something
-- and there are as many as the requests have bytes, the server handles them all without a fault, and the link stays. Then
-- the link is let in, with the client's node and group; the node has one link more to the thread of the link, and no other
-- link changed; a search for the link's group in the list of each type finds one that the link is in; and the link has an
-- answer to send, that it was let in.
pub rtmq_proxy_tsvr_reconn-admitted :
    (users : List (List ℕ × List ℕ)) (conf : ProxyConf) (types : List ℕ) (link : Link) (n size : ℕ)
    (ns : List ℕ)
    → IsConf conf
    → TypesFit types
    → Knows users conf link
    → AreMaps link.maps
    → ((map : NodeMap) → lookup conf.nid link.maps ≡ some map → map.num ≢ max_len)
    → IsSubTab n link.sub
    → n + length types ≤ 512
    → HaveSlots link.sub types
    → 72 ≤ size
    → Positive ns
    → length (encoded (rtmq_proxy_tsvr_reconn conf types)) ≤ length ns
    → (link' : Link) × (view (
          recv_proc size handle
            (map got ns)
            (encoded (rtmq_proxy_tsvr_reconn conf types))
            (record { optr = 0; pending = [] })
            (some link))
        ≡ keeps [] (some link'))
      × (link'.auth_succ ≡ true)
      × (link'.nid ≡ conf.nid)
      × (link'.gid ≡ conf.gid)
      × ((node x : ℕ)
          → links link'.maps node x
            ≡ links link.maps node x + (if conf.nid == node && link.id == x then 1 else 0))
      × ((type : ℕ) → Occurs type types → Subscribed link'.sub type (subscriber link'))
      × (link'.mesg_list ≡ (reply link auth_ack (htonl 1)).mesg_list)
rtmq_proxy_tsvr_reconn-admitted users conf types link n size ns v f k am room st h slots big pos
      enough =
    elim (add-links link.maps conf.nid link.id am) [
      | inl (e, full) ↦ absurd (room full.0 full.1 full.2)
      | inr (maps, e, am', counts) ↦
          let first = auth_req-admitted users conf link maps v k e in
          let next = admitted conf link maps in
          let (link', d, j) = sub_reqs-Joined n conf types next h refl v.gid_fits f st slots in
          let (sub', subs', its) = j.others in
          (
            link',
            recv_proc-deliver handle size (rtmq_proxy_tsvr_reconn conf types) ns (some link)
                  (omega (arith, big)) (reconn-AreMessages conf types v)
                  (reconn-Fitting size conf types v big) pos enough
                ∙ rw first d,
            ap (λ l. l.auth_succ) its,
            ap (λ l. l.nid) its,
            ap (λ l. l.gid) its,
            λ node x. ap (λ l. links l.maps node x) its ∙ counts node x,
            λ type o.
                subst (λ l. Subscribed link'.sub type (subscriber l)) (sym its) (j.joined type o),
            ap (λ l. l.mesg_list) its,
          )
    ]
