-- ===== src/Rtmq/Conns/Close.antt =====
-- What closing one link does: rtmq_rsvr_del_conn_hdl of src/clang/lib/rtmq/server/rtmq_rsvr.c.

use beehive_im.Common.{
  arith, Bool, false, Option-cases, ap, ℕ, ◌+◌, ◌-◌, ◌%◌, ◌^◌, ◌≡◌, ◌≢◌, ◌≤◌, ◌∙◌, ◌&&◌, refl, some,
  List, [], ◌∷◌, ◌++◌, inl, inr, if◌then◌else◌, ◌==◌, nat_key, nat_beq_iff, ◌<◌, none,
}
use beehive_im.Rtmq.NodeMap.{rtmq_node_to_svr_map_del}
use beehive_im.Rtmq.NodeMap.Valid.{AreMaps, links, del-links}
use beehive_im.Containers.Avl.{avl_query}
use beehive_im.Containers.Vector.{vector_find_and_del}
use beehive_im.Table.{lookup}
use beehive_im.Rtmq.Subs.{
  SubTab, Subscriber, rtmq_sub_del, group_cmp, rtmq_sub_group_alloc, find_sid, sub_del_node,
}
use beehive_im.Rtmq.Subs.Found.{IsSubTab}
use beehive_im.Rtmq.Subs.Del.{subs_of, Dropped-others, sub_del-cases}
use beehive_im.Rtmq.Conns.{
  Conn, Service, rtmq_rsvr_sck_sub_item_free, mref_dec, avl_destroy, sub_free, rtmq_rsvr_sck_free,
  rtmq_rsvr_del_conn_hdl,
}

-- It does to the lists what taking a subscription back does, and unlocks the table.
sub_item_free-sub_del :
    (sub sub' : SubTab) (sck : Subscriber) (type : ℕ) (held : Bool)
    → rtmq_sub_del sub sck type ≡ some (held, sub')
    → rtmq_rsvr_sck_sub_item_free sub sck type ≡ some sub'
unfolding rtmq_rsvr_sck_sub_item_free rtmq_sub_del
sub_item_free-sub_del sub sub' sck type held h = elim (Option-cases (lookup type sub)) [
  | inl e ↦ ground (arith, h, e)
  | inr (list, e) ↦
      elim (Option-cases (avl_query group_cmp list.root (rtmq_sub_group_alloc sck.gid))) [
        | inl f ↦ ground (arith, h, e, f)
        | inr (group, f) ↦
            let o =
              sub_del_node sub type list group sck
                (vector_find_and_del group.nodes (find_sid sck.sid)) in
            elim (Option-cases o) [
              | inl g ↦ absurd (ground (arith, rw (rtmq_sub_del, e, f, g) at h))
              | inr (x, g) ↦
                  let same : x ≡ sub' = ground (arith, rw (rtmq_sub_del, e, f, g) at h) in
                  rw (rtmq_rsvr_sck_sub_item_free, e, f, g) (ap some same)
            ]
      ]
]

-- The lists stay sound, and other links keep their nodes.
pub record Freed (n : ℕ) (sub sub' : SubTab) (sck : Subscriber) : Type 0 where
  pub is_tab : IsSubTab n sub'
  pub others : (t sid : ℕ) → sck.sid ≢ sid → subs_of sub' t sid ≡ subs_of sub t sid

pub sub_free-Freed :
    (n : ℕ) (sub : SubTab) (sck : Subscriber) (types : List ℕ)
    → n ≤ 512
    → IsSubTab n sub
    → (sub' : SubTab) × (sub_free sub sck types ≡ some sub') × Freed n sub sub' sck
unfolding sub_free
sub_free-Freed n sub sck [] small v =
    (sub, refl, record { is_tab = v; others = λ t sid other. refl })
sub_free-Freed n sub sck (type ∷ types) small v = elim (sub_del-cases n sub sck type small v) [
  | inl (held, e, absent, kept, missing) ↦
      let (sub', f, w) = sub_free-Freed n sub sck types small v in
      (sub', rw (sub_free, sub_item_free-sub_del sub sub sck type held e) f, w)
  | inr (next, e, d) ↦
      let (sub', f, w) = sub_free-Freed n next sck types small d.is_tab in
      (
        sub',
        rw (sub_free, sub_item_free-sub_del sub next sck type false e) f,
        record {
          is_tab = w.is_tab;
          others = λ t sid other.
              w.others t sid other ∙ Dropped-others n sub next type sck d t sid other;
        },
      )
]

mref_dec-counts :
    (refs : ℕ → ℕ) (addr : ℕ)
    → 0 < refs addr
    → (refs' : ℕ → ℕ) × (mref_dec refs addr ≡ some refs')
      × ((a : ℕ) → refs' a ≡ refs a - (if addr == a then 1 else 0))
unfolding mref_dec
mref_dec-counts refs addr h =
    let some_ : (refs addr == 0) ≡ false = ground (arith, h) in
    ((λ a. refs a - (if addr == a then 1 else 0)), rw (mref_dec, some_) refl, λ a. refl)

pub mref_dec_missing : (refs : ℕ → ℕ) (addr : ℕ) → refs addr ≡ 0 → mref_dec refs addr ≡ none
unfolding mref_dec
mref_dec_missing refs addr h = rw (mref_dec, h) refl

-- What closing the link `c` comes to, with `k` references to its buffer less.
pub record Closed (n k : ℕ) (s s' : Service) (rest : List Conn) (c : Conn) : Type 0 where
  pub own : s'.id ≡ s.id
  pub left : s'.conns ≡ rest
  pub counted : s'.connections ≡ (s.connections + (2 ^ 32 - 1)) % 2 ^ 32
  pub fds : s'.closed ≡ s.closed ++ (c.fd ∷ [])
  pub are_maps : AreMaps s'.maps
  pub unlinked :
      (nid x : ℕ)
      → links s'.maps nid x ≡ links s.maps nid x - (if c.who.nid == nid && s.id == x then 1 else 0)
  pub freed : Freed n s.sub s'.sub c.who
  pub refs : (a : ℕ) → s'.refs a ≡ s.refs a - (if c.base == a then k else 0)

pub rtmq_rsvr_del_conn_hdl-Closed :
    (n : ℕ) (s : Service) (front back : List Conn) (c : Conn)
    → n ≤ 512
    → IsSubTab n s.sub
    → AreMaps s.maps
    → 0 < s.refs c.base
    → (s' : Service) × (rtmq_rsvr_del_conn_hdl s front c back ≡ some s')
      × Closed n 1 s s' (front ++ back) c
unfolding rtmq_rsvr_del_conn_hdl rtmq_rsvr_sck_free
rtmq_rsvr_del_conn_hdl-Closed n s front back c small v w held =
    let (refs, r, counts) = mref_dec-counts s.refs c.base held in
    let (sub', e, freed) = sub_free-Freed n s.sub c.who (avl_destroy c.sub_list.root) small v in
    let (are_maps, unlinked) = del-links s.maps c.who.nid s.id w in
    let s' : Service = record s {
      conns = front ++ back;
      maps = (rtmq_node_to_svr_map_del s.maps c.who.nid s.id).1;
      sub = sub';
      closed = s.closed ++ (c.fd ∷ []);
      connections = (s.connections + (2 ^ 32 - 1)) % 2 ^ 32;
      refs = refs;
    } in
    (
      s',
      rw (rtmq_rsvr_del_conn_hdl, rtmq_rsvr_sck_free, r, e) refl,
      record {
        own = refl;
        left = refl;
        counted = refl;
        fds = refl;
        are_maps = are_maps;
        unlinked = unlinked;
        freed = freed;
        refs = counts;
      },
    )

pub del_conn_missing :
    (s : Service) (front back : List Conn) (c : Conn)
    → s.refs c.base ≡ 0
    → rtmq_rsvr_del_conn_hdl s front c back ≡ none
unfolding rtmq_rsvr_del_conn_hdl rtmq_rsvr_sck_free
del_conn_missing s front back c h =
    rw (rtmq_rsvr_del_conn_hdl, rtmq_rsvr_sck_free, mref_dec_missing s.refs c.base h) refl

-- The body of the loop over idle links: it gives the buffer back, and closes the link, which gives it back again.
pub close_idle-Closed :
    (n : ℕ) (s : Service) (front back : List Conn) (c : Conn)
    → n ≤ 512
    → IsSubTab n s.sub
    → AreMaps s.maps
    → 1 < s.refs c.base
    → (refs : ℕ → ℕ) × (s' : Service) × (mref_dec s.refs c.base ≡ some refs)
      × (rtmq_rsvr_del_conn_hdl (record s { refs = refs }) front c back ≡ some s')
      × Closed n 2 s s' (front ++ back) c
close_idle-Closed n s front back c small v w held =
    let (refs, r, counts) = mref_dec-counts s.refs c.base (omega (arith, held)) in
    let own = counts c.base in
    let left : 0 < refs c.base = ground (arith, own, held, nat_beq_iff c.base c.base) in
    let (s', e, d) =
      rtmq_rsvr_del_conn_hdl-Closed n (record s { refs = refs }) front back c small v w left in
    (
      refs,
      s',
      r,
      e,
      record {
        own = d.own;
        left = d.left;
        counted = d.counted;
        fds = d.fds;
        are_maps = d.are_maps;
        unlinked = d.unlinked;
        freed = d.freed;
        refs = λ a. ground (arith, d.refs a, counts a);
      },
    )
