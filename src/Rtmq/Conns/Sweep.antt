-- ===== src/Rtmq/Conns/Sweep.antt =====
-- What a traversal that closes links does: rtmq_rsvr_event_timeout_hdl and rtmq_rsvr_del_all_conn_hdl of
-- src/clang/lib/rtmq/server/rtmq_rsvr.c.

use beehive_im.Common.{
  ℕ, ◌+◌, ◌-◌, ◌^◌, ◌≡◌, ◌≢◌, ◌≤◌, ◌<◌, ◌∙◌, refl, sym, ap, Bool, true, Bool-cases, none,
  nat_beq_iff, List, [], ◌∷◌, ◌++◌, map, append_assoc, arith, inl, inr, if◌then◌else◌, ◌==◌,
  nat_key, leb, length, length-append, Occurs,
}
use beehive_im.Rtmq.NodeMap.Valid.{AreMaps, links}
use beehive_im.Rtmq.Subs.Found.{IsSubTab}
use beehive_im.Rtmq.Subs.Del.{subs_of}
use beehive_im.Rtmq.Conns.{Conn, Service, mref_dec, close_idle, rtmq_rsvr_event_timeout_hdl}
use beehive_im.Rtmq.Conns.Close.{Closed, close_idle-Closed, del_conn_missing}

-- Nothing was read from the link for 60 seconds.
abbrev pub is_idle : ℕ → Conn → Bool
is_idle ctm c = leb 60 (ctm - c.rdtm)

abbrev pub live : ℕ → List Conn → List Conn
live ctm [] = []
live ctm (c ∷ conns) = if is_idle ctm c then live ctm conns else c ∷ live ctm conns

abbrev pub gone : ℕ → List Conn → List Conn
gone ctm [] = []
gone ctm (c ∷ conns) = if is_idle ctm c then c ∷ gone ctm conns else gone ctm conns

-- How many references to an address closing the links takes, `k` for each link
abbrev pub taken : ℕ → ℕ → List Conn → ℕ
taken k a [] = 0
taken k a (c ∷ conns) = (if c.base == a then k else 0) + taken k a conns

-- How many of the links are links of the node
abbrev pub of_node : ℕ → List Conn → ℕ
of_node nid [] = 0
of_node nid (c ∷ conns) = (if c.who.nid == nid then 1 else 0) + of_node nid conns

-- The service counts its links, and what it shares is sound.
pub record IsService (n : ℕ) (s : Service) : Type 0 where
  pub counted : s.connections ≡ length s.conns
  pub few : length s.conns < 2 ^ 32
  pub are_maps : AreMaps s.maps
  pub is_tab : IsSubTab n s.sub

-- What closing the links of a list comes to, with `k` references to its buffer less for each.
pub record Swept (n k : ℕ) (s s' : Service) (out : List Conn) : Type 0 where
  pub is_service : IsService n s'
  pub own : s'.id ≡ s.id
  pub fds : s'.closed ≡ s.closed ++ map (λ (c : Conn). c.fd) out
  pub unlinked :
      (nid x : ℕ)
      → links s'.maps nid x ≡ links s.maps nid x - (if s.id == x then of_node nid out else 0)
  pub others :
      (t sid : ℕ)
      → ((c : Conn) → Occurs c out → c.who.sid ≢ sid)
      → subs_of s'.sub t sid ≡ subs_of s.sub t sid
  pub refs : (a : ℕ) → s'.refs a ≡ s.refs a - taken k a out

Closed-IsService :
    (n k : ℕ) (s s' : Service) (front back : List Conn) (c : Conn)
    → s.conns ≡ front ++ (c ∷ back)
    → IsService n s
    → Closed n k s s' (front ++ back) c
    → IsService n s'
Closed-IsService n k s s' front back c e v d =
    let all = ap length e ∙ length-append front (c ∷ back) in
    let less = ap length d.left ∙ length-append front back in
    record {
      counted = omega (arith, d.counted, v.counted, v.few, all, less);
      few = omega (arith, v.few, all, less);
      are_maps = d.are_maps;
      is_tab = d.freed.is_tab;
    }

-- The references do not do for the first link.
first_missing :
    (ctm : ℕ) (s : Service) (front back : List Conn) (c : Conn)
    → is_idle ctm c ≡ true
    → s.refs c.base < 2
    → close_idle ctm s front (c ∷ back) ≡ none
unfolding close_idle mref_dec
first_missing ctm s front back c goes few = elim (Bool-cases (s.refs c.base == 0)) [
  | inl zero_ ↦ rw (close_idle, goes, mref_dec, zero_) refl
  | inr more ↦
      let refs : ℕ → ℕ = λ a. s.refs a - (if c.base == a then 1 else 0) in
      let left : refs c.base ≡ 0 = ground (arith, few, nat_beq_iff c.base c.base) in
      rw
        (
          close_idle,
          goes,
          mref_dec,
          more,
          del_conn_missing (record s { refs = refs }) front back c left,
        )
        refl
]

close_idle_aborts :
    (n ctm a : ℕ) (s : Service) (front rest : List Conn)
    → n ≤ 512
    → s.conns ≡ front ++ rest
    → IsService n s
    → s.refs a < taken 2 a (gone ctm rest)
    → close_idle ctm s front rest ≡ none
unfolding close_idle
close_idle_aborts n ctm a s front [] small e v few = absurd (omega (arith, few))
close_idle_aborts n ctm a s front (c ∷ back) small e v few = elim (Bool-cases (is_idle ctm c)) [
  | inr stays ↦
      let e' = e ∙ sym (append_assoc front (c ∷ []) back) in
      rw (close_idle, stays)
        (close_idle_aborts n ctm a s (front ++ (c ∷ [])) back small e' v (rw stays at few))
  | inl goes ↦ elim (Bool-cases (leb 2 (s.refs c.base))) [
    | inr less ↦ first_missing ctm s front back c goes (ground (arith, less))
    | inl held ↦
        let (refs, s1, r, g, d) =
          close_idle-Closed n s front back c small v.is_tab v.are_maps (ground (arith, held)) in
        let v1 = Closed-IsService n 2 s s1 front back c e v d in
        let own : (if c.base == a then 2 else 0) ≤ s.refs a =
          ground (arith, held, nat_beq_iff c.base a) in
        rw (close_idle, goes, r, g)
          (close_idle_aborts n ctm a s1 front back small d.left v1
            (omega (arith, rw goes at few, d.refs a, own)))
  ]
]

-- The same sweep fails at an `assert` of the references if, for some buffer, they are fewer than two for each link that
-- nothing was read from for 60 seconds and has this buffer: as when the only reference to the buffer is that of such a
-- link.
pub rtmq_rsvr_event_timeout_hdl_aborts :
    (n ctm a : ℕ) (s : Service)
    → n ≤ 512
    → IsService n s
    → s.refs a < taken 2 a (gone ctm s.conns)
    → rtmq_rsvr_event_timeout_hdl s ctm ≡ none
unfolding rtmq_rsvr_event_timeout_hdl
rtmq_rsvr_event_timeout_hdl_aborts n ctm a s small v few =
    close_idle_aborts n ctm a s [] s.conns small refl v few
