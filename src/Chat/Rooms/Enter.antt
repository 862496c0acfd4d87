-- ===== src/Chat/Rooms/Enter.antt =====
-- Adding a member to a room, of chat_tab.c: the rounds of the retry loops are enough, and the room
-- afterwards holds the new member and no other change.
use beehive_im.Common.{
  ℕ, ◌≡◌, none, some, ◌∷◌, if◌then◌else◌, ◌==◌, ◌&&◌, arith, refl, Option-cases, inl, inr, nat_key,
  pair_key, nat_beq_iff, pair_beq_iff, ◌∙◌,
}
use beehive_im.Table
use beehive_im.Table.{Table, lookup, update, Distinct, sum_by}
use beehive_im.Chat.{ok, ChatGroup, ChatRoom, inc64, inc32, gid16}
use beehive_im.Chat.Rooms.{
  chat_group_add_by_gid, chat_group_add_session_raw, chat_group_add_session, new_group,
}
use beehive_im.Chat.Rooms.Valid.{
  IsGroup, IsRoom, occupant, swap_group, occupant-swap_group, swap_group-IsRoom, entry,
}

-- The group of a room, or the one that `chat_group_add_by_gid` makes.
abbrev opened : ChatRoom → ℕ → ChatRoom × ChatGroup
opened room gid = elim (lookup (gid16 gid) room.groups) [
  | none ↦ (
    record room { groups = (gid16 gid, new_group gid) ∷ room.groups; grp_num = inc32 room.grp_num },
    new_group gid,
  )
  | some grp ↦ (room, grp)
]

pub chat_group_add_session_lem :
    (room : ChatRoom) (gid sid cid : ℕ)
    → chat_group_add_session 2 room gid sid cid
      ≡ some (chat_group_add_session_raw (opened room gid).0 (opened room gid).1 sid cid)
unfolding chat_group_add_session chat_group_add_by_gid Table.insert lookup
chat_group_add_session_lem room gid sid cid = elim (Option-cases (lookup (gid16 gid) room.groups)) [
  | inl e ↦
      rw (e, opened, chat_group_add_session) (ground (arith, nat_beq_iff (gid16 gid) (gid16 gid)))
  | inr (grp, e) ↦ rw (e, opened, chat_group_add_session)
]

-- The room `r` is valid, and differs from `room` in that (sid, cid) is a member of `g` in it.
pub record Enters (room : ChatRoom) (g sid cid : ℕ) (r : ChatRoom) : Type 0 where
  pub valid : IsRoom r
  pub rid : r.rid ≡ room.rid
  pub members :
      (h : ℕ) (k : ℕ × ℕ)
      → occupant r h k
        ≡ (if g == h && (sid, cid) == k then some (entry sid cid) else occupant room h k)

module _ (room : ChatRoom) (grp : ChatGroup) (g sid cid : ℕ) (e : lookup g room.groups ≡ some grp)
    (v : IsRoom room) where
  -- The group with one more member.
  wider : ChatGroup
  wider = record grp {
    sid_set = ((sid, cid), entry sid cid) ∷ grp.sid_set;
    sid_num = inc64 grp.sid_num;
  }

  wider-IsGroup : lookup (sid, cid) grp.sid_set ≡ none → IsGroup g wider
  unfolding wider entry lookup
  wider-IsGroup new =
      let w = v.groups_ok g grp e in
      record {
        at = w.at;
        counted = omega (arith, w.counted);
        distinct = (new, w.distinct);
        named = λ k x found. ground (arith, w.named k x, pair_beq_iff (sid, cid) k);
      }

  add_raw_new :
      lookup (sid, cid) grp.sid_set ≡ none
      → chat_group_add_session_raw room grp sid cid
        ≡ (ok, swap_group room grp g e wider (inc64 room.sid_num))
  unfolding chat_group_add_session_raw Table.insert swap_group entry wider
  add_raw_new new = ground (arith, new, v.groups_ok g grp e)

  add_raw-Enters :
      ((chat_group_add_session_raw room grp sid cid).0 ≡ ok)
      × Enters room g sid cid (chat_group_add_session_raw room grp sid cid).1
  add_raw-Enters = elim (Option-cases (lookup (sid, cid) grp.sid_set)) [
    | inl new ↦ rw (add_raw_new new) (
      refl,
      record {
        valid =
            swap_group-IsRoom room grp g e wider (inc64 room.sid_num) v (wider-IsGroup new)
              (unfold wider in (omega arith)) (omega arith);
        rid = unfold swap_group in refl;
        members = λ h k.
            occupant-swap_group room grp g e wider (inc64 room.sid_num) h k
            ∙ (unfold wider occupant lookup in (ground (arith, e, nat_beq_iff g h)));
      },
    )
    | inr (x, old) ↦
        unfold chat_group_add_session_raw Table.insert occupant entry in
        rw (old, chat_group_add_session_raw, Table.insert)
          (
            refl,
            record {
              valid = v;
              rid = refl;
              members = λ h k. ground (
                arith,
                e,
                old,
                (v.groups_ok g grp e).named (sid, cid) x old,
                nat_beq_iff g h,
                pair_beq_iff (sid, cid) k,
              );
            },
          )
  ]

new_group-IsGroup : (gid : ℕ) → IsGroup (gid16 gid) (new_group gid)
unfolding lookup
new_group-IsGroup gid = record {
  at = refl;
  counted = omega arith;
  distinct = tt;
  named = λ k x found. cc;
}

opened-IsRoom : (room : ChatRoom) (gid : ℕ) → IsRoom room → IsRoom (opened room gid).0
unfolding lookup
opened-IsRoom room gid v = elim (Option-cases (lookup (gid16 gid) room.groups)) [
  | inr (grp, e) ↦ rw (e, opened) v
  | inl e ↦
      rw (e, opened)
        (record {
          groups_ok = λ g grp found.
              ground (arith, new_group-IsGroup gid, v.groups_ok g grp, nat_beq_iff (gid16 gid) g);
          groups_distinct = (e, v.groups_distinct);
          counted = omega (arith, v.counted);
          groups_counted = omega (arith, v.groups_counted);
        })
]

opened_lem :
    (room : ChatRoom) (gid : ℕ)
    → (lookup (gid16 gid) (opened room gid).0.groups ≡ some (opened room gid).1)
      × ((opened room gid).0.rid ≡ room.rid)
      × ((h : ℕ) (k : ℕ × ℕ) → occupant (opened room gid).0 h k ≡ occupant room h k)
unfolding lookup occupant
opened_lem room gid = (
  ground (arith, nat_beq_iff (gid16 gid) (gid16 gid)),
  ground arith,
  λ h k. ground (arith, nat_beq_iff (gid16 gid) h),
)

-- Adding a session to a group of a room returns 0 within two rounds of the loop. The group, known by the
-- low 16 bits of its id, then has the session as a member, created if need be; the other members stay,
-- and the counters of the room and of its groups stay those of their contents.
pub chat_group_add_session-Enters :
    (room : ChatRoom) (gid sid cid : ℕ)
    → IsRoom room
    → (r : ChatRoom) × (chat_group_add_session 2 room gid sid cid ≡ some (ok, r))
      × Enters room (gid16 gid) sid cid r
chat_group_add_session-Enters room gid sid cid v =
    let (at, rid, same) = opened_lem room gid in
    let (done, t) =
      add_raw-Enters (opened room gid).0 (opened room gid).1 (gid16 gid) sid cid at
        (opened-IsRoom room gid v) in
    (
      _,
      chat_group_add_session_lem room gid sid cid ∙ ground (arith, done),
      record {
        valid = t.valid;
        rid = t.rid ∙ rid;
        members = λ h k. t.members h k ∙ rw (same h k) refl;
      },
    )
