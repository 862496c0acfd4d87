-- ===== src/Chat/Rooms/Leave.antt =====
-- Deleting a member of a room, of chat_tab.c.
use beehive_im.Common.{
  ℕ, suc, ◌≡◌, none, some, if◌then◌else◌, ◌==◌, ◌&&◌, arith, refl, Option-cases, inl, inr, nat_key,
  pair_key, nat_beq_iff, pair_beq_iff, length, ◌∙◌,
}
use beehive_im.Table
use beehive_im.Table.{Table, lookup, update, Distinct, sum_by}
use beehive_im.Table.Laws.{lookup-delete, length-delete, Distinct-delete}
use beehive_im.Chat.{ok, Sid2cidItem, ChatGroup, ChatRoom, dec64, gid16}
use beehive_im.Chat.Rooms.{chat_group_del_session_raw, chat_group_del_session}
use beehive_im.Chat.Rooms.Valid.{
  IsGroup, IsRoom, occupant, swap_group, occupant-swap_group, swap_group-IsRoom,
}

-- The room `r` is valid, and differs from `room` in that (sid, cid) is no member of `g` in it.
pub record Leaves (room : ChatRoom) (g sid cid : ℕ) (r : ChatRoom) : Type 0 where
  pub valid : IsRoom r
  pub rid : r.rid ≡ room.rid
  pub members :
      (h : ℕ) (k : ℕ × ℕ)
      → occupant r h k ≡ (if g == h && (sid, cid) == k then none else occupant room h k)

module _ (room : ChatRoom) (grp : ChatGroup) (g sid cid : ℕ) (e : lookup g room.groups ≡ some grp)
    (v : IsRoom room) (x : Sid2cidItem) (there : lookup (sid, cid) grp.sid_set ≡ some x) where
  -- The group with one member less.
  narrower : ChatGroup
  narrower = record grp {
    sid_set = Table.delete (sid, cid) grp.sid_set;
    sid_num = dec64 grp.sid_num;
  }

  fewer : suc (length (Table.delete (sid, cid) grp.sid_set)) ≡ length grp.sid_set
  fewer = length-delete (sid, cid) grp.sid_set (v.groups_ok g grp e).distinct there

  narrower-IsGroup : IsGroup g narrower
  unfolding narrower
  narrower-IsGroup =
      let w = v.groups_ok g grp e in
      record {
        at = w.at;
        counted = omega (arith, w.counted, fewer);
        distinct = Distinct-delete (sid, cid) grp.sid_set w.distinct;
        named = λ k y found. ground (arith, w.named k y, lookup-delete k (sid, cid) grp.sid_set);
      }

  del_raw-Leaves :
      ((chat_group_del_session_raw room grp sid cid).0 ≡ ok)
      × Leaves room g sid cid (chat_group_del_session_raw room grp sid cid).1
  del_raw-Leaves =
      let w = v.groups_ok g grp e in
      let shut : chat_group_del_session_raw room grp sid cid
          ≡ (ok, swap_group room grp g e narrower (dec64 room.sid_num)) =
        unfold chat_group_del_session_raw swap_group narrower in (ground (arith, there, w.at)) in
      rw shut (
        refl,
        record {
          valid =
              swap_group-IsRoom room grp g e narrower (dec64 room.sid_num) v narrower-IsGroup
                (unfold narrower in (omega (arith, fewer))) (omega arith);
          rid = unfold swap_group in refl;
          members = λ h k.
              occupant-swap_group room grp g e narrower (dec64 room.sid_num) h k
              ∙ (unfold narrower occupant in
                  (ground (arith, e, nat_beq_iff g h, lookup-delete k (sid, cid) grp.sid_set)));
        },
      )

-- Deleting a session from a group of a room fails only if the group is not there. In any case the session
-- is no member of the group afterwards, the other members stay, and the counters are right.
pub chat_group_del_session-Leaves :
    (room : ChatRoom) (gid sid cid : ℕ)
    → IsRoom room
    → Leaves room (gid16 gid) sid cid (chat_group_del_session room gid sid cid).1
unfolding chat_group_del_session occupant
chat_group_del_session-Leaves room gid sid cid v =
    elim (Option-cases (lookup (gid16 gid) room.groups)) [
      | inl e ↦
          rw (e, chat_group_del_session)
            (record {
              valid = v;
              rid = refl;
              members = λ h k. ground (arith, e, nat_beq_iff (gid16 gid) h);
            })
      | inr (grp, e) ↦ elim (Option-cases (lookup (sid, cid) grp.sid_set)) [
        | inl away ↦
            rw (e, chat_group_del_session, away, chat_group_del_session_raw)
              (record {
                valid = v;
                rid = refl;
                members = λ h k.
                    ground (arith, e, away, nat_beq_iff (gid16 gid) h, pair_beq_iff (sid, cid) k);
              })
        | inr (x, there) ↦
            rw (e, chat_group_del_session)
              (del_raw-Leaves room grp (gid16 gid) sid cid e v x there).1
      ]
    ]
