-- ===== src/Chat/Members.antt =====
-- The rooms of the chat table seen as a relation: which session is a member of which group.
use beehive_im.Common.{
  ℕ, suc, ◌≡◌, Option, none, some, ◌∷◌, if◌then◌else◌, ◌==◌, ◌&&◌, nat_key, pair_key, nat_beq_iff,
  arith, refl, Option-cases, inl, inr, ◌∙◌,
}
use beehive_im.Table
use beehive_im.Table.{Table, lookup, update, Distinct}
use beehive_im.Table.Laws.{lookup-update, Distinct-update}
use beehive_im.Chat.{ok, Sid2cidItem, ChatRoom, ChatTab, gid16}
use beehive_im.Chat.Rooms.{
  chat_add_room, chat_room_add_session_raw, chat_room_del_session_raw, new_room,
}
use beehive_im.Chat.Rooms.Valid.{IsRoom, occupant, entry}
use beehive_im.Chat.Rooms.Enter.{chat_group_add_session-Enters}
use beehive_im.Chat.Rooms.Leave.{chat_group_del_session-Leaves}

unfoldable pub member : Table ℕ ChatRoom → ℕ → ℕ → ℕ × ℕ → Option Sid2cidItem
member rooms rid g k = elim (lookup rid rooms) [ none ↦ none | some room ↦ occupant room g k ]

-- Every room is well formed, and stands under its own id.
pub record AreRooms (rooms : Table ℕ ChatRoom) : Type 0 where
  pub distinct : Distinct rooms
  pub each : (rid : ℕ) (room : ChatRoom) → lookup rid rooms ≡ some room → IsRoom room
  pub named : (rid : ℕ) (room : ChatRoom) → lookup rid rooms ≡ some room → room.rid ≡ rid

update-AreRooms :
    (rooms : Table ℕ ChatRoom) (rid : ℕ) (new : ChatRoom)
    → AreRooms rooms
    → IsRoom new
    → new.rid ≡ rid
    → AreRooms (update rid new rooms)
update-AreRooms rooms rid new v w at = record {
  distinct = Distinct-update rid new rooms v.distinct;
  each = λ r room found.
      ground (arith, lookup-update r rid new rooms, v.each r room, nat_beq_iff rid r);
  named = λ r room found.
      ground (arith, lookup-update r rid new rooms, v.named r room, nat_beq_iff rid r);
}

member-update :
    (rooms : Table ℕ ChatRoom) (rid : ℕ) (old new : ChatRoom)
    → lookup rid rooms ≡ some old
    → (r h : ℕ) (k : ℕ × ℕ)
    → member (update rid new rooms) r h k
      ≡ (if rid == r then occupant new h k else member rooms r h k)
unfolding member
member-update rooms rid old new e r h k = ground (arith, lookup-update r rid new rooms, e)

-- `chat'` has valid rooms; in them (sid, cid) became `what` in group `g` of room `rid`. Nothing else changed.
pub record Places (what : Option Sid2cidItem) (chat : ChatTab) (rid g sid cid : ℕ) (chat' : ChatTab)
    : Type 0 where
  pub valid : AreRooms chat'.rooms
  pub members :
      (r h : ℕ) (k : ℕ × ℕ)
      → member chat'.rooms r h k
        ≡ (if rid == r && (g == h && (sid, cid) == k) then what else member chat.rooms r h k)
  pub sessions : chat'.sessions ≡ chat.sessions
  pub sid2cids : chat'.sid2cids ≡ chat.sid2cids

-- Taking a session out of a group of a room, whether or not the room, the group or the member exists.
pub chat_room_del_session_raw-Places :
    (chat : ChatTab) (rid gid sid cid : ℕ)
    → AreRooms chat.rooms
    → Places none chat rid (gid16 gid) sid cid (chat_room_del_session_raw chat rid gid sid cid)
unfolding chat_room_del_session_raw
chat_room_del_session_raw-Places chat rid gid sid cid v =
    elim (Option-cases (lookup rid chat.rooms)) [
      | inl e ↦
          rw (e, chat_room_del_session_raw)
            (record {
              valid = v;
              members = λ r h k. unfold member in (ground (arith, e, nat_beq_iff rid r));
              sessions = refl;
              sid2cids = refl;
            })
      | inr (room, e) ↦
          let t = chat_group_del_session-Leaves room gid sid cid (v.each rid room e) in
          rw (e, chat_room_del_session_raw)
            (record {
              valid = update-AreRooms chat.rooms rid _ v t.valid (t.rid ∙ v.named rid room e);
              members = λ r h k.
                  member-update chat.rooms rid room _ e r h k
                  ∙ (unfold member in (ground (arith, e, t.members h k, nat_beq_iff rid r)));
              sessions = refl;
              sid2cids = refl;
            })
    ]

-- The table with the room, as `chat_add_room` makes it.
new_room-IsRoom : (rid now : ℕ) → IsRoom (new_room rid now)
unfolding lookup
new_room-IsRoom rid now = record {
  groups_ok = λ g grp h. cc;
  groups_distinct = tt;
  counted = omega arith;
  groups_counted = omega arith;
}

enter_old :
    (fuel : ℕ) (chat : ChatTab) (now rid gid sid cid : ℕ) (room : ChatRoom)
    → AreRooms chat.rooms
    → lookup rid chat.rooms ≡ some room
    → (chat' : ChatTab) × (chat_room_add_session_raw (suc fuel) chat now rid gid sid cid
        ≡ some (ok, chat'))
      × Places (some (entry sid cid)) chat rid (gid16 gid) sid cid chat'
unfolding chat_room_add_session_raw
enter_old fuel chat now rid gid sid cid room v e =
    let (room', run, t) = chat_group_add_session-Enters room gid sid cid (v.each rid room e) in
    (
      record chat { rooms = update rid room' chat.rooms },
      rw (e, chat_room_add_session_raw, run) refl,
      record {
        valid = update-AreRooms chat.rooms rid _ v t.valid (t.rid ∙ v.named rid room e);
        members = λ r h k.
            member-update chat.rooms rid room _ e r h k
            ∙ (unfold member in (ground (arith, e, t.members h k, nat_beq_iff rid r)));
        sessions = refl;
        sid2cids = refl;
      },
    )

add_room-AreRooms :
    (rooms : Table ℕ ChatRoom) (rid now : ℕ)
    → AreRooms rooms
    → lookup rid rooms ≡ none
    → AreRooms ((rid, new_room rid now) ∷ rooms)
unfolding lookup
add_room-AreRooms rooms rid now v e = record {
  distinct = (e, v.distinct);
  each = λ r room found. ground (arith, new_room-IsRoom rid now, v.each r room);
  named = λ r room found. ground (arith, v.named r room, nat_beq_iff rid r);
}

retry_lem :
    (fuel : ℕ) (chat : ChatTab) (now rid gid sid cid : ℕ)
    → lookup rid chat.rooms ≡ none
    → chat_room_add_session_raw (suc fuel) chat now rid gid sid cid
      ≡ chat_room_add_session_raw fuel (chat_add_room chat now rid).1 now rid gid sid cid
unfolding chat_room_add_session_raw
retry_lem fuel chat now rid gid sid cid e = rw (e, chat_room_add_session_raw)

chat_add_room_lem :
    (chat : ChatTab) (now rid : ℕ)
    → lookup rid chat.rooms ≡ none
    → chat_add_room chat now rid
      ≡ (ok, record chat { rooms = (rid, new_room rid now) ∷ chat.rooms })
unfolding chat_add_room Table.insert
chat_add_room_lem chat now rid e = rw (e, chat_add_room, Table.insert)

-- Entering a room takes at most two rounds of the loop, and it never fails: the room is made if it is missing.
pub chat_room_add_session_raw-Places :
    (chat : ChatTab) (now rid gid sid cid : ℕ)
    → AreRooms chat.rooms
    → (chat' : ChatTab) × (chat_room_add_session_raw 2 chat now rid gid sid cid ≡ some (ok, chat'))
      × Places (some (entry sid cid)) chat rid (gid16 gid) sid cid chat'
chat_room_add_session_raw-Places chat now rid gid sid cid v =
    elim (Option-cases (lookup rid chat.rooms)) [
      | inr (room, e) ↦ enter_old 1 chat now rid gid sid cid room v e
      | inl e ↦
          let (chat', run, t) =
            enter_old 0 (record chat { rooms = (rid, new_room rid now) ∷ chat.rooms }) now rid gid
              sid cid (new_room rid now) (add_room-AreRooms chat.rooms rid now v e)
              (unfold lookup in (ground (arith, nat_beq_iff rid rid))) in
          (
            chat',
            retry_lem 1 chat now rid gid sid cid e ∙ rw (chat_add_room_lem chat now rid e) run,
            record {
              valid = t.valid;
              members = λ r h k.
                  t.members r h k
                  ∙ (unfold member lookup occupant in (ground (arith, e, nat_beq_iff rid r)));
              sessions = t.sessions;
              sid2cids = t.sid2cids;
            },
          )
    ]
