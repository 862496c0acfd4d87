-- ===== src/Chat/Sessions/Delete.antt =====
-- `chat_del_session` of chat.c.
use beehive_im.Common.{
  Bool, false, ◌||◌, ℕ, ◌≡◌, none, some, [], ◌∷◌, if◌then◌else◌, ◌==◌, ◌&&◌, nat_key, pair_key,
  pair_beq_iff, arith, refl, true, Option-cases, inl, inr, ◌∙◌,
}
use beehive_im.Table
use beehive_im.Table.{Table, lookup, update}
use beehive_im.Table.Laws.{lookup-delete}
use beehive_im.Chat.{RoomItem, ChatSession, ChatTab, gid16}
use beehive_im.Chat.Rooms.{chat_room_del_session_raw}
use beehive_im.Chat.Members.{member, AreRooms, chat_room_del_session_raw-Places}
use beehive_im.Chat.Sessions.{
  chat_room_trav_del_session, chat_drop_session, chat_del_session, chat_del_sid_to_cid,
}
use beehive_im.Chat.Sessions.Valid.{room_of, IsChat, member-eq-none}

-- Some entry of the list is about the group `h` of the room `r`.
listed : ℕ → ℕ → Table ℕ RoomItem → Bool
listed r h [] = false
listed r h ((i, item) ∷ items) = (item.rid == r && gid16 item.gid == h) || listed r h items

listed-lookup :
    (r : ℕ) (item : RoomItem) (items : Table ℕ RoomItem)
    → lookup r items ≡ some item
    → item.rid ≡ r
    → listed r (gid16 item.gid) items ≡ true
unfolding listed lookup
listed-lookup r item [] found at = cc
listed-lookup r item ((i, j) ∷ items) found at = ground (arith, listed-lookup r item items)

-- Leaving every room on a list.
record Empties (chat : ChatTab) (items : Table ℕ RoomItem) (sid cid : ℕ) (chat' : ChatTab)
    : Type 0 where
  valid : AreRooms chat'.rooms
  members :
      (r h : ℕ) (k : ℕ × ℕ)
      → member chat'.rooms r h k
        ≡ (if (sid, cid) == k && listed r h items then none else member chat.rooms r h k)
  sessions : chat'.sessions ≡ chat.sessions
  sid2cids : chat'.sid2cids ≡ chat.sid2cids

trav-Empties :
    (chat : ChatTab) (items : Table ℕ RoomItem) (sid cid : ℕ)
    → AreRooms chat.rooms
    → Empties chat items sid cid (chat_room_trav_del_session chat items sid cid)
unfolding chat_room_trav_del_session listed
trav-Empties chat [] sid cid v = record {
  valid = v;
  members = λ r h k. ground arith;
  sessions = refl;
  sid2cids = refl;
}
trav-Empties chat ((i, item) ∷ items) sid cid v =
    let t = chat_room_del_session_raw-Places chat item.rid item.gid sid cid v in
    let u =
      trav-Empties (chat_room_del_session_raw chat item.rid item.gid sid cid) items sid cid
        t.valid in
    record {
      valid = u.valid;
      members = λ r h k. ground (arith, u.members r h k, t.members r h k);
      sessions = u.sessions ∙ t.sessions;
      sid2cids = u.sid2cids ∙ t.sid2cids;
    }

-- The table after `chat_del_session`, past the link of the connection.
module _ (chat : ChatTab) (sid cid : ℕ) (v : IsChat chat) (s : ChatSession)
    (e : lookup (sid, cid) chat.sessions ≡ some s) (chat' : ChatTab)
    (t : Empties
      (record chat { sessions = Table.delete (sid, cid) chat.sessions })
      s.room
      sid
      cid
      chat') where
  room_of-deleted :
      (r : ℕ) (k : ℕ × ℕ)
      → room_of chat'.sessions r k
        ≡ (if pair_key.beq (sid, cid) k then none else room_of chat.sessions r k)
  unfolding room_of
  room_of-deleted r k = ground (arith, t.sessions, lookup-delete k (sid, cid) chat.sessions)

  listed_home :
      (r h : ℕ) (k : ℕ × ℕ) (item : RoomItem)
      → pair_key.beq (sid, cid) k ≡ true
      → room_of chat.sessions r k ≡ some item
      → listed r (gid16 item.gid) s.room ≡ true
  unfolding room_of
  listed_home r h k item c found =
      let q = (pair_beq_iff (sid, cid) k).0 c in
      listed-lookup r item s.room (ground (arith, e, q))
        (v.items r k item (unfold room_of in found))

  vanished :
      (r h : ℕ) (k : ℕ × ℕ) → pair_key.beq (sid, cid) k ≡ true → member chat'.rooms r h k ≡ none
  vanished r h k c = elim (Option-cases (member chat.rooms r h k)) [
    | inl none_before ↦ ground (arith, t.members r h k)
    | inr (x, before) ↦ elim (Option-cases (room_of chat.sessions r k)) [
      | inl away ↦ ground (arith, v.owned r h k x before)
      | inr (item, found) ↦
          ground (arith, t.members r h k, v.owned r h k x before, listed_home r h k item c found)
    ]
  ]

  deleted-IsChat : IsChat chat'
  deleted-IsChat = record {
    rooms_ok = t.valid;
    keyed = λ k u found.
        ground (arith, t.sessions, v.keyed k u, lookup-delete k (sid, cid) chat.sessions);
    items = λ r k item found. ground (arith, room_of-deleted r k, v.items r k item);
    owned = λ r g k x found.
        ground (arith, room_of-deleted r k, v.owned r g k x, vanished r g k, t.members r g k);
  }

  deleted-members :
      (r h : ℕ) (k : ℕ × ℕ)
      → member chat'.rooms r h k ≡ (if (sid, cid) == k then none else member chat.rooms r h k)
  deleted-members r h k = ground (arith, t.members r h k, vanished r h k)

unlink_lem :
    (chat : ChatTab) (sid cid : ℕ)
    → ((chat_del_sid_to_cid chat sid cid).rooms ≡ chat.rooms)
      × ((chat_del_sid_to_cid chat sid cid).sessions ≡ chat.sessions)
unfolding chat_del_sid_to_cid
unlink_lem chat sid cid = ground arith

unlink-IsChat :
    (chat : ChatTab) (sid cid : ℕ) → IsChat chat → IsChat (chat_del_sid_to_cid chat sid cid)
unfolding chat_del_sid_to_cid
unlink-IsChat chat sid cid v = record {
  rooms_ok = rw (unlink_lem chat sid cid).0 v.rooms_ok;
  keyed = rw (unlink_lem chat sid cid).1 v.keyed;
  items = rw (unlink_lem chat sid cid).1 v.items;
  owned = rw ((unlink_lem chat sid cid).0, (unlink_lem chat sid cid).1) v.owned;
}

absent_at :
    (chat : ChatTab) (sid cid : ℕ)
    → IsChat chat
    → lookup (sid, cid) chat.sessions ≡ none
    → (r h : ℕ) (k : ℕ × ℕ) → pair_key.beq (sid, cid) k ≡ true
    → member chat.rooms r h k ≡ none
absent_at chat sid cid v e r h k c =
    member-eq-none chat r h k v
      (unfold room_of in (rw (← (pair_beq_iff (sid, cid) k).0 c) (rw (e, room_of))))

-- What `chat_del_session` promises, of the table before and after.
abbrev Deletes : ChatTab → ℕ → ℕ → ChatTab → Type 0
Deletes chat sid cid chat' =
    IsChat chat'
    × (lookup (sid, cid) chat'.sessions ≡ none)
    × ((r h : ℕ) (k : ℕ × ℕ)
        → member chat'.rooms r h k ≡ (if (sid, cid) == k then none else member chat.rooms r h k))

drop-Deletes :
    (chat : ChatTab) (sid cid : ℕ)
    → IsChat chat
    → Deletes chat sid cid (chat_drop_session chat sid cid)
unfolding chat_drop_session
drop-Deletes chat sid cid v = elim (Option-cases (lookup (sid, cid) chat.sessions)) [
  | inl e ↦
      rw (e, chat_drop_session) (v, e, λ r h k. ground (arith, absent_at chat sid cid v e r h k))
  | inr (s, e) ↦
      let t =
        trav-Empties (record chat { sessions = Table.delete (sid, cid) chat.sessions }) s.room sid
          cid v.rooms_ok in
      let (p, q) = v.keyed (sid, cid) s e in
      rw (e, chat_drop_session, p, q)
        (
          deleted-IsChat chat sid cid v s e _ t,
          rw t.sessions (
              ground (
                arith,
                lookup-delete (sid, cid) (sid, cid) chat.sessions,
                pair_beq_iff (sid, cid) (sid, cid),
              )),
          deleted-members chat sid cid v s e _ t,
        )
]

-- Deleting a session keeps the invariant. Afterwards the session is not known, it is a member of no group
-- of any room, and every other member of every room stays.
pub chat_del_session-IsChat :
    (chat : ChatTab) (sid cid : ℕ)
    → IsChat chat
    → IsChat (chat_del_session chat sid cid)
      × (lookup (sid, cid) (chat_del_session chat sid cid).sessions ≡ none)
      × ((r h : ℕ) (k : ℕ × ℕ)
          → member (chat_del_session chat sid cid).rooms r h k
            ≡ (if (sid, cid) == k then none else member chat.rooms r h k))
unfolding chat_del_session
chat_del_session-IsChat chat sid cid v =
    let (w, away, members) = drop-Deletes _ sid cid (unlink-IsChat chat sid cid v) in
    (w, away, λ r h k. members r h k ∙ rw (unlink_lem chat sid cid).0 refl)
