-- ===== src/Chat/Sessions/Leave.antt =====
-- `chat_room_del_session` and `chat_del_session` of chat.c.
use beehive_im.Common.{
  false, ℕ, ◌≡◌, none, some, if◌then◌else◌, ◌==◌, ◌&&◌, nat_key, pair_key, nat_beq_iff,
  pair_beq_iff, arith, true, Option-cases, inl, inr,
}
use beehive_im.Table
use beehive_im.Table.{Table, lookup, update}
use beehive_im.Table.Laws.{lookup-update, lookup-delete}
use beehive_im.Chat.{RoomItem, ChatSession, ChatTab, gid16}
use beehive_im.Chat.Members.{member, Places, chat_room_del_session_raw-Places}
use beehive_im.Chat.Sessions.{chat_room_del_session}
use beehive_im.Chat.Sessions.Valid.{room_of, IsChat, member-eq-none}

-- Leaving one room.
module _ (chat : ChatTab) (rid sid cid : ℕ) (v : IsChat chat) (s : ChatSession)
    (old : lookup (sid, cid) chat.sessions ≡ some s) (item : RoomItem)
    (there : lookup rid s.room ≡ some item) where
  reduced : ChatSession
  reduced = record s { room = Table.delete rid s.room }

  forgetful : ChatTab
  forgetful = record chat { sessions = update (sid, cid) reduced chat.sessions }

  at_home : item.rid ≡ rid
  at_home = v.items rid (sid, cid) item (unfold room_of in rw (old, room_of) there)

  room_of-forgetful :
      (r : ℕ) (k : ℕ × ℕ)
      → room_of forgetful.sessions r k
        ≡ (if pair_key.beq (sid, cid) k && rid == r then none else room_of chat.sessions r k)
  unfolding room_of forgetful reduced
  room_of-forgetful r k = ground (
    arith,
    old,
    pair_beq_iff (sid, cid) k,
    lookup-update k (sid, cid) reduced chat.sessions,
    lookup-delete r rid s.room,
  )

  home_group :
      (k : ℕ × ℕ) → pair_key.beq (sid, cid) k ≡ true → room_of chat.sessions rid k ≡ some item
  unfolding room_of
  home_group k h = rw (← (pair_beq_iff (sid, cid) k).0 h) (rw (old, room_of) there)

  module _ (chat' : ChatTab)
      (t : Places none forgetful item.rid (gid16 item.gid) sid cid chat') where
    left-IsChat : IsChat chat'
    left-IsChat = record {
      rooms_ok = t.valid;
      keyed = λ k u found.
          unfold forgetful reduced in
          ground (
            arith,
            t.sessions,
            v.keyed k u,
            v.keyed k s,
            old,
            pair_beq_iff (sid, cid) k,
            lookup-update k (sid, cid) (record s { room = Table.delete rid s.room }) chat.sessions,
          );
      items = λ r k i found. ground (arith, t.sessions, room_of-forgetful r k, v.items r k i);
      owned = λ r g k x found.
          unfold forgetful in
          ground (
            arith,
            at_home,
            t.sessions,
            t.members r g k,
            room_of-forgetful r k,
            v.owned r g k x,
            nat_beq_iff rid r,
            nat_beq_iff item.rid r,
            nat_beq_iff (gid16 item.gid) g,
            home_group k,
            pair_beq_iff (sid, cid) k,
          );
    }

    gone :
        (r h : ℕ) (k : ℕ × ℕ)
        → (if pair_key.beq (sid, cid) k && rid == r then true else false) ≡ true
        → member chat'.rooms r h k ≡ none
    gone r h k c =
        member-eq-none chat' r h k left-IsChat (ground (arith, t.sessions, room_of-forgetful r k))

    left-members :
        (r h : ℕ) (k : ℕ × ℕ)
        → member chat'.rooms r h k
          ≡ (if rid == r && (sid, cid) == k then none else member chat.rooms r h k)
    unfolding forgetful
    left-members r h k =
        ground
          (arith, t.members r h k, gone r h k, at_home, nat_beq_iff rid r, nat_beq_iff item.rid r)

-- A session that is not there, or not in the room, is no member of it.
module _ (chat : ChatTab) (rid sid cid : ℕ) (v : IsChat chat)
    (out : room_of chat.sessions rid (sid, cid) ≡ none) where
  out-at : (r h : ℕ) (k : ℕ × ℕ) → rid ≡ r → (sid, cid) ≡ k → member chat.rooms r h k ≡ none
  out-at r h k p q = rw (← p, ← q) (member-eq-none chat rid h (sid, cid) v out)

  out_already :
      (r h : ℕ) (k : ℕ × ℕ)
      → member chat.rooms r h k
        ≡ (if rid == r && (sid, cid) == k then none else member chat.rooms r h k)
  out_already r h k = ground (arith, nat_beq_iff rid r, pair_beq_iff (sid, cid) k, out-at r h k)

-- Leaving one room keeps the invariant, and the session is a member of no group of that room afterwards;
-- every other member of every room stays.
pub chat_room_del_session-IsChat :
    (chat : ChatTab) (rid sid cid : ℕ)
    → IsChat chat
    → IsChat (chat_room_del_session chat rid sid cid)
      × ((r h : ℕ) (k : ℕ × ℕ)
          → member (chat_room_del_session chat rid sid cid).rooms r h k
            ≡ (if rid == r && (sid, cid) == k then none else member chat.rooms r h k))
unfolding chat_room_del_session room_of
chat_room_del_session-IsChat chat rid sid cid v =
    elim (Option-cases (lookup (sid, cid) chat.sessions)) [
      | inl e ↦ rw (e, chat_room_del_session) (v, out_already chat rid sid cid v (rw (e, room_of)))
      | inr (s, e) ↦ elim (Option-cases (lookup rid s.room)) [
        | inl out ↦
            rw (e, chat_room_del_session, out)
              (v, out_already chat rid sid cid v (rw (e, room_of) out))
        | inr (item, there) ↦
            let t =
              chat_room_del_session_raw-Places (forgetful chat rid sid cid v s e item there)
                item.rid item.gid sid cid (unfold forgetful in v.rooms_ok) in
            rw (e, chat_room_del_session, there)
              (
                unfold forgetful reduced in (left-IsChat chat rid sid cid v s e item there _ t),
                unfold forgetful reduced in (left-members chat rid sid cid v s e item there _ t),
              )
      ]
    ]
