-- ===== src/Chat/Sessions/Join.antt =====
-- `chat_room_add_session` of chat.c.
use beehive_im.Common.{
  ℕ, ◌≡◌, none, some, [], ◌∷◌, if◌then◌else◌, ◌==◌, ◌&&◌, nat_key, pair_key, nat_beq_iff,
  pair_beq_iff, arith, refl, ap, true, Option-cases, inl, inr,
}
use beehive_im.Table.{lookup, update}
use beehive_im.Table.Laws.{lookup-update, insert-none}
use beehive_im.Chat.{ok, ChatSession, ChatTab, gid16}
use beehive_im.Chat.Rooms.{chat_session_tab_add}
use beehive_im.Chat.Rooms.Valid.{entry}
use beehive_im.Chat.Members.{member, Places, chat_room_add_session_raw-Places}
use beehive_im.Chat.Sessions.{chat_session_join, chat_session_index, chat_room_add_session}
use beehive_im.Chat.Sessions.Valid.{room_of, IsChat}

module _ (chat : ChatTab) (now rid gid sid cid : ℕ) (v : IsChat chat) where
  fresh : ChatSession
  fresh = record {
    sid = sid;
    cid = cid;
    room = (rid, record { rid = rid; gid = gid }) ∷ [];
    sub = [];
  }

  module _ (new : lookup (sid, cid) chat.sessions ≡ none) (chat' : ChatTab)
      (t : Places (some (entry sid cid)) chat rid (gid16 gid) sid cid chat') where
    joined : ChatTab
    joined = record chat' { sessions = ((sid, cid), fresh) ∷ chat'.sessions }

    room_of-joined :
        (r : ℕ) (k : ℕ × ℕ)
        → room_of joined.sessions r k ≡ (
            if pair_key.beq (sid, cid) k
            then (if rid == r then some (record { rid = rid; gid = gid }) else none)
            else room_of chat.sessions r k)
    unfolding joined fresh room_of lookup
    room_of-joined r k = ground (arith, t.sessions, new, pair_beq_iff (sid, cid) k)

    nowhere :
        (r : ℕ) (k : ℕ × ℕ) → pair_key.beq (sid, cid) k ≡ true → room_of chat.sessions r k ≡ none
    unfolding room_of
    nowhere r k h = rw (← (pair_beq_iff (sid, cid) k).0 h) (rw (new, room_of))

    index_lem : chat_session_index (ok, chat') rid gid sid cid ≡ (0, joined)
    unfolding chat_session_index chat_session_tab_add joined fresh
    index_lem = ground (arith, insert-none (sid, cid) fresh chat'.sessions (rw t.sessions new))

    joined-IsChat : IsChat joined
    joined-IsChat = record {
      rooms_ok = unfold joined in t.valid;
      keyed = λ k s found.
          unfold joined fresh lookup in
          (ground (arith, t.sessions, v.keyed k s, pair_beq_iff (sid, cid) k));
      items =
          λ r k item found. ground (arith, room_of-joined r k, v.items r k item, nat_beq_iff rid r);
      owned = λ r g k x found.
          unfold joined in
          ground (
            arith,
            (t.members r g k),
            room_of-joined r k,
            v.owned r g k x,
            nowhere r k,
            nat_beq_iff rid r,
            nat_beq_iff (gid16 gid) g,
          );
    }

  -- In a valid table, adding a session that is not known yet to a group of a room returns 0 and makes the session a member of that
  -- group, by the low 16 bits of the group's id, whether or not the room and the group were there. No other member
  -- of any group changes, and the table stays valid.
  pub add_session_new :
      lookup (sid, cid) chat.sessions ≡ none
      → (chat' : ChatTab) × (chat_room_add_session chat now rid gid sid cid ≡ some (0, chat'))
        × IsChat chat'
        × ((r h : ℕ) (k : ℕ × ℕ)
            → member chat'.rooms r h k ≡ (
                if rid == r && (gid16 gid == h && (sid, cid) == k)
                then some (entry sid cid)
                else member chat.rooms r h k))
  unfolding chat_room_add_session
  add_session_new new =
      let (chat', run, t) = chat_room_add_session_raw-Places chat now rid gid sid cid v.rooms_ok in
      (
        joined new chat' t,
        rw (new, chat_room_add_session, run) (ap some (index_lem new chat' t)),
        joined-IsChat new chat' t,
        λ r h k. unfold joined in t.members r h k,
      )

  module _ (s : ChatSession) (old : lookup (sid, cid) chat.sessions ≡ some s) where
    widened : ChatTab
    widened = record chat {
      sessions =
          update (sid, cid) (record s { room = (rid, record { rid = rid; gid = gid }) ∷ s.room })
            chat.sessions;
    }

    room_of-widened :
        (r : ℕ) (k : ℕ × ℕ)
        → lookup rid s.room ≡ none
        → room_of widened.sessions r k ≡ (
            if pair_key.beq (sid, cid) k && rid == r
            then some (record { rid = rid; gid = gid })
            else room_of chat.sessions r k)
    unfolding widened room_of lookup
    room_of-widened r k out = ground (
      arith,
      old,
      pair_beq_iff (sid, cid) k,
      lookup-update k (sid, cid)
          (record s { room = (rid, record { rid = rid; gid = gid }) ∷ s.room }) chat.sessions,
    )

    unknown :
        lookup rid s.room ≡ none
        → (r : ℕ) (k : ℕ × ℕ) → pair_key.beq (sid, cid) k ≡ true
        → rid ≡ r
        → room_of chat.sessions r k ≡ none
    unfolding room_of
    unknown out r k h same = rw (← (pair_beq_iff (sid, cid) k).0 h, ← same) (rw (old, room_of) out)

    widened-IsChat : lookup rid s.room ≡ none → IsChat widened
    widened-IsChat out = record {
      rooms_ok = unfold widened in v.rooms_ok;
      keyed = λ k u found.
          unfold widened in
          ground (
            arith,
            v.keyed k u,
            v.keyed k s,
            old,
            pair_beq_iff (sid, cid) k,
            lookup-update k (sid, cid)
                (record s { room = (rid, record { rid = rid; gid = gid }) ∷ s.room }) chat.sessions,
          );
      items = λ r k item found.
          ground (arith, room_of-widened r k out, v.items r k item, nat_beq_iff rid r);
      owned = λ r g k x found.
          unfold widened in
          ground (
            arith,
            room_of-widened r k out,
            v.owned r g k x,
            nat_beq_iff rid r,
            pair_beq_iff (sid, cid) k,
            unknown out r k,
          );
    }

    -- In a valid table, adding a session that is known already returns and keeps the table valid, but changes no room: the session
    -- enters no group.
    pub add_session_known :
        (chat' : ChatTab) × (n : ℕ) × (chat_room_add_session chat now rid gid sid cid
          ≡ some (n, chat'))
        × IsChat chat'
        × (chat'.rooms ≡ chat.rooms)
    unfolding chat_room_add_session chat_session_join widened
    add_session_known = elim (Option-cases (lookup rid s.room)) [
      | inr (item, joined) ↦
          (chat, item.gid, rw (old, chat_room_add_session, joined, chat_session_join), v, refl)
      | inl out ↦ (
        widened,
        gid,
        rw
            (
              old,
              chat_room_add_session,
              out,
              chat_session_join,
              insert-none rid (record { rid = rid; gid = gid }) s.room out,
            )
            (ground (arith, v.keyed (sid, cid) s old)),
        widened-IsChat out,
        refl,
      )
    ]
