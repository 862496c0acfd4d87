-- ===== src/Chat/Rooms.antt =====
-- Rooms, their groups and the members of these: src/clang/lib/chat/chat_tab.c.
pub mod Valid
pub mod Enter
pub mod Leave
use mathlib.Core.Option
use beehive_im.Common.{
  ℕ, zero, suc, ◌+◌, ◌-◌, ◌%◌, ◌^◌, ◌≡◌, Bool, true, false, Option, none, some, List, [], ◌∷◌, ◌++◌,
  map, if◌then◌else◌, ◌==◌, nat_key, pair_key,
}
use beehive_im.Table
use beehive_im.Table.{Table, lookup, update}
use beehive_im.Chat.{
  Status, ok, fail, Sid2cidItem, RoomItem, ChatSession, ChatGroup, ChatRoom, ChatTab, inc64, dec64,
  inc32, gid16,
}

abbrev pub new_group : ℕ → ChatGroup
new_group gid = record { gid = gid16 gid; sid_num = 0; sid_set = [] }

abbrev pub new_room : ℕ → ℕ → ChatRoom
new_room rid now = record { rid = rid; sid_num = 0; grp_num = 0; create_tm = now; groups = [] }

unfoldable pub chat_add_room : ChatTab → ℕ → ℕ → Status × ChatTab
chat_add_room chat now rid = elim (Table.insert rid (new_room rid now) chat.rooms) [
  | none ↦ (fail, chat)
  | some rooms ↦ (ok, record chat { rooms = rooms })
]

unfoldable pub chat_group_add_by_gid : ChatRoom → ℕ → Status × ChatRoom
chat_group_add_by_gid room gid = elim (Table.insert (gid16 gid) (new_group gid) room.groups) [
  | none ↦ (fail, room)
  | some groups ↦ (ok, record room { groups = groups; grp_num = inc32 room.grp_num })
]

-- `_chat_group_add_session`: the group is one of the room's. A member that is there already is no
-- failure.
unfoldable pub chat_group_add_session_raw : ChatRoom → ChatGroup → ℕ → ℕ → Status × ChatRoom
chat_group_add_session_raw room grp sid cid =
    elim (Table.insert (sid, cid) (record { sid = sid; cid = cid }) grp.sid_set) [
      | none ↦ (ok, room)
      | some sid_set ↦
          let grp' : ChatGroup = record grp { sid_set = sid_set; sid_num = inc64 grp.sid_num } in
          (
            ok,
            record room { groups = update grp.gid grp' room.groups; sid_num = inc64 room.sid_num },
          )
    ]

-- The rounds of `QUERY_GROUP` are fuel.
unfoldable pub chat_group_add_session : ℕ → ChatRoom → ℕ → ℕ → ℕ → Option (Status × ChatRoom)
chat_group_add_session zero room gid sid cid = none
chat_group_add_session (suc fuel) room gid sid cid = elim (lookup (gid16 gid) room.groups) [
  | none ↦ chat_group_add_session fuel (chat_group_add_by_gid room gid).1 gid sid cid
  | some grp ↦ some (chat_group_add_session_raw room grp sid cid)
]

-- `_chat_room_add_session`; the rounds of `QUERY_ROOM` are fuel.
unfoldable pub chat_room_add_session_raw :
    ℕ → ChatTab → ℕ → ℕ → ℕ → ℕ → ℕ → Option (Status × ChatTab)
chat_room_add_session_raw zero chat now rid gid sid cid = none
chat_room_add_session_raw (suc fuel) chat now rid gid sid cid = elim (lookup rid chat.rooms) [
  | none ↦ chat_room_add_session_raw fuel (chat_add_room chat now rid).1 now rid gid sid cid
  | some room ↦
      Option.map (λ r. (r.0, record chat { rooms = update rid r.1 chat.rooms }))
        (chat_group_add_session 2 room gid sid cid)
]

-- `_chat_group_del_session`
unfoldable pub chat_group_del_session_raw : ChatRoom → ChatGroup → ℕ → ℕ → Status × ChatRoom
chat_group_del_session_raw room grp sid cid = elim (lookup (sid, cid) grp.sid_set) [
  | none ↦ (ok, room)
  | some item ↦
      let grp' : ChatGroup = record grp {
        sid_set = Table.delete (sid, cid) grp.sid_set;
        sid_num = dec64 grp.sid_num;
      } in
      (ok, record room { groups = update grp.gid grp' room.groups; sid_num = dec64 room.sid_num })
]

unfoldable pub chat_group_del_session : ChatRoom → ℕ → ℕ → ℕ → Status × ChatRoom
unfolding chat_group_del_session_raw
chat_group_del_session room gid sid cid = elim (lookup (gid16 gid) room.groups) [
  | none ↦ (fail, room)
  | some grp ↦ chat_group_del_session_raw room grp sid cid
]

-- `_chat_room_del_session`; it returns 0 in any case.
unfoldable pub chat_room_del_session_raw : ChatTab → ℕ → ℕ → ℕ → ℕ → ChatTab
chat_room_del_session_raw chat rid gid sid cid = elim (lookup rid chat.rooms) [
  | none ↦ chat
  | some room ↦ record chat {
    rooms = update rid (chat_group_del_session room gid sid cid).1 chat.rooms;
  }
]

unfoldable pub chat_session_tab_add : ChatTab → ℕ → ℕ → ℕ → ℕ → Status × ChatTab
chat_session_tab_add chat rid gid sid cid =
    let session : ChatSession = record {
      sid = sid;
      cid = cid;
      room = (rid, record { rid = rid; gid = gid }) ∷ [];
      sub = [];
    } in
    elim (Table.insert (sid, cid) session chat.sessions) [
      | none ↦ (fail, chat)
      | some sessions ↦ (ok, record chat { sessions = sessions })
    ]

unfoldable pub chat_del_room : ChatTab → ℕ → ChatTab
chat_del_room chat rid = elim (lookup rid chat.rooms) [
  | none ↦ chat
  | some room ↦
      if room.sid_num == 0 then record chat { rooms = Table.delete rid chat.rooms } else chat
]

-- The members that `proc` is called on, in the order of the calls.
unfoldable pub members : ChatGroup → List Sid2cidItem
members grp = map (λ e. e.1) grp.sid_set

unfoldable pub chat_room_trav_all_group : Table ℕ ChatGroup → List Sid2cidItem
chat_room_trav_all_group [] = []
chat_room_trav_all_group ((g, grp) ∷ groups) = members grp ++ chat_room_trav_all_group groups

-- `gid` is a `uint16_t` here.
unfoldable pub chat_group_trav : ChatRoom → ℕ → List Sid2cidItem
unfolding members chat_room_trav_all_group
chat_group_trav room gid =
    if gid16 gid == 0
    then chat_room_trav_all_group room.groups
    else (elim (lookup (gid16 gid) room.groups) [ none ↦ [] | some grp ↦ members grp ])
