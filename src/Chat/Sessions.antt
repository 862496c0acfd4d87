-- ===== src/Chat/Sessions.antt =====
-- Sessions, their connections and what they subscribe to: src/clang/lib/chat/chat.c.
pub mod Valid
pub mod Subscribe
pub mod Join
pub mod Leave
pub mod Delete
pub mod Delivery
pub mod Connections
pub mod Clean
use mathlib.Core.Option
use beehive_im.Common.{
  ℕ, zero, suc, ◌-◌, ◌%◌, ◌^◌, Bool, true, false, Option, none, some, List, [], ◌∷◌, if◌then◌else◌,
  ◌==◌, nat_key, pair_key,
}
use beehive_im.Table
use beehive_im.Table.{Table, lookup, update}
use beehive_im.Chat.{
  Status, ok, fail, Sid2cidItem, SubItem, RoomItem, ChatSession, ChatGroup, ChatRoom, ChatTab,
  gid16,
}
use beehive_im.Chat.Rooms.{
  chat_room_add_session_raw, chat_room_del_session_raw, chat_session_tab_add, chat_del_room,
  chat_group_trav,
}

-- (uint32_t)-1
abbrev pub no_gid : ℕ
no_gid = 2 ^ 32 - 1

-- The part of `chat_room_add_session` from `QUERY` on, for a session that exists: its rounds are fuel.
unfoldable pub chat_session_join : ℕ → ChatTab → ChatSession → ℕ → ℕ → Option (ℕ × ChatTab)
chat_session_join zero chat session rid gid = none
chat_session_join (suc fuel) chat session rid gid = elim (lookup rid session.room) [
  | some room ↦ some (room.gid, chat)
  | none ↦ elim (Table.insert rid (record { rid = rid; gid = gid }) session.room) [
    | none ↦ chat_session_join fuel chat session rid gid
    | some rooms ↦
        let session' : ChatSession = record session { room = rooms } in
        some
          (gid, record chat { sessions = update (session.sid, session.cid) session' chat.sessions })
  ]
]

-- What `chat_room_add_session` does once the rooms have the session: index it, or take it out again.
unfoldable pub chat_session_index : Status × ChatTab → ℕ → ℕ → ℕ → ℕ → ℕ × ChatTab
chat_session_index (fail, chat) rid gid sid cid = (no_gid, chat)
chat_session_index (ok, chat) rid gid sid cid =
    let (status, chat') = chat_session_tab_add chat rid gid sid cid in
    elim status [
      | ok ↦ (0, chat')
      | fail ↦ (no_gid, chat_room_del_session_raw chat' rid gid sid cid)
    ]

unfoldable pub chat_room_add_session : ChatTab → ℕ → ℕ → ℕ → ℕ → ℕ → Option (ℕ × ChatTab)
chat_room_add_session chat now rid gid sid cid = elim (lookup (sid, cid) chat.sessions) [
  | some session ↦ chat_session_join 2 chat session rid gid
  | none ↦
      Option.map (λ r. chat_session_index r rid gid sid cid)
        (chat_room_add_session_raw 2 chat now rid gid sid cid)
]

unfoldable pub chat_room_del_session : ChatTab → ℕ → ℕ → ℕ → ChatTab
chat_room_del_session chat rid sid cid = elim (lookup (sid, cid) chat.sessions) [
  | none ↦ chat
  | some session ↦ elim (lookup rid session.room) [
    | none ↦ chat
    | some room ↦
        let session' : ChatSession = record session { room = Table.delete rid session.room } in
        chat_room_del_session_raw
          (record chat { sessions = update (sid, cid) session' chat.sessions }) room.rid room.gid
          sid cid
  ]
]

-- `_chat_room_trav_del_session` for each of a session's rooms
unfoldable pub chat_room_trav_del_session : ChatTab → Table ℕ RoomItem → ℕ → ℕ → ChatTab
chat_room_trav_del_session chat [] sid cid = chat
chat_room_trav_del_session chat ((r, room) ∷ rooms) sid cid =
    chat_room_trav_del_session (chat_room_del_session_raw chat room.rid room.gid sid cid) rooms sid
      cid

unfoldable pub chat_get_cid_by_sid : ChatTab → ℕ → ℕ
chat_get_cid_by_sid chat sid = elim (lookup sid chat.sid2cids) [ none ↦ 0 | some item ↦ item.cid ]

-- The rounds of `AGAIN` are fuel.
unfoldable pub chat_set_sid_to_cid : ℕ → ChatTab → ℕ → ℕ → Option (Status × ChatTab)
chat_set_sid_to_cid zero chat sid cid = none
chat_set_sid_to_cid (suc fuel) chat sid cid =
    let fresh : Sid2cidItem = record { sid = sid; cid = cid } in
    elim (lookup sid chat.sid2cids) [
      | some item ↦
          if item.cid == cid
          then some (ok, chat)
          else let rest = Table.delete sid chat.sid2cids in
            (elim (Table.insert sid fresh rest) [
              | none ↦ some (fail, record chat { sid2cids = rest })
              | some sid2cids ↦ some (ok, record chat { sid2cids = sid2cids })
            ])
      | none ↦ elim (Table.insert sid fresh chat.sid2cids) [
        | none ↦ chat_set_sid_to_cid fuel chat sid cid
        | some sid2cids ↦ some (ok, record chat { sid2cids = sid2cids })
      ]
    ]

unfoldable pub chat_del_sid_to_cid : ChatTab → ℕ → ℕ → ChatTab
chat_del_sid_to_cid chat sid cid = elim (lookup sid chat.sid2cids) [
  | none ↦ chat
  | some item ↦
      if item.cid == cid then record chat { sid2cids = Table.delete sid chat.sid2cids } else chat
]

-- The part of `chat_del_session` after the link of the connection.
unfoldable pub chat_drop_session : ChatTab → ℕ → ℕ → ChatTab
chat_drop_session chat sid cid = elim (lookup (sid, cid) chat.sessions) [
  | none ↦ chat
  | some session ↦
      chat_room_trav_del_session (record chat { sessions = Table.delete (sid, cid) chat.sessions })
        session.room session.sid session.cid
]

unfoldable pub chat_del_session : ChatTab → ℕ → ℕ → ChatTab
chat_del_session chat sid cid = chat_drop_session (chat_del_sid_to_cid chat sid cid) sid cid

-- The members that `proc` is called on.
unfoldable pub chat_room_trav_session : ChatTab → ℕ → ℕ → List Sid2cidItem
chat_room_trav_session chat rid gid = elim (lookup rid chat.rooms) [
  | none ↦ []
  | some room ↦ chat_group_trav room gid
]

unfoldable pub chat_add_sub : ChatTab → ℕ → ℕ → Status × ChatTab
unfolding chat_get_cid_by_sid
chat_add_sub chat sid cmd =
    let cid = chat_get_cid_by_sid chat sid in
    if cid == 0 then (fail, chat) else (elim (lookup (sid, cid) chat.sessions) [
      | none ↦ (fail, chat)
      | some session ↦ elim (Table.insert cmd (record { cmd = cmd }) session.sub) [
        | none ↦ (ok, chat)
        | some sub ↦
            let session' : ChatSession = record session { sub = sub } in
            (ok, record chat { sessions = update (sid, cid) session' chat.sessions })
      ]
    ])

unfoldable pub chat_del_sub : ChatTab → ℕ → ℕ → Status × ChatTab
unfolding chat_get_cid_by_sid
chat_del_sub chat sid cmd =
    let cid = chat_get_cid_by_sid chat sid in
    if cid == 0 then (fail, chat) else (elim (lookup (sid, cid) chat.sessions) [
      | none ↦ (fail, chat)
      | some session ↦
          let session' : ChatSession = record session { sub = Table.delete cmd session.sub } in
          (ok, record chat { sessions = update (sid, cid) session' chat.sessions })
    ])

-- `_chat_has_sub`
unfoldable pub chat_has_sub_raw : ChatSession → ℕ → Bool
chat_has_sub_raw session cmd = elim (lookup cmd session.sub) [ none ↦ false | some _ ↦ true ]

-- The key's `cid` is not set: `garbage` is what the stack holds there.
unfoldable pub chat_has_sub : ChatTab → ℕ → ℕ → ℕ → Bool
chat_has_sub chat garbage sid cmd = elim (lookup (sid, garbage) chat.sessions) [
  | none ↦ false
  | some session ↦ chat_has_sub_raw session cmd
]

-- `chat_room_clean_list_cb` for each room: the ids of the empty ones
unfoldable pub chat_room_clean_list : Table ℕ ChatRoom → List ℕ
chat_room_clean_list [] = []
chat_room_clean_list ((r, room) ∷ rooms) =
    let rest = chat_room_clean_list rooms in if room.sid_num == 0 then room.rid ∷ rest else rest

-- The loop of `chat_room_clean_hdl`: it takes an id of 0 for the end of the list.
unfoldable pub chat_room_clean_loop : List ℕ → ChatTab → ChatTab
chat_room_clean_loop [] chat = chat
chat_room_clean_loop (rid ∷ rids) chat =
    let rest = chat_room_clean_loop rids (chat_del_room chat rid) in if rid == 0 then chat else rest

unfoldable pub chat_room_clean_hdl : ChatTab → ChatTab
unfolding chat_room_clean_list chat_room_clean_loop
chat_room_clean_hdl chat = chat_room_clean_loop (chat_room_clean_list chat.rooms) chat
