-- ===== src/Chat/Tests.antt =====
-- The theorems of the chat table at concrete inputs.
use mathlib.Core.Option
use beehive_im.Common.{
  ℕ, ◌≡◌, ◌⊎◌, ◌&&◌, none, some, List, [], ◌∷◌, if◌then◌else◌, ◌==◌, nat_key, pair_key, arith, refl,
  inl, Occurs,
}
use beehive_im.Table.{lookup, insert, update, delete}
use beehive_im.Chat.{ChatSession, ChatGroup, ChatRoom, ChatTab, chat_tab_init, gid16}
use beehive_im.Chat.Rooms.{
  chat_add_room, chat_group_add_by_gid, chat_group_add_session_raw, chat_group_add_session,
  chat_room_add_session_raw, chat_group_del_session_raw, chat_group_del_session,
  chat_room_del_session_raw, chat_session_tab_add, chat_del_room, members, chat_room_trav_all_group,
  chat_group_trav,
}
use beehive_im.Chat.Rooms.Valid.{occupant, entry}
use beehive_im.Chat.Members.{member}
use beehive_im.Chat.Sessions.{
  chat_session_join, chat_session_index, chat_room_add_session, chat_room_del_session,
  chat_room_trav_del_session, chat_get_cid_by_sid, chat_set_sid_to_cid, chat_del_sid_to_cid,
  chat_drop_session, chat_del_session, chat_room_trav_session, chat_add_sub, chat_del_sub,
  chat_has_sub_raw, chat_has_sub, chat_room_clean_list, chat_room_clean_loop, chat_room_clean_hdl,
}
use beehive_im.Chat.Sessions.Valid.{IsChat, room_of, group_of}
use beehive_im.Chat.Sessions.Join.{add_session_new}
use beehive_im.Chat.Sessions.Leave.{chat_room_del_session-IsChat}
use beehive_im.Chat.Sessions.Delete.{chat_del_session-IsChat}
use beehive_im.Chat.Sessions.Delivery.{trav_session_complete}
use beehive_im.Chat.Sessions.Clean.{AreSmall}
use beehive_im.Chat.Requests.{
  broadcast-safe, Call, enter_room, leave_room, connect, quit, subscribe, serve, serve_all, ended,
  blocked, ended-IsChat, serve_all-safe,
}

program : Unit {0}
unfolding lookup insert update delete chat_tab_init chat_add_room chat_group_add_by_gid
    chat_group_add_session_raw chat_group_add_session chat_room_add_session_raw
    chat_group_del_session_raw chat_group_del_session chat_room_del_session_raw chat_session_tab_add
    chat_del_room members chat_room_trav_all_group chat_group_trav chat_session_join
    chat_session_index chat_room_add_session chat_room_del_session chat_room_trav_del_session
    chat_get_cid_by_sid chat_set_sid_to_cid chat_del_sid_to_cid chat_drop_session chat_del_session
    chat_room_trav_session chat_add_sub chat_del_sub chat_has_sub_raw chat_has_sub
    chat_room_clean_list chat_room_clean_loop chat_room_clean_hdl serve serve_all Option.bind
    room_of member occupant
program = tt

abbrev calls : List Call
calls = enter_room 100 7 1 21 5 ∷ enter_room 101 7 2 22 6 ∷ connect 21 5 ∷ subscribe 21 40 ∷ []

-- The table after these calls.
abbrev alice : ChatSession
alice = record {
  sid = 21;
  cid = 5;
  room = (7, record { rid = 7; gid = 1 }) ∷ [];
  sub = (40, record { cmd = 40 }) ∷ [];
}

abbrev bob : ChatSession
bob = record { sid = 22; cid = 6; room = (7, record { rid = 7; gid = 2 }) ∷ []; sub = [] }

abbrev group1 : ChatGroup
group1 = record { gid = 1; sid_num = 1; sid_set = ((21, 5), entry 21 5) ∷ [] }

abbrev group2 : ChatGroup
group2 = record { gid = 2; sid_num = 1; sid_set = ((22, 6), entry 22 6) ∷ [] }

abbrev room7 : ChatRoom
room7 = record {
  rid = 7;
  sid_num = 2;
  grp_num = 2;
  create_tm = 100;
  groups = (2, group2) ∷ (1, group1) ∷ [];
}

abbrev full : ChatTab
full = record {
  rooms = (7, room7) ∷ [];
  sessions = ((22, 6), bob) ∷ ((21, 5), alice) ∷ [];
  sid2cids = (21, record { sid = 21; cid = 5 }) ∷ [];
}

full_lem : serve_all 10 calls chat_tab_init [] ≡ ended full []
unfolding program entry
full_lem = refl

full-IsChat : IsChat full
full-IsChat =
    ended-IsChat 10 calls [] [] full (serve_all 10 calls chat_tab_init []) (serve_all-safe 10 calls)
      full_lem

full-AreSmall : AreSmall full.rooms
unfolding program
full-AreSmall r w h = ground (arith, h)

broadcast-safe_example :
    (g : ℕ) × (group_of full.sessions 7 (21, 5) ≡ some g) × ((gid16 1 ≡ 0) ⊎ (gid16 1 ≡ g))
unfolding program entry
broadcast-safe_example = broadcast-safe 10 calls full [] full_lem 7 1 (entry 21 5) (inl refl)

add_session_new_example :
    (chat : ChatTab) × (chat_room_add_session full 200 7 1 23 8 ≡ some (0, chat))
    × IsChat chat
    × ((r h : ℕ) (k : ℕ × ℕ)
        → member chat.rooms r h k ≡ (
            if 7 == r && (gid16 1 == h && (23, 8) == k)
            then some (entry 23 8)
            else member full.rooms r h k))
unfolding program
add_session_new_example = add_session_new full 200 7 1 23 8 full-IsChat refl

chat_room_del_session-IsChat_example :
    IsChat (chat_room_del_session full 7 21 5)
    × ((r h : ℕ) (k : ℕ × ℕ)
        → member (chat_room_del_session full 7 21 5).rooms r h k
          ≡ (if 7 == r && (21, 5) == k then none else member full.rooms r h k))
chat_room_del_session-IsChat_example = chat_room_del_session-IsChat full 7 21 5 full-IsChat

chat_del_session-IsChat_example :
    IsChat (chat_del_session full 21 5)
    × (lookup (21, 5) (chat_del_session full 21 5).sessions ≡ none)
    × ((r h : ℕ) (k : ℕ × ℕ)
        → member (chat_del_session full 21 5).rooms r h k
          ≡ (if (21, 5) == k then none else member full.rooms r h k))
chat_del_session-IsChat_example = chat_del_session-IsChat full 21 5 full-IsChat

-- A broadcast to all groups reaches Alice.
trav_session_complete_example : Occurs (entry 21 5) (chat_room_trav_session full 7 0)
unfolding program
trav_session_complete_example =
    trav_session_complete full 7 0 (entry 21 5) full-IsChat 1 (21, 5) refl (inl refl)

-- Room 8 was left by the one session in it.
abbrev leaving : List Call
leaving = enter_room 100 7 1 21 5 ∷ enter_room 90 8 1 22 6 ∷ leave_room 8 22 6 ∷ []

abbrev room7_small : ChatRoom
room7_small = record {
  rid = 7;
  sid_num = 1;
  grp_num = 1;
  create_tm = 100;
  groups = (1, group1) ∷ [];
}

abbrev vacant : ChatTab
vacant = record {
  rooms =
      (
        8,
        record {
          rid = 8;
          sid_num = 0;
          grp_num = 1;
          create_tm = 90;
          groups = (1, record { gid = 1; sid_num = 0; sid_set = [] }) ∷ [];
        },
      )
      ∷ (7, room7_small)
      ∷ [];
  sessions =
      ((22, 6), record { sid = 22; cid = 6; room = []; sub = [] })
      ∷ (
        (21, 5),
        record { sid = 21; cid = 5; room = (7, record { rid = 7; gid = 1 }) ∷ []; sub = [] },
      )
      ∷ [];
  sid2cids = [];
}

vacant_lem : serve_all 10 leaving chat_tab_init [] ≡ ended vacant (2 ∷ [])
unfolding program entry
vacant_lem = refl

vacant-IsChat : IsChat vacant
vacant-IsChat =
    ended-IsChat 10 leaving [] (2 ∷ []) vacant (serve_all 10 leaving chat_tab_init [])
      (serve_all-safe 10 leaving) vacant_lem

vacant-AreSmall : AreSmall vacant.rooms
unfolding program
vacant-AreSmall r w h = ground (arith, h)

-- A session that quits after it left a room waits for itself.
quit_waits :
    serve_all 10 (leave_room 7 22 6 ∷ quit 22 6 ∷ []) full []
    ≡ blocked (chat_room_del_session full 7 22 6) (2 ∷ []) (quit 22 6)
unfolding program
quit_waits = refl

-- Room 8 is swept.
vacant_swept : lookup 8 (chat_room_clean_hdl vacant).rooms ≡ none
unfolding program
vacant_swept = refl
