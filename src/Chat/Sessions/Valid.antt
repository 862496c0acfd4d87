-- ===== src/Chat/Sessions/Valid.antt =====
-- The invariant of the chat table: rooms and sessions agree on who is where.
use beehive_im.Common.{ℕ, ◌≡◌, Option, none, some, nat_key, pair_key, arith, Option-cases, inl, inr}
use beehive_im.Table.{Table, lookup}
use beehive_im.Chat.{RoomItem, ChatSession, Sid2cidItem, ChatTab, gid16, chat_tab_init}
use beehive_im.Chat.Members.{member, AreRooms}

-- The entry for a room in the session under the key `k`.
unfoldable pub room_of : Table (ℕ × ℕ) ChatSession → ℕ → ℕ × ℕ → Option RoomItem
room_of sessions r k = elim (lookup k sessions) [
  | none ↦ none
  | some session ↦ lookup r session.room
]

-- The group that the session under the key `k` is in, of the room `r`.
abbrev pub group_of : Table (ℕ × ℕ) ChatSession → ℕ → ℕ × ℕ → Option ℕ
group_of sessions r k = elim (room_of sessions r k) [
  | none ↦ none
  | some item ↦ some (gid16 item.gid)
]

-- Rooms are well formed; sessions and their rooms stand under their own ids; and a member of a group of a room is a
-- session that knows the room, with a group id of the same low 16 bits.
pub record IsChat (chat : ChatTab) : Type 0 where
  pub rooms_ok : AreRooms chat.rooms
  pub keyed :
      (k : ℕ × ℕ) (s : ChatSession)
      → lookup k chat.sessions ≡ some s
      → (s.sid ≡ k.0) × (s.cid ≡ k.1)
  pub items :
      (r : ℕ) (k : ℕ × ℕ) (item : RoomItem) → room_of chat.sessions r k ≡ some item → item.rid ≡ r
  pub owned :
      (r g : ℕ) (k : ℕ × ℕ) (x : Sid2cidItem)
      → member chat.rooms r g k ≡ some x
      → group_of chat.sessions r k ≡ some g

pub chat_tab_init-IsChat : IsChat chat_tab_init
unfolding chat_tab_init lookup room_of member
chat_tab_init-IsChat = record {
  rooms_ok = record { distinct = tt; each = λ rid room h. cc; named = λ rid room h. cc };
  keyed = λ k s h. cc;
  items = λ r k item h. cc;
  owned = λ r g k x h. cc;
}

-- A session with no entry for a room is in no group of it.
pub member-eq-none :
    (chat : ChatTab) (r h : ℕ) (k : ℕ × ℕ)
    → IsChat chat
    → room_of chat.sessions r k ≡ none
    → member chat.rooms r h k ≡ none
member-eq-none chat r h k v out = elim (Option-cases (member chat.rooms r h k)) [
  | inl e ↦ e
  | inr (x, e) ↦ ground (arith, v.owned r h k x e)
]
