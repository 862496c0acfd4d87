-- ===== src/Chat.antt =====
-- The chat room table: src/clang/lib/chat/chat.c and chat_tab.c, types of src/clang/incl/chat/chat.h.
-- A hash table is its list of entries; a record reached through a table's pointer is written back.
pub mod Rooms
pub mod Members
pub mod Sessions
pub mod Requests
mod Tests
use beehive_im.Common.{
  ℕ, ◌+◌, ◌-◌, ◌%◌, ◌^◌, ◌≡◌, Bool, true, false, Option, none, some, List, [], ◌∷◌, ◌++◌, map,
  if◌then◌else◌, ◌==◌,
}
use beehive_im.Table.{Table}

-- What a function that returns an int says: 0, or something else.
pub data Status : Type 0 where
  ok fail : Status

pub record Sid2cidItem : Type 0 where
  pub sid : ℕ
  pub cid : ℕ

pub record SubItem : Type 0 where
  pub cmd : ℕ

pub record RoomItem : Type 0 where
  pub rid : ℕ
  pub gid : ℕ

pub record ChatSession : Type 0 where
  pub sid : ℕ
  pub cid : ℕ
  pub room : Table ℕ RoomItem
  pub sub : Table ℕ SubItem

pub record ChatGroup : Type 0 where
  pub gid : ℕ
  pub sid_num : ℕ
  pub sid_set : Table (ℕ × ℕ) Sid2cidItem

pub record ChatRoom : Type 0 where
  pub rid : ℕ
  pub sid_num : ℕ
  pub grp_num : ℕ
  pub create_tm : ℕ
  pub groups : Table ℕ ChatGroup

pub record ChatTab : Type 0 where
  pub rooms : Table ℕ ChatRoom
  pub sessions : Table (ℕ × ℕ) ChatSession
  pub sid2cids : Table ℕ Sid2cidItem

unfoldable pub chat_tab_init : ChatTab
chat_tab_init = record { rooms = []; sessions = []; sid2cids = [] }

-- atomic64_inc, atomic64_dec, atomic32_inc
abbrev pub inc64 : ℕ → ℕ
inc64 n = (n + 1) % 2 ^ 64

abbrev pub dec64 : ℕ → ℕ
dec64 n = (n + (2 ^ 64 - 1)) % 2 ^ 64

abbrev pub inc32 : ℕ → ℕ
inc32 n = (n + 1) % 2 ^ 32

-- `chat_group_t` keeps a group id, also that of a key, in 16 bits.
abbrev pub gid16 : ℕ → ℕ
gid16 gid = gid % 2 ^ 16
