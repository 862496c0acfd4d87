-- ===== src/Chat/Rooms/Valid.antt =====
-- When a room of chat_tab.c is well formed, who is in it, and a write to one of its groups.
use beehive_im.Common.{
  ℕ, ◌+◌, ◌%◌, ◌^◌, ◌≡◌, Option, none, some, if◌then◌else◌, ◌==◌, arith, nat_key, pair_key,
  nat_beq_iff, length, ap, sym, ◌∙◌, ◌<◌,
}
use beehive_im.Table.{lookup, update, Distinct, sum_by}
use beehive_im.Table.Laws.{lookup-update, sum_by-update, length-update, Distinct-update}
use beehive_im.Chat.{Sid2cidItem, ChatGroup, ChatRoom}

-- What a group holds, and its counter.
pub record IsGroup (g : ℕ) (grp : ChatGroup) : Type 0 where
  pub at : grp.gid ≡ g
  pub counted : grp.sid_num ≡ length grp.sid_set % 2 ^ 64
  pub distinct : Distinct grp.sid_set
  pub named :
      (k : ℕ × ℕ) (x : Sid2cidItem) → lookup k grp.sid_set ≡ some x → (x.sid ≡ k.0) × (x.cid ≡ k.1)

abbrev pub size : ChatGroup → ℕ
size grp = length grp.sid_set

pub record IsRoom (room : ChatRoom) : Type 0 where
  pub groups_ok : (g : ℕ) (grp : ChatGroup) → lookup g room.groups ≡ some grp → IsGroup g grp
  pub groups_distinct : Distinct room.groups
  pub counted : room.sid_num ≡ sum_by size room.groups % 2 ^ 64
  pub groups_counted : room.grp_num ≡ length room.groups % 2 ^ 32

-- The member of group `g` under the key `k`.
unfoldable pub occupant : ChatRoom → ℕ → ℕ × ℕ → Option Sid2cidItem
occupant room g k = elim (lookup g room.groups) [ none ↦ none | some grp ↦ lookup k grp.sid_set ]

module _ (room : ChatRoom) (grp : ChatGroup) (g : ℕ) (e : lookup g room.groups ≡ some grp) where
  -- A group whose members and counter are replaced.
  unfoldable pub swap_group : ChatGroup → ℕ → ChatRoom
  swap_group grp' n = record room { groups = update g grp' room.groups; sid_num = n }

  pub occupant-swap_group :
      (grp' : ChatGroup) (n h : ℕ) (k : ℕ × ℕ)
      → occupant (swap_group grp' n) h k
        ≡ (if g == h then lookup k grp'.sid_set else occupant room h k)
  unfolding occupant swap_group
  occupant-swap_group grp' n h k = ground (arith, e, lookup-update h g grp' room.groups)

  pub swap_group-IsRoom :
      (grp' : ChatGroup) (n : ℕ)
      → IsRoom room
      → IsGroup g grp'
      → (n + size grp) % 2 ^ 64 ≡ (room.sid_num + size grp') % 2 ^ 64
      → n < 2 ^ 64
      → IsRoom (swap_group grp' n)
  unfolding swap_group
  swap_group-IsRoom grp' n v w moved small = record {
    groups_ok = λ h x found.
        ground (arith, e, v.groups_ok h x, nat_beq_iff g h, lookup-update h g grp' room.groups);
    groups_distinct = Distinct-update g grp' room.groups v.groups_distinct;
    counted = omega (arith, v.counted, sum_by-update size g grp' grp room.groups e);
    groups_counted =
        v.groups_counted ∙ ap (λ m. m % 2 ^ 32) (sym (length-update g grp' room.groups));
  }

-- The record that stands for a member.
unfoldable pub entry : ℕ → ℕ → Sid2cidItem
entry sid cid = record { sid = sid; cid = cid }
