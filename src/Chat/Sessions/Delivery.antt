-- ===== src/Chat/Sessions/Delivery.antt =====
-- Who a message to a room reaches: `chat_room_trav_session` of chat.c.
use beehive_im.Common.{
  ℕ, ◌≡◌, some, [], ◌∷◌, ◌==◌, nat_key, pair_key, nat_beq_iff, arith, refl, Option-cases, inl, inr,
  ◌⊎◌, Occurs, Occurs-append_left, Occurs-append_right, Occurs-split, Bool-cases, sym,
}
use mathlib.Core.Path.{subst}
use beehive_im.Table.{Table, lookup}
use beehive_im.Table.Values.{values, lookup-Occurs, Occurs-lookup}
use beehive_im.Chat.{Sid2cidItem, ChatGroup, ChatRoom, ChatTab, gid16}
use beehive_im.Chat.Rooms.{members, chat_room_trav_all_group, chat_group_trav}
use beehive_im.Chat.Rooms.Valid.{IsRoom, occupant}
use beehive_im.Chat.Members.{member}
use beehive_im.Chat.Sessions.{chat_room_trav_session}
use beehive_im.Chat.Sessions.Valid.{IsChat}

all_group_sound :
    (x : Sid2cidItem) (groups : Table ℕ ChatGroup)
    → Occurs x (chat_room_trav_all_group groups)
    → (grp : ChatGroup) × Occurs grp (values groups) × Occurs x (members grp)
unfolding chat_room_trav_all_group
all_group_sound x [] h = absurd h
all_group_sound x ((g, grp) ∷ groups) h =
    elim (Occurs-split x (members grp) (chat_room_trav_all_group groups) h) [
      | inl here ↦ (grp, inl refl, here)
      | inr later ↦ let (grp', o, p) = all_group_sound x groups later in (grp', inr o, p)
    ]

all_group_complete :
    (x : Sid2cidItem) (grp : ChatGroup) (groups : Table ℕ ChatGroup)
    → Occurs grp (values groups)
    → Occurs x (members grp)
    → Occurs x (chat_room_trav_all_group groups)
unfolding chat_room_trav_all_group
all_group_complete x grp [] o p = absurd o
all_group_complete x grp ((g, grp') ∷ groups) (inl e) p =
    Occurs-append_left x (members grp') _ (rw e at p)
all_group_complete x grp ((g, grp') ∷ groups) (inr o) p =
    Occurs-append_right x (members grp') _ (all_group_complete x grp groups o p)

in_group_at :
    (room : ChatRoom) (g : ℕ) (grp : ChatGroup) (x : Sid2cidItem) (k : ℕ × ℕ)
    → IsRoom room
    → lookup g room.groups ≡ some grp
    → lookup k grp.sid_set ≡ some x
    → occupant room g (x.sid, x.cid) ≡ some x
unfolding occupant
in_group_at room g grp x k v e found =
    let (same, also) = (v.groups_ok g grp e).named k x found in
    let at : ◌≡◌ {A = ℕ × ℕ} (x.sid, x.cid) k = λ i. (same i, also i) in
    rw (e, occupant) (subst (λ (j : ℕ × ℕ). lookup j grp.sid_set ≡ some x) (sym at) found)

in_group :
    (room : ChatRoom) (g : ℕ) (grp : ChatGroup) (x : Sid2cidItem)
    → IsRoom room
    → lookup g room.groups ≡ some grp
    → Occurs x (members grp)
    → occupant room g (x.sid, x.cid) ≡ some x
unfolding members
in_group room g grp x v e p =
    let (k, found) = Occurs-lookup x grp.sid_set (v.groups_ok g grp e).distinct p in
    in_group_at room g grp x k v e found

-- What the traversal of one group or of all groups visits are the members of these.
group_trav_sound :
    (room : ChatRoom) (gid : ℕ) (x : Sid2cidItem)
    → IsRoom room
    → Occurs x (chat_group_trav room gid)
    → (g : ℕ) × (occupant room g (x.sid, x.cid) ≡ some x) × ((gid16 gid ≡ 0) ⊎ (gid16 gid ≡ g))
unfolding chat_group_trav
group_trav_sound room gid x v h = elim (Bool-cases (gid16 gid == 0)) [
  | inl every ↦
      let (grp, o, p) = all_group_sound x room.groups (rw (every, chat_group_trav) at h) in
      let (g, e) = Occurs-lookup grp room.groups v.groups_distinct o in
      (g, in_group room g grp x v e p, inl ((nat_beq_iff _ _).0 every))
  | inr one ↦ elim (Option-cases (lookup (gid16 gid) room.groups)) [
    | inl e ↦ absurd (rw (one, chat_group_trav, e) at h)
    | inr (grp, e) ↦ (
      gid16 gid,
      in_group room (gid16 gid) grp x v e (rw (one, chat_group_trav, e) at h),
      inr refl,
    )
  ]
]

group_trav_complete :
    (room : ChatRoom) (gid g : ℕ) (k : ℕ × ℕ) (x : Sid2cidItem)
    → occupant room g k ≡ some x
    → (gid16 gid ≡ 0) ⊎ (gid16 gid ≡ g)
    → Occurs x (chat_group_trav room gid)
unfolding chat_group_trav occupant members
group_trav_complete room gid g k x h which = elim (Option-cases (lookup g room.groups)) [
  | inl e ↦ absurd (ground (arith, e))
  | inr (grp, e) ↦
      let p : Occurs x (members grp) = lookup-Occurs k x grp.sid_set (rw (e, occupant) at h) in
      elim (Bool-cases (gid16 gid == 0)) [
        | inl every ↦
            rw (every, chat_group_trav)
              (all_group_complete x grp room.groups (lookup-Occurs g grp room.groups e) p)
        | inr one ↦ elim which [
          | inl zero_gid ↦ absurd (ground arith)
          | inr same ↦ rw (one, chat_group_trav, same, e) p
        ]
      ]
]

module _ (chat : ChatTab) (rid gid : ℕ) (x : Sid2cidItem) (v : IsChat chat) where
  -- In a valid table, whom a message to a group of a room reaches is a member of that group; a message to group 0 (in the
  -- low 16 bits) reaches members of any group of the room.
  pub trav_session_sound :
      Occurs x (chat_room_trav_session chat rid gid)
      → (g : ℕ) × (member chat.rooms rid g (x.sid, x.cid) ≡ some x)
        × ((gid16 gid ≡ 0) ⊎ (gid16 gid ≡ g))
  unfolding chat_room_trav_session member
  trav_session_sound h = elim (Option-cases (lookup rid chat.rooms)) [
    | inl e ↦ absurd (rw (e, chat_room_trav_session) at h)
    | inr (room, e) ↦
        let (g, o, q) =
          group_trav_sound room gid x (v.rooms_ok.each rid room e)
            (rw (e, chat_room_trav_session) at h) in
        (g, rw (e, member) o, q)
  ]

  -- In a valid table, a message reaches every member of the group that it is for, and every member of every group if it is for group 0.
  pub trav_session_complete :
      (g : ℕ) (k : ℕ × ℕ)
      → member chat.rooms rid g k ≡ some x
      → (gid16 gid ≡ 0) ⊎ (gid16 gid ≡ g)
      → Occurs x (chat_room_trav_session chat rid gid)
  unfolding chat_room_trav_session member
  trav_session_complete g k h which = elim (Option-cases (lookup rid chat.rooms)) [
    | inl e ↦ absurd (ground (arith, e))
    | inr (room, e) ↦
        rw (e, chat_room_trav_session)
          (group_trav_complete room gid g k x (rw (e, member) at h) which)
  ]
