-- ===== src/Chat/Sessions/Clean.antt =====
-- `chat_room_clean_hdl` of chat.c, and `chat_del_room` of chat_tab.c.
use beehive_im.Common.{
  ℕ, ◌^◌, ◌≡◌, ◌≢◌, none, some, List, [], ◌∷◌, ◌==◌, nat_key, pair_key, nat_beq_iff, arith, refl,
  Option-cases, inl, inr, ◌∙◌, false, Bool-cases, length, ◌<◌, ◌≤◌, sym, Occurs,
}
use beehive_im.Table
use beehive_im.Table.{Table, lookup, update, sum_by, Distinct}
use beehive_im.Table.Laws.{lookup-delete, Distinct-delete}
use beehive_im.Chat.{ChatRoom, ChatTab, ChatGroup, Sid2cidItem}
use beehive_im.Chat.Rooms.{chat_del_room}
use beehive_im.Chat.Rooms.Valid.{IsRoom, occupant, size}
use beehive_im.Chat.Members.{member}
use beehive_im.Chat.Sessions.{chat_room_clean_list, chat_room_clean_loop, chat_room_clean_hdl}
use beehive_im.Chat.Sessions.Valid.{IsChat}

-- A group with a member has a size, and a room with such a group too.
lookup-size :
    (m : Table (ℕ × ℕ) Sid2cidItem) (k : ℕ × ℕ) (x : Sid2cidItem)
    → lookup k m ≡ some x
    → 0 < length m
unfolding lookup
lookup-size [] k x h = cc
lookup-size (e ∷ m) k x h = omega arith

lookup-sum_by :
    (m : Table ℕ ChatGroup) (g : ℕ) (grp : ChatGroup)
    → lookup g m ≡ some grp
    → size grp ≤ sum_by size m
unfolding lookup
lookup-sum_by [] g grp h = cc
lookup-sum_by ((j, w) ∷ m) g grp h = ground (arith, lookup-sum_by m g grp)

-- An empty room has no member, as long as a room has fewer than 2^64 members.
occupant-empty :
    (room : ChatRoom) (g : ℕ) (k : ℕ × ℕ)
    → IsRoom room
    → sum_by size room.groups < 2 ^ 64
    → room.sid_num ≡ 0
    → occupant room g k ≡ none
unfolding occupant
occupant-empty room g k v small empty = elim (Option-cases (lookup g room.groups)) [
  | inl e ↦ rw (e, occupant)
  | inr (grp, e) ↦
      rw (e, occupant)
        (elim (Option-cases (lookup k grp.sid_set)) [
          | inl f ↦ f
          | inr (x, f) ↦ absurd (
              omega (
                arith,
                v.counted,
                lookup-sum_by room.groups g grp e,
                lookup-size grp.sid_set k x f,
              ))
        ])
]

-- Every room has fewer than 2^64 members, so that its counter says how many.
abbrev pub AreSmall : Table ℕ ChatRoom → Type 0
AreSmall rooms =
    (rid : ℕ) (room : ChatRoom) → lookup rid rooms ≡ some room → sum_by size room.groups < 2 ^ 64

module _ (chat : ChatTab) (rid : ℕ) (v : IsChat chat) (small : AreSmall chat.rooms)
    (room : ChatRoom) (e : lookup rid chat.rooms ≡ some room) (empty : room.sid_num ≡ 0) where
  without : ChatTab
  without = record chat { rooms = Table.delete rid chat.rooms }

  member-without : (r h : ℕ) (k : ℕ × ℕ) → member without.rooms r h k ≡ member chat.rooms r h k
  unfolding without member
  member-without r h k = ground (
    arith,
    e,
    lookup-delete r rid chat.rooms,
    nat_beq_iff rid r,
    occupant-empty room h k (v.rooms_ok.each rid room e) (small rid room e) empty,
  )

  without-IsChat : IsChat without
  without-IsChat = record {
    rooms_ok =
        unfold without in
        (record {
          distinct = Distinct-delete rid chat.rooms v.rooms_ok.distinct;
          each = λ r w found. ground (arith, lookup-delete r rid chat.rooms, v.rooms_ok.each r w);
          named = λ r w found. ground (arith, lookup-delete r rid chat.rooms, v.rooms_ok.named r w);
        });
    keyed = unfold without in v.keyed;
    items = unfold without in v.items;
    owned =
        λ r g k x found. unfold without in (v.owned r g k x (sym (member-without r g k) ∙ found));
  }

  without-AreSmall : AreSmall without.rooms
  unfolding without
  without-AreSmall r w found = ground (arith, lookup-delete r rid chat.rooms, small r w)

-- The rooms of `chat'` are rooms of `chat`, with the same members in total.
record Shrinks (chat chat' : ChatTab) : Type 0 where
  valid : IsChat chat'
  small : AreSmall chat'.rooms
  members : (r h : ℕ) (k : ℕ × ℕ) → member chat'.rooms r h k ≡ member chat.rooms r h k
  sub : (r : ℕ) (w : ChatRoom) → lookup r chat'.rooms ≡ some w → lookup r chat.rooms ≡ some w

-- Deleting a room takes effect on an empty room only.
chat_del_room-Shrinks :
    (chat : ChatTab) (rid : ℕ)
    → IsChat chat
    → AreSmall chat.rooms
    → Shrinks chat (chat_del_room chat rid)
      × ((w : ChatRoom) → lookup rid (chat_del_room chat rid).rooms ≡ some w → w.sid_num ≢ 0)
unfolding chat_del_room
chat_del_room-Shrinks chat rid v small = elim (Option-cases (lookup rid chat.rooms)) [
  | inl e ↦
      rw (e, chat_del_room)
        (
          record { valid = v; small = small; members = λ r h k. refl; sub = λ r w q. q },
          λ w q z. ground (arith, e, q),
        )
  | inr (room, e) ↦ elim (Bool-cases (room.sid_num == 0)) [
    | inr used ↦
        rw (e, chat_del_room, used)
          (
            record { valid = v; small = small; members = λ r h k. refl; sub = λ r w q. q },
            λ w q z. ground (arith, e, q, used),
          )
    | inl empty ↦
        let z = (nat_beq_iff room.sid_num 0).0 empty in
        rw (e, chat_del_room, empty)
          (unfold without in
            (
              record {
                valid = without-IsChat chat rid v small room e z;
                small = without-AreSmall chat rid v small room e z;
                members = member-without chat rid v small room e z;
                sub = λ r w q. ground (arith, lookup-delete r rid chat.rooms, q);
              },
              λ w q y. ground (arith, lookup-delete rid rid chat.rooms, q, nat_beq_iff rid rid),
            ))
  ]
]

clean_loop-Shrinks :
    (rids : List ℕ) (chat : ChatTab)
    → IsChat chat
    → AreSmall chat.rooms
    → Shrinks chat (chat_room_clean_loop rids chat)
unfolding chat_room_clean_loop
clean_loop-Shrinks [] chat v small = record {
  valid = v;
  small = small;
  members = λ r h k. refl;
  sub = λ r w q. q;
}
clean_loop-Shrinks (rid ∷ rids) chat v small = elim (Bool-cases (rid == 0)) [
  | inl stop ↦
      rw (stop, chat_room_clean_loop)
        (record { valid = v; small = small; members = λ r h k. refl; sub = λ r w q. q })
  | inr go ↦
      let (t, _) = chat_del_room-Shrinks chat rid v small in
      let u = clean_loop-Shrinks rids (chat_del_room chat rid) t.valid t.small in
      rw (go, chat_room_clean_loop)
        (record {
          valid = u.valid;
          small = u.small;
          members = λ r h k. u.members r h k ∙ t.members r h k;
          sub = λ r w q. t.sub r w (u.sub r w q);
        })
]

clean_loop_thorough :
    (rids : List ℕ) (chat : ChatTab)
    → IsChat chat
    → AreSmall chat.rooms
    → ¬ Occurs 0 rids
    → (r : ℕ) (w : ChatRoom) → Occurs r rids
    → lookup r (chat_room_clean_loop rids chat).rooms ≡ some w
    → w.sid_num ≢ 0
unfolding chat_room_clean_loop
clean_loop_thorough [] chat v small no_zero r w o found = absurd o
clean_loop_thorough (rid ∷ rids) chat v small no_zero r w o found =
    let go : (rid == 0) ≡ false = ground (arith, λ (q : 0 ≡ rid). no_zero (inl q)) in
    let (t, strict) = chat_del_room-Shrinks chat rid v small in
    let u = clean_loop-Shrinks rids (chat_del_room chat rid) t.valid t.small in
    let rest = rw (go, chat_room_clean_loop) at found in
    elim o [
      | inl same ↦ strict w (rw same at (u.sub r w rest))
      | inr later ↦
          clean_loop_thorough rids (chat_del_room chat rid) t.valid t.small (λ z. no_zero (inr z)) r
            w later rest
    ]

-- The id of every empty room is in the list that the sweep works off, and no other id is.
clean_list_complete :
    (rooms : Table ℕ ChatRoom) (r : ℕ) (w : ChatRoom)
    → lookup r rooms ≡ some w
    → w.rid ≡ r
    → w.sid_num ≡ 0
    → Occurs r (chat_room_clean_list rooms)
unfolding chat_room_clean_list lookup
clean_list_complete [] r w h same empty = cc
clean_list_complete ((j, u) ∷ rooms) r w h same empty =
    ground (arith, nat_beq_iff j r, nat_beq_iff u.sid_num 0, clean_list_complete rooms r w)

clean_list_sound :
    (rooms : Table ℕ ChatRoom) (r : ℕ)
    → Distinct rooms
    → ((j : ℕ) (w : ChatRoom) → lookup j rooms ≡ some w → w.rid ≡ j)
    → Occurs r (chat_room_clean_list rooms)
    → lookup r rooms ≢ none
unfolding chat_room_clean_list lookup
clean_list_sound [] r d named o e = o
clean_list_sound ((j, u) ∷ rooms) r d named o e =
    let own : u.rid ≡ j = named j u (ground (arith, nat_beq_iff j j)) in
    let rest : Occurs r (chat_room_clean_list rooms) → lookup r rooms ≢ none =
      clean_list_sound rooms r d.1 (λ i w h. named i w (ground (arith, d.0, h, nat_beq_iff j i))) in
    ground (arith, own, rest, o, e, nat_beq_iff j r, nat_beq_iff u.sid_num 0)

-- With fewer than 2 ^ 64 members in each room, the sweep of the rooms keeps a valid table valid and every member of every group.
pub chat_room_clean_hdl-IsChat :
    (chat : ChatTab)
    → IsChat chat
    → AreSmall chat.rooms
    → IsChat (chat_room_clean_hdl chat)
      × ((r h : ℕ) (k : ℕ × ℕ)
          → member (chat_room_clean_hdl chat).rooms r h k ≡ member chat.rooms r h k)
unfolding chat_room_clean_hdl
chat_room_clean_hdl-IsChat chat v small =
    let u = clean_loop-Shrinks (chat_room_clean_list chat.rooms) chat v small in
    (u.valid, u.members)

-- In a valid table with fewer than 2 ^ 64 members in each room and no room of the id 0, a room that is there after the sweep was there before it, unchanged, and is not empty.
pub chat_room_clean_hdl_thorough :
    (chat : ChatTab)
    → IsChat chat
    → AreSmall chat.rooms
    → lookup 0 chat.rooms ≡ none
    → (r : ℕ) (w : ChatRoom) → lookup r (chat_room_clean_hdl chat).rooms ≡ some w
    → (lookup r chat.rooms ≡ some w) × (w.sid_num ≢ 0)
unfolding chat_room_clean_hdl
chat_room_clean_hdl_thorough chat v small no_zero r w found =
    let ids = chat_room_clean_list chat.rooms in
    let real : ¬ Occurs 0 ids =
      λ o. clean_list_sound chat.rooms 0 v.rooms_ok.distinct v.rooms_ok.named o no_zero in
    let was = (clean_loop-Shrinks ids chat v small).sub r w found in
    let listed = clean_list_complete chat.rooms r w was (v.rooms_ok.named r w was) in
    (was, λ empty. clean_loop_thorough ids chat v small real r w (listed empty) found empty)
