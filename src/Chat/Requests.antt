-- ===== src/Chat/Requests.antt =====
-- Sequences of calls on the chat table: src/clang/lib/chat/chat.c.
use mathlib.Core.Option
use beehive_im.Common.{
  ℕ, ◌≡◌, Option, some, List, [], ◌∷◌, ◌==◌, nat_key, pair_key, arith, refl, Option-cases, inl, inr,
  Bool, true, false, Bool-cases, none, if◌then◌else◌, nat_beq_iff, ◌%◌, ◌∙◌, ap, ◌⊎◌, Occurs,
}
use beehive_im.Table
use beehive_im.Table.{Table, lookup, update}
use beehive_im.Chat.{Sid2cidItem, ChatTab, chat_tab_init, gid16}
use beehive_im.Chat.Sessions.{
  chat_room_add_session, chat_room_del_session, chat_del_session, chat_set_sid_to_cid,
  chat_del_sid_to_cid, chat_add_sub, chat_del_sub, chat_room_trav_session,
}
use beehive_im.Chat.Sessions.Subscribe.{chat_add_sub-IsChat, chat_del_sub-IsChat}
use beehive_im.Chat.Sessions.Valid.{group_of, IsChat, chat_tab_init-IsChat}
use beehive_im.Chat.Sessions.Join.{add_session_new, add_session_known}
use beehive_im.Chat.Sessions.Leave.{chat_room_del_session-IsChat}
use beehive_im.Chat.Sessions.Delete.{chat_del_session-IsChat}
use beehive_im.Chat.Sessions.Delivery.{trav_session_sound}
use beehive_im.Chat.Sessions.Connections.{get_cid-set_sid}

-- A call with its arguments.
pub data Call : Type 0 where
  enter_room : (now rid gid sid cid : ℕ) → Call
  leave_room : (rid sid cid : ℕ) → Call
  quit : (sid cid : ℕ) → Call
  connect disconnect : (sid cid : ℕ) → Call
  subscribe unsubscribe : (sid cmd : ℕ) → Call

unfoldable pub serve : Call → ChatTab → Option ChatTab
serve (enter_room now rid gid sid cid) chat =
    Option.map (λ r. r.1) (chat_room_add_session chat now rid gid sid cid)
serve (leave_room rid sid cid) chat = some (chat_room_del_session chat rid sid cid)
serve (quit sid cid) chat = some (chat_del_session chat sid cid)
serve (connect sid cid) chat = Option.map (λ r. r.1) (chat_set_sid_to_cid 1 chat sid cid)
serve (disconnect sid cid) chat = some (chat_del_sid_to_cid chat sid cid)
serve (subscribe sid cmd) chat = some (chat_add_sub chat sid cmd).1
serve (unsubscribe sid cmd) chat = some (chat_del_sub chat sid cmd).1

-- How a sequence of calls ends: after the last one, with the slots of the table of sessions that are read-locked for good;
-- with a call that waits for the write lock of such a slot, and the table before that call; or in a loop out of rounds.
pub data Served : Type 0 where
  ended : ChatTab → List ℕ → Served
  blocked : ChatTab → List ℕ → Call → Served
  stuck : Served

-- The session whose slot a call asks the write lock of
abbrev pub takes_lock : Call → ChatTab → Option ℕ
takes_lock (enter_room now rid gid sid cid) chat = elim (lookup (sid, cid) chat.sessions) [
  | some s ↦ none
  | none ↦ some sid
]
takes_lock (quit sid cid) chat = some sid
takes_lock call chat = none

-- The session whose slot a call leaves read-locked: `chat_room_del_session` unlocks it on no path.
abbrev pub keeps_lock : Call → ChatTab → Option ℕ
keeps_lock (leave_room rid sid cid) chat = elim (lookup (sid, cid) chat.sessions) [
  | some s ↦ some sid
  | none ↦ none
]
keeps_lock call chat = none

abbrev pub is_held : ℕ → List ℕ → Bool
is_held slot [] = false
is_held slot (x ∷ held) = if slot == x then true else is_held slot held

-- The calls one after the other, on a table of sessions of `len` slots; `chat_session_hash_cb` gives the session's id.
module _ (len : ℕ) where
  abbrev pub waits_for : Option ℕ → List ℕ → Bool
  waits_for none held = false
  waits_for (some sid) held = is_held (sid % len) held

  abbrev pub held_after : Option ℕ → List ℕ → List ℕ
  held_after none held = held
  held_after (some sid) held = sid % len ∷ held

  unfoldable pub serve_all : List Call → ChatTab → List ℕ → Served
  unfolding serve
  serve_all [] chat held = ended chat held
  serve_all (call ∷ calls) chat held = elim (waits_for (takes_lock call chat) held) [
    | true ↦ blocked chat held call
    | false ↦ elim (serve call chat) [
      | none ↦ stuck
      | some chat' ↦ serve_all calls chat' (held_after (keeps_lock call chat) held)
    ]
  ]

serve-IsChat :
    (call : Call) (chat : ChatTab)
    → IsChat chat
    → (chat' : ChatTab) × (serve call chat ≡ some chat') × IsChat chat'
unfolding serve chat_del_sid_to_cid
serve-IsChat (enter_room now rid gid sid cid) chat v =
    elim (Option-cases (lookup (sid, cid) chat.sessions)) [
      | inl e ↦
          let (chat', run, w, _) = add_session_new chat now rid gid sid cid v e in
          (chat', rw (serve, run) refl, w)
      | inr (s, e) ↦
          let (chat', n, run, w, _) = add_session_known chat now rid gid sid cid v s e in
          (chat', rw (serve, run) refl, w)
    ]
serve-IsChat (leave_room rid sid cid) chat v =
    (_, refl, (chat_room_del_session-IsChat chat rid sid cid v).0)
serve-IsChat (quit sid cid) chat v = (_, refl, (chat_del_session-IsChat chat sid cid v).0)
serve-IsChat (connect sid cid) chat v =
    let (chat', run, _, rooms, sessions) = get_cid-set_sid chat sid cid in
    (
      chat',
      rw (serve, run) refl,
      record {
        rooms_ok = rw rooms v.rooms_ok;
        keyed = rw sessions v.keyed;
        items = rw sessions v.items;
        owned = rw (rooms, sessions) v.owned;
      },
    )
serve-IsChat (disconnect sid cid) chat v = elim (Option-cases (lookup sid chat.sid2cids)) [
  | inl e ↦ (chat, rw (serve, chat_del_sid_to_cid, e) refl, v)
  | inr (item, e) ↦ elim (Bool-cases (item.cid == cid)) [
    | inr other ↦ (chat, rw (serve, chat_del_sid_to_cid, e, other) refl, v)
    | inl own ↦ (
      record chat { sid2cids = Table.delete sid chat.sid2cids },
      rw (serve, chat_del_sid_to_cid, e, own) refl,
      record { rooms_ok = v.rooms_ok; keyed = v.keyed; items = v.items; owned = v.owned },
    )
  ]
]
serve-IsChat (subscribe sid cmd) chat v = (_, refl, chat_add_sub-IsChat chat sid cmd v)
serve-IsChat (unsubscribe sid cmd) chat v = (_, refl, chat_del_sub-IsChat chat sid cmd v)

-- A slot that is held is that of a session which one of the calls took out of a room.
abbrev pub Left : ℕ → List Call → ℕ → Type 0
Left len calls slot = (rid sid cid : ℕ) × Occurs (leave_room rid sid cid) calls × (slot ≡ sid % len)

-- Where the calls may end: each slot held is one of those held before, or of a session that left a room.
pub data Settled (len : ℕ) (calls : List Call) (held : List ℕ) : Served → Type 0 where
  safe_end :
      (chat : ChatTab) (held' : List ℕ)
      → IsChat chat
      → ((slot : ℕ) → Occurs slot held' → Occurs slot held ⊎ Left len calls slot)
      → Settled len calls held (ended chat held')
  safe_wait :
      (chat : ChatTab) (held' : List ℕ) (call : Call) (sid : ℕ)
      → IsChat chat
      → Occurs call calls
      → takes_lock call chat ≡ some sid
      → Occurs (sid % len) held ⊎ Left len calls (sid % len)
      → Settled len calls held (blocked chat held' call)

is_held-Occurs : (slot : ℕ) (held : List ℕ) → is_held slot held ≡ true → Occurs slot held
is_held-Occurs slot [] e = absurd (ground (arith, e))
is_held-Occurs slot (x ∷ held) e = elim (Bool-cases (slot == x)) [
  | inl same ↦ inl ((nat_beq_iff slot x).0 same)
  | inr other ↦ inr (is_held-Occurs slot held (rw other at e))
]

waits_for-Occurs :
    (len : ℕ) (w : Option ℕ) (held : List ℕ)
    → waits_for len w held ≡ true
    → (sid : ℕ) × (w ≡ some sid) × Occurs (sid % len) held
waits_for-Occurs len none held e = absurd (ground (arith, e))
waits_for-Occurs len (some sid) held e = (sid, refl, is_held-Occurs (sid % len) held e)

held_after-Occurs :
    (len : ℕ) (k : Option ℕ) (held : List ℕ) (slot : ℕ)
    → Occurs slot (held_after len k held)
    → Occurs slot held ⊎ ((sid : ℕ) × (k ≡ some sid) × (slot ≡ sid % len))
held_after-Occurs len none held slot o = inl o
held_after-Occurs len (some sid) held slot (inl this) = inr (sid, refl, this)
held_after-Occurs len (some sid) held slot (inr before) = inl before

keeps_lock-own :
    (rid sid cid x : ℕ) (chat : ChatTab)
    → keeps_lock (leave_room rid sid cid) chat ≡ some x
    → x ≡ sid
keeps_lock-own rid sid cid x chat h = elim (Option-cases (lookup (sid, cid) chat.sessions)) [
  | inl e ↦ ground (arith, h, e)
  | inr (s, e) ↦ ground (arith, h, e)
]

keeps_lock-Left :
    (len : ℕ) (call : Call) (calls : List Call) (chat : ChatTab) (held : List ℕ) (slot : ℕ)
    → Occurs slot (held_after len (keeps_lock call chat) held)
    → Occurs slot held ⊎ Left len (call ∷ calls) slot
keeps_lock-Left len (leave_room rid sid cid) calls chat held slot o =
    elim (held_after-Occurs len (keeps_lock (leave_room rid sid cid) chat) held slot o) [
      | inl before ↦ inl before
      | inr (x, e, this) ↦
          inr (
            rid,
            sid,
            cid,
            inl refl,
            this ∙ ap (λ y. y % len) (keeps_lock-own rid sid cid x chat e),
          )
    ]
keeps_lock-Left len (enter_room now rid gid sid cid) calls chat held slot o = inl o
keeps_lock-Left len (quit sid cid) calls chat held slot o = inl o
keeps_lock-Left len (connect sid cid) calls chat held slot o = inl o
keeps_lock-Left len (disconnect sid cid) calls chat held slot o = inl o
keeps_lock-Left len (subscribe sid cmd) calls chat held slot o = inl o
keeps_lock-Left len (unsubscribe sid cmd) calls chat held slot o = inl o

-- A slot that is held after the first call was held before it, or the first call left it so.
held-on :
    (len : ℕ) (call : Call) (calls : List Call) (chat : ChatTab) (held : List ℕ) (slot : ℕ)
    → Occurs slot (held_after len (keeps_lock call chat) held) ⊎ Left len calls slot
    → Occurs slot held ⊎ Left len (call ∷ calls) slot
held-on len call calls chat held slot (inl o) = keeps_lock-Left len call calls chat held slot o
held-on len call calls chat held slot (inr (rid, sid, cid, o, e)) = inr (rid, sid, cid, inr o, e)

Settled-after :
    (len : ℕ) (call : Call) (calls : List Call) (chat : ChatTab) (held : List ℕ) {o : Served}
    → Settled len calls (held_after len (keeps_lock call chat) held) o
    → Settled len (call ∷ calls) held o
Settled-after len call calls chat held (safe_end last held' v h) =
    safe_end last held' v (λ slot o. held-on len call calls chat held slot (h slot o))
Settled-after len call calls chat held (safe_wait last held' c sid v o w h) =
    safe_wait last held' c sid v (inr o) w (held-on len call calls chat held (sid % len) h)

serve_all-Settled :
    (len : ℕ) (calls : List Call) (chat : ChatTab) (held : List ℕ)
    → IsChat chat
    → Settled len calls held (serve_all len calls chat held)
unfolding serve_all
serve_all-Settled len [] chat held v = safe_end chat held v (λ slot o. inl o)
serve_all-Settled len (call ∷ calls) chat held v =
    elim (Bool-cases (waits_for len (takes_lock call chat) held)) [
      | inl waits ↦
          let (sid, w, o) = waits_for-Occurs len (takes_lock call chat) held waits in
          rw (serve_all, waits) (safe_wait chat held call sid v (inl refl) w (inl o))
      | inr goes ↦
          let (next, run, v') = serve-IsChat call chat v in
          rw (serve_all, goes, run)
            (Settled-after len call calls chat held
              (serve_all-Settled len calls next (held_after len (keeps_lock call chat) held) v'))
    ]

pub serve_all-safe :
    (len : ℕ) (calls : List Call) → Settled len calls [] (serve_all len calls chat_tab_init [])
serve_all-safe len calls = serve_all-Settled len calls chat_tab_init [] chat_tab_init-IsChat

pub ended-IsChat :
    (len : ℕ) (calls : List Call) (held held' : List ℕ) (chat : ChatTab) (o : Served)
    → Settled len calls held o
    → o ≡ ended chat held'
    → IsChat chat
ended-IsChat len calls held held' chat _ (safe_end last held₁ v h) e =
    let same : last ≡ chat = ground (arith, e) in rw same at v
ended-IsChat len calls held held' chat _ (safe_wait last held₁ c sid v o w h) e = absurd (cc)

-- Where a sequence of the same calls was served to its end from the initial table, whom a broadcast to a room then reaches
-- is a session of the table that knows the room, in the group that the broadcast is for unless it is for group 0.
pub broadcast-safe :
    (len : ℕ) (calls : List Call) (chat : ChatTab) (held : List ℕ)
    → serve_all len calls chat_tab_init [] ≡ ended chat held
    → (rid gid : ℕ) (x : Sid2cidItem) → Occurs x (chat_room_trav_session chat rid gid)
    → (g : ℕ) × (group_of chat.sessions rid (x.sid, x.cid) ≡ some g)
      × ((gid16 gid ≡ 0) ⊎ (gid16 gid ≡ g))
broadcast-safe len calls chat held run rid gid x reached =
    let w : IsChat chat =
      ended-IsChat len calls [] held chat (serve_all len calls chat_tab_init [])
        (serve_all-safe len calls) run in
    let (g, there, which) = trav_session_sound chat rid gid x w reached in
    (g, w.owned rid g (x.sid, x.cid) x there, which)
