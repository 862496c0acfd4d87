-- ===== src/Chat/Sessions/Connections.antt =====
-- The link from a session to its connection, and subscriptions: the rest of chat.c.
use beehive_im.Common.{
  ℕ, ◌≡◌, ◌≢◌, Option, none, some, ◌∷◌, if◌then◌else◌, ◌==◌, ◌&&◌, nat_key, pair_key, nat_beq_iff,
  arith, refl, Option-cases, inl, inr, Bool, Bool-cases, ◌||◌, not,
}
use beehive_im.Table
use beehive_im.Table.{Table, lookup, update}
use beehive_im.Table.Laws.{lookup-update, lookup-delete, insert-none}
use beehive_im.Chat.{ok, Sid2cidItem, ChatSession, ChatTab}
use beehive_im.Chat.Sessions.{
  chat_get_cid_by_sid, chat_set_sid_to_cid, chat_del_sid_to_cid, chat_add_sub, chat_del_sub,
  chat_has_sub, chat_has_sub_raw,
}

abbrev link : ℕ → ℕ → Sid2cidItem
link sid cid = record { sid = sid; cid = cid }

gone : (chat : ChatTab) (sid : ℕ) → lookup sid (Table.delete sid chat.sid2cids) ≡ none
gone chat sid = ground (arith, lookup-delete sid sid chat.sid2cids, nat_beq_iff sid sid)

-- Linking a session to a connection succeeds in one round of the loop, whatever link there was.
-- Afterwards the session's connection is the new one; no other session's changed, and neither rooms nor sessions did.
pub get_cid-set_sid :
    (chat : ChatTab) (sid cid : ℕ)
    → (chat' : ChatTab) × (chat_set_sid_to_cid 1 chat sid cid ≡ some (ok, chat'))
      × ((s : ℕ)
          → chat_get_cid_by_sid chat' s ≡ (if sid == s then cid else chat_get_cid_by_sid chat s))
      × (chat'.rooms ≡ chat.rooms)
      × (chat'.sessions ≡ chat.sessions)
unfolding chat_set_sid_to_cid chat_get_cid_by_sid
get_cid-set_sid chat sid cid = elim (Option-cases (lookup sid chat.sid2cids)) [
  | inl e ↦ (
    record chat { sid2cids = (sid, link sid cid) ∷ chat.sid2cids },
    rw (e, chat_set_sid_to_cid, insert-none sid (link sid cid) chat.sid2cids e) refl,
    λ s. unfold lookup in ground (arith, e, nat_beq_iff sid s),
    refl,
    refl,
  )
  | inr (item, e) ↦ elim (Bool-cases (item.cid == cid)) [
    | inl same ↦ (
      chat,
      rw (e, chat_set_sid_to_cid, same) refl,
      λ s. ground (arith, e, nat_beq_iff sid s, nat_beq_iff item.cid cid),
      refl,
      refl,
    )
    | inr other ↦ (
      record chat { sid2cids = (sid, link sid cid) ∷ Table.delete sid chat.sid2cids },
      rw
          (
            e,
            chat_set_sid_to_cid,
            other,
            insert-none sid (link sid cid) (Table.delete sid chat.sid2cids) (gone chat sid),
          )
          refl,
      λ s. unfold lookup in ground (arith, e, nat_beq_iff sid s, lookup-delete s sid chat.sid2cids),
      refl,
      refl,
    )
  ]
]

-- Unlinking takes effect only for the connection that is linked; an unlinking that comes late, when the session has a
-- newer connection, changes nothing.
pub get_cid-del_sid :
    (chat : ChatTab) (sid cid s : ℕ)
    → chat_get_cid_by_sid (chat_del_sid_to_cid chat sid cid) s
      ≡ (if sid == s && chat_get_cid_by_sid chat s == cid then 0 else chat_get_cid_by_sid chat s)
unfolding chat_del_sid_to_cid chat_get_cid_by_sid
get_cid-del_sid chat sid cid s =
    ground (arith, lookup-delete s sid chat.sid2cids, nat_beq_iff sid s)

-- The session of a sid, by way of its connection.
abbrev session_of : ChatTab → ℕ → Option ChatSession
session_of chat sid = lookup (sid, chat_get_cid_by_sid chat sid) chat.sessions

-- What a query with the right connection id says.
abbrev pub subscribed : ChatTab → ℕ → ℕ → Bool
subscribed chat sid cmd = chat_has_sub chat (chat_get_cid_by_sid chat sid) sid cmd

module _ (chat : ChatTab) (sid cmd : ℕ) (s : ChatSession)
    (linked : chat_get_cid_by_sid chat sid ≢ 0) (e : session_of chat sid ≡ some s) where
  -- Subscribing a session of the table that is linked to a connection returns 0. That session then has the command among its
  -- subscriptions, and no other subscription of any session changed.
  pub chat_add_sub-subscribed :
      ((chat_add_sub chat sid cmd).0 ≡ ok)
      × ((i c : ℕ)
          → subscribed (chat_add_sub chat sid cmd).1 i c
            ≡ ((sid == i && cmd == c) || subscribed chat i c))
  unfolding chat_add_sub chat_has_sub chat_has_sub_raw chat_get_cid_by_sid Table.insert lookup
  chat_add_sub-subscribed =
      let c0 = chat_get_cid_by_sid chat sid in
      (
        ground (arith, e, nat_beq_iff c0 0),
        λ i c. ground (
          arith,
          e,
          nat_beq_iff c0 0,
          nat_beq_iff sid i,
          nat_beq_iff cmd c,
          lookup-update (i, chat_get_cid_by_sid chat i) (sid, c0)
              (record s { sub = (cmd, record { cmd = cmd }) ∷ s.sub }) chat.sessions,
        ),
      )

  -- Unsubscribing a session of the table that is linked to a connection returns 0. That session then lacks the command among its
  -- subscriptions, and no other subscription of any session changed.
  pub chat_del_sub-subscribed :
      ((chat_del_sub chat sid cmd).0 ≡ ok)
      × ((i c : ℕ)
          → subscribed (chat_del_sub chat sid cmd).1 i c
            ≡ (not (sid == i && cmd == c) && subscribed chat i c))
  unfolding chat_del_sub chat_has_sub chat_has_sub_raw chat_get_cid_by_sid
  chat_del_sub-subscribed = (
    ground (arith, nat_beq_iff (chat_get_cid_by_sid chat sid) 0),
    λ i c. ground (
      arith,
      nat_beq_iff (chat_get_cid_by_sid chat sid) 0,
      nat_beq_iff sid i,
      nat_beq_iff cmd c,
      lookup-delete c cmd s.sub,
      lookup-update (i, chat_get_cid_by_sid chat i) (sid, chat_get_cid_by_sid chat sid)
          (record s { sub = Table.delete cmd s.sub }) chat.sessions,
    ),
  )
