-- ===== src/Chat/Sessions/Subscribe.antt =====
-- Subscribing a session to a command, or taking it back, keeps the chat table valid: chat_add_sub and chat_del_sub of
-- src/clang/lib/chat/chat.c.
use beehive_im.Common.{
  ℕ, ◌≡◌, some, ◌∷◌, ◌==◌, nat_key, pair_key, pair_beq_iff, arith, Option-cases, inl, inr,
  Bool-cases,
}
use beehive_im.Table
use beehive_im.Table.{Table, lookup, update}
use beehive_im.Table.Laws.{lookup-update}
use beehive_im.Chat.{ChatSession, SubItem, ChatTab}
use beehive_im.Chat.Sessions.{chat_get_cid_by_sid, chat_add_sub, chat_del_sub}
use beehive_im.Chat.Sessions.Valid.{room_of, group_of, IsChat}

-- A session may get other subscriptions.
module _ (chat : ChatTab) (v : IsChat chat) (sid cid : ℕ) (s : ChatSession)
    (e : lookup (sid, cid) chat.sessions ≡ some s) (sub : Table ℕ SubItem) where
  resubscribed : ChatTab
  resubscribed = record chat { sessions = update (sid, cid) (record s { sub = sub }) chat.sessions }

  room_of-resubscribed :
      (r : ℕ) (k : ℕ × ℕ) → room_of resubscribed.sessions r k ≡ room_of chat.sessions r k
  unfolding resubscribed room_of
  room_of-resubscribed r k = ground (
    arith,
    e,
    pair_beq_iff (sid, cid) k,
    lookup-update k (sid, cid) (record s { sub = sub }) chat.sessions,
  )

  resubscribed-IsChat : IsChat resubscribed
  resubscribed-IsChat = record {
    rooms_ok = unfold resubscribed in v.rooms_ok;
    keyed = λ k u found.
        unfold resubscribed in
        ground (
          arith,
          v.keyed k u,
          v.keyed k s,
          e,
          pair_beq_iff (sid, cid) k,
          lookup-update k (sid, cid) (record s { sub = sub }) chat.sessions,
        );
    items = λ r k item found. v.items r k item (rw (room_of-resubscribed r k) at found);
    owned = λ r g k x found.
        rw (room_of-resubscribed r k, group_of) (v.owned r g k x (unfold resubscribed in found));
  }

module _ (chat : ChatTab) (sid cmd : ℕ) (v : IsChat chat) where
  pub chat_add_sub-IsChat : IsChat (chat_add_sub chat sid cmd).1
  unfolding chat_add_sub resubscribed Table.insert
  chat_add_sub-IsChat =
      let cid = chat_get_cid_by_sid chat sid in
      elim (Bool-cases (cid == 0)) [
        | inl unlinked ↦ rw (chat_add_sub, unlinked) v
        | inr linked ↦ elim (Option-cases (lookup (sid, cid) chat.sessions)) [
          | inl e ↦ rw (chat_add_sub, linked, e) v
          | inr (s, e) ↦ elim (Option-cases (lookup cmd s.sub)) [
            | inl f ↦
                rw (chat_add_sub, linked, e, Table.insert, f)
                  (resubscribed-IsChat chat v sid cid s e ((cmd, record { cmd = cmd }) ∷ s.sub))
            | inr (x, f) ↦ rw (chat_add_sub, linked, e, Table.insert, f) v
          ]
        ]
      ]

  pub chat_del_sub-IsChat : IsChat (chat_del_sub chat sid cmd).1
  unfolding chat_del_sub resubscribed
  chat_del_sub-IsChat =
      let cid = chat_get_cid_by_sid chat sid in
      elim (Bool-cases (cid == 0)) [
        | inl unlinked ↦ rw (chat_del_sub, unlinked) v
        | inr linked ↦ elim (Option-cases (lookup (sid, cid) chat.sessions)) [
          | inl e ↦ rw (chat_del_sub, linked, e) v
          | inr (s, e) ↦
              rw (chat_del_sub, linked, e)
                (resubscribed-IsChat chat v sid cid s e (Table.delete cmd s.sub))
        ]
      ]
