-- ===== src/Sdk/Submit.antt =====
-- `sdk_async_send` of src/clang/lib/sdk/sdk.c.
use beehive_im.Common.{
  ℕ, ◌+◌, ◌%◌, ◌^◌, ◌≡◌, ◌<◌, Bool, true, Option-cases, none, some, ◌∷◌, if◌then◌else◌, ◌==◌,
  nat_key, nat_beq_iff, arith, refl, ap, ◌∙◌, inl, inr, Occurs,
}
use beehive_im.Table.{lookup}
use beehive_im.Table.Laws.{insert-none}
use beehive_im.Chat.{Status, ok}
use beehive_im.Sdk.{
  SendItem, Packet, SdkCntx, stat_in_sendq, sdk_queue_rpush, sdk_gen_seq, sdk_send_mgr_insert,
  sdk_async_send, sdk_async_send_item, sdk_async_send_queue,
}
use beehive_im.Sdk.Life.{IsSdk}

if_true : {A : Type 0} (b : Bool) (x y : A) → b ≡ true → (if b then x else y) ≡ x
if_true b x y e = rw e refl

-- A message that was just sent: its item, and what is queued.
abbrev pub waiting : ℕ → ℕ → ℕ → ℕ → ℕ → ℕ → ℕ → SendItem
waiting seq now address cmd size timeout param = record {
  seq = seq;
  stat = stat_in_sendq;
  cmd = cmd;
  len = size % 2 ^ 32;
  ttl = now + timeout;
  data_ptr = address;
  cb = true;
  param = param;
}

abbrev pub queued : ℕ → ℕ → ℕ → ℕ → Packet
queued seq address cmd size = record {
  address = address;
  type = cmd;
  seq = seq;
  length = size % 2 ^ 32;
}

module _ (ctx : SdkCntx) (now address cmd orig size timeout param : ℕ) (v : IsSdk ctx)
    (on : ctx.online ≡ true) (room : ctx.seq + 1 < 2 ^ 64) where
  sent : SdkCntx
  sent = record ctx {
    seq = ctx.seq + 1;
    tab = (ctx.seq + 1, waiting (ctx.seq + 1) now address cmd size timeout param) ∷ ctx.tab;
    sendq = queued (ctx.seq + 1) address cmd size ∷ ctx.sendq;
  }

  unused : lookup (ctx.seq + 1) ctx.tab ≡ none
  unused = elim (Option-cases (lookup (ctx.seq + 1) ctx.tab)) [
    | inl e ↦ e
    | inr (item, e) ↦ absurd (omega (arith, v.drawn (ctx.seq + 1) item e))
  ]

  sent-lookup :
      (s : ℕ)
      → lookup s sent.tab ≡ (
          if ctx.seq + 1 == s
          then some (waiting (ctx.seq + 1) now address cmd size timeout param)
          else lookup s ctx.tab)
  unfolding sent lookup
  sent-lookup s = ground (arith, nat_beq_iff (ctx.seq + 1) s)

  fresh_alive : (s : ℕ) (x : SendItem) → lookup s sent.tab ≡ some x → ¬ Occurs s ctx.freed
  fresh_alive s x h o =
      ground
        (arith, h, sent-lookup s, v.alive s x, v.drawn_before s o, nat_beq_iff (ctx.seq + 1) s, o)

  gen_seq_lem : sdk_gen_seq ctx ≡ (ctx.seq + 1, record ctx { seq = ctx.seq + 1 })
  unfolding sdk_gen_seq
  gen_seq_lem =
      let next : (ctx.seq + 1) % 2 ^ 64 ≡ ctx.seq + 1 = omega (arith, room) in
      ap (λ (n : ℕ). (n, record ctx { seq = n })) next

  insert_lem :
      sdk_send_mgr_insert
        (record ctx { seq = ctx.seq + 1 })
        (waiting (ctx.seq + 1) now address cmd size timeout param)
      ≡ (
        ok,
        record ctx {
          seq = ctx.seq + 1;
          tab = (ctx.seq + 1, waiting (ctx.seq + 1) now address cmd size timeout param) ∷ ctx.tab;
        },
      )
  unfolding sdk_send_mgr_insert
  insert_lem =
      rw
        (
          sdk_send_mgr_insert,
          insert-none (ctx.seq + 1) (waiting (ctx.seq + 1) now address cmd size timeout param)
              ctx.tab unused,
        )
        refl

  sent-IsSdk : IsSdk sent
  sent-IsSdk = record {
    items = record {
      distinct = unfold sent in (unused, v.items.distinct);
      named =
          λ s x h. ground (arith, h, sent-lookup s, v.items.named s x, nat_beq_iff (ctx.seq + 1) s);
    };
    drawn = λ s x h.
        unfold sent in ground (arith, h, sent-lookup s, v.drawn s x, nat_beq_iff (ctx.seq + 1) s);
    drawn_before = λ s o. unfold sent in omega (arith, v.drawn_before s o);
    alive = λ s x h o. fresh_alive s x h (unfold sent in o);
  }

  -- Over a sound table of items, sending while the session is online, with sequence numbers left, draws the next number and puts the message
  -- under it, as waiting, at the head of the send queue; every other item stays.
  pub sdk_async_send-IsSdk :
      (ctx' : SdkCntx) × (sdk_async_send ctx now address cmd orig size timeout param
        ≡ ((ctx.seq + 1) % 2 ^ 32, ctx'))
      × IsSdk ctx'
      × ((s : ℕ)
          → lookup s ctx'.tab ≡ (
              if ctx.seq + 1 == s
              then some (waiting (ctx.seq + 1) now address cmd size timeout param)
              else lookup s ctx.tab))
      × (ctx'.sendq ≡ queued (ctx.seq + 1) address cmd size ∷ ctx.sendq)
  unfolding sdk_async_send sdk_async_send_item sdk_async_send_queue sdk_queue_rpush sent
  sdk_async_send-IsSdk = (
    sent,
    if_true _ _ _ on
        ∙ ap (λ (r : ℕ × SdkCntx). sdk_async_send_item r now address cmd orig size timeout param)
            gen_seq_lem
        ∙ ap
            (λ (r : Status × SdkCntx).
              sdk_async_send_queue r (queued (ctx.seq + 1) address cmd size) cmd orig size param)
            insert_lem,
    sent-IsSdk,
    sent-lookup,
    unfold sent in refl,
  )
