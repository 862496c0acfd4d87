-- ===== src/Sdk/Life.antt =====
-- The life of a message in the send manager: src/clang/lib/sdk/sdk_comm.c and sdk.c.
use mathlib.Core.Path.{subst}
use beehive_im.Common.{
  ℕ, ◌+◌, ◌≡◌, ◌≢◌, ◌≤◌, Bool-cases, true, false, Option-cases, none, some, List, [], ◌∷◌, ◌++◌,
  ◌==◌, nat_key, nat_beq_iff, leb, arith, refl, sym, inl, inr, ◌⊎◌, Bool, Occurs,
}
use beehive_im.Table
use beehive_im.Table.{Table, lookup, update, insert, Distinct}
use beehive_im.Table.Laws.{lookup-delete, lookup-update, Distinct-delete, Distinct-update}
use beehive_im.Sdk.{
  SendStat, SendItem, Packet, Notice, SdkCntx, stat_sending, stat_send_succ, stat_send_fail,
  stat_send_timeout, stat_ack_succ, notice_of, header_size, set_stat, sdk_send_mgr_delete,
  sdk_send_succ_hdl, sdk_send_fail_hdl, sdk_send_data_is_timeout_and_hdl, sdk_ack_succ_hdl,
}
use beehive_im.Sdk.Traverse.{AreItems}

-- Items stand under their sequence numbers, which have all been drawn; no item of the table has been freed.
pub record IsSdk (ctx : SdkCntx) : Type 0 where
  pub items : AreItems ctx.tab
  pub drawn : (s : ℕ) (item : SendItem) → lookup s ctx.tab ≡ some item → s ≤ ctx.seq
  pub drawn_before : (s : ℕ) → Occurs s ctx.freed → s ≤ ctx.seq
  pub alive : (s : ℕ) (item : SendItem) → lookup s ctx.tab ≡ some item → ¬ Occurs s ctx.freed

module _ (ctx : SdkCntx) (v : IsSdk ctx) (item : SendItem)
    (there : lookup item.seq ctx.tab ≡ some item) where
  set_stat-IsSdk :
      (stat : SendStat) (notices : List Notice) → IsSdk (set_stat ctx item stat notices)
  unfolding set_stat
  set_stat-IsSdk stat notices = record {
    items = record {
      distinct = Distinct-update item.seq (record item { stat = stat }) ctx.tab v.items.distinct;
      named = λ s x h. ground (
        arith,
        h,
        v.items.named s x,
        lookup-update s item.seq (record item { stat = stat }) ctx.tab,
        nat_beq_iff item.seq s,
      );
    };
    drawn = λ s x h. ground (
      arith,
      h,
      v.drawn s x,
      v.drawn item.seq item there,
      lookup-update s item.seq (record item { stat = stat }) ctx.tab,
      nat_beq_iff item.seq s,
    );
    drawn_before = v.drawn_before;
    alive = λ s x h. ground (
      arith,
      h,
      v.alive s x,
      v.alive item.seq item there,
      lookup-update s item.seq (record item { stat = stat }) ctx.tab,
      nat_beq_iff item.seq s,
    );
  }

-- The table without the item `s`, which is freed.
module _ (ctx : SdkCntx) (v : IsSdk ctx) (s : ℕ) (item : SendItem)
    (there : lookup s ctx.tab ≡ some item) where
  released : List Notice → SdkCntx
  released notices = record ctx {
    tab = Table.delete s ctx.tab;
    notices = notices;
    freed = item.seq ∷ ctx.freed;
  }

  released-IsSdk : (notices : List Notice) → IsSdk (released notices)
  unfolding released
  released-IsSdk notices =
      let own = v.items.named s item there in
      record {
        items = record {
          distinct = Distinct-delete s ctx.tab v.items.distinct;
          named = λ r x h. ground (arith, h, v.items.named r x, lookup-delete r s ctx.tab);
        };
        drawn = λ r x h. ground (arith, h, v.drawn r x, lookup-delete r s ctx.tab);
        drawn_before = λ r o. ground (arith, o, own, v.drawn_before r, v.drawn s item there);
        alive = λ r x h.
            ground (arith, own, h, v.alive r x, lookup-delete r s ctx.tab, nat_beq_iff s r);
      }

-- Deleting keeps the table sound: the item leaves the table when it is freed.
sdk_send_mgr_delete-IsSdk :
    (ctx : SdkCntx) (s : ℕ) → IsSdk ctx → IsSdk (sdk_send_mgr_delete ctx s).1
unfolding sdk_send_mgr_delete released
sdk_send_mgr_delete-IsSdk ctx s v = elim (Option-cases (lookup s ctx.tab)) [
  | inl e ↦ rw (sdk_send_mgr_delete, e) v
  | inr (item, e) ↦ rw (sdk_send_mgr_delete, e) (released-IsSdk ctx v s item e ctx.notices)
]

-- An item that was found under `s` stands under its own number.
at_home :
    (ctx : SdkCntx) (s : ℕ) (item : SendItem)
    → IsSdk ctx
    → lookup s ctx.tab ≡ some item
    → lookup item.seq ctx.tab ≡ some item
at_home ctx s item v e =
    subst (λ (r : ℕ). lookup r ctx.tab ≡ some item) (sym (v.items.named s item e)) e

-- Taking a message off the send queue keeps a sound table of items sound, whether it is in time or not.
pub is_timeout-IsSdk :
    (ctx : SdkCntx) (now : ℕ) (head : Packet)
    → IsSdk ctx
    → IsSdk (sdk_send_data_is_timeout_and_hdl ctx now head).1
unfolding sdk_send_data_is_timeout_and_hdl
is_timeout-IsSdk ctx now head v = elim (Option-cases (lookup head.seq ctx.tab)) [
  | inl e ↦ rw (sdk_send_data_is_timeout_and_hdl, e) v
  | inr (item, e) ↦
      let set = set_stat-IsSdk ctx v item (at_home ctx head.seq item v e) in
      elim (Bool-cases (leb item.ttl now)) [
        | inl late ↦
            rw (sdk_send_data_is_timeout_and_hdl, e, late)
              (sdk_send_mgr_delete-IsSdk _ head.seq (set stat_send_timeout _))
        | inr timely ↦ rw (sdk_send_data_is_timeout_and_hdl, e, timely) (set stat_sending [])
      ]
]

-- What the handlers of a message that was written call back.
abbrev told : SendStat → Packet → SendItem → List Notice
told stat head item = notice_of item head.type (head.address + header_size) item.len stat

-- What an answer calls back.
abbrev answered : Packet → SendItem → Notice
answered head item = record {
  cmd = item.cmd;
  orig = item.data_ptr + header_size;
  size = item.len;
  ack = head.address + header_size;
  ack_len = head.length;
  stat = stat_ack_succ;
  param = item.param;
}

-- For a message of a sound table, the handlers of a success and of a failure return, and keep the table sound.
pub send_hdl-IsSdk :
    (ctx : SdkCntx) (head : Packet) (item : SendItem)
    → IsSdk ctx
    → lookup head.seq ctx.tab ≡ some item
    → ((ctx' : SdkCntx) × (sdk_send_succ_hdl ctx head ≡ some ctx') × IsSdk ctx')
      × ((ctx' : SdkCntx) × (sdk_send_fail_hdl ctx head ≡ some ctx') × IsSdk ctx')
unfolding sdk_send_succ_hdl sdk_send_fail_hdl
send_hdl-IsSdk ctx head item v e =
    let set = set_stat-IsSdk ctx v item (at_home ctx head.seq item v e) in
    (
      (
        set_stat ctx item stat_send_succ (told stat_send_succ head item),
        rw (sdk_send_succ_hdl, e) refl,
        set stat_send_succ (told stat_send_succ head item),
      ),
      (
        (sdk_send_mgr_delete (set_stat ctx item stat_send_fail (told stat_send_fail head item))
            head.seq).1,
        rw (sdk_send_fail_hdl, e) refl,
        sdk_send_mgr_delete-IsSdk (set_stat ctx item stat_send_fail (told stat_send_fail head item))
            head.seq (set stat_send_fail (told stat_send_fail head item)),
      ),
    )

-- An answer registered for the command of a message of a sound table, which has a callback, is taken, and the table stays sound: the message
-- leaves it when it is freed.
pub sdk_ack_succ_hdl-IsSdk :
    (ctx : SdkCntx) (seq : ℕ) (head : Packet) (item : SendItem)
    → IsSdk ctx
    → lookup seq ctx.tab ≡ some item
    → item.cb ≡ true
    → lookup head.type ctx.cmd ≡ some item.cmd
    → (ctx' : SdkCntx) × (sdk_ack_succ_hdl ctx seq head ≡ some (true, ctx'))
      × IsSdk ctx'
      × (lookup seq ctx'.tab ≡ none)
unfolding sdk_ack_succ_hdl released
sdk_ack_succ_hdl-IsSdk ctx seq head item v e has kind =
    let same : (item.cmd == item.cmd) ≡ true = ground (arith, nat_beq_iff item.cmd item.cmd) in
    (
      released ctx v seq item e (ctx.notices ++ (answered head item ∷ [])),
      rw (sdk_ack_succ_hdl, kind, e, has, same) refl,
      released-IsSdk ctx v seq item e (ctx.notices ++ (answered head item ∷ [])),
      ground (arith, lookup-delete seq seq ctx.tab, nat_beq_iff seq seq),
    )

-- What an answer does to the item of its number: it is left alone; or it is called back, and freed. Then it leaves the
-- table just where the answer is registered for the command of the item.
pub data Answered (ctx ctx' : SdkCntx) (seq : ℕ) (head : Packet) : Bool → Type 0 where
  ignored :
      ctx' ≡ ctx
      → (lookup head.type ctx.cmd ≡ none) ⊎ (lookup seq ctx.tab ≡ none)
      → Answered ctx ctx' seq head false
  taken :
      (item : SendItem)
      → lookup seq ctx.tab ≡ some item
      → lookup head.type ctx.cmd ≡ some item.cmd
      → ctx'.notices ≡ ctx.notices ++ (answered head item ∷ [])
      → IsSdk ctx'
      → lookup seq ctx'.tab ≡ none
      → Answered ctx ctx' seq head true
  dangles :
      (item : SendItem) (req : ℕ)
      → lookup seq ctx.tab ≡ some item
      → lookup head.type ctx.cmd ≡ some req
      → item.cmd ≢ req
      → ctx'.notices ≡ ctx.notices ++ (answered head item ∷ [])
      → lookup seq ctx'.tab ≡ some item
      → Occurs seq ctx'.freed
      → Answered ctx ctx' seq head true
