-- ===== src/Sdk.antt =====
-- The send manager of the client SDK: src/clang/lib/sdk/sdk_comm.c and sdk.c, types of src/clang/incl/sdk/sdk.h.
-- Each call is one step: the locks are left out. The tree of items is a table by sequence number. What callbacks are
-- called with is recorded in order, and so are the sequence numbers of the items whose memory is freed.
pub mod Traverse
pub mod Life
pub mod Submit
pub mod Expire
mod Tests
use mathlib.Core.Option
use beehive_im.Common.{
  ℕ, zero, suc, ◌+◌, ◌-◌, ◌%◌, ◌^◌, Bool, true, false, not, Option, none, some, List, [], ◌∷◌, ◌++◌,
  if◌then◌else◌, ◌==◌, ◌&&◌, nat_key, leb, ltb,
}
use beehive_im.Table
use beehive_im.Table.{Table, lookup, update}
use beehive_im.Chat.{Status, ok, fail, inc64}

pub data SendStat : Type 0 where
  stat_unknown stat_in_sendq stat_sending stat_send_succ stat_send_fail stat_send_timeout
        stat_ack_succ stat_ack_timeout :
      SendStat

pub record SendItem : Type 0 where
  pub seq : ℕ
  pub stat : SendStat
  pub cmd : ℕ
  pub len : ℕ
  pub ttl : ℕ
  pub data_ptr : ℕ
  pub cb : Bool
  pub param : ℕ

-- A message in the send queue: its address and the fields of its header.
pub record Packet : Type 0 where
  pub address : ℕ
  pub type : ℕ
  pub seq : ℕ
  pub length : ℕ

-- The arguments of a call of `sdk_send_cb_t`.
pub record Notice : Type 0 where
  pub cmd : ℕ
  pub orig : ℕ
  pub size : ℕ
  pub ack : ℕ
  pub ack_len : ℕ
  pub stat : SendStat
  pub param : ℕ

-- `cmd` maps the command of an answer to that of its request. `online` is `ssvr->is_online_succ`.
pub record SdkCntx : Type 0 where
  pub next_trav_tm : ℕ
  pub seq : ℕ
  pub tab : Table ℕ SendItem
  pub cmd : Table ℕ ℕ
  pub sendq : List Packet
  pub online : Bool
  pub notices : List Notice
  pub freed : List ℕ

-- sizeof(mesg_header_t)
abbrev pub header_size : ℕ
header_size = 52

abbrev pub sdk_sleep_max_sec : ℕ
sdk_sleep_max_sec = 300

-- `sdk_queue_rpush` calls `list_lpush`.
unfoldable pub sdk_queue_rpush : List Packet → Packet → List Packet
sdk_queue_rpush q packet = packet ∷ q

unfoldable pub sdk_queue_lpop : List Packet → Option Packet × List Packet
sdk_queue_lpop [] = (none, [])
sdk_queue_lpop (packet ∷ q) = (some packet, q)

-- The first message at the address is taken out.
unfoldable pub sdk_queue_remove : List Packet → ℕ → List Packet
sdk_queue_remove [] at = []
sdk_queue_remove (packet ∷ q) at =
    let rest = sdk_queue_remove q at in if packet.address == at then q else packet ∷ rest

unfoldable pub sdk_gen_seq : SdkCntx → ℕ × SdkCntx
sdk_gen_seq ctx = (inc64 ctx.seq, record ctx { seq = inc64 ctx.seq })

unfoldable pub sdk_send_mgr_insert : SdkCntx → SendItem → Status × SdkCntx
sdk_send_mgr_insert ctx item = elim (Table.insert item.seq item ctx.tab) [
  | none ↦ (fail, ctx)
  | some tab ↦ (ok, record ctx { tab = tab })
]

unfoldable pub sdk_send_mgr_query : SdkCntx → ℕ → Option SendItem
sdk_send_mgr_query ctx seq = lookup seq ctx.tab

unfoldable pub sdk_send_mgr_delete : SdkCntx → ℕ → Status × SdkCntx
sdk_send_mgr_delete ctx seq = elim (lookup seq ctx.tab) [
  | none ↦ (fail, ctx)
  | some item ↦ (ok, record ctx { tab = Table.delete seq ctx.tab; freed = item.seq ∷ ctx.freed })
]

-- It returns `(bool)num`.
unfoldable pub sdk_send_mgr_empty : SdkCntx → Bool
sdk_send_mgr_empty ctx = elim ctx.tab [ [] ↦ false | _ ∷ _ ↦ true ]

-- The call of an item's callback, if it has one.
abbrev pub notice_of : SendItem → ℕ → ℕ → ℕ → SendStat → List Notice
notice_of item cmd orig size stat =
    if item.cb
    then record {
      cmd = cmd;
      orig = orig;
      size = size;
      ack = 0;
      ack_len = 0;
      stat = stat;
      param = item.param;
    }
      ∷ []
    else []

-- What an item that is dropped by the traversal is reported as.
unfoldable pub dropped_stat : SendStat → SendStat
dropped_stat stat_unknown = stat_unknown
dropped_stat stat_in_sendq = stat_send_timeout
dropped_stat stat_sending = stat_sending
dropped_stat stat_send_succ = stat_ack_timeout
dropped_stat stat_send_fail = stat_send_fail
dropped_stat stat_send_timeout = stat_send_timeout
dropped_stat stat_ack_succ = stat_ack_succ
dropped_stat stat_ack_timeout = stat_ack_timeout

unfoldable pub dropped_notice : SendItem → List Notice
unfolding dropped_stat
dropped_notice item =
    notice_of item item.cmd (item.data_ptr + header_size) item.len (dropped_stat item.stat)

-- The steps that the cases of `sdk_send_item_clean_timeout_hdl` share.
unfoldable pub drop_item : SdkCntx → SendItem → SdkCntx
unfolding dropped_notice
drop_item ctx item = record ctx {
  tab = Table.delete item.seq ctx.tab;
  notices = ctx.notices ++ dropped_notice item;
  freed = item.seq ∷ ctx.freed;
}

unfoldable pub sdk_send_item_clean_timeout_hdl : SdkCntx → SendItem → SdkCntx
unfolding drop_item
sdk_send_item_clean_timeout_hdl ctx item = elim item.stat [
  | stat_in_sendq ↦ drop_item (record ctx { sendq = sdk_queue_remove ctx.sendq item.data_ptr }) item
  | stat_sending ↦ ctx
  | _ ↦ drop_item ctx item
]

unfoldable pub is_sending : SendStat → Bool
is_sending stat_sending = true
is_sending _ = false

-- `sdk_send_mgr_trav_timeout_cb` for each item: the items to be dropped, in the order of the traversal
unfoldable pub sdk_send_mgr_trav_timeout : ℕ → Table ℕ SendItem → List SendItem
unfolding is_sending
sdk_send_mgr_trav_timeout now [] = []
sdk_send_mgr_trav_timeout now ((j, item) ∷ tab) =
    let rest = sdk_send_mgr_trav_timeout now tab in
    if ltb now item.ttl then rest else (if is_sending item.stat then rest else item ∷ rest)

-- The loop that takes the list off from its head.
unfoldable pub sdk_send_mgr_clean_loop : SdkCntx → List SendItem → SdkCntx
unfolding sdk_send_item_clean_timeout_hdl
sdk_send_mgr_clean_loop ctx [] = ctx
sdk_send_mgr_clean_loop ctx (item ∷ items) =
    sdk_send_mgr_clean_loop (sdk_send_item_clean_timeout_hdl ctx item) items

-- `sdk_send_mgr_update_next_trav_tm_cb` for each item
unfoldable pub sdk_send_mgr_update_next_trav_tm : Table ℕ SendItem → ℕ → ℕ
sdk_send_mgr_update_next_trav_tm [] tm = tm
sdk_send_mgr_update_next_trav_tm ((j, item) ∷ tab) tm =
    sdk_send_mgr_update_next_trav_tm tab (if ltb tm item.ttl then tm else item.ttl)

-- The clock stands at `now` throughout.
unfoldable pub sdk_send_mgr_trav : SdkCntx → ℕ → SdkCntx
unfolding sdk_send_mgr_clean_loop sdk_send_mgr_trav_timeout sdk_send_mgr_update_next_trav_tm
sdk_send_mgr_trav ctx now =
    let ctx' = sdk_send_mgr_clean_loop ctx (sdk_send_mgr_trav_timeout now ctx.tab) in
    record ctx' {
      next_trav_tm = sdk_send_mgr_update_next_trav_tm ctx'.tab (now + sdk_sleep_max_sec);
    }

-- The writes `item->stat = stat`, and the callback.
unfoldable pub set_stat : SdkCntx → SendItem → SendStat → List Notice → SdkCntx
set_stat ctx item stat notices = record ctx {
  tab = update item.seq (record item { stat = stat }) ctx.tab;
  notices = ctx.notices ++ notices;
}

-- A sequence number that is unknown fails an assertion.
unfoldable pub sdk_send_succ_hdl : SdkCntx → Packet → Option SdkCntx
unfolding set_stat
sdk_send_succ_hdl ctx head = elim (lookup head.seq ctx.tab) [
  | none ↦ none
  | some item ↦ some (
      set_stat ctx item stat_send_succ
        (notice_of item head.type (head.address + header_size) item.len stat_send_succ))
]

unfoldable pub sdk_send_fail_hdl : SdkCntx → Packet → Option SdkCntx
unfolding set_stat
sdk_send_fail_hdl ctx head = elim (lookup head.seq ctx.tab) [
  | none ↦ none
  | some item ↦
      some
        (sdk_send_mgr_delete
          (set_stat ctx item stat_send_fail
            (notice_of item head.type (head.address + header_size) item.len stat_send_fail))
          head.seq).1
]

unfoldable pub sdk_send_data_is_timeout_and_hdl : SdkCntx → ℕ → Packet → Bool × SdkCntx
unfolding set_stat
sdk_send_data_is_timeout_and_hdl ctx now head = elim (lookup head.seq ctx.tab) [
  | none ↦ (true, ctx)
  | some item ↦
      if leb item.ttl now
      then (
        true,
        (sdk_send_mgr_delete
            (set_stat ctx item stat_send_timeout
              (notice_of item head.type (head.address + header_size) head.length stat_send_timeout))
            head.seq).1,
      )
      else (false, set_stat ctx item stat_sending [])
]

-- An answer to the message `seq`: its command, address and length. An item that is not for that answer stays in
-- the table but is freed too. An item without a callback is a call through NULL.
unfoldable pub sdk_ack_succ_hdl : SdkCntx → ℕ → Packet → Option (Bool × SdkCntx)
sdk_ack_succ_hdl ctx seq head = elim (lookup head.type ctx.cmd) [
  | none ↦ some (false, ctx)
  | some req ↦ elim (lookup seq ctx.tab) [
    | none ↦ some (false, ctx)
    | some item ↦
        if item.cb
        then (let notice : Notice = record {
          cmd = item.cmd;
          orig = item.data_ptr + header_size;
          size = item.len;
          ack = head.address + header_size;
          ack_len = head.length;
          stat = stat_ack_succ;
          param = item.param;
        } in
            some (
              true,
              record ctx {
                tab = if item.cmd == req then Table.delete seq ctx.tab else ctx.tab;
                notices = ctx.notices ++ (notice ∷ []);
                freed = item.seq ∷ ctx.freed;
              },
            ))
        else none
  ]
]

unfoldable pub sdk_cmd_add : SdkCntx → ℕ → ℕ → Status × SdkCntx
sdk_cmd_add ctx req ack = elim (Table.insert ack req ctx.cmd) [
  | none ↦ (fail, ctx)
  | some cmd ↦ (ok, record ctx { cmd = cmd })
]

-- What the caller's callback is called with when a message is refused.
abbrev pub refusal : ℕ → ℕ → ℕ → ℕ → Notice
refusal cmd orig size param = record {
  cmd = cmd;
  orig = orig;
  size = size;
  ack = 0;
  ack_len = 0;
  stat = stat_send_fail;
  param = param;
}

-- The end of `sdk_async_send`, once the table has the item or refused it.
unfoldable pub sdk_async_send_queue : Status × SdkCntx → Packet → ℕ → ℕ → ℕ → ℕ → ℕ × SdkCntx
sdk_async_send_queue (ok, ctx) head cmd orig size param =
    (head.seq % 2 ^ 32, record ctx { sendq = sdk_queue_rpush ctx.sendq head })
sdk_async_send_queue (fail, ctx) head cmd orig size param =
    (2 ^ 32 - 1, record ctx { notices = ctx.notices ++ (refusal cmd orig size param ∷ []) })

-- The part of `sdk_async_send` after `sdk_gen_seq`.
unfoldable pub sdk_async_send_item : ℕ × SdkCntx → ℕ → ℕ → ℕ → ℕ → ℕ → ℕ → ℕ → ℕ × SdkCntx
sdk_async_send_item (seq, ctx) now address cmd orig size timeout param =
    let item : SendItem = record {
      seq = seq;
      stat = stat_in_sendq;
      cmd = cmd;
      len = size % 2 ^ 32;
      ttl = now + timeout;
      data_ptr = address;
      cb = true;
      param = param;
    } in
    let head : Packet = record {
      address = address;
      type = cmd;
      seq = seq;
      length = size % 2 ^ 32;
    } in
    sdk_async_send_queue (sdk_send_mgr_insert ctx item) head cmd orig size param

-- `address` is what the allocation gives. The result is the sequence number, cut to 32 bits, or `(uint32_t)-1`.
unfoldable pub sdk_async_send : SdkCntx → ℕ → ℕ → ℕ → ℕ → ℕ → ℕ → ℕ → ℕ × SdkCntx
sdk_async_send ctx now address cmd orig size timeout param =
    if ctx.online
    then sdk_async_send_item (sdk_gen_seq ctx) now address cmd orig size timeout param
    else (2 ^ 32 - 1, record ctx { notices = ctx.notices ++ (refusal cmd orig size param ∷ []) })
