-- ===== src/Sdk/Tests.antt =====
-- The theorems of the send manager at concrete inputs.
use beehive_im.Common.{
  ℕ, ◌%◌, ◌^◌, ◌≡◌, true, none, some, [], ◌∷◌, if◌then◌else◌, ◌==◌, nat_key, arith, refl,
}
use beehive_im.Table.{lookup, insert, update, delete}
use beehive_im.Sdk.{
  SendItem, SdkCntx, stat_send_timeout, is_sending, dropped_stat, dropped_notice, drop_item,
  set_stat, sdk_queue_rpush, sdk_queue_lpop, sdk_queue_remove, sdk_gen_seq, sdk_send_mgr_insert,
  sdk_send_mgr_delete, sdk_send_item_clean_timeout_hdl, sdk_send_mgr_trav_timeout,
  sdk_send_mgr_clean_loop, sdk_send_mgr_update_next_trav_tm, sdk_send_mgr_trav, sdk_send_succ_hdl,
  sdk_send_fail_hdl, sdk_send_data_is_timeout_and_hdl, sdk_ack_succ_hdl, sdk_cmd_add,
  sdk_async_send_queue, sdk_async_send_item, sdk_async_send,
}
use beehive_im.Sdk.Traverse.{trav-lookup, trav-notices}
use beehive_im.Sdk.Life.{IsSdk}
use beehive_im.Sdk.Submit.{sdk_async_send-IsSdk, waiting, queued}

program : Unit {0}
unfolding lookup insert update delete is_sending dropped_stat dropped_notice drop_item set_stat
    sdk_queue_rpush sdk_queue_lpop sdk_queue_remove sdk_gen_seq sdk_send_mgr_insert
    sdk_send_mgr_delete sdk_send_item_clean_timeout_hdl sdk_send_mgr_trav_timeout
    sdk_send_mgr_clean_loop sdk_send_mgr_update_next_trav_tm sdk_send_mgr_trav sdk_send_succ_hdl
    sdk_send_fail_hdl sdk_send_data_is_timeout_and_hdl sdk_ack_succ_hdl sdk_cmd_add
    sdk_async_send_queue sdk_async_send_item sdk_async_send
program = tt

-- An online session; command 2 answers command 1, and 4 answers 3.
abbrev idle : SdkCntx
idle = record {
  next_trav_tm = 0;
  seq = 0;
  tab = [];
  cmd = (2, 1) ∷ (4, 3) ∷ [];
  sendq = [];
  online = true;
  notices = [];
  freed = [];
}

idle-IsSdk : IsSdk idle
unfolding program
idle-IsSdk = record {
  items = record { distinct = tt; named = λ s x h. cc };
  drawn = λ s x h. cc;
  drawn_before = λ s o. absurd o;
  alive = λ s x h. cc;
}

abbrev item1 : SendItem
item1 = waiting 1 100 4096 1 12 30 0

-- One message is sent at the time 100, for 30 seconds.
abbrev one : SdkCntx
one = record idle { seq = 1; tab = (1, item1) ∷ []; sendq = queued 1 4096 1 12 ∷ [] }

one-IsSdk : IsSdk one
unfolding program
one-IsSdk =
    let (ctx, run, v, _, _) =
      sdk_async_send-IsSdk idle 100 4096 1 512 12 30 0 idle-IsSdk refl (omega arith) in
    let computed : sdk_async_send idle 100 4096 1 512 12 30 0 ≡ (1, one) = refl in
    let same : ctx ≡ one = ground (arith, run, computed) in rw (← same) v

sdk_async_send-IsSdk_example :
    (ctx : SdkCntx) × (sdk_async_send one 101 8192 3 600 20 40 7 ≡ (2 % 2 ^ 32, ctx))
    × IsSdk ctx
    × ((s : ℕ)
        → lookup s ctx.tab
          ≡ (if 2 == s then some (waiting 2 101 8192 3 20 40 7) else lookup s one.tab))
    × (ctx.sendq ≡ queued 2 8192 3 20 ∷ one.sendq)
sdk_async_send-IsSdk_example =
    sdk_async_send-IsSdk one 101 8192 3 600 20 40 7 one-IsSdk refl (omega arith)

trav-lookup_example : lookup 1 (sdk_send_mgr_trav one 130).tab ≡ none
unfolding program
trav-lookup_example = trav-lookup one 130 one-IsSdk.items 1

trav-notices_example :
    (sdk_send_mgr_trav one 130).notices
    ≡ record {
      cmd = 1;
      orig = 4148;
      size = 12;
      ack = 0;
      ack_len = 0;
      stat = stat_send_timeout;
      param = 0;
    }
      ∷ []
unfolding program
trav-notices_example = trav-notices one 130
