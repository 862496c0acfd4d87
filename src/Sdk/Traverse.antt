-- ===== src/Sdk/Traverse.antt =====
-- `sdk_send_mgr_trav` of src/clang/lib/sdk/sdk_comm.c: what it drops, reports and keeps.
use beehive_im.Common.{
  ℕ, ◌+◌, ◌≡◌, ◌≤◌, Bool, true, false, not, none, some, List, [], ◌∷◌, ◌++◌, if◌then◌else◌, ◌==◌,
  ◌&&◌, nat_key, nat_beq_iff, leb, ltb, append-nil, append_assoc, arith, refl, ap, sym, ◌∙◌,
}
use beehive_im.Table
use beehive_im.Table.{Table, lookup, update, Distinct}
use beehive_im.Table.Laws.{lookup-delete, Distinct-delete}
use beehive_im.Sdk.{
  SendStat, SendItem, Notice, SdkCntx, stat_in_sendq, stat_send_succ, stat_send_timeout,
  stat_ack_timeout, is_sending, dropped_stat, dropped_notice, notice_of, header_size, drop_item,
  sdk_send_item_clean_timeout_hdl, sdk_send_mgr_trav_timeout, sdk_send_mgr_clean_loop,
  sdk_send_mgr_update_next_trav_tm, sdk_send_mgr_trav, sdk_sleep_max_sec,
}

-- An item whose time is over, and which is not being sent.
abbrev pub overdue : ℕ → SendItem → Bool
overdue now item = leb item.ttl now && not (is_sending item.stat)

-- Each item stands under its sequence number, once.
pub record AreItems (tab : Table ℕ SendItem) : Type 0 where
  pub distinct : Distinct tab
  pub named : (s : ℕ) (item : SendItem) → lookup s tab ≡ some item → item.seq ≡ s

-- The items that are dropped, in the order of the table.
abbrev pub all_overdue : ℕ → Table ℕ SendItem → List SendItem
all_overdue now [] = []
all_overdue now ((s, item) ∷ tab) =
    if overdue now item then item ∷ all_overdue now tab else all_overdue now tab

-- What a dropped item is to be reported as: as timed out in the queue, as timed out without an answer, or as it is.
abbrev pub final_stat : SendStat → SendStat
final_stat stat_in_sendq = stat_send_timeout
final_stat stat_send_succ = stat_ack_timeout
final_stat stat = stat

-- The report of a dropped item to its callback, if it has one.
abbrev pub report : SendItem → List Notice
report item =
    if item.cb
    then record {
      cmd = item.cmd;
      orig = item.data_ptr + header_size;
      size = item.len;
      ack = 0;
      ack_len = 0;
      stat = final_stat item.stat;
      param = item.param;
    }
      ∷ []
    else []

abbrev pub notices_of : List SendItem → List Notice
notices_of [] = []
notices_of (item ∷ items) = report item ++ notices_of items

stat_lem : (stat : SendStat) → dropped_stat stat ≡ final_stat stat
unfolding dropped_stat
stat_lem stat = ground arith

report_lem : (item : SendItem) → dropped_notice item ≡ report item
unfolding dropped_notice dropped_stat
report_lem item =
    ap (λ (stat : SendStat). notice_of item item.cmd (item.data_ptr + header_size) item.len stat)
      (stat_lem item.stat)

-- None of the items is being sent.
abbrev pub Idle : List SendItem → Type 0
Idle [] = Unit {0}
Idle (item ∷ items) = (is_sending item.stat ≡ false) × Idle items

pub timeout_lem :
    (now : ℕ) (tab : Table ℕ SendItem) → sdk_send_mgr_trav_timeout now tab ≡ all_overdue now tab
unfolding sdk_send_mgr_trav_timeout
timeout_lem now [] = refl
timeout_lem now ((s, item) ∷ tab) = ground (arith, timeout_lem now tab)

pub Idle-overdue : (now : ℕ) (tab : Table ℕ SendItem) → Idle (all_overdue now tab)
Idle-overdue now [] = tt
Idle-overdue now ((s, item) ∷ tab) = ground (arith, Idle-overdue now tab)

-- One item of the list.
pub clean_lem :
    (ctx : SdkCntx) (item : SendItem)
    → is_sending item.stat ≡ false
    → ((sdk_send_item_clean_timeout_hdl ctx item).tab ≡ Table.delete item.seq ctx.tab)
      × ((sdk_send_item_clean_timeout_hdl ctx item).notices ≡ ctx.notices ++ report item)
      × ((sdk_send_item_clean_timeout_hdl ctx item).freed ≡ item.seq ∷ ctx.freed)
      × ((sdk_send_item_clean_timeout_hdl ctx item).seq ≡ ctx.seq)
unfolding sdk_send_item_clean_timeout_hdl drop_item is_sending
clean_lem ctx item idle = ground (arith, report_lem item)

-- Some item of the list has the sequence number.
abbrev holds : ℕ → List SendItem → Bool
holds j [] = false
holds j (item ∷ items) = if item.seq == j then true else holds j items

holds-overdue :
    (now j : ℕ) (tab : Table ℕ SendItem)
    → Distinct tab
    → ((s : ℕ) (item : SendItem) → lookup s tab ≡ some item → item.seq ≡ s)
    → holds j (all_overdue now tab)
      ≡ elim (lookup j tab) [ none ↦ false | some item ↦ overdue now item ]
unfolding lookup
holds-overdue now j [] d named = refl
holds-overdue now j ((s, item) ∷ tab) d named =
    let own : item.seq ≡ s = named s item (ground (arith, nat_beq_iff s s)) in
    let rest =
      holds-overdue now j tab d.1 (λ r x h. named r x (ground (arith, d.0, h, nat_beq_iff s r))) in
    ground (arith, own, rest, d.0, nat_beq_iff item.seq j, nat_beq_iff s j)

clean_loop_lem :
    (items : List SendItem) (ctx : SdkCntx)
    → Idle items
    → ((sdk_send_mgr_clean_loop ctx items).notices ≡ ctx.notices ++ notices_of items)
      × ((j : ℕ)
          → lookup j (sdk_send_mgr_clean_loop ctx items).tab
            ≡ (if holds j items then none else lookup j ctx.tab))
      × (Distinct ctx.tab → Distinct (sdk_send_mgr_clean_loop ctx items).tab)
unfolding sdk_send_mgr_clean_loop
clean_loop_lem [] ctx idle = (sym (append-nil ctx.notices), λ j. refl, λ d. d)
clean_loop_lem (item ∷ items) ctx idle =
    let (tab, notices, _, _) = clean_lem ctx item idle.0 in
    let (notices', tab', apart) =
      clean_loop_lem items (sdk_send_item_clean_timeout_hdl ctx item) idle.1 in
    (
      notices' ∙ rw notices (append_assoc ctx.notices (report item) (notices_of items)),
      λ j. ground (arith, tab' j, ap (lookup j) tab, lookup-delete j item.seq ctx.tab),
      λ d. apart (rw tab (Distinct-delete item.seq ctx.tab d)),
    )

next_lem :
    (tab : Table ℕ SendItem) (tm : ℕ)
    → (sdk_send_mgr_update_next_trav_tm tab tm ≤ tm)
      × ((s : ℕ) (item : SendItem)
          → lookup s tab ≡ some item
          → sdk_send_mgr_update_next_trav_tm tab tm ≤ item.ttl)
unfolding sdk_send_mgr_update_next_trav_tm lookup
next_lem [] tm = (omega arith, λ s item h. cc)
next_lem ((j, x) ∷ tab) tm =
    let (below, each) = next_lem tab (if ltb tm x.ttl then tm else x.ttl) in
    (ground (arith, below), λ s item h. ground (arith, below, each s item))

module _ (ctx : SdkCntx) (now : ℕ) (v : AreItems ctx.tab) where
  -- With items that stand under their own numbers, each once, the traversal drops exactly the items whose time is over and which are not being sent; every other item stays as
  -- it is.
  pub trav-lookup :
      (s : ℕ)
      → lookup s (sdk_send_mgr_trav ctx now).tab ≡ elim (lookup s ctx.tab) [
        | none ↦ none
        | some item ↦ if overdue now item then none else some item
      ]
  unfolding sdk_send_mgr_trav
  trav-lookup s = ground (
    arith,
    timeout_lem now ctx.tab,
    (clean_loop_lem (all_overdue now ctx.tab) ctx (Idle-overdue now ctx.tab)).1 s,
    holds-overdue now s ctx.tab v.distinct v.named,
  )

-- The traversal reports each item that it drops once, in the order of the table, and nothing else.
pub trav-notices :
    (ctx : SdkCntx) (now : ℕ)
    → (sdk_send_mgr_trav ctx now).notices ≡ ctx.notices ++ notices_of (all_overdue now ctx.tab)
unfolding sdk_send_mgr_trav
trav-notices ctx now =
    rw (timeout_lem now ctx.tab)
      (clean_loop_lem (all_overdue now ctx.tab) ctx (Idle-overdue now ctx.tab)).0

-- The next traversal is due in at most 300 seconds.
pub next_trav_tm_soon :
    (ctx : SdkCntx) (now : ℕ) → (sdk_send_mgr_trav ctx now).next_trav_tm ≤ now + sdk_sleep_max_sec
unfolding sdk_send_mgr_trav
next_trav_tm_soon ctx now =
    (next_lem (sdk_send_mgr_clean_loop ctx (sdk_send_mgr_trav_timeout now ctx.tab)).tab
      (now + sdk_sleep_max_sec)).0

-- The next traversal is due no later than the end of the time of any item that is left.
pub next_trav_tm-ttl :
    (ctx : SdkCntx) (now s : ℕ) (item : SendItem)
    → lookup s (sdk_send_mgr_trav ctx now).tab ≡ some item
    → (sdk_send_mgr_trav ctx now).next_trav_tm ≤ item.ttl
unfolding sdk_send_mgr_trav
next_trav_tm-ttl ctx now s item found =
    (next_lem (sdk_send_mgr_clean_loop ctx (sdk_send_mgr_trav_timeout now ctx.tab)).tab
        (now + sdk_sleep_max_sec)).1
      s item found
