-- ===== src/Sdk/Expire.antt =====
-- `sdk_send_mgr_trav` of src/clang/lib/sdk/sdk_comm.c keeps the table sound.
use beehive_im.Common.{ℕ, ◌≡◌, ◌≤◌, some, List, [], ◌∷◌, nat_key, nat_beq_iff, arith, refl}
use beehive_im.Table
use beehive_im.Table.{Table, lookup, update, insert, Distinct}
use beehive_im.Table.Laws.{lookup-delete, Distinct-delete}
use beehive_im.Sdk.{
  SendItem, SdkCntx, sdk_send_item_clean_timeout_hdl, sdk_send_mgr_clean_loop, sdk_send_mgr_trav,
}
use beehive_im.Sdk.Traverse.{Idle, Idle-overdue, all_overdue, clean_lem, timeout_lem}
use beehive_im.Sdk.Life.{IsSdk}

same-IsSdk :
    (ctx ctx' : SdkCntx)
    → IsSdk ctx
    → ctx'.tab ≡ ctx.tab
    → ctx'.seq ≡ ctx.seq
    → ctx'.freed ≡ ctx.freed
    → IsSdk ctx'
same-IsSdk ctx ctx' v t s f = record {
  items = rw t v.items;
  drawn = rw (t, s) v.drawn;
  drawn_before = rw (f, s) v.drawn_before;
  alive = rw (t, f) v.alive;
}

-- All numbers of the items have been drawn.
abbrev Drawn : ℕ → List SendItem → Type 0
Drawn n [] = Unit {0}
Drawn n (item ∷ items) = (item.seq ≤ n) × Drawn n items

Drawn-overdue :
    (now n : ℕ) (tab : Table ℕ SendItem)
    → Distinct tab
    → ((s : ℕ) (item : SendItem) → lookup s tab ≡ some item → (item.seq ≡ s) × (s ≤ n))
    → Drawn n (all_overdue now tab)
unfolding lookup
Drawn-overdue now n [] d each = tt
Drawn-overdue now n ((s, item) ∷ tab) d each =
    let own = each s item (ground (arith, nat_beq_iff s s)) in
    let rest =
      Drawn-overdue now n tab d.1 (λ r x h. each r x (ground (arith, d.0, h, nat_beq_iff s r))) in
    ground (arith, own, rest)

dropped-IsSdk :
    (ctx : SdkCntx) (item : SendItem)
    → IsSdk ctx
    → item.seq ≤ ctx.seq
    → IsSdk (record ctx { tab = Table.delete item.seq ctx.tab; freed = item.seq ∷ ctx.freed })
dropped-IsSdk ctx item v old = record {
  items = record {
    distinct = Distinct-delete item.seq ctx.tab v.items.distinct;
    named = λ r x h. ground (arith, h, v.items.named r x, lookup-delete r item.seq ctx.tab);
  };
  drawn = λ r x h. ground (arith, h, v.drawn r x, lookup-delete r item.seq ctx.tab);
  drawn_before = λ r o. ground (arith, o, old, v.drawn_before r);
  alive = λ r x h.
      ground (arith, h, v.alive r x, lookup-delete r item.seq ctx.tab, nat_beq_iff item.seq r);
}

clean_loop-IsSdk :
    (items : List SendItem) (ctx : SdkCntx)
    → IsSdk ctx
    → Idle items
    → Drawn ctx.seq items
    → IsSdk (sdk_send_mgr_clean_loop ctx items)
unfolding sdk_send_mgr_clean_loop
clean_loop-IsSdk [] ctx v idle old = v
clean_loop-IsSdk (item ∷ items) ctx v idle old =
    let (tab, _, freed, seq) = clean_lem ctx item idle.0 in
    let w =
      same-IsSdk _ (sdk_send_item_clean_timeout_hdl ctx item) (dropped-IsSdk ctx item v old.0) tab
        seq freed in
    clean_loop-IsSdk items (sdk_send_item_clean_timeout_hdl ctx item) w idle.1 (rw seq old.1)

-- The traversal keeps a sound table of items sound: no item that is left was freed.
pub sdk_send_mgr_trav-IsSdk :
    (ctx : SdkCntx) (now : ℕ) → IsSdk ctx → IsSdk (sdk_send_mgr_trav ctx now)
unfolding sdk_send_mgr_trav
sdk_send_mgr_trav-IsSdk ctx now v =
    let w = clean_loop-IsSdk (all_overdue now ctx.tab) ctx v (Idle-overdue now ctx.tab) (
      Drawn-overdue now ctx.seq ctx.tab v.items.distinct
        (λ s item h. (v.items.named s item h, v.drawn s item h))) in
    same-IsSdk (sdk_send_mgr_clean_loop ctx (all_overdue now ctx.tab)) (sdk_send_mgr_trav ctx now) w
      (rw (sdk_send_mgr_trav, timeout_lem now ctx.tab) refl)
      (rw (sdk_send_mgr_trav, timeout_lem now ctx.tab) refl)
      (rw (sdk_send_mgr_trav, timeout_lem now ctx.tab) refl)
