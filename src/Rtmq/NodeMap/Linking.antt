-- ===== src/Rtmq/NodeMap/Linking.antt =====
-- `rtmq_node_to_svr_map_add` of src/clang/lib/rtmq/server/rtmq_comm.c.

use beehive_im.Common.{
  ℕ, suc, ◌+◌, ◌≡◌, ◌≢◌, ◌<◌, ◌⊎◌, ◌&&◌, Option-cases, none, some, ◌∷◌, if◌then◌else◌, ◌==◌,
  nat_key, nat_beq_iff, arith, refl, inl, inr, set, length, length-set, Bool-cases, leb, ◌∙◌, false,
}
use beehive_im.Table.{Table, lookup, update, Distinct}
use beehive_im.Table.Laws.{lookup-update, Distinct-update, insert-none}
use beehive_im.Chat.{ok, fail}
use beehive_im.Rtmq.NodeMap.{NodeMap, max_len, new_map, map_append, rtmq_node_to_svr_map_add}
use beehive_im.Rtmq.NodeMap.Counts.{count, hit, count-append}
use beehive_im.Rtmq.NodeMap.Valid.{IsMap, AreMaps, links}

-- A map with one more service.
abbrev longer : NodeMap → ℕ → NodeMap
longer map rsvr_id = record map { num = map.num + 1; rsvr_id = set map.rsvr_id map.num rsvr_id }

module _ (maps : Table ℕ NodeMap) (nid rsvr_id : ℕ) (map : NodeMap)
    (found : lookup nid maps ≡ some map) (own : map.nid ≡ nid) (room : map.num < max_len)
    (sized : length map.rsvr_id ≡ max_len) where
  longer-links :
      (n x : ℕ)
      → links (update nid (longer map rsvr_id) maps) n x
        ≡ links maps n x + (if nid == n && rsvr_id == x then 1 else 0)
  unfolding links
  longer-links n x =
      let one : map.num + 1 ≡ suc map.num = omega arith in
      let more : count x (map.num + 1) (set map.rsvr_id map.num rsvr_id)
          ≡ count x map.num map.rsvr_id + hit rsvr_id x =
        rw one (count-append x map.num rsvr_id map.rsvr_id (omega (arith, room, sized))) in
      ground (arith, found, more, lookup-update n nid (longer map rsvr_id) maps, nat_beq_iff nid n)

  longer-AreMaps :
      Distinct maps
      → ((n : ℕ) (m : NodeMap) → nid ≢ n → lookup n maps ≡ some m → IsMap n m)
      → AreMaps (update nid (longer map rsvr_id) maps)
  longer-AreMaps apart others =
      let w : IsMap nid (longer map rsvr_id) = record {
        own = own;
        used = omega arith;
        fits = omega (arith, room);
        sized = length-set map.rsvr_id map.num rsvr_id ∙ sized;
      } in
      record {
        distinct = Distinct-update nid (longer map rsvr_id) maps apart;
        each = λ n m h. ground (
          arith,
          h,
          w,
          lookup-update n nid (longer map rsvr_id) maps,
          others n m,
          nat_beq_iff nid n,
        );
      }

  append_lem : map_append maps map rsvr_id ≡ (ok, update nid (longer map rsvr_id) maps)
  unfolding map_append
  append_lem =
      let free : leb max_len map.num ≡ false = ground (arith, room) in
      rw (map_append, free, own) refl

new-links :
    (maps : Table ℕ NodeMap) (nid rsvr_id : ℕ)
    → lookup nid maps ≡ none
    → (n x : ℕ)
    → links ((nid, new_map nid) ∷ maps) n x + (if nid == n && rsvr_id == x then 1 else 0)
      ≡ links maps n x + (if nid == n && rsvr_id == x then 1 else 0)
unfolding links lookup
new-links maps nid rsvr_id e n x = ground (arith, e, nat_beq_iff nid n)

-- Over well-formed maps, linking a service to a node either succeeds and adds this one link, or changes nothing,
-- and then the node has 32 links.
pub add-links :
    (maps : Table ℕ NodeMap) (nid rsvr_id : ℕ)
    → AreMaps maps
    → ((rtmq_node_to_svr_map_add maps nid rsvr_id ≡ (fail, maps))
        × ((map : NodeMap) × (lookup nid maps ≡ some map) × (map.num ≡ max_len)))
      ⊎ ((maps' : Table ℕ NodeMap) × (rtmq_node_to_svr_map_add maps nid rsvr_id ≡ (ok, maps'))
          × AreMaps maps'
          × ((n x : ℕ)
              → links maps' n x ≡ links maps n x + (if nid == n && rsvr_id == x then 1 else 0)))
unfolding rtmq_node_to_svr_map_add
add-links maps nid rsvr_id v = elim (Option-cases (lookup nid maps)) [
  | inl e ↦
      let maps' : Table ℕ NodeMap = (nid, new_map nid) ∷ maps in
      let here : lookup nid maps' ≡ some (new_map nid) =
        unfold lookup in ground (arith, nat_beq_iff nid nid) in
      let others : (n : ℕ) (m : NodeMap) → nid ≢ n → lookup n maps' ≡ some m → IsMap n m =
        λ n m other h. v.each n m (unfold lookup in ground (arith, h, other, nat_beq_iff nid n)) in
      inr (
        update nid (longer (new_map nid) rsvr_id) maps',
        rw (rtmq_node_to_svr_map_add, e, insert-none nid (new_map nid) maps e)
            (append_lem maps' nid rsvr_id (new_map nid) here refl (omega arith) refl),
        longer-AreMaps maps' nid rsvr_id (new_map nid) here refl (omega arith) refl (e, v.distinct)
            others,
        λ n x.
            longer-links maps' nid rsvr_id (new_map nid) here refl (omega arith) refl n x
            ∙ new-links maps nid rsvr_id e n x,
      )
  | inr (map, e) ↦
      let w = v.each nid map e in
      elim (Bool-cases (leb max_len map.num)) [
        | inl full ↦ inl (
          rw (rtmq_node_to_svr_map_add, e) (unfold map_append in rw (map_append, full) refl),
          (map, e, ground (arith, full, w.fits)),
        )
        | inr open_ ↦
            let room : map.num < max_len = ground (arith, open_) in
            inr (
              update nid (longer map rsvr_id) maps,
              rw (rtmq_node_to_svr_map_add, e)
                  (append_lem maps nid rsvr_id map e w.own room w.sized),
              longer-AreMaps maps nid rsvr_id map e w.own room w.sized v.distinct
                  (λ n m other h. v.each n m h),
              longer-links maps nid rsvr_id map e w.own room w.sized,
            )
      ]
]
