-- ===== src/Rtmq/NodeMap/Valid.antt =====
-- The node map against how often each service is linked to each node: src/clang/lib/rtmq/server/rtmq_comm.c.
use native.Mathlib.Nat.{mod-lt}
use beehive_im.Common.{
  ℕ, ◌+◌, ◌-◌, ◌%◌, ◌≡◌, ◌≢◌, ◌≤◌, ◌<◌, ◌⊎◌, ◌&&◌, Option-cases, none, some, if◌then◌else◌, ◌==◌,
  nat_key, nat_beq_iff, arith, refl, inl, inr, get_or, length, length-set, Bool-cases, ◌∙◌,
}
use beehive_im.Table
use beehive_im.Table.{Table, lookup, update, Distinct}
use beehive_im.Table.Laws.{lookup-update, lookup-delete, Distinct-update, Distinct-delete}
use beehive_im.Rtmq.NodeMap.{
  NodeMap, max_len, map_drop, rtmq_node_to_svr_map_del, rtmq_node_to_svr_map_rand,
}
use beehive_im.Rtmq.NodeMap.Counts.{
  count, hit, count-drop_used, count-get, count-none, map_index-cases,
}

-- A map has its array, and some of it in use.
pub record IsMap (nid : ℕ) (map : NodeMap) : Type 0 where
  pub own : map.nid ≡ nid
  pub used : 0 < map.num
  pub fits : map.num ≤ max_len
  pub sized : length map.rsvr_id ≡ max_len

pub record AreMaps (maps : Table ℕ NodeMap) : Type 0 where
  pub distinct : Distinct maps
  pub each : (nid : ℕ) (map : NodeMap) → lookup nid maps ≡ some map → IsMap nid map

-- How often the service `x` is linked to the node.
unfoldable pub links : Table ℕ NodeMap → ℕ → ℕ → ℕ
links maps nid x = elim (lookup nid maps) [ none ↦ 0 | some map ↦ count x map.num map.rsvr_id ]

update-AreMaps :
    (maps : Table ℕ NodeMap) (nid : ℕ) (map : NodeMap)
    → AreMaps maps
    → IsMap nid map
    → AreMaps (update nid map maps)
update-AreMaps maps nid map v w = record {
  distinct = Distinct-update nid map maps v.distinct;
  each = λ n m found. ground (arith, lookup-update n nid map maps, v.each n m, nat_beq_iff nid n);
}

delete-AreMaps : (maps : Table ℕ NodeMap) (nid : ℕ) → AreMaps maps → AreMaps (Table.delete nid maps)
delete-AreMaps maps nid v = record {
  distinct = Distinct-delete nid maps v.distinct;
  each = λ n m found. ground (arith, lookup-delete n nid maps, v.each n m);
}

-- Over well-formed maps, choosing at random gives a service that is linked to the node, whatever number is drawn; for a node that is not
-- known it gives none.
pub rand-links :
    (maps : Table ℕ NodeMap) (random nid : ℕ)
    → AreMaps maps
    → ((rtmq_node_to_svr_map_rand maps random nid ≡ none) × (lookup nid maps ≡ none))
      ⊎ ((x : ℕ) × (rtmq_node_to_svr_map_rand maps random nid ≡ some x) × (0 < links maps nid x))
unfolding rtmq_node_to_svr_map_rand links
rand-links maps random nid v = elim (Option-cases (lookup nid maps)) [
  | inl e ↦ inl (rw (e, rtmq_node_to_svr_map_rand) refl, e)
  | inr (map, e) ↦
      let w = v.each nid map e in
      let below : random % map.num < map.num = mod-lt random w.used in
      inr (
        get_or map.rsvr_id (random % map.num) 0,
        rw (e, rtmq_node_to_svr_map_rand) refl,
        rw (e, links)
            (count-get map.num (random % map.num) map.rsvr_id (omega (arith, w.fits, w.sized))
              below),
      )
]

module _ (maps : Table ℕ NodeMap) (nid : ℕ) (map : NodeMap) (v : AreMaps maps)
    (e : lookup nid maps ≡ some map) (k : ℕ) (below : k < map.num) where
  moved :
      (x : ℕ)
      → count x (map.num - 1) (map_drop map k).rsvr_id + hit (get_or map.rsvr_id k 0) x
        ≡ count x map.num map.rsvr_id
  unfolding map_drop
  moved x =
      let w = v.each nid map e in
      count-drop_used x map.num k map.rsvr_id (omega (arith, w.fits, w.sized)) below

  links-delete :
      map.num - 1 ≡ 0
      → (n x : ℕ)
      → links (Table.delete nid maps) n x
        ≡ links maps n x - (if nid == n && get_or map.rsvr_id k 0 == x then 1 else 0)
  unfolding links
  links-delete last n x =
      let only : count x (map.num - 1) (map_drop map k).rsvr_id ≡ 0 = rw last refl in
      ground (arith, e, only, moved x, lookup-delete n nid maps, nat_beq_iff nid n)

  drop_num : (map_drop map k).num ≡ map.num - 1
  unfolding map_drop
  drop_num = refl

  links-drop :
      (n x : ℕ)
      → links (update nid (map_drop map k) maps) n x
        ≡ links maps n x - (if nid == n && get_or map.rsvr_id k 0 == x then 1 else 0)
  unfolding links
  links-drop n x =
      ground
        (arith, e, moved x, drop_num, lookup-update n nid (map_drop map k) maps, nat_beq_iff nid n)

  map_drop-IsMap : map.num - 1 ≢ 0 → IsMap nid (map_drop map k)
  unfolding map_drop
  map_drop-IsMap more =
      let w = v.each nid map e in
      record {
        own = w.own;
        used = omega (arith, more);
        fits = omega (arith, w.fits);
        sized = length-set map.rsvr_id k (get_or map.rsvr_id (map.num - 1) 0) ∙ w.sized;
      }

-- Over well-formed maps, unlinking a service from a node takes one link away if there is one, changes no other link, and drops a map that
-- gets empty.
pub del-links :
    (maps : Table ℕ NodeMap) (nid rsvr_id : ℕ)
    → AreMaps maps
    → AreMaps (rtmq_node_to_svr_map_del maps nid rsvr_id).1
      × ((n x : ℕ)
          → links (rtmq_node_to_svr_map_del maps nid rsvr_id).1 n x
            ≡ links maps n x - (if nid == n && rsvr_id == x then 1 else 0))
unfolding rtmq_node_to_svr_map_del
del-links maps nid rsvr_id v = elim (Option-cases (lookup nid maps)) [
  | inl e ↦
      rw (e, rtmq_node_to_svr_map_del)
        (v, λ n x. unfold links in ground (arith, e, nat_beq_iff nid n))
  | inr (map, e) ↦
      let w = v.each nid map e in
      elim (map_index-cases map.rsvr_id rsvr_id 0 map.num) [
        | inl (run, away) ↦
            let absent =
              count-none rsvr_id map.num map.rsvr_id (omega (arith, w.fits, w.sized))
                (λ j below. away j (omega arith) (omega (arith, below))) in
            rw (e, rtmq_node_to_svr_map_del, run)
              (
                v,
                λ n x.
                    unfold links in
                    ground (arith, e, absent, nat_beq_iff nid n, nat_beq_iff rsvr_id x),
              )
        | inr (k, run, low, high, found) ↦
            let below : k < map.num = omega (arith, high) in
            elim (Bool-cases ((map.num - 1) == 0)) [
              | inl last ↦
                  rw (e, rtmq_node_to_svr_map_del, run, last, ← found)
                    (
                      delete-AreMaps maps nid v,
                      links-delete maps nid map v e k below ((nat_beq_iff _ _).0 last),
                    )
              | inr more ↦
                  rw (e, rtmq_node_to_svr_map_del, run, more, ← found)
                    (
                      update-AreMaps maps nid (map_drop map k) v (
                          map_drop-IsMap maps nid map v e k below
                            (ground (arith, more, nat_beq_iff (map.num - 1) 0))),
                      links-drop maps nid map v e k below,
                    )
            ]
      ]
]
