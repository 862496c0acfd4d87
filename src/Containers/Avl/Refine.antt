-- ===== src/Containers/Avl/Refine.antt =====
-- The recursive functions of src/clang/lib/core/avl_tree.c against the list of items that the tree stands for.
use Prim.Native.Nat.{Ordering, compare}
use Prim.Native.Nat.Ordering.{lt, eq, gt}
use beehive_im.Common.{
  ℕ, suc, ◌≡◌, ◌≤◌, ◌<◌, ◌∙◌, sym, inl, inr, refl, ap, Option, Option-cases, none, some, arith,
}
use beehive_im.Containers.Avl.{
  Node, nil, node, AvlErr, avl_ok, node_exist, avl_insert_raw, avl_trav, avl_query,
}
use beehive_im.Containers.Avl.Balance.{Ordering-cases}
use beehive_im.Containers.Avl.Dict.{
  Ascends, put, seek, Ascends-split, put_left, put_right, put_here, seek_left, seek_right,
  seek_here,
}
use beehive_im.Containers.Avl.Contents.{
  Gives, Gives-some, Same, insert_right-trav, insert_left-trav,
}

pub Gives-weaken :
    {X : Type 0} (P Q : X → Type 0) (o : Option X) → Gives P o → ((x : X) → P x → Q x) → Gives Q o
Gives-weaken P Q none g h = tt
Gives-weaken P Q (some x) g h = h x g

-- The comparison is that of the keys, for keys below `bound`.
abbrev pub Orders : {A : Type 0} → (A → A → Ordering) → (A → ℕ) → ℕ → Type 0
Orders {A} cmp key bound =
    (a b : A) → key a < bound → key b < bound → cmp a b ≡ compare (key a) (key b)

-- What an insertion answers, by what was there
abbrev pub insert_err : {A : Type 0} → Option A → AvlErr
insert_err none = avl_ok
insert_err (some x) = node_exist

module _ {A : Type 0} (cmp : A → A → Ordering) (key : A → ℕ) (bound : ℕ)
    (law : Orders cmp key bound) where
  -- How the search goes on at a node.
  pub below_key : (a b : A) → key a < bound → key b < bound → cmp a b ≡ lt → key a < key b
  below_key a b p q e = ground (arith, law a b p q, e)

  pub above_key : (a b : A) → key a < bound → key b < bound → cmp a b ≡ gt → key b < key a
  above_key a b p q e = ground (arith, law a b p q, e)

  pub same_key : (a b : A) → key a < bound → key b < bound → cmp a b ≡ eq → key a ≡ key b
  same_key a b p q e = ground (arith, law a b p q, e)

  pub query-seek :
      (item : A) (t : Node A) (lo hi : ℕ)
      → key item < bound
      → hi ≤ bound
      → Ascends key lo hi (avl_trav t)
      → avl_query cmp t item ≡ seek key (key item) (avl_trav t)
  unfolding avl_query avl_trav
  query-seek item nil lo hi small room a = refl
  query-seek item (node bf l x r) lo hi small room a =
      let (al, from, to, ar) = Ascends-split key lo hi (avl_trav l) (avl_trav r) x a in
      let fits : key x < bound = omega (arith, to, room) in
      elim (Ordering-cases (cmp item x)) [
        | inl e ↦
            let k = below_key item x small fits e in
            rw (avl_query, e)
              (query-seek item l lo (key x) small (omega (arith, fits)) al
                ∙ sym (seek_left key (key item) hi x (avl_trav l) (avl_trav r) ar k))
        | inr (inl e) ↦
            rw (avl_query, e, same_key item x small fits e)
              (sym (seek_here key lo x (avl_trav l) (avl_trav r) al))
        | inr (inr e) ↦
            let k = above_key item x small fits e in
            rw (avl_query, e)
              (query-seek item r (suc (key x)) hi small room ar
                ∙ sym (seek_right key (key item) lo x (avl_trav l) (avl_trav r) al k))
      ]

  pub insert_raw-put :
      (item : A) (t : Node A) (lo hi : ℕ)
      → key item < bound
      → hi ≤ bound
      → Ascends key lo hi (avl_trav t)
      → Gives
          (Same (insert_err (seek key (key item) (avl_trav t))) (put key item (avl_trav t)))
          (avl_insert_raw cmp item t)
  unfolding avl_insert_raw avl_trav
  insert_raw-put item nil lo hi small room a = (refl, refl)
  insert_raw-put item (node bf l x r) lo hi small room a =
      let (al, from, to, ar) = Ascends-split key lo hi (avl_trav l) (avl_trav r) x a in
      let fits : key x < bound = omega (arith, to, room) in
      elim (Ordering-cases (cmp item x)) [
        | inl e ↦
            let k = below_key item x small fits e in
            let found = seek_left key (key item) hi x (avl_trav l) (avl_trav r) ar k in
            let placed = put_left key item x (avl_trav l) (avl_trav r) k in
            let ih = insert_raw-put item l lo (key x) small (omega (arith, fits)) al in
            elim (Option-cases (avl_insert_raw cmp item l)) [
              | inl f ↦ rw (avl_insert_raw, e, f) tt
              | inr (o, f) ↦
                  let g =
                    Gives-some
                      (Same (insert_err (seek key (key item) (avl_trav l)))
                        (put key item (avl_trav l)))
                      (avl_insert_raw cmp item l) o ih f in
                  rw (avl_insert_raw, e, f, found, placed, sym g.0, sym g.1)
                    (insert_left-trav bf x r o)
            ]
        | inr (inl e) ↦
            let k = same_key item x small fits e in
            rw (avl_insert_raw, e, k)
              (
                ap insert_err (sym (seek_here key lo x (avl_trav l) (avl_trav r) al)),
                sym (put_here key lo item x (avl_trav l) (avl_trav r) al k),
              )
        | inr (inr e) ↦
            let k = above_key item x small fits e in
            let found = seek_right key (key item) lo x (avl_trav l) (avl_trav r) al k in
            let placed = put_right key lo item x (avl_trav l) (avl_trav r) al k in
            let ih = insert_raw-put item r (suc (key x)) hi small room ar in
            elim (Option-cases (avl_insert_raw cmp item r)) [
              | inl f ↦ rw (avl_insert_raw, e, f) tt
              | inr (o, f) ↦
                  let g =
                    Gives-some
                      (Same (insert_err (seek key (key item) (avl_trav r)))
                        (put key item (avl_trav r)))
                      (avl_insert_raw cmp item r) o ih f in
                  rw (avl_insert_raw, e, f, found, placed, sym g.0, sym g.1)
                    (insert_right-trav bf l x o)
            ]
      ]
