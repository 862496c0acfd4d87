-- ===== src/Containers/Avl/Remove.antt =====
-- Taking an item out, against the list of items that the tree stands for: src/clang/lib/core/avl_tree.c.
use Prim.Native.Nat.{Ordering}
use beehive_im.Common.{
  ℕ, suc, ◌≡◌, ◌≤◌, ◌<◌, ◌∙◌, sym, inl, inr, refl, ap, Bool, Option-cases, some, List, [], ◌∷◌,
  ◌++◌, append-nil, append_assoc, arith,
}
use beehive_im.Containers.Avl.{
  Bf, Node, nil, node, avl_delete_left_balance, avl_delete_right_balance, settle,
  avl_replace_and_delete, avl_delete_found, avl_delete_raw, avl_trav,
}
use beehive_im.Containers.Avl.Balance.{Ordering-cases}
use beehive_im.Containers.Avl.Dict.{
  Ascends, seek, without, Ascends-split, seek_left, seek_right, seek_here, without_left,
  without_right, without_here,
}
use beehive_im.Containers.Avl.Contents.{
  Gives, Gives-some, Same, settle_left-trav, settle_right-trav,
}
use beehive_im.Containers.Avl.Refine.{Gives-weaken, Orders, below_key, above_key, same_key}

module _ {A : Type 0} where
  replace-trav :
      (t : Node A)
      → Gives
          (λ (o : A × Bool × Node A). avl_trav o.2 ++ (o.0 ∷ []) ≡ avl_trav t)
          (avl_replace_and_delete t)
  unfolding avl_replace_and_delete avl_trav
  replace-trav nil = tt
  replace-trav (node bf l x nil) = refl
  replace-trav (node bf l x (node cbf cl c cr)) =
      elim (Option-cases (avl_replace_and_delete (node cbf cl c cr))) [
        | inl e ↦ rw (avl_replace_and_delete, e) tt
        | inr ((d, lower, r), e) ↦
            let same =
              Gives-some
                (λ (o : A × Bool × Node A).
                  avl_trav o.2 ++ (o.0 ∷ []) ≡ avl_trav (node cbf cl c cr))
                (avl_replace_and_delete (node cbf cl c cr)) (d, lower, r)
                (replace-trav (node cbf cl c cr)) e in
            rw (avl_replace_and_delete, e)
              (Gives-weaken (Same d (avl_trav (node bf l x r)))
                (λ (o : A × Bool × Node A).
                  avl_trav o.2 ++ (o.0 ∷ []) ≡ avl_trav (node bf l x (node cbf cl c cr)))
                (settle avl_delete_right_balance d lower (node bf l x r))
                (settle_right-trav d lower (node bf l x r))
                (λ o g.
                  rw (g.0, g.1)
                    (append_assoc (avl_trav l) (x ∷ avl_trav r) (d ∷ [])
                      ∙ ap (λ (xs : List A). avl_trav l ++ (x ∷ xs)) same)))
      ]

  pub delete_found-trav :
      (bf : Bf) (l r : Node A) (x : A)
      → Gives (Same (some x) (avl_trav l ++ avl_trav r)) (avl_delete_found bf l x r)
  unfolding avl_delete_found avl_trav
  delete_found-trav bf l nil x = (refl, sym (append-nil (avl_trav l)))
  delete_found-trav bf nil (node cbf cl c cr) x = (refl, refl)
  delete_found-trav bf (node dbf dl d dr) (node cbf cl c cr) x =
      let l = node dbf dl d dr in
      let r = node cbf cl c cr in
      elim (Option-cases (avl_replace_and_delete (node dbf dl d dr))) [
        | inl e ↦ rw (avl_delete_found, e) tt
        | inr ((y, lower, l'), e) ↦
            let same =
              Gives-some (λ (o : A × Bool × Node A). avl_trav o.2 ++ (o.0 ∷ []) ≡ avl_trav l)
                (avl_replace_and_delete l) (y, lower, l') (replace-trav l) e in
            rw (avl_delete_found, e)
              (Gives-weaken (Same (some x) (avl_trav (node bf l' y r)))
                (Same (some x) (avl_trav l ++ avl_trav r))
                (settle avl_delete_left_balance (some x) lower (node bf l' y r))
                (settle_left-trav (some x) lower (node bf l' y r))
                (λ o g. (
                  g.0,
                  g.1
                      ∙ sym (append_assoc (avl_trav l') (y ∷ []) (avl_trav r))
                      ∙ ap (λ (xs : List A). xs ++ avl_trav r) same,
                )))
      ]

module _ {A : Type 0} (cmp : A → A → Ordering) (key : A → ℕ) (bound : ℕ)
    (law : Orders cmp key bound) where
  pub delete_raw-without :
      (item : A) (t : Node A) (lo hi : ℕ)
      → key item < bound
      → hi ≤ bound
      → Ascends key lo hi (avl_trav t)
      → Gives
          (Same (seek key (key item) (avl_trav t)) (without key (key item) (avl_trav t)))
          (avl_delete_raw cmp item t)
  unfolding avl_delete_raw avl_trav
  delete_raw-without item nil lo hi small room a = (refl, refl)
  delete_raw-without item (node bf l x r) lo hi small room a =
      let (al, from, to, ar) = Ascends-split key lo hi (avl_trav l) (avl_trav r) x a in
      let fits : key x < bound = omega (arith, to, room) in
      elim (Ordering-cases (cmp item x)) [
        | inl e ↦
            let k = below_key cmp key bound law item x small fits e in
            let found = seek_left key (key item) hi x (avl_trav l) (avl_trav r) ar k in
            let gone = without_left key (key item) x (avl_trav l) (avl_trav r) k hi ar in
            let ih = delete_raw-without item l lo (key x) small (omega (arith, fits)) al in
            elim (Option-cases (avl_delete_raw cmp item l)) [
              | inl f ↦ rw (avl_delete_raw, e, f) tt
              | inr ((d, lower, t), f) ↦
                  let g =
                    Gives-some
                      (Same (seek key (key item) (avl_trav l))
                        (without key (key item) (avl_trav l)))
                      (avl_delete_raw cmp item l) (d, lower, t) ih f in
                  rw (avl_delete_raw, e, f, found, gone, sym g.0, sym g.1)
                    (settle_left-trav d lower (node bf t x r))
            ]
        | inr (inl e) ↦
            let k = same_key cmp key bound law item x small fits e in
            rw
              (
                avl_delete_raw,
                e,
                k,
                seek_here key lo x (avl_trav l) (avl_trav r) al,
                without_here key lo x (avl_trav l) (avl_trav r) al,
              )
              (delete_found-trav bf l r x)
        | inr (inr e) ↦
            let k = above_key cmp key bound law item x small fits e in
            let found = seek_right key (key item) lo x (avl_trav l) (avl_trav r) al k in
            let gone = without_right key (key item) lo x (avl_trav l) (avl_trav r) al k in
            let ih = delete_raw-without item r (suc (key x)) hi small room ar in
            elim (Option-cases (avl_delete_raw cmp item r)) [
              | inl f ↦ rw (avl_delete_raw, e, f) tt
              | inr ((d, lower, t), f) ↦
                  let g =
                    Gives-some
                      (Same (seek key (key item) (avl_trav r))
                        (without key (key item) (avl_trav r)))
                      (avl_delete_raw cmp item r) (d, lower, t) ih f in
                  rw (avl_delete_raw, e, f, found, gone, sym g.0, sym g.1)
                    (settle_right-trav d lower (node bf l x t))
            ]
      ]
