-- ===== src/Rtmq/Subs/Place.antt =====
-- Where a search ends in a tree of src/clang/lib/core/avl_tree.c, whatever its comparison says: what stands before that
-- place and after it.
use Prim.Native.Nat.{Ordering}
use Prim.Native.Nat.Ordering.{lt, eq, gt}
use mathlib.Core.Path.{subst}
use beehive_im.Common.{
  ◌≡◌, refl, sym, ap, ◌∙◌, Option-cases, none, some, List, [], ◌∷◌, ◌++◌, append_assoc, arith, inl,
  inr,
}
use beehive_im.Containers.Avl.{
  Node, nil, node, avl_insert_raw, avl_insert_left, avl_insert_right, avl_query, avl_delete_raw,
  avl_delete_found, avl_delete_left_balance, avl_delete_right_balance, settle, avl_trav,
}
use beehive_im.Containers.Avl.Balance.{Ordering-cases, Balanced, height}
use beehive_im.Containers.Avl.Contents.{
  Gives, Gives-some, Same, settle_left-trav, settle_right-trav, insert_right-trav, insert_left-trav,
}
use beehive_im.Containers.Avl.Remove.{delete_found-trav}
use beehive_im.Containers.Avl.Refine.{Gives-weaken}
use beehive_im.Rtmq.Subs.{write_item}

module _ {A : Type 0} (cmp : A → A → Ordering) (key : A) where
  pub before : Node A → List A
  before nil = []
  before (node bf l x r) = elim (cmp key x) [
    | eq ↦ avl_trav l
    | lt ↦ before l
    | gt ↦ avl_trav l ++ (x ∷ before r)
  ]

  pub after : Node A → List A
  after nil = []
  after (node bf l x r) = elim (cmp key x) [
    | eq ↦ avl_trav r
    | lt ↦ after l ++ (x ∷ avl_trav r)
    | gt ↦ after r
  ]

  pub trav-query :
      (t : Node A) (y : A)
      → avl_query cmp t key ≡ some y
      → (avl_trav t ≡ before t ++ (y ∷ after t)) × (cmp key y ≡ eq)
  unfolding avl_query avl_trav before after
  trav-query nil y q = absurd (ground (arith, q))
  trav-query (node bf l x r) y q = elim (Ordering-cases (cmp key x)) [
    | inl below ↦
        let (e, s) = trav-query l y (ground (arith, q, below)) in
        (rw (before, after, below, e) (append_assoc (before l) (y ∷ after l) (x ∷ avl_trav r)), s)
    | inr (inl same) ↦
        let here : x ≡ y = ground (arith, q, same) in
        (rw (before, after, same, here) refl, rw (← here) same)
    | inr (inr above) ↦
        let (e, s) = trav-query r y (ground (arith, q, above)) in
        (
          rw (before, after, above, e)
              (sym (append_assoc (avl_trav l) (x ∷ before r) (y ∷ after r))),
          s,
        )
  ]

  pub trav-write_item :
      (t : Node A) (y z : A)
      → avl_query cmp t key ≡ some y
      → avl_trav (write_item cmp key z t) ≡ before t ++ (z ∷ after t)
  unfolding avl_query avl_trav before after write_item
  trav-write_item nil y z q = absurd (ground (arith, q))
  trav-write_item (node bf l x r) y z q = elim (Ordering-cases (cmp key x)) [
    | inl below ↦
        rw (write_item, before, after, below, trav-write_item l y z (ground (arith, q, below)))
          (append_assoc (before l) (z ∷ after l) (x ∷ avl_trav r))
    | inr (inl same) ↦ rw (write_item, before, after, same) refl
    | inr (inr above) ↦
        rw (write_item, before, after, above, trav-write_item r y z (ground (arith, q, above)))
          (sym (append_assoc (avl_trav l) (x ∷ before r) (z ∷ after r)))
  ]

  pub query-write_item :
      (t : Node A) (y z : A)
      → avl_query cmp t key ≡ some y
      → cmp key z ≡ eq
      → avl_query cmp (write_item cmp key z t) key ≡ some z
  unfolding avl_query write_item
  query-write_item nil y z q s = absurd (ground (arith, q))
  query-write_item (node bf l x r) y z q s = elim (Ordering-cases (cmp key x)) [
    | inl below ↦
        rw (write_item, below, avl_query, below)
          (query-write_item l y z (ground (arith, q, below)) s)
    | inr (inl same) ↦ rw (write_item, same, avl_query, s) refl
    | inr (inr above) ↦
        rw (write_item, above, avl_query, above)
          (query-write_item r y z (ground (arith, q, above)) s)
  ]

  pub sides-write_item :
      (t : Node A) (y z : A)
      → avl_query cmp t key ≡ some y
      → cmp key z ≡ eq
      → (before (write_item cmp key z t) ≡ before t) × (after (write_item cmp key z t) ≡ after t)
  unfolding avl_query write_item before after
  sides-write_item nil y z q s = absurd (ground (arith, q))
  sides-write_item (node bf l x r) y z q s = elim (Ordering-cases (cmp key x)) [
    | inl below ↦
        let (e, f) = sides-write_item l y z (ground (arith, q, below)) s in
        rw (write_item, below, before, after, below) (e, ap (λ zs. zs ++ (x ∷ avl_trav r)) f)
    | inr (inl same) ↦ rw (write_item, same, before, after, s) (refl, refl)
    | inr (inr above) ↦
        let (e, f) = sides-write_item r y z (ground (arith, q, above)) s in
        rw (write_item, above, before, after, above) (ap (λ zs. avl_trav l ++ (x ∷ zs)) e, f)
  ]

  -- A write leaves the shape as it is.
  pub write_item-Balanced :
      (t : Node A) (z : A)
      → Balanced t
      → Balanced (write_item cmp key z t) × (height (write_item cmp key z t) ≡ height t)
  unfolding write_item
  write_item-Balanced nil z b = (tt, refl)
  write_item-Balanced (node bf l x r) z b = elim (Ordering-cases (cmp key x)) [
    | inl below ↦
        let (c, h) = write_item-Balanced l z b.0 in
        rw (write_item, below) ((c, b.1, rw h b.2), rw h refl)
    | inr (inl same) ↦ rw (write_item, same) (b, refl)
    | inr (inr above) ↦
        let (c, h) = write_item-Balanced r z b.1 in
        rw (write_item, above) ((b.0, c, rw h b.2), rw h refl)
  ]

  -- What is inserted comes between the two.
  pub trav-insert_raw :
      (t : Node A)
      → avl_query cmp t key ≡ none
      → (avl_trav t ≡ before t ++ after t)
        × Gives (λ o. avl_trav o.2 ≡ before t ++ (key ∷ after t)) (avl_insert_raw cmp key t)
  unfolding avl_query avl_trav before after avl_insert_raw
  trav-insert_raw nil q = (refl, refl)
  trav-insert_raw (node bf l x r) q = elim (Ordering-cases (cmp key x)) [
    | inl below ↦
        let (e, g) = trav-insert_raw l (ground (arith, q, below)) in
        (
          rw (before, after, below, e) (append_assoc (before l) (after l) (x ∷ avl_trav r)),
          elim (Option-cases (avl_insert_raw cmp key l)) [
            | inl f ↦ rw (before, after, avl_insert_raw, below, f) tt
            | inr (o, f) ↦
                rw (before, after, avl_insert_raw, below, f)
                  (Gives-weaken (Same o.0 (avl_trav o.2 ++ (x ∷ avl_trav r)))
                    (λ p. avl_trav p.2 ≡ before l ++ (key ∷ (after l ++ (x ∷ avl_trav r))))
                    (avl_insert_left bf x r o) (insert_left-trav bf x r o)
                    (λ p h.
                      h.1
                      ∙ ap (λ zs. zs ++ (x ∷ avl_trav r))
                          (Gives-some (λ o. avl_trav o.2 ≡ before l ++ (key ∷ after l))
                            (avl_insert_raw cmp key l) o g f)
                      ∙ append_assoc (before l) (key ∷ after l) (x ∷ avl_trav r)))
          ],
        )
    | inr (inl same) ↦ absurd (ground (arith, q, same))
    | inr (inr above) ↦
        let (e, g) = trav-insert_raw r (ground (arith, q, above)) in
        (
          rw (before, after, above, e) (sym (append_assoc (avl_trav l) (x ∷ before r) (after r))),
          elim (Option-cases (avl_insert_raw cmp key r)) [
            | inl f ↦ rw (before, after, avl_insert_raw, above, f) tt
            | inr (o, f) ↦
                rw (before, after, avl_insert_raw, above, f)
                  (Gives-weaken (Same o.0 (avl_trav l ++ (x ∷ avl_trav o.2)))
                    (λ p. avl_trav p.2 ≡ (avl_trav l ++ (x ∷ before r)) ++ (key ∷ after r))
                    (avl_insert_right bf l x o) (insert_right-trav bf l x o)
                    (λ p h.
                      h.1
                      ∙ ap (λ zs. avl_trav l ++ (x ∷ zs))
                          (Gives-some (λ o. avl_trav o.2 ≡ before r ++ (key ∷ after r))
                            (avl_insert_raw cmp key r) o g f)
                      ∙ sym (append_assoc (avl_trav l) (x ∷ before r) (key ∷ after r))))
          ],
        )
  ]

  -- What is deleted stood between the two.
  pub trav-delete_raw :
      (t : Node A) (y : A)
      → avl_query cmp t key ≡ some y
      → Gives (Same (some y) (before t ++ after t)) (avl_delete_raw cmp key t)
  unfolding avl_query avl_trav before after avl_delete_raw
  trav-delete_raw nil y q = absurd (ground (arith, q))
  trav-delete_raw (node bf l x r) y q = elim (Ordering-cases (cmp key x)) [
    | inl below ↦
        let g = trav-delete_raw l y (ground (arith, q, below)) in
        elim (Option-cases (avl_delete_raw cmp key l)) [
          | inl f ↦ rw (before, after, avl_delete_raw, below, f) tt
          | inr ((d, lower, l'), f) ↦
              let same =
                Gives-some (Same (some y) (before l ++ after l)) (avl_delete_raw cmp key l)
                  (d, lower, l') g f in
              rw (before, after, avl_delete_raw, below, f)
                (Gives-weaken (Same d (avl_trav l' ++ (x ∷ avl_trav r)))
                  (Same (some y) (before l ++ (after l ++ (x ∷ avl_trav r))))
                  (settle avl_delete_left_balance d lower (node bf l' x r))
                  (settle_left-trav d lower (node bf l' x r))
                  (λ o h. (
                    h.0 ∙ same.0,
                    h.1
                        ∙ ap (λ zs. zs ++ (x ∷ avl_trav r)) same.1
                        ∙ append_assoc (before l) (after l) (x ∷ avl_trav r),
                  )))
        ]
    | inr (inl same) ↦
        let here : x ≡ y = ground (arith, q, same) in
        rw (before, after, avl_delete_raw, same)
          (subst (λ z. Gives (Same (some z) (avl_trav l ++ avl_trav r)) (avl_delete_found bf l x r))
            here (delete_found-trav bf l r x))
    | inr (inr above) ↦
        let g = trav-delete_raw r y (ground (arith, q, above)) in
        elim (Option-cases (avl_delete_raw cmp key r)) [
          | inl f ↦ rw (before, after, avl_delete_raw, above, f) tt
          | inr ((d, lower, r'), f) ↦
              let same =
                Gives-some (Same (some y) (before r ++ after r)) (avl_delete_raw cmp key r)
                  (d, lower, r') g f in
              rw (before, after, avl_delete_raw, above, f)
                (Gives-weaken (Same d (avl_trav l ++ (x ∷ avl_trav r')))
                  (Same (some y) ((avl_trav l ++ (x ∷ before r)) ++ after r))
                  (settle avl_delete_right_balance d lower (node bf l x r'))
                  (settle_right-trav d lower (node bf l x r'))
                  (λ o h. (
                    h.0 ∙ same.0,
                    h.1
                        ∙ ap (λ zs. avl_trav l ++ (x ∷ zs)) same.1
                        ∙ sym (append_assoc (avl_trav l) (x ∷ before r) (after r)),
                  )))
        ]
  ]
