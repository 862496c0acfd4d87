-- ===== src/Containers/Avl/Correct.antt =====
-- The operations that src/clang/lib/core/avl_tree.c offers, on trees that its own operations build.
use Prim.Native.Nat.{Ordering}
use mathlib.Core.Path.{subst}
use beehive_im.Common.{
  ℕ, ◌%◌, ◌^◌, ◌≡◌, ◌<◌, ◌⊎◌, ◌∙◌, sym, inl, inr, refl, ap, Bool, true, false, Option-cases, none,
  some, List, [], ◌∷◌, ◌++◌, arith, length,
}
use beehive_im.Chat.{inc64, dec64}
use beehive_im.Containers.Vector.{find_entry}
use beehive_im.Containers.Avl.{
  Bf, eh, Node, nil, node, AvlTree, AvlErr, avl_ok, node_exist, avl_insert, avl_insert_raw,
  avl_delete, avl_delete_raw, avl_trav, avl_query, avl_find,
}
use beehive_im.Containers.Avl.Lower.{Shrunk, delete_raw-Shrunk}
use beehive_im.Containers.Avl.Remove.{delete_raw-without}
use beehive_im.Containers.Avl.Balance.{height, Balanced, Inserted, insert_raw-Inserted}
use beehive_im.Containers.Avl.Dict.{
  Ascends, put, seek, without, Ascends-put, Ascends-without, length-put, length-without,
}
use beehive_im.Containers.Avl.Contents.{Gives-some, Same}
use beehive_im.Containers.Avl.Refine.{Orders, insert_err, query-seek, insert_raw-put}

-- Balanced, in the order of the keys, which are below `bound`, and counted.
pub record IsAvl {A : Type 0} (key : A → ℕ) (bound : ℕ) (tree : AvlTree A) : Type 0 where
  pub balanced : Balanced tree.root
  pub ascending : Ascends key 0 bound (avl_trav tree.root)
  pub counted : tree.num ≡ length (avl_trav tree.root) % 2 ^ 64

module _ {A : Type 0} where
  Inserted-Balanced : (h : ℕ) (o : AvlErr × Bool × Node A) → Inserted h o → Balanced o.2
  Inserted-Balanced h (avl_ok, true, t) g = g.0
  Inserted-Balanced h (avl_ok, false, t) g = g.0
  Inserted-Balanced h (node_exist, true, t) g = absurd g
  Inserted-Balanced h (node_exist, false, t) g = g.0

  Shrunk-Balanced : (h : ℕ) (lower : Bool) (t : Node A) → Shrunk h lower t → Balanced t
  Shrunk-Balanced h true t g = g.0
  Shrunk-Balanced h false t g = g.0

  IsAvl-of :
      (key : A → ℕ) (bound num : ℕ) (t : Node A) (xs : List A)
      → Balanced t
      → avl_trav t ≡ xs
      → Ascends key 0 bound xs
      → num ≡ length xs % 2 ^ 64
      → IsAvl key bound (record { num = num; root = t })
  IsAvl-of key bound num t xs balanced same ascending counted = record {
    balanced = balanced;
    ascending = subst (Ascends key 0 bound) (sym same) ascending;
    counted = rw same counted;
  }

  Node-cases :
      (t : Node A)
      → (t ≡ nil) ⊎ ((bf : Bf) × (l : Node A) × (x : A) × (r : Node A) × (t ≡ node bf l x r))
  Node-cases nil = inl refl
  Node-cases (node bf l x r) = inr (bf, l, x, r, refl)

  find_entry-append :
      (find : A → Bool) (xs ys : List A)
      → find_entry find (xs ++ ys)
        ≡ elim (find_entry find xs) [ some y ↦ some y | none ↦ find_entry find ys ]
  unfolding find_entry
  find_entry-append find [] ys = refl
  find_entry-append find (x ∷ xs) ys = ground (arith, find_entry-append find xs ys)

  -- The first item of the traversal that satisfies the test is found.
  pub avl_find-find_entry :
      (find : A → Bool) (t : Node A) → avl_find find t ≡ find_entry find (avl_trav t)
  unfolding avl_find avl_trav find_entry
  avl_find-find_entry find nil = refl
  avl_find-find_entry find (node bf l x r) = ground (
    arith,
    find_entry-append find (avl_trav l) (x ∷ avl_trav r),
    avl_find-find_entry find l,
    avl_find-find_entry find r,
  )

module _ {A : Type 0} (cmp : A → A → Ordering) (key : A → ℕ) (bound : ℕ)
    (law : Orders cmp key bound) where
  -- Where the comparison orders the keys, a query gives the item of the same key, and NULL where there is none.
  pub avl_query-seek :
      (tree : AvlTree A) (item : A)
      → IsAvl key bound tree
      → key item < bound
      → avl_query cmp tree.root item ≡ seek key (key item) (avl_trav tree.root)
  avl_query-seek tree item v small =
      query-seek cmp key bound law item tree.root 0 bound small (omega arith) v.ascending

  insert_raw_total :
      (item : A) (t : Node A)
      → Balanced t
      → Ascends key 0 bound (avl_trav t)
      → key item < bound
      → (b : Bool) × (t' : Node A) × (avl_insert_raw cmp item t
          ≡ some (insert_err (seek key (key item) (avl_trav t)), b, t'))
        × Balanced t'
        × (avl_trav t' ≡ put key item (avl_trav t))
  insert_raw_total item t balanced ascending small =
      let (o, e, g) = insert_raw-Inserted cmp item t balanced in
      let (err, same) =
        Gives-some
          (Same (insert_err (seek key (key item) (avl_trav t))) (put key item (avl_trav t)))
          (avl_insert_raw cmp item t) o
          (insert_raw-put cmp key bound law item t 0 bound small (omega arith) ascending) e in
      (o.1, o.2, rw (sym err) e, Inserted-Balanced (height t) o g, same)

  -- What the new number is
  abbrev num_after : AvlErr → ℕ → ℕ
  num_after avl_ok num = inc64 num
  num_after node_exist num = num

  insert_done :
      (tree : AvlTree A) (item : A) (err : AvlErr) (b : Bool) (t : Node A) (bf : Bf) (l : Node A)
      (x : A) (r : Node A)
      → tree.root ≡ node bf l x r
      → avl_insert_raw cmp item tree.root ≡ some (err, b, t)
      → avl_insert cmp tree item ≡ some (err, record { num = num_after err tree.num; root = t })
  unfolding avl_insert
  insert_done tree item avl_ok b t bf l x r full e = rw (avl_insert, full, rw full at e) refl
  insert_done tree item node_exist b t bf l x r full e = rw (avl_insert, full, rw full at e) refl

  -- Where the comparison orders the keys, an insertion never steps through NULL. A new key gives AVL_OK and puts the
  -- item in its place, and a known one gives AVL_NODE_EXIST and changes nothing. The tree stays in order, balanced
  -- and counted.
  pub avl_insert-put :
      (tree : AvlTree A) (item : A)
      → IsAvl key bound tree
      → key item < bound
      → (tree' : AvlTree A) × (avl_insert cmp tree item
          ≡ some (insert_err (seek key (key item) (avl_trav tree.root)), tree'))
        × IsAvl key bound tree'
        × (avl_trav tree'.root ≡ put key item (avl_trav tree.root))
  unfolding avl_insert avl_trav
  avl_insert-put tree item v small = elim (Node-cases tree.root) [
    | inl empty ↦ (
      record { num = 1; root = node eh nil item nil },
      rw (avl_insert, empty) refl,
      IsAvl-of key bound 1 (node eh nil item nil) (item ∷ []) (tt, tt, refl) refl
          (omega arith, small, tt) refl,
      rw empty refl,
    )
    | inr (bf, l, x, r, full) ↦
        let xs = avl_trav tree.root in
        let (b, t, e, balanced, same) =
          insert_raw_total item tree.root v.balanced v.ascending small in
        let ascending = Ascends-put key 0 bound item xs v.ascending (omega arith) small in
        let sized = length-put key 0 bound item xs v.ascending in
        elim (Option-cases (seek key (key item) xs)) [
          | inl absent ↦ (
            record { num = inc64 tree.num; root = t },
            rw absent (insert_done tree item avl_ok b t bf l x r full (rw absent at e)),
            IsAvl-of key bound (inc64 tree.num) t (put key item xs) balanced same ascending
                (omega (arith, v.counted, rw absent at sized)),
            same,
          )
          | inr (y, found) ↦ (
            record { num = tree.num; root = t },
            rw found (insert_done tree item node_exist b t bf l x r full (rw found at e)),
            IsAvl-of key bound tree.num t (put key item xs) balanced same ascending
                (omega (arith, v.counted, rw found at sized)),
            same,
          )
        ]
  ]

  -- Where the comparison orders the keys, a deletion never steps through NULL. It gives the item of the key, or NULL
  -- where there is none, and takes just that item out. The tree stays in order, balanced and counted.
  pub avl_delete-without :
      (tree : AvlTree A) (item : A)
      → IsAvl key bound tree
      → key item < bound
      → (tree' : AvlTree A) × (avl_delete cmp tree item
          ≡ some (seek key (key item) (avl_trav tree.root), tree'))
        × IsAvl key bound tree'
        × (avl_trav tree'.root ≡ without key (key item) (avl_trav tree.root))
  unfolding avl_delete
  avl_delete-without tree item v small =
      let xs = avl_trav tree.root in
      let (d, t, lower, e, g) = delete_raw-Shrunk cmp item tree.root v.balanced in
      let (out, same) =
        Gives-some (Same (seek key (key item) xs) (without key (key item) xs))
          (avl_delete_raw cmp item tree.root) (d, lower, t)
          (delete_raw-without cmp key bound law item tree.root 0 bound small (omega arith)
            v.ascending)
          e in
      let balanced = Shrunk-Balanced (height tree.root) lower t g in
      let ascending = Ascends-without key 0 bound (key item) xs v.ascending in
      let sized = length-without key (key item) xs in
      elim (Option-cases (seek key (key item) xs)) [
        | inl absent ↦ (
          record { num = tree.num; root = t },
          rw (avl_delete, e, out, absent) refl,
          IsAvl-of key bound tree.num t (without key (key item) xs) balanced same ascending
              (v.counted ∙ ap (λ (n : ℕ). n % 2 ^ 64) (rw absent at sized)),
          same,
        )
        | inr (x, found) ↦ (
          record { num = dec64 tree.num; root = t },
          rw (avl_delete, e, out, found) refl,
          IsAvl-of key bound (dec64 tree.num) t (without key (key item) xs) balanced same ascending
              (omega (arith, v.counted, rw found at sized)),
          same,
        )
      ]
