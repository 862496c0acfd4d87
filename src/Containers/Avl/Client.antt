-- ===== src/Containers/Avl/Client.antt =====
-- What a client of src/clang/lib/core/avl_tree.c sees over any sequence of calls.
use Prim.Native.Nat.{Ordering}
use beehive_im.Common.{ℕ, ◌≡◌, ◌<◌, refl, Option, none, some, List, [], ◌∷◌}
use beehive_im.Containers.Avl.{AvlTree, avl_creat, avl_insert, avl_delete, avl_query, avl_trav}
use beehive_im.Containers.Avl.Dict.{put, seek, without}
use beehive_im.Containers.Avl.Refine.{Orders}
use beehive_im.Containers.Avl.Correct.{IsAvl, avl_insert-put, avl_delete-without, avl_query-seek}

pub data Call (A : Type 0) : Type 0 where
  inserts deletes : A → Call A

-- The calls one after the other; `none` where one of them steps through NULL
unfoldable pub avl_run :
    {A : Type 0} → (A → A → Ordering) → List (Call A) → AvlTree A → Option (AvlTree A)
avl_run cmp [] tree = some tree
avl_run cmp (inserts item ∷ calls) tree = elim (avl_insert cmp tree item) [
  | none ↦ none
  | some o ↦ avl_run cmp calls o.1
]
avl_run cmp (deletes item ∷ calls) tree = elim (avl_delete cmp tree item) [
  | none ↦ none
  | some o ↦ avl_run cmp calls o.1
]

module _ {A : Type 0} (key : A → ℕ) where
  -- The same calls on the list of items
  abbrev pub replay : List (Call A) → List A → List A
  replay [] xs = xs
  replay (inserts item ∷ calls) xs = replay calls (put key item xs)
  replay (deletes item ∷ calls) xs = replay calls (without key (key item) xs)

  abbrev pub KeysBelow : ℕ → List (Call A) → Type 0
  KeysBelow bound [] = Unit {0}
  KeysBelow bound (inserts item ∷ calls) = (key item < bound) × KeysBelow bound calls
  KeysBelow bound (deletes item ∷ calls) = (key item < bound) × KeysBelow bound calls

module _ {A : Type 0} (cmp : A → A → Ordering) (key : A → ℕ) (bound : ℕ)
    (law : Orders cmp key bound) where
  run_from :
      (calls : List (Call A)) (tree : AvlTree A)
      → IsAvl key bound tree
      → KeysBelow key bound calls
      → (tree' : AvlTree A) × (avl_run cmp calls tree ≡ some tree')
        × IsAvl key bound tree'
        × (avl_trav tree'.root ≡ replay key calls (avl_trav tree.root))
  unfolding avl_run
  run_from [] tree v small = (tree, refl, v, refl)
  run_from (inserts item ∷ calls) tree v small =
      let (tree', e, v', same) = avl_insert-put cmp key bound law tree item v small.0 in
      let (last, f, w, all) = run_from calls tree' v' small.1 in
      (last, rw (avl_run, e) f, w, rw same at all)
  run_from (deletes item ∷ calls) tree v small =
      let (tree', e, v', same) = avl_delete-without cmp key bound law tree item v small.0 in
      let (last, f, w, all) = run_from calls tree' v' small.1 in
      (last, rw (avl_run, e) f, w, rw same at all)

  -- Where the comparison orders the keys, any sequence of insertions and deletions on a new tree runs without a step
  -- through NULL to a tree that is in order, balanced and counted. A query then gives what the same calls on a list
  -- of items leave under the key.
  pub avl_run-replay :
      (calls : List (Call A)) (probe : A)
      → KeysBelow key bound calls
      → key probe < bound
      → (tree : AvlTree A) × (avl_run cmp calls avl_creat ≡ some tree)
        × IsAvl key bound tree
        × (avl_query cmp tree.root probe ≡ seek key (key probe) (replay key calls []))
  unfolding avl_trav
  avl_run-replay calls probe keys small =
      let fresh : IsAvl key bound avl_creat = record {
        balanced = tt;
        ascending = tt;
        counted = refl;
      } in
      let (tree, e, v, same) = run_from calls avl_creat fresh keys in
      (tree, e, v, rw same at (avl_query-seek cmp key bound law tree probe v small))
