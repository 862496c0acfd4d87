-- ===== src/Containers/Avl/Tests.antt =====
-- The theorems of the balanced tree at concrete inputs.
use Prim.Native.Nat.{compare}
use beehive_im.Common.{ℕ, ◌≡◌, refl, some, arith}
use beehive_im.Containers.Avl.{
  eh, rh, Node, nil, node, AvlTree, avl_ok, avl_insert, avl_delete, avl_trav,
}
use beehive_im.Containers.Avl.Dict.{put, without}
use beehive_im.Containers.Avl.Refine.{Orders}
use beehive_im.Containers.Avl.Correct.{IsAvl, avl_insert-put, avl_delete-without}

abbrev itself : ℕ → ℕ
itself n = n

by_itself : Orders compare itself 100
by_itself a b p q = refl

-- 5 over 3 and 8, and 9 to the right of 8
abbrev four_root : Node ℕ
four_root = node rh (node eh nil 3 nil) 5 (node rh nil 8 (node eh nil 9 nil))

abbrev four : AvlTree ℕ
four = record { num = 4; root = four_root }

four-IsAvl : IsAvl itself 100 four
unfolding avl_trav
four-IsAvl = record { balanced = ground arith; ascending = ground arith; counted = refl }

avl_insert-put_example :
    (tree' : AvlTree ℕ) × (avl_insert compare four 11 ≡ some (avl_ok, tree'))
    × IsAvl itself 100 tree'
    × (avl_trav tree'.root ≡ put itself 11 (avl_trav four_root))
unfolding avl_trav
avl_insert-put_example =
    avl_insert-put compare itself 100 by_itself four 11 four-IsAvl (omega arith)

avl_delete-without_example :
    (tree' : AvlTree ℕ) × (avl_delete compare four 3 ≡ some (some 3, tree'))
    × IsAvl itself 100 tree'
    × (avl_trav tree'.root ≡ without itself 3 (avl_trav four_root))
unfolding avl_trav
avl_delete-without_example =
    avl_delete-without compare itself 100 by_itself four 3 four-IsAvl (omega arith)

-- A comparison that always says "greater"
