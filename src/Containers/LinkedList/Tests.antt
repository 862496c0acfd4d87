-- ===== src/Containers/LinkedList/Tests.antt =====
-- The theorems of the linked list at concrete inputs.
use beehive_im.Common.{ℕ, ◌≡◌, true, none, some, [], ◌∷◌, ◌==◌, nat_key, arith, refl}
use beehive_im.Containers.LinkedList.{
  Node, LinkedList, link_last, list_lpush, list_rpush, list_lpop, list_rpop, list_rpop_loop,
  list_fetch, list_fetch_loop, list_remove, list_remove_loop, unlink_first, list_find_and_del,
  list_sort, list_sort_prev, list_insert, link_between, list_find, list_trav, list_assert,
}
use beehive_im.Containers.LinkedList.Chain.{IsList}
use beehive_im.Containers.LinkedList.Ends.{pop_first, pop_last}
use beehive_im.Containers.LinkedList.Search.{without_first, list_find_and_del_dangles}

program : Unit {0}
unfolding link_last list_lpush list_rpush list_lpop list_rpop list_rpop_loop list_fetch
    list_fetch_loop list_remove list_remove_loop unlink_first list_find_and_del list_sort
    list_sort_prev list_insert link_between list_find list_trav list_assert pop_first pop_last
    without_first
program = tt

abbrev node : ℕ → ℕ → Node ℕ
node at x = record { address = at; data_ptr = x }

abbrev three : LinkedList ℕ
three = record { num = 3; nodes = node 16 50 ∷ node 48 60 ∷ node 32 70 ∷ []; tail = 32 }

three-IsList : IsList three
three-IsList = record { counted = refl; ends = refl; apart = ground arith }

-- Data that compare as no less than the first go to the head.
sorted :
    list_sort three 64 60 (λ x y. true)
    ≡ some (record { num = 4; nodes = node 64 60 ∷ three.nodes; tail = 32 })
unfolding program
sorted = refl

-- Taking 70 out of the list and pushing 80.
list_find_and_del_dangles_example :
    ((list_find_and_del three (λ x. x == 70)).0 ≡ some 70)
    × (list_rpush (list_find_and_del three (λ x. x == 70)).1 64 80 ≡ none)
list_find_and_del_dangles_example =
    list_find_and_del_dangles (λ x. x == 70) (node 32 70) refl three (node 16 50) (node 48 60 ∷ [])
      64 80 three-IsList refl (omega arith) (refl, (refl, tt))
