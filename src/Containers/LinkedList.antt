-- ===== src/Containers/LinkedList.antt =====
-- The singly linked list: src/clang/lib/core/list.c. A list is the chain of nodes from its head, each with the
-- address at which it lies; `tail` is an address, 0 for NULL. A write through an address that is no node of the
-- chain any more gives `none`.
pub mod Chain
pub mod Ends
pub mod Search
mod Tests
use mathlib.Core.Option
use beehive_im.Common.{
  ℕ, zero, suc, ◌+◌, ◌-◌, ◌%◌, ◌^◌, Bool, true, false, Option, none, some, List, [], ◌∷◌,
  if◌then◌else◌, ◌==◌, ◌&&◌, nat_key, Key, leb, length,
}
use beehive_im.Chat.{Status, ok, fail}

pub record Node (A : Type 0) : Type 0 where
  pub address : ℕ
  pub data_ptr : A

pub record LinkedList (A : Type 0) : Type 0 where
  pub num : ℕ
  pub nodes : List (Node A)
  pub tail : ℕ

-- `++num`, `--num`
abbrev pub inc : ℕ → ℕ
inc n = (n + 1) % 2 ^ 32

abbrev pub dec : ℕ → ℕ
dec n = (n + (2 ^ 32 - 1)) % 2 ^ 32

module _ {A : Type 0} where
  abbrev pub list_creat : LinkedList A
  list_creat = record { num = 0; nodes = []; tail = 0 }

  -- The address in `head`.
  abbrev pub head_of : List (Node A) → ℕ
  head_of [] = 0
  head_of (node ∷ nodes) = node.address

  -- Whether the count is the number of nodes: otherwise the program aborts.
  unfoldable pub list_assert : LinkedList A → Bool
  list_assert list = length list.nodes == list.num

  -- `at` is the address that the allocation gives.
  unfoldable pub list_lpush : LinkedList A → ℕ → A → LinkedList A
  list_lpush list at data_ptr = elim list.nodes [
    | [] ↦ record { num = 1; nodes = record { address = at; data_ptr = data_ptr } ∷ []; tail = at }
    | head ∷ rest ↦ record list {
      num = inc list.num;
      nodes = record { address = at; data_ptr = data_ptr } ∷ list.nodes;
    }
  ]

  -- The write of `next` in the node at the address `prev`, with a node that is the last.
  unfoldable pub link_last : ℕ → Node A → List (Node A) → Option (List (Node A))
  link_last prev new [] = none
  link_last prev new (node ∷ nodes) =
      let rest = link_last prev new nodes in
      if node.address == prev then some (node ∷ new ∷ []) else Option.map (λ ns. node ∷ ns) rest

  -- The writes of `next` that put a node between the one at the address `prev` and that after it.
  unfoldable pub link_between : ℕ → Node A → List (Node A) → Option (List (Node A))
  link_between prev new [] = none
  link_between prev new (node ∷ nodes) =
      let rest = link_between prev new nodes in
      if node.address == prev then some (node ∷ new ∷ nodes) else Option.map (λ ns. node ∷ ns) rest

  unfoldable pub list_rpush : LinkedList A → ℕ → A → Option (LinkedList A)
  list_rpush list at data_ptr =
      if list.tail == 0
      then some
          (record { num = 1; nodes = record { address = at; data_ptr = data_ptr } ∷ []; tail = at })
      else Option.map (λ ns. record { num = inc list.num; nodes = ns; tail = at })
          (link_last list.tail (record { address = at; data_ptr = data_ptr }) list.nodes)

  -- `prev` is an address, 0 for NULL.
  unfoldable pub list_insert : LinkedList A → ℕ → ℕ → A → Option (LinkedList A)
  list_insert list prev at data_ptr =
      if prev == 0
      then some (list_lpush list at data_ptr)
      else if list.tail == prev
      then list_rpush list at data_ptr
      else Option.map (λ ns. record list { num = inc list.num; nodes = ns })
          (link_between prev (record { address = at; data_ptr = data_ptr }) list.nodes)

  unfoldable pub list_lpop : LinkedList A → Option A × LinkedList A
  list_lpop list = elim list.nodes [
    | [] ↦ (none, list)
    | head ∷ rest ↦
        if head.address == list.tail
        then (some head.data_ptr, list_creat)
        else (some head.data_ptr, record list { num = dec list.num; nodes = rest })
  ]

  -- The loop of `list_rpop`: the nodes up to the one whose `next` is the tail, and the data of the tail. Without
  -- such a node the loop runs off the end of the chain.
  unfoldable pub list_rpop_loop : ℕ → Node A → List (Node A) → Option (List (Node A) × (A × ℕ))
  list_rpop_loop tail prev [] = none
  list_rpop_loop tail prev (next ∷ nodes) =
      let rest = list_rpop_loop tail next nodes in
      if next.address == tail
      then some (prev ∷ [], (next.data_ptr, prev.address))
      else Option.map (λ r. (prev ∷ r.0, r.1)) rest

  unfoldable pub list_rpop : LinkedList A → Option (Option A × LinkedList A)
  list_rpop list = elim list.nodes [
    | [] ↦ some (none, list)
    | head ∷ rest ↦
        if head.address == list.tail
        then some (some head.data_ptr, list_creat)
        else Option.map
            (λ r. (some r.1.0, record { num = dec list.num; nodes = r.0; tail = r.1.1 }))
            (list_rpop_loop list.tail head rest)
  ]

  unfoldable pub list_fetch_loop : ℕ → List (Node A) → Option A
  list_fetch_loop i [] = none
  list_fetch_loop zero (node ∷ nodes) = some node.data_ptr
  list_fetch_loop (suc i) (node ∷ nodes) = list_fetch_loop i nodes

  unfoldable pub list_fetch : LinkedList A → ℕ → Option A
  list_fetch list idx = if leb list.num idx then none else list_fetch_loop idx list.nodes

  -- `proc` carries its state; it stops the traversal by `true`, for a return value that is not 0.
  unfoldable pub list_trav : {S : Type 0} → (A → S → Bool × S) → List (Node A) → S → Status × S
  list_trav proc [] s = (ok, s)
  list_trav proc (node ∷ nodes) s =
      let (stop, s') = proc node.data_ptr s in
      let rest = list_trav proc nodes s' in if stop then (fail, s') else rest

  unfoldable pub list_find : (A → Bool) → List (Node A) → Option A
  list_find cb [] = none
  list_find cb (node ∷ nodes) =
      let rest = list_find cb nodes in if cb node.data_ptr then some node.data_ptr else rest

  -- The nodes without the first that satisfies `cb`.
  unfoldable pub unlink_first : (A → Bool) → List (Node A) → Option (A × List (Node A))
  unlink_first cb [] = none
  unlink_first cb (node ∷ nodes) =
      let rest = unlink_first cb nodes in
      if cb node.data_ptr
      then some (node.data_ptr, nodes)
      else Option.map (λ r. (r.0, node ∷ r.1)) rest

  -- The tail keeps its address also when its node is freed.
  unfoldable pub list_find_and_del : LinkedList A → (A → Bool) → Option A × LinkedList A
  list_find_and_del list cb = elim (unlink_first cb list.nodes) [
    | none ↦ (none, list)
    | some r ↦
        let num = dec list.num in
        (some r.0, record list { num = num; nodes = if num == 0 then [] else r.1 })
  ]

  -- The loop of `list_sort`: the address of the node after which the data go. `above x y` is for `cmp(x, y) >= 0`.
  unfoldable pub list_sort_prev : (A → A → Bool) → A → ℕ → List (Node A) → ℕ
  list_sort_prev above data_ptr prev [] = prev
  list_sort_prev above data_ptr prev (node ∷ nodes) =
      let rest = list_sort_prev above data_ptr node.address nodes in
      if above data_ptr node.data_ptr then prev else rest

  unfoldable pub list_sort : LinkedList A → ℕ → A → (A → A → Bool) → Option (LinkedList A)
  list_sort list at data_ptr above = elim list.nodes [
    | [] ↦ some (list_lpush list at data_ptr)
    | _ ∷ _ ↦ list_insert list (list_sort_prev above data_ptr 0 list.nodes) at data_ptr
  ]

  -- The loop of `list_remove` behind the head: `prev` is the node before. It gives the nodes that stay and the tail.
  unfoldable pub list_remove_loop :
      ⦃key : Key A⦄ → A → ℕ → ℕ → List (Node A) → Option (List (Node A) × ℕ)
  list_remove_loop data_ptr prev tail [] = none
  list_remove_loop data_ptr prev tail (curr ∷ nodes) =
      let rest = list_remove_loop data_ptr curr.address tail nodes in
      if curr.data_ptr == data_ptr
      then some (nodes, if curr.address == tail then prev else tail)
      else Option.map (λ r. (curr ∷ r.0, r.1)) rest

  unfoldable pub list_remove : ⦃key : Key A⦄ → LinkedList A → A → Status × LinkedList A
  list_remove list data_ptr = elim list.nodes [
    | [] ↦ (fail, list)
    | head ∷ rest ↦
        if head.data_ptr == data_ptr
        then if head.address == list.tail
          then (ok, list_creat)
          else (ok, record list { num = dec list.num; nodes = rest })
        else (elim (list_remove_loop data_ptr head.address list.tail rest) [
          | none ↦ (fail, list)
          | some r ↦ (ok, record { num = dec list.num; nodes = head ∷ r.0; tail = r.1 })
        ])
  ]
