-- ===== src/Containers/LinkedList/Chain.antt =====
-- The well-formed linked lists of src/clang/lib/core/list.c, and the sequence that one stands for.
use beehive_im.Common.{
  ℕ, ◌%◌, ◌^◌, ◌≡◌, ◌≢◌, some, List, [], ◌∷◌, ◌++◌, map, nat_key, nat_beq_iff, arith, refl, length,
  ap, sym,
}
use beehive_im.Containers.LinkedList.{Node, LinkedList, link_last}

-- The address of the last node, 0 if there is none.
abbrev pub last_of : {A : Type 0} → List (Node A) → ℕ
last_of [] = 0
last_of (node ∷ []) = node.address
last_of (node ∷ next ∷ nodes) = last_of (next ∷ nodes)

-- No node of the chain is at the address.
abbrev pub Free : {A : Type 0} → ℕ → List (Node A) → Type 0
Free at [] = Unit {0}
Free at (node ∷ nodes) = (node.address ≢ at) × Free at nodes

-- The nodes are at different addresses, none at 0.
abbrev pub Apart : {A : Type 0} → List (Node A) → Type 0
Apart [] = Unit {0}
Apart (node ∷ nodes) = (node.address ≢ 0) × Free node.address nodes × Apart nodes

-- The tail is the last node, and the count that of the nodes.
pub record IsList {A : Type 0} (list : LinkedList A) : Type 0 where
  pub counted : list.num ≡ length list.nodes % 2 ^ 32
  pub ends : list.tail ≡ last_of list.nodes
  pub apart : Apart list.nodes

-- The sequence that a list stands for.
abbrev pub contents : {A : Type 0} → LinkedList A → List A
contents list = map (λ node. node.data_ptr) list.nodes

module _ {A : Type 0} where
  pub last-Free :
      (at : ℕ) (node : Node A) (nodes : List (Node A))
      → Free at (node ∷ nodes)
      → last_of (node ∷ nodes) ≢ at
  last-Free at node [] f = f.0
  last-Free at node (next ∷ nodes) f = last-Free at next nodes f.1

  pub last-nonzero :
      (node : Node A) (nodes : List (Node A)) → Apart (node ∷ nodes) → last_of (node ∷ nodes) ≢ 0
  last-nonzero node [] a = a.0
  last-nonzero node (next ∷ nodes) a = last-nonzero next nodes a.2

  pub link_last-append :
      (new node : Node A) (nodes : List (Node A))
      → Apart (node ∷ nodes)
      → link_last (last_of (node ∷ nodes)) new (node ∷ nodes) ≡ some ((node ∷ nodes) ++ (new ∷ []))
  unfolding link_last
  link_last-append new node [] a = ground (arith, nat_beq_iff node.address node.address)
  link_last-append new node (next ∷ nodes) a = ground (
    arith,
    link_last-append new next nodes a.2,
    last-Free node.address next nodes a.1,
    nat_beq_iff node.address (last_of (next ∷ nodes)),
  )

  pub last-append :
      (new : Node A) (nodes : List (Node A)) → last_of (nodes ++ (new ∷ [])) ≡ new.address
  last-append new [] = refl
  last-append new (node ∷ []) = refl
  last-append new (node ∷ next ∷ nodes) = last-append new (next ∷ nodes)

  pub Free-append :
      (at : ℕ) (new : Node A) (nodes : List (Node A))
      → Free at nodes
      → new.address ≢ at
      → Free at (nodes ++ (new ∷ []))
  Free-append at new [] f n = (n, tt)
  Free-append at new (node ∷ nodes) f n = (f.0, Free-append at new nodes f.1 n)

  pub Apart-append :
      (new : Node A) (nodes : List (Node A))
      → Apart nodes
      → Free new.address nodes
      → new.address ≢ 0
      → Apart (nodes ++ (new ∷ []))
  Apart-append new [] a f n = (n, tt, tt)
  Apart-append new (node ∷ nodes) a f n = (
    a.0,
    Free-append node.address new nodes a.1 (λ e. f.0 (sym e)),
    Apart-append new nodes a.2 f.1 n,
  )

  pub map-append :
      (new : Node A) (nodes : List (Node A))
      → map (λ (n : Node A). n.data_ptr) (nodes ++ (new ∷ []))
        ≡ map (λ (n : Node A). n.data_ptr) nodes ++ (new.data_ptr ∷ [])
  map-append new [] = refl
  map-append new (node ∷ nodes) = ap (λ xs. node.data_ptr ∷ xs) (map-append new nodes)
