-- ===== src/Containers/LinkedList/Search.antt =====
-- Searching, taking out and inserting in order: src/clang/lib/core/list.c.
use mathlib.Core.Option
use beehive_im.Common.{
  ℕ, zero, suc, ◌+◌, ◌-◌, ◌%◌, ◌^◌, ◌≡◌, ◌≢◌, ◌<◌, ◌≤◌, ◌⊎◌, Bool, Bool-cases, Option, none, some,
  List, [], ◌∷◌, ◌++◌, map, if◌then◌else◌, ◌==◌, nat_key, nat_beq_iff, Key, arith, refl, length,
  length-append, inl, inr, ap, sym, ◌∙◌, true, false, leb, get_elem?,
}
use beehive_im.Chat.{ok, fail}
use beehive_im.Containers.LinkedList.{
  Node, LinkedList, dec, list_creat, list_remove, list_remove_loop, list_fetch, list_fetch_loop,
  list_find_and_del, unlink_first, list_rpush, link_last,
}
use beehive_im.Containers.LinkedList.Chain.{
  IsList, contents, Free, Apart, last_of, last-Free, last-append,
}
use beehive_im.Containers.LinkedList.Ends.{list_creat-IsList}

module _ {A : Type 0} where
  fetch_loop_lem :
      (i : ℕ) (nodes : List (Node A))
      → list_fetch_loop i nodes ≡ get_elem? (map (λ (m : Node A). m.data_ptr) nodes) i
  unfolding list_fetch_loop
  fetch_loop_lem i [] = ground arith
  fetch_loop_lem zero (node ∷ nodes) = refl
  fetch_loop_lem (suc i) (node ∷ nodes) = fetch_loop_lem i nodes

  beyond :
      (i : ℕ) (nodes : List (Node A))
      → length nodes ≤ i
      → none ≡ get_elem? (map (λ (m : Node A). m.data_ptr) nodes) i
  beyond i [] h = refl
  beyond zero (node ∷ nodes) h = absurd (omega (arith, h))
  beyond (suc i) (node ∷ nodes) h = beyond i nodes (omega (arith, h))

  -- In a well-formed list of less than 2^32 nodes, fetching gives the data at the index, and NULL from the length on.
  pub list_fetch-contents :
      (list : LinkedList A) (i : ℕ)
      → IsList list
      → length list.nodes < 2 ^ 32
      → list_fetch list i ≡ get_elem? (contents list) i
  unfolding list_fetch
  list_fetch-contents list i v small =
      let n : list.num ≡ length list.nodes = omega (arith, v.counted, small) in
      elim (Bool-cases (leb list.num i)) [
        | inl past ↦ rw (list_fetch, past) (beyond i list.nodes (ground (arith, past, n)))
        | inr within ↦ rw (list_fetch, within) (fetch_loop_lem i list.nodes)
      ]

  -- The specification of a removal: the sequence without the first occurrence.
  unfoldable pub without_first : ⦃key : Key A⦄ → A → List A → Option (List A)
  without_first x [] = none
  without_first x (y ∷ ys) =
      let rest = without_first x ys in if y == x then some ys else Option.map (λ zs. y ∷ zs) rest

  module _ ⦃key : Key A⦄ (x : A) where
    tail_after :
        (t : ℕ) (prev curr : Node A) (nodes : List (Node A))
        → t ≡ last_of (curr ∷ nodes)
        → Apart (curr ∷ nodes)
        → (if curr.address == t then prev.address else t) ≡ last_of (prev ∷ nodes)
    tail_after t prev curr [] ends a = ground (arith, nat_beq_iff curr.address t)
    tail_after t prev curr (next ∷ nodes) ends a =
        ground (arith, last-Free curr.address next nodes a.1, nat_beq_iff curr.address t)

    remove_loop_lem :
        (t : ℕ) (prev : Node A) (nodes : List (Node A))
        → t ≡ last_of (prev ∷ nodes)
        → Apart (prev ∷ nodes)
        → ((list_remove_loop x prev.address t nodes ≡ none)
            × (without_first x (map (λ (m : Node A). m.data_ptr) nodes) ≡ none))
          ⊎ ((rest : List (Node A)) × (list_remove_loop x prev.address t nodes
                ≡ some (rest, last_of (prev ∷ rest)))
              × (without_first x (map (λ (m : Node A). m.data_ptr) nodes)
                  ≡ some (map (λ (m : Node A). m.data_ptr) rest))
              × (suc (length rest) ≡ length nodes)
              × Apart rest
              × ((at : ℕ) → Free at nodes → Free at rest))
    unfolding list_remove_loop without_first
    remove_loop_lem t prev [] ends a = inl (refl, refl)
    remove_loop_lem t prev (curr ∷ nodes) ends a = elim (Bool-cases (curr.data_ptr == x)) [
      | inl found ↦ inr (
        nodes,
        rw (list_remove_loop, found)
            (ap (λ (e : ℕ). some (nodes, e)) (tail_after t prev curr nodes ends a.2)),
        rw (without_first, found) refl,
        refl,
        a.2.2,
        λ at f. f.1,
      )
      | inr other ↦ elim (remove_loop_lem t curr nodes ends a.2) [
        | inl (run, spec) ↦
            inl (rw (list_remove_loop, other, run) refl, rw (without_first, other, spec) refl)
        | inr (rest, run, spec, same, apart, free) ↦ inr (
          curr ∷ rest,
          rw (list_remove_loop, other, run) refl,
          rw (without_first, other, spec) refl,
          ap suc same,
          (a.2.0, free curr.address a.2.1, apart),
          λ at f. (f.0, free at f.1),
        )
      ]
    ]

    head_lem :
        (n t : ℕ) (node : Node A) (nodes : List (Node A))
        → IsList (record { num = n; nodes = node ∷ nodes; tail = t })
        → (node.data_ptr == x) ≡ true
        → (list' : LinkedList A) × (list_remove
              (record { num = n; nodes = node ∷ nodes; tail = t })
              x
            ≡ (ok, list'))
          × IsList list'
          × (without_first x (map (λ (m : Node A). m.data_ptr) (node ∷ nodes))
              ≡ some (contents list'))
    unfolding list_remove without_first
    head_lem n t node [] v found =
        let only : (node.address == t) ≡ true =
          ground (arith, v.ends, nat_beq_iff node.address t) in
        (
          list_creat,
          rw (list_remove, found, only) refl,
          list_creat-IsList,
          rw (without_first, found) refl,
        )
    head_lem n t node (next ∷ nodes) v found =
        let more : (node.address == t) ≡ false = ground (
          arith,
          v.ends,
          last-Free node.address next nodes v.apart.1,
          nat_beq_iff node.address t,
        ) in
        (
          record { num = (n + (2 ^ 32 - 1)) % 2 ^ 32; nodes = next ∷ nodes; tail = t },
          rw (list_remove, found, more) refl,
          record { counted = omega (arith, v.counted); ends = v.ends; apart = v.apart.2 },
          rw (without_first, found) refl,
        )

    remove_lem :
        (n t : ℕ) (nodes : List (Node A))
        → IsList (record { num = n; nodes = nodes; tail = t })
        → ((list_remove (record { num = n; nodes = nodes; tail = t }) x
              ≡ (fail, record { num = n; nodes = nodes; tail = t }))
            × (without_first x (map (λ (m : Node A). m.data_ptr) nodes) ≡ none))
          ⊎ ((list' : LinkedList A) × (list_remove (record { num = n; nodes = nodes; tail = t }) x
                ≡ (ok, list'))
              × IsList list'
              × (without_first x (map (λ (m : Node A). m.data_ptr) nodes) ≡ some (contents list')))
    unfolding list_remove without_first
    remove_lem n t [] v = inl (refl, refl)
    remove_lem n t (node ∷ nodes) v = elim (Bool-cases (node.data_ptr == x)) [
      | inl found ↦ inr (head_lem n t node nodes v found)
      | inr other ↦ elim (remove_loop_lem t node nodes v.ends v.apart) [
        | inl (run, spec) ↦
            inl (rw (list_remove, other, run) refl, rw (without_first, other, spec) refl)
        | inr (rest, run, spec, same, apart, free) ↦ inr (
          record {
            num = (n + (2 ^ 32 - 1)) % 2 ^ 32;
            nodes = node ∷ rest;
            tail = last_of (node ∷ rest);
          },
          rw (list_remove, other, run) refl,
          record {
            counted = omega (arith, v.counted, same);
            ends = refl;
            apart = (v.apart.0, free node.address v.apart.1, apart);
          },
          rw (without_first, other, spec) refl,
        )
      ]
    ]

    -- In a well-formed list, removing takes the first occurrence out of the data; without an occurrence it fails and changes nothing.
    pub list_remove-contents :
        (list : LinkedList A)
        → IsList list
        → ((list_remove list x ≡ (fail, list)) × (without_first x (contents list) ≡ none))
          ⊎ ((list' : LinkedList A) × (list_remove list x ≡ (ok, list'))
              × IsList list'
              × (without_first x (contents list) ≡ some (contents list')))
    list_remove-contents list v = remove_lem list.num list.tail list.nodes v

  -- No node of the chain satisfies `cb`.
  abbrev pub Fails : (A → Bool) → List (Node A) → Type 0
  Fails cb [] = Unit {0}
  Fails cb (node ∷ nodes) = (cb node.data_ptr ≡ false) × Fails cb nodes

  module _ (cb : A → Bool) (last : Node A) (found : cb last.data_ptr ≡ true) where
    unlink_last :
        (nodes : List (Node A))
        → Fails cb nodes
        → unlink_first cb (nodes ++ (last ∷ [])) ≡ some (last.data_ptr, nodes)
    unfolding unlink_first
    unlink_last [] f = rw (unlink_first, found) refl
    unlink_last (node ∷ nodes) f = rw (unlink_first, f.0, unlink_last nodes f.1) refl

    lost :
        (at : ℕ) (new : Node A) (nodes : List (Node A))
        → Free at nodes
        → link_last at new nodes ≡ none
    unfolding link_last
    lost at new [] f = refl
    lost at new (node ∷ nodes) f =
        ground (arith, lost at new nodes f.1, f.0, nat_beq_iff node.address at)

    differs : (at : ℕ) (nodes : List (Node A)) → Free at (nodes ++ (last ∷ [])) → at ≢ last.address
    differs at [] f = λ e. f.0 (sym e)
    differs at (m ∷ nodes) f = differs at nodes f.1

    Free-front :
        (nodes : List (Node A))
        → Apart (nodes ++ (last ∷ []))
        → (last.address ≢ 0) × Free last.address nodes
    Free-front [] a = (a.0, tt)
    Free-front (node ∷ nodes) a =
        let (some_at, f) = Free-front nodes a.2 in (some_at, (differs node.address nodes a.1, f))

    -- In a well-formed list of less than 2^32 nodes, `list_find_and_del` that takes out the last of several leaves `tail` at the freed node: the next push at
    -- the tail writes through it.
    pub list_find_and_del_dangles :
        (list : LinkedList A) (node : Node A) (nodes : List (Node A)) (at : ℕ) (y : A)
        → IsList list
        → list.nodes ≡ (node ∷ nodes) ++ (last ∷ [])
        → length list.nodes < 2 ^ 32
        → Fails cb (node ∷ nodes)
        → ((list_find_and_del list cb).0 ≡ some last.data_ptr)
          × (list_rpush (list_find_and_del list cb).1 at y ≡ none)
    unfolding list_find_and_del list_rpush
    list_find_and_del_dangles list node nodes at y v e small f =
        let t : list.tail ≡ last.address =
          v.ends ∙ ap last_of e ∙ last-append last (node ∷ nodes) in
        let apart : Apart ((node ∷ nodes) ++ (last ∷ [])) = rw e at v.apart in
        let (some_at, free) = Free-front (node ∷ nodes) apart in
        let cut : unlink_first cb list.nodes ≡ some (last.data_ptr, node ∷ nodes) =
          rw e (unlink_last (node ∷ nodes) f) in
        let more : (dec list.num == 0) ≡ false = ground (
          arith,
          v.counted,
          small,
          ap length e,
          length-append nodes (last ∷ []),
          nat_beq_iff (dec list.num) 0,
        ) in
        let there : (list.tail == 0) ≡ false =
          ground (arith, t, some_at, nat_beq_iff list.tail 0) in
        (
          rw (list_find_and_del, cut) refl,
          rw
              (
                list_find_and_del,
                cut,
                more,
                list_rpush,
                there,
                t,
                lost last.address (record { address = at; data_ptr = y }) (node ∷ nodes) free,
              )
              refl,
        )
