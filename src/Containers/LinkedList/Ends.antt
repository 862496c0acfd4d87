-- ===== src/Containers/LinkedList/Ends.antt =====
-- Pushing and popping at the ends of a linked list: src/clang/lib/core/list.c.
use beehive_im.Common.{
  ℕ, suc, ◌+◌, ◌-◌, ◌%◌, ◌^◌, ◌≡◌, ◌≢◌, Option, none, some, List, [], ◌∷◌, ◌++◌, map, ◌==◌, nat_key,
  nat_beq_iff, arith, refl, length, length-append, ap, sym, true, false,
}
use beehive_im.Containers.LinkedList.{
  Node, LinkedList, list_creat, list_lpush, list_rpush, list_lpop, list_rpop, list_rpop_loop,
}
use beehive_im.Containers.LinkedList.Chain.{
  IsList, contents, Free, Apart, last_of, last-Free, last-nonzero, link_last-append, last-append,
  Apart-append, map-append,
}

module _ {A : Type 0} where
  abbrev fresh : ℕ → A → Node A
  fresh at x = record { address = at; data_ptr = x }

  pub list_creat-IsList : IsList (list_creat {A = A})
  list_creat-IsList = record { counted = refl; ends = refl; apart = tt }

  -- The specification of the pops: the data taken, and what is left.
  unfoldable pub pop_first : List A → Option A × List A
  pop_first [] = (none, [])
  pop_first (x ∷ xs) = (some x, xs)

  unfoldable pub pop_last : List A → Option A × List A
  pop_last [] = (none, [])
  pop_last (x ∷ []) = (some x, [])
  pop_last (x ∷ y ∷ xs) = let (last, rest) = pop_last (y ∷ xs) in (last, x ∷ rest)

  module _ (n t at : ℕ) (x : A) (some_at : at ≢ 0) where
    lpush_lem :
        (nodes : List (Node A))
        → IsList (record { num = n; nodes = nodes; tail = t })
        → Free at nodes
        → IsList (list_lpush (record { num = n; nodes = nodes; tail = t }) at x)
          × (contents (list_lpush (record { num = n; nodes = nodes; tail = t }) at x)
              ≡ x ∷ map (λ (m : Node A). m.data_ptr) nodes)
    unfolding list_lpush
    lpush_lem [] v free = (record { counted = refl; ends = refl; apart = (some_at, tt, tt) }, refl)
    lpush_lem (node ∷ nodes) v free = (
      record {
        counted = omega (arith, v.counted);
        ends = v.ends;
        apart = (some_at, free, v.apart);
      },
      refl,
    )

    rpush_lem :
        (nodes : List (Node A))
        → IsList (record { num = n; nodes = nodes; tail = t })
        → Free at nodes
        → (list' : LinkedList A) × (list_rpush (record { num = n; nodes = nodes; tail = t }) at x
            ≡ some list')
          × IsList list'
          × (contents list' ≡ map (λ (m : Node A). m.data_ptr) nodes ++ (x ∷ []))
    unfolding list_rpush
    rpush_lem [] v free = (
      record { num = 1; nodes = fresh at x ∷ []; tail = at },
      rw (v.ends, list_rpush) refl,
      record { counted = refl; ends = refl; apart = (some_at, tt, tt) },
      refl,
    )
    rpush_lem (node ∷ nodes) v free = (
      record { num = (n + 1) % 2 ^ 32; nodes = (node ∷ nodes) ++ (fresh at x ∷ []); tail = at },
      ground (
        arith,
        v.ends,
        last-nonzero node nodes v.apart,
        link_last-append (fresh at x) node nodes v.apart,
        nat_beq_iff t 0,
      ),
      record {
        counted = omega (arith, v.counted, length-append nodes (fresh at x ∷ []));
        ends = sym (last-append (fresh at x) (node ∷ nodes));
        apart = Apart-append (fresh at x) (node ∷ nodes) v.apart free some_at;
      },
      map-append (fresh at x) (node ∷ nodes),
    )

  module _ (n t : ℕ) where
    lpop_lem :
        (nodes : List (Node A))
        → IsList (record { num = n; nodes = nodes; tail = t })
        → IsList (list_lpop (record { num = n; nodes = nodes; tail = t })).1
          × ((
            (list_lpop (record { num = n; nodes = nodes; tail = t })).0,
            contents (list_lpop (record { num = n; nodes = nodes; tail = t })).1,
          )
              ≡ pop_first (map (λ (m : Node A). m.data_ptr) nodes))
    unfolding list_lpop pop_first
    lpop_lem [] v = (v, refl)
    lpop_lem (node ∷ []) v =
        let same : (node.address == t) ≡ true =
          ground (arith, v.ends, nat_beq_iff node.address t) in
        rw (list_lpop, same) (list_creat-IsList, refl)
    lpop_lem (node ∷ next ∷ nodes) v =
        let other : (node.address == t) ≡ false = ground (
          arith,
          v.ends,
          last-Free node.address next nodes v.apart.1,
          nat_beq_iff node.address t,
        ) in
        rw (list_lpop, other)
          (record { counted = omega (arith, v.counted); ends = v.ends; apart = v.apart.2 }, refl)

  -- The loop of `list_rpop` ends at the node before the last.
  rpop_loop_lem :
      (t : ℕ) (prev next : Node A) (nodes : List (Node A))
      → t ≡ last_of (next ∷ nodes)
      → Apart (prev ∷ next ∷ nodes)
      → (rest : List (Node A)) × (x : A) × (list_rpop_loop t prev (next ∷ nodes)
          ≡ some (prev ∷ rest, (x, last_of (prev ∷ rest))))
        × (length rest ≡ length nodes)
        × Apart (prev ∷ rest)
        × ((at : ℕ) → Free at (prev ∷ next ∷ nodes) → Free at (prev ∷ rest))
        × (pop_last (prev.data_ptr ∷ next.data_ptr ∷ map (λ (m : Node A). m.data_ptr) nodes)
            ≡ (some x, prev.data_ptr ∷ map (λ (m : Node A). m.data_ptr) rest))
  unfolding list_rpop_loop pop_last
  rpop_loop_lem t prev next [] ends a = (
    [],
    next.data_ptr,
    ground (arith, nat_beq_iff next.address t),
    refl,
    (a.0, tt, tt),
    λ at f. (f.0, tt),
    refl,
  )
  rpop_loop_lem t prev next (third ∷ nodes) ends a =
      let (rest, x, run, same, apart, free, popped) = rpop_loop_lem t next third nodes ends a.2 in
      let more : (next.address == t) ≡ false =
        ground
          (arith, ends, last-Free next.address third nodes a.2.1, nat_beq_iff next.address t) in
      (
        next ∷ rest,
        x,
        rw (list_rpop_loop, more, run) refl,
        ap suc same,
        (a.0, free prev.address a.1, apart),
        λ at f. (f.0, free at f.1),
        ap (λ (r : Option A × List A). (r.0, prev.data_ptr ∷ r.1)) popped,
      )

  rpop_lem :
      (n t : ℕ) (nodes : List (Node A))
      → IsList (record { num = n; nodes = nodes; tail = t })
      → (o : Option A) × (list' : LinkedList A) × (list_rpop
            (record { num = n; nodes = nodes; tail = t })
          ≡ some (o, list'))
        × IsList list'
        × ((o, contents list') ≡ pop_last (map (λ (m : Node A). m.data_ptr) nodes))
  unfolding list_rpop pop_last
  rpop_lem n t [] v = (none, _, refl, v, refl)
  rpop_lem n t (node ∷ []) v =
      let same : (node.address == t) ≡ true = ground (arith, v.ends, nat_beq_iff node.address t) in
      (some node.data_ptr, list_creat, rw (list_rpop, same) refl, list_creat-IsList, refl)
  rpop_lem n t (node ∷ next ∷ nodes) v =
      let other : (node.address == t) ≡ false =
        ground (
          arith,
          v.ends,
          last-Free node.address next nodes v.apart.1,
          nat_beq_iff node.address t,
        ) in
      let (rest, x, run, same, apart, _, popped) = rpop_loop_lem t node next nodes v.ends v.apart in
      (
        some x,
        record {
          num = (n + (2 ^ 32 - 1)) % 2 ^ 32;
          nodes = node ∷ rest;
          tail = last_of (node ∷ rest);
        },
        rw (list_rpop, other, run) refl,
        record { counted = omega (arith, v.counted, same); ends = refl; apart = apart },
        sym popped,
      )

  -- In a well-formed list, a push at the head, with a new node's address, puts the data before those of the list.
  pub list_lpush-contents :
      (list : LinkedList A) (at : ℕ) (x : A)
      → IsList list
      → at ≢ 0
      → Free at list.nodes
      → IsList (list_lpush list at x) × (contents (list_lpush list at x) ≡ x ∷ contents list)
  list_lpush-contents list at x v some_at free =
      lpush_lem list.num list.tail at x some_at list.nodes v free

  -- In a well-formed list, a push at the tail, with a new node's address, succeeds and puts the data behind those of the list.
  pub list_rpush-contents :
      (list : LinkedList A) (at : ℕ) (x : A)
      → IsList list
      → at ≢ 0
      → Free at list.nodes
      → (list' : LinkedList A) × (list_rpush list at x ≡ some list')
        × IsList list'
        × (contents list' ≡ contents list ++ (x ∷ []))
  list_rpush-contents list at x v some_at free =
      rpush_lem list.num list.tail at x some_at list.nodes v free

  -- In a well-formed list, a pop at the head gives the first of the data, or NULL for an empty list, and leaves the others.
  pub list_lpop-contents :
      (list : LinkedList A)
      → IsList list
      → IsList (list_lpop list).1
        × (((list_lpop list).0, contents (list_lpop list).1) ≡ pop_first (contents list))
  list_lpop-contents list v = lpop_lem list.num list.tail list.nodes v

  -- In a well-formed list, a pop at the tail ends; it gives the last of the data, or NULL for an empty list, and leaves the others.
  pub list_rpop-contents :
      (list : LinkedList A)
      → IsList list
      → (o : Option A) × (list' : LinkedList A) × (list_rpop list ≡ some (o, list'))
        × IsList list'
        × ((o, contents list') ≡ pop_last (contents list))
  list_rpop-contents list v = rpop_lem list.num list.tail list.nodes v
