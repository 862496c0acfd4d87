-- ===== src/Rtmq/Subs/Add.antt =====
-- A subscription is added: rtmq_sub_add of src/clang/lib/rtmq/server/rtmq_comm.c, with the rounds of its `goto`s.
use mathlib.Core.Path.{subst}
use beehive_im.Common.{
  ℕ, suc, ◌+◌, ◌^◌, ◌≡◌, ◌≢◌, ◌≤◌, ◌<◌, refl, sym, ap, ◌∙◌, Bool, true, false, Bool-cases,
  Option-cases, none, some, List, [], ◌∷◌, ◌++◌, arith, inl, inr, if◌then◌else◌, ◌==◌, nat_key,
  nat_beq_iff, length, length-append, ◌⊎◌, ◌%◌, leb,
}
use beehive_im.Table.{lookup, update}
use beehive_im.Table.Laws.{lookup-update, insert-none}
use beehive_im.Chat.{ok, inc64}
use beehive_im.Containers.Avl.{avl_ok, Node, nil, avl_creat, avl_insert_raw, avl_query, avl_trav}
use beehive_im.Containers.Avl.Balance.{Balanced, height, insert_raw-Inserted, Inserted}
use beehive_im.Containers.Avl.Contents.{Gives-some}
use beehive_im.Rtmq.Subs.{
  SubGroup, SubList, SubTab, Subscriber, group_cmp, rtmq_sub_group_alloc, sub_add_group,
  sub_add_list, rtmq_sub_add, in_slot, sub_tab_len,
}
use beehive_im.Rtmq.Subs.Place.{before, after, trav-query, trav-insert_raw}
use beehive_im.Rtmq.Subs.Spine.{never_less, same_gid, avl_insert-finds}
use beehive_im.Rtmq.Subs.Found.{
  All, All-append, All-split, All-weaken, IsGroup, IsSubList, IsSubTab, Ready, Added,
  sub_add_node-Added, in_slot-update, Spread, HasSlot, added_in,
}

-- As IsGroup, but there may be no nodes.
record Sized (n : ℕ) (g : SubGroup) : Type 0 where
  sized : g.nodes.cap ≡ 512
  most : length g.nodes.arr ≤ n

-- How many groups have no nodes
abbrev empties : List SubGroup → ℕ
empties [] = 0
empties (g ∷ gs) = (if length g.nodes.arr == 0 then 1 else 0) + empties gs

empties-append : (xs ys : List SubGroup) → empties (xs ++ ys) ≡ empties xs + empties ys
empties-append [] ys = omega arith
empties-append (x ∷ xs) ys = omega (arith, empties-append xs ys)

empties-used : (n : ℕ) (xs : List SubGroup) → All (IsGroup n) xs → empties xs ≡ 0
empties-used n [] a = refl
empties-used n (x ∷ xs) a = ground (arith, empties-used n xs a.1, a.0.used)

every_used : (n : ℕ) (xs : List SubGroup) → All (Sized n) xs → empties xs ≡ 0 → All (IsGroup n) xs
every_used n [] a e = tt
every_used n (x ∷ xs) a e = (
  record { sized = a.0.sized; used = ground (arith, e); most = a.0.most },
  every_used n xs a.1 (ground (arith, e)),
)

-- Apart from the one that a search found, and has no nodes, the groups of a list have some.
split_used :
    (n : ℕ) (xs ys : List SubGroup) (g : SubGroup)
    → All (Sized n) (xs ++ (g ∷ ys))
    → empties (xs ++ (g ∷ ys)) ≡ 1
    → length g.nodes.arr ≡ 0
    → All (IsGroup n) xs × All (IsGroup n) ys
split_used n xs ys g a e z =
    let (b, c) = All-split (Sized n) xs (g ∷ ys) a in
    let sum : empties xs + empties ys ≡ 0 = ground (arith, empties-append xs (g ∷ ys), e, z) in
    (every_used n xs b (omega (arith, sum)), every_used n ys c.1 (omega (arith, sum)))

insert_ok-Balanced :
    (h : ℕ) (taller : Bool) (t : Node SubGroup) → Inserted h (avl_ok, taller, t) → Balanced t
insert_ok-Balanced h true t g = g.0
insert_ok-Balanced h false t g = g.0

has_size : (n : ℕ) (g : SubGroup) → IsGroup n g → Sized n g
has_size n g v = record { sized = v.sized; most = v.most }

fresh_num :
    (n : ℕ) (list list' : SubList)
    → n < 512
    → IsSubList n list
    → ((list.root ≡ nil) × (list'.num ≡ 1)) ⊎ (list'.num ≡ inc64 list.num)
    → list'.num ≡ suc (length (avl_trav list.root))
unfolding avl_trav
fresh_num n list list' small w (inl (empty, one)) =
    one ∙ ap suc (sym (ap (λ t. length (avl_trav t)) empty))
fresh_num n list list' small w (inr more) = omega (arith, more, w.counted, w.few, small)

fresh_list :
    (n : ℕ) (sub subU : SubTab) (type : ℕ)
    → IsSubTab n sub
    → lookup type subU ≡ some avl_creat
    → ((t : ℕ) → type ≢ t → lookup t subU ≡ lookup t sub)
    → IsSubTab n subU
unfolding avl_trav
fresh_list n sub subU type v here kept t l f = elim (Bool-cases (type == t)) [
  | inl same ↦
      let at : type ≡ t = (nat_beq_iff type t).0 same in
      let it : avl_creat ≡ l = ground (arith, here, f, at) in
      subst (IsSubList n) it
        (record { balanced = tt; groups = tt; counted = refl; few = omega arith })
  | inr other ↦
      let apart : type ≢ t = λ p. ground (arith, p, other, nat_beq_iff type t) in
      v t l (sym (kept t apart) ∙ f)
]

module _ (n : ℕ) (moved : Bool) (sck : Subscriber) (type : ℕ) (small : n < 512)
    (gid : sck.gid < 2 ^ 32) where
  group_known :
      (rounds : ℕ) (sub : SubTab) (list : SubList) (group : SubGroup)
      → avl_query group_cmp list.root (rtmq_sub_group_alloc sck.gid) ≡ some group
      → Ready n sub type list sck group
      → (sub' : SubTab) × (sub_add_group (suc rounds) moved sub type list sck ≡ some (ok, sub'))
        × Added n sub sub' type sck
  unfolding sub_add_group
  group_known rounds sub list group e v =
      rw (sub_add_group, e) (sub_add_node-Added n moved sub type list sck group small v)

  fresh-Ready :
      (sub subU : SubTab) (list list' : SubList) (taller : Bool)
      → IsSubList n list
      → avl_query group_cmp list.root (rtmq_sub_group_alloc sck.gid) ≡ none
      → avl_query group_cmp list'.root (rtmq_sub_group_alloc sck.gid)
        ≡ some (rtmq_sub_group_alloc sck.gid)
      → avl_insert_raw group_cmp (rtmq_sub_group_alloc sck.gid) list.root
        ≡ some (avl_ok, taller, list'.root)
      → lookup type subU ≡ some list'
      → ((t : ℕ) (l : SubList) → type ≢ t → lookup t subU ≡ some l → IsSubList n l)
      → ((list.root ≡ nil) × (list'.num ≡ 1)) ⊎ (list'.num ≡ inc64 list.num)
      → Ready n subU type list' sck (rtmq_sub_group_alloc sck.gid)
  fresh-Ready sub subU list list' taller w e found raw here others counts =
      let key = rtmq_sub_group_alloc sck.gid in
      let xs = before group_cmp key list.root in
      let ys = after group_cmp key list.root in
      let (old, g) = trav-insert_raw group_cmp key list.root e in
      let new_ =
        Gives-some (λ o. avl_trav o.2 ≡ xs ++ (key ∷ ys)) (avl_insert_raw group_cmp key list.root)
          (avl_ok, taller, list'.root) g raw in
      let (where_, same) = trav-query group_cmp key list'.root key found in
      let (o, at, grown) = insert_raw-Inserted group_cmp key list.root w.balanced in
      let it : o ≡ (avl_ok, taller, list'.root) = ground (arith, at, raw) in
      let (a, b) = All-split (IsGroup n) xs ys (rw old at w.groups) in
      let loose = λ (g : SubGroup) (u : IsGroup n g). has_size n g u in
      let all : All (Sized n) (xs ++ (key ∷ ys)) =
        All-append (Sized n) xs (key ∷ ys) (All-weaken (IsGroup n) (Sized n) xs a loose) (
          record { sized = refl; most = omega arith },
          All-weaken (IsGroup n) (Sized n) ys b loose,
        ) in
      let one : empties (xs ++ (key ∷ ys)) ≡ 1 =
        omega (arith, empties-append xs (key ∷ ys), empties-used n xs a, empties-used n ys b) in
      let (front, back) =
        split_used n (before group_cmp key list'.root) (after group_cmp key list'.root) key
          (subst (All (Sized n)) (sym new_ ∙ where_) all) (ap empties (sym where_ ∙ new_) ∙ one)
          refl in
      let longer : suc (length (avl_trav list.root)) ≡ length (avl_trav list'.root) =
        omega (
          arith,
          ap length old,
          ap length new_,
          length-append xs (key ∷ ys),
          length-append xs ys,
        ) in
      let num' = fresh_num n list list' small w counts in
      record {
        present = here;
        others = others;
        found = found;
        balanced =
            insert_ok-Balanced (height list.root) taller list'.root
              (subst (Inserted (height list.root)) it grown);
        front = front;
        back = back;
        sized = refl;
        most = omega arith;
        counted = num' ∙ longer;
        few = omega (arith, num', w.counted, w.few);
      }

  sub_add_group-Added :
      (sub : SubTab) (list : SubList)
      → IsSubTab n sub
      → lookup type sub ≡ some list
      → (sub' : SubTab) × (sub_add_group 2 moved sub type list sck ≡ some (ok, sub'))
        × Added n sub sub' type sck
  unfolding sub_add_group
  sub_add_group-Added sub list v present =
      let key = rtmq_sub_group_alloc sck.gid in
      let w = v type list present in
      elim (Option-cases (avl_query group_cmp list.root key)) [
        | inr (group, e) ↦
            let (where_, same) = trav-query group_cmp key list.root group e in
            let (front, rest) =
              All-split (IsGroup n) (before group_cmp key list.root)
                (group ∷ after group_cmp key list.root) (rw where_ at w.groups) in
            group_known 1 sub list group e (record {
              present = present;
              others = λ t l other. v t l;
              found = e;
              balanced = w.balanced;
              front = front;
              back = rest.1;
              sized = rest.0.sized;
              most = rest.0.most;
              counted = w.counted;
              few = omega (arith, w.few);
            })
        | inl e ↦
            let (list', made, found, taller, raw, counts) =
              avl_insert-finds group_cmp key (same_gid sck.gid gid) (λ g. never_less sck.gid g.gid)
                list e in
            let subU = update type list' sub in
            let kept : (t : ℕ) → type ≢ t → lookup t subU ≡ lookup t sub = λ t other.
              ground (arith, lookup-update t type list' sub, nat_beq_iff type t, other) in
            let here : lookup type subU ≡ some list' =
              ground (arith, lookup-update type type list' sub, present, nat_beq_iff type type) in
            let (sub', e', added) = group_known 0 subU list' key found (
              fresh-Ready sub subU list list' taller w e found raw here
                (λ t l other e. v t l (sym (kept t other) ∙ e)) counts) in
            (
              sub',
              rw (sub_add_group, e, made) e',
              record {
                is_tab = added.is_tab;
                subscribed = added.subscribed;
                others = λ t other. added.others t other ∙ kept t other;
                slots = λ slot. rw present (
                    omega
                      (arith, rw here at (added.slots slot), in_slot-update slot type list' sub));
              },
            )
      ]

  sub_add_list-Added :
      (rounds : ℕ) (sub : SubTab) (list : SubList)
      → IsSubTab n sub
      → lookup type sub ≡ some list
      → (sub' : SubTab) × (sub_add_list (suc rounds) moved sub type sck ≡ some (ok, sub'))
        × Added n sub sub' type sck
  unfolding sub_add_list
  sub_add_list-Added rounds sub list v e = rw (sub_add_list, e) (sub_add_group-Added sub list v e)

spread_on :
    (i type : ℕ) (sub sub' : SubTab)
    → in_slot i sub ≤ 2
    → in_slot (type % sub_tab_len) sub < 2
    → in_slot i sub' ≡ in_slot i sub + (if type % sub_tab_len == i then 1 else 0)
    → in_slot i sub' ≤ 2
spread_on i type sub sub' spread room e = elim (Bool-cases (type % sub_tab_len == i)) [
  | inl this ↦
      let same : type % sub_tab_len ≡ i = (nat_beq_iff (type % sub_tab_len) i).0 this in
      omega (arith, rw same at room, rw this at e)
  | inr other ↦ omega (arith, spread, rw other at e)
]

-- Over a table whose slots have no more than two lists, and room for one of the type, and over lists whose groups have no
-- more than `n` nodes each, and less than their arrays hold, a subscription returns 0 within the rounds of its `goto`s, and
-- does not write beyond a block. A search for the link's group then finds a group with a node of the link, the lists stay
-- sound, those of other messages stay as they were, and only a list that is new takes room in a slot.
pub rtmq_sub_add-Added :
    (n : ℕ) (moved : Bool) (sub : SubTab) (sck : Subscriber) (type : ℕ)
    → n < 512
    → sck.gid < 2 ^ 32
    → IsSubTab n sub
    → Spread sub
    → HasSlot sub type
    → (sub' : SubTab) × (rtmq_sub_add moved sub sck type ≡ some (ok, sub'))
      × Added n sub sub' type sck
      × Spread sub'
unfolding rtmq_sub_add sub_add_list
rtmq_sub_add-Added n moved sub sck type small gid v spread slot =
    elim (Option-cases (lookup type sub)) [
      | inr (list, e) ↦
          let (sub', e', added) = sub_add_list-Added n moved sck type small gid 1 sub list v e in
          (sub', e', added, λ i. omega (arith, spread i, rw e at (added.slots i)))
      | inl e ↦
          let subU : SubTab = (type, avl_creat) ∷ sub in
          let inserted = insert-none type avl_creat sub e in
          let room : leb 2 (in_slot (type % sub_tab_len) sub) ≡ false = ground (arith, slot e) in
          let kept : (t : ℕ) → type ≢ t → lookup t subU ≡ lookup t sub =
            λ t other. unfold lookup in ground (arith, nat_beq_iff type t, other) in
          let here : lookup type subU ≡ some avl_creat =
            unfold lookup in ground (arith, nat_beq_iff type type) in
          let u : IsSubTab n subU = λ t l f. fresh_list n sub subU type v here kept t l f in
          let (sub', e', added) =
            sub_add_list-Added n moved sck type small gid 0 subU avl_creat u here in
          let more : (i : ℕ) → in_slot i sub' ≡ in_slot i sub + added_in i type none =
            λ i. omega (arith, rw here at (added.slots i)) in
          (
            sub',
            rw (rtmq_sub_add, sub_add_list, e, room, inserted) e',
            record {
              is_tab = added.is_tab;
              subscribed = added.subscribed;
              others = λ t other. added.others t other ∙ kept t other;
              slots = λ i. rw e (more i);
            },
            λ i. spread_on i type sub sub' (spread i) (slot e) (more i),
          )
    ]
