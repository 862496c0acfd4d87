-- ===== src/Rtmq/Subs/Found.antt =====
-- After a link subscribed, a search for its group finds it: rtmq_sub_add of src/clang/lib/rtmq/server/rtmq_comm.c.
use mathlib.Core.Path.{subst}
use beehive_im.Common.{
  ◌+◌, ◌%◌, none, Option, if◌then◌else◌, ℕ, suc, ◌≡◌, ◌≢◌, ◌≤◌, ◌<◌, refl, sym, ap, ◌∙◌, Bool, true,
  false, Bool-cases, Option-cases, some, List, [], ◌∷◌, ◌++◌, arith, inl, inr, ◌==◌, nat_key,
  nat_beq_iff, length, length-append, Occurs, Occurs-append_right,
}
use beehive_im.Table.{lookup, update}
use beehive_im.Table.Laws.{lookup-update}
use beehive_im.Chat.{ok}
use beehive_im.Containers.Avl.{avl_query, avl_trav}
use beehive_im.Containers.Avl.Balance.{Balanced}
use beehive_im.Containers.Vector.{find_entry, vector_find, vector_append}
use beehive_im.Rtmq.Subs.{
  SubNode, SubGroup, SubList, SubTab, Subscriber, group_cmp, rtmq_sub_group_alloc, find_sid,
  write_group, sub_add_node, in_slot, sub_tab_len,
}
use beehive_im.Rtmq.Subs.Place.{
  before, after, trav-query, trav-write_item, query-write_item, write_item-Balanced,
}

abbrev pub All : {A : Type 0} → (A → Type 0) → List A → Type 0
All P [] = Unit {0}
All P (x ∷ xs) = P x × All P xs

pub All-append :
    {A : Type 0} (P : A → Type 0) (xs ys : List A) → All P xs → All P ys → All P (xs ++ ys)
All-append P [] ys a b = b
All-append P (x ∷ xs) ys a b = (a.0, All-append P xs ys a.1 b)

pub All-split :
    {A : Type 0} (P : A → Type 0) (xs ys : List A) → All P (xs ++ ys) → All P xs × All P ys
All-split P [] ys a = (tt, a)
All-split P (x ∷ xs) ys a = let (b, c) = All-split P xs ys a.1 in ((a.0, b), c)

pub All-weaken :
    {A : Type 0} (P Q : A → Type 0) (xs : List A) → All P xs → ((x : A) → P x → Q x) → All Q xs
All-weaken P Q [] a h = tt
All-weaken P Q (x ∷ xs) a h = (h x a.0, All-weaken P Q xs a.1 h)

-- A group of a list has a node, and no more than `n`, in an array that did not grow.
pub record IsGroup (n : ℕ) (g : SubGroup) : Type 0 where
  pub sized : g.nodes.cap ≡ 512
  pub used : 0 < length g.nodes.arr
  pub most : length g.nodes.arr ≤ n

pub record IsSubList (n : ℕ) (list : SubList) : Type 0 where
  pub balanced : Balanced list.root
  pub groups : All (IsGroup n) (avl_trav list.root)
  pub counted : list.num ≡ length (avl_trav list.root)
  pub few : list.num ≤ n

abbrev pub IsSubTab : ℕ → SubTab → Type 0
IsSubTab n sub = (type : ℕ) (list : SubList) → lookup type sub ≡ some list → IsSubList n list

-- A search for the link's group finds one with a node of the link.
abbrev pub Subscribed : SubTab → ℕ → Subscriber → Type 0
Subscribed sub type sck =
    (list : SubList) × (group : SubGroup) × (node : SubNode) × (lookup type sub ≡ some list)
    × (avl_query group_cmp list.root (rtmq_sub_group_alloc sck.gid) ≡ some group)
    × Occurs node group.nodes.arr
    × (node.sid ≡ sck.sid)

find_entry-Occurs :
    {A : Type 0} (find : A → Bool) (arr : List A) (x : A)
    → find_entry find arr ≡ some x
    → Occurs x arr × (find x ≡ true)
unfolding find_entry
find_entry-Occurs find [] x h = absurd (ground (arith, h))
find_entry-Occurs find (y ∷ arr) x h = elim (Bool-cases (find y)) [
  | inl here ↦ let e : x ≡ y = ground (arith, h, here) in (inl e, rw e here)
  | inr on ↦ let (o, t) = find_entry-Occurs find arr x (ground (arith, h, on)) in (inr o, t)
]

-- A list of the table with the group that the search for the link's group finds, which may be new.
pub record Ready (n : ℕ) (sub : SubTab) (type : ℕ) (list : SubList) (sck : Subscriber)
    (group : SubGroup) : Type 0 where
  pub present : lookup type sub ≡ some list
  pub others : (t : ℕ) (l : SubList) → type ≢ t → lookup t sub ≡ some l → IsSubList n l
  pub found : avl_query group_cmp list.root (rtmq_sub_group_alloc sck.gid) ≡ some group
  pub balanced : Balanced list.root
  pub front : All (IsGroup n) (before group_cmp (rtmq_sub_group_alloc sck.gid) list.root)
  pub back : All (IsGroup n) (after group_cmp (rtmq_sub_group_alloc sck.gid) list.root)
  pub sized : group.nodes.cap ≡ 512
  pub most : length group.nodes.arr ≤ n
  pub counted : list.num ≡ length (avl_trav list.root)
  pub few : list.num ≤ suc n

-- No slot holds more than two lists.
abbrev pub Spread : SubTab → Type 0
Spread sub = (slot : ℕ) → in_slot slot sub ≤ 2

-- Where the type has no list, its slot has room for one.
abbrev pub HasSlot : SubTab → ℕ → Type 0
HasSlot sub type = lookup type sub ≡ none → in_slot (type % sub_tab_len) sub < 2

-- What a subscription adds to a slot, by the list that the type had
abbrev pub added_in : ℕ → ℕ → Option SubList → ℕ
added_in slot type none = if type % sub_tab_len == slot then 1 else 0
added_in slot type (some list) = 0

pub in_slot-update :
    (slot type : ℕ) (list : SubList) (sub : SubTab)
    → in_slot slot (update type list sub) ≡ in_slot slot sub
unfolding update
in_slot-update slot type list [] = refl
in_slot-update slot type list ((t, l) ∷ sub) = ground (arith, in_slot-update slot type list sub)

-- What subscribing comes to.
pub record Added (n : ℕ) (sub sub' : SubTab) (type : ℕ) (sck : Subscriber) : Type 0 where
  pub is_tab : IsSubTab (suc n) sub'
  pub subscribed : Subscribed sub' type sck
  pub others : (t : ℕ) → type ≢ t → lookup t sub' ≡ lookup t sub
  pub slots :
      (slot : ℕ) → in_slot slot sub' ≡ in_slot slot sub + added_in slot type (lookup type sub)

more : (n : ℕ) (g : SubGroup) → IsGroup n g → IsGroup (suc n) g
more n g v = record { sized = v.sized; used = v.used; most = omega (arith, v.most) }

more-list : (n : ℕ) (l : SubList) → IsSubList n l → IsSubList (suc n) l
more-list n l v = record {
  balanced = v.balanced;
  groups = All-weaken (IsGroup n) (IsGroup (suc n)) (avl_trav l.root) v.groups (more n);
  counted = v.counted;
  few = omega (arith, v.few);
}

groups_of :
    (n : ℕ) (g : SubGroup) (xs ys : List SubGroup)
    → All (IsGroup n) xs
    → All (IsGroup n) ys
    → IsGroup (suc n) g
    → All (IsGroup (suc n)) (xs ++ (g ∷ ys))
groups_of n g xs ys a b v =
    All-append (IsGroup (suc n)) xs (g ∷ ys)
      (All-weaken (IsGroup n) (IsGroup (suc n)) xs a (more n))
      (v, All-weaken (IsGroup n) (IsGroup (suc n)) ys b (more n))

tab_of :
    (n : ℕ) (sub sub' : SubTab) (type : ℕ) (list : SubList)
    → lookup type sub' ≡ some list
    → ((t : ℕ) (l : SubList) → type ≢ t → lookup t sub ≡ some l → IsSubList n l)
    → ((t : ℕ) → type ≢ t → lookup t sub' ≡ lookup t sub)
    → IsSubList (suc n) list
    → IsSubTab (suc n) sub'
tab_of n sub sub' type list present others kept v t l e = elim (Bool-cases (type == t)) [
  | inl same ↦
      let here : type ≡ t = (nat_beq_iff type t).0 same in
      let it : list ≡ l = ground (arith, present, e, here) in subst (IsSubList (suc n)) it v
  | inr other ↦
      let apart : type ≢ t = λ p. ground (arith, p, other, nat_beq_iff type t) in
      more-list n l (others t l apart (sym (kept t apart) ∙ e))
]

pub same_length :
    (g h : SubGroup) (xs ys : List SubGroup) → length (xs ++ (h ∷ ys)) ≡ length (xs ++ (g ∷ ys))
same_length g h xs ys = omega (arith, length-append xs (g ∷ ys), length-append xs (h ∷ ys))

Occurs-length : {A : Type 0} (x : A) (xs : List A) → Occurs x xs → 0 < length xs
Occurs-length x [] o = absurd o
Occurs-length x (y ∷ xs) o = omega arith

pub sub_add_node-Added :
    (n : ℕ) (moved : Bool) (sub : SubTab) (type : ℕ) (list : SubList) (sck : Subscriber)
    (group : SubGroup)
    → n < 512
    → Ready n sub type list sck group
    → (sub' : SubTab) × (sub_add_node moved sub type list group sck ≡ some (ok, sub'))
      × Added n sub sub' type sck
unfolding sub_add_node vector_find vector_append
sub_add_node-Added n moved sub type list sck group small v =
    let key = rtmq_sub_group_alloc sck.gid in
    let (where_, same) = trav-query group_cmp key list.root group v.found in
    elim (Option-cases (find_entry (find_sid sck.sid) group.nodes.arr)) [
      | inr (x, e) ↦
          let (o, t) = find_entry-Occurs (find_sid sck.sid) group.nodes.arr x e in
          let here : IsGroup (suc n) group = record {
            sized = v.sized;
            used = Occurs-length x group.nodes.arr o;
            most = omega (arith, v.most);
          } in
          (
            sub,
            rw (sub_add_node, e) refl,
            record {
              is_tab =
                  tab_of n sub sub type list v.present v.others (λ t other. refl)
                    (record {
                      balanced = v.balanced;
                      groups = rw where_ (groups_of n group _ _ v.front v.back here);
                      counted = v.counted;
                      few = v.few;
                    });
              subscribed = (list, group, x, v.present, v.found, o, (nat_beq_iff x.sid sck.sid).0 t);
              others = λ t' other. refl;
              slots = λ slot. rw v.present (omega arith);
            },
          )
      | inl e ↦
          let x : SubNode = record { sid = sck.sid; nid = sck.nid } in
          let longer : SubGroup = record group {
            nodes = record group.nodes { arr = group.nodes.arr ++ (x ∷ []) };
          } in
          let list' = write_group sck longer list in
          let sub' = update type list' sub in
          let open_ : (length group.nodes.arr == group.nodes.cap) ≡ false =
            ground (arith, v.most, v.sized, small) in
          let present : lookup type sub' ≡ some list' =
            ground (arith, lookup-update type type list' sub, v.present, nat_beq_iff type type) in
          let kept : (t : ℕ) → type ≢ t → lookup t sub' ≡ lookup t sub =
            λ t other. ground (arith, lookup-update t type list' sub, nat_beq_iff type t, other) in
          let grown = length-append group.nodes.arr (x ∷ []) in
          let here : IsGroup (suc n) longer = record {
            sized = v.sized;
            used = omega (arith, grown);
            most = omega (arith, grown, v.most);
          } in
          (
            sub',
            rw (sub_add_node, e, vector_append, open_) refl,
            record {
              is_tab = tab_of n sub sub' type list' present v.others kept (record {
                balanced = (write_item-Balanced group_cmp key list.root longer v.balanced).0;
                groups =
                    rw (trav-write_item group_cmp key list.root group longer v.found)
                      (groups_of n longer _ _ v.front v.back here);
                counted =
                    v.counted
                    ∙ ap length where_
                    ∙ same_length longer group (before group_cmp key list.root)
                        (after group_cmp key list.root)
                    ∙ sym
                        (ap length (trav-write_item group_cmp key list.root group longer v.found));
                few = v.few;
              });
              subscribed = (
                list',
                longer,
                x,
                present,
                query-write_item group_cmp key list.root group longer v.found same,
                Occurs-append_right x group.nodes.arr (x ∷ []) (inl refl),
                refl,
              );
              others = kept;
              slots = λ slot. rw v.present (omega (arith, in_slot-update slot type list' sub));
            },
          )
    ]
