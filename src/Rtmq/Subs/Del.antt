-- ===== src/Rtmq/Subs/Del.antt =====
-- A subscription is taken back: rtmq_sub_del of src/clang/lib/rtmq/server/rtmq_comm.c.
use mathlib.Core.Path.{subst}
use Prim.Native.Nat.Ordering.{eq}
use beehive_im.Common.{
  ℕ, suc, ◌+◌, ◌≡◌, ◌≢◌, ◌≤◌, ◌⊎◌, refl, sym, ap, ◌∙◌, Bool, true, false, Bool-cases, Option,
  Option-cases, none, some, List, [], ◌∷◌, ◌++◌, arith, inl, inr, if◌then◌else◌, ◌==◌, nat_key,
  nat_beq_iff, length, length-append, Occurs,
}
use beehive_im.Table
use beehive_im.Table.{lookup, update}
use beehive_im.Table.Laws.{lookup-update, lookup-delete}
use beehive_im.Chat.{dec64}
use beehive_im.Containers.Avl.{Node, avl_delete, avl_delete_raw, avl_query, avl_trav}
use beehive_im.Containers.Avl.Balance.{Balanced, height}
use beehive_im.Containers.Avl.Lower.{Shrunk, delete_raw-Shrunk}
use beehive_im.Containers.Avl.Contents.{Gives-some, Same}
use beehive_im.Containers.Vector.{Vector, vector_find_and_del, entry_index}
use beehive_im.Containers.Vector.Take.{tally, vector_find_and_del-tally}
use beehive_im.Rtmq.Compare.{rtmq_sub_group_cmp_cb}
use beehive_im.Rtmq.Subs.{
  SubNode, SubGroup, SubList, SubTab, Subscriber, group_cmp, rtmq_sub_group_alloc, find_sid,
  write_item, write_group, sub_drop_group, unlocked, rtmq_sub_del,
}
use beehive_im.Rtmq.Subs.Place.{
  before, after, trav-query, trav-write_item, query-write_item, sides-write_item,
  write_item-Balanced, trav-delete_raw,
}
use beehive_im.Rtmq.Subs.Found.{
  All-append, All-split, IsGroup, IsSubList, IsSubTab, Spread, Subscribed, same_length,
}

-- How many nodes of a session the groups hold.
abbrev pub nodes_of : ℕ → List SubGroup → ℕ
nodes_of sid [] = 0
nodes_of sid (g ∷ gs) = tally (find_sid sid) g.nodes.arr + nodes_of sid gs

nodes_of-append :
    (sid : ℕ) (xs ys : List SubGroup) → nodes_of sid (xs ++ ys) ≡ nodes_of sid xs + nodes_of sid ys
nodes_of-append sid [] ys = omega arith
nodes_of-append sid (x ∷ xs) ys = omega (arith, nodes_of-append sid xs ys)

-- How many nodes of a session subscribe to a message.
pub subs_of : SubTab → ℕ → ℕ → ℕ
subs_of sub type sid = elim (lookup type sub) [
  | none ↦ 0
  | some list ↦ nodes_of sid (avl_trav list.root)
]

Shrunk-Balanced : (h : ℕ) (b : Bool) (t : Node SubGroup) → Shrunk h b t → Balanced t
Shrunk-Balanced h true t s = s.0
Shrunk-Balanced h false t s = s.0

-- A list that a group was found in, with one node less in the group.
record Less (n : ℕ) (sub : SubTab) (type : ℕ) (list : SubList) (sck : Subscriber)
    (group short : SubGroup) : Type 0 where
  present : lookup type sub ≡ some list
  found : avl_query group_cmp list.root (rtmq_sub_group_alloc sck.gid) ≡ some group
  gid : short.gid ≡ group.gid
  sized : short.nodes.cap ≡ 512
  fewer : suc (length short.nodes.arr) ≡ length group.nodes.arr
  taken :
      (sid : ℕ)
      → tally (find_sid sid) short.nodes.arr + (if sck.sid == sid then 1 else 0)
        ≡ tally (find_sid sid) group.nodes.arr

subs_of-alike :
    (sub sub' : SubTab) (t sid : ℕ)
    → lookup t sub' ≡ lookup t sub
    → subs_of sub' t sid ≡ subs_of sub t sid
unfolding subs_of
subs_of-alike sub sub' t sid e = rw (subs_of, e) refl

-- What unsubscribing comes to.
pub record Dropped (n : ℕ) (sub sub' : SubTab) (type : ℕ) (sck : Subscriber) : Type 0 where
  pub is_tab : IsSubTab n sub'
  pub less :
      (sid : ℕ) → subs_of sub' type sid + (if sck.sid == sid then 1 else 0) ≡ subs_of sub type sid
  pub others : (t : ℕ) → type ≢ t → lookup t sub' ≡ lookup t sub

update-Dropped :
    (n : ℕ) (sub : SubTab) (type : ℕ) (list list' : SubList) (sck : Subscriber)
    → IsSubTab n sub
    → lookup type sub ≡ some list
    → IsSubList n list'
    → ((sid : ℕ)
        → nodes_of sid (avl_trav list'.root) + (if sck.sid == sid then 1 else 0)
          ≡ nodes_of sid (avl_trav list.root))
    → Dropped n sub (update type list' sub) type sck
unfolding subs_of
update-Dropped n sub type list list' sck v e w less =
    let sub' = update type list' sub in
    let here : lookup type sub' ≡ some list' =
      ground (arith, lookup-update type type list' sub, e, nat_beq_iff type type) in
    record {
      is_tab = λ t l f. elim (Bool-cases (type == t)) [
        | inl same ↦
            let it : list' ≡ l = ground (arith, here, f, nat_beq_iff type t, same) in
            subst (IsSubList n) it w
        | inr other ↦ v t l (ground (arith, lookup-update t type list' sub, f, other))
      ];
      less = λ sid. rw (subs_of, here, e) (less sid);
      others = λ t other. ground (arith, lookup-update t type list' sub, nat_beq_iff type t, other);
    }

delete-Dropped :
    (n : ℕ) (sub : SubTab) (type : ℕ) (list : SubList) (sck : Subscriber)
    → IsSubTab n sub
    → lookup type sub ≡ some list
    → ((sid : ℕ) → (if sck.sid == sid then 1 else 0) ≡ nodes_of sid (avl_trav list.root))
    → Dropped n sub (Table.delete type sub) type sck
unfolding subs_of
delete-Dropped n sub type list sck v e less =
    let sub' = Table.delete type sub in
    let gone : lookup type sub' ≡ none =
      ground (arith, lookup-delete type type sub, nat_beq_iff type type) in
    record {
      is_tab = λ t l f. v t l (ground (arith, lookup-delete t type sub, f));
      less = λ sid. rw (subs_of, gone, e) (omega (arith, less sid));
      others = λ t other. ground (arith, lookup-delete t type sub, nat_beq_iff type t, other);
    }

-- The list without the group, once that has no nodes any more
without_group :
    (n : ℕ) (list : SubList) (sck : Subscriber) (group short : SubGroup)
    → n ≤ 512
    → IsSubList n list
    → avl_query group_cmp list.root (rtmq_sub_group_alloc sck.gid) ≡ some group
    → short.gid ≡ group.gid
    → (list' : SubList) × (x : SubGroup) × (avl_delete group_cmp
          (write_group sck short list)
          (rtmq_sub_group_alloc sck.gid)
        ≡ some (some x, list'))
      × (avl_trav list'.root
          ≡ before group_cmp (rtmq_sub_group_alloc sck.gid) list.root
            ++ after group_cmp (rtmq_sub_group_alloc sck.gid) list.root)
      × Balanced list'.root
      × (suc list'.num ≡ list.num)
unfolding avl_delete
without_group n list sck group short small w found gid =
    let key = rtmq_sub_group_alloc sck.gid in
    let root = write_item group_cmp key short list.root in
    let (where_, same) = trav-query group_cmp key list.root group found in
    let alike : group_cmp key short ≡ eq = ap (λ h. rtmq_sub_group_cmp_cb sck.gid h) gid ∙ same in
    let f = query-write_item group_cmp key list.root group short found alike in
    let g = trav-delete_raw group_cmp key root short f in
    let (d, t, b, e, s) =
      delete_raw-Shrunk group_cmp key root
        (write_item-Balanced group_cmp key list.root short w.balanced).0 in
    let it = Gives-some (Same (some short) _) (avl_delete_raw group_cmp key root) (d, b, t) g e in
    let trav_is = trav-write_item group_cmp key list.root group short found in
    let (front, back) = sides-write_item group_cmp key list.root group short found alike in
    (
      record { num = dec64 list.num; root = t },
      short,
      rw (avl_delete, e, it.0) refl,
      it.1
          ∙ ap (λ zs. zs ++ after group_cmp key root) front
          ∙ ap (λ zs. before group_cmp key list.root ++ zs) back,
      Shrunk-Balanced (height root) b t s,
      omega (
        arith,
        w.counted,
        w.few,
        small,
        ap length where_,
        length-append (before group_cmp key list.root) (group ∷ after group_cmp key list.root),
      ),
    )

tally_none : {A : Type 0} (p : A → Bool) (xs : List A) → length xs ≡ 0 → tally p xs ≡ 0
tally_none p [] e = refl
tally_none p (x ∷ xs) e = absurd (omega (arith, e))

no_nodes : (sid : ℕ) (gs : List SubGroup) → length gs ≡ 0 → nodes_of sid gs ≡ 0
no_nodes sid [] e = refl
no_nodes sid (x ∷ xs) e = absurd (omega (arith, e))

sub_drop_group-Dropped :
    (n : ℕ) (sub : SubTab) (type : ℕ) (list : SubList) (sck : Subscriber) (group short : SubGroup)
    → n ≤ 512
    → IsSubTab n sub
    → Less n sub type list sck group short
    → (sub' : SubTab) × (sub_drop_group sub type list short sck ≡ some sub')
      × Dropped n sub sub' type sck
unfolding sub_drop_group
sub_drop_group-Dropped n sub type list sck group short small v l =
    let key = rtmq_sub_group_alloc sck.gid in
    let w = v type list l.present in
    let (where_, same) = trav-query group_cmp key list.root group l.found in
    let xs = before group_cmp key list.root in
    let ys = after group_cmp key list.root in
    let (front, rest) = All-split (IsGroup n) xs (group ∷ ys) (rw where_ at w.groups) in
    let written = trav-write_item group_cmp key list.root group short l.found in
    let all : (sid : ℕ)
        → nodes_of sid (avl_trav list.root)
          ≡ nodes_of sid xs + (tally (find_sid sid) group.nodes.arr + nodes_of sid ys) =
      λ sid. ap (nodes_of sid) where_ ∙ nodes_of-append sid xs (group ∷ ys) in
    elim (Bool-cases (length short.nodes.arr == 0)) [
      | inr some_ ↦ (
        update type (write_group sck short list) sub,
        rw (sub_drop_group, some_) refl,
        update-Dropped n sub type list (write_group sck short list) sck v l.present
            (record {
              balanced = (write_item-Balanced group_cmp key list.root short w.balanced).0;
              groups = rw written (
                  All-append (IsGroup n) xs (short ∷ ys) front (
                    record {
                      sized = l.sized;
                      used = ground (arith, some_);
                      most = omega (arith, l.fewer, rest.0.most);
                    },
                    rest.1,
                  ));
              counted =
                  w.counted
                  ∙ ap length where_
                  ∙ same_length short group xs ys
                  ∙ sym (ap length written);
              few = w.few;
            })
            (λ sid. omega (
              arith,
              all sid,
              ap (nodes_of sid) written,
              nodes_of-append sid xs (short ∷ ys),
              l.taken sid,
            )),
      )
      | inl empty ↦
          let (list', x, e, left, balanced, num) =
            without_group n list sck group short small w l.found l.gid in
          let none_of : (sid : ℕ) → tally (find_sid sid) short.nodes.arr ≡ 0 =
            λ sid. tally_none (find_sid sid) short.nodes.arr (ground (arith, empty)) in
          let less : (sid : ℕ)
              → nodes_of sid (avl_trav list'.root) + (if sck.sid == sid then 1 else 0)
                ≡ nodes_of sid (avl_trav list.root) =
            λ sid. omega (
              arith,
              all sid,
              ap (nodes_of sid) left,
              nodes_of-append sid xs ys,
              l.taken sid,
              none_of sid,
            ) in
          let sizes : length (avl_trav list.root) ≡ suc (length (avl_trav list'.root)) = omega (
            arith,
            ap length where_,
            ap length left,
            length-append xs (group ∷ ys),
            length-append xs ys,
          ) in
          elim (Bool-cases (list'.num == 0)) [
            | inl last ↦ (
              Table.delete type sub,
              rw (sub_drop_group, empty, e, last) refl,
              delete-Dropped n sub type list sck v l.present (λ sid. omega (
                arith,
                less sid,
                no_nodes sid (avl_trav list'.root) (ground (arith, last, num, sizes, w.counted)),
              )),
            )
            | inr more ↦ (
              update type list' sub,
              rw (sub_drop_group, empty, e, more) refl,
              update-Dropped n sub type list list' sck v l.present
                  (record {
                    balanced = balanced;
                    groups = rw left (All-append (IsGroup n) xs ys front rest.1);
                    counted = omega (arith, num, sizes, w.counted);
                    few = omega (arith, num, w.few);
                  })
                  less,
            )
          ]
    ]

subscribed_at :
    (sub : SubTab) (type : ℕ) (sck : Subscriber) (list : SubList)
    → lookup type sub ≡ some list
    → Subscribed sub type sck
    → (group : SubGroup) × (node : SubNode) × (avl_query group_cmp list.root
          (rtmq_sub_group_alloc sck.gid)
        ≡ some group)
      × Occurs node group.nodes.arr
      × (node.sid ≡ sck.sid)
subscribed_at sub type sck list e (l, group, node, f, q, o, t) =
    let it : l ≡ list = ground (arith, e, f) in
    (
      group,
      node,
      subst (λ m. avl_query group_cmp m.root (rtmq_sub_group_alloc sck.gid) ≡ some group) it q,
      o,
      t,
    )

tally-Occurs :
    (sid : ℕ) (x : SubNode) (arr : List SubNode)
    → Occurs x arr
    → x.sid ≡ sid
    → tally (find_sid sid) arr ≡ 0
    → ⊥
tally-Occurs sid x [] o t e = o
tally-Occurs sid x (y ∷ arr) (inl same) t e =
    let it : y.sid ≡ sid = ap (λ z. z.sid) (sym same) ∙ t in
    ground (arith, e, nat_beq_iff y.sid sid, it)
tally-Occurs sid x (y ∷ arr) (inr o) t e = tally-Occurs sid x arr o t (ground (arith, e))

del_at :
    (sub : SubTab) (sck : Subscriber) (type : ℕ) (list : SubList) (group : SubGroup) (x : SubNode)
    (nodes : Vector SubNode) {o : Option SubTab}
    → lookup type sub ≡ some list
    → avl_query group_cmp list.root (rtmq_sub_group_alloc sck.gid) ≡ some group
    → vector_find_and_del group.nodes (find_sid sck.sid) ≡ (some x, nodes)
    → sub_drop_group sub type list (record group { nodes = nodes }) sck ≡ o
    → rtmq_sub_del sub sck type ≡ unlocked o
unfolding rtmq_sub_del
del_at sub sck type list group x nodes e f g h = rw (rtmq_sub_del, e, f, g) (ap unlocked h)

cap-find_and_del :
    (find : SubNode → Bool) (vec : Vector SubNode) → (vector_find_and_del vec find).1.cap ≡ vec.cap
unfolding vector_find_and_del
cap-find_and_del find vec = elim (Option-cases (entry_index find vec.arr)) [
  | inl e ↦ rw (vector_find_and_del, e) refl
  | inr (idx, e) ↦ rw (vector_find_and_del, e) refl
]

-- The type has a list, but not for the link's group.
abbrev pub Missing : SubTab → ℕ → Subscriber → Type 0
Missing sub type sck =
    (list : SubList) × (lookup type sub ≡ some list)
    × (avl_query group_cmp list.root (rtmq_sub_group_alloc sck.gid) ≡ none)

-- Either nothing changes, and then the lock is kept just where the group is missing, or a node goes.
pub sub_del-cases :
    (n : ℕ) (sub : SubTab) (sck : Subscriber) (type : ℕ)
    → n ≤ 512
    → IsSubTab n sub
    → ((held : Bool) × (rtmq_sub_del sub sck type ≡ some (held, sub))
        × (Subscribed sub type sck → ⊥)
        × (held ≡ true → Missing sub type sck)
        × (Missing sub type sck → held ≡ true))
      ⊎ ((sub' : SubTab) × (rtmq_sub_del sub sck type ≡ some (false, sub'))
          × Dropped n sub sub' type sck)
unfolding rtmq_sub_del
sub_del-cases n sub sck type small v = elim (Option-cases (lookup type sub)) [
  | inl e ↦ inl (
    false,
    rw (rtmq_sub_del, e) refl,
    λ s. ground (arith, s.3, e),
    λ h. absurd (ground (arith, h)),
    λ m. absurd (ground (arith, m.1, e)),
  )
  | inr (list, e) ↦
      elim (Option-cases (avl_query group_cmp list.root (rtmq_sub_group_alloc sck.gid))) [
        | inl f ↦ inl (
          true,
          rw (rtmq_sub_del, e, f) refl,
          λ s. let (h, y, k, o, t) = subscribed_at sub type sck list e s in ground (arith, k, f),
          λ h. (list, e, f),
          λ m. refl,
        )
        | inr (group, f) ↦ elim (vector_find_and_del-tally (find_sid sck.sid) group.nodes) [
          | inl (g, absent) ↦ inl (
            false,
            rw (rtmq_sub_del, e, f, g) refl,
            λ s.
                let (h, y, k, o, t) = subscribed_at sub type sck list e s in
                let it : group ≡ h = ground (arith, f, k) in
                tally-Occurs sck.sid y group.nodes.arr
                  (subst (λ g. Occurs y g.nodes.arr) (sym it) o) t absent,
            λ h. absurd (ground (arith, h)),
            λ m.
                let it : list ≡ m.0 = ground (arith, e, m.1) in
                absurd (ground (arith, f, rw (sym it) at m.2)),
          )
          | inr (x, nodes, g, own, fewer, tallies) ↦
              let short : SubGroup = record group { nodes = nodes } in
              let (where_, same) =
                trav-query group_cmp (rtmq_sub_group_alloc sck.gid) list.root group f in
              let (front, rest) =
                All-split (IsGroup n) (before group_cmp (rtmq_sub_group_alloc sck.gid) list.root)
                  (group ∷ after group_cmp (rtmq_sub_group_alloc sck.gid) list.root)
                  (rw where_ at (v type list e).groups) in
              let cap : nodes.cap ≡ 512 =
                ap (λ (o : Option SubNode × Vector SubNode). o.1.cap) (sym g)
                ∙ cap-find_and_del (find_sid sck.sid) group.nodes
                ∙ rest.0.sized in
              let its : x.sid ≡ sck.sid = (nat_beq_iff x.sid sck.sid).0 own in
              let (sub', made, dropped) =
                sub_drop_group-Dropped n sub type list sck group short small v (record {
                  present = e;
                  found = f;
                  gid = refl;
                  sized = cap;
                  fewer = fewer;
                  taken = λ sid. rw its at (tallies (find_sid sid));
                }) in
              inr (sub', del_at sub sck type list group x nodes e f g made, dropped)
        ]
      ]
]

-- Over a table whose slots have no more than two lists, a subscription is taken back without a step through NULL, and the
-- lists stay sound. It changes nothing where the search for the link's group finds none, or one without a node of the
-- link; the first of these, and no other case, returns with the write lock of the list's slot still held. Else it takes
-- just one node of the link out of the list of the message. The lists of other messages stay as they were.
pub rtmq_sub_del-Dropped :
    (n : ℕ) (sub : SubTab) (sck : Subscriber) (type : ℕ)
    → n ≤ 512
    → IsSubTab n sub
    → Spread sub
    → ((held : Bool) × (rtmq_sub_del sub sck type ≡ some (held, sub))
        × (Subscribed sub type sck → ⊥)
        × (held ≡ true → Missing sub type sck)
        × (Missing sub type sck → held ≡ true))
      ⊎ ((sub' : SubTab) × (rtmq_sub_del sub sck type ≡ some (false, sub'))
          × Dropped n sub sub' type sck)
rtmq_sub_del-Dropped n sub sck type small v spread = sub_del-cases n sub sck type small v

-- Other links lose no node when a link takes a subscription back.
pub Dropped-others :
    (n : ℕ) (sub sub' : SubTab) (type : ℕ) (sck : Subscriber)
    → Dropped n sub sub' type sck
    → (t sid : ℕ) → sck.sid ≢ sid
    → subs_of sub' t sid ≡ subs_of sub t sid
Dropped-others n sub sub' type sck d t sid other = elim (Bool-cases (type == t)) [
  | inl same ↦
      let here : type ≡ t = (nat_beq_iff type t).0 same in
      let less = d.less sid in
      let there : subs_of sub' type sid ≡ subs_of sub type sid =
        ground (arith, less, other, nat_beq_iff sck.sid sid) in
      subst (λ z. subs_of sub' z sid ≡ subs_of sub z sid) here there
  | inr apart ↦
      subs_of-alike sub sub' t sid (d.others t (λ e. ground (arith, e, apart, nat_beq_iff type t)))
]
