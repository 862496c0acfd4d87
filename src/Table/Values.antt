-- ===== src/Table/Values.antt =====
-- The values of a table against what a look-up finds.
use beehive_im.Common.{
  ◌≡◌, some, List, [], ◌∷◌, map, Key, ◌==◌, arith, Occurs, inl, inr, Bool-cases,
}
use beehive_im.Table.{Table, lookup, Distinct}

abbrev pub values : {K V : Type 0} → Table K V → List V
values = map (λ e. e.1)

module _ {K V : Type 0} ⦃key : Key K⦄ where
  pub lookup-Occurs : (k : K) (x : V) (m : Table K V) → lookup k m ≡ some x → Occurs x (values m)
  unfolding lookup
  lookup-Occurs k x [] h = cc
  lookup-Occurs k x ((j, w) ∷ m) h = elim (Bool-cases (j == k)) [
    | inl same ↦ inl (ground (arith, h, same))
    | inr other ↦ inr (lookup-Occurs k x m (ground (arith, h, other)))
  ]

  pub Occurs-lookup :
      (x : V) (m : Table K V) → Distinct m → Occurs x (values m) → (k : K) × (lookup k m ≡ some x)
  unfolding lookup
  Occurs-lookup x [] d h = absurd h
  Occurs-lookup x ((j, w) ∷ m) d (inl e) = (j, ground (arith, key.beq_iff j j))
  Occurs-lookup x ((j, w) ∷ m) d (inr h) =
      let (k, f) = Occurs-lookup x m d.1 h in (k, ground (arith, f, d.0, key.beq_iff j k))
