-- ===== src/Table.antt =====
-- A keyed table as its list of entries.
pub mod Laws
pub mod Values
use beehive_im.Common.{
  ℕ, ◌+◌, ◌≡◌, Bool, true, false, Option, none, some, List, [], ◌∷◌, if◌then◌else◌, Key, ◌==◌,
}

abbrev pub Table : Type 0 → Type 0 → Type 0
Table K V = List (K × V)

module _ {K V : Type 0} ⦃key : Key K⦄ where
  unfoldable pub lookup : K → Table K V → Option V
  lookup k [] = none
  lookup k ((j, v) ∷ m) = if j == k then some v else lookup k m

  -- Refused, `none`, when the key is there.
  unfoldable pub insert : K → V → Table K V → Option (Table K V)
  insert k v m = elim (lookup k m) [ none ↦ some ((k, v) ∷ m) | some _ ↦ none ]

  -- A write through the pointer that a query returned.
  unfoldable pub update : K → V → Table K V → Table K V
  update k v [] = []
  update k v ((j, w) ∷ m) = if j == k then (j, v) ∷ m else (j, w) ∷ update k v m

  unfoldable pub delete : K → Table K V → Table K V
  delete k [] = []
  delete k ((j, w) ∷ m) = let rest = delete k m in if j == k then rest else (j, w) ∷ rest

  abbrev pub Distinct : Table K V → Type 0
  Distinct [] = Unit {0}
  Distinct ((j, w) ∷ m) = (lookup j m ≡ none) × Distinct m

  -- A measure of the values, summed over the table.
  abbrev pub sum_by : (V → ℕ) → Table K V → ℕ
  sum_by f [] = 0
  sum_by f ((j, w) ∷ m) = f w + sum_by f m
