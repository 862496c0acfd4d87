-- ===== src/Table/Laws.antt =====
-- The laws of the tables.
use beehive_im.Common.{
  ℕ, suc, ◌+◌, ◌≡◌, refl, none, some, [], ◌∷◌, if◌then◌else◌, Key, ◌==◌, arith, length,
}
use beehive_im.Table.{Table, lookup, insert, update, delete, Distinct, sum_by}

module _ {K V : Type 0} ⦃key : Key K⦄ where
  pub lookup-update :
      (j k : K) (v : V) (m : Table K V)
      → lookup j (update k v m)
        ≡ (if k == j then elim (lookup k m) [ none ↦ none | some _ ↦ some v ] else lookup j m)
  unfolding lookup update
  lookup-update j k v [] = ground arith
  lookup-update j k v ((i, w) ∷ m) =
      ground (arith, lookup-update j k v m, key.beq_iff i k, key.beq_iff i j, key.beq_iff k j)

  pub lookup-delete :
      (j k : K) (m : Table K V) → lookup j (delete k m) ≡ (if k == j then none else lookup j m)
  unfolding lookup delete
  lookup-delete j k [] = ground arith
  lookup-delete j k ((i, w) ∷ m) =
      ground (arith, lookup-delete j k m, key.beq_iff i k, key.beq_iff i j, key.beq_iff k j)

  pub lookup-insert :
      (j k : K) (v : V) (m : Table K V) {m' : Table K V}
      → insert k v m ≡ some m'
      → lookup j m' ≡ (if k == j then some v else lookup j m)
  unfolding lookup insert
  lookup-insert j k v m h = ground arith

  pub insert-none :
      (k : K) (v : V) (m : Table K V) → lookup k m ≡ none → insert k v m ≡ some ((k, v) ∷ m)
  unfolding insert
  insert-none k v m h = rw (h, insert)

  pub insert-some : (k : K) (v w : V) (m : Table K V) → lookup k m ≡ some w → insert k v m ≡ none
  unfolding insert
  insert-some k v w m h = rw (h, insert)

  pub length-update : (k : K) (v : V) (m : Table K V) → length (update k v m) ≡ length m
  unfolding update
  length-update k v [] = refl
  length-update k v ((i, w) ∷ m) = ground (arith, length-update k v m)

  pub delete-absent : (k : K) (m : Table K V) → lookup k m ≡ none → delete k m ≡ m
  unfolding lookup delete
  delete-absent k [] h = refl
  delete-absent k ((i, w) ∷ m) h = ground (arith, delete-absent k m)

  pub length-delete :
      (k : K) (m : Table K V) {v : V}
      → Distinct m
      → lookup k m ≡ some v
      → suc (length (delete k m)) ≡ length m
  unfolding lookup delete
  length-delete k [] d h = ground arith
  length-delete k ((i, w) ∷ m) {v} d h =
      ground (arith, delete-absent k m, length-delete k m {v = v} d.1, key.beq_iff i k)

  pub Distinct-delete : (k : K) (m : Table K V) → Distinct m → Distinct (delete k m)
  unfolding delete
  Distinct-delete k [] d = d
  Distinct-delete k ((i, w) ∷ m) d = ground (arith, Distinct-delete k m d.1, lookup-delete i k m)

  pub sum_by-update :
      (f : V → ℕ) (k : K) (v old : V) (m : Table K V)
      → lookup k m ≡ some old
      → sum_by f (update k v m) + f old ≡ sum_by f m + f v
  unfolding lookup update
  sum_by-update f k v old [] h = ground arith
  sum_by-update f k v old ((i, w) ∷ m) h = ground (arith, sum_by-update f k v old m)

  lookup-update_absent :
      (j k : K) (v : V) (m : Table K V) → lookup j m ≡ none → lookup j (update k v m) ≡ none
  lookup-update_absent j k v m h = ground (arith, lookup-update j k v m, h, key.beq_iff k j)

  pub Distinct-update : (k : K) (v : V) (m : Table K V) → Distinct m → Distinct (update k v m)
  unfolding update
  Distinct-update k v [] d = d
  Distinct-update k v ((i, w) ∷ m) d =
      ground (arith, Distinct-update k v m d.1, lookup-update_absent i k v m d.0)
