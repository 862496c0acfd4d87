-- ===== src/Containers/Vector.antt =====
-- The vector of pointers: src/clang/lib/core/vector.c. The entries in use are a list, and its length is `len`.
pub mod Take
use mathlib.Core.Option
use beehive_im.Common.{
  ℕ, zero, suc, ◌+◌, ◌-◌, ◌*◌, Bool, true, false, Option, none, some, List, [], ◌∷◌, ◌++◌,
  if◌then◌else◌, ◌==◌, nat_key, Key, leb, length, get_elem?,
}
use beehive_im.Chat.{Status, ok, fail}

pub record Vector (A : Type 0) : Type 0 where
  pub cap : ℕ
  pub incr : ℕ
  pub arr : List A

abbrev pub vector_creat : {A : Type 0} → ℕ → ℕ → Vector A
vector_creat size incr = record { cap = size; incr = incr; arr = [] }

-- sizeof(void *)
abbrev pub pointer_size : ℕ
pointer_size = 8

module _ {A : Type 0} where
  -- `realloc` is asked for `cap + incr` bytes. `moved` says whether it gave another block. The result is `none` where
  -- the entries do not all lie in the block any more.
  unfoldable pub vector_append : Vector A → A → Bool → Option (Status × Vector A)
  vector_append vec address moved =
      let bytes = vec.cap + vec.incr in
      if length vec.arr == vec.cap
      then if moved
        then if leb (pointer_size * (length vec.arr + 1)) bytes
          then some (ok, record vec { cap = bytes; arr = vec.arr ++ (address ∷ []) })
          else none
        else if leb (pointer_size * length vec.arr) bytes
        then some (fail, vec)
        else none
      else some (ok, record vec { arr = vec.arr ++ (address ∷ []) })

  unfoldable pub vector_get : Vector A → ℕ → Option A
  vector_get vec idx = if leb (length vec.arr) idx then none else get_elem? vec.arr idx

  -- The first entry that satisfies `find`.
  unfoldable pub find_entry : (A → Bool) → List A → Option A
  find_entry find [] = none
  find_entry find (x ∷ arr) = let rest = find_entry find arr in if find x then some x else rest

  unfoldable pub vector_find : Vector A → (A → Bool) → Option A
  vector_find vec find = find_entry find vec.arr

  -- The array without its last entry.
  abbrev pub init : List A → List A
  init [] = []
  init (x ∷ []) = []
  init (x ∷ y ∷ arr) = x ∷ init (y ∷ arr)

  abbrev pub last_or : A → List A → A
  last_or d [] = d
  last_or d (x ∷ arr) = last_or x arr

  -- The entry at `idx` is overwritten by the last one, and the array gets shorter by one.
  unfoldable pub drop_entry : List A → ℕ → List A
  drop_entry [] idx = []
  drop_entry (x ∷ []) zero = []
  drop_entry (x ∷ y ∷ arr) zero = last_or y arr ∷ init (y ∷ arr)
  drop_entry (x ∷ arr) (suc idx) = x ∷ drop_entry arr idx

  -- The index of the first entry that satisfies `find`.
  unfoldable pub entry_index : (A → Bool) → List A → Option ℕ
  entry_index find [] = none
  entry_index find (x ∷ arr) =
      let rest = entry_index find arr in if find x then some 0 else Option.map suc rest

  unfoldable pub vector_del_by_idx : Vector A → ℕ → Option A × Vector A
  vector_del_by_idx vec idx =
      if leb (length vec.arr) idx
      then (none, vec)
      else (get_elem? vec.arr idx, record vec { arr = drop_entry vec.arr idx })

  unfoldable pub vector_find_and_del : Vector A → (A → Bool) → Option A × Vector A
  vector_find_and_del vec find = elim (entry_index find vec.arr) [
    | none ↦ (none, vec)
    | some idx ↦ (get_elem? vec.arr idx, record vec { arr = drop_entry vec.arr idx })
  ]

  -- -1 is `none`.
  unfoldable pub vector_index : ⦃key : Key A⦄ → Vector A → A → Option ℕ
  vector_index vec address = entry_index (λ x. x == address) vec.arr

  unfoldable pub vector_delete : ⦃key : Key A⦄ → Vector A → A → Status × Vector A
  vector_delete vec address = elim (vector_index vec address) [
    | none ↦ (fail, vec)
    | some idx ↦ (ok, (vector_del_by_idx vec idx).1)
  ]
