-- ===== src/Containers/Avl/Depth.antt =====
-- How deep a search goes: src/clang/lib/core/avl_tree.c.
use Prim.Native.Nat.{max}
use beehive_im.Common.{
  ℕ, zero, suc, ◌+◌, ◌*◌, ◌/◌, ◌^◌, ◌≡◌, ◌≤◌, sym, refl, ◌∷◌, arith, length, length-append,
}
use beehive_im.Containers.Avl.{Bf, lh, eh, rh, Node, nil, node, avl_trav}
use beehive_im.Containers.Avl.Balance.{Skewed, height, Balanced}

-- 2 ^ (n / 2), by steps of two
abbrev half_power : ℕ → ℕ
half_power zero = 1
half_power (suc zero) = 1
half_power (suc (suc n)) = 2 * half_power n

half_power_lem : (n : ℕ) → half_power n ≡ 2 ^ (n / 2)
half_power_lem zero = refl
half_power_lem (suc zero) = refl
half_power_lem (suc (suc n)) =
    let half : suc (suc n) / 2 ≡ suc (n / 2) = omega arith in
    rw (half, half_power_lem n) (omega arith)

half_power_mono : (n : ℕ) → half_power n ≤ half_power (suc n)
half_power_mono zero = omega arith
half_power_mono (suc zero) = omega arith
half_power_mono (suc (suc n)) = omega (arith, half_power_mono n)

half_power_step : (n : ℕ) → half_power (suc n) ≤ 2 * half_power n
half_power_step zero = omega arith
half_power_step (suc zero) = omega arith
half_power_step (suc (suc n)) = omega (arith, half_power_step n)

joined :
    (bf : Bf) (m n : ℕ) → Skewed bf m n → half_power (suc (max m n)) ≤ half_power m + half_power n
joined eh m n h =
    let top : max m n ≡ m = omega (arith, h) in rw (top, sym h) (omega (arith, half_power_step m))
joined lh m n h =
    let top : max m n ≡ suc n = omega (arith, h) in rw (top, h) (omega (arith, half_power_mono n))
joined rh m n h =
    let top : max m n ≡ suc m = omega (arith, h) in rw (top, h) (omega (arith, half_power_mono m))

module _ {A : Type 0} where
  many : (t : Node A) → Balanced t → half_power (height t) ≤ length (avl_trav t) + 1
  unfolding avl_trav
  many nil b = omega arith
  many (node bf l x r) b = omega (
    arith,
    joined bf (height l) (height r) b.2,
    many l b.0,
    many r b.1,
    length-append (avl_trav l) (x ∷ avl_trav r),
  )

  -- A balanced tree of height `h` holds at least 2 ^ (h / 2) - 1 items, so that a search in `n` items passes through
  -- no more than 2 * log (n + 1) + 1 nodes.
  pub height-length : (t : Node A) → Balanced t → 2 ^ (height t / 2) ≤ length (avl_trav t) + 1
  height-length t b = omega (arith, many t b, half_power_lem (height t))
