-- ===== src/Containers/Ring/Creat.antt =====
-- The size of a new ring: power2 of src/clang/lib/core/comm.c and ring_creat of src/clang/lib/core/ring.c.
use Prim.Native.Nat.{bit_and, bit_and-bitwise, digits, min}
use native.Mathlib.Nat.{
  pow-le-pow_right, pow-succ', mod-add-div', mod-lt, mul-le-mul_right, div-eq_of_lt,
}
use beehive_im.Common.{
  ℕ, zero, suc, ◌+◌, ◌-◌, ◌*◌, ◌/◌, ◌%◌, ◌^◌, ◌≡◌, ◌≤◌, ◌<◌, ◌∙◌, sym, ap, refl, inl, inr,
  Bool-cases, [], if◌then◌else◌, ◌==◌, nat_key, nat_beq_iff, leb, ltb, arith,
}
use beehive_im.Containers.Ring.{ring_creat, power2, top_bit}
use beehive_im.Containers.Ring.Queue.{IsRing, contents}

abbrev both : ℕ → ℕ → ℕ → ℕ
both n a b = digits (λ b. zero) min n a b

both_self : (n a : ℕ) → a ≤ n → both n a a ≡ a
both_self zero zero h = refl
both_self zero (suc a) h = absurd (omega (arith, h))
both_self (suc n) zero h = refl
both_self (suc n) (suc a) h = omega (arith, both_self n (suc a / 2) (omega (arith, h)))

-- A number that has no bit in common with the one before it is a power of two.
one_bit : (n v : ℕ) → 0 < v → v - 1 ≤ n → both n (v - 1) v ≡ 0 → (k : ℕ) × (v ≡ 2 ^ k)
one_bit n zero pos h e = absurd (omega (arith, pos))
one_bit n (suc zero) pos h e = (0, refl)
one_bit zero (suc (suc a)) pos h e = absurd (omega (arith, h))
one_bit (suc n) (suc (suc a)) pos h e =
    let v = suc (suc a) in
    let less : v - 1 ≡ suc a = omega arith in
    let none_common : both n (suc a / 2) (v / 2) * 2 + min (suc a % 2) (v % 2) ≡ 0 = rw less at e in
    elim (Bool-cases (v % 2 == 0)) [
      | inl even ↦
          let twice : v % 2 ≡ 0 = (nat_beq_iff (v % 2) 0).0 even in
          let half : suc a / 2 ≡ v / 2 - 1 = omega (arith, twice) in
          let (k, is) =
            one_bit n (v / 2) (omega (arith, twice)) (omega (arith, h, twice))
              (omega (arith, rw half at none_common)) in
          (suc k, omega (arith, is, twice, pow-succ' 2 k))
      | inr odd ↦
          let one : v % 2 ≡ 1 = ground (arith, odd, nat_beq_iff (v % 2) 0) in
          let half : suc a / 2 ≡ v / 2 = omega (arith, one) in
          absurd (
            omega (arith, one, rw half at none_common, both_self n (v / 2) (omega (arith, h, one))))
    ]

no_more : (n v i idx : ℕ) → v < 2 ^ i → top_bit n v i idx ≡ idx
no_more zero v i idx h = refl
no_more (suc n) v i idx h =
    let gone : v / 2 ^ i ≡ 0 = div-eq_of_lt h in
    rw gone (no_more n v (suc i) idx (omega (arith, h, pow-succ' 2 i)))

-- A number between a power of two and the next one has the digit 1 there.
first_digit : (v m : ℕ) → m ≤ v → v < 2 * m → v / m ≡ 1
first_digit v m from to = elim (Bool-cases (leb 2 (v / m))) [
  | inl big ↦
      let two : 2 ≤ v / m = ground (arith, big) in
      absurd (omega (arith, mod-add-div' v m, mul-le-mul_right m two, to))
  | inr low ↦ elim (Bool-cases (v / m == 0)) [
    | inl gone ↦
        let zero_there : v / m ≡ 0 = (nat_beq_iff (v / m) 0).0 gone in
        let rest : v % m ≡ v = omega (arith, rw zero_there at (mod-add-div' v m)) in
        absurd (omega (arith, mod-lt v {m = m} (omega (arith, from, to)), rest, from))
    | inr there ↦ ground (arith, low, there, nat_beq_iff (v / m) 0)
  ]
]

-- The highest bit among `n` from `i` on, of a number that has one there
highest :
    (n v i idx : ℕ)
    → 2 ^ i ≤ v
    → v < 2 ^ (i + n)
    → (v < 2 ^ (top_bit n v i idx + 1)) × (2 ^ top_bit n v i idx ≤ v)
highest zero v i idx from to =
    let same : i + 0 ≡ i = omega arith in absurd (omega (arith, from, rw same at to))
highest (suc n) v i idx from to =
    let on : i + suc n ≡ suc i + n = omega arith in
    elim (Bool-cases (ltb v (2 ^ suc i))) [
      | inr beyond ↦
          highest n v (suc i) (if v / 2 ^ i % 2 == 1 then i else idx) (ground (arith, beyond))
            (rw on at to)
      | inl here ↦
          let less : v < 2 ^ suc i = ground (arith, here) in
          let digit : v / 2 ^ i ≡ 1 =
            first_digit v (2 ^ i) from (omega (arith, less, pow-succ' 2 i)) in
          let top : top_bit (suc n) v i idx ≡ i = rw digit (no_more n v (suc i) i less) in
          let next : i + 1 ≡ suc i = omega arith in (rw (top, next) less, rw top from)
    ]

exponent : (k m : ℕ) → 2 ^ k < 2 ^ m → k < m
exponent k m h = elim (Bool-cases (ltb k m)) [
  | inl less ↦ ground (arith, less)
  | inr more ↦
      let least : m ≤ k = ground (arith, more) in
      absurd (omega (arith, h, pow-le-pow_right {n = 2} (omega arith) {i = m} {j = k} least))
]

next_power :
    (n v : ℕ)
    → 0 < v
    → v < 2 ^ n
    → v < 2 ^ 31
    → (top_bit n v 0 0 + 1 < 32) × (v ≤ 2 ^ (top_bit n v 0 0 + 1))
next_power n v pos fits small =
    let same : 0 + n ≡ n = omega arith in
    let (below, least) = highest n v 0 0 (omega (arith, pos)) (rw same fits) in
    (
      omega (arith, exponent (top_bit n v 0 0) 31 (omega (arith, least, small))),
      omega (arith, below),
    )

-- `power2` gives a power of two that is no less.
power2_lem : (v : ℕ) → 0 < v → v < 2 ^ 31 → (k : ℕ) × (k < 32) × (power2 v ≡ 2 ^ k) × (v ≤ 2 ^ k)
power2_lem v pos small = elim (Bool-cases (bit_and (v - 1) v == 0)) [
  | inl power ↦
      let none_common : both (v - 1) (v - 1) v ≡ 0 =
        sym (bit_and-bitwise (v - 1) v) ∙ (nat_beq_iff (bit_and (v - 1) v) 0).0 power in
      let (k, is) = one_bit (v - 1) v pos (omega arith) none_common in
      (k, exponent k 32 (omega (arith, is, small)), rw power is, omega (arith, is))
  | inr other ↦
      let (room, above) = next_power 32 v pos (omega (arith, small)) small in
      (top_bit 32 v 0 0 + 1, room, rw other refl, above)
]

-- A new ring for `max` pointers, from 1 to 2 ^ 30, has room for as many, is empty, and its mask takes the remainder by
-- its size.
pub ring_creat-IsRing :
    (max : ℕ)
    → 0 < max
    → max ≤ 2 ^ 30
    → (k : ℕ) × IsRing k (ring_creat max) × (max ≤ 2 ^ k) × (contents (ring_creat max) ≡ [])
unfolding ring_creat
ring_creat-IsRing max pos small =
    let (k, fits, is, room) = power2_lem max pos (omega (arith, small)) in
    (
      k,
      record {
        small = fits;
        size = is;
        masks = ap (λ (n : ℕ). n - 1) is;
        produced = refl;
        consumed = refl;
        prod_word = omega arith;
        cons_word = omega arith;
        fits = omega arith;
        counted = refl;
      },
      room,
      refl,
    )
