-- ===== src/Containers/Ring/Slots.antt =====
-- The slots of the ring that a run of counters stands for: src/clang/lib/core/ring.c.
use Prim.Native.Nat.{bit_and, bit_and-bitwise, digits, min, ◌∣◌}
use native.Mathlib.Nat.{
  zero-mod, mod-lt, mod-eq_of_lt, mod-mod_of_dvd, suc-mod, suc-mul, dvd_refl, dvd-mul_left_of_dvd,
  mod-add-div', mul-le-mul_right, mul_assoc, pow-succ', div-add-mod, mul-add-mod_self_left,
}
use mathlib.Core.Path.{subst}
use beehive_im.Common.{
  ℕ, zero, suc, ◌+◌, ◌-◌, ◌*◌, ◌/◌, ◌%◌, ◌^◌, ◌≡◌, ◌≢◌, ◌≤◌, ◌<◌, ◌∙◌, sym, ap, refl, inl, inr,
  false, Bool-cases, List, [], ◌∷◌, ◌++◌, append-nil, append_assoc, if◌then◌else◌, ◌==◌, nat_key,
  nat_beq_iff, leb, length, take, drop, arith,
}
use beehive_im.Containers.Ring.{put_slots, get_slots}

power_pos : (k : ℕ) → 0 < 2 ^ k
power_pos zero = omega arith
power_pos (suc k) = omega (arith, power_pos k)

-- A remainder by twice a number, by its last digit
double-mod : (a m : ℕ) → 0 < m → a / 2 % m * 2 + a % 2 ≡ a % (2 * m)
double-mod a m pos =
    let q : ℕ = a / 2 in
    let r : ℕ = q % m * 2 + a % 2 in
    let less : q % m < m = mod-lt q pos in
    let whole : a ≡ 2 * m * (q / m) + r = omega (arith, div-add-mod q m, mul_assoc 2 m (q / m)) in
    sym (
      ap (λ (n : ℕ). n % (2 * m)) whole
      ∙ mul-add-mod_self_left (2 * m) (q / m) r
      ∙ mod-eq_of_lt (omega (arith, less)))

masked : (n k a : ℕ) → a ≤ n → digits (λ b. zero) min n a (2 ^ k - 1) ≡ a % 2 ^ k
masked zero k zero h = sym (zero-mod (2 ^ k))
masked zero k (suc a) h = absurd (omega (arith, h))
masked (suc n) k zero h = sym (zero-mod (2 ^ k))
masked (suc n) zero (suc a) h = omega (arith, masked n zero (suc a / 2) (omega (arith, h)))
masked (suc n) (suc k) (suc a) h =
    let half : (2 ^ suc k - 1) / 2 ≡ 2 ^ k - 1 = omega (arith, power_pos k) in
    let odd : (2 ^ suc k - 1) % 2 ≡ 1 = omega (arith, power_pos k) in
    rw (half, odd)
      (omega (
        arith,
        masked n k (suc a / 2) (omega (arith, h)),
        double-mod (suc a) (2 ^ k) (power_pos k),
        ap (λ (m : ℕ). suc a % m) (sym (pow-succ' 2 k)),
      ))

grown : (d k : ℕ) → 2 ^ (suc d + k) ≡ 2 * 2 ^ (d + k)
grown d k = let next : suc d + k ≡ suc (d + k) = omega arith in rw next (pow-succ' 2 (d + k))

power_divides : (d k : ℕ) → (2 ^ k) ∣ (2 ^ (d + k))
power_divides zero k =
    subst (λ (n : ℕ). (2 ^ k) ∣ (2 ^ n)) {x = k} {y = 0 + k} (omega arith) (dvd_refl (2 ^ k))
power_divides (suc d) k =
    subst (λ (n : ℕ). (2 ^ k) ∣ n) {x = 2 * 2 ^ (d + k)} {y = 2 ^ (suc d + k)} (sym (grown d k))
      (dvd-mul_left_of_dvd (2 ^ k) (power_divides d k) 2)

pub word-mod : (k i : ℕ) → k < 32 → i % 2 ^ 32 % 2 ^ k ≡ i % 2 ^ k
word-mod k i h = mod-mod_of_dvd (2 ^ k) i (
    subst (λ (n : ℕ). (2 ^ k) ∣ (2 ^ n)) {x = 32 - k + k} {y = 32} (omega (arith, h))
      (power_divides (32 - k) k))

-- The mask of a ring takes the remainder by its size, also of a counter that wraps.
slot-mod : (k i : ℕ) → k < 32 → bit_and (i % 2 ^ 32) (2 ^ k - 1) ≡ i % 2 ^ k
slot-mod k i h =
    bit_and-bitwise (i % 2 ^ 32) (2 ^ k - 1)
    ∙ masked (i % 2 ^ 32) k (i % 2 ^ 32) (omega arith)
    ∙ word-mod k i h

-- Counters that are less than a round apart have slots of their own.
apart : (i j m : ℕ) → 0 < m → i < j → j < i + m → i % m ≢ j % m
apart i j m pos less close same =
    let p = i / m in
    let q = j / m in
    elim (Bool-cases (leb q p)) [
      | inl back ↦
          let le : q ≤ p = ground (arith, back) in
          omega (arith, mul-le-mul_right m le, mod-add-div' i m, mod-add-div' j m, same, less)
      | inr on ↦
          let lt : suc p ≤ q = ground (arith, on) in
          omega (
            arith,
            mul-le-mul_right m lt,
            suc-mul p m,
            mod-add-div' i m,
            mod-add-div' j m,
            same,
            close,
          )
    ]

module _ (k : ℕ) (small : k < 32) where
  -- A counter counts for its remainder only.
  same_slot :
      (p q : ℕ)
      → p % 2 ^ k ≡ q % 2 ^ k
      → bit_and (p % 2 ^ 32) (2 ^ k - 1) ≡ bit_and (q % 2 ^ 32) (2 ^ k - 1)
  same_slot p q h = slot-mod k p small ∙ h ∙ sym (slot-mod k q small)

  next_slot : (p q : ℕ) → p % 2 ^ k ≡ q % 2 ^ k → suc p % 2 ^ k ≡ suc q % 2 ^ k
  next_slot p q h = suc-mod p (2 ^ k) ∙ ap (λ (n : ℕ). suc n % 2 ^ k) h ∙ sym (suc-mod q (2 ^ k))

  pub put_slots-cong :
      (slots : ℕ → ℕ) (p q : ℕ) (addr : List ℕ)
      → p % 2 ^ k ≡ q % 2 ^ k
      → put_slots slots (2 ^ k - 1) p addr ≡ put_slots slots (2 ^ k - 1) q addr
  put_slots-cong slots p q [] h = refl
  put_slots-cong slots p q (a ∷ addr) h = rw (same_slot p q h) (
      put_slots-cong (λ j. if bit_and (q % 2 ^ 32) (2 ^ k - 1) == j then a else slots j) (suc p)
        (suc q) addr (next_slot p q h))

  pub get_slots-cong :
      (slots : ℕ → ℕ) (p q num : ℕ)
      → p % 2 ^ k ≡ q % 2 ^ k
      → get_slots slots (2 ^ k - 1) p num ≡ get_slots slots (2 ^ k - 1) q num
  get_slots-cong slots p q zero h = refl
  get_slots-cong slots p q (suc num) h = rw (same_slot p q h) (
      ap (λ (xs : List ℕ). slots (bit_and (q % 2 ^ 32) (2 ^ k - 1)) ∷ xs)
        (get_slots-cong slots (suc p) (suc q) num (next_slot p q h)))

  -- A slot behind a run of them is written without a change to the run.
  untouched :
      (slots : ℕ → ℕ) (head num j a : ℕ)
      → head + num ≤ j
      → j < head + 2 ^ k
      → get_slots
          (λ i. if bit_and (j % 2 ^ 32) (2 ^ k - 1) == i then a else slots i)
          (2 ^ k - 1)
          head
          num
        ≡ get_slots slots (2 ^ k - 1) head num
  untouched slots head zero j a from to = refl
  untouched slots head (suc num) j a from to =
      let here = bit_and (head % 2 ^ 32) (2 ^ k - 1) in
      let there = bit_and (j % 2 ^ 32) (2 ^ k - 1) in
      let other : here ≢ there = λ same.
        apart head j (2 ^ k) (power_pos k) (omega (arith, from)) to
          (sym (slot-mod k head small) ∙ same ∙ slot-mod k j small) in
      let off : (there == here) ≡ false = ground (arith, other, nat_beq_iff there here) in
      rw off (
        ap (λ (xs : List ℕ). slots here ∷ xs)
          (untouched slots (suc head) num j a (omega (arith, from)) (omega (arith, to))))

  get_slots_last :
      (slots : ℕ → ℕ) (head num : ℕ)
      → get_slots slots (2 ^ k - 1) head (suc num)
        ≡ get_slots slots (2 ^ k - 1) head num
          ++ (slots (bit_and ((head + num) % 2 ^ 32) (2 ^ k - 1)) ∷ [])
  get_slots_last slots head zero = let same : head + 0 ≡ head = omega arith in rw same refl
  get_slots_last slots head (suc num) =
      let same : head + suc num ≡ suc head + num = omega arith in
      rw same (
        ap (λ (xs : List ℕ). slots (bit_and (head % 2 ^ 32) (2 ^ k - 1)) ∷ xs)
          (get_slots_last slots (suc head) num))

  -- What is put behind a run of slots is read after it, as far as the ring has room.
  pub get-put_slots :
      (slots : ℕ → ℕ) (head num : ℕ) (addr : List ℕ)
      → num + length addr ≤ 2 ^ k
      → get_slots
          (put_slots slots (2 ^ k - 1) (head + num) addr)
          (2 ^ k - 1)
          head
          (num + length addr)
        ≡ get_slots slots (2 ^ k - 1) head num ++ addr
  get-put_slots slots head num [] room =
      let same : num + 0 ≡ num = omega arith in rw (same, append-nil) refl
  get-put_slots slots head num (a ∷ addr) room =
      let at : ℕ = bit_and ((head + num) % 2 ^ 32) (2 ^ k - 1) in
      let w : ℕ → ℕ = λ j. if at == j then a else slots j in
      let on : suc (head + num) ≡ head + suc num = omega arith in
      let count : num + suc (length addr) ≡ suc num + length addr = omega arith in
      let here : w at ≡ a = ground (arith, nat_beq_iff at at) in
      let before = untouched slots head num (head + num) a (omega arith) (omega (arith, room)) in
      rw (on, count)
        (get-put_slots w head (suc num) addr (omega (arith, room))
          ∙ ap (λ (xs : List ℕ). xs ++ addr) (get_slots_last w head num)
          ∙ append_assoc (get_slots w (2 ^ k - 1) head num) (w at ∷ []) addr
          ∙ ap (λ (xs : List ℕ). xs ++ (w at ∷ addr)) before
          ∙ ap (λ (x : ℕ). get_slots slots (2 ^ k - 1) head num ++ (x ∷ addr)) here)

  -- A run read in two parts
  pub get_slots-take :
      (slots : ℕ → ℕ) (head m num : ℕ)
      → m ≤ num
      → (take m (get_slots slots (2 ^ k - 1) head num) ≡ get_slots slots (2 ^ k - 1) head m)
        × (drop m (get_slots slots (2 ^ k - 1) head num)
            ≡ get_slots slots (2 ^ k - 1) (head + m) (num - m))
  get_slots-take slots head zero num h =
      let same : head + 0 ≡ head = omega arith in
      let all : num - 0 ≡ num = omega arith in (refl, rw (same, all) refl)
  get_slots-take slots head (suc m) zero h = absurd (omega (arith, h))
  get_slots-take slots head (suc m) (suc num) h =
      let on : head + suc m ≡ suc head + m = omega arith in
      let less : suc num - suc m ≡ num - m = omega arith in
      let (front, back) = get_slots-take slots (suc head) m num (omega (arith, h)) in
      (
        ap (λ (xs : List ℕ). slots (bit_and (head % 2 ^ 32) (2 ^ k - 1)) ∷ xs) front,
        rw (on, less) back,
      )
