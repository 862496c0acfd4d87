-- ===== src/Rtmq/Send/Adjust.antt =====
-- Taking what was sent out of the entries: wiov_item_adjust of src/clang/lib/core/iovec.c.
use beehive_im.Common.{
  take-drop, ℕ, zero, suc, ◌+◌, ◌-◌, ◌≡◌, ◌≤◌, ◌<◌, refl, sym, ap, ◌∙◌, append_assoc, Bool-cases,
  List, [], ◌∷◌, ◌++◌, map, arith, inl, inr, leb, length, take, drop, length-drop, drop-append,
}
use beehive_im.Rtmq.Send.{Entry, adjust, concat_rest}

abbrev pub origs : List Entry → List (List ℕ)
origs = map (λ e. e.orig)

drop_past : (xs ys : List ℕ) (k n : ℕ) → n ≡ length xs + k → drop n (xs ++ ys) ≡ drop k ys
drop_past [] ys k n e = ap (λ (m : ℕ). drop m ys) (omega (arith, e))
drop_past (x ∷ xs) ys k zero e = absurd (omega (arith, e))
drop_past (x ∷ xs) ys k (suc n) e = drop_past xs ys k n (omega (arith, e))

drop_nil : (n : ℕ) → drop {A = ℕ} n [] ≡ []
drop_nil zero = refl
drop_nil (suc n) = refl

pub concat_rest-append :
    (xs ys : List Entry) → concat_rest (xs ++ ys) ≡ concat_rest xs ++ concat_rest ys
concat_rest-append [] ys = refl
concat_rest-append (x ∷ xs) ys = simp (concat_rest-append xs ys, append_assoc)

-- What the loop leaves: the bytes after those that were sent, all entries once, in their order.
adjust-rest :
    (n len : ℕ) (xs : List Entry)
    → len ≤ n
    → concat_rest (adjust n len xs).2 ≡ drop (n - len) (concat_rest xs)
unfolding adjust
adjust-rest n len [] h = sym (drop_nil (n - len))
adjust-rest n len (x ∷ xs) h = elim (Bool-cases (leb (len + length x.rest) n)) [
  | inl sent ↦
      let le : len + length x.rest ≤ n = ground (arith, sent) in
      rw sent (
        adjust-rest n (len + length x.rest) xs le
        ∙ sym (
            drop_past x.rest (concat_rest xs) (n - (len + length x.rest)) (n - len)
              (omega (arith, le))))
  | inr part ↦
      let le : n - len ≤ length x.rest = ground (arith, part) in
      rw part (sym (drop-append (n - len) x.rest (concat_rest xs) le))
]

-- Nothing is lost or sent twice.
pub adjust-sent :
    (n : ℕ) (xs : List Entry)
    → take n (concat_rest xs) ++ concat_rest (adjust n 0 xs).2 ≡ concat_rest xs
adjust-sent n xs =
    ap (λ (rest : List ℕ). take n (concat_rest xs) ++ rest) (adjust-rest n 0 xs (omega arith))
    ∙ ap (λ (m : ℕ). take n (concat_rest xs) ++ drop m (concat_rest xs)) (omega arith)
    ∙ take-drop n (concat_rest xs)

pub adjust-origs :
    (n len : ℕ) (xs : List Entry) → (adjust n len xs).0 ++ origs (adjust n len xs).2 ≡ origs xs
unfolding adjust
adjust-origs n len [] = refl
adjust-origs n len (x ∷ xs) = elim (Bool-cases (leb (len + length x.rest) n)) [
  | inl sent ↦ rw sent (ap (λ r. x.orig ∷ r) (adjust-origs n (len + length x.rest) xs))
  | inr part ↦ rw part refl
]

pub adjust-moved :
    (n len : ℕ) (xs : List Entry) → (adjust n len xs).1 + length (adjust n len xs).2 ≡ length xs
unfolding adjust
adjust-moved n len [] = refl
adjust-moved n len (x ∷ xs) = elim (Bool-cases (leb (len + length x.rest) n)) [
  | inl sent ↦ rw sent (omega (arith, adjust-moved n (len + length x.rest) xs))
  | inr part ↦ rw part (omega arith)
]

-- Every entry has bytes left to send.
abbrev pub Live : List Entry → Type 0
Live [] = Unit {0}
Live (x ∷ xs) = (0 < length x.rest) × Live xs

pub Live-append : (xs ys : List Entry) → Live xs → Live ys → Live (xs ++ ys)
Live-append [] ys l k = k
Live-append (x ∷ xs) ys l k = (l.0, Live-append xs ys l.1 k)

pub adjust-Live : (n len : ℕ) (xs : List Entry) → len ≤ n → Live xs → Live (adjust n len xs).2
unfolding adjust
adjust-Live n len [] h l = tt
adjust-Live n len (x ∷ xs) h l = elim (Bool-cases (leb (len + length x.rest) n)) [
  | inl sent ↦ rw sent (adjust-Live n (len + length x.rest) xs (ground (arith, sent)) l.1)
  | inr part ↦ rw part (ground (arith, part, length-drop (n - len) x.rest), l.1)
]
