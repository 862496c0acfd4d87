-- ===== src/Rtmq/Auth/Known.antt =====
-- Whom the users configured let in: rtmq_auth_init and rtmq_auth_check of src/clang/lib/rtmq/server/rtmq_recv.c.
use mathlib.Core.Path.{subst}
use beehive_im.Common.{
  ℕ, zero, suc, ◌-◌, ◌≡◌, ◌≢◌, ◌≤◌, ◌⊎◌, ◌↔◌, ◌∙◌, refl, sym, ap, Bool, true, false, Bool-cases,
  Option-cases, none, some, List, [], ◌∷◌, ◌++◌, if◌then◌else◌, nat_key, nat_beq_iff, take, length,
  arith, inl, inr, Occurs,
}
use beehive_im.Table.{lookup}
use beehive_im.Table.Laws.{insert-none}
use beehive_im.Chat.{Status, ok, fail}
use beehive_im.Rtmq.Auth.{
  text_beq, text_beq_iff, text_key, usr_max_len, pwd_max_len, AuthTab, rtmq_auth_add,
  rtmq_auth_init, cstring, strcmp_eq, rtmq_auth_check,
}

-- No byte is zero.
abbrev pub IsText : List ℕ → Type 0
IsText [] = Unit {0}
IsText (c ∷ s) = (c ≢ 0) × IsText s

cstring-IsText : (s rest : List ℕ) → IsText s → cstring (s ++ (0 ∷ rest)) ≡ some s
unfolding cstring
cstring-IsText [] rest t = refl
cstring-IsText (c ∷ s) rest t = ground (arith, cstring-IsText s rest t.1, nat_beq_iff c 0, t.0)

strcmp_eq-IsText :
    (s p rest : List ℕ) → IsText s → IsText p → (strcmp_eq s (p ++ (0 ∷ rest)) ≡ true) ↔ (s ≡ p)
unfolding strcmp_eq
strcmp_eq-IsText [] [] rest t u = (λ e. refl, λ e. refl)
strcmp_eq-IsText [] (d ∷ p) rest t u = ground (arith, nat_beq_iff d 0, u.0)
strcmp_eq-IsText (c ∷ s) [] rest t u = ground (arith, nat_beq_iff c 0, t.0)
strcmp_eq-IsText (c ∷ s) (d ∷ p) rest t u =
    ground (arith, nat_beq_iff c d, strcmp_eq-IsText s p rest t.1 u.1)

abbrev name_of : List ℕ → List ℕ
name_of u = take (usr_max_len - 1) u

abbrev passwd_of : List ℕ → List ℕ
passwd_of w = take (pwd_max_len - 1) w

-- A user who is there stays as it is; another is put in.
auth_add-cases :
    (auth : AuthTab) (u w : List ℕ)
    → ((known : List ℕ) × (lookup (name_of u) auth ≡ some known)
        × (rtmq_auth_add auth u w ≡ (if text_beq known w then ok else fail, auth)))
      ⊎ ((lookup (name_of u) auth ≡ none)
          × (rtmq_auth_add auth u w ≡ (ok, (name_of u, passwd_of w) ∷ auth)))
unfolding rtmq_auth_add
auth_add-cases auth u w = elim (Option-cases (lookup (name_of u) auth)) [
  | inl e ↦ inr (e, rw (rtmq_auth_add, e, insert-none (name_of u) (passwd_of w) auth e) refl)
  | inr (known, e) ↦ inl (known, e, rw (rtmq_auth_add, e) refl)
]

lookup-cons :
    (k j p : List ℕ) (auth : AuthTab)
    → lookup k ((j, p) ∷ auth) ≡ (if text_beq j k then some p else lookup k auth)
unfolding lookup
lookup-cons k j p auth = refl

-- The table after the users, by what the first of them comes to
init_next :
    (users : List (List ℕ × List ℕ)) (u w : List ℕ) (auth auth' : AuthTab) (st : Status)
    → rtmq_auth_add auth u w ≡ (st, auth')
    → rtmq_auth_init ((u, w) ∷ users) auth
      ≡ elim st [ ok ↦ rtmq_auth_init users auth' | fail ↦ (fail, auth') ]
unfolding rtmq_auth_init
init_next users u w auth auth' ok e =
    rw (rtmq_auth_init, e) (ap (λ (o : Status × AuthTab). rtmq_auth_init users o.1) e)
init_next users u w auth auth' fail e =
    rw (rtmq_auth_init, e) (ap (λ (o : Status × AuthTab). (fail, o.1)) e)

from_rest :
    (users : List (List ℕ × List ℕ)) (u w : List ℕ) (auth : AuthTab) (k p : List ℕ)
    → (lookup k auth ≡ some p)
      ⊎ ((u' w' : List ℕ) × Occurs (u', w') users × (name_of u' ≡ k) × (passwd_of w' ≡ p))
    → (lookup k auth ≡ some p)
      ⊎ ((u' w' : List ℕ) × Occurs (u', w') ((u, w) ∷ users)
          × (name_of u' ≡ k)
          × (passwd_of w' ≡ p))
from_rest users u w auth k p (inl h) = inl h
from_rest users u w auth k p (inr (u', w', o, n, q)) = inr (u', w', inr o, n, q)

-- Where an entry comes from
auth_init-from :
    (users : List (List ℕ × List ℕ)) (auth : AuthTab) (k p : List ℕ)
    → lookup k (rtmq_auth_init users auth).1 ≡ some p
    → (lookup k auth ≡ some p)
      ⊎ ((u w : List ℕ) × Occurs (u, w) users × (name_of u ≡ k) × (passwd_of w ≡ p))
unfolding rtmq_auth_init
auth_init-from [] auth k p e = inl e
auth_init-from ((u, w) ∷ users) auth k p e = elim (auth_add-cases auth u w) [
  | inl (known, f, g) ↦ elim (Bool-cases (text_beq known w)) [
    | inl same ↦
        from_rest users u w auth k p (
          auth_init-from users auth k p (rw (init_next users u w auth auth ok (rw same at g)) at e))
    | inr other ↦ inl (rw (init_next users u w auth auth fail (rw other at g)) at e)
  ]
  | inr (f, g) ↦
      let auth' : AuthTab = (name_of u, passwd_of w) ∷ auth in
      elim (auth_init-from users auth' k p (rw (init_next users u w auth auth' ok g) at e)) [
        | inl h ↦ elim (Bool-cases (text_beq (name_of u) k)) [
          | inl same ↦ inr (
            u,
            w,
            inl refl,
            (text_beq_iff (name_of u) k).0 same,
            ground (arith, h, lookup-cons k (name_of u) (passwd_of w) auth, same),
          )
          | inr other ↦ inl (ground (arith, h, lookup-cons k (name_of u) (passwd_of w) auth, other))
        ]
        | inr (u', w', o, n, q) ↦ inr (u', w', inr o, n, q)
      ]
]

-- An entry stays as it is.
auth_init-keeps :
    (users : List (List ℕ × List ℕ)) (auth : AuthTab) (k p : List ℕ)
    → lookup k auth ≡ some p
    → lookup k (rtmq_auth_init users auth).1 ≡ some p
unfolding rtmq_auth_init
auth_init-keeps [] auth k p e = e
auth_init-keeps ((u, w) ∷ users) auth k p e = elim (auth_add-cases auth u w) [
  | inl (known, f, g) ↦ elim (Bool-cases (text_beq known w)) [
    | inl same ↦
        rw (init_next users u w auth auth ok (rw same at g)) (auth_init-keeps users auth k p e)
    | inr other ↦ rw (init_next users u w auth auth fail (rw other at g)) e
  ]
  | inr (f, g) ↦
      let auth' : AuthTab = (name_of u, passwd_of w) ∷ auth in
      rw (init_next users u w auth auth' ok g) (
        auth_init-keeps users auth' k p (
          ground (
            arith,
            lookup-cons k (name_of u) (passwd_of w) auth,
            text_beq_iff (name_of u) k,
            f,
            e,
          )))
]

take_short : (n : ℕ) (xs : List ℕ) → length xs ≤ n → take n xs ≡ xs
take_short zero [] h = refl
take_short (suc n) [] h = refl
take_short zero (x ∷ xs) h = absurd (omega (arith, h))
take_short (suc n) (x ∷ xs) h = ap (λ ys. x ∷ ys) (take_short n xs (omega (arith, h)))

-- Names and passwords without a zero in them, the passwords of up to 15 bytes
abbrev pub AreTexts : List (List ℕ × List ℕ) → Type 0
AreTexts [] = Unit {0}
AreTexts ((u, w) ∷ users) = IsText u × IsText w × (length w ≤ 15) × AreTexts users

AreTexts-Occurs :
    (users : List (List ℕ × List ℕ)) (u w : List ℕ)
    → AreTexts users
    → Occurs (u, w) users
    → IsText w × (length w ≤ 15)
AreTexts-Occurs [] u w a o = absurd o
AreTexts-Occurs ((u', w') ∷ users) u w a (inl e) =
    let it : w' ≡ w = ap (λ (p : List ℕ × List ℕ). p.1) (sym e) in
    subst (λ v. IsText v × (length v ≤ 15)) it (a.1, a.2)
AreTexts-Occurs ((u', w') ∷ users) u w a (inr o) = AreTexts-Occurs users u w a.3 o

-- Where all users went in, each of them is there with its password.
auth_init-all :
    (users : List (List ℕ × List ℕ)) (auth : AuthTab) (u w : List ℕ)
    → (rtmq_auth_init users auth).0 ≡ ok
    → Occurs (u, w) users
    → length w ≤ 15
    → lookup (name_of u) (rtmq_auth_init users auth).1 ≡ some w
unfolding rtmq_auth_init
auth_init-all [] auth u w e o short = absurd o
auth_init-all ((u', w') ∷ users) auth u w e o short = elim (auth_add-cases auth u' w') [
  | inl (known, f, g) ↦ elim (Bool-cases (text_beq known w')) [
    | inl same ↦
        let next = init_next users u' w' auth auth ok (rw same at g) in
        rw next (elim o [
          | inl this ↦
              auth_init-keeps users auth (name_of u) w
                (ground (arith, f, this, (text_beq_iff known w').0 same))
          | inr later ↦ auth_init-all users auth u w (rw next at e) later short
        ])
    | inr other ↦
        absurd (ground (arith, rw (init_next users u' w' auth auth fail (rw other at g)) at e))
  ]
  | inr (f, g) ↦
      let auth' : AuthTab = (name_of u', passwd_of w') ∷ auth in
      let next = init_next users u' w' auth auth' ok g in
      rw next (elim o [
        | inl this ↦
            let its : w' ≡ w = ap (λ (p : List ℕ × List ℕ). p.1) (sym this) in
            let whole : passwd_of w' ≡ w = ap passwd_of its ∙ take_short 15 w short in
            let named : name_of u' ≡ name_of u =
              ap (λ (p : List ℕ × List ℕ). name_of p.0) (sym this) in
            auth_init-keeps users auth' (name_of u) w (
              ground (
                arith,
                lookup-cons (name_of u) (name_of u') (passwd_of w') auth,
                named,
                whole,
                text_beq_iff (name_of u') (name_of u),
              ))
        | inr later ↦ auth_init-all users auth' u w (rw next at e) later short
      ])
]

missing :
    (auth : AuthTab) (name u w : List ℕ)
    → name_of u ≡ name_of name
    → lookup (name_of name) auth ≡ none
    → lookup (name_of u) auth ≡ some w
    → ⊥
missing auth name u w t f g = ground (arith, f, rw t at g)

found :
    (auth : AuthTab) (name u w : List ℕ) {known : List ℕ}
    → name_of u ≡ name_of name
    → lookup (name_of name) auth ≡ some known
    → lookup (name_of u) auth ≡ some w
    → known ≡ w
found auth name u w t f g = ground (arith, f, rw t at g)

-- Over the table of the users configured, where all of them went in, without zero bytes and with passwords of up to 15
-- bytes: a client that sends a name and a password, each of which a zero byte ends, is let in just when a configured user
-- has that password and a name whose first 31 bytes are those of the name sent.
pub rtmq_auth_check-init :
    (users : List (List ℕ × List ℕ)) (name passwd after_name after_passwd : List ℕ)
    → (rtmq_auth_init users []).0 ≡ ok
    → AreTexts users
    → IsText name
    → IsText passwd
    → (allowed : Bool) × (rtmq_auth_check
          (rtmq_auth_init users []).1
          (name ++ (0 ∷ after_name))
          (passwd ++ (0 ∷ after_passwd))
        ≡ some allowed)
      × ((allowed ≡ true) ↔ (
          (u w : List ℕ) × Occurs (u, w) users
          × (take (usr_max_len - 1) u ≡ take (usr_max_len - 1) name)
          × (w ≡ passwd)))
unfolding rtmq_auth_check
rtmq_auth_check-init users name passwd after_name after_passwd e a n p =
    let auth = (rtmq_auth_init users []).1 in
    let read = cstring-IsText name after_name n in
    elim (Option-cases (lookup (name_of name) auth)) [
      | inl f ↦ (
        false,
        rw (rtmq_auth_check, read, f) refl,
        (
          λ h. absurd (cc),
          λ h. absurd (
              missing auth name h.0 h.1 h.3 f
                (auth_init-all users [] h.0 h.1 e h.2 (AreTexts-Occurs users h.0 h.1 a h.2).1)),
        ),
      )
      | inr (known, f) ↦ elim (auth_init-from users [] (name_of name) known f) [
        | inl h ↦ absurd (unfold lookup in ground (arith, h))
        | inr (u, w, o, t, q) ↦
            let (text, short) = AreTexts-Occurs users u w a o in
            let its : w ≡ known = sym (take_short 15 w short) ∙ q in
            let same = strcmp_eq-IsText known passwd after_passwd (subst IsText its text) p in
            (
              strcmp_eq known (passwd ++ (0 ∷ after_passwd)),
              rw (rtmq_auth_check, read, f) refl,
              (
                λ h. (u, w, o, t, its ∙ same.0 h),
                λ h. same.1 (
                    found auth name h.0 h.1 h.3 f
                      (auth_init-all users [] h.0 h.1 e h.2 (AreTexts-Occurs users h.0 h.1 a h.2).1)
                    ∙ h.4),
              ),
            )
      ]
    ]
