-- ===== src/Rtmq/Auth.antt =====
-- Who may connect: rtmq_auth_add, rtmq_auth_check and rtmq_auth_init of src/clang/lib/rtmq/server/rtmq_recv.c. The tree of
-- users is a table by name. A C string is the list of its bytes before the first zero.
pub mod Known
mod Tests
use beehive_im.Common.{
  ℕ, ◌-◌, ◌≡◌, ◌↔◌, refl, Bool, true, false, ◌&&◌, Option, none, some, List, [], ◌∷◌, if◌then◌else◌,
  Key, ◌==◌, nat_key, nat_beq, nat_beq_iff, take, arith,
}
use beehive_im.Table
use beehive_im.Table.{Table, lookup}
use beehive_im.Chat.{Status, ok, fail}

abbrev pub text_beq : List ℕ → List ℕ → Bool
text_beq [] [] = true
text_beq [] (d ∷ t) = false
text_beq (c ∷ s) [] = false
text_beq (c ∷ s) (d ∷ t) = nat_beq c d && text_beq s t

pub text_beq_iff : (s t : List ℕ) → (text_beq s t ≡ true) ↔ (s ≡ t)
text_beq_iff [] [] = (λ e. refl, λ e. refl)
text_beq_iff [] (d ∷ t) = (λ e. absurd (cc), λ e. absurd (cc))
text_beq_iff (c ∷ s) [] = (λ e. absurd (cc), λ e. absurd (cc))
text_beq_iff (c ∷ s) (d ∷ t) = ground (arith, text_beq_iff s t, nat_beq_iff c d)

instance abbrev pub text_key : Key (List ℕ)
text_key = record { beq = text_beq; beq_iff = text_beq_iff }

-- RTMQ_USR_MAX_LEN and RTMQ_PWD_MAX_LEN, of which a string that `snprintf` wrote leaves one for the zero
abbrev pub usr_max_len : ℕ
usr_max_len = 32

abbrev pub pwd_max_len : ℕ
pwd_max_len = 16

abbrev pub AuthTab : Type 0
AuthTab = Table (List ℕ) (List ℕ)

unfoldable pub rtmq_auth_add : AuthTab → List ℕ → List ℕ → Status × AuthTab
rtmq_auth_add auth usr passwd = elim (lookup (take (usr_max_len - 1) usr) auth) [
  | some known ↦ (if text_beq known passwd then ok else fail, auth)
  | none ↦ elim (Table.insert (take (usr_max_len - 1) usr) (take (pwd_max_len - 1) passwd) auth) [
    | none ↦ (fail, auth)
    | some auth' ↦ (ok, auth')
  ]
]

-- `list_trav` over the users configured, which stops at the first failure
unfoldable pub rtmq_auth_init : List (List ℕ × List ℕ) → AuthTab → Status × AuthTab
rtmq_auth_init [] auth = (ok, auth)
rtmq_auth_init ((usr, passwd) ∷ users) auth =
    let (st, auth') = rtmq_auth_add auth usr passwd in
    let rest = rtmq_auth_init users auth' in elim st [ ok ↦ rest | fail ↦ (fail, auth') ]

-- The string at an address, by the bytes that follow; `none` where no zero does.
unfoldable pub cstring : List ℕ → Option (List ℕ)
cstring [] = none
cstring (b ∷ bytes) =
    let rest = cstring bytes in
    if b == 0 then some [] else elim rest [ none ↦ none | some s ↦ some (b ∷ s) ]

-- Whether `strcmp` of a string with the bytes at an address gives 0
unfoldable pub strcmp_eq : List ℕ → List ℕ → Bool
strcmp_eq s [] = false
strcmp_eq [] (b ∷ bytes) = b == 0
strcmp_eq (c ∷ s) (b ∷ bytes) = c == b && strcmp_eq s bytes

-- `usr` and `passwd` are the bytes at their addresses. `none` where the name does not end.
unfoldable pub rtmq_auth_check : AuthTab → List ℕ → List ℕ → Option Bool
rtmq_auth_check auth usr passwd = elim (cstring usr) [
  | none ↦ none
  | some name ↦ elim (lookup (take (usr_max_len - 1) name) auth) [
    | none ↦ some false
    | some known ↦ some (strcmp_eq known passwd)
  ]
]
