-- ===== src/Rtmq/Auth/Tests.antt =====
-- The theorem of the users at a concrete input.
use beehive_im.Common.{
  ℕ, ◌≡◌, ◌↔◌, Bool, true, some, List, [], ◌∷◌, ◌++◌, take, arith, refl, Occurs,
}
use beehive_im.Chat.{ok}
use beehive_im.Table.{lookup, insert}
use beehive_im.Rtmq.Auth.{rtmq_auth_init, rtmq_auth_add, rtmq_auth_check}
use beehive_im.Rtmq.Auth.Known.{rtmq_auth_check-init}

-- "qf" with the password "z1", "ad" with "x"
abbrev two_users : List (List ℕ × List ℕ)
two_users = (b'q' ∷ b'f' ∷ [], b'z' ∷ b'1' ∷ []) ∷ (b'a' ∷ b'd' ∷ [], b'x' ∷ []) ∷ []

two_users_ok : (rtmq_auth_init two_users []).0 ≡ ok
unfolding rtmq_auth_init rtmq_auth_add lookup insert
two_users_ok = refl

rtmq_auth_check-init_example :
    (allowed : Bool) × (rtmq_auth_check
        (rtmq_auth_init two_users []).1
        ((b'a' ∷ b'd' ∷ []) ++ (0 ∷ 0 ∷ []))
        ((b'x' ∷ []) ++ (0 ∷ []))
      ≡ some allowed)
    × ((allowed ≡ true) ↔ (
        (u w : List ℕ) × Occurs (u, w) two_users
        × (take 31 u ≡ b'a' ∷ b'd' ∷ [])
        × (w ≡ b'x' ∷ [])))
rtmq_auth_check-init_example =
    rtmq_auth_check-init two_users (b'a' ∷ b'd' ∷ []) (b'x' ∷ []) (0 ∷ []) [] two_users_ok
      (ground arith) (omega arith) (omega arith)
