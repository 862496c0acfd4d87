-- ===== src/Common/Keys.antt =====
-- Keys of the program's tables: a Boolean comparison that decides equality.
use Prim.Native.Nat.{ℕ}
use mathlib.Core.Path.{◌≡◌}
use mathlib.Core.Logic.{◌↔◌}
use mathlib.Core.Bool.{Bool, true, ◌&&◌}
use native.Mathlib.Omega.{arith}
use beehive_im.Common.Tests.{nat_beq, nat_beq_iff}

pub record Key (K : Type 0) : Type 0 where
  pub beq : K → K → Bool
  pub beq_iff : (a b : K) → (beq a b ≡ true) ↔ (a ≡ b)

infix 50 ◌==◌
abbrev pub ◌==◌ : {K : Type 0} ⦃e : Key K⦄ → K → K → Bool
◌==◌ ⦃e⦄ = e.beq

instance abbrev pub nat_key : Key ℕ
nat_key = record { beq = nat_beq; beq_iff = nat_beq_iff }

-- Two identifiers compared one after the other, as (sid, cid) is.
abbrev pub pair_beq : ℕ × ℕ → ℕ × ℕ → Bool
pair_beq a b = nat_beq a.0 b.0 && nat_beq a.1 b.1

pub pair_beq_iff : (a b : ℕ × ℕ) → (pair_beq a b ≡ true) ↔ (a ≡ b)
pair_beq_iff a b = ground arith

instance abbrev pub pair_key : Key (ℕ × ℕ)
pair_key = record { beq = pair_beq; beq_iff = pair_beq_iff }
