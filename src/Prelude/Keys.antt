-- ===== src/Prelude/Keys.antt =====
-- Equality of keys as an instance: numbers, options and pairs.
use Prim.Native.Nat.{ℕ}
use mathlib.Core.Path.{◌≡◌, refl, ap}
use mathlib.Core.Logic.{◌↔◌}
use mathlib.Core.Bool.{Bool, true, false, ◌&&◌}
use mathlib.Core.Option.{Option, none, some}
use native.Mathlib.Omega.{arith}
use coal_pool_server.Prelude.Tests.{nat_beq, nat_beq_iff}

-- The type has a test on its values that tells whether two of them are one.
pub record Key {ℓ} (K : Type ℓ) : Type ℓ where
  pub same : K → K → Bool
  pub same_iff : (j k : K) → (same j k ≡ true) ↔ (j ≡ k)

instance abbrev pub nat_eq : Key ℕ
nat_eq = record { same = nat_beq; same_iff = nat_beq_iff }

-- The test, by the instance of the type.
abbrev pub ◌==◌ {κ} : {K : Type κ} ⦃test : Key K⦄ → K → K → Bool
◌==◌ ⦃test⦄ j k = test.same j k

infix 50 ◌==◌
abbrev pub option_beq {ℓ} : {A : Type ℓ} ⦃e : Key A⦄ → Option A → Option A → Bool
option_beq none none = true
option_beq none (some b) = false
option_beq (some a) none = false
option_beq (some a) (some b) = a == b

pub option_beq_iff {ℓ} :
    {A : Type ℓ} ⦃e : Key A⦄ (a b : Option A) → (option_beq a b ≡ true) ↔ (a ≡ b)
option_beq_iff none none = (λ h. refl, λ h. refl)
option_beq_iff none (some b) = (λ h. cc, λ h. cc)
option_beq_iff (some a) none = (λ h. cc, λ h. cc)
option_beq_iff ⦃e⦄ (some a) (some b) =
    (λ h. ap some ((e.same_iff a b).0 h), λ h. (e.same_iff a b).1 (cc))

instance abbrev pub option_eq {ℓ} : {A : Type ℓ} ⦃e : Key A⦄ → Key (Option A)
option_eq = record { same = option_beq; same_iff = option_beq_iff }

abbrev pub pair_beq {ℓ κ} : {A : Type ℓ} {B : Type κ} ⦃d : Key A⦄ ⦃e : Key B⦄ → A × B → A × B → Bool
pair_beq (a, b) (c, d) = a == c && b == d

pub pair_beq_iff {ℓ κ} :
    {A : Type ℓ} {B : Type κ} ⦃d : Key A⦄ ⦃e : Key B⦄ (p q : A × B)
    → (pair_beq p q ≡ true) ↔ (p ≡ q)
pair_beq_iff ⦃d⦄ ⦃e⦄ (a, b) (a', b') = (
  λ h. ground (arith, d.same_iff a a', e.same_iff b b'),
  λ h. ground (arith, d.same_iff a a', e.same_iff b b'),
)

instance abbrev pub pair_eq {ℓ κ} : {A : Type ℓ} {B : Type κ} ⦃d : Key A⦄ ⦃e : Key B⦄ → Key (A × B)
pair_eq = record { same = pair_beq; same_iff = pair_beq_iff }
