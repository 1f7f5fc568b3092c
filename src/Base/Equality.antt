-- ===== src/Base/Equality.antt =====
-- Python's `==` on numbers, texts and pairs of them, as an instance.
use Prim.Native.Nat.{ℕ}
use Prim.Native.String.{String}
use mathlib.Core.Path.{◌≡◌, refl}
use mathlib.Core.Logic.{◌↔◌}
use mathlib.Core.Bool.{Bool, true, ◌&&◌}
use native.Mathlib.Omega.{arith}
use text.Mathlib.Text.{◌==◌ as str_eq}
use text.Mathlib.TextEquality.{eq_iff}
use goggles.Base.Tests.{nat_beq, nat_beq_iff}

-- What a key of a dict or a member of a set offers.
pub record Eq {ℓ} (K : Type ℓ) : Type ℓ where
  pub same : (j k : K) → Bool
  pub same_iff : (j k : K) → (same j k ≡ true) ↔ (j ≡ k)

module _ {ℓ} {K : Type ℓ} where
  infix 50 ◌==◌
  abbrev pub ◌==◌ : ⦃keys : Eq K⦄ → K → K → Bool
  ◌==◌ ⦃keys⦄ j k = keys.same j k

  pub same_refl : ⦃keys : Eq K⦄ (k : K) → (k == k) ≡ true
  same_refl ⦃keys⦄ k = (keys.same_iff k k).1 refl

instance abbrev pub string_eq : Eq String
string_eq = record { same_iff = eq_iff; same = str_eq }

instance abbrev pub nat_eq : Eq ℕ
nat_eq = record { same_iff = nat_beq_iff; same = nat_beq }

module _ {ℓ κ} {A : Type ℓ} {B : Type κ} ⦃e : Eq A⦄ ⦃f : Eq B⦄ where
  pub pair_same_iff : (p q : A × B) → ((e.same p.0 q.0 && f.same p.1 q.1) ≡ true) ↔ (p ≡ q)
  pair_same_iff p q = (
    λ h. ground (arith, e.same_iff p.0 q.0, f.same_iff p.1 q.1),
    λ h. ground (arith, e.same_iff p.0 q.0, f.same_iff p.1 q.1),
  )

  instance abbrev pub pair_eq : Eq (A × B)
  pair_eq = record { same = λ p q. e.same p.0 q.0 && f.same p.1 q.1; same_iff = pair_same_iff }
